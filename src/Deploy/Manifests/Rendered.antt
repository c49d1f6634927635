-- ===== src/Deploy/Manifests/Rendered.antt =====
-- The directory that a run of scripts/deploy/render_k8s_manifests.py leaves behind.
use Prim.Native.String.{String}
use service_order_os_service.Prelude.{
  true, false, some, is_some, List, [], ◌∷◌, arith, ◌≡◌, refl, sym, subst, ap, ◌==◌, eq_iff, ◌⊎◌,
  Bool-cases, inl, inr,
}
use service_order_os_service.Prelude.Dict.{Dict, lookup, insert, lookup-insert}
use service_order_os_service.Exec.{Exec, Result, ok, err, lift, ◌>>=◌, ◌>>◌, bind_returned}
use service_order_os_service.Deploy.Images.{normalize_image_ref, validate_rendered_manifest_images}
use service_order_os_service.Deploy.Images.Laws.{IsDeployable, images_validated}
use service_order_os_service.Deploy.Manifests.{
  RenderReader, one_of, secret_values, config_values, deployed_values, missing_keys,
  required_secret_keys, image_manifests, static_manifests, manifest_text, is_missing, write,
  filled_in, render_static, render_static_manifests, render_values, render,
}

module _ (py : RenderReader) where
  -- The directory has a manifest of that name that can be deployed.
  abbrev pub HasDeployable : String → Dict String → Type 0
  HasDeployable name files =
      (content : String) × (lookup name files ≡ some content) × IsDeployable py.upper content

  -- The directory has a text under that name.
  abbrev pub HasText : String → String → Dict String → Type 0
  HasText name content files = lookup name files ≡ some content

  module _ (namespace image : String) where
    static_written :
        (name : String) (s t : Dict String)
        → render_static py namespace image name s ≡ (ok tt, t)
        → (content : String) × (t ≡ insert name content s)
          × (one_of image_manifests name ≡ true
              → validate_rendered_manifest_images py.upper name content ≡ ok tt)
    unfolding render_static
    static_written name s t h = go (py.manifest name) refl
      where
        go :
            (r : Result String)
            → py.manifest name ≡ r
            → (content : String) × (t ≡ insert name content s)
              × (one_of image_manifests name ≡ true
                  → validate_rendered_manifest_images py.upper name content ≡ ok tt)
        go (err x) e = absurd (ground (arith, e, h))
        go (ok content) e = elim (Bool-cases (one_of image_manifests name)) [
          | inl images ↦ (
            filled_in namespace image content,
            ground (arith, e, h, images),
            λ again. ground (arith, e, h, images),
          )
          | inr plain ↦ (
            filled_in namespace image content,
            ground (arith, e, h, plain),
            λ images. absurd (ground (arith, plain, images)),
          )
        ]

    static_rendered :
        (name m : String) (s t : Dict String)
        → render_static py namespace image name s ≡ (ok tt, t)
        → one_of image_manifests m ≡ true
        → ((name == m) ≡ true) ⊎ HasDeployable m s
        → HasDeployable m t
    static_rendered name m s t h images there =
        let (content, written, validated) = static_written name s t h in
        elim (Bool-cases (name == m)) [
          | inl same ↦ (
            content,
            ground (arith, written, lookup-insert name m content s, same),
            images_validated py.upper name content (
                validated (
                  subst (λ x. one_of image_manifests x ≡ true) (sym ((eq_iff name m).0 same))
                    images)),
          )
          | inr other ↦ elim there [
            | inl same ↦ absurd (ground (arith, same, other))
            | inr (kept, found, deployable) ↦ (
              kept,
              ground (arith, written, lookup-insert name m content s, other, found),
              deployable,
            )
          ]
        ]

    statics_rendered :
        (names : List String) (m : String) (s t : Dict String)
        → render_static_manifests py namespace image names s ≡ (ok tt, t)
        → one_of image_manifests m ≡ true
        → (one_of names m ≡ true) ⊎ HasDeployable m s
        → HasDeployable m t
    unfolding render_static_manifests
    statics_rendered [] m s t h images (inl none_left) = absurd (ground (arith, none_left))
    statics_rendered [] m s t h images (inr there) =
        subst (HasDeployable m) (ap (λ (x : Result (Unit {0}) × Dict String). x.1) h) there
    statics_rendered (n ∷ names) m s t h images there =
        let (u, r, first, rest) =
          bind_returned (render_static py namespace image n)
            (λ _. render_static_manifests py namespace image names) tt s t h in
        statics_rendered names m r t rest images (elim (Bool-cases (n == m)) [
          | inl same ↦ inr (static_rendered n m s r first images (inl same))
          | inr other ↦ elim there [
            | inl listed ↦ inl (ground (arith, listed, other))
            | inr kept ↦ inr (static_rendered n m s r first images (inr kept))
          ]
        ])

differ :
    (n m : String)
    → one_of image_manifests n ≡ false
    → one_of image_manifests m ≡ true
    → (n == m) ≡ false
differ n m other images = elim (Bool-cases (n == m)) [
  | inl same ↦ absurd (
      let images' : one_of image_manifests n ≡ true =
        subst (λ x. one_of image_manifests x ≡ true) (sym ((eq_iff n m).0 same)) images in
      ground (arith, other, images'))
  | inr apart ↦ apart
]

-- Another file that is written leaves a manifest as it is.
kept_beside :
    (py : RenderReader) (n m content : String) (s : Dict String)
    → one_of image_manifests n ≡ false
    → one_of image_manifests m ≡ true
    → HasDeployable py m s
    → HasDeployable py m (insert n content s)
kept_beside py n m content s other images (kept, found, deployable) =
    (kept, ground (arith, lookup-insert n m content s, differ n m other images, found), deployable)

none_missing :
    (ks : List String) (d : Dict String) (k : String)
    → is_missing (missing_keys ks d) ≡ false
    → one_of ks k ≡ true
    → is_some (lookup k d) ≡ true
unfolding missing_keys
none_missing [] d k h e = absurd (ground (arith, e))
none_missing (j ∷ ks) d k h e = ground (arith, eq_iff j k, none_missing ks d k)

module _ (py : RenderReader) where
  -- What is in the directory after a run, for the text of the environment file.
  pub record IsRendered (namespace text : String) (files : Dict String) : Type 0 where
    pub required :
        (k : String)
        → one_of required_secret_keys k ≡ true
        → is_some (lookup k (secret_values (deployed_values text))) ≡ true
    pub secrets :
        lookup "secret.rendered.yaml" files
        ≡ some (
            manifest_text py.yaml_quote "Secret" "service-order-os-service-secret" namespace
              "stringData"
              (secret_values (deployed_values text)))
    pub settings :
        lookup "configmap.rendered.yaml" files
        ≡ some (
            manifest_text py.yaml_quote "ConfigMap" "service-order-os-service-config" namespace
              "data"
              (config_values (deployed_values text)))
    pub deployable : (m : String) → one_of image_manifests m ≡ true → HasDeployable py m files

  module _ (namespace image text : String) where
    abbrev values : Dict String
    values = deployed_values text

    abbrev config_text : String
    config_text =
        manifest_text py.yaml_quote "ConfigMap" "service-order-os-service-config" namespace "data"
          (config_values values)

    abbrev secret_text : String
    secret_text =
        manifest_text py.yaml_quote "Secret" "service-order-os-service-secret" namespace
          "stringData" (secret_values values)

    abbrev writes : Exec (Dict String) (Unit {0})
    writes = do
      write "configmap.rendered.yaml" config_text
      write "secret.rendered.yaml" secret_text

    values-IsRendered :
        (s t : Dict String)
        → render_values py namespace image values s ≡ (ok tt, t)
        → IsRendered namespace text t
    unfolding render_values
    values-IsRendered s t h =
        elim (Bool-cases (is_missing (missing_keys required_secret_keys (secret_values values)))) [
          | inl missing ↦ absurd (ground (arith, missing, h))
          | inr complete ↦
              let (u, r, statics, rest) =
                bind_returned (render_static_manifests py namespace image static_manifests)
                  (λ _. writes) tt s t (ground (arith, complete, h)) in
              subst (IsRendered namespace text)
                (ap (λ (x : Result (Unit {0}) × Dict String). x.1) rest)
                record {
                  required =
                      λ k. none_missing required_secret_keys (secret_values values) k complete;
                  secrets = cc (
                      lookup-insert "secret.rendered.yaml" "secret.rendered.yaml" secret_text
                        (insert "configmap.rendered.yaml" config_text r));
                  settings = cc (
                    lookup-insert "secret.rendered.yaml" "configmap.rendered.yaml" secret_text
                        (insert "configmap.rendered.yaml" config_text r),
                    lookup-insert "configmap.rendered.yaml" "configmap.rendered.yaml" config_text r,
                  );
                  deployable = λ m images.
                      kept_beside py "secret.rendered.yaml" m secret_text
                        (insert "configmap.rendered.yaml" config_text r) refl images
                        (kept_beside py "configmap.rendered.yaml" m config_text r refl images (
                          statics_rendered py namespace image static_manifests m s r statics images
                            (inl (ground (arith, images)))));
                }
        ]

  -- A run that returns: the environment file was read; every required secret is among the
  -- secret's values; the secret and the configuration map are written of its sensitive and of its other values; and every
  -- manifest of a workload is written, with no placeholder of an image left in it and with images only
  -- that are no placeholders.
  pub render_returned :
      (image namespace : String) (s t : Dict String)
      → render py image namespace s ≡ (ok tt, t)
      → (text : String) × (py.env_file ≡ ok text) × IsRendered namespace text t
  unfolding render
  render_returned image namespace s t h =
      let (normalized, r, e, h') =
        bind_returned (lift (normalize_image_ref py.upper image))
          (λ i. lift py.env_file >>= λ x. render_values py namespace i (deployed_values x)) tt s t
          h in
      let (text, r', e', h'') =
        bind_returned (lift py.env_file)
          (λ x. render_values py namespace normalized (deployed_values x)) tt r t h' in
      (
        text,
        ap (λ (x : Result String × Dict String). x.0) e',
        values-IsRendered namespace normalized text r' t h'',
      )
