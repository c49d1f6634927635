-- ===== src/Deploy/Images/Laws.antt =====
-- What scripts/deploy/render_k8s_manifests.py checks of the images of a manifest.
use Prim.Native.String.{String, ◌++◌}
use service_order_os_service.Prelude.{
  false, List, [], ◌∷◌, All, arith, ◌≡◌, refl, ◌==◌, if◌then◌else◌,
}
use service_order_os_service.Exec.{ok, err, guard_passed}
use service_order_os_service.Deploy.Images.{
  system_exit, has_placeholder, extract_image_values, is_placeholder_like_image, check_images,
  some_images, validate_rendered_manifest_images,
}

module _ (upper : String → String) where
  -- An image that can be pulled, for what the script knows: a text that is there and no placeholder.
  abbrev pub IsImage : String → Type 0
  IsImage v = ((v == "") ≡ false) × (is_placeholder_like_image upper v ≡ false)

  -- A manifest that names images, all of them such, and in which no placeholder of an image is left.
  pub record IsDeployable (content : String) : Type 0 where
    pub resolved : has_placeholder content ≡ false
    pub first : String
    pub others : List String
    pub extracted : extract_image_values content ≡ first ∷ others
    pub images : All IsImage (first ∷ others)

  images_checked :
      (name : String) (vs : List String) → check_images upper name vs ≡ ok tt → All IsImage vs
  unfolding check_images
  images_checked name [] h = tt
  images_checked name (v ∷ vs) h =
      let (there, h') =
        guard_passed (v == "")
          (system_exit ("Rendered manifest " ++ (name ++ " contains an empty image field.")))
          (if is_placeholder_like_image upper v
            then err (
                system_exit (
                  "Rendered manifest "
                  ++ (name ++ (" still contains an unresolved image value: " ++ v))))
            else check_images upper name vs)
          tt h in
      let (real, rest) =
        guard_passed (is_placeholder_like_image upper v)
          (system_exit (
            "Rendered manifest " ++ (name ++ (" still contains an unresolved image value: " ++ v))))
          (check_images upper name vs) tt h' in
      ((there, real), images_checked name vs rest)

  pub images_validated :
      (name content : String)
      → validate_rendered_manifest_images upper name content ≡ ok tt
      → IsDeployable content
  unfolding validate_rendered_manifest_images some_images
  images_validated name content h =
      let (clear, rest) =
        guard_passed (has_placeholder content)
          (system_exit
            ("Rendered manifest " ++ (name ++ " still contains an unresolved image placeholder.")))
          (some_images upper name (extract_image_values content)) tt h in
      go (extract_image_values content) refl clear rest
    where
      go :
          (vs : List String)
          → extract_image_values content ≡ vs
          → has_placeholder content ≡ false
          → some_images upper name (extract_image_values content) ≡ ok tt
          → IsDeployable content
      go [] e clear rest = absurd (ground (arith, e, rest))
      go (v ∷ vs) e clear rest = record {
        resolved = clear;
        first = v;
        others = vs;
        extracted = e;
        images = images_checked name (v ∷ vs) (cc (e, rest));
      }
