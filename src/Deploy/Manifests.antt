-- ===== src/Deploy/Manifests.antt =====
-- scripts/deploy/render_k8s_manifests.py: what of an environment file goes into the secret and what into
-- the configuration map, and the manifests that are written. The directory of the output is a dict from
-- names of files to their texts.
pub mod Laws
pub mod Rendered
use Prim.Native.String
use Prim.Native.String.{String, ◌++◌}
use service_order_os_service.Prelude.{
  Bool, true, false, not, ◌&&◌, ◌||◌, code, ltb, Option, none, some, is_some, List, [], ◌∷◌, any,
  ◌==◌, if◌then◌else◌,
}
use service_order_os_service.Prelude.Dict.{Dict, lookup, insert}
use service_order_os_service.Exec.{
  Exec, Result, ok, err, other_error, pure, raise, lift, modify, raise_if, ◌>>=◌, ◌>>◌,
}
use service_order_os_service.Text.{is_blank}
use service_order_os_service.Text.Search.{same_char, replace_first, replace}
use service_order_os_service.Deploy.EnvFile.{join_lines, parse_env_file}
use service_order_os_service.Deploy.Images.{
  image_placeholder, legacy_image_placeholder, system_exit, normalize_image_ref,
  validate_rendered_manifest_images,
}

-- What the script uses of Python and of the files: `str.upper`, `json.dumps` of a text, the text of a
-- manifest of the repository, and the text of the environment file.
pub record RenderReader : Type 0 where
  pub upper : String → String
  pub yaml_quote : String → String
  pub manifest : String → Result String
  pub env_file : Result String

-- `key in keys`
abbrev pub one_of : List String → String → Bool
one_of keys key = any (λ k. k == key) keys

-- `SENSITIVE_KEYS`
abbrev pub sensitive_keys : List String
sensitive_keys =
    "APPROVAL_TOKEN_SECRET" ∷ "APPROVAL_TOKEN_SECRET_FILE" ∷ "DATABASE_URL" ∷ "JWT_SECRET"
    ∷ "JWT_SECRET_FILE" ∷ "SMTP_PASSWORD" ∷ "SMTP_PASSWORD_FILE" ∷ "SMTP_USERNAME"
    ∷ "TESTMAIL_API_KEY" ∷ "CUSTOMER_JWT_SECRET" ∷ "CUSTOMER_JWT_SECRET_FILE" ∷ "DD_API_KEY"
    ∷ "RABBITMQ_URL" ∷ []

-- `REQUIRED_SECRET_KEYS`, as `sorted` orders them
abbrev pub required_secret_keys : List String
required_secret_keys =
    "APPROVAL_TOKEN_SECRET" ∷ "CUSTOMER_JWT_SECRET" ∷ "DATABASE_URL" ∷ "JWT_SECRET" ∷ []

unfoldable pub is_sensitive : String → Bool
is_sensitive key = one_of sensitive_keys key

-- `{key: value for key, value in values.items() if test(key) and value.strip()}`
unfoldable pub filled_where : (String → Bool) → Dict String → Dict String
filled_where test [] = []
filled_where test ((k, v) ∷ d) =
    let rest = filled_where test d in if test k && not (is_blank v) then (k, v) ∷ rest else rest

abbrev pub secret_values : Dict String → Dict String
secret_values = filled_where is_sensitive

abbrev pub config_values : Dict String → Dict String
config_values = filled_where λ k. not (is_sensitive k)

-- `sorted(REQUIRED_SECRET_KEYS - secret_values.keys())`, of the required keys that are left
unfoldable pub missing_keys : List String → Dict String → List String
missing_keys [] d = []
missing_keys (k ∷ ks) d =
    let rest = missing_keys ks d in if is_some (lookup k d) then rest else k ∷ rest

abbrev pub is_missing : List String → Bool
is_missing [] = false
is_missing (k ∷ ks) = true

-- `", ".join(keys)`
unfoldable pub listing : List String → String
listing [] = ""
listing (k ∷ []) = k
listing (k ∷ l ∷ ks) = k ++ (", " ++ listing (l ∷ ks))

-- `values.setdefault(key, default)`
abbrev pub set_default : String → String → Dict String → Dict String
set_default key default d = if is_some (lookup key d) then d else insert key default d

-- The values of `main`, from the text of the environment file.
unfoldable pub deployed_values : String → Dict String
deployed_values text =
    insert "MIGRATE_ON_STARTUP" "false" (set_default "EMAIL_PROVIDER" "NOOP" (parse_env_file text))

-- The order of texts, by their characters.
unfoldable pub text_le : String → String → Bool
text_le String.[] t = true
text_le (String.◌∷◌ c s) String.[] = false
text_le (String.◌∷◌ c s) (String.◌∷◌ d t) = ltb (code c) (code d) || same_char c d && text_le s t

abbrev place : String × String → Dict String → Dict String
place (k, v) [] = (k, v) ∷ []
place (k, v) ((j, w) ∷ d) = if text_le k j then (k, v) ∷ (j, w) ∷ d else (j, w) ∷ place (k, v) d

-- The items in the order of `sorted(values)`.
unfoldable pub sorted_items : Dict String → Dict String
unfolding text_le
sorted_items [] = []
sorted_items (e ∷ d) = place e (sorted_items d)

unfoldable pub value_lines : (String → String) → Dict String → List String
value_lines quote [] = []
value_lines quote ((k, v) ∷ d) = ("  " ++ (k ++ (": " ++ quote v))) ∷ value_lines quote d

-- `["type: Opaque" if kind == "Secret" else None]`, less the `None`, before other lines
abbrev type_line : String → List String → List String
type_line kind ls = if kind == "Secret" then "type: Opaque" ∷ ls else ls

-- The text that `write_manifest` writes.
unfoldable pub manifest_text :
    (String → String) → String → String → String → String → Dict String → String
unfolding value_lines sorted_items
manifest_text quote kind name namespace section_name values =
    join_lines (
      "apiVersion: v1"
      ∷ ("kind: " ++ kind)
      ∷ "metadata:"
      ∷ ("  name: " ++ name)
      ∷ ("  namespace: " ++ namespace)
      ∷ type_line kind ((section_name ++ ":") ∷ value_lines quote (sorted_items values)))
    ++ "\n"

abbrev pub static_manifests : List String
static_manifests =
    "namespace.yaml" ∷ "job-migrate.yaml" ∷ "deployment.yaml" ∷ "deployment-worker.yaml"
    ∷ "service.yaml" ∷ "hpa.yaml" ∷ "ingress.yaml" ∷ []

abbrev pub image_manifests : List String
image_manifests = "job-migrate.yaml" ∷ "deployment.yaml" ∷ "deployment-worker.yaml" ∷ []

-- The four replacements in a static manifest.
unfoldable pub filled_in : String → String → String → String
filled_in namespace image content = replace legacy_image_placeholder image (
    replace image_placeholder image (
      replace_first "name: service-order\n" ("name: " ++ (namespace ++ "\n"))
        (replace "namespace: service-order" ("namespace: " ++ namespace) content)))

-- `path.write_text(content)`
abbrev pub write : String → String → Exec (Dict String) (Unit {0})
write name content = modify (insert name content)

module _ (py : RenderReader) where
  -- One turn of the loop of `render_static_manifests`.
  unfoldable pub render_static : String → String → String → Exec (Dict String) (Unit {0})
  render_static namespace image name = do
    content ← lift (py.manifest name)
    write name (filled_in namespace image content)
    if one_of image_manifests name
        then lift
            (validate_rendered_manifest_images py.upper name (filled_in namespace image content))
        else pure tt

  -- `render_static_manifests`, of the manifests that are left
  unfoldable pub render_static_manifests :
      String → String → List String → Exec (Dict String) (Unit {0})
  unfolding render_static
  render_static_manifests namespace image [] = pure tt
  render_static_manifests namespace image (name ∷ names) = do
    render_static namespace image name
    render_static_manifests namespace image names

  -- `main` from the secrets on: what it writes of some values
  unfoldable pub render_values : String → String → Dict String → Exec (Dict String) (Unit {0})
  unfolding missing_keys
  render_values namespace image values = do
    raise_if (is_missing (missing_keys required_secret_keys (secret_values values))) (
        system_exit (
          "Missing required secret keys in env file: "
          ++ listing (missing_keys required_secret_keys (secret_values values))))
    render_static_manifests namespace image static_manifests
    write "configmap.rendered.yaml" (
        manifest_text py.yaml_quote "ConfigMap" "service-order-os-service-config" namespace "data"
          (config_values values))
    write "secret.rendered.yaml" (
        manifest_text py.yaml_quote "Secret" "service-order-os-service-secret" namespace
          "stringData" (secret_values values))

  -- `main`, on the image and the namespace of the command line
  unfoldable pub render : String → String → Exec (Dict String) (Unit {0})
  render image namespace = do
    normalized ← lift (normalize_image_ref py.upper image)
    text ← lift py.env_file
    render_values namespace normalized (deployed_values text)
