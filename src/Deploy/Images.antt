-- ===== src/Deploy/Images.antt =====
-- Container images in scripts/deploy/render_k8s_manifests.py: the image that is given, and those that a
-- manifest names.
pub mod Laws
use Prim.Native.String
use Prim.Native.String.{String, ◌++◌, count}
use service_order_os_service.Prelude.{
  Bool, true, false, not, ◌&&◌, ◌||◌, Char, code, eqb, List, [], ◌∷◌, any, ◌==◌, if◌then◌else◌,
}
use service_order_os_service.Exec.{Result, ok, err, Exn, other_error}
use service_order_os_service.Text.{is_space, strip}
use service_order_os_service.Text.Search.{starts_with, skip, occurs, behind}
use service_order_os_service.Deploy.EnvFile.{splitlines}

-- `raise SystemExit(message)`
abbrev pub system_exit : String → Exn
system_exit message = other_error message

-- One or more characters of a class, and then the closing text up to the end.
unfoldable pub body_then : (Char → Bool) → String → String → Bool
body_then inside close String.[] = false
body_then inside close (String.◌∷◌ c s) = inside c && (s == close || body_then inside close s)

-- The full match of an opening text, characters of a class and a closing text.
unfoldable pub enclosed : String → (Char → Bool) → String → String → Bool
unfolding body_then
enclosed opening inside close s =
    starts_with s opening && body_then inside close (skip (count opening) s)

-- `IMAGE_PLACEHOLDER_PATTERNS`: `${…}`, `__…__` and `<…>`
unfoldable pub fits_pattern : String → Bool
unfolding enclosed
fits_pattern s =
    enclosed "${" (λ c. not (eqb (code c) 0x7d)) "}" s
    || enclosed "__" (λ c. not (eqb (code c) 0x0a)) "__" s
    || enclosed "<" (λ c. not (eqb (code c) 0x3e)) ">" s

-- `any(char.isspace() for char in normalized)`
unfoldable pub has_space : String → Bool
has_space String.[] = false
has_space (String.◌∷◌ c s) = is_space c || has_space s

-- `extract_image_values`, of the lines that are left
unfoldable pub image_values : List String → List String
image_values [] = []
image_values (l ∷ ls) =
    let rest = image_values ls in
    if starts_with (strip l) "image:" then strip (behind ":" (strip l)) ∷ rest else rest

-- `extract_image_values`
unfoldable pub extract_image_values : String → List String
unfolding image_values
extract_image_values content = image_values (splitlines content)

-- `IMAGE_PLACEHOLDER`
abbrev pub image_placeholder : String
image_placeholder = "__API_IMAGE__"

-- `LEGACY_IMAGE_PLACEHOLDER`
abbrev pub legacy_image_placeholder : String
legacy_image_placeholder = "${API_IMAGE}"

-- `any(token in content for token in unresolved_tokens)`
abbrev pub has_placeholder : String → Bool
has_placeholder content =
    occurs image_placeholder content || occurs legacy_image_placeholder content

module _ (upper : String → String) where
  -- `is_placeholder_like_image`
  unfoldable pub is_placeholder_like_image : String → Bool
  unfolding fits_pattern
  is_placeholder_like_image value = occurs "PLACEHOLDER" (upper value) || fits_pattern value

  -- `normalize_image_ref`
  unfoldable pub normalize_image_ref : String → Result String
  normalize_image_ref image =
      let normalized = strip image in
      if normalized == ""
      then err (system_exit "The --image value must be a non-empty container image reference.")
      else if has_space normalized
      then err (system_exit "The --image value must not contain whitespace.")
      else if is_placeholder_like_image normalized
      then err (
          system_exit
            "The --image value must be a rendered container image reference, not a placeholder.")
      else ok normalized

  -- The loop of `validate_rendered_manifest_images` over the images that are left.
  unfoldable pub check_images : String → List String → Result (Unit {0})
  check_images name [] = ok tt
  check_images name (v ∷ vs) =
      let rest = check_images name vs in
      if v == ""
      then err (system_exit ("Rendered manifest " ++ (name ++ " contains an empty image field.")))
      else if is_placeholder_like_image v
      then err (
          system_exit (
            "Rendered manifest " ++ (name ++ (" still contains an unresolved image value: " ++ v))))
      else rest

  -- The images of a manifest, of which there is one at least.
  unfoldable pub some_images : String → List String → Result (Unit {0})
  unfolding check_images
  some_images name [] =
      err (system_exit ("Rendered manifest " ++ (name ++ " does not contain an image field.")))
  some_images name (v ∷ vs) = check_images name (v ∷ vs)

  -- `validate_rendered_manifest_images`, of the text that the file holds
  unfoldable pub validate_rendered_manifest_images : String → String → Result (Unit {0})
  unfolding some_images
  validate_rendered_manifest_images name content =
      if has_placeholder content
      then err (
          system_exit
            ("Rendered manifest " ++ (name ++ " still contains an unresolved image placeholder.")))
      else some_images name (extract_image_values content)
