-- ===== src/Tests/EnvFile.antt =====
-- An environment file that is prepared, written and read.
use Prim.Native.String.{String}
use service_order_os_service.Prelude.{
  none, some, is_some, List, [], ◌∷◌, ◌≡◌, refl, Bool-cases, inl, inr, if◌then◌else◌,
}
use service_order_os_service.Prelude.Dict.{Dict, lookup, insert}
use service_order_os_service.Exec.{ok}
use service_order_os_service.Config.Urls.{
  describe_database_target, without_slashes, check_target, validate_runtime_database_url,
}
use service_order_os_service.Text.{is_space, lstrip, rstrip, strip}
use service_order_os_service.Text.Search.{starts_with, split_on, clean, has_char, before, behind}
use service_order_os_service.Text.Search.Laws.{lacks}
use service_order_os_service.Deploy.EnvFile.{
  parse_lines, is_break, is_setting, splitlines, join_lines, load_lines, parse_env_file,
  value_or_empty, rendered, rendered_lines, rewrite_env_file,
}
use service_order_os_service.Deploy.EnvFile.Lines.{IsLine}
use service_order_os_service.Deploy.EnvFile.Values.{parse_env_file-ValuesAreLines}
use service_order_os_service.Deploy.EnvFile.Reread.{rewritten}
use service_order_os_service.Deploy.EnvFields.{
  EnvReader, require_non_empty, require_any, each, each_item, in_turn, set_number,
  normalize_boolean, normalize_positive_integer, normalize_optional_boolean,
  normalize_optional_positive_integer,
}
use service_order_os_service.Deploy.PrepareEnv.{
  prepare_env, prepare_values, validate_required_text_fields, validate_environment,
  normalize_email_provider, provider_of, validate_database_url, validate_app_base_url,
  normalize_list_field, list_items, array_items, validate_secret_contract, raise_log_level,
}
use service_order_os_service.Deploy.PrepareEnv.Written.{WritesLines, passed_through}
use service_order_os_service.Text.Search.{replace_first, replace_from, skip, occurs}
use service_order_os_service.Deploy.Images.{
  image_values, extract_image_values, is_placeholder_like_image, fits_pattern, enclosed, body_then,
  has_space, check_images, some_images, normalize_image_ref, validate_rendered_manifest_images,
}
use service_order_os_service.Deploy.Manifests.{
  RenderReader, is_sensitive, filled_where, missing_keys, filled_in, render_static, manifest_text,
  render_static_manifests, render_values, deployed_values, render,
}
use service_order_os_service.Deploy.Manifests.Laws.{not_blank}
use service_order_os_service.Deploy.Pipeline.{secrets_deployed}
use service_order_os_service.Tests.Data.{plain, same_case}
use service_order_os_service.Tests.ListText.{load_list}

-- A text in which every end of a line is written as a mark, before what follows it.
unfoldable line_of : String → String → String
unfolding is_break
line_of String.[] k = k
line_of (String.◌∷◌ c t) k =
    if is_break c then String.◌∷◌ "?" (line_of t k) else String.◌∷◌ c (line_of t k)

line_of-IsLine : (t k : String) → IsLine k → IsLine (line_of t k)
unfolding line_of lacks
line_of-IsLine String.[] k h = h
line_of-IsLine (String.◌∷◌ c t) k h = elim (Bool-cases (is_break c)) [
  | inl end ↦ rw end (line_of-IsLine t k h)
  | inr inside ↦ rw inside (rw inside (line_of-IsLine t k h))
]

unfoldable items_line : List String → String
unfolding line_of
items_line [] = "]"
items_line (t ∷ ts) = line_of t (String.◌∷◌ "," (items_line ts))

items_line-IsLine : (ts : List String) → IsLine (items_line ts)
unfolding items_line lacks is_break
items_line-IsLine [] = refl
items_line-IsLine (t ∷ ts) =
    line_of-IsLine t (String.◌∷◌ "," (items_line ts)) (items_line-IsLine ts)

abbrev line_reader : EnvReader
line_reader = record {
  settings = record {
    show = plain;
    loads = load_list;
    upper = same_case;
    read_text = λ path. ok path;
  };
  urls = record {
    urlsplit = λ url. ok (record {
      username = some "os_service_user";
      hostname = some "db";
      port = ok none;
      path = "/os_service_db";
    });
    lower = same_case;
  };
  lower = same_case;
  int_of = λ t. none;
  int_text = λ n. "1";
  dumps = λ ts. String.◌∷◌ "[" (items_line ts);
  urlparse = λ url. ok ("http", url);
}

line_reader-WritesLines : WritesLines line_reader
unfolding lacks is_break
line_reader-WritesLines = record {
  number_line = λ n. refl;
  array_line = items_line-IsLine;
  upper_line = λ v h. h;
}

abbrev env_text : String
env_text =
    "# production\nAPP_NAME=os\nAPP_VERSION=1\nENVIRONMENT=test\nLOG_LEVEL=INFO\nLOG_JSON= true \nDATABASE_URL=postgresql://db\nAPP_BASE_URL=http://os\nCORS_ALLOWED_ORIGINS=a, b\nTRUSTED_HOSTS=os\nJWT_ALGORITHM=HS256\nAPPROVAL_TOKEN_SECRET=a\nJWT_SECRET = j=1\nCUSTOMER_JWT_SECRET=c\n"

abbrev written_text : String
written_text =
    "# production\nAPP_NAME=os\nAPP_VERSION=1\nENVIRONMENT=test\nLOG_LEVEL=INFO\nLOG_JSON=true\nDATABASE_URL=postgresql://db\nAPP_BASE_URL=http://os\nCORS_ALLOWED_ORIGINS=[a,b,]\nTRUSTED_HOSTS=[os,]\nJWT_ALGORITHM=HS256\nAPPROVAL_TOKEN_SECRET=a\nJWT_SECRET=j=1\nCUSTOMER_JWT_SECRET=c\n"

prepared : prepare_env line_reader ".env" (some env_text) ≡ ok written_text
unfolding prepare_env prepare_values in_turn validate_required_text_fields each each_item
    require_non_empty require_any validate_environment normalize_email_provider provider_of
    normalize_boolean normalize_positive_integer normalize_optional_boolean
    normalize_optional_positive_integer set_number validate_database_url validate_app_base_url
    normalize_list_field list_items array_items validate_secret_contract raise_log_level
    validate_runtime_database_url describe_database_target without_slashes check_target
    value_or_empty lookup insert is_break is_setting splitlines join_lines load_lines rendered
    rendered_lines rewrite_env_file is_space lstrip rstrip strip starts_with split_on clean has_char
    before behind items_line line_of
prepared = refl

passed_through_example :
    lookup "JWT_SECRET" (parse_env_file written_text)
    ≡ lookup "JWT_SECRET" (parse_env_file env_text)
passed_through_example =
    passed_through line_reader line_reader-WritesLines ".env" env_text written_text prepared
      "JWT_SECRET" refl

rewritten_example :
    lookup "JWT_SECRET" (
      parse_env_file
        (rewrite_env_file (load_lines [] (splitlines env_text)).entries (parse_env_file env_text)))
    ≡ (if is_some (lookup "JWT_SECRET" (parse_env_file env_text))
        then some (strip (value_or_empty (parse_env_file env_text) "JWT_SECRET"))
        else none)
rewritten_example =
    rewritten env_text (parse_env_file env_text) (parse_env_file-ValuesAreLines env_text)
      "JWT_SECRET"

abbrev written_reader : RenderReader
written_reader = record {
  upper = same_case;
  yaml_quote = λ t. t;
  manifest = λ name. ok "image: __API_IMAGE__\n";
  env_file = ok written_text;
}

abbrev rendered_files : Dict String
rendered_files = (render written_reader "shop/os:1" "prod" []).1

files_rendered : render written_reader "shop/os:1" "prod" [] ≡ (ok tt, rendered_files)
unfolding render render_values render_static_manifests render_static filled_in missing_keys
    filled_where is_sensitive deployed_values parse_env_file parse_lines splitlines is_break
    is_setting lookup insert strip lstrip rstrip is_space starts_with has_char before behind
    replace_first replace_from skip occurs image_values extract_image_values
    is_placeholder_like_image fits_pattern enclosed body_then has_space check_images some_images
    normalize_image_ref validate_rendered_manifest_images
files_rendered = refl

secrets_deployed_example :
    (values : Dict String) × (lookup "secret.rendered.yaml" rendered_files
      ≡ some (
          manifest_text
            (λ t. t)
            "Secret"
            "service-order-os-service-secret"
            "prod"
            "stringData"
            values))
    × ((k : String)
        → lookup k values
          ≡ (if is_sensitive k then not_blank (lookup k (parse_env_file env_text)) else none))
secrets_deployed_example =
    secrets_deployed line_reader line_reader-WritesLines written_reader ".env" env_text written_text
      prepared refl "shop/os:1" "prod" [] rendered_files files_rendered
