-- ===== src/Tests/Deploy.antt =====
-- The deployment scripts.
use Prim.Native.String.{String}
use service_order_os_service.Prelude.{false, none, List, [], ◌∷◌, ◌≡◌, refl}
use service_order_os_service.Prelude.Dict.{Dict, lookup, insert}
use service_order_os_service.Exec.{ok, err, value_error}
use service_order_os_service.Config.Settings.{SettingsReader, text, parse_csv_or_json_list}
use service_order_os_service.Config.Urls.{UrlReader}
use service_order_os_service.Deploy.EnvFile.{
  value_or_empty, splitlines, parse_lines, parse_env_file, is_break, is_setting,
}
use service_order_os_service.Deploy.Images.{
  image_values, extract_image_values, is_placeholder_like_image, fits_pattern, enclosed, body_then,
  has_space, check_images, some_images, normalize_image_ref, validate_rendered_manifest_images,
}
use service_order_os_service.Deploy.EnvFields.{EnvReader, require_non_empty}
use service_order_os_service.Deploy.PrepareEnv.{is_empty, list_items, normalize_list_field}
use service_order_os_service.Deploy.PrepareEnv.Laws.{ReadsLists, normalized_list_read}
use service_order_os_service.Deploy.Manifests.{
  RenderReader, is_sensitive, filled_where, missing_keys, filled_in, render_static,
  render_static_manifests, render_values, deployed_values, render,
}
use service_order_os_service.Deploy.Manifests.Rendered.{IsRendered, render_returned}
use service_order_os_service.Text.{is_space, lstrip, rstrip, strip}
use service_order_os_service.Text.Search.{
  starts_with, split_on, clean, has_char, before, behind, replace_first, replace_from, skip, occurs,
}
use service_order_os_service.Tests.Data.{plain, same_case}
use service_order_os_service.Tests.ListText.{
  dump_list, load_list, load_list-dump_list, strip-dump_list,
}

abbrev settings_reader : SettingsReader
settings_reader = record {
  show = plain;
  loads = load_list;
  upper = same_case;
  read_text = λ path. ok path;
}

abbrev url_reader : UrlReader
url_reader = record { urlsplit = λ url. err (value_error url); lower = same_case }

abbrev env_reader : EnvReader
env_reader = record {
  settings = settings_reader;
  urls = url_reader;
  lower = same_case;
  int_of = λ t. none;
  int_text = λ n. "1";
  dumps = dump_list;
  urlparse = λ url. ok ("http", url);
}

env_reader-ReadsLists : ReadsLists env_reader
unfolding starts_with dump_list
env_reader-ReadsLists = record {
  shows = λ t. refl;
  loaded = load_list-dump_list;
  bracketed = λ ts. refl;
  trimmed = strip-dump_list;
}

abbrev hosts : Dict String
hosts = ("TRUSTED_HOSTS", " a , b") ∷ []

abbrev hosts_after : Dict String
hosts_after = (normalize_list_field env_reader "TRUSTED_HOSTS" hosts).1

normalized_list_read_example :
    (ts : List String) × (is_empty env_reader ts ≡ false)
    × (parse_csv_or_json_list settings_reader (text (value_or_empty hosts "TRUSTED_HOSTS")) ≡ ok ts)
    × (parse_csv_or_json_list settings_reader (text (value_or_empty hosts_after "TRUSTED_HOSTS"))
        ≡ ok ts)
unfolding normalize_list_field require_non_empty list_items value_or_empty lookup strip lstrip
    rstrip is_space starts_with split_on clean
normalized_list_read_example =
    normalized_list_read env_reader env_reader-ReadsLists "TRUSTED_HOSTS" hosts hosts_after refl

-- An environment file with the required secrets, and a blank value.
abbrev env_text : String
env_text =
    "APPROVAL_TOKEN_SECRET=a\nCUSTOMER_JWT_SECRET=c\nDATABASE_URL=d\nJWT_SECRET=j\nAPP_NAME=os\nDD_API_KEY= \n"

abbrev render_reader : RenderReader
render_reader = record {
  upper = same_case;
  yaml_quote = λ t. t;
  manifest = λ name. ok "image: __API_IMAGE__\n";
  env_file = ok env_text;
}

render_returned_example :
    (t : String) × (render_reader.env_file ≡ ok t)
    × IsRendered render_reader "prod" t (render render_reader "shop/os:1" "prod" []).1
unfolding render render_values render_static_manifests render_static filled_in missing_keys
    filled_where is_sensitive deployed_values parse_env_file parse_lines splitlines is_break
    is_setting lookup insert strip lstrip rstrip is_space starts_with has_char before behind
    replace_first replace_from skip occurs image_values extract_image_values
    is_placeholder_like_image fits_pattern enclosed body_then has_space check_images some_images
    normalize_image_ref validate_rendered_manifest_images
render_returned_example =
    render_returned render_reader "shop/os:1" "prod" []
      (render render_reader "shop/os:1" "prod" []).1 refl
