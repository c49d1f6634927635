-- ===== src/Tests/Settings.antt =====
-- Settings and database addresses.
use service_order_os_service.Prelude.{true, none, some, [], ◌≡◌, refl}
use service_order_os_service.Exec.{ok, err, value_error}
use service_order_os_service.Config.Urls.{
  UrlReader, Target, describe_database_target, without_slashes, check_target,
  validate_runtime_database_url,
}
use service_order_os_service.Config.Urls.Laws.{IsUsable, validated_target}
use service_order_os_service.Config.Settings.{SettingsReader, Settings, filled}
use service_order_os_service.Text.{is_space, lstrip, rstrip, strip}
use service_order_os_service.Tests.Data.{plain, same_case}

abbrev url_reader : UrlReader
url_reader = record {
  urlsplit = λ url. ok (record {
    username = some "os_service_user";
    hostname = some "rds.example.com";
    port = ok none;
    path = "/os_service_db";
  });
  lower = same_case;
}

abbrev target : Target
target = record {
  username = "os_service_user";
  host = "rds.example.com";
  port = 5432;
  database = "os_service_db";
}

validated_target_example :
    (describe_database_target url_reader
        "postgresql://os_service_user@rds.example.com/os_service_db"
      ≡ ok target)
    × IsUsable url_reader "os_service_db" "os_service_user" target
unfolding validate_runtime_database_url describe_database_target without_slashes check_target strip
    lstrip rstrip is_space
validated_target_example =
    validated_target url_reader "postgresql://os_service_user@rds.example.com/os_service_db"
      "os_service_db" "os_service_user" target refl refl refl

abbrev settings_reader : SettingsReader
settings_reader = record {
  show = plain;
  loads = λ t. err (value_error t);
  upper = same_case;
  read_text = λ path. ok " from-file\n";
}

-- Settings whose one secret is in the environment and whose other is in a file.
abbrev raw : Settings
raw = record {
  app_name = "os";
  app_version = "1";
  environment = "test";
  app_runtime_mode = "memory";
  log_level = "INFO";
  cors_allowed_origins = [];
  cors_allow_credentials = true;
  trusted_hosts = [];
  database_url = "";
  expected_database_name = "os_service_db";
  expected_database_username = "os_service_user";
  rabbitmq_url = "";
  rabbitmq_exchange = "";
  rabbitmq_routing_key = "";
  rabbitmq_queue = "";
  rabbitmq_consume_routing_keys = [];
  jwt_secret = " key ";
  jwt_secret_file = none;
  jwt_algorithm = "HS256";
  jwt_issuer = "";
  customer_jwt_secret = "";
  customer_jwt_secret_file = some "/run/secret";
  customer_jwt_algorithm = "HS256";
  customer_jwt_issuer = "";
  healthcheck_timeout_seconds = 5;
  dd_service = "";
  dd_env = "";
  dd_version = "";
  otel_service_name = "";
}

abbrev complete : Settings
complete = filled settings_reader raw "key" "from-file"
