-- ===== src/Tests/Settings.antt =====
-- The theorems on the settings, with a figment that keeps the configuration itself.
use hugrs.Prelude.{
  ◌≡◌, refl, ◌⊎◌, String, none, some, Option, ok, chars, same_chars, str_eq, if◌then◌else◌,
}
use hugrs.Prelude.Decimal.{parse_u64}
use hugrs.Storage.Trait.{Compression}
use hugrs.Config.{Text, Dirs, Config, AdminConfig, CliOverrides, ConfigPatch, no_patch, default}
use hugrs.Config.Layers.{Var, value, not_present, parse_below}
use hugrs.Config.Cli.{cli_compression, cli_patch}
use hugrs.Config.Env.{EnvNumbers, env_numbers, env_patch}
use hugrs.Config.Overlay.{overlay}
use hugrs.Config.Load.{
  Figment, IsLayered, config_paths, first_file, load, set_by_cli, set_by_env, set_by_file,
}
use hugrs.Config.Precedence.{chosen_file, load_precedence}
use hugrs.Config.Token.{written, ensure_admin_token, Agree, IsRefused, ensure_twice}

abbrev dirs : Dirs
dirs = record {
  local_root = chars "/data/chunks";
  db_path = chars "/data/hugrs.db";
  token_file = chars "/data/admin.token";
  home_config = chars "/home/hugrs.toml";
}

-- The environment names a host and a port.
abbrev env : String → Var
env key =
    if str_eq key "HUGRS_SERVER_HOST"
    then value (chars "0.0.0.0")
    else if str_eq key "HUGRS_SERVER_PORT"
    then value (chars "5000")
    else not_present

-- The user's file names a database, a host and a port.
abbrev patch : ConfigPatch
patch = record no_patch {
  database = some (record { path = some (chars "/srv/hugrs.db") });
  server = some (record { host = some (chars "localhost"); port = some 6000 });
}

abbrev files : Text → Option ConfigPatch
files path = if same_chars path (chars "/home/hugrs.toml") then some patch else none

abbrev port_4000 : CliOverrides
port_4000 = record {
  storage_backend = none;
  local_root = none;
  s3_bucket = none;
  s3_region = none;
  s3_prefix = none;
  s3_endpoint = none;
  compression = none;
  max_size = none;
  prefetch_depth = none;
  prefetch_budget_base = none;
  enable_sha256_verify = none;
  etag_validation_timeout_secs = none;
  chunk_retries = none;
  db_path = none;
  server_host = none;
  server_port = some 4000;
  admin_token = none;
  admin_token_file = none;
  hf_endpoint = none;
  hf_token = none;
  hf_proxy = none;
  hf_timeout = none;
  hf_connect_timeout = none;
  ms_endpoint = none;
  ms_token = none;
  ms_proxy = none;
  ms_timeout = none;
  ms_connect_timeout = none;
}

abbrev figment : Figment
figment = record {
  Values = Config;
  from_config = λ c. c;
  merge = λ v p. overlay p v;
  extract = λ v. v;
}

figment-IsLayered : IsLayered figment
figment-IsLayered = record { extract-from = λ c. refl; extract-merge = λ v p. refl }

abbrev loaded : Config
loaded = record (default dirs) {
  database = record { path = chars "/srv/hugrs.db" };
  server = record { host = chars "0.0.0.0"; port = 4000 };
}

loads : load figment dirs files env none port_4000 ≡ ok loaded
unfolding load env_patch env_numbers cli_patch config_paths first_file default overlay parse_below
    parse_u64
loads = refl

load_precedence_example :
    (n : EnvNumbers) × ((compression : Option Compression) × (env_numbers env ≡ ok n)
      × (cli_compression none ≡ ok compression)
      × (loaded
          ≡ set_by_cli compression port_4000
              (set_by_env env n (set_by_file (chosen_file dirs files none) (default dirs)))))
load_precedence_example =
    load_precedence figment figment-IsLayered dirs files env none port_4000 loaded loads

abbrev admin : AdminConfig
admin = record { token = none; token_file = chars "/data/admin.token" }

ensure_twice_example :
    let first = ensure_admin_token written (chars "t1") admin none in
    Agree first (ensure_admin_token written (chars "t2") admin first.file)
    ⊎ IsRefused written admin first
ensure_twice_example =
    ensure_twice written written (chars "t1") (chars "t2") admin none refl (refl, refl)
