-- ===== src/Config.antt =====
-- The settings of src/config.rs: the configuration with its defaults, and the patch that a layer of it
-- is. A text is a list of code points, and a path is its text. The directories that the dirs crate
-- finds, with the file names joined, are parameters.
pub mod Layers
pub mod Cli
pub mod Env
pub mod Overlay
pub mod Unset
pub mod Load
pub mod Grouping
pub mod Precedence
pub mod Token
use hugrs.Prelude.{ℕ, Bool, true, Option, none, some, List, chars}
use hugrs.Storage.Trait.{Compression}

abbrev pub Text : Type 0
Text = List ℕ

-- The paths below `app_data_dir()`, and the file below `app_config_dir()`.
pub record Dirs : Type 0 where
  pub local_root : Text
  pub db_path : Text
  pub token_file : Text
  pub home_config : Text

pub record StorageConfig : Type 0 where
  pub backend : Text
  pub local_root : Text
  pub s3_bucket : Option Text
  pub s3_region : Option Text
  pub s3_prefix : Option Text
  pub s3_endpoint : Option Text
  pub compression : Compression
  pub max_size : Option ℕ
  pub prefetch_depth : ℕ
  pub prefetch_budget_base : ℕ
  pub verify_sha256 : Bool
  pub etag_validation_timeout_secs : ℕ
  pub chunk_retries : ℕ

pub record DatabaseConfig : Type 0 where
  pub path : Text

pub record ServerConfig : Type 0 where
  pub host : Text
  pub port : ℕ

pub record AdminConfig : Type 0 where
  pub token : Option Text
  pub token_file : Text

pub record HfConfig : Type 0 where
  pub endpoint : Text
  pub token : Option Text
  pub proxy : Option Text
  pub timeout_secs : ℕ
  pub connect_timeout_secs : ℕ

pub record MsConfig : Type 0 where
  pub endpoint : Text
  pub token : Option Text
  pub proxy : Option Text
  pub timeout_secs : ℕ
  pub connect_timeout_secs : ℕ

pub record Config : Type 0 where
  pub storage : StorageConfig
  pub database : DatabaseConfig
  pub server : ServerConfig
  pub admin : AdminConfig
  pub huggingface : HfConfig
  pub modelscope : MsConfig

-- `Config::default()`
unfoldable pub default : Dirs → Config
default dirs = record {
  storage = record {
    backend = chars "local";
    local_root = dirs.local_root;
    s3_bucket = none;
    s3_region = none;
    s3_prefix = none;
    s3_endpoint = none;
    compression = Compression.zstd;
    max_size = none;
    prefetch_depth = 0;
    prefetch_budget_base = 8;
    verify_sha256 = true;
    etag_validation_timeout_secs = 5;
    chunk_retries = 3;
  };
  database = record { path = dirs.db_path };
  server = record { host = chars "127.0.0.1"; port = 3000 };
  admin = record { token = none; token_file = dirs.token_file };
  huggingface = record {
    endpoint = chars "https://huggingface.co";
    token = none;
    proxy = none;
    timeout_secs = 60;
    connect_timeout_secs = 15;
  };
  modelscope = record {
    endpoint = chars "https://modelscope.cn";
    token = none;
    proxy = none;
    timeout_secs = 60;
    connect_timeout_secs = 15;
  };
}

-- A layer: what it does not set is left out of it.
pub record StoragePatch : Type 0 where
  pub backend : Option Text
  pub local_root : Option Text
  pub s3_bucket : Option Text
  pub s3_region : Option Text
  pub s3_prefix : Option Text
  pub s3_endpoint : Option Text
  pub compression : Option Compression
  pub max_size : Option ℕ
  pub prefetch_depth : Option ℕ
  pub prefetch_budget_base : Option ℕ
  pub verify_sha256 : Option Bool
  pub etag_validation_timeout_secs : Option ℕ
  pub chunk_retries : Option ℕ

pub record DatabasePatch : Type 0 where
  pub path : Option Text

pub record ServerPatch : Type 0 where
  pub host : Option Text
  pub port : Option ℕ

pub record AdminPatch : Type 0 where
  pub token : Option Text
  pub token_file : Option Text

pub record HfPatch : Type 0 where
  pub endpoint : Option Text
  pub token : Option Text
  pub proxy : Option Text
  pub timeout_secs : Option ℕ
  pub connect_timeout_secs : Option ℕ

pub record MsPatch : Type 0 where
  pub endpoint : Option Text
  pub token : Option Text
  pub proxy : Option Text
  pub timeout_secs : Option ℕ
  pub connect_timeout_secs : Option ℕ

pub record ConfigPatch : Type 0 where
  pub storage : Option StoragePatch
  pub database : Option DatabasePatch
  pub server : Option ServerPatch
  pub admin : Option AdminPatch
  pub huggingface : Option HfPatch
  pub modelscope : Option MsPatch

abbrev pub no_patch : ConfigPatch
no_patch = record {
  storage = none;
  database = none;
  server = none;
  admin = none;
  huggingface = none;
  modelscope = none;
}

-- `CliOverrides`, less the path of the configuration file.
pub record CliOverrides : Type 0 where
  pub storage_backend : Option Text
  pub local_root : Option Text
  pub s3_bucket : Option Text
  pub s3_region : Option Text
  pub s3_prefix : Option Text
  pub s3_endpoint : Option Text
  pub compression : Option Text
  pub max_size : Option ℕ
  pub prefetch_depth : Option ℕ
  pub prefetch_budget_base : Option ℕ
  pub enable_sha256_verify : Option Bool
  pub etag_validation_timeout_secs : Option ℕ
  pub chunk_retries : Option ℕ
  pub db_path : Option Text
  pub server_host : Option Text
  pub server_port : Option ℕ
  pub admin_token : Option Text
  pub admin_token_file : Option Text
  pub hf_endpoint : Option Text
  pub hf_token : Option Text
  pub hf_proxy : Option Text
  pub hf_timeout : Option ℕ
  pub hf_connect_timeout : Option ℕ
  pub ms_endpoint : Option Text
  pub ms_token : Option Text
  pub ms_proxy : Option Text
  pub ms_timeout : Option ℕ
  pub ms_connect_timeout : Option ℕ
