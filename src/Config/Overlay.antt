-- ===== src/Config/Overlay.antt =====
-- What a merge of a layer of src/config.rs does to the settings.
use hugrs.Prelude.{Option, none, some}
use hugrs.Config.{
  Config, StorageConfig, StoragePatch, DatabaseConfig, DatabasePatch, ServerConfig, ServerPatch,
  AdminConfig, AdminPatch, HfConfig, HfPatch, MsConfig, MsPatch, ConfigPatch,
}

-- A value that a layer sets stands over the one below it.
abbrev pub over : {A : Type 0} → Option A → A → A
over none below = below
over (some a) below = a

abbrev pub over_option : {A : Type 0} → Option A → Option A → Option A
over_option none below = below
over_option (some a) below = some a

abbrev pub over_storage : StoragePatch → StorageConfig → StorageConfig
over_storage p c = record {
  backend = over p.backend c.backend;
  local_root = over p.local_root c.local_root;
  s3_bucket = over_option p.s3_bucket c.s3_bucket;
  s3_region = over_option p.s3_region c.s3_region;
  s3_prefix = over_option p.s3_prefix c.s3_prefix;
  s3_endpoint = over_option p.s3_endpoint c.s3_endpoint;
  compression = over p.compression c.compression;
  max_size = over_option p.max_size c.max_size;
  prefetch_depth = over p.prefetch_depth c.prefetch_depth;
  prefetch_budget_base = over p.prefetch_budget_base c.prefetch_budget_base;
  verify_sha256 = over p.verify_sha256 c.verify_sha256;
  etag_validation_timeout_secs = over p.etag_validation_timeout_secs c.etag_validation_timeout_secs;
  chunk_retries = over p.chunk_retries c.chunk_retries;
}

abbrev pub over_database : DatabasePatch → DatabaseConfig → DatabaseConfig
over_database p c = record { path = over p.path c.path }

abbrev pub over_server : ServerPatch → ServerConfig → ServerConfig
over_server p c = record { host = over p.host c.host; port = over p.port c.port }

abbrev pub over_admin : AdminPatch → AdminConfig → AdminConfig
over_admin p c = record {
  token = over_option p.token c.token;
  token_file = over p.token_file c.token_file;
}

abbrev pub over_huggingface : HfPatch → HfConfig → HfConfig
over_huggingface p c = record {
  endpoint = over p.endpoint c.endpoint;
  token = over_option p.token c.token;
  proxy = over_option p.proxy c.proxy;
  timeout_secs = over p.timeout_secs c.timeout_secs;
  connect_timeout_secs = over p.connect_timeout_secs c.connect_timeout_secs;
}

abbrev pub over_modelscope : MsPatch → MsConfig → MsConfig
over_modelscope p c = record {
  endpoint = over p.endpoint c.endpoint;
  token = over_option p.token c.token;
  proxy = over_option p.proxy c.proxy;
  timeout_secs = over p.timeout_secs c.timeout_secs;
  connect_timeout_secs = over p.connect_timeout_secs c.connect_timeout_secs;
}

abbrev pub over_group : {P C : Type 0} → (P → C → C) → Option P → C → C
over_group set none c = c
over_group set (some p) c = set p c

-- What `Figment::merge` does to the values that are extracted.
unfoldable pub overlay : ConfigPatch → Config → Config
overlay p c = record {
  storage = over_group over_storage p.storage c.storage;
  database = over_group over_database p.database c.database;
  server = over_group over_server p.server c.server;
  admin = over_group over_admin p.admin c.admin;
  huggingface = over_group over_huggingface p.huggingface c.huggingface;
  modelscope = over_group over_modelscope p.modelscope c.modelscope;
}
