-- ===== src/Config/Unset.antt =====
-- The groups of src/config.rs in which nothing is set.
use hugrs.Prelude.{◌≡◌, refl, false, Option, none, some, is_some, arith}
use hugrs.Config.{
  StorageConfig, StoragePatch, DatabaseConfig, DatabasePatch, ServerConfig, ServerPatch,
  AdminConfig, AdminPatch, HfConfig, HfPatch, MsConfig, MsPatch,
}
use hugrs.Config.Layers.{
  has_any, storage_set, database_set, server_set, admin_set, huggingface_set, modelscope_set,
}
use hugrs.Config.Overlay.{
  over, over_option, over_storage, over_database, over_server, over_admin, over_huggingface,
  over_modelscope,
}

over_unset : {A : Type 0} (p : Option A) (a : A) → is_some p ≡ false → a ≡ over p a
over_unset none a h = refl
over_unset (some x) a h = absurd (ground arith)

over_option_unset : {A : Type 0} (p a : Option A) → is_some p ≡ false → a ≡ over_option p a
over_option_unset none a h = refl
over_option_unset (some x) a h = absurd (ground arith)

-- A group in which nothing is set changes nothing.
pub storage_unset :
    (p : StoragePatch) (c : StorageConfig) → has_any (storage_set p) ≡ false → c ≡ over_storage p c
storage_unset p c h i = record {
  backend = over_unset p.backend c.backend (ground arith) i;
  local_root = over_unset p.local_root c.local_root (ground arith) i;
  s3_bucket = over_option_unset p.s3_bucket c.s3_bucket (ground arith) i;
  s3_region = over_option_unset p.s3_region c.s3_region (ground arith) i;
  s3_prefix = over_option_unset p.s3_prefix c.s3_prefix (ground arith) i;
  s3_endpoint = over_option_unset p.s3_endpoint c.s3_endpoint (ground arith) i;
  compression = over_unset p.compression c.compression (ground arith) i;
  max_size = over_option_unset p.max_size c.max_size (ground arith) i;
  prefetch_depth = over_unset p.prefetch_depth c.prefetch_depth (ground arith) i;
  prefetch_budget_base = over_unset p.prefetch_budget_base c.prefetch_budget_base (ground arith) i;
  verify_sha256 = over_unset p.verify_sha256 c.verify_sha256 (ground arith) i;
  etag_validation_timeout_secs =
      over_unset p.etag_validation_timeout_secs c.etag_validation_timeout_secs (ground arith) i;
  chunk_retries = over_unset p.chunk_retries c.chunk_retries (ground arith) i;
}

pub database_unset :
    (p : DatabasePatch) (c : DatabaseConfig)
    → has_any (database_set p) ≡ false
    → c ≡ over_database p c
database_unset p c h i = record { path = over_unset p.path c.path (ground arith) i }

pub server_unset :
    (p : ServerPatch) (c : ServerConfig) → has_any (server_set p) ≡ false → c ≡ over_server p c
server_unset p c h i = record {
  host = over_unset p.host c.host (ground arith) i;
  port = over_unset p.port c.port (ground arith) i;
}

pub admin_unset :
    (p : AdminPatch) (c : AdminConfig) → has_any (admin_set p) ≡ false → c ≡ over_admin p c
admin_unset p c h i = record {
  token = over_option_unset p.token c.token (ground arith) i;
  token_file = over_unset p.token_file c.token_file (ground arith) i;
}

pub huggingface_unset :
    (p : HfPatch) (c : HfConfig) → has_any (huggingface_set p) ≡ false → c ≡ over_huggingface p c
huggingface_unset p c h i = record {
  endpoint = over_unset p.endpoint c.endpoint (ground arith) i;
  token = over_option_unset p.token c.token (ground arith) i;
  proxy = over_option_unset p.proxy c.proxy (ground arith) i;
  timeout_secs = over_unset p.timeout_secs c.timeout_secs (ground arith) i;
  connect_timeout_secs = over_unset p.connect_timeout_secs c.connect_timeout_secs (ground arith) i;
}

pub modelscope_unset :
    (p : MsPatch) (c : MsConfig) → has_any (modelscope_set p) ≡ false → c ≡ over_modelscope p c
modelscope_unset p c h i = record {
  endpoint = over_unset p.endpoint c.endpoint (ground arith) i;
  token = over_option_unset p.token c.token (ground arith) i;
  proxy = over_option_unset p.proxy c.proxy (ground arith) i;
  timeout_secs = over_unset p.timeout_secs c.timeout_secs (ground arith) i;
  connect_timeout_secs = over_unset p.connect_timeout_secs c.connect_timeout_secs (ground arith) i;
}
