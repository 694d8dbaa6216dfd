-- ===== src/Config/Cli.antt =====
-- `cli_patch` of src/config.rs.
use hugrs.Prelude.{String, Option, none, some, [], ◌∷◌, Result, ok, ◌>>=◌, is_some, if◌then◌else◌}
use hugrs.Storage.Trait.{Compression}
use hugrs.Config.{
  Text, StoragePatch, DatabasePatch, ServerPatch, AdminPatch, HfPatch, MsPatch, ConfigPatch,
  CliOverrides,
}
use hugrs.Config.Layers.{has_any, parse_compression, some_ok, group_if}

-- What the arguments set, group by group.
abbrev pub storage_of_cli : Option Compression → CliOverrides → StoragePatch
storage_of_cli compression o = record {
  backend = o.storage_backend;
  local_root = o.local_root;
  s3_bucket = o.s3_bucket;
  s3_region = o.s3_region;
  s3_prefix = o.s3_prefix;
  s3_endpoint = o.s3_endpoint;
  compression = compression;
  max_size = o.max_size;
  prefetch_depth = o.prefetch_depth;
  prefetch_budget_base = o.prefetch_budget_base;
  verify_sha256 = o.enable_sha256_verify;
  etag_validation_timeout_secs = o.etag_validation_timeout_secs;
  chunk_retries = o.chunk_retries;
}

abbrev pub database_of_cli : CliOverrides → DatabasePatch
database_of_cli o = record { path = o.db_path }

abbrev pub server_of_cli : CliOverrides → ServerPatch
server_of_cli o = record { host = o.server_host; port = o.server_port }

abbrev pub admin_of_cli : CliOverrides → AdminPatch
admin_of_cli o = record { token = o.admin_token; token_file = o.admin_token_file }

abbrev pub huggingface_of_cli : CliOverrides → HfPatch
huggingface_of_cli o = record {
  endpoint = o.hf_endpoint;
  token = o.hf_token;
  proxy = o.hf_proxy;
  timeout_secs = o.hf_timeout;
  connect_timeout_secs = o.hf_connect_timeout;
}

abbrev pub modelscope_of_cli : CliOverrides → MsPatch
modelscope_of_cli o = record {
  endpoint = o.ms_endpoint;
  token = o.ms_token;
  proxy = o.ms_proxy;
  timeout_secs = o.ms_timeout;
  connect_timeout_secs = o.ms_connect_timeout;
}

-- The groups that have a value; the text of the compression is read only within its group.
abbrev pub cli_groups : CliOverrides → Option StoragePatch → ConfigPatch
cli_groups o storage = record {
  storage = storage;
  database = group_if (is_some o.db_path ∷ []) (database_of_cli o);
  server = group_if (is_some o.server_host ∷ is_some o.server_port ∷ []) (server_of_cli o);
  admin = group_if (is_some o.admin_token ∷ is_some o.admin_token_file ∷ []) (admin_of_cli o);
  huggingface =
      group_if
        (is_some o.hf_endpoint
          ∷ is_some o.hf_token
          ∷ is_some o.hf_proxy
          ∷ is_some o.hf_timeout
          ∷ is_some o.hf_connect_timeout
          ∷ [])
        (huggingface_of_cli o);
  modelscope =
      group_if
        (is_some o.ms_endpoint
          ∷ is_some o.ms_token
          ∷ is_some o.ms_proxy
          ∷ is_some o.ms_timeout
          ∷ is_some o.ms_connect_timeout
          ∷ [])
        (modelscope_of_cli o);
}

abbrev pub cli_compression : Option Text → Result String (Option Compression)
cli_compression none = ok none
cli_compression (some s) = some_ok (parse_compression s)

unfoldable pub cli_patch : CliOverrides → Result String ConfigPatch
unfolding parse_compression
cli_patch o =
    if has_any (
      is_some o.storage_backend
      ∷ is_some o.local_root
      ∷ is_some o.s3_bucket
      ∷ is_some o.s3_region
      ∷ is_some o.s3_prefix
      ∷ is_some o.s3_endpoint
      ∷ is_some o.compression
      ∷ is_some o.max_size
      ∷ is_some o.prefetch_depth
      ∷ is_some o.prefetch_budget_base
      ∷ is_some o.enable_sha256_verify
      ∷ is_some o.etag_validation_timeout_secs
      ∷ is_some o.chunk_retries
      ∷ [])
    then cli_compression o.compression >>= (λ c. ok (cli_groups o (some (storage_of_cli c o))))
    else ok (cli_groups o none)
