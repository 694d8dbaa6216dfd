-- ===== src/Config/Env.antt =====
-- `env_patch` of src/config.rs.
use hugrs.Prelude.{ℕ, ◌^◌, String, Bool, Option, Result, ok, ◌>>=◌}
use hugrs.Storage.Trait.{Compression}
use hugrs.Config.{
  StoragePatch, DatabasePatch, ServerPatch, AdminPatch, HfPatch, MsPatch, ConfigPatch,
}
use hugrs.Config.Layers.{
  parse_compression, parse_below, parse_bool, Var, env_string, env_parsed, storage_set,
  database_set, server_set, admin_set, huggingface_set, modelscope_set, group_if,
}

-- What the environment sets: strings and paths as they are, the rest parsed, with the first error.
pub record EnvNumbers : Type 0 where
  pub storage_compression : Option Compression
  pub storage_max_size : Option ℕ
  pub storage_prefetch_depth : Option ℕ
  pub storage_prefetch_budget_base : Option ℕ
  pub storage_verify_sha256 : Option Bool
  pub storage_etag_validation_timeout_secs : Option ℕ
  pub storage_chunk_retries : Option ℕ
  pub server_port : Option ℕ
  pub huggingface_timeout_secs : Option ℕ
  pub huggingface_connect_timeout_secs : Option ℕ
  pub modelscope_timeout_secs : Option ℕ
  pub modelscope_connect_timeout_secs : Option ℕ

unfoldable pub env_numbers : (String → Var) → Result String EnvNumbers
unfolding parse_compression parse_below parse_bool
env_numbers env = env_parsed parse_compression (env "HUGRS_COMPRESSION") >>= λ storage_compression.
    env_parsed (parse_below (2 ^ 64)) (env "HUGRS_MAX_SIZE") >>= λ storage_max_size.
    env_parsed (parse_below (2 ^ 64)) (env "HUGRS_PREFETCH_DEPTH") >>= λ storage_prefetch_depth.
    env_parsed (parse_below (2 ^ 64)) (env "HUGRS_PREFETCH_BUDGET_BASE")
    >>= λ storage_prefetch_budget_base.
        env_parsed parse_bool (env "HUGRS_VERIFY_SHA256") >>= λ storage_verify_sha256.
        env_parsed (parse_below (2 ^ 64)) (env "HUGRS_ETAG_VALIDATION_TIMEOUT")
        >>= λ storage_etag_validation_timeout_secs.
            env_parsed (parse_below (2 ^ 32)) (env "HUGRS_CHUNK_RETRIES")
            >>= λ storage_chunk_retries.
                env_parsed (parse_below (2 ^ 16)) (env "HUGRS_SERVER_PORT") >>= λ server_port.
                env_parsed (parse_below (2 ^ 64)) (env "HUGRS_HF_TIMEOUT")
                >>= λ huggingface_timeout_secs.
                    env_parsed (parse_below (2 ^ 64)) (env "HUGRS_HF_CONNECT_TIMEOUT")
                    >>= λ huggingface_connect_timeout_secs.
                        env_parsed (parse_below (2 ^ 64)) (env "HUGRS_MS_TIMEOUT")
                        >>= λ modelscope_timeout_secs.
                            env_parsed (parse_below (2 ^ 64)) (env "HUGRS_MS_CONNECT_TIMEOUT")
                            >>= λ modelscope_connect_timeout_secs. ok (record {
                              storage_compression = storage_compression;
                              storage_max_size = storage_max_size;
                              storage_prefetch_depth = storage_prefetch_depth;
                              storage_prefetch_budget_base = storage_prefetch_budget_base;
                              storage_verify_sha256 = storage_verify_sha256;
                              storage_etag_validation_timeout_secs =
                                  storage_etag_validation_timeout_secs;
                              storage_chunk_retries = storage_chunk_retries;
                              server_port = server_port;
                              huggingface_timeout_secs = huggingface_timeout_secs;
                              huggingface_connect_timeout_secs = huggingface_connect_timeout_secs;
                              modelscope_timeout_secs = modelscope_timeout_secs;
                              modelscope_connect_timeout_secs = modelscope_connect_timeout_secs;
                            })

abbrev pub storage_of_env : (String → Var) → EnvNumbers → StoragePatch
storage_of_env env n = record {
  backend = env_string (env "HUGRS_STORAGE_BACKEND");
  local_root = env_string (env "HUGRS_LOCAL_ROOT");
  s3_bucket = env_string (env "HUGRS_S3_BUCKET");
  s3_region = env_string (env "HUGRS_S3_REGION");
  s3_prefix = env_string (env "HUGRS_S3_PREFIX");
  s3_endpoint = env_string (env "HUGRS_S3_ENDPOINT");
  compression = n.storage_compression;
  max_size = n.storage_max_size;
  prefetch_depth = n.storage_prefetch_depth;
  prefetch_budget_base = n.storage_prefetch_budget_base;
  verify_sha256 = n.storage_verify_sha256;
  etag_validation_timeout_secs = n.storage_etag_validation_timeout_secs;
  chunk_retries = n.storage_chunk_retries;
}

abbrev pub database_of_env : (String → Var) → EnvNumbers → DatabasePatch
database_of_env env n = record { path = env_string (env "HUGRS_DB_PATH") }

abbrev pub server_of_env : (String → Var) → EnvNumbers → ServerPatch
server_of_env env n = record { host = env_string (env "HUGRS_SERVER_HOST"); port = n.server_port }

abbrev pub admin_of_env : (String → Var) → EnvNumbers → AdminPatch
admin_of_env env n = record {
  token = env_string (env "HUGRS_ADMIN_TOKEN");
  token_file = env_string (env "HUGRS_ADMIN_TOKEN_FILE");
}

abbrev pub huggingface_of_env : (String → Var) → EnvNumbers → HfPatch
huggingface_of_env env n = record {
  endpoint = env_string (env "HUGRS_HF_ENDPOINT");
  token = env_string (env "HUGRS_HF_TOKEN");
  proxy = env_string (env "HUGRS_HF_PROXY");
  timeout_secs = n.huggingface_timeout_secs;
  connect_timeout_secs = n.huggingface_connect_timeout_secs;
}

abbrev pub modelscope_of_env : (String → Var) → EnvNumbers → MsPatch
modelscope_of_env env n = record {
  endpoint = env_string (env "HUGRS_MS_ENDPOINT");
  token = env_string (env "HUGRS_MS_TOKEN");
  proxy = env_string (env "HUGRS_MS_PROXY");
  timeout_secs = n.modelscope_timeout_secs;
  connect_timeout_secs = n.modelscope_connect_timeout_secs;
}

unfoldable pub env_groups : (String → Var) → EnvNumbers → ConfigPatch
env_groups env n = record {
  storage = group_if (storage_set (storage_of_env env n)) (storage_of_env env n);
  database = group_if (database_set (database_of_env env n)) (database_of_env env n);
  server = group_if (server_set (server_of_env env n)) (server_of_env env n);
  admin = group_if (admin_set (admin_of_env env n)) (admin_of_env env n);
  huggingface = group_if (huggingface_set (huggingface_of_env env n)) (huggingface_of_env env n);
  modelscope = group_if (modelscope_set (modelscope_of_env env n)) (modelscope_of_env env n);
}

unfoldable pub env_patch : (String → Var) → Result String ConfigPatch
unfolding env_numbers env_groups
env_patch env = env_numbers env >>= λ n. ok (env_groups env n)
