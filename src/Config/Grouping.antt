-- ===== src/Config/Grouping.antt =====
-- How the settings of src/config.rs are grouped into patches.
use hugrs.Prelude.{
  ◌≡◌, refl, sym, ap, ◌∙◌, String, Bool, true, false, Option, none, some, List, [], ◌∷◌, Result, ok,
  err, ◌>>=◌, is_some, if◌then◌else◌, Bool-cases, inl, inr, arith,
}
use hugrs.Storage.Trait.{Compression}
use hugrs.Config.Unset.{
  storage_unset, database_unset, server_unset, admin_unset, huggingface_unset, modelscope_unset,
}
use hugrs.Config.{Text, Config, StoragePatch, ConfigPatch, CliOverrides}
use hugrs.Config.Layers.{
  has_any, Var, storage_set, database_set, server_set, admin_set, huggingface_set, modelscope_set,
  group_if,
}
use hugrs.Config.Cli.{
  storage_of_cli, database_of_cli, server_of_cli, admin_of_cli, huggingface_of_cli,
  modelscope_of_cli, cli_groups, cli_compression, cli_patch,
}
use hugrs.Config.Env.{
  EnvNumbers, env_numbers, storage_of_env, database_of_env, server_of_env, admin_of_env,
  huggingface_of_env, modelscope_of_env, env_groups, env_patch,
}
use hugrs.Config.Overlay.{
  over_storage, over_database, over_server, over_admin, over_huggingface, over_modelscope,
  over_group, overlay,
}
use hugrs.Config.Load.{set_by_cli, set_by_env}

-- So a group that is left out for having no value is as good as there.
group_kept :
    {P C : Type 0} (set : P → C → C) (flags : List Bool) (p : P) (c : C)
    → (has_any flags ≡ false → c ≡ set p c)
    → over_group set (group_if flags p) c ≡ set p c
group_kept set flags p c unset = elim (Bool-cases (has_any flags)) [
  | inl any ↦ rw any refl
  | inr empty ↦ rw empty (unset empty)
]

env_groups-sets :
    (env : String → Var) (n : EnvNumbers) (c : Config)
    → overlay (env_groups env n) c ≡ set_by_env env n c
unfolding overlay env_groups
env_groups-sets env n c i = record {
  storage =
      group_kept over_storage (storage_set (storage_of_env env n)) (storage_of_env env n) c.storage
        (storage_unset (storage_of_env env n) c.storage) i;
  database =
      group_kept over_database (database_set (database_of_env env n)) (database_of_env env n)
        c.database (database_unset (database_of_env env n) c.database) i;
  server =
      group_kept over_server (server_set (server_of_env env n)) (server_of_env env n) c.server
        (server_unset (server_of_env env n) c.server) i;
  admin =
      group_kept over_admin (admin_set (admin_of_env env n)) (admin_of_env env n) c.admin
        (admin_unset (admin_of_env env n) c.admin) i;
  huggingface =
      group_kept over_huggingface (huggingface_set (huggingface_of_env env n))
        (huggingface_of_env env n) c.huggingface
        (huggingface_unset (huggingface_of_env env n) c.huggingface) i;
  modelscope =
      group_kept over_modelscope (modelscope_set (modelscope_of_env env n))
        (modelscope_of_env env n) c.modelscope
        (modelscope_unset (modelscope_of_env env n) c.modelscope) i;
}

cli_groups-sets :
    (o : CliOverrides) (s : Option StoragePatch) (compression : Option Compression) (c : Config)
    → over_group over_storage s c.storage ≡ over_storage (storage_of_cli compression o) c.storage
    → overlay (cli_groups o s) c ≡ set_by_cli compression o c
unfolding overlay
cli_groups-sets o s compression c storage i = record {
  storage = storage i;
  database =
      group_kept over_database (database_set (database_of_cli o)) (database_of_cli o) c.database
        (database_unset (database_of_cli o) c.database) i;
  server =
      group_kept over_server (server_set (server_of_cli o)) (server_of_cli o) c.server
        (server_unset (server_of_cli o) c.server) i;
  admin =
      group_kept over_admin (admin_set (admin_of_cli o)) (admin_of_cli o) c.admin
        (admin_unset (admin_of_cli o) c.admin) i;
  huggingface =
      group_kept over_huggingface (huggingface_set (huggingface_of_cli o)) (huggingface_of_cli o)
        c.huggingface (huggingface_unset (huggingface_of_cli o) c.huggingface) i;
  modelscope =
      group_kept over_modelscope (modelscope_set (modelscope_of_cli o)) (modelscope_of_cli o)
        c.modelscope (modelscope_unset (modelscope_of_cli o) c.modelscope) i;
}

-- What an accepted command line sets: every setting that it names, in whatever group.
abbrev pub SetsAll : CliOverrides → ConfigPatch → Type 0
SetsAll o p =
    (compression : Option Compression) × (cli_compression o.compression ≡ ok compression)
    × ((c : Config) → overlay p c ≡ set_by_cli compression o c)

cli_flags : CliOverrides → List Bool
cli_flags o =
    is_some o.storage_backend
    ∷ is_some o.local_root
    ∷ is_some o.s3_bucket
    ∷ is_some o.s3_region
    ∷ is_some o.s3_prefix
    ∷ is_some o.s3_endpoint
    ∷ is_some o.compression
    ∷ is_some o.max_size
    ∷ is_some o.prefetch_depth
    ∷ is_some o.prefetch_budget_base
    ∷ is_some o.enable_sha256_verify
    ∷ is_some o.etag_validation_timeout_secs
    ∷ is_some o.chunk_retries
    ∷ []

same_ok : (p q : ConfigPatch) → ◌≡◌ {A = Result String ConfigPatch} (ok p) (ok q) → p ≡ q
same_ok p q h = cc

with_storage :
    (o : CliOverrides) (r : Result String (Option Compression)) (p : ConfigPatch)
    → cli_compression o.compression ≡ r
    → (r >>= λ c. ok (cli_groups o (some (storage_of_cli c o)))) ≡ ok p
    → SetsAll o p
with_storage o (err e) p read h = absurd (ground arith)
with_storage o (ok compression) p read h = (
  compression,
  read,
  λ c.
      ap (λ q. overlay q c) (sym (same_ok _ p h))
      ∙ cli_groups-sets o (some (storage_of_cli compression o)) compression c refl,
)

if_true : {A : Type 0} (b : Bool) (x y z : A) → b ≡ true → (if b then x else y) ≡ z → x ≡ z
if_true true x y z e h = h
if_true false x y z e h = absurd (ground arith)

if_false : {A : Type 0} (b : Bool) (x y z : A) → b ≡ false → (if b then x else y) ≡ z → y ≡ z
if_false true x y z e h = absurd (ground arith)
if_false false x y z e h = h

no_text : (s : Option Text) → is_some s ≡ false → cli_compression s ≡ ok none
no_text none h = refl
no_text (some s) h = absurd (ground arith)

pub cli_patch-SetsAll : (o : CliOverrides) (p : ConfigPatch) → cli_patch o ≡ ok p → SetsAll o p
unfolding cli_patch cli_flags
cli_patch-SetsAll o p h = elim (Bool-cases (has_any (cli_flags o))) [
  | inl any ↦
      with_storage o (cli_compression o.compression) p refl
        (if_true (has_any (cli_flags o)) _ _ (ok p) any h)
  | inr empty ↦ (
    none,
    no_text o.compression (ground arith),
    λ c.
        ap (λ q. overlay q c)
          (sym
            (same_ok (cli_groups o none) p (if_false (has_any (cli_flags o)) _ _ (ok p) empty h)))
        ∙ cli_groups-sets o none none c
            (storage_unset (storage_of_cli none o) c.storage (ground arith)),
  )
]

pub env_patch-sets :
    (env : String → Var) (p : ConfigPatch)
    → env_patch env ≡ ok p
    → (n : EnvNumbers) × (env_numbers env ≡ ok n)
      × ((c : Config) → overlay p c ≡ set_by_env env n c)
unfolding env_patch
env_patch-sets env p h = found (env_numbers env) refl h
  where
    found :
        (r : Result String EnvNumbers)
        → env_numbers env ≡ r
        → (r >>= λ n. ok (env_groups env n)) ≡ ok p
        → (n : EnvNumbers) × (env_numbers env ≡ ok n)
          × ((c : Config) → overlay p c ≡ set_by_env env n c)
    found (err e) eq k = absurd (ground arith)
    found (ok n) eq k =
        (n, eq, λ c. ap (λ q. overlay q c) (sym (same_ok _ p k)) ∙ env_groups-sets env n c)
