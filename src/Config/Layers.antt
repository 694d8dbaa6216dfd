-- ===== src/Config/Layers.antt =====
-- The layers of src/config.rs: how texts are read, and when a group is left out of a patch.
use hugrs.Prelude.{
  ℕ, ◌+◌, String, Bool, true, false, ◌||◌, ◌&&◌, Option, none, some, List, [], ◌∷◌, map, Result, ok,
  err, ltb, leb, is_some, if◌then◌else◌, chars, same_chars,
}
use hugrs.Prelude.Decimal.{parse_u64}
use hugrs.Storage.Trait.{Compression}
use hugrs.Config.{Text, StoragePatch, DatabasePatch, ServerPatch, AdminPatch, HfPatch, MsPatch}

abbrev pub has_any : List Bool → Bool
has_any [] = false
has_any (b ∷ bs) = b || has_any bs

abbrev lower : ℕ → ℕ
lower c = if leb 65 c && leb c 90 then c + 32 else c

-- `Compression::from_str`
unfoldable pub parse_compression : Text → Result String Compression
parse_compression s =
    if same_chars (map lower s) (chars "zstd")
    then ok Compression.zstd
    else if same_chars (map lower s) (chars "none")
    then ok Compression.none
    else err "unknown compression algorithm"

abbrev bounded : ℕ → Option ℕ → Result String ℕ
bounded bound none = err "invalid number"
bounded bound (some n) = if ltb n bound then ok n else err "number too large"

-- `str::parse` of an unsigned type whose values are below the bound.
unfoldable pub parse_below : ℕ → Text → Result String ℕ
parse_below bound s = bounded bound (parse_u64 s)

unfoldable pub parse_bool : Text → Result String Bool
parse_bool s =
    if same_chars s (chars "true")
    then ok true
    else if same_chars s (chars "false")
    then ok false
    else err "invalid bool"

-- What `std::env::var` gives.
pub data Var : Type 0 where
  not_present not_unicode : Var
  value : Text → Var

abbrev pub env_string : Var → Option Text
env_string (value s) = some s
env_string not_present = none
env_string not_unicode = none

abbrev pub some_ok : {A : Type 0} → Result String A → Result String (Option A)
some_ok (ok a) = ok (some a)
some_ok (err e) = err e

abbrev pub env_parsed : {A : Type 0} → (Text → Result String A) → Var → Result String (Option A)
env_parsed parse (value s) = some_ok (parse s)
env_parsed parse not_present = ok none
env_parsed parse not_unicode = err "environment variable is not unicode"

abbrev pub storage_set : StoragePatch → List Bool
storage_set p =
    is_some p.backend
    ∷ is_some p.local_root
    ∷ is_some p.s3_bucket
    ∷ is_some p.s3_region
    ∷ is_some p.s3_prefix
    ∷ is_some p.s3_endpoint
    ∷ is_some p.compression
    ∷ is_some p.max_size
    ∷ is_some p.prefetch_depth
    ∷ is_some p.prefetch_budget_base
    ∷ is_some p.verify_sha256
    ∷ is_some p.etag_validation_timeout_secs
    ∷ is_some p.chunk_retries
    ∷ []

abbrev pub database_set : DatabasePatch → List Bool
database_set p = is_some p.path ∷ []

abbrev pub server_set : ServerPatch → List Bool
server_set p = is_some p.host ∷ is_some p.port ∷ []

abbrev pub admin_set : AdminPatch → List Bool
admin_set p = is_some p.token ∷ is_some p.token_file ∷ []

abbrev pub huggingface_set : HfPatch → List Bool
huggingface_set p =
    is_some p.endpoint
    ∷ is_some p.token
    ∷ is_some p.proxy
    ∷ is_some p.timeout_secs
    ∷ is_some p.connect_timeout_secs
    ∷ []

abbrev pub modelscope_set : MsPatch → List Bool
modelscope_set p =
    is_some p.endpoint
    ∷ is_some p.token
    ∷ is_some p.proxy
    ∷ is_some p.timeout_secs
    ∷ is_some p.connect_timeout_secs
    ∷ []

-- A group without a value is left out of the patch.
abbrev pub group_if : {A : Type 0} → List Bool → A → Option A
group_if set group = if has_any set then some group else none
