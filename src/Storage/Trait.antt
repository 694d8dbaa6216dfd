-- ===== src/Storage/Trait.antt =====
-- The trait `StorageBackend` of src/storage/mod.rs, and the compression setting.
use hugrs.Prelude.{ℕ, ◌≡◌, ◌≢◌, String, Bool, List, Result}

pub data Compression : Type 0 where
  zstd none : Compression

-- A store of byte strings under SHA-256 names. A read leaves the store as it is.
pub record StorageBackend : Type 1 where
  pub Store : Type 0
  pub put : String → List ℕ → Store → Result String ℕ × Store
  pub get : String → Store → Result String (List ℕ)
  pub has_key : String → Store → Result String Bool
  pub delete : String → Store → Result String (Unit {0}) × Store

-- A write or a deletion under one name, failed or not, leaves what other names hold.
pub record IsSeparate (b : StorageBackend) : Type 0 where
  pub get-put_ne :
      (k j : String) (bytes : List ℕ) (s : b.Store)
      → k ≢ j
      → b.get j (b.put k bytes s).1 ≡ b.get j s
  pub get-delete_ne : (k j : String) (s : b.Store) → k ≢ j → b.get j (b.delete k s).1 ≡ b.get j s
