-- ===== src/Storage/S3.antt =====
-- `S3Backend` of src/storage/s3.rs. The client of the AWS SDK, over one bucket, is a parameter.
use Prim.Native.String.{String as Text}
use hugrs.Prelude.{ℕ, ◌≡◌, ◌≢◌, ap, String, Bool, true, false, List, Result, ok, err, length}
use hugrs.Storage.Trait.{StorageBackend, IsSeparate}

-- The four requests that the store sends.
pub record Client : Type 1 where
  pub Objects : Type 0
  pub put_object : String → List ℕ → Objects → Result String (Unit {0}) × Objects
  pub get_object : String → Objects → Result String (List ℕ)
  pub head_object : String → Objects → Result String (Unit {0})
  pub delete_object : String → Objects → Result String (Unit {0}) × Objects

-- As S3 documents it: a request on one key does not change the object under another.
pub record KeysApart (c : Client) : Type 0 where
  pub get-put_object :
      (k j : String) (bytes : List ℕ) (s : c.Objects)
      → k ≢ j
      → c.get_object j (c.put_object k bytes s).1 ≡ c.get_object j s
  pub get-delete_object :
      (k j : String) (s : c.Objects)
      → k ≢ j
      → c.get_object j (c.delete_object k s).1 ≡ c.get_object j s

abbrev joined : String → String → String
joined Text.[] rest = rest
joined (Text.◌∷◌ c s) rest = Text.◌∷◌ c (joined s rest)

unfoldable pub s3_key : String → String → String
s3_key Text.[] sha256 = sha256
s3_key (Text.◌∷◌ c prefix) sha256 = joined (Text.◌∷◌ c prefix) (joined "/" sha256)

module _ (client : Client) (prefix : String) where
  abbrev pub put_result : ℕ → Result String (Unit {0}) → Result String ℕ
  put_result len (ok u) = ok len
  put_result len (err e) = err e

  -- An error of the request counts as a missing object.
  abbrev pub is_there : Result String (Unit {0}) → Result String Bool
  is_there (ok u) = ok true
  is_there (err e) = ok false

  unfoldable pub s3_backend : StorageBackend
  unfolding s3_key
  s3_backend = record {
    Store = client.Objects;
    put = λ sha256 bytes s. (
      put_result (length bytes) (client.put_object (s3_key prefix sha256) bytes s).0,
      (client.put_object (s3_key prefix sha256) bytes s).1,
    );
    get = λ sha256 s. client.get_object (s3_key prefix sha256) s;
    has_key = λ sha256 s. is_there (client.head_object (s3_key prefix sha256) s);
    delete = λ sha256 s. client.delete_object (s3_key prefix sha256) s;
  }

behind_first : String → String
behind_first Text.[] = Text.[]
behind_first (Text.◌∷◌ c s) = s

joined_injective : (p s t : String) → joined p s ≡ joined p t → s ≡ t
unfolding behind_first
joined_injective Text.[] s t h = h
joined_injective (Text.◌∷◌ c p) s t h = joined_injective p s t (ap behind_first h)

-- Names that differ have keys that differ, under any prefix.
s3_key_injective : (prefix s t : String) → s3_key prefix s ≡ s3_key prefix t → s ≡ t
unfolding s3_key
s3_key_injective Text.[] s t h = h
s3_key_injective (Text.◌∷◌ c p) s t h =
    joined_injective "/" s t (joined_injective (Text.◌∷◌ c p) (joined "/" s) (joined "/" t) h)

-- Over a client that keeps keys apart, the store keeps the chunks of different names apart, under any
-- prefix.
pub s3-IsSeparate :
    (client : Client) (prefix : String) → KeysApart client → IsSeparate (s3_backend client prefix)
unfolding s3_backend
s3-IsSeparate client prefix law = record {
  get-put_ne = λ k j bytes s ne.
      law.get-put_object (s3_key prefix k) (s3_key prefix j) bytes s
        (λ e. ne (s3_key_injective prefix k j e));
  get-delete_ne = λ k j s ne.
      law.get-delete_object (s3_key prefix k) (s3_key prefix j) s
        (λ e. ne (s3_key_injective prefix k j e));
}
