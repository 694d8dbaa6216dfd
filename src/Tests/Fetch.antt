-- ===== src/Tests/Fetch.antt =====
-- The theorems on fetching chunks, with a store that is an association list.
use hugrs.Prelude.{
  ℕ, zero, suc, ◌≤◌, ◌<◌, ◌≡◌, refl, ◌⊎◌, inl, inr, String, true, Option, none, some, List, [], ◌∷◌,
  ok, ok_or, is_some, str_eq, find, select, not, length, slice, arith,
}
use hugrs.Storage.Trait.{StorageBackend}
use hugrs.Session.Fetch.{
  ChunkReader, FetchState, Reply, send_failed, replied, Outcome, fetched, accept, attempts, save,
  put_new, record_chunk,
}
use hugrs.Session.Fetch.Attempts.{IsTransient, attempts_end, attempts_fetch, accept-length}
use hugrs.Session.Fetch.Saved.{IsSaved, save-IsSaved}

abbrev Rows : Type 0
Rows = List (String × List ℕ)

abbrev bytes_of : Option (String × List ℕ) → Option (List ℕ)
bytes_of none = none
bytes_of (some e) = some e.1

abbrev rows_backend : StorageBackend
rows_backend = record {
  Store = Rows;
  put = λ k bytes s. (ok (length bytes), (k, bytes) ∷ s);
  get = λ k s. ok_or (bytes_of (find (λ e. str_eq e.0 k) s)) "not found";
  has_key = λ k s. ok (is_some (find (λ e. str_eq e.0 k) s));
  delete = λ k s. (ok tt, select (λ e. not (str_eq e.0 k)) s);
}

abbrev sample_hash : List ℕ → String
sample_hash [] = "0000"
sample_hash (x ∷ xs) = "aa11"

abbrev sample_reader : ChunkReader
sample_reader = record {
  backend = rows_backend;
  sha256_hex = sample_hash;
  verify_sha256 = true;
  chunk_retries = 3;
}

abbrev sample_file : List ℕ
sample_file = 10 ∷ 11 ∷ 12 ∷ 13 ∷ []

-- The first attempt gets a short body; the second the file.
abbrev sample_http : ℕ → Reply
sample_http zero = send_failed "refused"
sample_http (suc zero) = replied 200 (ok (10 ∷ []))
sample_http (suc (suc n)) = replied 200 (ok sample_file)

attempts_end_example :
    (x : Outcome) × (n : ℕ) × (attempts 3 sample_http 1 2 3 0 ≡ some (x, n)) × (0 < n) × (n ≤ 3)
attempts_end_example = attempts_end 3 sample_http 1 2 (omega arith)

first_fails : (i : ℕ) → 0 < i → i < 2 → IsTransient 1 2 (sample_http i)
first_fails zero lo hi = tt
first_fails (suc zero) lo hi = inr (inl (omega arith), inl (omega arith))
first_fails (suc (suc n)) lo hi = absurd (omega arith)

attempts_fetch_example : attempts 3 sample_http 1 2 3 0 ≡ some (fetched (11 ∷ 12 ∷ []), 2)
attempts_fetch_example =
    attempts_fetch 3 sample_http sample_file 1 2 2 (omega arith) (omega arith) (omega arith)
      (omega arith) first_fails (inr (refl, refl))

accept-length_example :
    ((◌≡◌ {A = ℕ} 1 2)
      × ((◌≡◌ {A = List ℕ} (13 ∷ []) sample_file)
          ⊎ ((◌≡◌ {A = ℕ} 200 200)
              × (2 < 4)
              × (◌≡◌ {A = List ℕ} (13 ∷ []) (slice 3 5 sample_file)))))
    ⊎ ((◌≡◌ {A = ℕ} 200 200)
        × (2 < 4)
        × (4 ≤ 4)
        × (3 ≤ 4)
        × (◌≡◌ {A = List ℕ} (13 ∷ []) (slice 3 4 sample_file)))
unfolding accept
accept-length_example = accept-length 3 4 200 sample_file (13 ∷ []) refl (omega arith)

abbrev sample_state : FetchState sample_reader
sample_state = record { store = []; cached_chunks = []; fetched_bytes = 0; events = [] }

abbrev sample_after : FetchState sample_reader
sample_after = record {
  store = ("aa11", 11 ∷ 12 ∷ []) ∷ [];
  cached_chunks = (0, "aa11") ∷ [];
  fetched_bytes = 2;
  events =
      record {
        sha256 = "aa11";
        path = "aa/11/aa11";
        data_len = 2;
        stored_size = 2;
        file_id = 1;
        chunk_idx = 0;
      }
      ∷ [];
}

save-IsSaved_example :
    (◌≡◌ {A = List ℕ} (11 ∷ 12 ∷ []) (11 ∷ 12 ∷ []))
    × IsSaved sample_reader 1 0 (11 ∷ 12 ∷ []) sample_state sample_after
unfolding save put_new record_chunk
save-IsSaved_example =
    save-IsSaved sample_reader 1 0 (11 ∷ 12 ∷ []) (11 ∷ 12 ∷ []) sample_state sample_after refl
