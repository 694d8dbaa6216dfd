-- ===== src/Session/Fetch/Attempts.antt =====
-- The attempts of `fetch_chunk`: that they end, and what they take from the upstream server.
use hugrs.Prelude.{
  ℕ, zero, suc, ◌+◌, ◌-◌, ◌≤◌, ◌<◌, ◌≡◌, ◌≢◌, refl, ap, ◌∙◌, sym, subst, ◌⊎◌, inl, inr, String,
  true, false, ◌&&◌, Option, some, List, Result, ok, err, ltb, leb, ◌==◌, length, slice,
  length-slice, slice_at, slice_full, min, Bool-cases, dec_lt, arith,
}
use hugrs.Session.Fetch.{
  Reply, send_failed, replied, Verdict, keep, retry, give_up, slice_panic, FetchError, Outcome,
  fetched, failed, panicked, accept, judge, after_attempt, attempts, incomplete, download_error,
  server_error, request_error,
}

-- The loop ends with a result, after at least one request more and within the limit.
abbrev EndsWithin : ℕ → ℕ → Option (Outcome × ℕ) → Type 0
EndsWithin max_retries attempt o =
    (x : Outcome) × (n : ℕ) × (o ≡ some (x, n)) × (attempt < n) × (n ≤ max_retries)

after_attempt-ends :
    (max_retries attempt : ℕ) (next : Option (Outcome × ℕ)) (v : Verdict)
    → attempt < max_retries
    → (attempt + 1 < max_retries → EndsWithin max_retries (attempt + 1) next)
    → EndsWithin max_retries attempt (after_attempt max_retries (attempt + 1) next v)
after_attempt-ends m attempt next (keep b) lt h =
    (fetched b, attempt + 1, refl, omega arith, omega arith)
after_attempt-ends m attempt next (give_up e) lt h =
    (failed e, attempt + 1, refl, omega arith, omega arith)
after_attempt-ends m attempt next slice_panic lt h =
    (panicked, attempt + 1, refl, omega arith, omega arith)
after_attempt-ends m attempt next (retry e) lt h = elim (Bool-cases (leb m (attempt + 1))) [
  | inl last ↦ (failed e, attempt + 1, rw last refl, omega arith, omega arith)
  | inr more ↦ let (x, n, eq, lo, hi) = h (ground arith) in (x, n, rw more eq, omega arith, hi)
]

attempts-ends :
    (max_retries : ℕ) (http : ℕ → Reply) (start last fuel attempt : ℕ)
    → attempt < max_retries
    → max_retries ≤ attempt + fuel
    → EndsWithin max_retries attempt (attempts max_retries http start last fuel attempt)
unfolding attempts
attempts-ends m http start last zero attempt lt enough = absurd (omega arith)
attempts-ends m http start last (suc fuel) attempt lt enough =
    after_attempt-ends m attempt _ (judge start last (http (attempt + 1))) lt
      (λ more. attempts-ends m http start last fuel (attempt + 1) more (omega arith))

-- With a limit of at least one, fuel for the limit gives a result, whatever the server replies, after
-- at least one request and at most as many as the limit.
pub attempts_end :
    (max_retries : ℕ) (http : ℕ → Reply) (start last : ℕ)
    → 0 < max_retries
    → (x : Outcome) × (n : ℕ) × (attempts max_retries http start last max_retries 0 ≡ some (x, n))
      × (0 < n)
      × (n ≤ max_retries)
attempts_end m http start last some_retry =
    attempts-ends m http start last m 0 some_retry (omega arith)

-- A body that is of no use: not read to its end, shorter than the range, or, unless the status is 200,
-- longer.
abbrev pub IsBroken : ℕ → ℕ → Result String (List ℕ) → Type 0
IsBroken expected status (err e) = Unit
IsBroken expected status (ok body) =
    (length body < expected) ⊎ ((status ≢ 200) × (expected < length body))

-- What may pass: no response, a 5xx status, or a body of no use with a status that is no error.
abbrev pub IsTransient : ℕ → ℕ → Reply → Type 0
IsTransient start last (send_failed e) = Unit
IsTransient start last (replied status body) =
    ((500 ≤ status) × (status < 600))
    ⊎ (((status < 400) ⊎ (600 ≤ status)) × IsBroken (last - start + 1) status body)

-- The chunk with status 206, or the whole file with status 200.
abbrev pub IsGood : List ℕ → ℕ → ℕ → Reply → Type 0
IsGood file start last (send_failed e) = ⊥
IsGood file start last (replied status (err e)) = ⊥
IsGood file start last (replied status (ok body)) =
    ((status ≡ 206) × (body ≡ slice start (last + 1) file)) ⊎ ((status ≡ 200) × (body ≡ file))

accept-broken :
    (start last status : ℕ) (body : List ℕ)
    → IsBroken (last - start + 1) status (ok body)
    → accept start last status body ≡ retry (incomplete (length body))
unfolding accept
accept-broken start last status body (inl short) = ground arith
accept-broken start last status body (inr long) = ground arith

judge-transient :
    (start last : ℕ) (r : Reply)
    → IsTransient start last r
    → (e : FetchError) × (judge start last r ≡ retry e)
unfolding judge
judge-transient start last (send_failed e) h = (request_error e, refl)
judge-transient start last (replied status body) (inl h) = (server_error status, ground arith)
judge-transient start last (replied status (err e)) (inr h) = (download_error e, ground arith)
judge-transient start last (replied status (ok body)) (inr h) =
    (incomplete (length body), ground (arith, accept-broken start last status body h.1))

accept-part :
    (file : List ℕ) (start last : ℕ)
    → start ≤ last
    → last < length file
    → accept start last 206 (slice start (last + 1) file) ≡ keep (slice start (last + 1) file)
unfolding accept
accept-part file start last h k =
    ground (arith, length-slice start (last + 1) file (omega arith) (omega arith))

accept-whole :
    (file : List ℕ) (start last : ℕ)
    → start ≤ last
    → last < length file
    → accept start last 200 file ≡ keep (slice start (last + 1) file)
unfolding accept
accept-whole file start last h k = elim (Bool-cases (ltb (last - start + 1) (length file))) [
  | inl longer ↦
      let cut : min (last + 1) (length file) ≡ last + 1 = omega arith in
      let fits : ltb (last + 1) start ≡ false = ground arith in rw (longer, cut, fits) refl
  | inr same ↦
      let all : slice start (last + 1) file ≡ file =
        slice_at start (last + 1) 0 (length file) file (ground arith) (ground arith)
        ∙ slice_full file in
      let exact : (length file == last - start + 1) ≡ true = ground arith in
      rw (same, exact) (ap keep (sym all))
]

judge-good :
    (file : List ℕ) (start last : ℕ) (r : Reply)
    → start ≤ last
    → last < length file
    → IsGood file start last r
    → judge start last r ≡ keep (slice start (last + 1) file)
unfolding judge
judge-good file start last (send_failed e) h k g = absurd g
judge-good file start last (replied status (err e)) h k g = absurd g
judge-good file start last (replied status (ok body)) h k (inl (s, b)) =
    rw (s, b) (accept-part file start last h k)
judge-good file start last (replied status (ok body)) h k (inr (s, b)) =
    rw (s, b) (accept-whole file start last h k)

attempts-fetches :
    (max_retries : ℕ) (http : ℕ → Reply) (file : List ℕ) (start last good fuel attempt : ℕ)
    → start ≤ last
    → last < length file
    → attempt < good
    → good ≤ max_retries
    → good ≤ attempt + fuel
    → ((i : ℕ) → 0 < i → i < good → IsTransient start last (http i))
    → IsGood file start last (http good)
    → attempts max_retries http start last fuel attempt
      ≡ some (fetched (slice start (last + 1) file), good)
unfolding attempts
attempts-fetches m http file start last good zero attempt h k lt le enough t g =
    absurd (omega arith)
attempts-fetches m http file start last good (suc fuel) attempt h k lt le enough t g =
    let next = attempts m http start last fuel (attempt + 1) in
    elim (dec_lt (attempt + 1) good) [
      | yes before ↦
          let (e, again) =
            judge-transient start last (http (attempt + 1))
              (t (attempt + 1) (omega arith) before) in
          let more : leb m (attempt + 1) ≡ false = ground arith in
          ap (after_attempt m (attempt + 1) next) again
          ∙ rw more (
              attempts-fetches m http file start last good fuel (attempt + 1) h k before le
                (omega arith) t g)
      | no now ↦
          let at : good ≡ attempt + 1 = omega arith in
          let here = subst (λ i. IsGood file start last (http i)) at g in
          ap (after_attempt m (attempt + 1) next)
            (judge-good file start last (http (attempt + 1)) h k here)
          ∙ ap (λ n. some (fetched (slice start (last + 1) file), n)) (sym at)
    ]

-- For a range inside the file: when one of the attempts within the limit gets the range with status 206
-- or the whole file with status 200, and those before it get no response, a status 5xx, or, with a
-- status below 400 or from 600 on, a body that breaks off, is too short, or is too long and not with
-- status 200, the fetch takes exactly the bytes of the range, with that many requests.
pub attempts_fetch :
    (max_retries : ℕ) (http : ℕ → Reply) (file : List ℕ) (start last good : ℕ)
    → start ≤ last
    → last < length file
    → 0 < good
    → good ≤ max_retries
    → ((i : ℕ) → 0 < i → i < good → IsTransient start last (http i))
    → IsGood file start last (http good)
    → attempts max_retries http start last max_retries 0
      ≡ some (fetched (slice start (last + 1) file), good)
attempts_fetch m http file start last good h k lt le t g =
    attempts-fetches m http file start last good m 0 h k lt le (omega arith) t g

-- The bytes that are taken from a body have the length of the range, and are the body or what a body
-- that is longer than the range, with status 200, has there; or such a longer body ended before the end
-- of the range, and they are what it had from the start on.
pub accept-length :
    (start last status : ℕ) (body bytes : List ℕ)
    → accept start last status body ≡ keep bytes
    → start ≤ last
    → ((length bytes ≡ last - start + 1)
        × ((bytes ≡ body)
            ⊎ ((status ≡ 200)
                × (last - start + 1 < length body)
                × (bytes ≡ slice start (last + 1) body))))
      ⊎ ((status ≡ 200)
          × (last - start + 1 < length body)
          × (length body ≤ last)
          × (start ≤ length body)
          × (bytes ≡ slice start (length body) body))
unfolding accept
accept-length start last status body bytes e h =
    elim (Bool-cases ((status == 200) && ltb (last - start + 1) (length body))) [
      | inr plain ↦ inl (ground arith, inl (ground arith))
      | inl cut ↦ elim (Bool-cases (ltb (min (last + 1) (length body)) start)) [
        | inl past ↦ absurd (ground arith)
        | inr fits ↦
            let is_slice : bytes ≡ slice start (min (last + 1) (length body)) body = ground arith in
            elim (dec_lt last (length body)) [
              | yes reaches ↦ inl (
                ap length is_slice
                    ∙ length-slice start (min (last + 1) (length body)) body (ground arith)
                        (omega arith)
                    ∙ omega arith,
                inr (
                  ground arith,
                  ground arith,
                  is_slice
                      ∙ slice_at start (min (last + 1) (length body)) start (last + 1) body refl
                          (omega arith),
                ),
              )
              | no ends ↦ inr (
                ground arith,
                ground arith,
                omega arith,
                ground arith,
                is_slice
                    ∙ slice_at start (min (last + 1) (length body)) start (length body) body refl
                        (omega arith),
              )
            ]
      ]
    ]
