-- ===== src/Session/Table/Flight.antt =====
-- A download from its first receiver to the removal of its entry.
use hugrs.Prelude.{
  ℕ, ◌≡◌, refl, sym, ap, ◌∙◌, String, true, false, not, none, List, [], ◌∷◌, ◌++◌, append_assoc,
  append-nil, map, Result, any_of, select, arith,
}
use hugrs.Session.Table.{
  Key, same_key, message, closed, Table, Event, subscribes, sends, removes, is_entry, join,
  subscribe, deliver_all, empty_entry, send, remove_entry, react, react_all,
}

same_key_refl : (key : Key) → same_key key key ≡ true
same_key_refl (a, b) = ground arith

select-others :
    (key : Key) (xs : List (Key × List ℕ))
    → any_of (is_entry key) xs ≡ false
    → select (λ e. not (is_entry key e)) xs ≡ xs
select-others key [] n = refl
select-others key (x ∷ xs) n = ground (arith, select-others key xs)

join-others :
    (key : Key) (r : ℕ) (xs : List (Key × List ℕ))
    → any_of (is_entry key) xs ≡ false
    → map (join key r) xs ≡ xs
join-others key r [] n = refl
join-others key r (x ∷ xs) n = ground (arith, join-others key r xs)

empty-others :
    (key : Key) (xs : List (Key × List ℕ))
    → any_of (is_entry key) xs ≡ false
    → map (empty_entry key) xs ≡ xs
empty-others key [] n = refl
empty-others key (x ∷ xs) n = ground (arith, empty-others key xs)

-- A table with an entry for the key, and its receivers in the order of their arrival.
abbrev open_for : Key → List ℕ → Table → Table
open_for key waiting t = record t { entries = (key, waiting) ∷ t.entries }

abbrev pub joins : Key → ℕ → Event
joins key r = subscribes key r none

join-open :
    (key : Key) (r : ℕ) (waiting : List ℕ) (t : Table)
    → any_of (is_entry key) t.entries ≡ false
    → react (joins key r) (open_for key waiting t) ≡ open_for key (waiting ++ r ∷ []) t
unfolding react subscribe
join-open key r waiting t n = rw (same_key_refl key, join-others key r t.entries n) refl

joins-open :
    (key : Key) (rs waiting : List ℕ) (t : Table)
    → any_of (is_entry key) t.entries ≡ false
    → react_all (map (joins key) rs) (open_for key waiting t) ≡ open_for key (waiting ++ rs) t
unfolding react_all
joins-open key [] waiting t n = ap (λ w. open_for key w t) (sym (append-nil waiting))
joins-open key (r ∷ rs) waiting t n =
    ap (react_all (map (joins key) rs)) (join-open key r waiting t n)
    ∙ joins-open key rs (waiting ++ r ∷ []) t n
    ∙ ap (λ w. open_for key w t) (append_assoc waiting (r ∷ []) rs)

send-open :
    (key : Key) (result : Result String (List ℕ)) (waiting : List ℕ) (t : Table)
    → any_of (is_entry key) t.entries ≡ false
    → react (sends key result) (open_for key waiting t)
      ≡ open_for key [] (record t { inbox = deliver_all (message result) waiting ++ t.inbox })
unfolding react send
send-open key result waiting t n = rw (same_key_refl key, empty-others key t.entries n) refl

remove-open :
    (key : Key) (waiting : List ℕ) (t : Table)
    → any_of (is_entry key) t.entries ≡ false
    → react (removes key) (open_for key waiting t)
      ≡ record t { inbox = deliver_all closed waiting ++ t.inbox }
unfolding react remove_entry
remove-open key waiting t n = rw (same_key_refl key, select-others key t.entries n) refl

-- A chunk that is not cached and has no entry: the receivers that join before the download's result is
-- sent get the result, once each; those that join between the sending and the removal of the entry get
-- no result and are told that the channel is closed; and the entry is gone afterwards.
pub download_delivers :
    (key : Key) (first : ℕ) (early late : List ℕ) (result : Result String (List ℕ)) (t : Table)
    → any_of (is_entry key) t.entries ≡ false
    → react (removes key) (
        react_all
          (map (joins key) late)
          (react (sends key result) (react_all (map (joins key) (first ∷ early)) t)))
      ≡ record t {
        inbox =
            deliver_all closed late ++ (deliver_all (message result) (first ∷ early) ++ t.inbox);
      }
unfolding react_all react subscribe
download_delivers key first early late result t n =
    ap
      (λ x. react (removes key) (
        react_all (map (joins key) late)
          (react (sends key result) (react_all (map (joins key) early) x))))
      opened
    ∙ ap (λ x. react (removes key) (react_all (map (joins key) late) (react (sends key result) x)))
        (joins-open key early (first ∷ []) t n)
    ∙ ap (λ x. react (removes key) (react_all (map (joins key) late) x))
        (send-open key result (first ∷ early) t n)
    ∙ ap (react (removes key)) (joins-open key late [] sent n)
    ∙ remove-open key late sent n
  where
    opened : react (joins key first) t ≡ open_for key (first ∷ []) t
    opened = rw n refl

    sent : Table
    sent = record t { inbox = deliver_all (message result) (first ∷ early) ++ t.inbox }
