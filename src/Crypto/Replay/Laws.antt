-- ===== src/Crypto/Replay/Laws.antt =====
-- The well-formed caches of identity/crypto/replay.py: their size, and one entry for a token.
use agent_traffic_intelligen.Prelude.{
  ℕ, ◌+◌, ◌≤◌, some, [], ◌∷◌, ◌++◌, Bool, true, false, ◌≡◌, refl, not, length, length-append,
  length-keep, keep, arith, eq_iff, All, All-append, All-keep, Option-cases, inl, inr, ◌↔◌,
  Bool-cases, subst, ◌∙◌,
}
use agent_traffic_intelligen.Prelude.Int.{ℤ, leb_ℤ}
use agent_traffic_intelligen.Crypto.Replay.{
  Token, token_eq, Entries, ReplayCache, get, put, without, move_to_end, purge, trim, seen_or_add,
}

length-trim : (n : ℕ) (entries : Entries) → length (trim n entries) ≤ n
unfolding trim
length-trim n [] = omega arith
length-trim n (x ∷ xs) = ground (arith, length-trim n xs)

pub length-without :
    (token : Token) (entries : Entries) (e : ℤ)
    → get token entries ≡ some e
    → length (without token entries) + 1 ≡ length entries
unfolding get without
length-without token [] v h = cc
length-without token ((t, e) ∷ xs) v h = ground (arith, length-without token xs v)

length-move_to_end :
    (token : Token) (entries : Entries) → length (move_to_end token entries) ≡ length entries
unfolding move_to_end
length-move_to_end token entries = elim (Option-cases (get token entries)) [
  | inl e ↦ rw (e, move_to_end) refl
  | inr (v, e) ↦
      rw (e, move_to_end)
        (omega (
          arith,
          length-append (without token entries) ((token, v) ∷ []),
          length-without token entries v e,
        ))
]

-- No token has two entries.
abbrev pub IsAbsent : Token → Entries → Type 0
IsAbsent token entries = All (λ x. token_eq x.0 token ≡ false) entries

abbrev pub HasDistinctTokens : Entries → Type 0
HasDistinctTokens [] = Unit
HasDistinctTokens ((t, e) ∷ xs) = IsAbsent t xs × HasDistinctTokens xs

pub record IsValid (cache : ReplayCache) : Type 0 where
  pub bounded : length cache.entries ≤ cache.max_entries
  pub distinct : HasDistinctTokens cache.entries

pub token_eq_iff : (a b : Token) → (token_eq a b ≡ true) ↔ (a ≡ b)
token_eq_iff (a, b) (c, d) = ground (arith, eq_iff a c, eq_iff b d)

pub token_eq_sym : (a b : Token) → token_eq a b ≡ token_eq b a
token_eq_sym (a, b) (c, d) = ground (arith, eq_iff a c, eq_iff b d, eq_iff c a, eq_iff d b)

IsAbsent-without : (k token : Token) (xs : Entries) → IsAbsent k xs → IsAbsent k (without token xs)
unfolding without
IsAbsent-without k token [] h = tt
IsAbsent-without k token ((t, e) ∷ xs) h = ground (arith, IsAbsent-without k token xs)

pub IsAbsent-without_self :
    (token : Token) (xs : Entries) → HasDistinctTokens xs → IsAbsent token (without token xs)
unfolding without
IsAbsent-without_self token [] h = tt
IsAbsent-without_self token ((t, e) ∷ xs) (a, h) = elim (Bool-cases (token_eq t token)) [
  | inl same ↦ rw same (subst (λ k. IsAbsent k xs) ((token_eq_iff t token).0 same) a)
  | inr other ↦ rw other (other, IsAbsent-without_self token xs h)
]

distinct-without :
    (token : Token) (xs : Entries) → HasDistinctTokens xs → HasDistinctTokens (without token xs)
unfolding without
distinct-without token [] h = tt
distinct-without token ((t, e) ∷ xs) h =
    ground (arith, distinct-without token xs, IsAbsent-without t token xs)

IsAbsent-put :
    (k token : Token) (e : ℤ) (xs : Entries)
    → token_eq token k ≡ false
    → IsAbsent k xs
    → IsAbsent k (put token e xs)
unfolding put
IsAbsent-put k token e [] n h = (n, tt)
IsAbsent-put k token e ((t, v) ∷ xs) n h = ground (arith, IsAbsent-put k token e xs n)

distinct-put :
    (token : Token) (e : ℤ) (xs : Entries)
    → HasDistinctTokens xs
    → HasDistinctTokens (put token e xs)
unfolding put
distinct-put token e [] h = (tt, tt)
distinct-put token e ((t, v) ∷ xs) h =
    ground (arith, distinct-put token e xs, IsAbsent-put t token e xs, token_eq_sym t token)

distinct-snoc :
    (token : Token) (e : ℤ) (xs : Entries)
    → HasDistinctTokens xs
    → IsAbsent token xs
    → HasDistinctTokens (xs ++ (token, e) ∷ [])
distinct-snoc token e [] h a = (tt, tt)
distinct-snoc token e ((t, v) ∷ xs) (b, h) (n, a) = (
  All-append (λ x. token_eq x.0 t ≡ false) xs ((token, e) ∷ []) b (token_eq_sym token t ∙ n, tt),
  distinct-snoc token e xs h a,
)

distinct-move_to_end :
    (token : Token) (xs : Entries) → HasDistinctTokens xs → HasDistinctTokens (move_to_end token xs)
unfolding move_to_end
distinct-move_to_end token xs h = elim (Option-cases (get token xs)) [
  | inl e ↦ rw (e, move_to_end) h
  | inr (v, e) ↦
      rw (e, move_to_end)
        (distinct-snoc token v (without token xs) (distinct-without token xs h)
          (IsAbsent-without_self token xs h))
]

distinct-trim : (n : ℕ) (xs : Entries) → HasDistinctTokens xs → HasDistinctTokens (trim n xs)
unfolding trim
distinct-trim n [] h = tt
distinct-trim n ((t, e) ∷ xs) h = ground (arith, distinct-trim n xs)

pub distinct-keep :
    (p : Token × ℤ → Bool) (xs : Entries) → HasDistinctTokens xs → HasDistinctTokens (keep p xs)
unfolding keep
distinct-keep p [] h = tt
distinct-keep p ((t, e) ∷ xs) h =
    ground (arith, distinct-keep p xs, All-keep (λ x. token_eq x.0 t ≡ false) p xs)

seen_or_add_bounded :
    (cache : ReplayCache) (token : Token) (expires now : ℤ)
    → length cache.entries ≤ cache.max_entries
    → length (seen_or_add cache token expires now).1.entries ≤ cache.max_entries
unfolding seen_or_add purge
seen_or_add_bounded cache token expires now h = ground (
  arith,
  length-move_to_end token (purge now cache.entries),
  length-keep (λ entry. not (leb_ℤ entry.1 now)) cache.entries,
  length-trim cache.max_entries (move_to_end token (put token expires (purge now cache.entries))),
)

seen_or_add_distinct :
    (cache : ReplayCache) (token : Token) (expires now : ℤ)
    → HasDistinctTokens cache.entries
    → HasDistinctTokens (seen_or_add cache token expires now).1.entries
unfolding seen_or_add purge
seen_or_add_distinct cache token expires now h =
    let left = keep (λ (entry : Token × ℤ). not (leb_ℤ entry.1 now)) cache.entries in
    let h' = distinct-keep (λ entry. not (leb_ℤ entry.1 now)) cache.entries h in
    ground (
      arith,
      distinct-move_to_end token left,
      distinct-put token expires left,
      distinct-move_to_end token (put token expires left),
      distinct-trim cache.max_entries (move_to_end token (put token expires left)),
    )

pub max_entries_kept :
    (cache : ReplayCache) (token : Token) (expires now : ℤ)
    → (seen_or_add cache token expires now).1.max_entries ≡ cache.max_entries
unfolding seen_or_add
max_entries_kept cache token expires now = refl

-- Every call, whatever it answers, leaves at most `max_entries` entries, one for a token.
pub seen_or_add-IsValid :
    (cache : ReplayCache) (token : Token) (expires now : ℤ)
    → IsValid cache
    → IsValid (seen_or_add cache token expires now).1
seen_or_add-IsValid cache token expires now v = record {
  bounded =
      rw (max_entries_kept cache token expires now)
        (seen_or_add_bounded cache token expires now v.bounded);
  distinct = seen_or_add_distinct cache token expires now v.distinct;
}
