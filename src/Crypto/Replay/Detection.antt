-- ===== src/Crypto/Replay/Detection.antt =====
-- The entry of a token in the cache of identity/crypto/replay.py, through each step of a call.
use agent_traffic_intelligen.Prelude.{
  ℕ, suc, ◌≤◌, ◌<◌, Option, none, some, [], ◌∷◌, ◌++◌, Bool, true, false, ◌≡◌, ◌↔◌, ◌⊎◌, refl, not,
  length, length-keep, length-append, keep, arith, Option-cases, Bool-cases, inl, inr, subst,
  if◌then◌else◌,
}
use agent_traffic_intelligen.Prelude.Int.{ℤ, leb_ℤ, ◌<ℤ◌}
use agent_traffic_intelligen.Crypto.Replay.{
  Token, token_eq, Entries, ReplayCache, get, put, without, move_to_end, purge, trim, seen_or_add,
}
use agent_traffic_intelligen.Crypto.Replay.Laws.{IsValid, IsAbsent, HasDistinctTokens, token_eq_iff}

-- The token's entry, with expiry `e`, has at most `k` younger ones behind it.
abbrev pub IsRecent : Token → ℤ → ℕ → Entries → Type 0
IsRecent token e k [] = ⊥
IsRecent token e k ((t, v) ∷ xs) =
    ((token_eq t token ≡ true) × (v ≡ e) × (length xs ≤ k))
    ⊎ ((token_eq t token ≡ false) × IsRecent token e k xs)

module _ (token : Token) (e : ℤ) where
  pub get_of_recent : (k : ℕ) (xs : Entries) → IsRecent token e k xs → get token xs ≡ some e
  unfolding get
  get_of_recent k [] h = absurd h
  get_of_recent k ((t, v) ∷ xs) h = ground (arith, get_of_recent k xs)

  pub IsRecent-weaken :
      (k m : ℕ) (xs : Entries) → k ≤ m → IsRecent token e k xs → IsRecent token e m xs
  IsRecent-weaken k m [] l h = h
  IsRecent-weaken k m ((t, v) ∷ xs) l h = ground (arith, IsRecent-weaken k m xs l)

  pub IsRecent-purge :
      (k : ℕ) (now : ℤ) (xs : Entries)
      → now <ℤ e
      → IsRecent token e k xs
      → IsRecent token e k (keep (λ entry. not (leb_ℤ entry.1 now)) xs)
  unfolding keep
  IsRecent-purge k now [] l h = h
  IsRecent-purge k now ((t, v) ∷ xs) l h =
      ground (arith, IsRecent-purge k now xs l, length-keep (λ entry. not (leb_ℤ entry.1 now)) xs)

  length-without-le : (other : Token) (xs : Entries) → length (without other xs) ≤ length xs
  unfolding without
  length-without-le other [] = omega arith
  length-without-le other ((t, v) ∷ xs) = ground (arith, length-without-le other xs)

  pub IsRecent-without :
      (k : ℕ) (other : Token) (xs : Entries)
      → token_eq other token ≡ false
      → IsRecent token e k xs
      → IsRecent token e k (without other xs)
  unfolding without
  IsRecent-without k other [] n h = h
  IsRecent-without k other ((t, v) ∷ xs) n h = ground (
    arith,
    IsRecent-without k other xs n,
    length-without-le other xs,
    token_eq_iff t other,
    token_eq_iff t token,
    token_eq_iff other token,
  )

  pub IsRecent-snoc :
      (k : ℕ) (other : Token) (v : ℤ) (xs : Entries)
      → IsRecent token e k xs
      → IsRecent token e (suc k) (xs ++ (other, v) ∷ [])
  IsRecent-snoc k other v [] h = absurd h
  IsRecent-snoc k other v ((t, w) ∷ xs) h =
      ground (arith, IsRecent-snoc k other v xs, length-append xs ((other, v) ∷ []))

  pub IsRecent-snoc_self :
      (k : ℕ) (xs : Entries) → IsAbsent token xs → IsRecent token e k (xs ++ (token, e) ∷ [])
  IsRecent-snoc_self k [] a = inl ((token_eq_iff token token).1 refl, refl, omega arith)
  IsRecent-snoc_self k ((t, w) ∷ xs) (n, a) = inr (n, IsRecent-snoc_self k xs a)

  pub IsRecent-trim :
      (k n : ℕ) (xs : Entries) → k < n → IsRecent token e k xs → IsRecent token e k (trim n xs)
  unfolding trim
  IsRecent-trim k n [] l h = h
  IsRecent-trim k n ((t, v) ∷ xs) l h = ground (arith, IsRecent-trim k n xs l)

pub without-put :
    (token : Token) (e : ℤ) (xs : Entries) → without token (put token e xs) ≡ without token xs
unfolding without put
without-put token e [] = ground (arith, token_eq_iff token token)
without-put token e ((t, v) ∷ xs) = ground (arith, without-put token e xs)

pub get-put : (token : Token) (e : ℤ) (xs : Entries) → get token (put token e xs) ≡ some e
unfolding get put
get-put token e [] = ground (arith, token_eq_iff token token)
get-put token e ((t, v) ∷ xs) = ground (arith, get-put token e xs)

-- An entry that is written and moved stands at the end, once.
pub move_to_end-put :
    (token : Token) (e : ℤ) (xs : Entries)
    → move_to_end token (put token e xs) ≡ without token xs ++ (token, e) ∷ []
unfolding move_to_end
move_to_end-put token e xs = rw (get-put token e xs, move_to_end) (rw (without-put token e xs))

-- What the purge leaves.
abbrev live : ℤ → Entries → Entries
live now = keep (λ entry. not (leb_ℤ entry.1 now))

get_of_absent :
    (token : Token) (p : Token × ℤ → Bool) (xs : Entries)
    → IsAbsent token xs
    → get token (keep p xs) ≡ none
unfolding get keep
get_of_absent token p [] a = refl
get_of_absent token p ((t, v) ∷ xs) (n, a) = ground (arith, get_of_absent token p xs a)

abbrev unexpired : ℤ → Option ℤ → Option ℤ
unexpired now none = none
unexpired now (some v) = if leb_ℤ v now then none else some v

get-live :
    (token : Token) (now : ℤ) (xs : Entries)
    → HasDistinctTokens xs
    → get token (live now xs) ≡ unexpired now (get token xs)
unfolding get keep
get-live token now [] h = refl
get-live token now ((t, v) ∷ xs) (a, h) = elim (Bool-cases (token_eq t token)) [
  | inl same ↦ ground (
    arith,
    get_of_absent token (λ entry. not (leb_ℤ entry.1 now)) xs
        (subst (λ k. IsAbsent k xs) ((token_eq_iff t token).0 same) a),
  )
  | inr other ↦ ground (arith, get-live token now xs h)
]

-- In a valid cache a call answers `True` exactly when the token has an entry that has not expired.
pub seen_iff :
    (cache : ReplayCache) (token : Token) (expires now : ℤ)
    → IsValid cache
    → ((seen_or_add cache token expires now).0 ≡ true)
      ↔ ((e : ℤ) × (get token cache.entries ≡ some e) × (now <ℤ e))
unfolding seen_or_add purge
seen_iff cache token expires now valid = elim (Option-cases (get token cache.entries)) [
  | inl e ↦ ground (arith, get-live token now cache.entries valid.distinct)
  | inr (v, e) ↦ (
    λ h. (v, e, ground (arith, get-live token now cache.entries valid.distinct)),
    λ (w, f, l). ground (arith, get-live token now cache.entries valid.distinct),
  )
]
