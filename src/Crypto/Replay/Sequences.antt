-- ===== src/Crypto/Replay/Sequences.antt =====
-- Sequences of calls of `seen_or_add` (identity/crypto/replay.py).
use agent_traffic_intelligen.Prelude.{
  ℕ, suc, ◌+◌, ◌<◌, none, some, List, [], ◌∷◌, ◌++◌, true, false, ◌≡◌, not, length, keep, arith,
  All, Option-cases, Bool-cases, inl, inr,
}
use agent_traffic_intelligen.Prelude.Int.{ℤ, leb_ℤ, ◌<ℤ◌, ◌≤ℤ◌}
use agent_traffic_intelligen.Crypto.Replay.{
  Token, token_eq, Entries, ReplayCache, get, put, without, move_to_end, purge, trim,
  seen_or_add_entries, seen_or_add,
}
use agent_traffic_intelligen.Crypto.Replay.Laws.{
  IsValid, HasDistinctTokens, token_eq_iff, IsAbsent-without_self, distinct-keep, max_entries_kept,
  seen_or_add-IsValid,
}
use agent_traffic_intelligen.Crypto.Replay.Detection.{
  IsRecent, get_of_recent, IsRecent-weaken, IsRecent-purge, IsRecent-without, IsRecent-snoc,
  IsRecent-snoc_self, IsRecent-trim, move_to_end-put, seen_iff,
}

-- One call of `seen_or_add`.
pub record Call : Type 0 where
  pub token : Token
  pub expires : ℤ
  pub now : ℤ

-- The calls of several requests, one after the other.
unfoldable pub run : ReplayCache → List Call → ReplayCache
run cache [] = cache
run cache (c ∷ calls) = run (seen_or_add cache c.token c.expires c.now).1 calls

module _ (token : Token) (e : ℤ) where
  IsRecent-added :
      (k n : ℕ) (other : Token) (v : ℤ) (xs : Entries)
      → suc k < n
      → token_eq other token ≡ false
      → IsRecent token e k xs
      → IsRecent token e (suc k) (trim n (move_to_end other (put other v xs)))
  IsRecent-added k n other v xs l o h = rw (move_to_end-put other v xs) (
      IsRecent-trim token e (suc k) n (without other xs ++ (other, v) ∷ []) l (
        IsRecent-snoc token e k other v (without other xs)
          (IsRecent-without token e k other xs o h)))

  IsRecent-moved :
      (k : ℕ) (other : Token) (xs : Entries)
      → token_eq other token ≡ false
      → IsRecent token e k xs
      → IsRecent token e (suc k) (move_to_end other xs)
  unfolding move_to_end
  IsRecent-moved k other xs o h = elim (Option-cases (get other xs)) [
    | inl f ↦ rw (f, move_to_end) (IsRecent-weaken token e k (suc k) xs (omega arith) h)
    | inr (v, f) ↦
        rw (f, move_to_end)
          (IsRecent-snoc token e k other v (without other xs)
            (IsRecent-without token e k other xs o h))
  ]

  IsRecent-refreshed :
      (k : ℕ) (xs : Entries)
      → HasDistinctTokens xs
      → get token xs ≡ some e
      → IsRecent token e k (move_to_end token xs)
  unfolding move_to_end
  IsRecent-refreshed k xs d f =
      rw (f, move_to_end)
        (IsRecent-snoc_self token e k (without token xs) (IsAbsent-without_self token xs d))

  -- A call at a time before `e` puts at most one entry behind the token's.
  IsRecent-call :
      (k : ℕ) (cache : ReplayCache) (c : Call)
      → HasDistinctTokens cache.entries
      → suc k < cache.max_entries
      → c.now <ℤ e
      → IsRecent token e k cache.entries
      → IsRecent token e (suc k) (seen_or_add cache c.token c.expires c.now).1.entries
  unfolding seen_or_add seen_or_add_entries purge
  IsRecent-call k cache c d l t h =
      let left = keep (λ (entry : Token × ℤ). not (leb_ℤ entry.1 c.now)) cache.entries in
      let kept = IsRecent-purge token e k c.now cache.entries t h in
      elim (Bool-cases (token_eq c.token token)) [
        | inl same ↦ rw ((token_eq_iff c.token token).0 same) (
            ground (
              arith,
              get_of_recent token e k left kept,
              IsRecent-refreshed (suc k) left
                  (distinct-keep (λ entry. not (leb_ℤ entry.1 c.now)) cache.entries d)
                  (get_of_recent token e k left kept),
            ))
        | inr other ↦ ground (
          arith,
          IsRecent-added k cache.max_entries c.token c.expires left l other kept,
          IsRecent-moved k c.token left other kept,
        )
      ]

  IsRecent-run :
      (calls : List Call) (k : ℕ) (cache : ReplayCache)
      → IsValid cache
      → k + length calls < cache.max_entries
      → All (λ c. c.now <ℤ e) calls
      → IsRecent token e k cache.entries
      → IsRecent token e (k + length calls) (run cache calls).entries
  unfolding run
  IsRecent-run [] k cache v l t h = IsRecent-weaken token e k (k + 0) cache.entries (omega arith) h
  IsRecent-run (c ∷ calls) k cache v l (t, ts) h =
      IsRecent-weaken token e (suc k + length calls) (k + suc (length calls))
        (run (seen_or_add cache c.token c.expires c.now).1 calls).entries (omega arith)
        (IsRecent-run calls (suc k) (seen_or_add cache c.token c.expires c.now).1
          (seen_or_add-IsValid cache c.token c.expires c.now v)
          (omega (arith, max_entries_kept cache c.token c.expires c.now)) ts
          (IsRecent-call k cache c v.distinct (omega arith) t h))

pub run-IsValid :
    (calls : List Call) (cache : ReplayCache) → IsValid cache → IsValid (run cache calls)
unfolding run
run-IsValid [] cache v = v
run-IsValid (c ∷ calls) cache v =
    run-IsValid calls (seen_or_add cache c.token c.expires c.now).1
      (seen_or_add-IsValid cache c.token c.expires c.now v)

-- An accepted token stands at the end of the cache.
IsRecent-accepted :
    (cache : ReplayCache) (token : Token) (expires now : ℤ)
    → IsValid cache
    → 0 < cache.max_entries
    → (seen_or_add cache token expires now).0 ≡ false
    → IsRecent token expires 0 (seen_or_add cache token expires now).1.entries
unfolding seen_or_add seen_or_add_entries purge
IsRecent-accepted cache token expires now v l h =
    let left = keep (λ (entry : Token × ℤ). not (leb_ℤ entry.1 now)) cache.entries in
    let distinct = distinct-keep (λ entry. not (leb_ℤ entry.1 now)) cache.entries v.distinct in
    let added : IsRecent token expires 0
        (trim cache.max_entries (move_to_end token (put token expires left))) =
      rw (move_to_end-put token expires left) (
        IsRecent-trim token expires 0 cache.max_entries
          (without token left ++ (token, expires) ∷ []) l
          (IsRecent-snoc_self token expires 0 (without token left)
            (IsAbsent-without_self token left distinct))) in
    ground (arith, added)

-- Replay detection: a token that was accepted is refused at every time before its expiry, if fewer
-- than `max_entries` calls, each before that expiry, came in between.
pub replay_refused :
    (cache : ReplayCache) (token : Token) (expires now : ℤ) (calls : List Call)
    (again_expires again_now : ℤ)
    → IsValid cache
    → (seen_or_add cache token expires now).0 ≡ false
    → length calls < cache.max_entries
    → All (λ c. c.now <ℤ expires) calls
    → again_now <ℤ expires
    → (seen_or_add
        (run (seen_or_add cache token expires now).1 calls)
        token
        again_expires
        again_now).0
      ≡ true
replay_refused cache token expires now calls again_expires again_now v fresh short before
      live_still =
    let next = (seen_or_add cache token expires now).1 in
    let valid = seen_or_add-IsValid cache token expires now v in
    let recent =
      IsRecent-run token expires calls 0 next valid
        (omega (arith, max_entries_kept cache token expires now)) before
        (IsRecent-accepted cache token expires now v (omega arith) fresh) in
    (seen_iff (run next calls) token again_expires again_now (run-IsValid calls next valid)).1
      (expires, get_of_recent token expires _ (run next calls).entries recent, live_still)

not-seen :
    (cache : ReplayCache) (token : Token) (expires now : ℤ)
    → IsValid cache
    → ((e : ℤ) → get token cache.entries ≡ some e → e ≤ℤ now)
    → (seen_or_add cache token expires now).0 ≡ false
not-seen cache token expires now v old = elim (Bool-cases (seen_or_add cache token expires now).0) [
  | inl seen ↦
      let (e, found, live_still) = (seen_iff cache token expires now v).0 seen in
      absurd (omega (arith, old e found))
  | inr fresh ↦ fresh
]

-- A token whose expiry is not after the time of the call is accepted, and accepted once more at
-- that time or any later one: such a call leaves nothing by which a replay is detected.
pub expired_accepted_twice :
    (cache : ReplayCache) (token : Token) (expires now later : ℤ)
    → IsValid cache
    → 0 < cache.max_entries
    → get token cache.entries ≡ none
    → expires ≤ℤ now
    → now ≤ℤ later
    → ((seen_or_add cache token expires now).0 ≡ false)
      × ((seen_or_add (seen_or_add cache token expires now).1 token expires later).0 ≡ false)
expired_accepted_twice cache token expires now later v room absent l m =
    let fresh = not-seen cache token expires now v (λ e found. absurd (ground arith)) in
    let next = (seen_or_add cache token expires now).1 in
    let recent = IsRecent-accepted cache token expires now v room fresh in
    (
      fresh,
      not-seen next token expires later (seen_or_add-IsValid cache token expires now v)
          (λ e found. ground (arith, get_of_recent token expires 0 next.entries recent)),
    )
