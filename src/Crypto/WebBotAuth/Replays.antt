-- ===== src/Crypto/WebBotAuth/Replays.antt =====
-- `WebBotAuthVerifier.verify` as a whole: what a pass means, and what the replay cache adds to it.
use agent_traffic_intelligen.Prelude.{
  ◌<◌, String, Option, none, some, List, Bool, true, false, ◌≡◌, ◌⊎◌, refl, inl, inr, arith, ap,
  if◌then◌else◌, ◌∙◌, length, All,
}
use agent_traffic_intelligen.Prelude.Int.{ℤ, ◌<ℤ◌, ◌≤ℤ◌}
use agent_traffic_intelligen.Domain.{IdentityClaim}
use agent_traffic_intelligen.Identity.Evidence.{VerificationEvidence, mismatch, is_pass}
use agent_traffic_intelligen.Identity.Context.{VerificationContext}
use agent_traffic_intelligen.Crypto.Replay.{ReplayCache, get, seen_or_add}
use agent_traffic_intelligen.Crypto.Replay.Laws.{IsValid}
use agent_traffic_intelligen.Crypto.Replay.Sequences.{
  Call, run, replay_refused, expired_accepted_twice,
}
use agent_traffic_intelligen.Crypto.Checks.{
  Now, Policy, Collaborators, Check, go, stop, trusted_details,
}
use agent_traffic_intelligen.Crypto.WebBotAuth.{
  Accepted, accept, evidence, pass_evidence, nonce_report, check_nonce, finish, verify,
}
use agent_traffic_intelligen.Crypto.WebBotAuth.Acceptance.{IsSound, accept-IsSound}
use agent_traffic_intelligen.Crypto.WebBotAuth.Refusals.{Refuses, accept-Refuses}

-- What the replay cache says of an accepted signature: it is not asked, or it has not seen the nonce.
pub data IsFresh (now : Now) (a : Accepted) : Option ReplayCache → Option ReplayCache → Type 0 where
  no_cache : IsFresh now a none none
  no_nonce : {cache : ReplayCache} → a.report.nonce ≡ none → IsFresh now a (some cache) (some cache)
  unseen :
      {cache : ReplayCache} (nonce : String) (after : ReplayCache)
      → a.report.nonce ≡ some nonce
      → seen_or_add cache (a.key_id, nonce) a.expires now.timestamp ≡ (false, after)
      → IsFresh now a (some cache) (some after)

module _ (by : Collaborators) (policy : Policy) where
  nonce_report_pass :
      (claim : IdentityClaim) (a : Accepted) (answer : Bool × ReplayCache)
      → is_pass (nonce_report by policy claim a answer).0.outcome ≡ true
      → (answer ≡ (false, answer.1)) × ((nonce_report by policy claim a answer).1 ≡ some answer.1)
  unfolding nonce_report evidence
  nonce_report_pass claim a (true, cache) h = absurd cc
  nonce_report_pass claim a (false, cache) h = (refl, refl)

  check_nonce_pass :
      (claim : IdentityClaim) (now : Now) (a : Accepted) (nonce? : Option String)
      (cache : Option ReplayCache)
      → a.report.nonce ≡ nonce?
      → is_pass (check_nonce by policy claim now a nonce? cache).0.outcome ≡ true
      → IsFresh now a cache (check_nonce by policy claim now a nonce? cache).1
  unfolding check_nonce
  check_nonce_pass claim now a none none e h = no_cache
  check_nonce_pass claim now a none (some cache) e h = no_nonce e
  check_nonce_pass claim now a (some nonce) none e h = no_cache
  check_nonce_pass claim now a (some nonce) (some cache) e h =
      let answer = seen_or_add cache (a.key_id, nonce) a.expires now.timestamp in
      let (fresh, after) = nonce_report_pass claim a answer h in
      rw after (unseen nonce answer.1 e fresh)

  finish_pass :
      (claim : IdentityClaim) (now : Now) (checked : Check Accepted) (cache : Option ReplayCache)
      → Refuses checked
      → is_pass (finish by policy claim now checked cache).0.outcome ≡ true
      → (a : Accepted) × (checked ≡ go a)
        × IsFresh now a cache (finish by policy claim now checked cache).1
  unfolding finish evidence
  finish_pass claim now (stop o x d) cache r p = absurd (cc)
  finish_pass claim now (go a) cache r p =
      (a, refl, check_nonce_pass claim now a a.report.nonce cache refl p)

  -- A request passes only if every condition of `verify` holds: the key source is trusted, the
  -- RFC 9421 report passed, its window, its key and its Signature-Agent binding are in order, and
  -- the replay cache, if there is one and the signature has a nonce, has not seen the nonce.
  pub pass-IsSound :
      (context : VerificationContext) (claim : IdentityClaim) (now : Now)
      (cache : Option ReplayCache) (result : VerificationEvidence × Option ReplayCache)
      → verify by policy context claim now cache ≡ some result
      → is_pass result.0.outcome ≡ true
      → (a : Accepted) × IsSound by policy context now a × IsFresh now a cache result.1
  unfolding verify
  pass-IsSound context claim now cache result h p =
      let same : finish by policy claim now (accept by policy context now) cache ≡ result =
        ground arith in
      let (a, accepted, fresh) =
        finish_pass claim now (accept by policy context now) cache
          (accept-Refuses by policy context now) (rw same p) in
      (a, accept-IsSound by policy context now a accepted, rw same at fresh)

  finish_cache :
      (claim : IdentityClaim) (now : Now) (checked : Check Accepted) (cache : Option ReplayCache)
      → ((finish by policy claim now checked cache).1 ≡ cache) ⊎ ((a : Accepted) × (checked ≡ go a))
  unfolding finish
  finish_cache claim now (stop o x d) cache = inl refl
  finish_cache claim now (go a) cache = inr (a, refl)

  -- A request that some check turns away leaves the replay cache as it was: the cache changes only
  -- for a signature that meets every other condition.
  pub cache_change-IsSound :
      (context : VerificationContext) (claim : IdentityClaim) (now : Now)
      (cache : Option ReplayCache) (result : VerificationEvidence × Option ReplayCache)
      → verify by policy context claim now cache ≡ some result
      → (result.1 ≡ cache) ⊎ ((a : Accepted) × IsSound by policy context now a)
  unfolding verify
  cache_change-IsSound context claim now cache result h =
      let same : finish by policy claim now (accept by policy context now) cache ≡ result =
        ground arith in
      elim (finish_cache claim now (accept by policy context now) cache) [
        | inl kept ↦ inl (rw same at kept)
        | inr (a, e) ↦ inr (a, accept-IsSound by policy context now a e)
      ]

  verify_go :
      (context : VerificationContext) (claim : IdentityClaim) (now : Now) (cache : ReplayCache)
      (a : Accepted) (nonce : String)
      → now.is_aware ≡ true
      → accept by policy context now ≡ go a
      → a.report.nonce ≡ some nonce
      → verify by policy context claim now (some cache)
        ≡ some (
            nonce_report by policy claim a
              (seen_or_add cache (a.key_id, nonce) a.expires now.timestamp))
  unfolding verify finish check_nonce
  verify_go context claim now cache a nonce aware e f =
      ap
        (λ t.
          if t
          then some (finish by policy claim now (accept by policy context now) (some cache))
          else none)
        aware
      ∙ ap (λ m. some (finish by policy claim now m (some cache))) e
      ∙ ap (λ n. some (check_nonce by policy claim now a n (some cache))) f

  nonce_report_seen :
      (claim : IdentityClaim) (a : Accepted) (answer : Bool × ReplayCache)
      → answer.0 ≡ true
      → nonce_report by policy claim a answer ≡ (
        evidence by policy claim mismatch "signature nonce was already observed" trusted_details,
        some answer.1,
      )
  unfolding nonce_report
  nonce_report_seen claim a (true, cache) h = refl
  nonce_report_seen claim a (false, cache) h = absurd cc

  nonce_report_unseen :
      (claim : IdentityClaim) (a : Accepted) (answer : Bool × ReplayCache)
      → answer.0 ≡ false
      → nonce_report by policy claim a answer
        ≡ (pass_evidence by policy claim a true, some answer.1)
  unfolding nonce_report
  nonce_report_unseen claim a (true, cache) h = absurd cc
  nonce_report_unseen claim a (false, cache) h = refl

  -- A signature whose checks all hold is reported as a mismatch if its key id and nonce were accepted
  -- before, with an expiry that is still ahead, and fewer than `max_entries` nonces were presented in
  -- between, each before that expiry.
  pub replayed_signature_refused :
      (cache : ReplayCache) (key_id nonce : String) (expires first : ℤ) (calls : List Call)
      (context : VerificationContext) (claim : IdentityClaim) (now : Now) (a : Accepted)
      → IsValid cache
      → (seen_or_add cache (key_id, nonce) expires first).0 ≡ false
      → length calls < cache.max_entries
      → All (λ c. c.now <ℤ expires) calls
      → now.is_aware ≡ true
      → now.timestamp <ℤ expires
      → accept by policy context now ≡ go a
      → a.key_id ≡ key_id
      → a.report.nonce ≡ some nonce
      → (after : ReplayCache) × (verify by policy context claim now
            (some (run (seen_or_add cache (key_id, nonce) expires first).1 calls))
          ≡ some (
            evidence by policy claim mismatch "signature nonce was already observed"
                trusted_details,
            some after,
          ))
  replayed_signature_refused cache key_id nonce expires first calls context claim now a v fresh
        short before aware live accepted same_key has_nonce =
      let next = run (seen_or_add cache (key_id, nonce) expires first).1 calls in
      let answer = seen_or_add next (a.key_id, nonce) a.expires now.timestamp in
      let seen : answer.0 ≡ true = rw same_key (
        replay_refused cache (key_id, nonce) expires first calls a.expires now.timestamp v fresh
          short before live) in
      (
        answer.1,
        verify_go context claim now next a nonce aware accepted has_nonce
            ∙ ap some (nonce_report_seen claim a answer seen),
      )

  -- A signature whose checks all hold at a time at or after its own expiry, which the clock skew
  -- allows, passes, and a second presentation of it at that time or later, while its checks still hold,
  -- passes too: its nonce is not remembered.
  pub late_signature_passes_twice :
      (cache : ReplayCache) (context : VerificationContext) (claim : IdentityClaim)
      (now later : Now) (a b : Accepted) (nonce : String)
      → IsValid cache
      → 0 < cache.max_entries
      → get (a.key_id, nonce) cache.entries ≡ none
      → now.is_aware ≡ true
      → later.is_aware ≡ true
      → accept by policy context now ≡ go a
      → accept by policy context later ≡ go b
      → a.report.nonce ≡ some nonce
      → b.report.nonce ≡ some nonce
      → b.key_id ≡ a.key_id
      → b.expires ≡ a.expires
      → a.expires ≤ℤ now.timestamp
      → now.timestamp ≤ℤ later.timestamp
      → (next after : ReplayCache) × (verify by policy context claim now (some cache)
          ≡ some (pass_evidence by policy claim a true, some next))
        × (verify by policy context claim later (some next)
            ≡ some (pass_evidence by policy claim b true, some after))
  late_signature_passes_twice cache context claim now later a b nonce v room absent aware aware' e f
        has has' same_key same_expiry l m =
      let (once, twice) =
        expired_accepted_twice cache (a.key_id, nonce) a.expires now.timestamp later.timestamp v
          room absent l m in
      let answer = seen_or_add cache (a.key_id, nonce) a.expires now.timestamp in
      let again = seen_or_add answer.1 (b.key_id, nonce) b.expires later.timestamp in
      let still : again.0 ≡ false = rw (same_key, same_expiry) twice in
      (
        answer.1,
        again.1,
        verify_go context claim now cache a nonce aware e has
            ∙ ap some (nonce_report_unseen claim a answer once),
        verify_go context claim later answer.1 b nonce aware' f has'
            ∙ ap some (nonce_report_unseen claim b again still),
      )
