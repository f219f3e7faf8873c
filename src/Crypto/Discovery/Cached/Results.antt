-- ===== src/Crypto/Discovery/Cached/Results.antt =====
-- The steps of a chain of calls in identity/crypto/cached_discovery.py that ends with a result, and its tests
-- on a cached document.
use agent_traffic_intelligen.Prelude.{
  Option, none, some, Bool, true, false, not, ◌≡◌, refl, subst, arith, ◌≤◌, if◌then◌else◌,
}
use agent_traffic_intelligen.Runtime.{Moment}
use agent_traffic_intelligen.Sources.Documents.{SourceType}
use agent_traffic_intelligen.Crypto.AgentCard.{AgentCard, Parsed}
use agent_traffic_intelligen.Crypto.Discovery.Cached.{
  DiscoveryFailure, Discovery, found, fail, ◌>>=◌, found_or, same_type, is_stale, card_or,
}

pub bind_found {ℓ κ} :
    {A : Type ℓ} {B : Type κ} (m : Discovery A) (f : A → Discovery B) (b : B)
    → (m >>= f) ≡ found b
    → (a : A) × (m ≡ found a) × (f a ≡ found b)
bind_found (found a) f b h = (a, refl, h)
bind_found (fail e) f b h = cc

pub found_subst {ℓ κ} : {A : Type ℓ} (P : A → Type κ) {a b : A} → found a ≡ found b → P a → P b
found_subst P {a = a} {b = b} h p = subst P {x = a} {y = b} (ground arith) p

pub if_not_fail {ℓ} :
    {A : Type ℓ} (b : Bool) (e : DiscoveryFailure) (m : Discovery A) (a : A)
    → (if not b then fail e else m) ≡ found a
    → (b ≡ true) × (m ≡ found a)
if_not_fail true e m a h = (refl, h)
if_not_fail false e m a h = cc

pub found-some {ℓ} :
    {A : Type ℓ} (e : DiscoveryFailure) (o : Option A) (a : A) → found_or e o ≡ found a → o ≡ some a
found-some e none a h = cc
found-some e (some b) a h = found_subst (λ x. some b ≡ some x) h refl

pub card_done :
    (p : Parsed AgentCard) (card : AgentCard) → card_or p ≡ found card → p ≡ Parsed.done card
unfolding card_or
card_done (Parsed.done c) card h = found_subst (λ x. Parsed.done c ≡ Parsed.done x) h refl
card_done Parsed.format_error card h = cc
card_done Parsed.value_error card h = cc

pub same_type_lem : (a b : SourceType) → same_type a b ≡ true → a ≡ b
unfolding same_type
same_type_lem SourceType.ip_ranges SourceType.ip_ranges h = refl
same_type_lem SourceType.key_directory SourceType.key_directory h = refl
same_type_lem SourceType.jwk_set SourceType.jwk_set h = refl
same_type_lem SourceType.agent_card SourceType.agent_card h = refl
same_type_lem SourceType.standard_profile SourceType.standard_profile h = refl
same_type_lem _ _ h = cc

-- The document has not expired at the time, if it says when it expires.
abbrev pub IsFreshAt : Moment → Option Moment → Type 0
IsFreshAt now none = Unit
IsFreshAt now (some t) = now.instant ≤ t.instant

pub is_stale_lem : (now : Moment) (o : Option Moment) → is_stale o now ≡ false → IsFreshAt now o
unfolding is_stale
is_stale_lem now none h = tt
is_stale_lem now (some t) h = ground arith
