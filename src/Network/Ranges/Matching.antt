-- ===== src/Network/Ranges/Matching.antt =====
-- What `PublishedRangeSet.match` (identity/network/ranges.py) answers.
use Prim.Native.Nat.{◌^◌}
use native.Mathlib.Nat.{div-add-mod, div-add-mod', mod-lt, div-eq_of_lt-le, pow-suc}
use agent_traffic_intelligen.Prelude.{
  ℕ, zero, suc, ◌+◌, ◌*◌, ◌-◌, ◌/◌, ◌%◌, ◌≤◌, ◌<◌, String, some, List, [], ◌∷◌, Bool, true, false,
  ◌≡◌, ◌↔◌, refl, keep, Option-cases, inl, inr, any, nonempty-keep, ltb, All, Exists, ap, arith,
  Bool-cases, ◌⊎◌, if◌then◌else◌,
}
use agent_traffic_intelligen.Runtime.{Address, Network, Runtime}
use agent_traffic_intelligen.Network.Ranges.{
  ok, PublishedRange, RangeMatch, PublishedRangeSet, width, holds, unmapped, is_candidate, longest,
  best_match, no_match, match,
}

-- The longest range of a sequence: one of its members, and none is longer.
longest_member :
    (best : PublishedRange) (items : List PublishedRange)
    → Exists (λ r. r ≡ longest best items) (best ∷ items)
unfolding longest
longest_member best [] = inl refl
longest_member best (item ∷ items) =
    ground (arith, longest_member best items, longest_member item items)

longest_max :
    (best : PublishedRange) (items : List PublishedRange)
    → All (λ r. r.network.prefixlen ≤ (longest best items).network.prefixlen) (best ∷ items)
unfolding longest
longest_max best [] = (omega arith, tt)
longest_max best (item ∷ items) =
    let next = if ltb best.network.prefixlen item.network.prefixlen then item else best in
    let (p, q) = longest_max next items in
    let up : (best.network.prefixlen ≤ next.network.prefixlen)
        × (item.network.prefixlen ≤ next.network.prefixlen) =
      ground arith in
    (omega arith, (omega arith, q))

exists_of_keep :
    (p : PublishedRange → Bool) (w : PublishedRange) (xs : List PublishedRange)
    → Exists (λ r. r ≡ w) (keep p xs)
    → Exists (λ r. (r ≡ w) × (p w ≡ true)) xs
unfolding keep
exists_of_keep p w [] h = h
exists_of_keep p w (x ∷ xs) h = elim (Bool-cases (p x)) [
  | inl t ↦ ground (arith, exists_of_keep p w xs)
  | inr f ↦ inr (exists_of_keep p w xs (ground arith))
]

all_of_keep :
    (p : PublishedRange → Bool) (n : ℕ) (xs : List PublishedRange)
    → All (λ r. r.network.prefixlen ≤ n) (keep p xs)
    → All (λ r. (p r ≡ false) ⊎ (r.network.prefixlen ≤ n)) xs
unfolding keep
all_of_keep p n [] h = tt
all_of_keep p n (x ∷ xs) h = ground (arith, all_of_keep p n xs)

-- A range of the list that holds the address, and no range that holds it is more specific.
pub record IsMostSpecific (address : Address) (ranges : List PublishedRange) (w : PublishedRange)
    : Type 0 where
  pub listed : Exists (λ r. (r ≡ w) × (is_candidate address w ≡ true)) ranges
  pub longest :
      All
        (λ r. (is_candidate address r ≡ false) ⊎ (r.network.prefixlen ≤ w.network.prefixlen))
        ranges

best_match_cases :
    (address : Address) (ranges : List PublishedRange)
    → ((best_match (keep (is_candidate address) ranges) ≡ no_match)
        × (any (is_candidate address) ranges ≡ false))
      ⊎ ((w : PublishedRange) × (best_match (keep (is_candidate address) ranges) ≡ record {
        matched = true;
        prefix_length = some w.network.prefixlen;
        services = w.services;
      })
          × IsMostSpecific address ranges w)
unfolding best_match
best_match_cases address ranges = go (keep (is_candidate address) ranges) refl
  where
    go :
        (found : List PublishedRange)
        → keep (is_candidate address) ranges ≡ found
        → ((best_match found ≡ no_match) × (any (is_candidate address) ranges ≡ false))
          ⊎ ((w : PublishedRange) × (best_match found ≡ record {
            matched = true;
            prefix_length = some w.network.prefixlen;
            services = w.services;
          })
              × IsMostSpecific address ranges w)
    go [] e = inl (refl, ground (arith, nonempty-keep (is_candidate address) ranges, e))
    go (x ∷ xs) e = inr (
      longest x xs,
      refl,
      record {
        listed = exists_of_keep (is_candidate address) _ ranges (rw e (longest_member x xs));
        longest = all_of_keep (is_candidate address) _ ranges (rw e (longest_max x xs));
      },
    )

-- A valid address is matched exactly when some published range holds it, and then the answer is the
-- length and the services of a listed range that holds it, than which no such range is longer.
pub match-IsMostSpecific :
    (py : Runtime) (published : PublishedRangeSet) (raw : String) (a : Address)
    → py.ip_address raw ≡ some a
    → ((match py published raw ≡ ok no_match)
        × (any (is_candidate (unmapped a)) published.ranges ≡ false))
      ⊎ ((w : PublishedRange) × (match py published raw
            ≡ ok (record {
              matched = true;
              prefix_length = some w.network.prefixlen;
              services = w.services;
            }))
          × IsMostSpecific (unmapped a) published.ranges w)
unfolding match
match-IsMostSpecific py published raw a h = elim (best_match_cases (unmapped a) published.ranges) [
  | inl (e, f) ↦ inl (rw (h, match) (ap ok e), f)
  | inr (w, e, m) ↦ inr (w, rw (h, match) (ap ok e), m)
]

pow_pos : (k : ℕ) → 0 < 2 ^ k
pow_pos zero = omega arith
pow_pos (suc k) = omega (arith, pow_pos k, pow-suc 2 k)

same_block : (h b v : ℕ) → 0 < h → b % h ≡ 0 → (v / h ≡ b / h) ↔ ((b ≤ v) × (v < b + h))
same_block h b v pos aligned = (
  λ e. omega (arith, div-add-mod v h, div-add-mod b h, mod-lt v pos, ap (λ (t : ℕ). h * t) e),
  λ (le, lt). div-eq_of_lt-le h (omega (arith, div-add-mod' b h)) (omega (arith, div-add-mod' b h)),
)

-- A network whose base has its host bits cleared holds exactly the addresses of its block.
pub holds_iff :
    (network : Network) (address : Address)
    → network.base % 2 ^ (width network.version - network.prefixlen) ≡ 0
    → (holds network address ≡ true) ↔ (
        (network.base ≤ address.value)
        × (address.value < network.base + 2 ^ (width network.version - network.prefixlen)))
unfolding holds
holds_iff network address h =
    let k = width network.version - network.prefixlen in
    ground (arith, same_block (2 ^ k) network.base address.value (pow_pos k) h)

-- A match that answers `matched` parsed the address, and a listed range holds it.
pub match_sound :
    (py : Runtime) (published : PublishedRangeSet) (raw : String) (m : RangeMatch)
    → match py published raw ≡ ok m
    → m.matched ≡ true
    → (a : Address) × (py.ip_address raw ≡ some a)
      × (any (is_candidate (unmapped a)) published.ranges ≡ true)
unfolding match best_match
match_sound py published raw m h t = elim (Option-cases (py.ip_address raw)) [
  | inl e ↦ absurd (ground arith)
  | inr (a, e) ↦ (a, e, ground (arith, nonempty-keep (is_candidate (unmapped a)) published.ranges))
]
