-- ===== src/Network/Formats/Strictness.antt =====
-- How strictly the two range formats (identity/network/formats/) treat the entries of a document.
use agent_traffic_intelligen.Prelude.{
  ℕ, String, Option, none, some, List, [], ◌∷◌, true, false, ◌≡◌, ◌⊎◌, refl, sym, ap, ◌∙◌, subst,
  arith, Option-cases, inl, inr,
}
use agent_traffic_intelligen.Json.{
  Json, Items, Fields, obj, nil, cons, null, bool, int, float, str, arr, get,
}
use agent_traffic_intelligen.Runtime.{Network, Runtime}
use agent_traffic_intelligen.Network.Ranges.{
  ok, PublishedRange, PublishedRangeSet, make_range_set, coerce_mapping, parse_creation_time,
  parse_network, bind_ok,
}
use agent_traffic_intelligen.Network.Formats.{
  services_of, sync_token_of, prefixes_of, jafar_range, jafar_ranges, parse_jafar,
  prefixes_v1_range, prefixes_v1_ranges, parse_prefixes_v1,
}
use agent_traffic_intelligen.Network.Formats.Entries.{
  names_one_prefix, IsServices, HasPrefix, prefix_cases, ok_subst, services_lem,
}

made : (made s : PublishedRangeSet) → make_range_set made ≡ ok s → s.ranges ≡ made.ranges
unfolding make_range_set
made m s h = ground arith

prefixes_listed : (value : Json) (items : Items) → prefixes_of value ≡ ok items → value ≡ arr items
unfolding prefixes_of
prefixes_listed (arr items) xs h = ground arith
prefixes_listed _ xs h = absurd (ground arith)

module _ (py : Runtime) where
  -- The network that an object names, by its one prefix field.
  abbrev pub IsNetworkOf : Fields → Network → Type 0
  IsNetworkOf item network =
      (prefix : String) × HasPrefix item (str prefix) network.version
      × (py.ip_network prefix ≡ some network)

  -- What an entry of a JAFAR document gives.
  abbrev pub IsJafarRangeOf : Json → PublishedRange → Type 0
  IsJafarRangeOf entry r =
      (item : Fields) × (entry ≡ obj item)
      × IsNetworkOf item r.network
      × IsServices (get "services" item) r.services

  -- What an entry of a prefixes-v1 document gives.
  abbrev pub IsPrefixRangeOf : Json → PublishedRange → Type 0
  IsPrefixRangeOf entry r =
      (item : Fields) × (entry ≡ obj item) × IsNetworkOf item r.network × (r.services ≡ [])

  -- The ranges of the entries, in order, where those that do not name exactly one prefix have none.
  abbrev pub AreJafarRangesOf : Items → List PublishedRange → Type 0
  AreJafarRangesOf nil ranges = ranges ≡ []
  AreJafarRangesOf (cons entry entries) ranges =
      ((names_one_prefix entry ≡ false) × AreJafarRangesOf entries ranges)
      ⊎ ((r : PublishedRange) × (rest : List PublishedRange) × (ranges ≡ r ∷ rest)
          × IsJafarRangeOf entry r
          × AreJafarRangesOf entries rest)

  -- The ranges of all the entries, in order.
  abbrev pub ArePrefixRangesOf : Items → List PublishedRange → Type 0
  ArePrefixRangesOf nil ranges = ranges ≡ []
  ArePrefixRangesOf (cons entry entries) ranges =
      (r : PublishedRange) × (rest : List PublishedRange) × (ranges ≡ r ∷ rest)
      × IsPrefixRangeOf entry r
      × ArePrefixRangesOf entries rest

  parse_network_lem :
      (value : Json) (version : ℕ) (network : Network)
      → parse_network py value version ≡ ok network
      → (prefix : String) × (value ≡ str prefix)
        × (py.ip_network prefix ≡ some network)
        × (network.version ≡ version)
  unfolding parse_network
  parse_network_lem (str value) version network h = elim (Option-cases (py.ip_network value)) [
    | inl e ↦ absurd (ground arith)
    | inr (found, e) ↦
        let same : found ≡ network = ground arith in (value, refl, e ∙ ap some same, ground arith)
  ]
  parse_network_lem _ version network h = absurd (ground arith)

  network_of :
      (item : Fields) (v : Json) (version : ℕ) (network : Network)
      → HasPrefix item v version
      → parse_network py v version ≡ ok network
      → IsNetworkOf item network
  network_of item v version network has h =
      let (prefix, text, read, same) = parse_network_lem v version network h in
      (
        prefix,
        subst (λ x. HasPrefix item x network.version) text
            (subst (HasPrefix item v) (sym same) has),
        read,
      )

  -- What an entry gives, or that it is skipped.
  abbrev IsFound : Json → Option PublishedRange → Type 0
  IsFound entry none = names_one_prefix entry ≡ false
  IsFound entry (some r) = IsJafarRangeOf entry r

  jafar_range-IsFound :
      (entry : Json) (o : Option PublishedRange) → jafar_range py entry ≡ ok o → IsFound entry o
  unfolding jafar_range
  jafar_range-IsFound (obj item) o h = elim (prefix_cases item) [
    | inl (e, no_prefix) ↦ ok_subst (IsFound (obj item)) (rw (e, jafar_range) at h) no_prefix
    | inr (v, version, e, has) ↦
        let (services, f, h') =
          bind_ok (services_of (get "services" item)) _ o (rw (e, jafar_range) at h) in
        let (network, parsed, h'') = bind_ok (parse_network py v version) _ o h' in
        ok_subst (IsFound (obj item)) h''
          (item, refl, network_of item v version network has parsed, services_lem _ services f)
  ]
  jafar_range-IsFound null o h = ok_subst (IsFound null) h refl
  jafar_range-IsFound (bool b) o h = ok_subst (IsFound (bool b)) h refl
  jafar_range-IsFound (int n) o h = ok_subst (IsFound (int n)) h refl
  jafar_range-IsFound (float x) o h = ok_subst (IsFound (float x)) h refl
  jafar_range-IsFound (str x) o h = ok_subst (IsFound (str x)) h refl
  jafar_range-IsFound (arr x) o h = ok_subst (IsFound (arr x)) h refl

  prefixes_v1_range-IsPrefixRangeOf :
      (entry : Json) (r : PublishedRange)
      → prefixes_v1_range py entry ≡ ok r
      → IsPrefixRangeOf entry r
  unfolding prefixes_v1_range
  prefixes_v1_range-IsPrefixRangeOf (obj item) r h = elim (prefix_cases item) [
    | inl (e, no_prefix) ↦ absurd (ground arith)
    | inr (v, version, e, has) ↦
        let (network, parsed, h') =
          bind_ok (parse_network py v version) _ r (rw (e, prefixes_v1_range) at h) in
        ok_subst (IsPrefixRangeOf (obj item)) h'
          (item, refl, network_of item v version network has parsed, refl)
  ]
  prefixes_v1_range-IsPrefixRangeOf _ r h = absurd (ground arith)

  with_found :
      (entry : Json) (entries : Items) (found : Option PublishedRange) (rest : List PublishedRange)
      → IsFound entry found
      → AreJafarRangesOf entries rest
      → AreJafarRangesOf (cons entry entries) (elim found [ none ↦ rest | some r ↦ r ∷ rest ])
  with_found entry entries none rest f a = inl (f, a)
  with_found entry entries (some r) rest f a = inr (r, rest, refl, f, a)

  jafar_ranges-AreJafarRangesOf :
      (entries : Items) (ranges : List PublishedRange)
      → jafar_ranges py entries ≡ ok ranges
      → AreJafarRangesOf entries ranges
  unfolding jafar_ranges
  jafar_ranges-AreJafarRangesOf nil ranges h = ok_subst (λ l. l ≡ []) h refl
  jafar_ranges-AreJafarRangesOf (cons entry entries) ranges h =
      let (found, e, h') = bind_ok (jafar_range py entry) _ ranges h in
      let (rest, f, h'') = bind_ok (jafar_ranges py entries) _ ranges h' in
      ok_subst (AreJafarRangesOf (cons entry entries)) h'' (
        with_found entry entries found rest (jafar_range-IsFound entry found e)
          (jafar_ranges-AreJafarRangesOf entries rest f))

  prefixes_v1_ranges-ArePrefixRangesOf :
      (entries : Items) (ranges : List PublishedRange)
      → prefixes_v1_ranges py entries ≡ ok ranges
      → ArePrefixRangesOf entries ranges
  unfolding prefixes_v1_ranges
  prefixes_v1_ranges-ArePrefixRangesOf nil ranges h = ok_subst (λ l. l ≡ []) h refl
  prefixes_v1_ranges-ArePrefixRangesOf (cons entry entries) ranges h =
      let (first, e, h') = bind_ok (prefixes_v1_range py entry) _ ranges h in
      let (rest, f, h'') = bind_ok (prefixes_v1_ranges py entries) _ ranges h' in
      ok_subst (ArePrefixRangesOf (cons entry entries)) h'' (
        first,
        rest,
        refl,
        prefixes_v1_range-IsPrefixRangeOf entry first e,
        prefixes_v1_ranges-ArePrefixRangesOf entries rest f,
      )

  -- The ranges of a parsed JAFAR document are, in order, those of its entries that name exactly one prefix: each
  -- is the network that `ip_network` reads from that entry's prefix, of the version of the field, with the
  -- entry's services. Every other entry is skipped.
  pub parse_jafar_ranges :
      (payload : List ℕ) (s : PublishedRangeSet)
      → parse_jafar py payload ≡ ok s
      → (document : Fields) × (prefixes : Items) × (coerce_mapping py payload ≡ ok document)
        × (get "prefixes" document ≡ arr prefixes)
        × AreJafarRangesOf prefixes s.ranges
  unfolding parse_jafar
  parse_jafar_ranges payload s h =
      let (document, loaded, h1) = bind_ok (coerce_mapping py payload) _ s h in
      let (creation_time, _, h2) =
        bind_ok (parse_creation_time py (get "creationTime" document) true) _ s h1 in
      let (prefixes, listed, h3) = bind_ok (prefixes_of (get "prefixes" document)) _ s h2 in
      let (sync_token, _, h4) = bind_ok (sync_token_of (get "synctoken" document)) _ s h3 in
      let (ranges, parsed, h5) = bind_ok (jafar_ranges py prefixes) _ s h4 in
      let same : s.ranges ≡ ranges =
        made
          (record {
            creation_time = creation_time;
            ranges = ranges;
            source_profile = "jafar-00";
            sync_token = sync_token;
          })
          s h5 in
      (
        document,
        prefixes,
        loaded,
        prefixes_listed _ prefixes listed,
        subst (AreJafarRangesOf prefixes) (sym same)
            (jafar_ranges-AreJafarRangesOf prefixes ranges parsed),
      )

  -- The ranges of a parsed prefixes-v1 document are, in order, those of all its entries: each entry names
  -- exactly one prefix, and its range is the network that `ip_network` reads from it, of the version of the
  -- field. No entry is skipped.
  pub parse_prefixes_v1_ranges :
      (payload : List ℕ) (s : PublishedRangeSet)
      → parse_prefixes_v1 py payload ≡ ok s
      → (document : Fields) × (prefixes : Items) × (coerce_mapping py payload ≡ ok document)
        × (get "prefixes" document ≡ arr prefixes)
        × ArePrefixRangesOf prefixes s.ranges
  unfolding parse_prefixes_v1
  parse_prefixes_v1_ranges payload s h =
      let (document, loaded, h1) = bind_ok (coerce_mapping py payload) _ s h in
      let (creation_time, _, h2) =
        bind_ok (parse_creation_time py (get "creationTime" document) false) _ s h1 in
      let (prefixes, listed, h3) = bind_ok (prefixes_of (get "prefixes" document)) _ s h2 in
      let (ranges, parsed, h4) = bind_ok (prefixes_v1_ranges py prefixes) _ s h3 in
      let same : s.ranges ≡ ranges =
        made
          (record {
            creation_time = creation_time;
            ranges = ranges;
            source_profile = "prefixes-v1";
            sync_token = none;
          })
          s h4 in
      (
        document,
        prefixes,
        loaded,
        prefixes_listed _ prefixes listed,
        subst (ArePrefixRangesOf prefixes) (sym same)
            (prefixes_v1_ranges-ArePrefixRangesOf prefixes ranges parsed),
      )
