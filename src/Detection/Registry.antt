-- ===== src/Detection/Registry.antt =====
-- registry.py: the claims that a User-Agent makes, by the curated tokens.
use Prim.Native.Char.{code}
use agent_traffic_intelligen.Prelude.{
  ℕ, String, Option, none, some, List, [], ◌∷◌, Bool, true, false, ◌&&◌, ◌||◌, not, ◌==◌, or_else,
  any, keep, map, codes, length, ltb, leb, nat_eq, nonempty, if◌then◌else◌,
}
use agent_traffic_intelligen.Domain.{ActorType, IdentityClaim, VerificationState}
use agent_traffic_intelligen.Crypto.Components.{strip_prefix}
use agent_traffic_intelligen.Crypto.Keys.Documents.{has_duplicates}

-- `RegistryEntry`
pub record RegistryEntry : Type 0 where
  pub token : String
  pub provider : String
  pub agent : String
  pub actor_type : ActorType
  pub intent : String
  pub ai_related : Bool
  pub official_source : String
  pub last_verified : String
  pub deprecated : Bool
  pub supported_until : Option String

-- A character of `_USER_AGENT_TOKEN_CHARACTER`
unfoldable pub is_token_character : ℕ → Bool
is_token_character c =
    leb b'a' c && leb c b'z'
    || (leb b'0' c && leb c b'9' || any (λ d. nat_eq c d) (codes "!#$%&'*+-.^_`|~"))

-- `(?!...)` at the rest of the text
unfoldable pub is_end : String → Bool
is_end String.[] = true
is_end (String.◌∷◌ c s) = not (is_token_character (code c))

unfoldable pub ends_token : Option String → Bool
ends_token none = false
ends_token (some rest) = is_end rest

-- `re.search` for the token between characters of other kinds; the first argument is whether the text
-- before ends in a token character.
unfoldable pub occurs : Bool → String → String → Bool
occurs after_token token String.[] = not after_token && ends_token (strip_prefix token "")
occurs after_token token (String.◌∷◌ c s) =
    not after_token && ends_token (strip_prefix token (String.◌∷◌ c s))
    || occurs (is_token_character (code c)) token s

-- `max(matches, key=lambda entry: len(entry.token))`: the first of the longest.
unfoldable pub longest_entry : RegistryEntry → List RegistryEntry → RegistryEntry
longest_entry best [] = best
longest_entry best (e ∷ rest) =
    longest_entry (if ltb (length (codes best.token)) (length (codes e.token)) then e else best)
      rest

unfoldable pub best_entry : List RegistryEntry → Option RegistryEntry
best_entry [] = none
best_entry (e ∷ rest) = some (longest_entry e rest)

module _ (casefold : String → String) where
  -- `AgentRegistry.__init__`: `none` for its `ValueError`s.
  unfoldable pub make_registry : List RegistryEntry → Option (List RegistryEntry)
  make_registry entries =
      if not (nonempty entries)
        || has_duplicates (map (λ (e : RegistryEntry). casefold e.token) entries)
      then none
      else some entries

  -- `AgentRegistry.match_entry`
  unfoldable pub match_entry : List RegistryEntry → Option String → Option RegistryEntry
  match_entry entries user_agent =
      if or_else user_agent "" == ""
      then none
      else best_entry (
          keep
            (λ (e : RegistryEntry).
              occurs false (casefold e.token) (casefold (or_else user_agent "")))
            entries)

-- The claim of an entry.
unfoldable pub claim_of : Option RegistryEntry → Option IdentityClaim
claim_of none = none
claim_of (some entry) = some (record {
  provider = entry.provider;
  agent = entry.agent;
  actor_type = entry.actor_type;
  intent = entry.intent;
  verification_state = VerificationState.claimed;
})
