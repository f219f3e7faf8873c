-- ===== src/Crypto/Components.antt =====
-- The component identifiers of a signature, as identity/crypto/web_bot_auth.py reads them:
-- `"signature-agent";key="agent2"`.
use Prim.Native.Char.{code}
use agent_traffic_intelligen.Prelude.{String, Option, none, some, nat_eq, ◌==◌, if◌then◌else◌}

-- `value.split(";", 1)[0]`
unfoldable pub before_semicolon : String → String
before_semicolon String.[] = ""
before_semicolon (String.◌∷◌ c s) =
    if nat_eq (code c) b';' then "" else String.◌∷◌ c (before_semicolon s)

-- `value.lstrip('"')`
unfoldable pub strip_left_quotes : String → String
strip_left_quotes String.[] = ""
strip_left_quotes (String.◌∷◌ c s) =
    let rest = strip_left_quotes s in if nat_eq (code c) b'"' then rest else String.◌∷◌ c s

-- `value.rstrip('"')`
unfoldable pub strip_right_quotes : String → String
strip_right_quotes String.[] = ""
strip_right_quotes (String.◌∷◌ c s) =
    let rest = strip_right_quotes s in
    if rest == ""
    then (if nat_eq (code c) b'"' then "" else String.◌∷◌ c rest)
    else String.◌∷◌ c rest

-- `component.split(";", 1)[0].strip('"')`, before the case is folded.
unfoldable pub bare_name : String → String
bare_name component = strip_right_quotes (strip_left_quotes (before_semicolon component))

-- A text without the given prefix, if it has it.
unfoldable pub strip_prefix : String → String → Option String
strip_prefix String.[] s = some s
strip_prefix (String.◌∷◌ p ps) String.[] = none
strip_prefix (String.◌∷◌ p ps) (String.◌∷◌ c s) =
    let rest = strip_prefix ps s in if nat_eq (code p) (code c) then rest else none

-- The characters up to a closing quote: `none` where a backslash or the end comes first.
unfoldable pub until_quote : String → Option String
until_quote String.[] = none
until_quote (String.◌∷◌ c s) =
    let rest = until_quote s in
    if nat_eq (code c) b'"'
    then some ""
    else if nat_eq (code c) 92
    then none
    else elim rest [ none ↦ none | some t ↦ some (String.◌∷◌ c t) ]

-- The key parameter that starts here, if it has at least one character.
unfoldable pub key_param_here : String → Option String
key_param_here s = elim (strip_prefix ";key=\"" s) [
  | none ↦ none
  | some t ↦ elim (until_quote t) [ none ↦ none | some k ↦ if k == "" then none else some k ]
]

-- `_KEY_PARAM_RE.search(component)`, its first group: the leftmost `;key="..."`.
unfoldable pub key_param : String → Option String
key_param String.[] = key_param_here ""
key_param (String.◌∷◌ c s) =
    let rest = key_param s in
    elim (key_param_here (String.◌∷◌ c s)) [ none ↦ rest | some k ↦ some k ]
