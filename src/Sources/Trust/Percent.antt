-- ===== src/Sources/Trust/Percent.antt =====
-- identity/sources/trust.py: `_normalize_percent_encoding`.
use Prim.Native.Char.{Char, code}
use agent_traffic_intelligen.Prelude.{
  ℕ, String, ◌+◌, ◌-◌, ◌*◌, Option, none, some, true, false, ◌&&◌, leb, nat_eq, if◌then◌else◌,
}

-- `_UNRESERVED`
abbrev pub unreserved : String
unreserved = "abcdefghijklmnopqrstuvwxyzABCDEFGHIJKLMNOPQRSTUVWXYZ0123456789-._~"

-- The character of the text that has the code point: `chr(n)` where `chr(n) in text`.
unfoldable pub char_in : String → ℕ → Option Char
char_in String.[] n = none
char_in (String.◌∷◌ c s) n = let rest = char_in s n in if nat_eq (code c) n then some c else rest

-- `int(digit, 16)` of a character of `_HEX`
unfoldable pub hex_value : Char → Option ℕ
hex_value c =
    let n = code c in
    if leb b'0' n && leb n b'9'
    then some (n - b'0')
    else if leb b'A' n && leb n b'F'
    then some (n - b'A' + 10)
    else if leb b'a' n && leb n b'f'
    then some (n - b'a' + 10)
    else none

-- `digit.upper()` of a character of `_HEX`
unfoldable pub upper : Char → Char
upper c =
    if nat_eq (code c) b'a'
    then Char.char b'A' tt
    else if nat_eq (code c) b'b'
    then Char.char b'B' tt
    else if nat_eq (code c) b'c'
    then Char.char b'C' tt
    else if nat_eq (code c) b'd'
    then Char.char b'D' tt
    else if nat_eq (code c) b'e'
    then Char.char b'E' tt
    else if nat_eq (code c) b'f'
    then Char.char b'F' tt
    else c

unfoldable pub prepend : Char → Option String → Option String
prepend c none = none
prepend c (some s) = some (String.◌∷◌ c s)

abbrev pub percent : Char
percent = Char.char b'%' tt

-- What is written for an escape of two hexadecimal digits, before the rest.
unfoldable pub write_escape : Char → Char → Option Char → Option String → Option String
unfolding prepend upper
write_escape a b (some d) rest = prepend d rest
write_escape a b none rest = prepend percent (prepend (upper a) (prepend (upper b) rest))

-- An escape: `none` where a digit is not in `_HEX`.
unfoldable pub escape : Char → Char → Option ℕ → Option ℕ → Option String → Option String
unfolding write_escape char_in
escape a b (some m) (some n) rest = write_escape a b (char_in unreserved (m * 16 + n)) rest
escape a b _ _ rest = none

-- `_normalize_percent_encoding`: `none` for its `ValueError`.
unfoldable pub normalize_percent_encoding : String → Option String
unfolding escape prepend hex_value
normalize_percent_encoding String.[] = some ""
normalize_percent_encoding (String.◌∷◌ c String.[]) =
    if nat_eq (code c) b'%' then none else some (String.◌∷◌ c String.[])
normalize_percent_encoding (String.◌∷◌ c (String.◌∷◌ a String.[])) =
    if nat_eq (code c) b'%'
    then none
    else prepend c (normalize_percent_encoding (String.◌∷◌ a String.[]))
normalize_percent_encoding (String.◌∷◌ c (String.◌∷◌ a (String.◌∷◌ b s))) =
    elim (nat_eq (code c) b'%') [
      | true ↦ escape a b (hex_value a) (hex_value b) (normalize_percent_encoding s)
      | false ↦ prepend c (normalize_percent_encoding (String.◌∷◌ a (String.◌∷◌ b s)))
    ]
