-- ===== src/Crypto/Discovery/Agreement.antt =====
-- The normalisation of identity/crypto/discovery.py (Crypto.Discovery.Addresses) and that of
-- identity/sources/trust.py (Sources.Trust), which are separate code.
use Prim.Native.Char.{Char, code}
use agent_traffic_intelligen.Prelude.{
  ℕ, String, ◌+◌, ◌*◌, Option, none, some, List, [], ◌∷◌, Bool, true, false, ◌≡◌, refl, ap, ◌∙◌,
  nat_eq, ends_with,
}
use agent_traffic_intelligen.Runtime.{Runtime}
use agent_traffic_intelligen.Sources.Trust.{Urls, netloc_of, host_of}
use agent_traffic_intelligen.Sources.Trust.Percent.{
  unreserved, char_in, hex_value, prepend, write_escape, escape,
}
use agent_traffic_intelligen.Sources.Trust.Segments.{
  split, join, is_absolute, without_last, step, walk, path_of,
}
use agent_traffic_intelligen.Crypto.Discovery.Addresses.{
  appended_escape, decoded_pair, segment_turn, segments_after, rebuilt_path, location_of,
  folded_host,
}

written_same :
    (a b : Char) (decoded : Option Char) (rest : Option String)
    → appended_escape a b decoded rest ≡ write_escape a b decoded rest
unfolding appended_escape write_escape
written_same a b none rest = refl
written_same a b (some decoded) rest = refl

pair_same :
    (a b : Char) (m n : Option ℕ) (rest : Option String)
    → decoded_pair a b m n rest ≡ escape a b m n rest
unfolding decoded_pair escape
pair_same a b (some m) (some n) rest = written_same a b (char_in unreserved (m * 16 + n)) rest
pair_same a b none n rest = refl
pair_same a b (some m) none rest = refl

branches_same {ℓ} :
    {A : Type ℓ} (test : Bool) {x y z w : A}
    → x ≡ z
    → y ≡ w
    → (elim test [ true ↦ x | false ↦ y ]) ≡ (elim test [ true ↦ z | false ↦ w ])
branches_same true e f = e
branches_same false e f = f

pub encoding_same :
    (s : String)
    → agent_traffic_intelligen.Crypto.Discovery.Addresses.normalize_percent_encoding s
      ≡ agent_traffic_intelligen.Sources.Trust.Percent.normalize_percent_encoding s
unfolding agent_traffic_intelligen.Crypto.Discovery.Addresses.normalize_percent_encoding
    agent_traffic_intelligen.Sources.Trust.Percent.normalize_percent_encoding
encoding_same String.[] = refl
encoding_same (String.◌∷◌ c String.[]) = refl
encoding_same (String.◌∷◌ c (String.◌∷◌ a String.[])) = refl
encoding_same (String.◌∷◌ c (String.◌∷◌ a (String.◌∷◌ b s))) =
    branches_same (nat_eq (code c) b'%')
      (pair_same a b (hex_value a) (hex_value b) _
        ∙ ap (escape a b (hex_value a) (hex_value b)) (encoding_same s))
      (ap (prepend c) (encoding_same (String.◌∷◌ a (String.◌∷◌ b s))))

step_same :
    (segments : List String) (segment : String)
    → segment_turn segments segment ≡ step segments segment
unfolding segment_turn step
step_same segments segment = refl

walk_same : (segments rest : List String) → segments_after segments rest ≡ walk segments rest
unfolding segments_after walk
walk_same segments [] = refl
walk_same segments (x ∷ xs) =
    walk_same (segment_turn segments x) xs ∙ ap (λ l. walk l xs) (step_same segments x)

pub path_same :
    (path : String)
    → agent_traffic_intelligen.Crypto.Discovery.Addresses.remove_dot_segments path
      ≡ agent_traffic_intelligen.Sources.Trust.Segments.remove_dot_segments path
unfolding agent_traffic_intelligen.Crypto.Discovery.Addresses.remove_dot_segments
    agent_traffic_intelligen.Sources.Trust.Segments.remove_dot_segments rebuilt_path path_of
path_same path =
    ap (λ l. path_of (is_absolute path) (ends_with path "/") (join l)) (walk_same [] (split path))

module _ (py : Runtime) (urls : Urls) where
  pub location_same :
      (hostname : String) (port : Option ℕ)
      → location_of py urls hostname port ≡ netloc_of py urls hostname port
  unfolding location_of netloc_of agent_traffic_intelligen.Crypto.Discovery.Addresses.format_host
      agent_traffic_intelligen.Sources.Trust.format_host
  location_same hostname none = refl
  location_same hostname (some port) = refl

  pub host_same : (raw : Option String) → folded_host py urls raw ≡ host_of py urls raw
  unfolding folded_host host_of
  host_same raw = refl
