-- ===== src/Sources/Trust/Segments.antt =====
-- identity/sources/trust.py: `_remove_dot_segments`.
use Prim.Native.Char.{Char, code}
use agent_traffic_intelligen.Prelude.{
  String, List, [], ◌∷◌, ◌++◌, Bool, false, ◌&&◌, ◌||◌, not, ◌==◌, ◌⁀◌, nat_eq, if◌then◌else◌,
  ends_with,
}

push : Char → List String → List String
push c [] = (String.◌∷◌ c "") ∷ []
push c (x ∷ xs) = (String.◌∷◌ c x) ∷ xs

-- `path.split("/")`
unfoldable pub split : String → List String
unfolding push
split String.[] = "" ∷ []
split (String.◌∷◌ c s) =
    let rest = split s in if nat_eq (code c) b'/' then "" ∷ rest else push c rest

-- `"/".join(segments)`
unfoldable pub join : List String → String
join [] = ""
join (x ∷ []) = x
join (x ∷ y ∷ xs) = x ⁀ ("/" ⁀ join (y ∷ xs))

-- `path.startswith("/")`
abbrev pub is_absolute : String → Bool
is_absolute String.[] = false
is_absolute (String.◌∷◌ c s) = nat_eq (code c) b'/'

-- `segments.pop()` where there is one
unfoldable pub without_last : List String → List String
without_last [] = []
without_last (x ∷ []) = []
without_last (x ∷ y ∷ xs) = x ∷ without_last (y ∷ xs)

-- One turn of the loop over the segments.
unfoldable pub step : List String → String → List String
unfolding without_last
step segments segment =
    if segment == "" || segment == "."
    then segments
    else if segment == ".."
    then without_last segments
    else segments ++ (segment ∷ [])

unfoldable pub walk : List String → List String → List String
unfolding step
walk segments [] = segments
walk segments (x ∷ xs) = walk (step segments x) xs

-- The path of the kept segments.
unfoldable pub path_of : Bool → Bool → String → String
path_of absolute trailing joined =
    let result = (if absolute then "/" ⁀ joined else joined) in
    if result == ""
    then (if absolute then "/" else "")
    else if trailing && not (result == "/")
    then result ⁀ "/"
    else result

-- `_remove_dot_segments`
unfoldable pub remove_dot_segments : String → String
unfolding split join walk path_of ends_with
remove_dot_segments path =
    path_of (is_absolute path) (ends_with path "/") (join (walk [] (split path)))
