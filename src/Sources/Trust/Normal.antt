-- ===== src/Sources/Trust/Normal.antt =====
-- The normal form of percent-encoded text in source addresses (identity/sources/trust.py).
use Prim.Native.Char.{Char, code}
use agent_traffic_intelligen.Prelude.{
  sym, subst, Bool-cases, inl, inr, ap, ◌∙◌, if_lem, ℕ, String, ◌+◌, ◌*◌, Option, none, some, true,
  false, ◌&&◌, leb, nat_eq, ◌≡◌, refl, arith,
}
use agent_traffic_intelligen.Sources.Trust.Percent.{
  unreserved, char_in, hex_value, upper, prepend, percent, write_escape, escape,
  normalize_percent_encoding,
}

-- A text whose escapes are all needed and in upper case.
pub data IsNormal : String → Type 0 where
  empty : IsNormal ""
  plain :
      {c : Char} {s : String}
      → nat_eq (code c) b'%' ≡ false
      → IsNormal s
      → IsNormal (String.◌∷◌ c s)
  escaped :
      (a b : Char) (m n : ℕ) {s : String}
      → hex_value a ≡ some m
      → hex_value b ≡ some n
      → char_in unreserved (m * 16 + n) ≡ none
      → IsNormal s
      → IsNormal (String.◌∷◌ percent (String.◌∷◌ (upper a) (String.◌∷◌ (upper b) s)))

-- A property of the upper-case digit, by the character it comes from.
upper_cases :
    (P : Char → Type 0) (c : Char)
    → ((u : Char) → leb b'A' (code u) && leb (code u) b'F' ≡ true → code c ≡ code u + 32 → P u)
    → (leb b'a' (code c) && leb (code c) b'f' ≡ false → P c)
    → P (upper c)
unfolding upper
upper_cases P c f g =
    let digit : (u : Char)
        → leb b'A' (code u) && leb (code u) b'F' ≡ true
        → nat_eq (code c) (code u + 32) ≡ true
        → P u =
      λ u k h. f u k (ground arith) in
    if_lem P _ _ _ (digit (Char.char b'A' tt) refl) (λ h1.
      if_lem P _ _ _ (digit (Char.char b'B' tt) refl) (λ h2.
        if_lem P _ _ _ (digit (Char.char b'C' tt) refl) (λ h3.
          if_lem P _ _ _ (digit (Char.char b'D' tt) refl) (λ h4.
            if_lem P _ _ _ (digit (Char.char b'E' tt) refl)
              (λ h5. if_lem P _ _ _ (digit (Char.char b'F' tt) refl) (λ h6. g (ground arith)))))))

upper_other : (c : Char) → leb b'a' (code c) && leb (code c) b'f' ≡ false → upper c ≡ c
unfolding upper
upper_other c h =
    let no : (n : ℕ) → leb b'a' n && leb n b'f' ≡ true → nat_eq (code c) n ≡ false =
      λ n k. ground arith in
    rw (no b'a' refl, no b'b' refl, no b'c' refl, no b'd' refl, no b'e' refl, no b'f' refl) refl

-- An upper-case digit has the value of the digit.
hex_value-upper : (c : Char) → hex_value (upper c) ≡ hex_value c
unfolding hex_value
hex_value-upper c =
    upper_cases (λ u. hex_value u ≡ hex_value c) c (λ u k h. ground arith) (λ h. refl)

upper-upper : (c : Char) → upper (upper c) ≡ upper c
upper-upper c =
    upper_cases (λ u. upper u ≡ u) c (λ u k h. upper_other u (ground arith)) (λ h. upper_other c h)

-- A text without the percent sign has no character that is one.
char_in-plain :
    (s : String) (n : ℕ) (d : Char)
    → char_in s b'%' ≡ none
    → char_in s n ≡ some d
    → nat_eq (code d) b'%' ≡ false
unfolding char_in
char_in-plain String.[] n d h k = cc
char_in-plain (String.◌∷◌ c s) n d h k = ground (arith, char_in-plain s n d)

normalize_plain :
    (c : Char) (s : String)
    → nat_eq (code c) b'%' ≡ false
    → normalize_percent_encoding (String.◌∷◌ c s) ≡ prepend c (normalize_percent_encoding s)
unfolding normalize_percent_encoding prepend
normalize_plain c String.[] h = rw h refl
normalize_plain c (String.◌∷◌ a String.[]) h = rw h refl
normalize_plain c (String.◌∷◌ a (String.◌∷◌ b s)) h = rw (normalize_percent_encoding, h) refl

-- Text in normal form is left as it is.
pub normal_fixed : {t : String} → IsNormal t → normalize_percent_encoding t ≡ some t
unfolding normalize_percent_encoding escape write_escape prepend
normal_fixed empty = refl
normal_fixed (plain {c = c} {s = s} h rest) =
    normalize_plain c s h ∙ ap (prepend c) (normal_fixed rest)
normal_fixed (escaped a b m n {s = s} ha hb hn rest) =
    rw
      (
        hex_value-upper a,
        hex_value-upper b,
        ha,
        hb,
        hn,
        upper-upper a,
        upper-upper b,
        normal_fixed rest,
      )
      refl

prepend-IsNormal :
    (c : Char) (o : Option String) (t : String)
    → nat_eq (code c) b'%' ≡ false
    → ((s : String) → o ≡ some s → IsNormal s)
    → prepend c o ≡ some t
    → IsNormal t
unfolding prepend
prepend-IsNormal c none t hc ih h = cc
prepend-IsNormal c (some s) t hc ih h =
    subst IsNormal (ground arith) (plain {c = c} {s = s} hc (ih s refl))

write_escape-IsNormal :
    (a b : Char) (m n : ℕ) (od : Option Char) (o : Option String) (t : String)
    → hex_value a ≡ some m
    → hex_value b ≡ some n
    → char_in unreserved (m * 16 + n) ≡ od
    → ((s : String) → o ≡ some s → IsNormal s)
    → write_escape a b od o ≡ some t
    → IsNormal t
unfolding write_escape prepend char_in
write_escape-IsNormal a b m n (some d) o t ha hb hd ih h =
    prepend-IsNormal d o t (char_in-plain unreserved (m * 16 + n) d refl hd) ih h
write_escape-IsNormal a b m n none none t ha hb hd ih h = cc
write_escape-IsNormal a b m n none (some s) t ha hb hd ih h =
    subst IsNormal (ground arith) (escaped a b m n ha hb hd (ih s refl))

escape-IsNormal :
    (a b : Char) (om on : Option ℕ) (o : Option String) (t : String)
    → hex_value a ≡ om
    → hex_value b ≡ on
    → ((s : String) → o ≡ some s → IsNormal s)
    → escape a b om on o ≡ some t
    → IsNormal t
unfolding escape
escape-IsNormal a b none on o t ha hb ih h = cc
escape-IsNormal a b (some m) none o t ha hb ih h = cc
escape-IsNormal a b (some m) (some n) o t ha hb ih h =
    write_escape-IsNormal a b m n (char_in unreserved (m * 16 + n)) o t ha hb refl ih h

-- What the function returns is in normal form.
pub normalize-IsNormal : (s t : String) → normalize_percent_encoding s ≡ some t → IsNormal t
unfolding normalize_percent_encoding
normalize-IsNormal String.[] t h = subst IsNormal (ground arith) empty
normalize-IsNormal (String.◌∷◌ c String.[]) t h = elim (Bool-cases (nat_eq (code c) b'%')) [
  | inl e ↦ cc (rw e at h)
  | inr e ↦
      prepend-IsNormal c (some "") t e (λ s k. normalize-IsNormal String.[] s k)
        (sym (normalize_plain c "" e) ∙ h)
]
normalize-IsNormal (String.◌∷◌ c (String.◌∷◌ a String.[])) t h =
    elim (Bool-cases (nat_eq (code c) b'%')) [
      | inl e ↦ cc (rw e at h)
      | inr e ↦
          prepend-IsNormal c (normalize_percent_encoding (String.◌∷◌ a String.[])) t e
            (λ s k. normalize-IsNormal (String.◌∷◌ a String.[]) s k)
            (sym (normalize_plain c (String.◌∷◌ a String.[]) e) ∙ h)
    ]
normalize-IsNormal (String.◌∷◌ c (String.◌∷◌ a (String.◌∷◌ b s))) t h =
    elim (Bool-cases (nat_eq (code c) b'%')) [
      | inl e ↦
          escape-IsNormal a b (hex_value a) (hex_value b) (normalize_percent_encoding s) t refl refl
            (λ u k. normalize-IsNormal s u k) (rw (normalize_percent_encoding, e) at h)
      | inr e ↦
          prepend-IsNormal c (normalize_percent_encoding (String.◌∷◌ a (String.◌∷◌ b s))) t e
            (λ u k. normalize-IsNormal (String.◌∷◌ a (String.◌∷◌ b s)) u k)
            (sym (normalize_plain c (String.◌∷◌ a (String.◌∷◌ b s)) e) ∙ h)
    ]

-- Normalising a text again changes nothing.
pub normalize_idempotent :
    (s t : String) → normalize_percent_encoding s ≡ some t → normalize_percent_encoding t ≡ some t
normalize_idempotent s t h = normal_fixed (normalize-IsNormal s t h)
