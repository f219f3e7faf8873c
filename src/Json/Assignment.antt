-- ===== src/Json/Assignment.antt =====
-- Assignment to a key of a JSON object.
use agent_traffic_intelligen.Prelude.{
  String, some, false, ◌==◌, ◌≡◌, refl, sym, subst, arith, eq_iff, eq_refl, Bool-cases, inl, inr,
}
use agent_traffic_intelligen.Json.{Json, Fields, end, field, find, get, set}

pub find-set_same : (name : String) (v : Json) (fs : Fields) → find name (set name v fs) ≡ some v
unfolding find set
find-set_same name v end = rw (eq_refl name) refl
find-set_same name v (field n old rest) = elim (Bool-cases (n == name)) [
  | inl e ↦ rw (e, e) refl
  | inr e ↦ rw (e, e) (find-set_same name v rest)
]

pub find-set_other :
    (name other : String) (v : Json) (fs : Fields)
    → (name == other) ≡ false
    → find other (set name v fs) ≡ find other fs
unfolding find set
find-set_other name other v end h = rw h refl
find-set_other name other v (field n old rest) h = elim (Bool-cases (n == name)) [
  | inl e ↦
      let h1 : (n == other) ≡ false =
        subst (λ x. (x == other) ≡ false) (sym ((eq_iff n name).0 e)) h in
      rw (e, h1) refl
  | inr e ↦ rw e (ground (arith, find-set_other name other v rest h))
]

pub get-set_other :
    (name other : String) (v : Json) (fs : Fields)
    → (name == other) ≡ false
    → get other (set name v fs) ≡ get other fs
unfolding get
get-set_other name other v fs h = rw (get, find-set_other name other v fs h) refl
