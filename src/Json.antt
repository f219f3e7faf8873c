-- ===== src/Json.antt =====
-- JSON values as Python's `json` module gives them. An object's keys are distinct.
pub mod Assignment
use agent_traffic_intelligen.Prelude.{String, Option, none, some, Bool, ◌==◌, if◌then◌else◌}
use agent_traffic_intelligen.Prelude.Int.{ℤ}

mutual
  pub data Json : Type 0 where
    null : Json
    bool : Bool → Json
    int : ℤ → Json
    -- a number with a fraction or an exponent, as its text
    float : String → Json
    str : String → Json
    arr : Items → Json
    obj : Fields → Json

  pub data Items : Type 0 where
    nil : Items
    cons : Json → Items → Items

  pub data Fields : Type 0 where
    end : Fields
    field : String → Json → Fields → Fields

-- `mapping.get(name)`, where a missing name is told from a null.
unfoldable pub find : String → Fields → Option Json
find name end = none
find name (field n v rest) = if n == name then some v else find name rest

-- `mapping.get(name)`, where a missing name is `None`.
unfoldable pub get : String → Fields → Json
unfolding find
get name fields = elim (find name fields) [ none ↦ null | some v ↦ v ]

-- `mapping[name] = value`: a new name comes last.
unfoldable pub set : String → Json → Fields → Fields
set name v end = field name v end
set name v (field n old rest) =
    let others = set name v rest in if n == name then field n v rest else field n old others
