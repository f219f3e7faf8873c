-- ===== src/Ingestion/Complete.antt =====
-- What the loop of ingestion/jsonl.py yields, and how many lines it has read when it ends.
use agent_traffic_intelligen.Prelude.{
  ℕ, suc, ◌+◌, String, Option, none, some, List, [], ◌∷◌, ◌==◌, ◌≡◌, ◌⊎◌, ◌≤◌, refl, length, codes,
  ltb, nat_eq, arith, if_lem, Bool-cases, inl, inr, if◌then◌else◌,
}
use agent_traffic_intelligen.Json.{Json, Fields, obj}
use agent_traffic_intelligen.Domain.{RequestEvent}
use agent_traffic_intelligen.Ingestion.{Outcome, done, parse_error, other_error, ◌>>=◌, Library}
use agent_traffic_intelligen.Ingestion.Records.{normalize_record}
use agent_traffic_intelligen.Ingestion.Lines.{
  Ending, exhausted, bad_line, failed, read_payload, read_line, after_line, iter_from, iter_lines,
  iter_jsonl,
}
use agent_traffic_intelligen.Ingestion.Normalized.{IsPrivate, normalize_record-IsPrivate}

module _ (lib : Library) where
  abbrev pub weight : String → ℕ
  weight line = if lib.strip line == "" then 0 else 1

  -- The number of lines that are not blank.
  unfoldable pub contents : List String → ℕ
  contents [] = 0
  contents (line ∷ lines) = weight line + contents lines

  -- The number of those that stand before line m, where the first is line n.
  unfoldable pub contents_before : ℕ → ℕ → List String → ℕ
  contents_before m n [] = 0
  contents_before m n (line ∷ lines) =
      let rest = contents_before m (suc n) lines in if nat_eq m n then 0 else weight line + rest

  -- The lines from line n up to the end, of which so many values were yielded.
  unfoldable pub IsComplete : Ending → ℕ → List String → ℕ → Type 0
  IsComplete exhausted n lines yielded = yielded ≡ contents lines
  IsComplete (bad_line m e) n lines yielded = (n ≤ m) × (yielded ≡ contents_before m n lines)
  IsComplete failed n lines yielded = yielded ≤ contents lines

  IsComplete-after :
      (ending : Ending) (n : ℕ) (line : String) (lines : List String) (yielded total : ℕ)
      → IsComplete ending (suc n) lines yielded
      → total ≡ weight line + yielded
      → IsComplete ending n (line ∷ lines) total
  unfolding IsComplete contents contents_before
  IsComplete-after exhausted n line lines yielded total h t = omega arith
  IsComplete-after (bad_line m e) n line lines yielded total h t = ground arith
  IsComplete-after failed n line lines yielded total h t = ground arith

  -- The values are those of lines that are not blank, in order, each of a line of its own.
  unfoldable pub AreFrom : {A : Type 0} → (String → A → Type 0) → List String → List A → Type 0
  AreFrom P [] [] = Unit
  AreFrom P [] (a ∷ yielded) = ⊥
  AreFrom P (line ∷ lines) [] = Unit
  AreFrom P (line ∷ lines) (a ∷ yielded) =
      ((weight line ≡ 0) × AreFrom P lines (a ∷ yielded))
      ⊎ ((weight line ≡ 1) × P line a × AreFrom P lines yielded)

  AreFrom-map :
      {A : Type 0} (P Q : String → A → Type 0)
      → ((line : String) (a : A) → P line a → Q line a)
      → (lines : List String) (yielded : List A) → AreFrom P lines yielded
      → AreFrom Q lines yielded
  unfolding AreFrom
  AreFrom-map P Q f [] [] h = tt
  AreFrom-map P Q f [] (a ∷ yielded) h = h
  AreFrom-map P Q f (line ∷ lines) [] h = tt
  AreFrom-map P Q f (line ∷ lines) (a ∷ yielded) (inl (w, h)) =
      inl (w, AreFrom-map P Q f lines (a ∷ yielded) h)
  AreFrom-map P Q f (line ∷ lines) (a ∷ yielded) (inr (w, p, h)) =
      inr (w, f line a p, AreFrom-map P Q f lines yielded h)

  AreFrom-blank :
      {A : Type 0} (P : String → A → Type 0) (line : String) (lines : List String)
      (yielded : List A)
      → weight line ≡ 0
      → AreFrom P lines yielded
      → AreFrom P (line ∷ lines) yielded
  unfolding AreFrom
  AreFrom-blank P line lines [] w h = tt
  AreFrom-blank P line lines (a ∷ yielded) w h = inl (w, h)

  AreFrom-none : {A : Type 0} (P : String → A → Type 0) (lines : List String) → AreFrom P lines []
  unfolding AreFrom
  AreFrom-none P [] = tt
  AreFrom-none P (line ∷ lines) = tt

  module _ {A : Type 0} (normalize : Fields → ℕ → Outcome A) where
    -- A value that was normalized from the object that the line holds.
    abbrev pub IsFrom : String → A → Type 0
    IsFrom line a =
        (fields : Fields) × (n : ℕ) × (lib.parse_json line ≡ some (obj fields))
        × (normalize fields n ≡ done a)

    -- What a line of this weight gives.
    unfoldable IsReading : String → ℕ → Outcome (Option A) → Type 0
    IsReading line w (done none) = w ≡ 0
    IsReading line w (done (some a)) = (w ≡ 1) × IsFrom line a
    IsReading line w (parse_error e) = Unit
    IsReading line w other_error = Unit

    object-IsReading :
        (line : String) (fields : Fields) (n : ℕ) (o : Outcome A)
        → lib.parse_json line ≡ some (obj fields)
        → normalize fields n ≡ o
        → IsReading line 1 (o >>= λ a. done (some a))
    unfolding IsReading
    object-IsReading line fields n (done a) p h = (refl, (fields, n, p, h))
    object-IsReading line fields n (parse_error e) p h = tt
    object-IsReading line fields n other_error p h = tt

    payload-IsReading :
        (line : String) (n : ℕ) (o : Option Json)
        → lib.parse_json line ≡ o
        → IsReading line 1 (read_payload lib normalize n o >>= λ a. done (some a))
    unfolding read_payload IsReading
    payload-IsReading line n none p = tt
    payload-IsReading line n (some (obj fields)) p =
        object-IsReading line fields n (normalize fields n) p refl
    payload-IsReading line n (some _) p = tt

    read_line-IsReading :
        (max_characters n : ℕ) (line : String)
        → IsReading line (weight line) (read_line lib normalize max_characters n line)
    unfolding read_line IsReading
    read_line-IsReading max_characters n line =
        if_lem (λ o. IsReading line (weight line) o) (ltb max_characters (length (codes line))) _ _
          (λ _. tt)
          (λ _. elim (Bool-cases (lib.strip line == "")) [
            | inl e ↦ rw e (refl)
            | inr e ↦ rw e (payload-IsReading line n (lib.parse_json line) refl)
          ])

    IsRun : List A × Ending → ℕ → List String → Type 0
    IsRun (yielded, ending) n lines =
        AreFrom IsFrom lines yielded × IsComplete ending n lines (length yielded)

    after_line-IsRun :
        (n : ℕ) (line : String) (lines : List String) (o : Outcome (Option A))
        (rest : List A × Ending)
        → IsReading line (weight line) o
        → IsRun rest (suc n) lines
        → IsRun (after_line lib normalize n o rest) n (line ∷ lines)
    unfolding after_line IsRun AreFrom IsReading IsComplete contents_before
    after_line-IsRun n line lines (done none) (yielded, ending) w (from, all) = (
      AreFrom-blank IsFrom line lines yielded w from,
      IsComplete-after ending n line lines (length yielded) (length yielded) all (omega arith),
    )
    after_line-IsRun n line lines (done (some a)) (yielded, ending) (w, is_from) (from, all) = (
      inr (w, is_from, from),
      IsComplete-after ending n line lines (length yielded) (suc (length yielded)) all
          (omega arith),
    )
    after_line-IsRun n line lines (parse_error e) rest w h = (tt, (ground arith, ground arith))
    after_line-IsRun n line lines other_error rest w h = (tt, omega arith)

    iter_from-IsRun :
        (max_characters n : ℕ) (lines : List String)
        → IsRun (iter_from lib normalize max_characters n lines) n lines
    unfolding iter_from IsRun AreFrom IsComplete contents
    iter_from-IsRun max_characters n [] = (tt, refl)
    iter_from-IsRun max_characters n (line ∷ lines) =
        after_line-IsRun n line lines (read_line lib normalize max_characters n line)
          (iter_from lib normalize max_characters (suc n) lines)
          (read_line-IsReading max_characters n line) (iter_from-IsRun max_characters (suc n) lines)

    iter_lines-IsRun :
        (max_characters : ℕ) (lines : List String)
        → IsRun (iter_lines lib normalize max_characters lines) 1 lines
    unfolding iter_lines IsRun IsComplete
    iter_lines-IsRun max_characters lines =
        if_lem (λ r. IsRun r 1 lines) (ltb max_characters 1) _ _
          (λ _. (AreFrom-none IsFrom lines, omega arith))
          (λ _. iter_from-IsRun max_characters 1 lines)

  module _ (hash_key : Option (List ℕ)) where
    -- The request is a private one, of the object that the line holds.
    abbrev pub IsRequestOf : String → RequestEvent → Type 0
    IsRequestOf line e =
        (fields : Fields) × (lib.parse_json line ≡ some (obj fields))
        × IsPrivate lib hash_key fields e

    -- The requests that a run over lines yields are, in order, those of lines that are not blank, each of
    -- the JSON object that its line holds: the client identifier is the one that the object supplies or
    -- else the digest of its address under the configured key, the path is rooted and without the query of
    -- the object's target, the identifiers are not empty and the status is valid. A run that reaches the
    -- end has yielded one request for each line that is not blank, one that ends with a `ParseError` of a
    -- line has yielded one for each such line before it, and one that ends with another exception, as for
    -- a bound below 1, at most one for each line.
    pub iter_jsonl-IsComplete :
        (source : String) (max_characters : ℕ) (lines : List String)
        → AreFrom IsRequestOf lines (iter_jsonl lib hash_key source max_characters lines).0
          × IsComplete
              (iter_jsonl lib hash_key source max_characters lines).1
              1
              lines
              (length (iter_jsonl lib hash_key source max_characters lines).0)
    unfolding iter_jsonl IsRun
    iter_jsonl-IsComplete source max_characters lines =
        let (from, complete) =
          iter_lines-IsRun (λ fields n. normalize_record lib fields hash_key source (some n))
            max_characters lines in
        (
          AreFrom-map _ IsRequestOf
              (λ line e (fields, n, p, made).
                (fields, p, normalize_record-IsPrivate lib hash_key fields source (some n) e made))
              lines _ from,
          complete,
        )
