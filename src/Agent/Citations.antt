-- ===== src/Agent/Citations.antt =====
-- src/app/agent/citations.py. `_CITE.sub(_replace, answer)` reads the answer from the left; `skip`
-- counts the characters that still belong to the last match.
pub mod Matching
pub mod Valid
pub mod Spaces
pub mod Cleaned
pub mod Kept
use mathlib.Core.Option
use grounded_ops_agent.Agent.Registry.{CitationRegistry, has_index}
use grounded_ops_agent.Prelude.{
  ℕ, zero, suc, ◌+◌, Bool, true, false, ◌&&◌, Option, none, some, List, [], ◌∷◌, ◌++◌, ltb,
  if◌then◌else◌, length, ◌==◌, nat_eq, Text, text_eq,
}
use grounded_ops_agent.Text.Chars.{codes, is_digit}
use grounded_ops_agent.Text.Decimal.{int}
use grounded_ops_agent.Text.Words.{strip}

-- A match of `(\d*)\]` at the start of the text: its digits.
unfoldable pub digits_close : Text → Option Text
digits_close [] = none
digits_close (d ∷ t) =
    if is_digit d
    then Option.map (λ (ds : Text). d ∷ ds) (digits_close t)
    else if d == b']'
    then some []
    else none

abbrev nonempty : Option Text → Option Text
nonempty none = none
nonempty (some []) = none
nonempty (some (d ∷ ds)) = some (d ∷ ds)

-- A match of `\[(\d+)\]` at the start of the text: its digits.
unfoldable pub cite_match : Text → Option Text
cite_match [] = none
cite_match (c ∷ s) = if c == b'[' then nonempty (digits_close s) else none

-- The indices that the text cites, in order: `re.findall`.
unfoldable pub citations_from : ℕ → Text → List ℕ
citations_from skip [] = []
citations_from (suc skip) (c ∷ s) = citations_from skip s
citations_from zero (c ∷ s) = elim (cite_match (c ∷ s)) [
  | none ↦ citations_from 0 s
  | some digits ↦ int digits ∷ citations_from (length digits + 1) s
]

abbrev pub citations : Text → List ℕ
citations s = citations_from 0 s

-- The text with the matches of unknown indices removed, and the known indices, one for each match.
unfoldable pub replace_from : (ℕ → Bool) → ℕ → Text → Text × List ℕ
replace_from known skip [] = ([], [])
replace_from known (suc skip) (c ∷ s) = replace_from known skip s
replace_from known zero (c ∷ s) = elim (cite_match (c ∷ s)) [
  | none ↦ let (t, used) = replace_from known 0 s in (c ∷ t, used)
  | some digits ↦
      let (t, used) = replace_from known (length digits + 1) s in
      if known (int digits)
      then (codes "[" ++ (digits ++ (codes "]" ++ t)), int digits ∷ used)
      else (t, used)
]

abbrev pub starts_with_space : Text → Bool
starts_with_space [] = false
starts_with_space (d ∷ t) = d == b' '

-- `re.sub(r" {2,}", " ", text)`
unfoldable pub collapse_spaces : Text → Text
collapse_spaces [] = []
collapse_spaces (c ∷ s) = elim (c == b' ' && starts_with_space s) [
  | true ↦ collapse_spaces s
  | false ↦ c ∷ collapse_spaces s
]

-- `sorted` of a set: a strictly ascending list.
unfoldable pub insert_sorted : ℕ → List ℕ → List ℕ
insert_sorted i [] = i ∷ []
insert_sorted i (j ∷ js) =
    if ltb i j then i ∷ j ∷ js else if i == j then j ∷ js else j ∷ insert_sorted i js

unfoldable pub sorted_set : List ℕ → List ℕ
sorted_set [] = []
sorted_set (i ∷ is) = insert_sorted i (sorted_set is)

unfoldable pub validate_and_strip : Text → CitationRegistry → Text × List ℕ
validate_and_strip answer registry =
    let (replaced, used) = replace_from (has_index registry) 0 answer in
    (strip (collapse_spaces replaced), sorted_set used)
