-- ===== src/Agent/Citations/Valid.antt =====
-- The indices that `validate_and_strip` reports as used.
use grounded_ops_agent.Agent.Citations.{
  cite_match, citations_from, citations, replace_from, insert_sorted, sorted_set,
  validate_and_strip,
}
use grounded_ops_agent.Agent.Registry.{CitationRegistry, has_index}
use grounded_ops_agent.Prelude.{
  ℕ, zero, suc, ◌+◌, ◌≡◌, refl, ap, ◌∙◌, inl, inr, Bool, ◌&&◌, ◌||◌, List, [], ◌∷◌, arith,
  if◌then◌else◌, nat_beq_iff, Option-cases, length, ◌==◌, nat_eq, Text, text_eq, contains,
}
use grounded_ops_agent.Prelude.Ascending.{Ascending}

-- The indices that `known` accepts, in order.
unfoldable pub known_only : (ℕ → Bool) → List ℕ → List ℕ
known_only known [] = []
known_only known (i ∷ is) = if known i then i ∷ known_only known is else known_only known is

pub replace-used :
    (known : ℕ → Bool) (skip : ℕ) (s : Text)
    → (replace_from known skip s).1 ≡ known_only known (citations_from skip s)
unfolding replace_from citations_from known_only
replace-used known skip [] = elim skip [ zero ↦ refl | suc k ↦ refl ]
replace-used known (suc skip) (c ∷ s) = replace-used known skip s
replace-used known zero (c ∷ s) = elim (Option-cases (cite_match (c ∷ s))) [
  | inl e ↦ rw (e, replace_from, citations_from) (replace-used known 0 s)
  | inr (ds, e) ↦ ground (arith, e, replace-used known (length ds + 1) s)
]

pub contains-known_only :
    (known : ℕ → Bool) (is : List ℕ) (i : ℕ)
    → contains (known_only known is) i ≡ (known i && contains is i)
unfolding known_only
contains-known_only known [] i = ground arith
contains-known_only known (j ∷ is) i =
    ground (arith, contains-known_only known is i, nat_beq_iff j i)

contains-insert_sorted :
    (i : ℕ) (js : List ℕ) (k : ℕ) → contains (insert_sorted i js) k ≡ (i == k || contains js k)
unfolding insert_sorted
contains-insert_sorted i [] k = refl
contains-insert_sorted i (j ∷ js) k = ground (arith, contains-insert_sorted i js k)

insert_sorted-Ascending : (i : ℕ) (js : List ℕ) → Ascending js → Ascending (insert_sorted i js)
unfolding insert_sorted
insert_sorted-Ascending i [] h = tt
insert_sorted-Ascending i (j ∷ []) h = ground arith
insert_sorted-Ascending i (j ∷ k ∷ js) h = ground (arith, insert_sorted-Ascending i (k ∷ js) h.1)

pub contains-sorted_set : (is : List ℕ) (k : ℕ) → contains (sorted_set is) k ≡ contains is k
unfolding sorted_set
contains-sorted_set [] k = refl
contains-sorted_set (i ∷ is) k =
    contains-insert_sorted i (sorted_set is) k ∙ ap (λ b. i == k || b) (contains-sorted_set is k)

pub sorted_set-Ascending : (is : List ℕ) → Ascending (sorted_set is)
unfolding sorted_set
sorted_set-Ascending [] = tt
sorted_set-Ascending (i ∷ is) = insert_sorted-Ascending i (sorted_set is) (sorted_set-Ascending is)

-- The used indices are, in ascending order and each once, the cited indices that the registry has.
pub validate_and_strip-used :
    (answer : Text) (r : CitationRegistry)
    → let used = (validate_and_strip answer r).1 in
      Ascending used
      × ((i : ℕ) → contains used i ≡ (has_index r i && contains (citations answer) i))
unfolding validate_and_strip
validate_and_strip-used answer r = (
  sorted_set-Ascending (replace_from (has_index r) 0 answer).1,
  λ i.
      contains-sorted_set (replace_from (has_index r) 0 answer).1 i
      ∙ ap (λ is. contains is i) (replace-used (has_index r) 0 answer)
      ∙ contains-known_only (has_index r) (citations answer) i,
)
