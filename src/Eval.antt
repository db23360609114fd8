-- ===== src/Eval.antt =====
-- src/app/eval/metrics.py. A set of relevant ids is a list without repetitions; `log2` is a
-- parameter.
pub mod Statistics
pub mod Gold
pub mod Harness
use grounded_ops_agent.Prelude.{
  ℕ, ◌+◌, ◌≡◌, refl, ap, ◌∙◌, subst, ◌⊎◌, inl, inr, true, false, not, ◌&&◌, ◌||◌, List, [], ◌∷◌,
  arith, if◌then◌else◌, Bool-cases, length, take, keep_if, ◌==◌, Text, nat_eq, text_eq, contains,
  Distinct, beq_refl,
}
use grounded_ops_agent.Prelude.Float.{Float, FloatOps}
use grounded_ops_agent.Retrieval.Service.{ranked}

-- The loop of `dedup_preserve_order`; `seen` is the set.
unfoldable pub dedup_from : (seen : List Text) → List Text → List Text
dedup_from seen [] = []
dedup_from seen (d ∷ ds) =
    let skipped = dedup_from seen ds in
    let kept = dedup_from (d ∷ seen) ds in if contains seen d then skipped else d ∷ kept

unfoldable pub dedup_preserve_order : List Text → List Text
unfolding dedup_from
dedup_preserve_order ids = dedup_from [] ids

-- `len(a & b)` of the distinct ids `a`.
abbrev pub shared : List Text → List Text → ℕ
shared a b = length (keep_if (contains b) a)

module _ (floats : FloatOps) where
  abbrev ratio : ℕ → ℕ → Float
  ratio a b = floats.div (floats.of_ℕ a) (floats.of_ℕ b)

  unfoldable pub recall_at_k : List Text → List Text → ℕ → Float
  unfolding dedup_preserve_order
  recall_at_k ranked [] k = floats.of_ℕ 0
  recall_at_k ranked (r ∷ relevant) k =
      ratio (shared (dedup_preserve_order (take k ranked)) (r ∷ relevant)) (length (r ∷ relevant))

  -- The loop of `mrr` from a rank on.
  unfoldable pub mrr_from : (rank : ℕ) → List Text → List Text → Float
  mrr_from rank [] relevant = floats.of_ℕ 0
  mrr_from rank (d ∷ ds) relevant =
      if contains relevant d then ratio 1 rank else mrr_from (rank + 1) ds relevant

  unfoldable pub mrr : List Text → List Text → Float
  unfolding mrr_from
  mrr ranked relevant = mrr_from 1 ranked relevant

  unfoldable pub citation_precision_recall : List Text → List Text → Float × Float
  citation_precision_recall cited relevant = (over cited, over relevant)
    where
      over : List Text → Float
      over [] = floats.of_ℕ 0
      over (x ∷ xs) = ratio (shared cited relevant) (length (x ∷ xs))

dedup_from-contains :
    (seen ids : List Text) (i : Text)
    → contains (dedup_from seen ids) i ≡ (contains ids i && not (contains seen i))
unfolding dedup_from
dedup_from-contains seen [] i = refl
dedup_from-contains seen (d ∷ ds) i = elim (Bool-cases (contains seen d)) [
  | inl old ↦
      rw (old, dedup_from) (dedup_from-contains seen ds i ∙ passed (Bool-cases (d == i)) old)
  | inr new ↦
      rw (new, dedup_from)
        (ap (λ b. d == i || b) (dedup_from-contains (d ∷ seen) ds i)
          ∙ taken (Bool-cases (d == i)) new)
]
  where
    passed :
        ((d == i) ≡ true) ⊎ ((d == i) ≡ false)
        → contains seen d ≡ true
        → (contains ds i && not (contains seen i)) ≡ (contains (d ∷ ds) i && not (contains seen i))
    passed (inl same) old =
        let e = (text_eq.beq_iff d i).0 same in
        let k : contains seen i ≡ true = subst (λ x. contains seen x ≡ true) e old in
        ground (arith, k)
    passed (inr other) old = ground (arith, other)

    taken :
        ((d == i) ≡ true) ⊎ ((d == i) ≡ false)
        → contains seen d ≡ false
        → (d == i || (contains ds i && not (contains (d ∷ seen) i)))
          ≡ (contains (d ∷ ds) i && not (contains seen i))
    taken (inl same) new =
        let e = (text_eq.beq_iff d i).0 same in
        let k : contains seen i ≡ false = subst (λ x. contains seen x ≡ false) e new in
        ground (arith, k)
    taken (inr other) new = ground (arith, other)

dedup_from-Distinct : (seen ids : List Text) → Distinct (dedup_from seen ids)
unfolding dedup_from
dedup_from-Distinct seen [] = tt
dedup_from-Distinct seen (d ∷ ds) = elim (Bool-cases (contains seen d)) [
  | inl old ↦ rw (old, dedup_from) (dedup_from-Distinct seen ds)
  | inr new ↦
      rw (new, dedup_from)
        (
          dedup_from-contains (d ∷ seen) ds d ∙ ground (arith, beq_refl d),
          dedup_from-Distinct (d ∷ seen) ds,
        )
]

-- Deduplication keeps exactly the ids of the ranking, each once.
dedup_preserve_order-Distinct :
    (ids : List Text)
    → Distinct (dedup_preserve_order ids)
      × ((i : Text) → contains (dedup_preserve_order ids) i ≡ contains ids i)
unfolding dedup_preserve_order
dedup_preserve_order-Distinct ids =
    (dedup_from-Distinct [] ids, λ i. dedup_from-contains [] ids i ∙ ground arith)
