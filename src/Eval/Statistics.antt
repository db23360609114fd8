-- ===== src/Eval/Statistics.antt =====
-- `ndcg_at_k` and `percentile` of src/app/eval/metrics.py, and the mean of
-- src/app/eval/harness.py. `math.log2`, `math.floor` and `math.ceil` are parameters.
use grounded_ops_agent.Core.Errors.{◌>>=◌}
use grounded_ops_agent.Core.Errors.{external, Result, ok, raise}
use grounded_ops_agent.Prelude.{
  ℕ, zero, suc, ◌+◌, ◌-◌, ◌≤◌, ◌<◌, min, ◌≡◌, refl, ap, ◌∙◌, inl, inr, none, some, List, [], ◌∷◌,
  arith, if◌then◌else◌, Bool-cases, length, get_elem?, take, get_elem?_total, ◌==◌, Text, nat_eq,
  text_eq, contains,
}
use grounded_ops_agent.Prelude.Dict.{values}
use grounded_ops_agent.Prelude.Float.{Float, FloatOps}
use grounded_ops_agent.Retrieval.Service.{ranked}
use grounded_ops_agent.Text.Chars.{codes}

-- Of a float that is not negative.
pub record Rounding : Type 0 where
  -- `math.log2(n)`
  pub log2 : ℕ → Float
  pub floor : Float → ℕ
  pub ceil : Float → ℕ

-- `values[i]`
unfoldable pub float_at : List Float → ℕ → Result Float
float_at values i = elim (get_elem? values i) [
  | none ↦ raise (external (codes "IndexError"))
  | some x ↦ ok x
]

module _ (floats : FloatOps) (rounding : Rounding) where
  -- `sum`, from an accumulator.
  unfoldable pub sum_floats : Float → List Float → Float
  sum_floats acc [] = acc
  sum_floats acc (x ∷ xs) = sum_floats (floats.add acc x) xs

  -- `1.0 / math.log2(i + 2)`
  abbrev gain : ℕ → Float
  gain i = floats.div (floats.of_ℕ 1) (rounding.log2 (i + 2))

  -- The gains of the relevant documents from a position on.
  unfoldable pub gains_from : ℕ → List Text → List Text → List Float
  gains_from i [] relevant = []
  gains_from i (d ∷ ds) relevant =
      let rest = gains_from (i + 1) ds relevant in
      if contains relevant d then gain i ∷ rest else rest

  unfoldable pub ideal_gains : (i n : ℕ) → List Float
  ideal_gains i zero = []
  ideal_gains i (suc n) = gain i ∷ ideal_gains (i + 1) n

  unfoldable pub ndcg_at_k : (ranked relevant : List Text) (k : ℕ) → Float
  unfolding sum_floats gains_from ideal_gains
  ndcg_at_k ranked relevant k =
      let dcg = sum_floats (floats.of_ℕ 0) (gains_from 0 (take k ranked) relevant) in
      let idcg = sum_floats (floats.of_ℕ 0) (ideal_gains 0 (min (length relevant) k)) in
      if floats.lt (floats.of_ℕ 0) idcg then floats.div dcg idcg else floats.of_ℕ 0

  -- A value goes in front of the first one that is not less, so equal values keep their order.
  unfoldable pub insert_float : Float → List Float → List Float
  insert_float x [] = x ∷ []
  insert_float x (y ∷ ys) = if floats.lt y x then y ∷ insert_float x ys else x ∷ y ∷ ys

  unfoldable pub sort_floats : List Float → List Float
  unfolding insert_float
  sort_floats [] = []
  sort_floats (x ∷ xs) = insert_float x (sort_floats xs)

  -- The value at position `k` of the ordered values, between two of them by their distance.
  unfoldable pub interpolated : List Float → Float → Result Float
  unfolding float_at
  interpolated ordered k =
      let low = rounding.floor k in
      let high = rounding.ceil k in
      if low == high then float_at ordered low else (do
        below ← float_at ordered low
        above ← float_at ordered high
        ok (
            floats.add (floats.mul below (floats.sub (floats.of_ℕ high) k))
              (floats.mul above (floats.sub k (floats.of_ℕ low)))))

  unfoldable pub percentile : List Float → Float → Result Float
  unfolding sort_floats interpolated
  percentile [] p = ok (floats.of_ℕ 0)
  percentile (v ∷ values) p =
      interpolated (sort_floats (v ∷ values)) (floats.mul (floats.of_ℕ (length values)) p)

  unfoldable pub mean : List Float → Float
  unfolding sum_floats
  mean [] = floats.of_ℕ 0
  mean (x ∷ xs) = floats.div (sum_floats (floats.of_ℕ 0) (x ∷ xs)) (floats.of_ℕ (length (x ∷ xs)))

  insert_float-length : (x : Float) (ys : List Float) → length (insert_float x ys) ≡ suc (length ys)
  unfolding insert_float
  insert_float-length x [] = refl
  insert_float-length x (y ∷ ys) = elim (Bool-cases (floats.lt y x)) [
    | inl less ↦ rw (less, insert_float) (ap suc (insert_float-length x ys))
    | inr other ↦ rw (other, insert_float) refl
  ]

  sort_floats-length : (xs : List Float) → length (sort_floats xs) ≡ length xs
  unfolding sort_floats
  sort_floats-length [] = refl
  sort_floats-length (x ∷ xs) =
      insert_float-length x (sort_floats xs) ∙ ap suc (sort_floats-length xs)

  float_at-total : (xs : List Float) (i : ℕ) → i < length xs → (x : Float) × (float_at xs i ≡ ok x)
  unfolding float_at
  float_at-total xs i h = let (x, at) = get_elem?_total xs i h in (x, rw (at, float_at) refl)

  interpolated-total :
      (ordered : List Float) (k below above : Float)
      → float_at ordered (rounding.floor k) ≡ ok below
      → float_at ordered (rounding.ceil k) ≡ ok above
      → (x : Float) × (interpolated ordered k ≡ ok x)
  unfolding interpolated
  interpolated-total ordered k below above low high =
      elim (Bool-cases (rounding.floor k == rounding.ceil k)) [
        | inl same ↦ (below, rw (same, interpolated) low)
        | inr other ↦ (
          floats.add (floats.mul below (floats.sub (floats.of_ℕ (rounding.ceil k)) k))
              (floats.mul above (floats.sub k (floats.of_ℕ (rounding.floor k)))),
          rw (other, interpolated) (rw (low, high) refl),
        )
      ]

  -- A percentile of any latencies exists: where the position (n - 1) * p rounds to at most n - 1,
  -- both ways, the ordered values are never indexed out of range.
  pub percentile_total :
      (values : List Float) (p : Float)
      → rounding.floor (floats.mul (floats.of_ℕ (length values - 1)) p) ≤ length values - 1
      → rounding.ceil (floats.mul (floats.of_ℕ (length values - 1)) p) ≤ length values - 1
      → (x : Float) × (percentile values p ≡ ok x)
  unfolding percentile interpolated
  percentile_total [] p lower upper = (floats.of_ℕ 0, refl)
  percentile_total (v ∷ values) p lower upper =
      let n : suc (length values) - 1 ≡ length values = omega arith in
      let k = floats.mul (floats.of_ℕ (length values)) p in
      let ordered = sort_floats (v ∷ values) in
      let size : length ordered ≡ suc (length values) = sort_floats-length (v ∷ values) in
      let low : rounding.floor k ≤ length values = rw n at lower in
      let high : rounding.ceil k ≤ length values = rw n at upper in
      let (below, at_low) = float_at-total ordered (rounding.floor k) (omega arith) in
      let (above, at_high) = float_at-total ordered (rounding.ceil k) (omega arith) in
      interpolated-total ordered k below above at_low at_high
