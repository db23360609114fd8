-- ===== src/Prelude/Dict.antt =====
-- A Python dict: an association list in insertion order. Writing a key that is there keeps its place.
use grounded_ops_agent.Prelude.{
  ℕ, zero, suc, ◌≡◌, refl, ap, inl, inr, true, false, Option, none, some, List, [], ◌∷◌, ◌++◌,
  arith, if◌then◌else◌, Bool-cases, length, get_elem?, Eq, ◌==◌, nat_eq, text_eq, contains,
  Distinct, contains-get_elem?,
}

abbrev pub keys {ℓ κ} : {K : Type ℓ} {V : Type κ} → List (K × V) → List K
keys [] = []
keys ((k, v) ∷ m) = k ∷ keys m

abbrev pub values {ℓ κ} : {K : Type ℓ} {V : Type κ} → List (K × V) → List V
values [] = []
values ((k, v) ∷ m) = v ∷ values m

module _ {ℓ κ} {K : Type ℓ} {V : Type κ} ⦃e : Eq K⦄ where
  unfoldable pub lookup : K → List (K × V) → Option V
  lookup k [] = none
  lookup k ((j, v) ∷ m) = if j == k then some v else lookup k m

  unfoldable pub insert : K → V → List (K × V) → List (K × V)
  insert k v [] = (k, v) ∷ []
  insert k v ((j, w) ∷ m) = if j == k then (j, v) ∷ m else (j, w) ∷ insert k v m

  pub lookup-insert :
      (new asked : K) (v : V) (dict : List (K × V))
      → lookup asked (insert new v dict) ≡ (if new == asked then some v else lookup asked dict)
  unfolding lookup insert
  lookup-insert new asked v [] = refl
  lookup-insert new asked v ((held, w) ∷ dict) =
      let ih = lookup-insert new asked v dict in
      ground (arith, e.beq_iff new asked, e.beq_iff held new, e.beq_iff held asked, ih)

  -- A key is absent exactly where it looks up to nothing.
  pub lookup-eq-none : (k : K) (m : List (K × V)) → lookup k m ≡ none → contains (keys m) k ≡ false
  unfolding lookup
  lookup-eq-none k [] h = refl
  lookup-eq-none k ((j, v) ∷ m) h = ground (arith, lookup-eq-none k m)

  pub lookup-eq-some :
      (k : K) (m : List (K × V)) {v : V} → lookup k m ≡ some v → contains (keys m) k ≡ true
  unfolding lookup
  lookup-eq-some k [] h = ground arith
  lookup-eq-some k ((j, w) ∷ m) {v} h = ground (arith, lookup-eq-some k m {v = v})

  -- Writing a new key appends it.
  pub insert_new :
      (k : K) (v : V) (m : List (K × V)) → lookup k m ≡ none → insert k v m ≡ m ++ (k, v) ∷ []
  unfolding lookup insert
  insert_new k v [] h = refl
  insert_new k v ((j, w) ∷ m) h = ground (arith, insert_new k v m)

  pub keys-append : (m n : List (K × V)) → keys (m ++ n) ≡ keys m ++ keys n
  keys-append [] n = refl
  keys-append ((k, v) ∷ m) n = ap (λ r. k ∷ r) (keys-append m n)

  pub lookup-append_left :
      (k : K) (m n : List (K × V)) {v : V} → lookup k m ≡ some v → lookup k (m ++ n) ≡ some v
  unfolding lookup
  lookup-append_left k [] n h = ground arith
  lookup-append_left k ((j, w) ∷ m) n {v} h = ground (arith, lookup-append_left k m n {v = v})

  pub lookup-append_right :
      (k : K) (m n : List (K × V)) → lookup k m ≡ none → lookup k (m ++ n) ≡ lookup k n
  unfolding lookup
  lookup-append_right k [] n h = refl
  lookup-append_right k ((j, w) ∷ m) n h = ground (arith, lookup-append_right k m n)

  pub get_elem?-keys :
      (m : List (K × V)) (i : ℕ) {k : K} {v : V}
      → get_elem? m i ≡ some (k, v)
      → get_elem? (keys m) i ≡ some k
  get_elem?-keys [] i h = cc
  get_elem?-keys ((j, w) ∷ m) zero h = ground arith
  get_elem?-keys ((j, w) ∷ m) (suc i) h = get_elem?-keys m i h

  -- With distinct keys a lookup finds the pair at its place.
  pub lookup-get_elem? :
      (m : List (K × V)) (i : ℕ) {k : K} {v : V}
      → Distinct (keys m)
      → get_elem? m i ≡ some (k, v)
      → lookup k m ≡ some v
  unfolding lookup
  lookup-get_elem? [] i d h = cc
  lookup-get_elem? ((j, w) ∷ m) zero {k} d h = ground (arith, e.beq_iff j k)
  lookup-get_elem? ((j, w) ∷ m) (suc i) {k} {v} d h = ground (
    arith,
    lookup-get_elem? m i d.1 h,
    contains-get_elem? (keys m) i (get_elem?-keys m i h),
    e.beq_iff j k,
  )

  pub lookup_position :
      (k : K) (m : List (K × V)) {v : V}
      → lookup k m ≡ some v
      → (i : ℕ) × (get_elem? m i ≡ some (k, v))
  unfolding lookup
  lookup_position k [] h = cc
  lookup_position k ((j, w) ∷ m) {v} h = elim (Bool-cases (j == k)) [
    | inl same ↦ (0, ground (arith, e.beq_iff j k))
    | inr other ↦ let (i, at) = lookup_position k m {v = v} (ground arith) in (suc i, at)
  ]

  pub length-keys : (m : List (K × V)) → length (keys m) ≡ length m
  length-keys [] = refl
  length-keys ((k, v) ∷ m) = ap suc (length-keys m)
