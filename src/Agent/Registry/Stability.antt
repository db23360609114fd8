-- ===== src/Agent/Registry/Stability.antt =====
-- Indices, once given, stay: `get`, `add` and adding again.
use mathlib.Core.List.{append-nil}
use grounded_ops_agent.Agent.Registry.{
  CitationEntry, CitationRegistry, make_entry, add_chunk, add, get,
}
use grounded_ops_agent.Agent.Registry.Invariant.{
  IsIndexed, Numbered-get_elem?, length-order, add_chunk_new, add_chunk_old, add_chunk-IsIndexed,
  add-IsIndexed,
}
use grounded_ops_agent.Core.Errors.{ok}
use grounded_ops_agent.Prelude.{
  ℕ, zero, suc, ◌+◌, ◌-◌, ◌≤◌, ◌≡◌, refl, sym, ap, ◌∙◌, subst, inl, inr, none, some, List, [], ◌∷◌,
  ◌++◌, arith, ltb, tests, Bool-cases, Option-cases, length, get_elem?, get_elem?-append_left,
  get_elem?-append_length, get_elem?-lt, get_elem?_total, nat_eq, Text, text_eq,
}
use grounded_ops_agent.Prelude.Dict.{lookup, get_elem?-keys, lookup-get_elem?, lookup_position}
use grounded_ops_agent.Retrieval.Types.{RetrievedChunk}

module _ {r : CitationRegistry} (v : IsIndexed r) where
  pub lookup_at :
      (i : ℕ) {k : Text} {e : CitationEntry}
      → get_elem? r.by_chunk i ≡ some (k, e)
      → lookup k r.by_chunk ≡ some e
  lookup_at i h = lookup-get_elem? r.by_chunk i v.distinct h

  pub get_at :
      (i : ℕ) {k : Text} {e : CitationEntry}
      → get_elem? r.by_chunk i ≡ some (k, e)
      → get r (suc i) ≡ ok (some e)
  unfolding get
  get_at i {k} {e} h =
      let at : get_elem? r.order i ≡ some k = rw (← v.listed) (get_elem?-keys r.by_chunk i h) in
      ground (
        arith,
        at,
        lookup_at i h,
        get_elem?-lt r.order i at,
        ap (λ j. get_elem? r.order j) (pred_suc i),
      )
    where
      pred_suc : (i : ℕ) → suc i - 1 ≡ i
      pred_suc i = omega arith

  pub get_zero : get r 0 ≡ ok none
  unfolding get
  get_zero = refl

  get_past : (i : ℕ) → length r.by_chunk ≤ i → get r (suc i) ≡ ok none
  unfolding get
  get_past i h = ground (arith, length-order v)

  pub get_position :
      (j : ℕ) {e : CitationEntry}
      → get r j ≡ ok (some e)
      → (i : ℕ) × (k : Text) × (j ≡ suc i) × (get_elem? r.by_chunk i ≡ some (k, e))
  get_position zero h = cc get_zero
  get_position (suc i) {e} h = elim (Bool-cases (ltb i (length r.by_chunk))) [
    | inr off ↦ cc (get_past i (ground arith))
    | inl on ↦
        let ((k, f), at) = get_elem?_total r.by_chunk i (omega tests) in
        (i, k, refl, cc (at, get_at i at))
  ]

  -- An entry stands under its own index.
  pub get-index : (i : ℕ) {e : CitationEntry} → get r i ≡ ok (some e) → e.index ≡ i
  get-index i h =
      let (n, k, is, at) = get_position i h in
      omega (arith, is, (Numbered-get_elem? 1 r.by_chunk n v.numbered at).0)

  -- Two indices with the same chunk are the same index.
  get_injective :
      (i j : ℕ) {e f : CitationEntry}
      → get r i ≡ ok (some e)
      → get r j ≡ ok (some f)
      → e.chunk_id ≡ f.chunk_id
      → i ≡ j
  get_injective i j {e} {f} p q same =
      let (n, k, is, at) = get_position i p in
      let (m, l, js, there) = get_position j q in
      let ek = (Numbered-get_elem? 1 r.by_chunk n v.numbered at).1 in
      let fl = (Numbered-get_elem? 1 r.by_chunk m v.numbered there).1 in
      let found : lookup k r.by_chunk ≡ some f = cc (lookup_at m there, ek, fl, same) in
      let one : e ≡ f = cc (lookup_at n at, found) in
      sym (get-index i p) ∙ ap (λ (x : CitationEntry). x.index) one ∙ get-index j q

-- `add` only appends to the dict.
pub add_chunk_extends :
    {r : CitationRegistry} (v : IsIndexed r) (chunk : RetrievedChunk)
    → (more : List (Text × CitationEntry)) × ((add_chunk chunk r).0.by_chunk ≡ r.by_chunk ++ more)
add_chunk_extends {r} v chunk = elim (Option-cases (lookup chunk.chunk_id r.by_chunk)) [
  | inl new ↦ (_, ap (λ (x : CitationRegistry × ℕ). x.0.by_chunk) (add_chunk_new v chunk new))
  | inr (e, old) ↦ ([], rw (add_chunk_old v chunk e old) (sym (append-nil r.by_chunk)))
]

get-add_chunk :
    {r : CitationRegistry} (v : IsIndexed r) (chunk : RetrievedChunk) (i : ℕ) {e : CitationEntry}
    → get r i ≡ ok (some e)
    → get (add_chunk chunk r).0 i ≡ ok (some e)
get-add_chunk {r} v chunk i h =
    let (n, k, is, at) = get_position v i h in
    let (more, longer) = add_chunk_extends v chunk in
    rw is (
      get_at (add_chunk-IsIndexed v chunk) n {k = k}
        (rw longer (get_elem?-append_left r.by_chunk more n (get_elem?-lt r.by_chunk n at) ∙ at)))

-- Indices never shift: an entry that a registry has under an index is under that index after any
-- further chunks are added, with the same content.
pub get-add :
    (chunks : List RetrievedChunk) (r : CitationRegistry) (i : ℕ) (e : CitationEntry)
    → IsIndexed r
    → get r i ≡ ok (some e)
    → get (add chunks r).0 i ≡ ok (some e)
unfolding add
get-add [] r i e v h = h
get-add (chunk ∷ chunks) r i e v h =
    get-add chunks (add_chunk chunk r).0 i e (add_chunk-IsIndexed v chunk)
      (get-add_chunk v chunk i h)

-- Each index of a list leads to an entry of the chunk at its place.
abbrev pub Labels : CitationRegistry → List RetrievedChunk → List ℕ → Type 0
Labels r [] [] = Unit
Labels r (c ∷ cs) (i ∷ is) =
    ((e : CitationEntry) × (get r i ≡ ok (some e)) × (e.chunk_id ≡ c.chunk_id)) × Labels r cs is
Labels r _ _ = ⊥

add_chunk-index_new :
    {r : CitationRegistry} (v : IsIndexed r) (chunk : RetrievedChunk)
    → lookup chunk.chunk_id r.by_chunk ≡ none
    → (add_chunk chunk r).1 ≡ suc (length r.by_chunk)
add_chunk-index_new v chunk new =
    ap (λ (x : CitationRegistry × ℕ). x.1) (add_chunk_new v chunk new) ∙ omega arith

get-add_chunk_new :
    {r : CitationRegistry} (v : IsIndexed r) (chunk : RetrievedChunk)
    → lookup chunk.chunk_id r.by_chunk ≡ none
    → get (add_chunk chunk r).0 (suc (length r.by_chunk))
      ≡ ok (some (make_entry (length r.by_chunk + 1) chunk))
get-add_chunk_new {r} v chunk new =
    get_at (add_chunk-IsIndexed v chunk) (length r.by_chunk) {k = chunk.chunk_id}
      (rw (add_chunk_new v chunk new) (get_elem?-append_length r.by_chunk _ []))

add_chunk_labels :
    {r : CitationRegistry} (v : IsIndexed r) (chunk : RetrievedChunk)
    → let (r', i) = add_chunk chunk r in
      (e : CitationEntry) × (get r' i ≡ ok (some e)) × (e.chunk_id ≡ chunk.chunk_id)
unfolding make_entry
add_chunk_labels {r} v chunk = elim (Option-cases (lookup chunk.chunk_id r.by_chunk)) [
  | inl new ↦ (
    make_entry (length r.by_chunk + 1) chunk,
    cc (add_chunk-index_new v chunk new, get-add_chunk_new v chunk new),
    refl,
  )
  | inr (e, old) ↦
      let (i, at) = lookup_position chunk.chunk_id r.by_chunk old in
      let (here, same) = Numbered-get_elem? 1 r.by_chunk i v.numbered at in
      let here' : e.index ≡ suc i = omega (arith, here) in
      (e, cc (add_chunk_old v chunk e old, here', get_at v i at), same)
]

Labels-add :
    (more : List RetrievedChunk) (r : CitationRegistry)
    → IsIndexed r
    → (chunks : List RetrievedChunk) (is : List ℕ) → Labels r chunks is
    → Labels (add more r).0 chunks is
Labels-add more r v [] [] h = tt
Labels-add more r v (c ∷ cs) (i ∷ is) h =
    let ((e, at, same), rest) = h in
    ((e, get-add more r i e v at, same), Labels-add more r v cs is rest)
Labels-add more r v [] (i ∷ is) h = h
Labels-add more r v (c ∷ cs) [] h = h

-- `add` returns one index for each chunk, in the order of the input, and under each index `get`
-- finds the entry of that chunk.
pub add-Labels :
    (chunks : List RetrievedChunk) (r : CitationRegistry)
    → IsIndexed r
    → Labels (add chunks r).0 chunks (add chunks r).1
unfolding add
add-Labels [] r v = tt
add-Labels (chunk ∷ chunks) r v =
    let (r', i) = add_chunk chunk r in
    let v' = add_chunk-IsIndexed v chunk in
    let (e, at, same) = add_chunk_labels v chunk in
    ((e, get-add chunks r' i e v' at, same), add-Labels chunks r' v')

add_labelled :
    (chunks : List RetrievedChunk) (is : List ℕ) (r : CitationRegistry)
    → IsIndexed r
    → Labels r chunks is
    → add chunks r ≡ (r, is)
unfolding add
add_labelled [] [] r v h = refl
add_labelled [] (i ∷ is) r v h = absurd h
add_labelled (c ∷ cs) [] r v h = absurd h
add_labelled (c ∷ cs) (i ∷ is) r v h =
    let ((e, at, same), rest) = h in
    let (n, k, _, there) = get_position v i at in
    let (_, own) = Numbered-get_elem? 1 r.by_chunk n v.numbered there in
    let found : lookup c.chunk_id r.by_chunk ≡ some e =
      subst (λ (x : Text). lookup x r.by_chunk ≡ some e) (sym own ∙ same) (lookup_at v n there) in
    rw (add_chunk_old v c e found) (rw (add_labelled cs is r v rest, get-index v i at))

-- Adding the same chunks again changes nothing and returns the same indices.
pub add_idem :
    (chunks : List RetrievedChunk) (r : CitationRegistry)
    → IsIndexed r
    → add chunks (add chunks r).0 ≡ add chunks r
add_idem chunks r v =
    add_labelled chunks (add chunks r).1 (add chunks r).0 (add-IsIndexed chunks r v)
      (add-Labels chunks r v)
