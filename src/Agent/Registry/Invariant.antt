-- ===== src/Agent/Registry/Invariant.antt =====
-- The invariant of the citation registry, and what the dict and the order list say of one another.
use grounded_ops_agent.Agent.Registry.{
  CitationEntry, CitationRegistry, empty_registry, make_entry, add_found, add_chunk, add,
}
use grounded_ops_agent.Prelude.{
  ℕ, zero, suc, ◌+◌, ◌≡◌, refl, inl, inr, none, some, List, [], ◌∷◌, ◌++◌, arith, Option-cases,
  length, get_elem?, nat_eq, Text, text_eq, Distinct, Distinct-snoc,
}
use grounded_ops_agent.Prelude.Dict.{
  keys, lookup, lookup-eq-none, insert_new, keys-append, length-keys,
}
use grounded_ops_agent.Retrieval.Types.{RetrievedChunk}

-- The entries carry the indices from `n` on, each under its own chunk id.
abbrev pub Numbered : ℕ → List (Text × CitationEntry) → Type 0
Numbered n [] = Unit
Numbered n ((k, e) ∷ m) = (e.index ≡ n) × (e.chunk_id ≡ k) × Numbered (suc n) m

pub record IsIndexed (r : CitationRegistry) : Type 0 where
  pub listed : keys r.by_chunk ≡ r.order
  pub distinct : Distinct (keys r.by_chunk)
  pub numbered : Numbered 1 r.by_chunk

pub IsIndexed-empty : IsIndexed empty_registry
IsIndexed-empty = record { listed = refl; distinct = tt; numbered = tt }

Numbered-snoc :
    (n : ℕ) (m : List (Text × CitationEntry)) (k : Text) (e : CitationEntry)
    → Numbered n m
    → e.index ≡ n + length m
    → e.chunk_id ≡ k
    → Numbered n (m ++ (k, e) ∷ [])
Numbered-snoc n [] k e h p q = (omega (arith, p), q, tt)
Numbered-snoc n ((j, f) ∷ m) k e h p q =
    (h.0, h.1, Numbered-snoc (suc n) m k e h.2 (omega (arith, p)) q)

pub Numbered-get_elem? :
    (n : ℕ) (m : List (Text × CitationEntry)) (i : ℕ) {k : Text} {e : CitationEntry}
    → Numbered n m
    → get_elem? m i ≡ some (k, e)
    → (e.index ≡ n + i) × (e.chunk_id ≡ k)
Numbered-get_elem? n [] i h p = cc
Numbered-get_elem? n ((j, f) ∷ m) zero h p = ground arith
Numbered-get_elem? n ((j, f) ∷ m) (suc i) h p =
    let (a, b) = Numbered-get_elem? (suc n) m i h.2 p in (omega (arith, a), b)

module _ {r : CitationRegistry} (v : IsIndexed r) where
  pub length-order : length r.order ≡ length r.by_chunk
  length-order = rw (← v.listed) (length-keys r.by_chunk)

  -- A chunk that is new is appended with the next index.
  pub add_chunk_new :
      (chunk : RetrievedChunk)
      → lookup chunk.chunk_id r.by_chunk ≡ none
      → let n = length r.by_chunk + 1 in
        add_chunk chunk r ≡ (
          record {
            by_chunk = r.by_chunk ++ (chunk.chunk_id, make_entry n chunk) ∷ [];
            order = r.order ++ chunk.chunk_id ∷ [];
          },
          n,
        )
  unfolding add_chunk
  add_chunk_new chunk h =
      rw (h, add_found, length-order) (rw (insert_new chunk.chunk_id _ r.by_chunk h))

  add_chunk-IsIndexed_new :
      (chunk : RetrievedChunk)
      → lookup chunk.chunk_id r.by_chunk ≡ none
      → IsIndexed (add_chunk chunk r).0
  unfolding make_entry
  add_chunk-IsIndexed_new chunk h = rw (add_chunk_new chunk h) (record {
    listed = rw (keys-append r.by_chunk _, v.listed);
    distinct = rw (keys-append r.by_chunk _) (
        Distinct-snoc (keys r.by_chunk) chunk.chunk_id v.distinct
          (lookup-eq-none chunk.chunk_id r.by_chunk h));
    numbered = Numbered-snoc 1 r.by_chunk _ _ v.numbered (omega arith) refl;
  })

  -- A chunk that is known changes nothing and has the index of its entry.
  pub add_chunk_old :
      (chunk : RetrievedChunk) (e : CitationEntry)
      → lookup chunk.chunk_id r.by_chunk ≡ some e
      → add_chunk chunk r ≡ (r, e.index)
  unfolding add_chunk
  add_chunk_old chunk e h = rw (h, add_found)

  pub add_chunk-IsIndexed : (chunk : RetrievedChunk) → IsIndexed (add_chunk chunk r).0
  add_chunk-IsIndexed chunk = elim (Option-cases (lookup chunk.chunk_id r.by_chunk)) [
    | inl new ↦ add_chunk-IsIndexed_new chunk new
    | inr (e, old) ↦ rw (add_chunk_old chunk e old) v
  ]

-- Adding chunks keeps the registry well formed: one entry for each chunk id, numbered from 1 in the
-- order of arrival.
pub add-IsIndexed :
    (chunks : List RetrievedChunk) (r : CitationRegistry) → IsIndexed r → IsIndexed (add chunks r).0
unfolding add
add-IsIndexed [] r v = v
add-IsIndexed (chunk ∷ chunks) r v =
    add-IsIndexed chunks (add_chunk chunk r).0 (add_chunk-IsIndexed v chunk)
