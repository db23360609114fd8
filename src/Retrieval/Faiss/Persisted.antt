-- ===== src/Retrieval/Faiss/Persisted.antt =====
-- What `build` leaves behind, in the store and in the files, and what `_load` makes of the files.
use grounded_ops_agent.Core.Effects.{attempted-ok}
use grounded_ops_agent.Core.Errors.{Error, ok, raise, Result-cases}
use grounded_ops_agent.Prelude.{
  ℕ, ◌≡◌, refl, ap, ◌∙◌, inl, inr, true, false, some, List, arith, length, ◌==◌, Text, nat_eq,
  text_eq,
}
use grounded_ops_agent.Retrieval.Faiss.{FaissLib, FaissStore}
use grounded_ops_agent.Retrieval.Faiss.Build.{
  Sidecar, JsonFiles, Disk, State, index_of, sidecar_of, files_of, persist, built, build,
  take_fields, read_index_file, read_sidecar, load,
}
use grounded_ops_agent.Retrieval.Pgvector.{StoredChunk}

-- What is written is what is read.
pub record RoundTrips {Index MapText : Type 0} (lib : FaissLib Index) (json : JsonFiles MapText)
    : Type 0 where
  pub index : (i : Index) → lib.read_index (lib.write_index i) ≡ ok i
  pub sidecar : (x : Sidecar) → json.loads_sidecar (json.dumps_sidecar x) ≡ ok x

same_dim : (m n : ℕ) → m ≡ n → (m == n) ≡ true
same_dim m n e = ground arith

module _ {Index MapText : Type 0} (lib : FaissLib Index) (json : JsonFiles MapText) where
  pub build-ok :
      (chunks : List StoredChunk) (model : Text) (s : FaissStore Index) (d : Disk MapText)
      {index : Index}
      → index_of lib json s chunks ≡ ok index
      → let s' = built lib json chunks model index s in
        build lib json chunks model (s, d) ≡ (ok (length chunks), (s', files_of lib json index s'))
  unfolding build persist built
  build-ok chunks model s d e = rw (e, build) refl

  pub build-raise :
      (chunks : List StoredChunk) (model : Text) (s : FaissStore Index) (d : Disk MapText)
      {x : Error}
      → index_of lib json s chunks ≡ raise x
      → build lib json chunks model (s, d) ≡ (raise x, (s, d))
  unfolding build
  build-raise chunks model s d e = rw (e, build) refl

  -- A build that returned has set every field and has written both files.
  pub build-eq-ok :
      (chunks : List StoredChunk) (model : Text) (s : FaissStore Index) (d : Disk MapText) {n : ℕ}
      {s' : FaissStore Index} {d' : Disk MapText}
      → build lib json chunks model (s, d) ≡ (ok n, (s', d'))
      → (index : Index) × (s' ≡ built lib json chunks model index s)
        × (d' ≡ files_of lib json index s')
        × (n ≡ length chunks)
  build-eq-ok chunks model s d h = elim (Result-cases (index_of lib json s chunks)) [
    | inr (x, e) ↦ let k = build-raise chunks model s d e in cc (k, h)
    | inl (index, e) ↦
        let k = build-ok chunks model s d e in (index, cc (k, h), cc (k, h), cc (k, h))
  ]

  module _ (trips : RoundTrips lib json) where
    pub load-files :
        (index : Index) (s t : FaissStore Index)
        → s.index ≡ some index
        → s.dim ≡ t.dim
        → load lib json (t, files_of lib json index s) ≡ (ok true, (s, files_of lib json index s))
    unfolding load read_sidecar read_index_file take_fields files_of sidecar_of
    load-files index s t i e =
        let x = sidecar_of lib json s in
        let bytes = lib.write_index index in
        let st : State lib json = (t, files_of lib json index s) in
        attempted-ok (json.loads_sidecar (json.dumps_sidecar x)) (read_sidecar lib json bytes) st
          (trips.sidecar x)
        ∙ ap (λ b. read_index_file lib json b bytes x st) (same_dim s.dim t.dim e)
        ∙ attempted-ok (lib.read_index bytes) (take_fields lib json x) st (trips.index index)
        ∙ ap (λ u. (ok true, (u, files_of lib json index s))) (cc (e, i))

    -- A store of another dimension does not take the files.
    pub load-files_mismatch :
        (index : Index) (s t : FaissStore Index)
        → (s.dim == t.dim) ≡ false
        → load lib json (t, files_of lib json index s) ≡ (ok false, (t, files_of lib json index s))
    unfolding load read_sidecar read_index_file files_of sidecar_of
    load-files_mismatch index s t e =
        let x = sidecar_of lib json s in
        let bytes = lib.write_index index in
        let st : State lib json = (t, files_of lib json index s) in
        attempted-ok (json.loads_sidecar (json.dumps_sidecar x)) (read_sidecar lib json bytes) st
          (trips.sidecar x)
        ∙ ap (λ b. read_index_file lib json b bytes x st) e

    -- Loading gives the store that was built back: after a build that returned, a store of the same
    -- dimension that loads the files is equal to the one that was built, whatever it held before.
    pub load-build :
        (chunks : List StoredChunk) (model : Text) (s t : FaissStore Index) (d : Disk MapText)
        {n : ℕ} {s' : FaissStore Index} {d' : Disk MapText}
        → t.dim ≡ s.dim
        → build lib json chunks model (s, d) ≡ (ok n, (s', d'))
        → load lib json (t, d') ≡ (ok true, (s', d'))
    unfolding built
    load-build chunks model s t d {n} {s'} {d'} e h =
        let (index, store, files, _) = build-eq-ok chunks model s d h in
        let k = load-files index s' t (cc store) (cc (store, e)) in cc (k, files)
