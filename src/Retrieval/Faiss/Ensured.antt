-- ===== src/Retrieval/Faiss/Ensured.antt =====
-- The store over its life: builds, loads, `ensure` and restarts of the process in any order.
use grounded_ops_agent.Core.Effects.{bind-ok, state-returns}
use grounded_ops_agent.Core.Errors.{Result, ok, raise, Result-cases}
use grounded_ops_agent.Prelude.{
  ℕ, zero, suc, ◌≡◌, refl, sym, subst, ◌⊎◌, inl, inr, Bool, true, false, ◌&&◌, none, some, List, [],
  ◌∷◌, arith, Bool-cases, get_elem?, ◌==◌, Text, nat_eq, text_eq, contains, beq_refl,
}
use grounded_ops_agent.Prelude.Dict.{keys, insert}
use grounded_ops_agent.Retrieval.Faiss.{ChunkMeta, FaissLib, FaissStore}
use grounded_ops_agent.Retrieval.Faiss.Build.{
  JsonFiles, Disk, meta_of, metas_from, ids_of, State, index_of, files_of, built, build, load,
  rebuild_from_pg, is_model, rebuild_unless, ensure, new_store,
}
use grounded_ops_agent.Retrieval.Faiss.Persisted.{
  RoundTrips, build-ok, build-raise, load-files, load-files_mismatch,
}
use grounded_ops_agent.Retrieval.Pgvector.{StoredChunk, load_all}

contains-insert :
    (new k : Text) (v : ChunkMeta) (m : List (Text × ChunkMeta))
    → contains (keys m) k ≡ true
    → contains (keys (insert new v m)) k ≡ true
unfolding insert
contains-insert new k v [] h = cc h
contains-insert new k v ((j, w) ∷ m) h = ground (arith, contains-insert new k v m)

contains-insert_new :
    (new : Text) (v : ChunkMeta) (m : List (Text × ChunkMeta))
    → contains (keys (insert new v m)) new ≡ true
unfolding insert
contains-insert_new new v [] = ground (arith, beq_refl new)
contains-insert_new new v ((j, w) ∷ m) = ground (arith, contains-insert_new new v m)

contains-metas_from_old :
    (cs : List StoredChunk) (m : List (Text × ChunkMeta)) (k : Text)
    → contains (keys m) k ≡ true
    → contains (keys (metas_from cs m)) k ≡ true
unfolding metas_from
contains-metas_from_old [] m k h = h
contains-metas_from_old (c ∷ cs) m k h =
    contains-metas_from_old cs (insert c.chunk_id (meta_of c) m) k
      (contains-insert c.chunk_id k (meta_of c) m h)

contains-metas_from :
    (cs : List StoredChunk) (m : List (Text × ChunkMeta)) (i : ℕ) {k : Text}
    → get_elem? (ids_of cs) i ≡ some k
    → contains (keys (metas_from cs m)) k ≡ true
unfolding metas_from
contains-metas_from [] m i h = cc h
contains-metas_from (c ∷ cs) m zero {k} h =
    let e : c.chunk_id ≡ k = ground arith in
    subst (λ x. contains (keys (metas_from cs (insert c.chunk_id (meta_of c) m))) x ≡ true) e
      (contains-metas_from_old cs (insert c.chunk_id (meta_of c) m) c.chunk_id
        (contains-insert_new c.chunk_id (meta_of c) m))
contains-metas_from (c ∷ cs) m (suc i) h =
    contains-metas_from cs (insert c.chunk_id (meta_of c) m) i h

-- Each id of the mapping has its metadata.
abbrev pub IsSynced : {Index : Type 0} → FaissStore Index → Type 0
IsSynced s = (i : ℕ) (k : Text) → get_elem? s.id_map i ≡ some k → contains (keys s.meta) k ≡ true

module _ {Index MapText : Type 0} (lib : FaissLib Index) (json : JsonFiles MapText) where
  -- The files are absent, or those of a synced store.
  abbrev pub IsWritten : Disk MapText → Type 0
  IsWritten d =
      (d.index_file ≡ none)
      ⊎ ((t : FaissStore Index) × (index : Index) × (t.index ≡ some index)
          × IsSynced t
          × (d ≡ files_of lib json index t))

  pub record IsSound (st : State lib json) : Type 0 where
    pub synced : IsSynced st.0
    pub written : IsWritten st.1

  -- What happens to a store.
  pub data Step : State lib json → State lib json → Type 0 where
    build_step :
        (chunks : List StoredChunk) (model : Text) (st : State lib json)
        → Step st (build lib json chunks model st).1
    load_step : (st : State lib json) → Step st (load lib json st).1
    ensure_step :
        (load_all : Result (List StoredChunk)) (model : Text) (st : State lib json)
        → Step st (ensure lib json load_all model st).1
    restart :
        (dim : ℕ) (index_type : Text) (st : State lib json)
        → Step st (new_store lib json dim index_type, st.1)

  pub data Reach : State lib json → Type 0 where
    first_start :
        (dim : ℕ) (index_type : Text)
        → Reach (new_store lib json dim index_type, record { index_file = none; map_file = none })
    next : {st st' : State lib json} → Reach st → Step st st' → Reach st'

  built-IsSound :
      (chunks : List StoredChunk) (model : Text) (index : Index) (s : FaissStore Index)
      → let s' = built lib json chunks model index s in IsSound (s', files_of lib json index s')
  unfolding built
  built-IsSound chunks model index s =
      let s' = built lib json chunks model index s in
      let synced_ : IsSynced s' = λ i k e. contains-metas_from chunks [] i e in
      record { synced = synced_; written = inr (s', index, refl, synced_, refl) }

  build-IsSound :
      (chunks : List StoredChunk) (model : Text) (st : State lib json)
      → IsSound st
      → IsSound (build lib json chunks model st).1
  build-IsSound chunks model (s, d) h = elim (Result-cases (index_of lib json s chunks)) [
    | inr (x, e) ↦
        subst (λ (r : Result ℕ × State lib json). IsSound r.1)
          (sym (build-raise lib json chunks model s d e)) h
    | inl (index, e) ↦
        subst (λ (r : Result ℕ × State lib json). IsSound r.1)
          (sym (build-ok lib json chunks model s d e)) (built-IsSound chunks model index s)
  ]

  module _ (trips : RoundTrips lib json) where
    -- What loading does: nothing, or it gives the store that was written.
    abbrev pub Loaded : State lib json → Type 0
    Loaded st =
        (load lib json st ≡ (ok false, st))
        ⊎ ((t : FaissStore Index) × (index : Index) × (load lib json st ≡ (ok true, (t, st.1)))
            × (t.index ≡ some index)
            × (t.dim ≡ st.0.dim)
            × IsSynced t)

    pub load-Loaded : (st : State lib json) → IsSound st → Loaded st
    unfolding load
    load-Loaded (s, d) h = elim h.written [
      | inl none_ ↦ inl (rw (none_, load) refl)
      | inr (t, index, i, synced_, e) ↦
          subst (λ x. Loaded (s, x)) (sym e)
            (elim (Bool-cases (t.dim == s.dim)) [
              | inl same ↦ inr (
                t,
                index,
                load-files lib json trips index t s i ((nat_eq.beq_iff t.dim s.dim).0 same),
                i,
                (nat_eq.beq_iff t.dim s.dim).0 same,
                synced_,
              )
              | inr other ↦ inl (load-files_mismatch lib json trips index t s other)
            ])
    ]

    load-IsSound : (st : State lib json) → IsSound st → IsSound (load lib json st).1
    load-IsSound st h = elim (load-Loaded st h) [
      | inl e ↦ subst (λ (r : Result Bool × State lib json). IsSound r.1) (sym e) h
      | inr (t, index, e, i, _, synced_) ↦
          subst (λ (r : Result Bool × State lib json). IsSound r.1) (sym e)
            (record { synced = synced_; written = h.written })
    ]

    rebuild-IsSound :
        (load_all : Result (List StoredChunk)) (model : Text) (fresh : Bool) (st : State lib json)
        → IsSound st
        → IsSound (rebuild_unless lib json fresh load_all model st).1
    unfolding rebuild_unless rebuild_from_pg
    rebuild-IsSound load_all model true st h = h
    rebuild-IsSound (raise e) model false st h = h
    rebuild-IsSound (ok chunks) model false st h =
        subst IsSound (sym (state-returns (build lib json chunks model) tt st))
          (build-IsSound chunks model st h)

    pub ensure-loaded :
        (load_all : Result (List StoredChunk)) (model : Text) (st st' : State lib json) (b : Bool)
        → load lib json st ≡ (ok b, st')
        → ensure lib json load_all model st
          ≡ rebuild_unless lib json
              (b && is_model lib json st'.0.embedding_model model)
              load_all
              model
              st'
    unfolding ensure
    ensure-loaded load_all model st st' b e =
        bind-ok (load lib json)
          (λ loaded (u : State lib json).
            rebuild_unless lib json (loaded && is_model lib json u.0.embedding_model model) load_all
              model u)
          st e

    ensure-IsSound :
        (load_all : Result (List StoredChunk)) (model : Text) (st : State lib json)
        → IsSound st
        → IsSound (ensure lib json load_all model st).1
    ensure-IsSound load_all model st h = elim (load-Loaded st h) [
      | inl e ↦
          subst (λ (r : Result Unit × State lib json). IsSound r.1)
            (sym (ensure-loaded load_all model st st false e))
            (rebuild-IsSound load_all model false st h)
      | inr (t, index, e, i, _, synced_) ↦
          subst (λ (r : Result Unit × State lib json). IsSound r.1)
            (sym (ensure-loaded load_all model st (t, st.1) true e))
            (rebuild-IsSound load_all model (is_model lib json t.embedding_model model) (t, st.1)
              (record { synced = synced_; written = h.written }))
    ]

    Step-IsSound : {st st' : State lib json} → Step st st' → IsSound st → IsSound st'
    unfolding new_store
    Step-IsSound (build_step chunks model st) h = build-IsSound chunks model st h
    Step-IsSound (load_step st) h = load-IsSound st h
    Step-IsSound (ensure_step load_all model st) h = ensure-IsSound load_all model st h
    Step-IsSound (restart dim index_type st) h = record {
      synced = λ i k e. cc e;
      written = h.written;
    }

    pub Reach-IsSound : {st : State lib json} → Reach st → IsSound st
    unfolding new_store
    Reach-IsSound (first_start dim index_type) = record {
      synced = λ i k e. cc e;
      written = inl refl;
    }
    Reach-IsSound (next r step) = Step-IsSound step (Reach-IsSound r)
