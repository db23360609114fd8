-- ===== src/Retrieval/Rrf/Fused.antt =====
-- Which chunks a fusion holds.
use grounded_ops_agent.Prelude.{
  ℕ, ◌+◌, ◌≡◌, refl, ap, ◌∙◌, subst, ◌⊎◌, inl, inr, true, false, ◌||◌, none, List, [], ◌∷◌, ◌++◌,
  map, arith, Bool-cases, concat, ◌==◌, Text, nat_eq, text_eq, contains, Distinct, contains-append,
  Distinct-snoc,
}
use grounded_ops_agent.Prelude.Dict.{keys, values, keys-append}
use grounded_ops_agent.Prelude.Float.{Float, FloatOps}
use grounded_ops_agent.Retrieval.Rrf.{
  Fusion, empty_fusion, set_default, count_chunk, count_ranking, count_rankings, key_lt,
  insert_ranked, sort_ranked, rescored, reciprocal_rank_fusion,
}
use grounded_ops_agent.Retrieval.Types.{RetrievedChunk}

abbrev pub chunk_ids : List RetrievedChunk → List Text
chunk_ids cs = map (λ (c : RetrievedChunk). c.chunk_id) cs

chunk_ids-append :
    (cs ds : List RetrievedChunk) → chunk_ids (cs ++ ds) ≡ chunk_ids cs ++ chunk_ids ds
chunk_ids-append [] ds = refl
chunk_ids-append (c ∷ cs) ds = ap (λ r. c.chunk_id ∷ r) (chunk_ids-append cs ds)

values-append : (m n : List (Text × RetrievedChunk)) → values (m ++ n) ≡ values m ++ values n
values-append [] n = refl
values-append ((k, c) ∷ m) n = ap (λ r. c ∷ r) (values-append m n)

-- Each chunk is under its own id, and no id is there twice.
pub record IsKeyed (m : List (Text × RetrievedChunk)) : Type 0 where
  pub distinct : Distinct (keys m)
  pub own : chunk_ids (values m) ≡ keys m

set_default-snoc :
    (c : RetrievedChunk) (m : List (Text × RetrievedChunk))
    → IsKeyed m
    → contains (keys m) c.chunk_id ≡ false
    → IsKeyed (m ++ (c.chunk_id, c) ∷ [])
set_default-snoc c m v new = record {
  distinct =
      rw (keys-append m ((c.chunk_id, c) ∷ [])) (Distinct-snoc (keys m) c.chunk_id v.distinct new);
  own =
      let e = values-append m ((c.chunk_id, c) ∷ []) in
      let k = chunk_ids-append (values m) (c ∷ []) in
      cc (e, k, v.own, keys-append m ((c.chunk_id, c) ∷ []));
}

set_default-IsKeyed :
    (c : RetrievedChunk) (m : List (Text × RetrievedChunk)) → IsKeyed m → IsKeyed (set_default c m)
unfolding set_default
set_default-IsKeyed c m v = elim (Bool-cases (contains (keys m) c.chunk_id)) [
  | inl old ↦ rw (old, set_default) v
  | inr new ↦ rw (new, set_default) (set_default-snoc c m v new)
]

keys-set_default :
    (c : RetrievedChunk) (m : List (Text × RetrievedChunk)) (i : Text)
    → contains (keys (set_default c m)) i ≡ (contains (keys m) i || c.chunk_id == i)
unfolding set_default
keys-set_default c m i = elim (Bool-cases (contains (keys m) c.chunk_id)) [
  | inl old ↦ rw (old, set_default) (already (Bool-cases (c.chunk_id == i)) old)
  | inr new ↦
      rw (new, set_default)
        (rw (keys-append m ((c.chunk_id, c) ∷ []))
          (contains-append (keys m) (c.chunk_id ∷ []) i ∙ ground arith))
]
  where
    already :
        ((c.chunk_id == i) ≡ true) ⊎ ((c.chunk_id == i) ≡ false)
        → contains (keys m) c.chunk_id ≡ true
        → contains (keys m) i ≡ (contains (keys m) i || c.chunk_id == i)
    already (inl same) old =
        let e = (text_eq.beq_iff c.chunk_id i).0 same in
        let k : contains (keys m) i ≡ true = subst (λ x. contains (keys m) x ≡ true) e old in
        ground arith
    already (inr other) old = ground arith

module _ (floats : FloatOps) (k : ℕ) where
  count_ranking-IsKeyed :
      (rank : ℕ) (cs : List RetrievedChunk) (f : Fusion)
      → IsKeyed f.representative
      → IsKeyed (count_ranking floats k rank cs f).representative
  unfolding count_ranking count_chunk
  count_ranking-IsKeyed rank [] f v = v
  count_ranking-IsKeyed rank (c ∷ cs) f v =
      count_ranking-IsKeyed (rank + 1) cs (count_chunk floats k rank c f)
        (set_default-IsKeyed c f.representative v)

  count_rankings-IsKeyed :
      (rankings : List (List RetrievedChunk)) (f : Fusion)
      → IsKeyed f.representative
      → IsKeyed (count_rankings floats k rankings f).representative
  unfolding count_rankings
  count_rankings-IsKeyed [] f v = v
  count_rankings-IsKeyed (cs ∷ rankings) f v =
      count_rankings-IsKeyed rankings (count_ranking floats k 1 cs f)
        (count_ranking-IsKeyed 1 cs f v)

  keys-count_ranking :
      (rank : ℕ) (cs : List RetrievedChunk) (f : Fusion) (i : Text)
      → contains (keys (count_ranking floats k rank cs f).representative) i
        ≡ (contains (keys f.representative) i || contains (chunk_ids cs) i)
  unfolding count_ranking count_chunk
  keys-count_ranking rank [] f i = ground arith
  keys-count_ranking rank (c ∷ cs) f i =
      let ih = keys-count_ranking (rank + 1) cs (count_chunk floats k rank c f) i in
      let here = keys-set_default c f.representative i in
      ih ∙ ap (λ b. b || contains (chunk_ids cs) i) here ∙ ground arith

  keys-count_rankings :
      (rankings : List (List RetrievedChunk)) (f : Fusion) (i : Text)
      → contains (keys (count_rankings floats k rankings f).representative) i
        ≡ (contains (keys f.representative) i || contains (chunk_ids (concat rankings)) i)
  unfolding count_rankings
  keys-count_rankings [] f i = ground arith
  keys-count_rankings (cs ∷ rankings) f i =
      let ih = keys-count_rankings rankings (count_ranking floats k 1 cs f) i in
      let here = keys-count_ranking 1 cs f i in
      let both = contains-append (chunk_ids cs) (chunk_ids (concat rankings)) i in
      let joined = ap (λ x. contains x i) (chunk_ids-append cs (concat rankings)) in
      ih
      ∙ ap (λ b. b || contains (chunk_ids (concat rankings)) i) here
      ∙ ground (arith, both, joined)

module _ (floats : FloatOps) (scores : List (Text × Float)) where
  contains-insert_ranked :
      (c : RetrievedChunk) (ds : List RetrievedChunk) (i : Text)
      → contains (chunk_ids (insert_ranked floats scores c ds)) i
        ≡ (c.chunk_id == i || contains (chunk_ids ds) i)
  unfolding insert_ranked
  contains-insert_ranked c [] i = ground arith
  contains-insert_ranked c (d ∷ ds) i =
      elim (Bool-cases (key_lt floats scores c.chunk_id d.chunk_id)) [
        | inr e ↦ rw (e, insert_ranked) refl
        | inl e ↦ rw (e, insert_ranked) (ground (arith, contains-insert_ranked c ds i))
      ]

  Distinct-insert_ranked :
      (c : RetrievedChunk) (ds : List RetrievedChunk)
      → contains (chunk_ids ds) c.chunk_id ≡ false
      → Distinct (chunk_ids ds)
      → Distinct (chunk_ids (insert_ranked floats scores c ds))
  unfolding insert_ranked
  Distinct-insert_ranked c [] new d = (refl, tt)
  Distinct-insert_ranked c (e ∷ ds) new d =
      elim (Bool-cases (key_lt floats scores c.chunk_id e.chunk_id)) [
        | inr k ↦ rw (k, insert_ranked) (new, d)
        | inl k ↦
            rw (k, insert_ranked)
              (
                contains-insert_ranked c ds e.chunk_id
                    ∙ ground (
                      arith,
                      d.0,
                      text_eq.beq_iff c.chunk_id e.chunk_id,
                      text_eq.beq_iff e.chunk_id c.chunk_id,
                    ),
                Distinct-insert_ranked c ds (ground arith) d.1,
              )
      ]

  contains-sort_ranked :
      (cs : List RetrievedChunk) (i : Text)
      → contains (chunk_ids (sort_ranked floats scores cs)) i ≡ contains (chunk_ids cs) i
  unfolding sort_ranked
  contains-sort_ranked [] i = refl
  contains-sort_ranked (c ∷ cs) i =
      contains-insert_ranked c (sort_ranked floats scores cs) i
      ∙ ap (λ b. c.chunk_id == i || b) (contains-sort_ranked cs i)

  Distinct-sort_ranked :
      (cs : List RetrievedChunk)
      → Distinct (chunk_ids cs)
      → Distinct (chunk_ids (sort_ranked floats scores cs))
  unfolding sort_ranked
  Distinct-sort_ranked [] d = tt
  Distinct-sort_ranked (c ∷ cs) d =
      Distinct-insert_ranked c (sort_ranked floats scores cs)
        (contains-sort_ranked cs c.chunk_id ∙ d.0) (Distinct-sort_ranked cs d.1)

  chunk_ids-rescored :
      (cs : List RetrievedChunk) → chunk_ids (map (rescored floats scores) cs) ≡ chunk_ids cs
  unfolding rescored
  chunk_ids-rescored [] = refl
  chunk_ids-rescored (c ∷ cs) = ap (λ r. c.chunk_id ∷ r) (chunk_ids-rescored cs)

-- The fusion of ranked lists, uncut, holds each chunk id that occurs in one of them, once, and no
-- other, however the float operations round and compare.
pub reciprocal_rank_fusion-ids :
    (floats : FloatOps) (rankings : List (List RetrievedChunk)) (k : ℕ)
    → let fused = reciprocal_rank_fusion floats rankings k none in
      Distinct (chunk_ids fused)
      × ((i : Text) → contains (chunk_ids fused) i ≡ contains (chunk_ids (concat rankings)) i)
unfolding reciprocal_rank_fusion
reciprocal_rank_fusion-ids floats rankings k =
    let f = count_rankings floats k rankings empty_fusion in
    let keyed =
      count_rankings-IsKeyed floats k rankings empty_fusion
        (record { distinct = tt; own = refl }) in
    let ranked = sort_ranked floats f.scores (values f.representative) in
    let same = chunk_ids-rescored floats f.scores ranked in
    (
      rw same (
          Distinct-sort_ranked floats f.scores (values f.representative)
            (rw keyed.own keyed.distinct)),
      λ i.
          ap (λ x. contains x i) same
          ∙ contains-sort_ranked floats f.scores (values f.representative) i
          ∙ ap (λ x. contains x i) keyed.own
          ∙ keys-count_rankings floats k rankings empty_fusion i,
    )
