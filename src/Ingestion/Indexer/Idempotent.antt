-- ===== src/Ingestion/Indexer/Idempotent.antt =====
-- Writing the same rows again.
use grounded_ops_agent.Core.Errors.{ok}
use grounded_ops_agent.Ingestion.Indexer.{
  ChunkRow, Table, upsert_row, upsert_rows, ids, is_distinct, upsert_chunks,
}
use grounded_ops_agent.Prelude.{
  ℕ, ◌≡◌, refl, sym, ap, ◌∙◌, inl, inr, true, false, List, [], ◌∷◌, map, arith, Bool-cases, All,
  ◌==◌, Text, nat_eq, text_eq, contains, Distinct, beq_refl,
}

abbrev head_or : ChunkRow → Table → ChunkRow
head_or d [] = d
head_or d (r ∷ rs) = r

abbrev tail_of : Table → Table
tail_of [] = []
tail_of (r ∷ rs) = rs

upsert_here :
    (row old : ChunkRow) (t : Table)
    → (old.chunk_id == row.chunk_id) ≡ true
    → upsert_row row (old ∷ t) ≡ record row { created_at = old.created_at } ∷ t
unfolding upsert_row
upsert_here row old t e = rw (e, upsert_row) refl

upsert_there :
    (row old : ChunkRow) (t : Table)
    → (old.chunk_id == row.chunk_id) ≡ false
    → upsert_row row (old ∷ t) ≡ old ∷ upsert_row row t
unfolding upsert_row
upsert_there row old t e = rw (e, upsert_row) refl

upsert_twice : (row : ChunkRow) → upsert_row row (upsert_row row []) ≡ upsert_row row []
unfolding upsert_row
upsert_twice row = upsert_here row row [] (beq_refl row.chunk_id)

upsert_row_idem :
    (row : ChunkRow) (t : Table) → upsert_row row (upsert_row row t) ≡ upsert_row row t
upsert_row_idem row [] = upsert_twice row
upsert_row_idem row (old ∷ t) = elim (Bool-cases (old.chunk_id == row.chunk_id)) [
  | inl e ↦
      let here = upsert_here row old t e in
      rw here
        (upsert_here row (record row { created_at = old.created_at }) t (beq_refl row.chunk_id))
  | inr e ↦
      let there = upsert_there row old t e in
      rw there
        (upsert_there row old (upsert_row row t) e ∙ ap (λ r. old ∷ r) (upsert_row_idem row t))
]

-- The table already holds the row, but for the time stamp.
abbrev Holds : Table → ChunkRow → Type 0
Holds t row = upsert_row row t ≡ t

Holds-nil : (b : ChunkRow) {P : Type 0} → Holds [] b → P
unfolding upsert_row
Holds-nil b h = cc

Holds-upsert_row :
    (a b : ChunkRow) (t : Table)
    → (a.chunk_id == b.chunk_id) ≡ false
    → Holds t b
    → Holds (upsert_row a t) b
Holds-upsert_row a b [] ne h = Holds-nil b h
Holds-upsert_row a b (old ∷ t) ne h = elim (Bool-cases (old.chunk_id == a.chunk_id)) [
  | inl is_a ↦
      let other : (old.chunk_id == b.chunk_id) ≡ false =
        ground (arith, text_eq.beq_iff old.chunk_id a.chunk_id) in
      let tail = ap tail_of (sym (upsert_there b old t other) ∙ h) in
      let old' : ChunkRow = record a { created_at = old.created_at } in
      rw (upsert_here a old t is_a) (upsert_there b old' t ne ∙ ap (λ r. old' ∷ r) tail)
  | inr not_a ↦ rw (upsert_there a old t not_a) (elim (Bool-cases (old.chunk_id == b.chunk_id)) [
    | inl is_b ↦
        let head = ap (head_or old) (sym (upsert_here b old t is_b) ∙ h) in
        upsert_here b old (upsert_row a t) is_b ∙ ap (λ r. r ∷ upsert_row a t) head
    | inr not_b ↦
        let tail = ap tail_of (sym (upsert_there b old t not_b) ∙ h) in
        upsert_there b old (upsert_row a t) not_b
        ∙ ap (λ r. old ∷ r) (Holds-upsert_row a b t ne tail)
  ])
]

Holds-upsert_rows :
    (rows : List ChunkRow) (b : ChunkRow) (t : Table)
    → contains (ids rows) b.chunk_id ≡ false
    → Holds t b
    → Holds (upsert_rows rows t) b
unfolding upsert_rows
Holds-upsert_rows [] b t ne h = h
Holds-upsert_rows (a ∷ rows) b t ne h =
    Holds-upsert_rows rows b (upsert_row a t) (ground arith)
      (Holds-upsert_row a b t (ground arith) h)

upsert_rows-All :
    (rows : List ChunkRow) (t : Table) → Distinct (ids rows) → All (Holds (upsert_rows rows t)) rows
unfolding upsert_rows
upsert_rows-All [] t d = tt
upsert_rows-All (a ∷ rows) t d = (
  Holds-upsert_rows rows a (upsert_row a t) d.0 (upsert_row_idem a t),
  upsert_rows-All rows (upsert_row a t) d.1,
)

upsert_rows_held : (rows : List ChunkRow) (t : Table) → All (Holds t) rows → upsert_rows rows t ≡ t
unfolding upsert_rows
upsert_rows_held [] t h = refl
upsert_rows_held (a ∷ rows) t h = ap (upsert_rows rows) h.0 ∙ upsert_rows_held rows t h.1

-- The row as a later ingestion makes it, at another time.
abbrev pub restamped : (now : ℕ) → ChunkRow → ChunkRow
restamped now row = record row { created_at = now }

upsert_row-restamped :
    (now : ℕ) (row : ChunkRow) (t : Table) → Holds t row → Holds t (restamped now row)
upsert_row-restamped now row [] h = Holds-nil row h
upsert_row-restamped now row (old ∷ t) h = elim (Bool-cases (old.chunk_id == row.chunk_id)) [
  | inl e ↦ upsert_here (restamped now row) old t e ∙ sym (upsert_here row old t e) ∙ h
  | inr e ↦
      let tail = ap tail_of (sym (upsert_there row old t e) ∙ h) in
      upsert_there (restamped now row) old t e
      ∙ ap (λ r. old ∷ r) (upsert_row-restamped now row t tail)
]

All-restamped :
    (now : ℕ) (t : Table) (rows : List ChunkRow)
    → All (Holds t) rows
    → All (Holds t) (map (restamped now) rows)
All-restamped now t [] h = tt
All-restamped now t (row ∷ rows) h =
    (upsert_row-restamped now row t h.0, All-restamped now t rows h.1)

ids-restamped : (now : ℕ) (rows : List ChunkRow) → ids (map (restamped now) rows) ≡ ids rows
ids-restamped now [] = refl
ids-restamped now (row ∷ rows) = ap (λ is. row.chunk_id ∷ is) (ids-restamped now rows)

is_distinct-Distinct : (xs : List Text) → Distinct xs → is_distinct xs ≡ true
is_distinct-Distinct [] d = refl
is_distinct-Distinct (x ∷ xs) d = rw (d.0, is_distinct-Distinct xs d.1) refl

-- Rows with different ids are written without an exception, and writing them again at any other time
-- changes nothing: it succeeds and leaves the table as it is, the time stamps of the first write
-- included.
pub upsert_chunks_idem :
    (now : ℕ) (rows : List ChunkRow) (t : Table)
    → Distinct (ids rows)
    → (t' : Table) × (upsert_chunks rows t ≡ (ok tt, t'))
      × (upsert_chunks (map (restamped now) rows) t' ≡ (ok tt, t'))
unfolding upsert_chunks
upsert_chunks_idem now rows t d =
    let again = map (restamped now) rows in
    let t' = upsert_rows rows t in
    let first = is_distinct-Distinct (ids rows) d in
    let second : is_distinct (ids again) ≡ true = ap is_distinct (ids-restamped now rows) ∙ first in
    (
      t',
      rw first refl,
      rw second (
          ap (λ x. (ok tt, x))
            (upsert_rows_held again t' (All-restamped now t' rows (upsert_rows-All rows t d)))),
    )
