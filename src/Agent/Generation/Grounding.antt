-- ===== src/Agent/Generation/Grounding.antt =====
-- The sources array against the used indices.
use mathlib.Core.List.{append_assoc}
use grounded_ops_agent.Agent.Citations.{citations, validate_and_strip}
use grounded_ops_agent.Agent.Citations.Valid.{validate_and_strip-used}
use grounded_ops_agent.Agent.Generation.{Source, source_of, sources_for}
use grounded_ops_agent.Agent.Registry.{CitationEntry, CitationRegistry, has_index, get}
use grounded_ops_agent.Agent.Registry.Entries.{entries-eq, has_index_bounds}
use grounded_ops_agent.Agent.Registry.Invariant.{Numbered, IsIndexed, Numbered-get_elem?}
use grounded_ops_agent.Agent.Registry.Stability.{get_at}
use grounded_ops_agent.Core.Errors.{ok}
use grounded_ops_agent.Prelude.{
  ℕ, suc, ◌≤◌, ◌≡◌, refl, sym, ap, ◌∙◌, inl, inr, Bool, true, ◌&&◌, some, List, [], ◌∷◌, ◌++◌, map,
  arith, Bool-cases, length, get_elem?, keep_if, get_elem?-append_length, All, nat_eq, Text,
  text_eq, contains,
}
use grounded_ops_agent.Prelude.Ascending.{
  Ascending, Ascending-ext, range_from, Ascending-range_from, contains-range_from, contains-keep_if,
  Ascending-keep_if,
}
use grounded_ops_agent.Prelude.Dict.{values}

values-index :
    (n : ℕ) (m : List (Text × CitationEntry))
    → Numbered n m
    → map (λ (e : CitationEntry). e.index) (values m) ≡ range_from n (length m)
values-index n [] h = refl
values-index n ((k, e) ∷ m) h = cc (h.0, values-index (suc n) m h.2)

map-keep_if :
    (p : ℕ → Bool) (es : List CitationEntry)
    → map (λ (s : Source). s.index) (map source_of (keep_if (λ e. p e.index) es))
      ≡ keep_if p (map (λ (e : CitationEntry). e.index) es)
unfolding source_of
map-keep_if p [] = refl
map-keep_if p (e ∷ es) = elim (Bool-cases (p e.index)) [
  | inl kept ↦ rw (kept, keep_if) (ap (λ r. e.index ∷ r) (map-keep_if p es))
  | inr dropped ↦ rw (dropped, keep_if) (map-keep_if p es)
]

-- An ascending list of indices of the registry is what filtering all of its indices by it leaves.
keep_range :
    (len : ℕ) (used : List ℕ)
    → Ascending used
    → ((i : ℕ) → contains used i ≡ true → (1 ≤ i) × (i ≤ len))
    → keep_if (contains used) (range_from 1 len) ≡ used
keep_range len used a within =
    Ascending-ext (keep_if (contains used) (range_from 1 len)) used
      (Ascending-keep_if (contains used) (range_from 1 len) (Ascending-range_from 1 len)) a
      (λ i. elim (Bool-cases (contains used i)) [
        | inl has ↦
            let (low, high) = within i has in
            ground (
              arith,
              contains-keep_if (contains used) (range_from 1 len) i,
              contains-range_from 1 len i,
            )
        | inr lacks ↦ ground (arith, contains-keep_if (contains used) (range_from 1 len) i)
      ])

-- `s` is the source made of the entry under its index.
abbrev pub IsSourceOf : CitationRegistry → Source → Type 0
IsSourceOf r s = (e : CitationEntry) × (get r s.index ≡ ok (some e)) × (s ≡ source_of e)

module _ {r : CitationRegistry} (v : IsIndexed r) where
  sources_of_entries :
      (p : CitationEntry → Bool) (before after : List (Text × CitationEntry))
      → r.by_chunk ≡ before ++ after
      → All (IsSourceOf r) (map source_of (keep_if p (values after)))
  unfolding source_of
  sources_of_entries p before [] h = tt
  sources_of_entries p before ((k, e) ∷ after) h =
      let rest =
        sources_of_entries p (before ++ (k, e) ∷ []) after
          (h ∙ sym (append_assoc before _ after)) in
      let here : get_elem? r.by_chunk (length before) ≡ some (k, e) =
        rw h (get_elem?-append_length before (k, e) after) in
      let (at, _) = Numbered-get_elem? 1 r.by_chunk (length before) v.numbered here in
      let index : e.index ≡ suc (length before) = omega (arith, at) in
      let own : get r e.index ≡ ok (some e) = cc (index, get_at v (length before) here) in
      elim (Bool-cases (p e)) [
        | inl kept ↦ rw (kept, keep_if) ((e, own, refl), rest)
        | inr dropped ↦ rw (dropped, keep_if) rest
      ]

  sources_for-eq :
      (used : List ℕ)
      → sources_for r used
        ≡ ok (map source_of (keep_if (λ e. contains used e.index) (values r.by_chunk)))
  unfolding sources_for
  sources_for-eq used = rw (entries-eq v)

-- The sources of a validated answer are exactly the entries that it uses: their indices are the used
-- indices, in the same order, and each is built from the entry under its index.
pub sources_for_used :
    (answer : Text) (r : CitationRegistry)
    → IsIndexed r
    → let used = (validate_and_strip answer r).1 in
      (sources : List Source) × (sources_for r used ≡ ok sources)
      × (map (λ (s : Source). s.index) sources ≡ used)
      × All (IsSourceOf r) sources
sources_for_used answer r v =
    let used = (validate_and_strip answer r).1 in
    let (ascending, members) = validate_and_strip-used answer r in
    (
      map source_of (keep_if (λ e. contains used e.index) (values r.by_chunk)),
      sources_for-eq v used,
      map-keep_if (contains used) (values r.by_chunk)
          ∙ ap (keep_if (contains used)) (values-index 1 r.by_chunk v.numbered)
          ∙ keep_range (length r.by_chunk) used ascending (λ i h. in_range i h (members i)),
      sources_of_entries v (λ e. contains used e.index) [] r.by_chunk refl,
    )
  where
    in_range :
        (i : ℕ)
        → contains (validate_and_strip answer r).1 i ≡ true
        → contains (validate_and_strip answer r).1 i
          ≡ (has_index r i && contains (citations answer) i)
        → (1 ≤ i) × (i ≤ length r.by_chunk)
    in_range i h m = has_index_bounds v i (ground arith)
