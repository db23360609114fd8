-- ===== src/Agent/Registry/Entries.antt =====
-- What `entries` and `entries_for` hold: no lookup of theirs misses.
use mathlib.Core.List.{append_assoc}
use grounded_ops_agent.Agent.Registry.{
  CitationEntry, CitationRegistry, entry_at, entries, has_index, get, entries_for_from,
}
use grounded_ops_agent.Agent.Registry.Invariant.{IsIndexed, length-order}
use grounded_ops_agent.Agent.Registry.Stability.{lookup_at, get_at}
use grounded_ops_agent.Core.Errors.{ok, traverse}
use grounded_ops_agent.Prelude.{
  ℕ, zero, suc, ◌≤◌, ◌≡◌, refl, sym, ◌∙◌, inl, inr, true, false, Option, none, some, List, [], ◌∷◌,
  ◌++◌, arith, Bool-cases, length, get_elem?, get_elem?-append_length, get_elem?_total, nat_eq,
  Text, text_eq, contains,
}
use grounded_ops_agent.Prelude.Dict.{keys, values}

module _ {r : CitationRegistry} (v : IsIndexed r) where
  traverse-keys :
      (before after : List (Text × CitationEntry))
      → r.by_chunk ≡ before ++ after
      → traverse (entry_at r) (keys after) ≡ ok (values after)
  unfolding entry_at
  traverse-keys before [] h = refl
  traverse-keys before ((k, e) ∷ after) h =
      let here : get_elem? r.by_chunk (length before) ≡ some (k, e) =
        rw h (get_elem?-append_length before (k, e) after) in
      rw (lookup_at v (length before) here, entry_at)
        (rw (traverse-keys (before ++ (k, e) ∷ []) after (h ∙ sym (append_assoc before _ after))))

  -- No lookup of `entries` raises `KeyError`: it returns the entries in the order of their indices.
  pub entries-eq : entries r ≡ ok (values r.by_chunk)
  unfolding entries
  entries-eq = rw (← v.listed) (traverse-keys [] r.by_chunk refl)

  pub get_total : (i : ℕ) → has_index r i ≡ true → (e : CitationEntry) × (get r i ≡ ok (some e))
  unfolding has_index
  get_total zero h = ground arith
  get_total (suc i) h =
      let ((k, e), at) = get_elem?_total r.by_chunk i (ground (arith, length-order v)) in
      (e, get_at v i at)

  pub get-none : (i : ℕ) → has_index r i ≡ false → get r i ≡ ok none
  unfolding get
  get-none i h = rw h refl

  pub has_index_bounds : (i : ℕ) → has_index r i ≡ true → (1 ≤ i) × (i ≤ length r.by_chunk)
  unfolding has_index
  has_index_bounds i h = ground (arith, length-order v)

  get_answers : (i : ℕ) → (found : Option CitationEntry) × (get r i ≡ ok found)
  get_answers i = elim (Bool-cases (has_index r i)) [
    | inl within ↦ let (e, at) = get_total i within in (some e, at)
    | inr outside ↦ (none, get-none i outside)
  ]

  entries_for_from-step :
      (seen is : List ℕ) (i : ℕ)
      → (es : List CitationEntry) × (entries_for_from r seen is ≡ ok es)
      → (es : List CitationEntry) × (entries_for_from r (i ∷ seen) is ≡ ok es)
      → (found : Option CitationEntry) → get r i ≡ ok found
      → (es : List CitationEntry) × (entries_for_from r seen (i ∷ is) ≡ ok es)
  unfolding entries_for_from
  entries_for_from-step seen is i passed taken none at = rw at passed
  entries_for_from-step seen is i passed (es, k) (some entry) at =
      elim (Bool-cases (contains seen i)) [
        | inl old ↦ (passed.0, ground (arith, at, old, passed.1))
        | inr new ↦ (entry ∷ es, ground (arith, at, new, k))
      ]

  -- `entries_for` never raises.
  pub entries_for_from-answers :
      (seen is : List ℕ) → (es : List CitationEntry) × (entries_for_from r seen is ≡ ok es)
  unfolding entries_for_from
  entries_for_from-answers seen [] = ([], refl)
  entries_for_from-answers seen (i ∷ is) =
      entries_for_from-step seen is i (entries_for_from-answers seen is)
        (entries_for_from-answers (i ∷ seen) is) (get_answers i).0 (get_answers i).1
