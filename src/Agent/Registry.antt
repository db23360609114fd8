-- ===== src/Agent/Registry.antt =====
-- src/app/agent/citation_registry.py. The dict `_by_chunk` is an association list in insertion
-- order. A lookup `_by_chunk[cid]` that misses raises `KeyError`.
pub mod Invariant
pub mod Stability
pub mod Entries
use grounded_ops_agent.Core.Errors.{key_error, Result, ok, raise, ◌>>=◌, traverse}
use grounded_ops_agent.Prelude.{
  ℕ, ◌+◌, ◌-◌, Bool, true, false, ◌&&◌, Option, none, some, List, [], ◌∷◌, ◌++◌, map, leb,
  if◌then◌else◌, length, get_elem?, take, nat_eq, Text, text_eq, contains,
}
use grounded_ops_agent.Prelude.Dict.{lookup, insert}
use grounded_ops_agent.Prelude.Int.{ℤ}
use grounded_ops_agent.Retrieval.Types.{RetrievedChunk}
use grounded_ops_agent.Text.Chars.{codes}
use grounded_ops_agent.Text.Decimal.{decimal}
use grounded_ops_agent.Text.Words.{split, join}

abbrev pub record_open : Text
record_open = codes "<<<RECORD"

abbrev pub record_close : Text
record_close = codes "RECORD>>>"

abbrev pub snippet_chars : ℕ
snippet_chars = 240

unfoldable pub snippet : Text → Text
snippet content = take snippet_chars (join (codes " ") (split content))

pub record CitationEntry : Type 0 where
  pub index : ℕ
  pub chunk_id : Text
  pub doc_id : Text
  pub source_type : Text
  pub title : Text
  pub snippet : Text
  pub char_start : ℤ
  pub char_end : ℤ
  pub content : Text

unfoldable pub render_record : CitationEntry → Text
render_record e =
    codes "["
    ++ decimal e.index
    ++ codes "] source_type="
    ++ e.source_type
    ++ codes " doc_id="
    ++ e.doc_id
    ++ codes " title=\""
    ++ e.title
    ++ codes "\"\n"
    ++ record_open
    ++ codes "\n"
    ++ e.content
    ++ codes "\n"
    ++ record_close

unfoldable pub render_records : List CitationEntry → Text
unfolding render_record join
render_records es = join (codes "\n\n") (map render_record es)

pub record CitationRegistry : Type 0 where
  pub by_chunk : List (Text × CitationEntry)
  pub order : List Text

abbrev pub empty_registry : CitationRegistry
empty_registry = record { by_chunk = []; order = [] }

unfoldable pub size : CitationRegistry → ℕ
size r = length r.order

unfoldable pub make_entry : ℕ → RetrievedChunk → CitationEntry
unfolding snippet
make_entry index chunk = record {
  index = index;
  chunk_id = chunk.chunk_id;
  doc_id = chunk.doc_id;
  source_type = chunk.source_type;
  title = chunk.title;
  snippet = snippet chunk.content;
  char_start = chunk.char_start;
  char_end = chunk.char_end;
  content = chunk.content;
}

-- The body of the loop of `add`, on the entry that the dict holds for the chunk.
unfoldable pub add_found :
    Option CitationEntry → RetrievedChunk → CitationRegistry → CitationRegistry × ℕ
add_found (some entry) chunk r = (r, entry.index)
add_found none chunk r =
    let entry = make_entry (length r.order + 1) chunk in
    (
      record {
        by_chunk = insert chunk.chunk_id entry r.by_chunk;
        order = r.order ++ chunk.chunk_id ∷ [];
      },
      entry.index,
    )

unfoldable pub add_chunk : RetrievedChunk → CitationRegistry → CitationRegistry × ℕ
unfolding add_found lookup insert make_entry
add_chunk chunk r = add_found (lookup chunk.chunk_id r.by_chunk) chunk r

unfoldable pub add : List RetrievedChunk → CitationRegistry → CitationRegistry × List ℕ
unfolding add_chunk
add [] r = (r, [])
add (chunk ∷ chunks) r =
    let (r', i) = add_chunk chunk r in let (r'', is) = add chunks r' in (r'', i ∷ is)

-- `self._by_chunk[cid]`
unfoldable pub entry_at : CitationRegistry → Text → Result CitationEntry
unfolding lookup
entry_at r cid = elim (lookup cid r.by_chunk) [ none ↦ raise key_error | some e ↦ ok e ]

unfoldable pub entries : CitationRegistry → Result (List CitationEntry)
unfolding entry_at
entries r = traverse (entry_at r) r.order

unfoldable pub has_index : CitationRegistry → ℕ → Bool
has_index r index = leb 1 index && leb index (length r.order)

-- `order[index - 1]` is in range on this branch; `none` is not reached.
unfoldable pub get : CitationRegistry → ℕ → Result (Option CitationEntry)
unfolding has_index entry_at
get r index =
    if has_index r index
    then elim (get_elem? r.order (index - 1)) [
      | none ↦ ok none
      | some cid ↦ (do e ← entry_at r cid; ok (some e))
    ]
    else ok none

-- The loop of `entries_for`; `seen` is the set of the indices that were taken.
unfoldable pub entries_for_from : CitationRegistry → List ℕ → List ℕ → Result (List CitationEntry)
unfolding get
entries_for_from r seen [] = ok []
entries_for_from r seen (index ∷ indices) = do
  found ← get r index
  elim found [
    | none ↦ entries_for_from r seen indices
    | some entry ↦ elim (contains seen index) [
      | true ↦ entries_for_from r seen indices
      | false ↦ (do out ← entries_for_from r (index ∷ seen) indices; ok (entry ∷ out))
    ]
  ]

unfoldable pub entries_for : CitationRegistry → List ℕ → Result (List CitationEntry)
unfolding entries_for_from
entries_for r indices = entries_for_from r [] indices

unfoldable pub render_for_prompt : CitationRegistry → Result Text
unfolding entries render_records
render_for_prompt r = do es ← entries r; ok (render_records es)
