-- ===== src/Ingestion/Chunker.antt =====
-- src/app/ingestion/chunker.py. The tokenizer is a parameter.
pub mod Numbers
pub mod Spans
pub mod Fuel
use grounded_ops_agent.Prelude.{
  ℕ, zero, suc, ◌+◌, ◌-◌, min, max, Bool, true, false, not, ◌&&◌, List, [], ◌∷◌, ◌++◌, ltb,
  if◌then◌else◌, length, take, slice, concat, ◌==◌, Text, nat_eq, text_eq, contains,
}
use grounded_ops_agent.Text.Words.{lstrip, strip}

abbrev pub target_tokens : ℕ
target_tokens = 500

abbrev pub overlap_tokens : ℕ
overlap_tokens = 80

pub record ChunkPiece : Type 0 where
  pub chunk_index : ℕ
  pub char_start : ℕ
  pub char_end : ℕ
  pub content : Text

-- `tiktoken.get_encoding("cl100k_base")`
pub record Encoding : Type 0 where
  pub encode : Text → List ℕ
  pub decode : List ℕ → Text

-- A line boundary of `str.splitlines`.
unfoldable pub is_break : ℕ → Bool
is_break c = contains (10 ∷ 11 ∷ 12 ∷ 13 ∷ 28 ∷ 29 ∷ 30 ∷ 133 ∷ 8232 ∷ 8233 ∷ []) c

abbrev pub starts_with : ℕ → Text → Bool
starts_with c [] = false
starts_with c (d ∷ s) = d == c

-- A character in front of the first line.
abbrev pub extend_line : ℕ → List Text → List Text
extend_line c [] = (c ∷ []) ∷ []
extend_line c (l ∷ ls) = (c ∷ l) ∷ ls

-- `text.splitlines(keepends=True)`; `\r\n` is one boundary.
unfoldable pub split_lines : Text → List Text
split_lines [] = []
split_lines (c ∷ s) =
    let rest = split_lines s in
    if is_break c && not (c == 13 && starts_with 10 s) then (c ∷ []) ∷ rest else extend_line c rest

abbrev pub is_header : Text → Bool
is_header line = starts_with b'#' (lstrip line)

-- The loop of `split_markdown_sections`.
unfoldable pub sections_from :
    (cur : List Text) (section_offset offset : ℕ) (lines : List Text) → List (Text × ℕ)
sections_from [] section_offset offset [] = []
sections_from (l ∷ ls) section_offset offset [] = (concat (l ∷ ls), section_offset) ∷ []
sections_from [] section_offset offset (line ∷ lines) =
    sections_from (line ∷ []) section_offset (offset + length line) lines
sections_from (l ∷ ls) section_offset offset (line ∷ lines) =
    let fresh = sections_from (line ∷ []) offset (offset + length line) lines in
    let same = sections_from (l ∷ ls ++ line ∷ []) section_offset (offset + length line) lines in
    if is_header line then (concat (l ∷ ls), section_offset) ∷ fresh else same

unfoldable pub split_markdown_sections : Text → List (Text × ℕ)
split_markdown_sections text = sections_from [] 0 0 (split_lines text)

-- `bool(content.strip())`
abbrev pub is_blank : Text → Bool
is_blank [] = true
is_blank (c ∷ s) = false

-- A piece in front of the others, unless it is blank.
abbrev pub keep_piece : Bool → ChunkPiece → List ChunkPiece × ℕ → List ChunkPiece × ℕ
keep_piece true p (ps, n) = (ps, n)
keep_piece false p (ps, n) = (p ∷ ps, n)

module _ (enc : Encoding) where
  -- `tokens[:0]` decodes to the empty text.
  unfoldable pub prefix_chars : List ℕ → ℕ → ℕ
  prefix_chars tokens zero = 0
  prefix_chars tokens (suc k) = length (enc.decode (take (suc k) tokens))

  module _ (text : Text) (offset target overlap : ℕ) where
    abbrev pub piece_at : (i index : ℕ) → ChunkPiece
    piece_at i index =
        let tokens = enc.encode text in
        let local_start = prefix_chars tokens i in
        let local_end = prefix_chars tokens (min (i + target) (length tokens)) in
        record {
          chunk_index = index;
          char_start = offset + local_start;
          char_end = offset + local_end;
          content = slice local_start local_end text;
        }

    -- The loop of `_token_chunks` at token `i`; `fuel` bounds the rounds, and the number of tokens
    -- is enough since each round moves on by at least one.
    unfoldable pub token_chunks_from : (fuel i index : ℕ) → List ChunkPiece × ℕ
    token_chunks_from zero i index = ([], index)
    token_chunks_from (suc fuel) i index =
        let tokens = enc.encode text in
        let piece = piece_at i index in
        let blank = is_blank (strip piece.content) in
        let index' = if blank then index else index + 1 in
        let rest = token_chunks_from fuel (i + max 1 (target - overlap)) index' in
        let more =
          if min (i + target) (length tokens) == length tokens then ([], index') else rest in
        if ltb i (length tokens) then keep_piece blank piece more else ([], index)

    unfoldable pub token_chunks : (start_index : ℕ) → List ChunkPiece × ℕ
    unfolding token_chunks_from prefix_chars
    token_chunks start_index = token_chunks_from (length (enc.encode text)) 0 start_index

  -- The loop of `chunk_document` over the sections.
  unfoldable pub section_chunks : (target overlap index : ℕ) → List (Text × ℕ) → List ChunkPiece
  unfolding token_chunks
  section_chunks target overlap index [] = []
  section_chunks target overlap index ((text, offset) ∷ sections) =
      let (sub, index') = token_chunks text offset target overlap index in
      sub ++ section_chunks target overlap index' sections

  unfoldable pub chunk_document :
      (text : Text) (markdown : Bool) (target overlap : ℕ) → List ChunkPiece
  unfolding section_chunks split_markdown_sections token_chunks
  chunk_document text false target overlap = (token_chunks text 0 target overlap 0).0
  chunk_document text true target overlap =
      section_chunks target overlap 0 (split_markdown_sections text)
