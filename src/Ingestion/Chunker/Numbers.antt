-- ===== src/Ingestion/Chunker/Numbers.antt =====
-- The chunk indices, and the fuel of the loop.
use grounded_ops_agent.Ingestion.Chunker.{
  ChunkPiece, Encoding, split_markdown_sections, is_blank, keep_piece, piece_at, token_chunks_from,
  token_chunks, section_chunks, chunk_document,
}
use grounded_ops_agent.Prelude.{
  ℕ, zero, suc, ◌+◌, ◌-◌, max, ◌≡◌, refl, ap, Bool, true, false, List, [], ◌∷◌, ◌++◌, map, arith,
  ltb, if◌then◌else◌, length, length-append, Text,
}
use grounded_ops_agent.Prelude.Ascending.{range_from}
use grounded_ops_agent.Text.Words.{strip}

abbrev pub indices : List ChunkPiece → List ℕ
indices ps = map (λ (p : ChunkPiece). p.chunk_index) ps

-- The pieces are numbered from `index` on, and the number is the next one.
abbrev pub IsCounted : ℕ → List ChunkPiece × ℕ → Type 0
IsCounted index (ps, next) =
    (indices ps ≡ range_from index (length ps)) × (next ≡ index + length ps)

IsCounted-nil : (index : ℕ) → IsCounted index ([], index)
IsCounted-nil index = (refl, omega arith)

IsCounted-keep :
    (blank : Bool) (p : ChunkPiece) (index : ℕ) (x : List ChunkPiece × ℕ)
    → p.chunk_index ≡ index
    → IsCounted (if blank then index else index + 1) x
    → IsCounted index (keep_piece blank p x)
IsCounted-keep true p index (ps, n) e h = h
IsCounted-keep false p index (ps, n) e (h, k) =
    let one : index + 1 ≡ suc index = omega arith in (cc (e, h, one), omega arith)

IsCounted-if :
    (b : Bool) (index : ℕ) (x : List ChunkPiece × ℕ)
    → IsCounted index x
    → IsCounted index (if b then x else ([], index))
IsCounted-if true index x h = h
IsCounted-if false index x h = IsCounted-nil index

IsCounted-else :
    (b : Bool) (index : ℕ) (x : List ChunkPiece × ℕ)
    → IsCounted index x
    → IsCounted index (if b then ([], index) else x)
IsCounted-else true index x h = IsCounted-nil index
IsCounted-else false index x h = h

module _ (enc : Encoding) (text : Text) (offset target overlap : ℕ) where
  token_chunks_from-IsCounted :
      (fuel i index : ℕ)
      → IsCounted index (token_chunks_from enc text offset target overlap fuel i index)
  unfolding token_chunks_from
  token_chunks_from-IsCounted zero i index = IsCounted-nil index
  token_chunks_from-IsCounted (suc fuel) i index =
      let blank = is_blank (strip (piece_at enc text offset target overlap i index).content) in
      IsCounted-if (ltb i (length (enc.encode text))) index _ (
        IsCounted-keep blank (piece_at enc text offset target overlap i index) index _ refl (
          IsCounted-else _ _ _ (
            token_chunks_from-IsCounted fuel (i + max 1 (target - overlap))
              (if blank then index else index + 1))))

range_from-append : (n a b : ℕ) → range_from n a ++ range_from (n + a) b ≡ range_from n (a + b)
range_from-append n zero b =
    let e : n + 0 ≡ n = omega arith in let k : 0 + b ≡ b = omega arith in cc (e, k)
range_from-append n (suc a) b =
    let e : n + suc a ≡ suc n + a = omega arith in
    let k : suc a + b ≡ suc (a + b) = omega arith in cc (e, k, range_from-append (suc n) a b)

indices-append : (ps qs : List ChunkPiece) → indices (ps ++ qs) ≡ indices ps ++ indices qs
indices-append [] qs = refl
indices-append (p ∷ ps) qs = ap (λ r. p.chunk_index ∷ r) (indices-append ps qs)

section_chunks-indices :
    (enc : Encoding) (target overlap index : ℕ) (sections : List (Text × ℕ))
    → let ps = section_chunks enc target overlap index sections in
      indices ps ≡ range_from index (length ps)
unfolding section_chunks token_chunks
section_chunks-indices enc target overlap index [] = refl
section_chunks-indices enc target overlap index ((text, offset) ∷ sections) =
    let (ps, next) = token_chunks enc text offset target overlap index in
    let (own, ahead) =
      token_chunks_from-IsCounted enc text offset target overlap (length (enc.encode text)) 0
        index in
    let rest = section_chunks-indices enc target overlap next sections in
    let qs = section_chunks enc target overlap next sections in
    let here : indices ps ≡ range_from index (length ps) = own in
    let more : indices qs ≡ range_from (index + length ps) (length qs) = cc (rest, ahead) in
    cc (
      indices-append ps qs,
      length-append ps qs,
      here,
      more,
      range_from-append index (length ps) (length qs),
    )

-- The chunks of a document are numbered 0, 1, 2, … in order, whatever the tokenizer does and
-- although the blank ones are left out.
pub chunk_document-indices :
    (enc : Encoding) (text : Text) (markdown : Bool) (target overlap : ℕ)
    → let ps = chunk_document enc text markdown target overlap in
      indices ps ≡ range_from 0 (length ps)
unfolding chunk_document token_chunks
chunk_document-indices enc text false target overlap =
    (token_chunks_from-IsCounted enc text 0 target overlap (length (enc.encode text)) 0 0).0
chunk_document-indices enc text true target overlap =
    section_chunks-indices enc target overlap 0 (split_markdown_sections text)
