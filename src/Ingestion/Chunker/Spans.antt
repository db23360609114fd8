-- ===== src/Ingestion/Chunker/Spans.antt =====
-- The character spans of the chunks.
use mathlib.Core.List.{append-nil, append_assoc}
use grounded_ops_agent.Analytics.{section}
use grounded_ops_agent.Ingestion.Chunker.{
  ChunkPiece, Encoding, is_break, starts_with, extend_line, split_lines, is_header, sections_from,
  split_markdown_sections, is_blank, keep_piece, prefix_chars, piece_at, token_chunks_from,
  token_chunks, section_chunks, chunk_document,
}
use grounded_ops_agent.Prelude.{
  ℕ, zero, suc, ◌+◌, ◌-◌, ◌≤◌, min, max, ◌≡◌, refl, sym, ap, ◌∙◌, subst, inl, inr, Bool, true,
  false, not, ◌&&◌, List, [], ◌∷◌, ◌++◌, arith, ltb, if◌then◌else◌, Bool-cases, length, take, drop,
  slice, concat, length-append, All, ◌==◌, Text, nat_eq, text_eq,
}
use grounded_ops_agent.Text.Words.{strip}

module _ {A : Type 0} where
  take_zero : (n : ℕ) (xs : List A) → n ≡ 0 → take n xs ≡ []
  take_zero zero xs h = refl
  take_zero (suc n) xs h = cc h

  take-append : (n : ℕ) (xs ys : List A) → n ≤ length xs → take n (xs ++ ys) ≡ take n xs
  take-append zero xs ys h = refl
  take-append (suc n) [] ys h = elim h [ ]
  take-append (suc n) (x ∷ xs) ys h = ap (λ r. x ∷ r) (take-append n xs ys (omega arith))

  slice-append : (a b : ℕ) (xs ys : List A) → b ≤ length xs → slice a b (xs ++ ys) ≡ slice a b xs
  slice-append zero b xs ys h = take-append (b - 0) xs ys (omega arith)
  slice-append (suc a) b [] ys h =
      take_zero (b - suc a) (drop (suc a) ys) (omega arith)
      ∙ sym (take_zero (b - suc a) [] (omega arith))
  slice-append (suc a) zero (x ∷ xs) ys h =
      take_zero (0 - suc a) (drop a (xs ++ ys)) (omega arith)
      ∙ sym (take_zero (0 - suc a) (drop a xs) (omega arith))
  slice-append (suc a) (suc b) (x ∷ xs) ys h =
      let e : suc b - suc a ≡ b - a = omega arith in rw e (slice-append a b xs ys (omega arith))

  drop_past : (before xs : List A) (a : ℕ) → drop (length before + a) (before ++ xs) ≡ drop a xs
  drop_past [] xs a = ap (λ n. drop n xs) (omega arith)
  drop_past (x ∷ before) xs a =
      let e : length (x ∷ before) + a ≡ suc (length before + a) = omega arith in
      rw e (drop_past before xs a)

  slice_within :
      (before xs after : List A) (a b : ℕ)
      → b ≤ length xs
      → slice (length before + a) (length before + b) (before ++ (xs ++ after)) ≡ slice a b xs
  slice_within before xs after a b h =
      let e : (length before + b) - (length before + a) ≡ b - a = omega arith in
      ap (λ n. take n (drop (length before + a) (before ++ (xs ++ after)))) e
      ∙ ap (take (b - a)) (drop_past before (xs ++ after) a)
      ∙ slice-append a b xs after h

-- The content of the piece is the text between its ends.
abbrev pub IsSpan : Text → ChunkPiece → Type 0
IsSpan text p = slice p.char_start p.char_end text ≡ p.content

-- The section stands at its offset.
abbrev pub IsSection : Text → Text × ℕ → Type 0
IsSection text (section, offset) =
    (before : Text) × (after : Text) × (text ≡ before ++ (section ++ after))
    × (length before ≡ offset)

concat-extend_line : (c : ℕ) (ls : List Text) → concat (extend_line c ls) ≡ c ∷ concat ls
concat-extend_line c [] = refl
concat-extend_line c (l ∷ ls) = refl

concat-split_lines : (s : Text) → concat (split_lines s) ≡ s
unfolding split_lines
concat-split_lines [] = refl
concat-split_lines (c ∷ s) = elim (Bool-cases (is_break c && not (c == 13 && starts_with 10 s))) [
  | inl e ↦ rw (e, split_lines) (ap (λ r. c ∷ r) (concat-split_lines s))
  | inr e ↦
      rw (e, split_lines)
        (concat-extend_line c (split_lines s) ∙ ap (λ r. c ∷ r) (concat-split_lines s))
]

concat-snoc : (ls : List Text) (l : Text) → concat (ls ++ l ∷ []) ≡ concat ls ++ l
concat-snoc [] l = append-nil l
concat-snoc (k ∷ ls) l = ap (λ r. k ++ r) (concat-snoc ls l) ∙ sym (append_assoc k (concat ls) l)

sections_from-All :
    (text before : Text) (cur : List Text) (section_offset offset : ℕ) (lines : List Text)
    → text ≡ before ++ (concat cur ++ concat lines)
    → length before ≡ section_offset
    → offset ≡ section_offset + length (concat cur)
    → All (IsSection text) (sections_from cur section_offset offset lines)
unfolding sections_from
sections_from-All text before [] so offset [] h k j = tt
sections_from-All text before (l ∷ ls) so offset [] h k j = ((before, [], h, k), tt)
sections_from-All text before [] so offset (line ∷ lines) h k j =
    let e = append-nil line in
    sections_from-All text before (line ∷ []) so (offset + length line) lines
      (h ∙ ap (λ x. before ++ (x ++ concat lines)) (sym e)) k (omega (arith, ap length e))
sections_from-All text before (l ∷ ls) so offset (line ∷ lines) h k j =
    let whole = concat (l ∷ ls) in
    let longer : length (before ++ whole) ≡ offset = omega (arith, length-append before whole) in
    let one = append-nil line in
    let fresh : All (IsSection text)
        (sections_from (line ∷ []) offset (offset + length line) lines) =
      sections_from-All text (before ++ whole) (line ∷ []) offset (offset + length line) lines
        (h
          ∙ sym (append_assoc before whole (line ++ concat lines))
          ∙ ap (λ x. (before ++ whole) ++ (x ++ concat lines)) (sym one))
        longer (omega (arith, ap length one)) in
    let all_of = concat-snoc (l ∷ ls) line in
    let same : All (IsSection text)
        (sections_from (l ∷ ls ++ line ∷ []) so (offset + length line) lines) =
      sections_from-All text before (l ∷ ls ++ line ∷ []) so (offset + length line) lines
        (h
          ∙ ap (λ x. before ++ x) (sym (append_assoc whole line (concat lines)))
          ∙ ap (λ x. before ++ (x ++ concat lines)) (sym all_of))
        k (omega (arith, ap length all_of, length-append whole line)) in
    elim (Bool-cases (is_header line)) [
      | inl e ↦ rw (e, sections_from) ((before, concat (line ∷ lines), h, k), fresh)
      | inr e ↦ rw (e, sections_from) same
    ]

split_markdown_sections-All : (text : Text) → All (IsSection text) (split_markdown_sections text)
unfolding split_markdown_sections
split_markdown_sections-All text =
    sections_from-All text [] [] 0 0 (split_lines text) (sym (concat-split_lines text)) refl
      (omega arith)

-- No prefix of the tokens of a text decodes to more characters than the text has.
abbrev pub HasShortPrefixes : Encoding → Type 0
HasShortPrefixes enc =
    (text : Text) (k : ℕ) → length (enc.decode (take k (enc.encode text))) ≤ length text

module _ (enc : Encoding) (short : HasShortPrefixes enc) where
  prefix_chars-le : (text : Text) (k : ℕ) → prefix_chars enc (enc.encode text) k ≤ length text
  unfolding prefix_chars
  prefix_chars-le text zero = omega arith
  prefix_chars-le text (suc k) = short text (suc k)

  keep_piece-All :
      (P : ChunkPiece → Type 0) (blank : Bool) (p : ChunkPiece) (x : List ChunkPiece × ℕ)
      → P p
      → All P x.0
      → All P (keep_piece blank p x).0
  keep_piece-All P true p (ps, n) h k = k
  keep_piece-All P false p (ps, n) h k = (h, k)

  All-if :
      (P : ChunkPiece → Type 0) (b : Bool) (n : ℕ) (x : List ChunkPiece × ℕ)
      → All P x.0
      → All P (if b then ([], n) else x).0
  All-if P true n x h = tt
  All-if P false n x h = h

  All-else :
      (P : ChunkPiece → Type 0) (b : Bool) (n : ℕ) (x : List ChunkPiece × ℕ)
      → All P x.0
      → All P (if b then x else ([], n)).0
  All-else P true n x h = h
  All-else P false n x h = tt

  module _ (text section : Text) (offset target overlap : ℕ)
      (at : IsSection text (section, offset)) where
    piece_at-IsSpan :
        (i index : ℕ) → IsSpan text (piece_at enc section offset target overlap i index)
    piece_at-IsSpan i index =
        let (before, after, eq, is) = at in
        let tokens = enc.encode section in
        let a = prefix_chars enc tokens i in
        let b = prefix_chars enc tokens (min (i + target) (length tokens)) in
        let within = slice_within before section after a b (prefix_chars-le section _) in
        subst (λ t. slice (offset + a) (offset + b) t ≡ slice a b section) (sym eq)
          (subst (λ o. slice (o + a) (o + b) (before ++ (section ++ after)) ≡ slice a b section) is
            within)

    token_chunks_from-IsSpan :
        (fuel i index : ℕ)
        → All (IsSpan text) (token_chunks_from enc section offset target overlap fuel i index).0
    unfolding token_chunks_from
    token_chunks_from-IsSpan zero i index = tt
    token_chunks_from-IsSpan (suc fuel) i index =
        let n = length (enc.encode section) in
        let piece = piece_at enc section offset target overlap i index in
        let blank = is_blank (strip piece.content) in
        let index' = if blank then index else index + 1 in
        let rest =
          token_chunks_from enc section offset target overlap fuel (i + max 1 (target - overlap))
            index' in
        All-else (IsSpan text) (ltb i n) index
          (keep_piece blank piece (if min (i + target) n == n then ([], index') else rest))
          (keep_piece-All (IsSpan text) blank piece
            (if min (i + target) n == n then ([], index') else rest) (piece_at-IsSpan i index)
            (All-if (IsSpan text) (min (i + target) n == n) index' rest
              (token_chunks_from-IsSpan fuel (i + max 1 (target - overlap)) index')))

  All-append :
      (P : ChunkPiece → Type 0) (ps qs : List ChunkPiece) → All P ps → All P qs → All P (ps ++ qs)
  All-append P [] qs h k = k
  All-append P (p ∷ ps) qs h k = (h.0, All-append P ps qs h.1 k)

  section_chunks-IsSpan :
      (text : Text) (target overlap index : ℕ) (sections : List (Text × ℕ))
      → All (IsSection text) sections
      → All (IsSpan text) (section_chunks enc target overlap index sections)
  unfolding section_chunks token_chunks
  section_chunks-IsSpan text target overlap index [] h = tt
  section_chunks-IsSpan text target overlap index ((section, offset) ∷ sections) h =
      All-append (IsSpan text) (token_chunks enc section offset target overlap index).0 _
        (token_chunks_from-IsSpan text section offset target overlap h.0
          (length (enc.encode section)) 0 index)
        (section_chunks-IsSpan text target overlap
          (token_chunks enc section offset target overlap index).1 sections h.1)

  -- The content of every chunk is the text of the document between its character ends, whether the
  -- document is split at headers or not, if no prefix of the tokens of a text decodes to more
  -- characters than the text has.
  pub chunk_document-IsSpan :
      (text : Text) (markdown : Bool) (target overlap : ℕ)
      → All (IsSpan text) (chunk_document enc text markdown target overlap)
  unfolding chunk_document token_chunks
  chunk_document-IsSpan text false target overlap =
      token_chunks_from-IsSpan text text 0 target overlap ([], [], sym (append-nil text), refl)
        (length (enc.encode text)) 0 0
  chunk_document-IsSpan text true target overlap =
      section_chunks-IsSpan text target overlap 0 (split_markdown_sections text)
        (split_markdown_sections-All text)
