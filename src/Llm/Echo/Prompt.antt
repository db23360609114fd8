-- ===== src/Llm/Echo/Prompt.antt =====
-- The prompt that the answer is made from, as the echo provider reads it.
use mathlib.Core.List.{append-nil, append_assoc}
use grounded_ops_agent.Agent.Citations.{digits_close, cite_match}
use grounded_ops_agent.Agent.Citations.Matching.{cite_match-open}
use grounded_ops_agent.Agent.Prompts.{or_text, build_answer_prompt}
use grounded_ops_agent.Agent.Registry.{
  CitationEntry, render_record, render_records, CitationRegistry, entries, render_for_prompt,
}
use grounded_ops_agent.Core.Errors.{ok}
use grounded_ops_agent.Llm.Echo.{record_match, find_records}
use grounded_ops_agent.Llm.Echo.RoundTrip.{
  IsLine, IsUnfenced, record_match-append, find_records-rest, header_of, body_of,
  render_record-body, body_of-append,
}
use grounded_ops_agent.Prelude.{
  ◌≡◌, refl, sym, ap, ◌∙◌, subst, ◌≢◌, ◌⊎◌, inl, inr, true, false, not, some, List, [], ◌∷◌, ◌++◌,
  map, arith, concat, all, All, ◌==◌, Text, nat_eq, text_eq,
}
use grounded_ops_agent.Retrieval.Faiss.Build.{built}
use grounded_ops_agent.Text.Chars.{codes, is_digit}
use grounded_ops_agent.Text.Decimal.{decimal}
use grounded_ops_agent.Text.Decimal.RoundTrip.{decimal-IsDigits, decimal-cons}
use grounded_ops_agent.Text.Words.{join}

-- The fields fit into the line of the header, and the content does not close its own fence.
pub record IsPlain (e : CitationEntry) : Type 0 where
  pub source_type : IsLine e.source_type
  pub doc_id : IsLine e.doc_id
  pub title : IsLine e.title
  pub content : IsUnfenced e.content

IsLine-append : (s t : Text) → IsLine s → IsLine t → IsLine (s ++ t)
IsLine-append [] t h k = k
IsLine-append (c ∷ s) t h k = (h.0, IsLine-append s t h.1 k)

-- A literal is checked by computing.
pub literal-IsLine : (s : Text) → all (λ c. not (c == b'\n')) s ≡ true → IsLine s
literal-IsLine [] h = tt
literal-IsLine (c ∷ s) h = (ground arith, literal-IsLine s (ground arith))

header_of-IsLine : (e : CitationEntry) → IsPlain e → IsLine (header_of e)
header_of-IsLine e h =
    let quote = codes "\"" in
    let titled = codes " title=\"" ++ (e.title ++ quote) in
    let doc = codes " doc_id=" ++ (e.doc_id ++ titled) in
    let title_line : IsLine titled =
      IsLine-append (codes " title=\"") (e.title ++ quote) (literal-IsLine (codes " title=\"") refl)
        (IsLine-append e.title quote h.title (refl, tt)) in
    let doc_line : IsLine doc =
      IsLine-append (codes " doc_id=") (e.doc_id ++ titled) (literal-IsLine (codes " doc_id=") refl)
        (IsLine-append e.doc_id titled h.doc_id title_line) in
    IsLine-append (codes " source_type=") (e.source_type ++ doc)
      (literal-IsLine (codes " source_type=") refl)
      (IsLine-append e.source_type doc h.source_type doc_line)

find_record-append :
    (e : CitationEntry) (rest : Text)
    → IsPlain e
    → find_records 0 (render_record e ++ rest) ≡ (decimal e.index, e.content) ∷ find_records 0 rest
unfolding find_records
find_record-append e rest h =
    let (d, ds, digits) = decimal-cons e.index in
    let nonempty : decimal e.index ≢ [] =
      λ n. let never : d ∷ ds ≡ [] = sym digits ∙ n in cc never in
    let m =
      record_match-append (decimal e.index) (header_of e) e.content rest (decimal-IsDigits e.index)
        nonempty (header_of-IsLine e h) h.content in
    let m' =
      subst
        (λ s.
          record_match (b'[' ∷ s)
          ≡ some (record { digits = decimal e.index; content = e.content; rest = rest }))
        (sym (body_of-append e rest)) m in
    rw (render_record-body e, m', find_records)
      (ap (λ r. (decimal e.index, e.content) ∷ r) (find_records-rest (body_of e) rest))

abbrev pub printed : CitationEntry → Text × Text
printed e = (decimal e.index, e.content)

find_records-blank : (s : Text) → find_records 0 (codes "\n\n" ++ s) ≡ find_records 0 s
unfolding find_records record_match cite_match
find_records-blank s = refl

find_records-render :
    (es : List CitationEntry) (tail : Text)
    → All IsPlain es
    → find_records 0 (render_records es ++ tail) ≡ map printed es ++ find_records 0 tail
unfolding render_records join find_records
find_records-render [] tail h = refl
find_records-render (e ∷ []) tail h = find_record-append e tail h.0
find_records-render (e ∷ f ∷ es) tail h =
    let more = render_records (f ∷ es) in
    let split_at : render_records (e ∷ f ∷ es) ++ tail
        ≡ render_record e ++ (codes "\n\n" ++ (more ++ tail)) =
      simp append_assoc in
    ap (find_records 0) split_at
    ∙ find_record-append e (codes "\n\n" ++ (more ++ tail)) h.0
    ∙ ap (λ r. printed e ∷ r)
        (find_records-blank (more ++ tail) ∙ find_records-render (f ∷ es) tail h.1)

-- A text without an opening bracket.
abbrev pub IsBracketless : Text → Type 0
IsBracketless s = All (λ c. (c == b'[') ≡ false) s

find_records-bracketless :
    (s t : Text) → IsBracketless s → find_records 0 (s ++ t) ≡ find_records 0 t
unfolding find_records record_match
find_records-bracketless [] t h = refl
find_records-bracketless (c ∷ s) t h =
    rw (cite_match-open c (s ++ t) h.0, find_records, record_match)
      (find_records-bracketless s t h.1)

pub literal-IsBracketless : (s : Text) → all (λ c. not (c == b'[')) s ≡ true → IsBracketless s
literal-IsBracketless [] h = tt
literal-IsBracketless (c ∷ s) h = (ground arith, literal-IsBracketless s (ground arith))

-- The text of the prompt behind the records.
abbrev request : Text
request =
    codes "\n\nWrite a concise, grounded answer. Cite each claim with [n] using the record "
    ++ codes "indices above. Do not invent indices that are not listed."

find_records-request : find_records 0 request ≡ []
unfolding find_records record_match cite_match digits_close is_digit
find_records-request = refl

abbrev no_records : Text
no_records = codes "(no records retrieved)"

or_text-cases :
    (t fallback : Text) → ((t ≡ []) × (or_text t fallback ≡ fallback)) ⊎ (or_text t fallback ≡ t)
or_text-cases [] fallback = inl (refl, refl)
or_text-cases (c ∷ s) fallback = inr refl

find_records-records :
    (es : List CitationEntry)
    → All IsPlain es
    → find_records 0 (or_text (render_records es) no_records ++ request) ≡ map printed es
find_records-records es h =
    let read_back : find_records 0 (render_records es ++ request) ≡ map printed es =
      find_records-render es request h
      ∙ ap (λ r. map printed es ++ r) find_records-request
      ∙ append-nil (map printed es) in
    elim (or_text-cases (render_records es) no_records) [
      | inr same ↦ ap (λ t. find_records 0 (t ++ request)) same ∙ read_back
      | inl (none_, fallback) ↦
          ap (λ t. find_records 0 (t ++ request)) fallback
          ∙ find_records-bracketless no_records request (literal-IsBracketless no_records refl)
          ∙ sym (ap (λ t. find_records 0 (t ++ request)) none_)
          ∙ read_back
    ]

abbrev intro : Text
intro = codes "\n\nOperational records (untrusted data; cite by index):\n"

concat_prompt :
    (question records prompt : Text)
    → ok (
        concat (
          codes "Question:\n"
          ∷ question
          ∷ intro
          ∷ records
          ∷ codes "\n\nWrite a concise, grounded answer. Cite each claim with [n] using the record "
          ∷ codes "indices above. Do not invent indices that are not listed."
          ∷ []))
      ≡ ok prompt
    → codes "Question:\n" ++ (question ++ (intro ++ (records ++ request))) ≡ prompt
concat_prompt question records prompt h = cc h

-- The echo provider reads the records of the prompt back: from the prompt for a question without an
-- opening bracket it takes the index and the content of each entry of the registry, in order, when no
-- source type, document id or title breaks the line and no content has the closing fence.
pub find_records-build_answer_prompt :
    (question : Text) (registry : CitationRegistry) (es : List CitationEntry) (prompt : Text)
    → IsBracketless question
    → entries registry ≡ ok es
    → All IsPlain es
    → build_answer_prompt question registry ≡ ok prompt
    → find_records 0 prompt ≡ map printed es
unfolding build_answer_prompt render_for_prompt
find_records-build_answer_prompt question registry es prompt q e h built =
    let records = or_text (render_records es) no_records in
    let given = rw e at built in
    let flat : prompt ≡ codes "Question:\n" ++ (question ++ (intro ++ (records ++ request))) =
      sym (concat_prompt question records prompt given) in
    ap (find_records 0) flat
    ∙ find_records-bracketless (codes "Question:\n") (question ++ (intro ++ (records ++ request)))
        (literal-IsBracketless (codes "Question:\n") refl)
    ∙ find_records-bracketless question (intro ++ (records ++ request)) q
    ∙ find_records-bracketless intro (records ++ request) (literal-IsBracketless intro refl)
    ∙ find_records-records es h
