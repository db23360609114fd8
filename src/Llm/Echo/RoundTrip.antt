-- ===== src/Llm/Echo/RoundTrip.antt =====
-- The records that the prompt renders are the ones that the echo provider reads back.
use mathlib.Core.List.{append_assoc}
use grounded_ops_agent.Agent.Citations.Matching.{cite_match-append, drop_past}
use grounded_ops_agent.Agent.Registry.{record_close, CitationEntry, render_record}
use grounded_ops_agent.Llm.Echo.{
  strip_prefix, after_line, fence_open, fence_close, until_close, fenced, record_match,
  find_records,
}
use grounded_ops_agent.Prelude.{
  ℕ, zero, suc, ◌+◌, ◌-◌, ◌≡◌, refl, sym, ap, ◌∙◌, subst, ◌≢◌, inl, inr, false, none, some, [], ◌∷◌,
  ◌++◌, arith, if◌then◌else◌, Bool-cases, length, drop, length-append, drop-length-append, All,
  ◌==◌, Text, nat_eq, text_eq,
}
use grounded_ops_agent.Text.Chars.{codes}
use grounded_ops_agent.Text.Decimal.{decimal}
use grounded_ops_agent.Text.Decimal.RoundTrip.{IsDigits}

-- No new line stands in the text.
abbrev pub IsLine : Text → Type 0
IsLine s = All (λ c. (c == b'\n') ≡ false) s

-- The closing fence stands nowhere in the text.
abbrev pub IsUnfenced : Text → Type 0
IsUnfenced [] = Unit
IsUnfenced (c ∷ s) = (strip_prefix fence_close (c ∷ s) ≡ none) × IsUnfenced s

after_line-append : (s t : Text) → IsLine s → after_line (s ++ b'\n' ∷ t) ≡ some t
unfolding after_line
after_line-append [] t h = refl
after_line-append (c ∷ s) t h = rw (h.0, after_line) (after_line-append s t h.1)

-- A prefix without new lines does not reach over a new line.
strip_prefix-line :
    (p s t : Text) → IsLine p → strip_prefix p s ≡ none → strip_prefix p (s ++ b'\n' ∷ t) ≡ none
unfolding strip_prefix
strip_prefix-line [] s t h e = cc e
strip_prefix-line (q ∷ p) [] t h e = rw (h.0, strip_prefix) refl
strip_prefix-line (q ∷ p) (c ∷ s) t h e = elim (Bool-cases (q == c)) [
  | inl same ↦
      let e' : strip_prefix p s ≡ none = rw (same, strip_prefix) at e in
      rw (same, strip_prefix) (strip_prefix-line p s t h.1 e')
  | inr other ↦ rw (other, strip_prefix) refl
]

record_close-IsLine : IsLine record_close
record_close-IsLine = (refl, (refl, (refl, (refl, (refl, (refl, (refl, (refl, (refl, tt)))))))))

fence_close-append :
    (c : ℕ) (s t : Text)
    → strip_prefix fence_close (c ∷ s) ≡ none
    → strip_prefix fence_close (c ∷ (s ++ (fence_close ++ t))) ≡ none
unfolding strip_prefix
fence_close-append c s t h = elim (Bool-cases (b'\n' == c)) [
  | inl same ↦
      let e : strip_prefix record_close s ≡ none =
        sym (ap (λ b. if b then strip_prefix record_close s else none) same) ∙ h in
      ap (λ b. if b then strip_prefix record_close (s ++ (fence_close ++ t)) else none) same
      ∙ strip_prefix-line record_close s (record_close ++ t) record_close-IsLine e
  | inr other ↦
      ap (λ b. if b then strip_prefix record_close (s ++ (fence_close ++ t)) else none) other
]

until_close-append :
    (content rest : Text)
    → IsUnfenced content
    → until_close (content ++ (fence_close ++ rest)) ≡ some (content, rest)
unfolding until_close
until_close-append [] rest h = refl
until_close-append (c ∷ s) rest h =
    rw (fence_close-append c s rest h.0, until_close) (rw (until_close-append s rest h.1) refl)

fenced-append :
    (head content rest : Text)
    → IsLine head
    → IsUnfenced content
    → fenced (head ++ b'\n' ∷ (fence_open ++ (content ++ (fence_close ++ rest))))
      ≡ some (content, rest)
unfolding fenced
fenced-append head content rest h u =
    rw (after_line-append head (fence_open ++ (content ++ (fence_close ++ rest))) h, fenced)
      (until_close-append content rest u)

drop-length : (ds t : Text) → drop (length ds + 2) (b'[' ∷ ds ++ b']' ∷ t) ≡ t
drop-length ds t =
    let e : suc (length ds + 1) ≡ length ds + 2 = omega arith in
    subst (λ k. drop k (b'[' ∷ ds ++ b']' ∷ t) ≡ t) e (drop_past ds t)

pub record_match-append :
    (digits head content rest : Text)
    → IsDigits digits
    → digits ≢ []
    → IsLine head
    → IsUnfenced content
    → record_match (
        b'[' ∷ digits
        ++ b']' ∷ (head ++ b'\n' ∷ (fence_open ++ (content ++ (fence_close ++ rest)))))
      ≡ some (record { digits = digits; content = content; rest = rest })
unfolding record_match
record_match-append digits head content rest d some_digit h u =
    let after = head ++ b'\n' ∷ (fence_open ++ (content ++ (fence_close ++ rest))) in
    rw (cite_match-append digits after d some_digit, record_match)
      (rw (drop-length digits after) (rw (fenced-append head content rest h u) refl))

pub find_records-drop : (k : ℕ) (s : Text) → find_records k s ≡ find_records 0 (drop k s)
unfolding find_records
find_records-drop zero s = refl
find_records-drop (suc k) [] = refl
find_records-drop (suc k) (c ∷ s) = find_records-drop k s

pub find_records-rest :
    (s rest : Text)
    → find_records (length (s ++ rest) - length rest) (s ++ rest) ≡ find_records 0 rest
find_records-rest s rest =
    let e : length (s ++ rest) - length rest ≡ length s = omega (arith, length-append s rest) in
    ap (λ k. find_records k (s ++ rest)) e
    ∙ find_records-drop (length s) (s ++ rest)
    ∙ ap (find_records 0) (drop-length-append s rest)

-- The header of a record behind its index.
abbrev pub header_of : CitationEntry → Text
header_of e =
    codes " source_type="
    ++ (e.source_type
        ++ (codes " doc_id=" ++ (e.doc_id ++ (codes " title=\"" ++ (e.title ++ codes "\"")))))

abbrev pub body_of : CitationEntry → Text
body_of e =
    decimal e.index ++ b']' ∷ (header_of e ++ b'\n' ∷ (fence_open ++ (e.content ++ fence_close)))

pub render_record-body : (e : CitationEntry) → render_record e ≡ b'[' ∷ body_of e
unfolding render_record
render_record-body e = simp append_assoc

pub body_of-append :
    (e : CitationEntry) (rest : Text)
    → body_of e ++ rest
      ≡ decimal e.index
        ++ b']' ∷ (header_of e ++ b'\n' ∷ (fence_open ++ (e.content ++ (fence_close ++ rest))))
body_of-append e rest = simp append_assoc
