-- ===== src/Llm/Echo.antt =====
-- src/app/llm/echo_provider.py. `_RECORD_RE.findall` reads the prompt from the left; `skip` counts the
-- characters that still belong to the last match.
pub mod RoundTrip
pub mod Prompt
pub mod Stream
use grounded_ops_agent.Agent.Citations.{cite_match}
use grounded_ops_agent.Agent.Registry.{record_open, record_close}
use grounded_ops_agent.Llm.Types.{user, assistant, tool, LlmMessage, LlmResponse}
use grounded_ops_agent.Prelude.{
  ℕ, zero, suc, ◌+◌, ◌-◌, ◌/◌, max, Option, none, some, List, [], ◌∷◌, ◌++◌, map, if◌then◌else◌,
  length, take, drop, reverse, ◌==◌, Text, nat_eq, text_eq,
}
use grounded_ops_agent.Text.Chars.{codes}
use grounded_ops_agent.Text.Words.{split, join}

-- A text without a prefix that it starts with.
unfoldable pub strip_prefix : Text → Text → Option Text
strip_prefix [] s = some s
strip_prefix (p ∷ ps) [] = none
strip_prefix (p ∷ ps) (c ∷ s) = if p == c then strip_prefix ps s else none

-- A match of `[^\n]*\n` at the start of the text: what follows it.
unfoldable pub after_line : Text → Option Text
after_line [] = none
after_line (c ∷ s) = if c == b'\n' then some s else after_line s

abbrev pub fence_open : Text
fence_open = record_open ++ b'\n' ∷ []

abbrev pub fence_close : Text
fence_close = b'\n' ∷ record_close

abbrev pub cons_first : ℕ → Option (Text × Text) → Option (Text × Text)
cons_first c none = none
cons_first c (some (content, rest)) = some (c ∷ content, rest)

-- A match of `(.*?)\nRECORD>>>`, the shortest: the content, and what follows the match.
unfoldable pub until_close : Text → Option (Text × Text)
unfolding strip_prefix
until_close [] = none
until_close (c ∷ s) =
    let later = cons_first c (until_close s) in
    elim (strip_prefix fence_close (c ∷ s)) [ some rest ↦ some ([], rest) | none ↦ later ]

-- A match behind `\[(\d+)\]`: the content, and what follows the match.
unfoldable pub fenced : Text → Option (Text × Text)
unfolding after_line strip_prefix until_close
fenced s = elim (after_line s) [
  | none ↦ none
  | some t ↦ elim (strip_prefix fence_open t) [ none ↦ none | some u ↦ until_close u ]
]

pub record RecordMatch : Type 0 where
  pub digits : Text
  pub content : Text
  pub rest : Text

abbrev pub found_record : Text → Option (Text × Text) → Option RecordMatch
found_record digits none = none
found_record digits (some (content, rest)) =
    some (record { digits = digits; content = content; rest = rest })

-- A match of the whole pattern at the start of the text.
unfoldable pub record_match : Text → Option RecordMatch
unfolding cite_match fenced
record_match s = elim (cite_match s) [
  | none ↦ none
  | some digits ↦ found_record digits (fenced (drop (length digits + 2) s))
]

unfoldable pub find_records : (skip : ℕ) → Text → List (Text × Text)
unfolding record_match
find_records skip [] = []
find_records (suc skip) (c ∷ s) = find_records skip s
find_records zero (c ∷ s) = elim (record_match (c ∷ s)) [
  | none ↦ find_records 0 s
  | some m ↦ (m.digits, m.content) ∷ find_records (length s - length m.rest) s
]

-- `max(1, len(text) // 4)`
unfoldable pub tokens : Text → ℕ
tokens text = max 1 (length text / 4)

abbrev pub echo_name : Text
echo_name = codes "echo-offline"

-- The loop of `_last_user`, over the reversed messages.
unfoldable pub last_user_from : List LlmMessage → Text
last_user_from [] = []
last_user_from (m ∷ ms) = elim m.role [
  | user ↦ elim m.content [
    | some (c ∷ s) ↦ c ∷ s
    | some [] ↦ last_user_from ms
    | none ↦ last_user_from ms
  ]
  | assistant ↦ last_user_from ms
  | tool ↦ last_user_from ms
]

unfoldable pub last_user : List LlmMessage → Text
unfolding last_user_from
last_user messages = last_user_from (reverse messages)

-- `text.split(". ")[0]`
unfoldable pub first_part : Text → Text
first_part [] = []
first_part (c ∷ s) =
    let more = c ∷ first_part s in
    elim (strip_prefix (codes ". ") (c ∷ s)) [ some rest ↦ [] | none ↦ more ]

-- A character in front of a text without its last dots.
unfoldable pub strip_dot : ℕ → Text → Text
strip_dot d [] = if d == b'.' then [] else d ∷ []
strip_dot d (c ∷ s) = d ∷ c ∷ s

-- `text.rstrip(".")`
unfoldable pub rstrip_dots : Text → Text
rstrip_dots [] = []
rstrip_dots (c ∷ s) = strip_dot c (rstrip_dots s)

unfoldable pub echo_sentence : Text × Text → Text
unfolding first_part strip_prefix rstrip_dots strip_dot
echo_sentence (index, content) =
    rstrip_dots (first_part (join (codes " ") (split content))) ++ codes " [" ++ index ++ codes "]."

unfoldable pub answer_records : List (Text × Text) → Text
unfolding echo_sentence
answer_records [] = codes "I do not have enough grounded information to answer that."
answer_records (r ∷ rs) =
    codes "Based on the retrieved operational records, "
    ++ join (codes " ") (map echo_sentence (take 3 (r ∷ rs)))

-- `_answer`
unfoldable pub echo_answer : List LlmMessage → Text
unfolding find_records last_user answer_records
echo_answer messages = answer_records (find_records 0 (last_user messages))

abbrev pub or_empty : Option Text → Text
or_empty none = []
or_empty (some s) = s

unfoldable pub echo_complete : List LlmMessage → (system : Option Text) → LlmResponse
unfolding echo_answer tokens
echo_complete messages system = record {
  text = echo_answer messages;
  tool_calls = [];
  usage = record {
    input_tokens = tokens (last_user messages) + tokens (or_empty system);
    output_tokens = tokens (echo_answer messages);
  };
  stop_reason = codes "end_turn";
  model = echo_name;
}

-- A character in front of a text that was split; a split gives at least one part.
unfoldable pub split_char : ℕ → List Text → List Text
split_char c [] = (c ∷ []) ∷ []
split_char c (w ∷ ws) = if c == b' ' then [] ∷ w ∷ ws else (c ∷ w) ∷ ws

-- `text.split(" ")`
unfoldable pub split_blanks : Text → List Text
unfolding split_char
split_blanks [] = [] ∷ []
split_blanks (c ∷ s) = split_char c (split_blanks s)

-- The texts that `stream` yields.
unfoldable pub echo_stream : List LlmMessage → List Text
unfolding echo_answer split_blanks
echo_stream messages = map (λ (w : Text). w ++ codes " ") (split_blanks (echo_answer messages))

unfoldable pub sum_tokens : List LlmMessage → ℕ
unfolding tokens
sum_tokens [] = 0
sum_tokens (m ∷ ms) = tokens (or_empty m.content) + sum_tokens ms

unfoldable pub echo_count_tokens : List LlmMessage → (system : Option Text) → ℕ
unfolding sum_tokens
echo_count_tokens messages system = sum_tokens messages + tokens (or_empty system)
