-- ===== src/Ingestion/Loaders.antt =====
-- src/app/ingestion/loaders.py, over the texts of the files; `json.loads` is a parameter.
use grounded_ops_agent.Core.Errors.{◌>>=◌}
use grounded_ops_agent.Agent.Faithfulness.{begins_with}
use grounded_ops_agent.Core.Errors.{Result, ok}
use grounded_ops_agent.Ingestion.Chunker.{is_break, split_lines}
use grounded_ops_agent.Ingestion.Indexer.{SourceDoc}
use grounded_ops_agent.Prelude.{
  true, false, Option, none, some, List, [], ◌∷◌, ◌++◌, map, if◌then◌else◌, drop, Text,
}
use grounded_ops_agent.Text.Chars.{codes}
use grounded_ops_agent.Text.Words.{strip}

-- A line without the characters that end it.
unfoldable pub chomp : Text → Text
unfolding is_break
chomp [] = []
chomp (c ∷ s) = let rest = chomp s in if is_break c then [] else c ∷ rest

-- `text.splitlines()`
unfoldable pub splitlines : Text → List Text
unfolding chomp split_lines
splitlines text = map chomp (split_lines text)

unfoldable pub title_in : List Text → (fallback : Text) → Text
unfolding strip
title_in [] fallback = fallback
title_in (line ∷ lines) fallback =
    let later = title_in lines fallback in
    let stripped = strip line in
    if begins_with (codes "# ") stripped then strip (drop 2 stripped) else later

-- `_markdown_title`
unfoldable pub markdown_title : Text → (fallback : Text) → Text
unfolding title_in splitlines
markdown_title text fallback = title_in (splitlines text) fallback

pub record TicketLine : Type 0 where
  pub id : Text
  pub title : Text
  pub body : Text

unfoldable pub ticket_doc : TicketLine → SourceDoc
ticket_doc t = record {
  doc_id = t.id;
  source_type = codes "ticket";
  title = t.title;
  text = t.title ++ (codes "\n\n" ++ t.body);
  markdown = false;
}

-- The loop of `load_tickets`; `parse` is `json.loads` with the keys of a ticket.
unfoldable pub ticket_docs :
    (parse : Text → Result TicketLine) → List Text → Result (List SourceDoc)
unfolding ticket_doc strip
ticket_docs parse [] = ok []
ticket_docs parse (line ∷ lines) =
    let docs = ticket_docs parse lines in
    elim (strip line) [
      | [] ↦ docs
      | c ∷ s ↦ (do rec ← parse line; more ← docs; ok (ticket_doc rec ∷ more))
    ]

-- `load_tickets`: `none` where the file does not exist.
unfoldable pub load_tickets :
    (parse : Text → Result TicketLine) → Option Text → Result (List SourceDoc)
unfolding ticket_docs splitlines
load_tickets parse none = ok []
load_tickets parse (some text) = ticket_docs parse (splitlines text)

-- `load_markdown_dir`: the stems and the texts of the files of the directory in sorted order.
unfoldable pub load_markdown_dir : List (Text × Text) → (source_type : Text) → List SourceDoc
unfolding markdown_title
load_markdown_dir [] source_type = []
load_markdown_dir ((stem, text) ∷ files) source_type =
    record {
      doc_id = stem;
      source_type = source_type;
      title = markdown_title text stem;
      text = text;
      markdown = true;
    }
    ∷ load_markdown_dir files source_type

-- The files of the seed directory.
pub record SeedFiles : Type 0 where
  pub tickets : Option Text
  pub postmortems : List (Text × Text)
  pub runbooks : List (Text × Text)

unfoldable pub load_corpus :
    (parse : Text → Result TicketLine) → SeedFiles → Result (List SourceDoc)
unfolding load_tickets load_markdown_dir
load_corpus parse files = do
  tickets ← load_tickets parse files.tickets
  ok (
      tickets
      ++ (load_markdown_dir files.postmortems (codes "postmortem")
          ++ load_markdown_dir files.runbooks (codes "runbook")))
