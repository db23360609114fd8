-- ===== src/Eval/Gold.antt =====
-- src/app/eval/gold.py over the lines of the file.
use grounded_ops_agent.Core.Errors.{◌>>=◌}
use grounded_ops_agent.Core.Errors.{Result, ok}
use grounded_ops_agent.Prelude.{List, [], ◌∷◌, Text}
use grounded_ops_agent.Text.Words.{strip}

pub record GoldItem : Type 0 where
  pub question : Text
  pub relevant_doc_ids : List Text
  pub reference_answer : Text

-- The loop of `load_gold` over the lines of the file; `parse` is `json.loads` with the three keys.
unfoldable pub load_gold : (parse : Text → Result GoldItem) → List Text → Result (List GoldItem)
unfolding strip
load_gold parse [] = ok []
load_gold parse (line ∷ lines) =
    let items = load_gold parse lines in
    elim (strip line) [
      | [] ↦ items
      | c ∷ s ↦ (do item ← parse line; more ← items; ok (item ∷ more))
    ]
