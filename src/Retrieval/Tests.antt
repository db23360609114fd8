-- ===== src/Retrieval/Tests.antt =====
-- Two rankings that share a chunk.
use grounded_ops_agent.Prelude.Equality.{text_beq}
use grounded_ops_agent.Prelude.{
  ◌+◌, ◌-◌, ◌*◌, ◌/◌, ◌≡◌, refl, none, List, [], ◌∷◌, ltb, concat, Text, nat_eq, text_eq, contains,
  Distinct,
}
use grounded_ops_agent.Prelude.Dict.{lookup, insert}
use grounded_ops_agent.Prelude.Float.{zero_float, FloatOps}
use grounded_ops_agent.Prelude.Int.{pos}
use grounded_ops_agent.Retrieval.Rrf.{key_lt, reciprocal_rank_fusion}
use grounded_ops_agent.Retrieval.Rrf.Fused.{chunk_ids, reciprocal_rank_fusion-ids}
use grounded_ops_agent.Retrieval.Types.{RetrievedChunk}
use grounded_ops_agent.Text.Chars.{codes}
use grounded_ops_agent.Text.Order.{text_leb}

abbrev found : Text → RetrievedChunk
found id = record {
  chunk_id = id;
  doc_id = codes "d";
  source_type = codes "ticket";
  title = [];
  content = [];
  char_start = pos 0;
  char_end = pos 0;
  score = zero_float;
  retriever = codes "dense";
}

abbrev pub counting : FloatOps
counting = record {
  of_ℕ = λ n. record { bits = n };
  add = λ a b. record { bits = a.bits + b.bits };
  sub = λ a b. record { bits = a.bits - b.bits };
  mul = λ a b. record { bits = a.bits * b.bits };
  div = λ a b. record { bits = (a.bits * 1000) / b.bits };
  lt = λ a b. ltb a.bits b.bits;
  round = λ a n. a;
}

abbrev rankings : List (List RetrievedChunk)
rankings =
    (found (codes "a") ∷ found (codes "b") ∷ []) ∷ (found (codes "b") ∷ found (codes "c") ∷ []) ∷ []

fusion_test :
    chunk_ids (reciprocal_rank_fusion counting rankings 60 none)
    ≡ codes "b" ∷ codes "c" ∷ codes "a" ∷ []
unfolding reciprocal_rank_fusion key_lt text_leb text_beq lookup insert
fusion_test = refl

reciprocal_rank_fusion-ids_example :
    let fused = reciprocal_rank_fusion counting rankings 60 none in
    Distinct (chunk_ids fused)
    × ((i : Text) → contains (chunk_ids fused) i ≡ contains (chunk_ids (concat rankings)) i)
reciprocal_rank_fusion-ids_example = reciprocal_rank_fusion-ids counting rankings 60
