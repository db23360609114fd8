-- ===== src/Ingestion/Chunker/Fuel.antt =====
-- The loop of `_token_chunks` ends before its fuel does.
use grounded_ops_agent.Ingestion.Chunker.{Encoding, token_chunks_from}
use grounded_ops_agent.Prelude.{
  ℕ, zero, suc, ◌+◌, ◌-◌, ◌≤◌, ◌≡◌, refl, sym, false, max, [], arith, ltb, length, Text,
}

past : (n i : ℕ) → n ≤ i + 0 → ltb i n ≡ false
past n i h = ground arith

module _ (enc : Encoding) (text : Text) (offset target overlap : ℕ) where
  stopped :
      (fuel i index : ℕ)
      → length (enc.encode text) ≤ i + 0
      → token_chunks_from enc text offset target overlap fuel i index ≡ ([], index)
  unfolding token_chunks_from
  stopped zero i index h = refl
  stopped (suc fuel) i index h = rw (past (length (enc.encode text)) i h, token_chunks_from) refl

  -- Any fuel that covers the tokens from `i` on gives the same pieces, so the fuel of `token_chunks`,
  -- the number of the tokens, does not cut the loop short.
  pub token_chunks_from-fuel :
      (f g i index : ℕ)
      → length (enc.encode text) ≤ i + f
      → length (enc.encode text) ≤ i + g
      → token_chunks_from enc text offset target overlap f i index
        ≡ token_chunks_from enc text offset target overlap g i index
  unfolding token_chunks_from
  token_chunks_from-fuel zero g i index h k = sym (stopped g i index h)
  token_chunks_from-fuel (suc f) zero i index h k = stopped (suc f) i index k
  token_chunks_from-fuel (suc f) (suc g) i index h k =
      rw (token_chunks_from-fuel f g (i + max 1 (target - overlap)) _ (omega arith) (omega arith))
        refl
