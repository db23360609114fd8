-- ===== src/Text/Words.antt =====
-- `text.split()`, `sep.join(parts)`, `text.strip()`.
use grounded_ops_agent.Prelude.{ℕ, ◌≡◌, refl, List, [], ◌∷◌, ◌++◌, if◌then◌else◌, Text}
use grounded_ops_agent.Text.Chars.{codes, is_space}

-- A word that has ended; two separators in a row end none.
unfoldable pub end_word : Text → List Text → List Text
end_word [] r = r
end_word (w ∷ ws) r = (w ∷ ws) ∷ r

-- `cur` holds the characters of the word that is being read.
unfoldable pub split_from : Text → Text → List Text
split_from cur [] = end_word cur []
split_from cur (c ∷ s) =
    let ended = end_word cur (split_from [] s) in
    let longer = split_from (cur ++ c ∷ []) s in if is_space c then ended else longer

unfoldable pub split : Text → List Text
split s = split_from [] s

unfoldable pub join : Text → List Text → Text
join sep [] = []
join sep (p ∷ []) = p
join sep (p ∷ q ∷ ps) = p ++ sep ++ join sep (q ∷ ps)

unfoldable pub lstrip : Text → Text
lstrip [] = []
lstrip (c ∷ s) = if is_space c then lstrip s else c ∷ s

-- A character in front of a text that is stripped on the right.
unfoldable pub strip_cons : ℕ → Text → Text
strip_cons d [] = if is_space d then [] else d ∷ []
strip_cons d (x ∷ r) = d ∷ x ∷ r

unfoldable pub rstrip : Text → Text
rstrip [] = []
rstrip (c ∷ s) = strip_cons c (rstrip s)

unfoldable pub strip : Text → Text
strip s = rstrip (lstrip s)

split_example : split (codes "  a bc ") ≡ codes "a" ∷ codes "bc" ∷ []
unfolding split split_from end_word is_space
split_example = refl

strip_example : strip (codes "  a bc ") ≡ codes "a bc"
unfolding strip lstrip rstrip strip_cons is_space
strip_example = refl
