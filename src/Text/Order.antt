-- ===== src/Text/Order.antt =====
-- Python's order on texts: by code points, lexicographically.
use grounded_ops_agent.Prelude.{Bool, true, false, [], ◌∷◌, ltb, nat_beq, if◌then◌else◌, Text}

-- `s <= t`
unfoldable pub text_leb : Text → Text → Bool
text_leb [] t = true
text_leb (x ∷ s) [] = false
text_leb (x ∷ s) (y ∷ t) = if ltb x y then true else if nat_beq x y then text_leb s t else false
