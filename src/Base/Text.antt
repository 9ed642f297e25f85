-- ===== src/Base/Text.antt =====
-- Texts compared as Go compares them: byte by byte, which for UTF-8 is code point by code point.
use Prim.Native.Char.{code}
use Prim.Native.String.{String, [], ◌∷◌}
use mathlib.Core.Path.{◌≡◌, refl}
use mathlib.Core.Bool.{Bool, true, false}
use mathlib.Core.Logic.{◌⊎◌, inl, inr}
use native.Mathlib.Omega.{arith}
use text.Mathlib.TextEquality.{Char-path}
use signbyte_bff.Base.Tests.{ltb, nat_eq, if◌then◌else◌}

-- `a < b`
unfoldable pub text_lt : String → String → Bool
text_lt [] [] = false
text_lt [] (c ∷ s) = true
text_lt (c ∷ s) [] = false
text_lt (c ∷ s) (d ∷ t) =
    if ltb (code c) (code d) then true else if nat_eq (code c) (code d) then text_lt s t else false

pub text_lt_irrefl : (a : String) → text_lt a a ≡ false
unfolding text_lt
text_lt_irrefl [] = refl
text_lt_irrefl (c ∷ s) = ground (arith, text_lt_irrefl s)

pub text_lt_trans : (a b c : String) → text_lt a b ≡ true → text_lt b c ≡ true → text_lt a c ≡ true
unfolding text_lt
text_lt_trans [] [] c h k = ground arith
text_lt_trans [] (x ∷ s) [] h k = ground arith
text_lt_trans [] (x ∷ s) (y ∷ t) h k = refl
text_lt_trans (x ∷ s) [] c h k = ground arith
text_lt_trans (x ∷ s) (y ∷ t) [] h k = ground arith
text_lt_trans (x ∷ s) (y ∷ t) (z ∷ u) h k = ground (arith, text_lt_trans s t u)

pub text_lt_total : (a b : String) → (text_lt a b ≡ true) ⊎ (a ≡ b) ⊎ (text_lt b a ≡ true)
unfolding text_lt
text_lt_total [] [] = inr (inl refl)
text_lt_total [] (x ∷ s) = inl refl
text_lt_total (x ∷ s) [] = inr (inr refl)
text_lt_total (x ∷ s) (y ∷ t) = ground (arith, text_lt_total s t, Char-path x y)
