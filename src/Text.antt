-- ===== src/Text.antt =====
-- Go strings as byte lists, with `==` on them.
pub mod Spaces
pub mod Decimal
mod Tests
use Prim.Native.Char.{code}
use Prim.Native.String.{String}
use cost.Prelude.{ℕ, ◌≡◌, refl, ◌↔◌, ◌==◌, Bool, true, false, ◌&&◌, List, [], ◌∷◌, arith}

abbrev pub Text : Type 0
Text = List ℕ

-- The bytes of a literal (all literals of the model are ASCII).
abbrev pub text : String → Text
text String.[] = []
text (String.◌∷◌ c s) = code c ∷ text s

abbrev pub text_eqb : Text → Text → Bool
text_eqb [] [] = true
text_eqb (x ∷ xs) (y ∷ ys) = (x == y) && text_eqb xs ys
text_eqb _ _ = false

pub text_eqb_iff : (s t : Text) → (text_eqb s t ≡ true) ↔ (s ≡ t)
text_eqb_iff [] [] = ((λ _. refl), (λ _. refl))
text_eqb_iff [] (y ∷ ys) = ground arith
text_eqb_iff (x ∷ xs) [] = ground arith
text_eqb_iff (x ∷ xs) (y ∷ ys) = ground (arith, text_eqb_iff xs ys)

pub text_eqb_refl : (s : Text) → text_eqb s s ≡ true
text_eqb_refl s = (text_eqb_iff s s).1 refl
