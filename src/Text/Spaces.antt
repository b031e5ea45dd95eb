-- ===== src/Text/Spaces.antt =====
-- strings.TrimSpace, on the bytes of a UTF-8 string.
use cost.Prelude.{ℕ, zero, suc, ◌-◌, ltb, leb, ◌==◌, Bool, ◌&&◌, ◌||◌, if◌then◌else◌, [], ◌∷◌, ◌++◌}
use cost.Text.{Text}

-- The white space characters of unicode.IsSpace with one, two and three bytes.
abbrev space_1 : ℕ → Bool
space_1 a = (leb 9 a && leb a 13) || a == 32

abbrev space_2 : (a b : ℕ) → Bool
space_2 a b = a == 194 && (b == 133 || b == 160)

abbrev space_3 : (a b c : ℕ) → Bool
space_3 a b c =
    (a == 225 && (b == 154 && c == 128))
    || ((a == 226
          && ((b == 128 && ((leb 128 c && leb c 138) || (c == 168 || (c == 169 || c == 175))))
              || (b == 129 && c == 159)))
        || (a == 227 && (b == 128 && c == 128)))

-- How many bytes the white space character has that the bytes begin with, or 0. The bytes are
-- given in their order for `space_width`, and from the last one for `space_width_back`.
unfoldable pub space_width : Text → ℕ
space_width [] = 0
space_width (a ∷ []) = if space_1 a then 1 else 0
space_width (a ∷ b ∷ []) = if space_1 a then 1 else if space_2 a b then 2 else 0
space_width (a ∷ b ∷ c ∷ _) =
    if space_1 a then 1 else if space_2 a b then 2 else if space_3 a b c then 3 else 0

unfoldable pub space_width_back : Text → ℕ
space_width_back [] = 0
space_width_back (a ∷ []) = if space_1 a then 1 else 0
space_width_back (b ∷ a ∷ []) = if space_1 b then 1 else if space_2 a b then 2 else 0
space_width_back (c ∷ b ∷ a ∷ _) =
    if space_1 c then 1 else if space_2 b c then 2 else if space_3 a b c then 3 else 0

-- Drops the white space at the front; `skip` bytes of a character are still to be dropped.
unfoldable pub trim_front : (Text → ℕ) → (skip : ℕ) → Text → Text
trim_front width skip [] = []
trim_front width (suc skip) (c ∷ cs) = trim_front width skip cs
trim_front width zero (c ∷ cs) =
    let n = width (c ∷ cs) in
    let rest = trim_front width (n - 1) cs in if ltb 0 n then rest else c ∷ cs

unfoldable pub reversed : Text → Text
reversed [] = []
reversed (c ∷ cs) = reversed cs ++ (c ∷ [])

-- strings.TrimSpace
unfoldable pub trim_space : Text → Text
unfolding trim_front reversed
trim_space s = reversed (trim_front space_width_back 0 (reversed (trim_front space_width 0 s)))
