-- ===== src/Redis/Rows.antt =====
-- Laws of the commands of Redis/Keys on the keys that hold the reserved amounts.
use cost.Prelude.{
  ℕ, ◌≡◌, refl, ℤ, pos, ◌+ℤ◌, ◌≤ℤ◌, true, false, Option, none, some, List, [], ◌∷◌, arith, int_laws,
}
use cost.Text.{Text, text_eqb}
use cost.Redis.Keys.{Amount, get_amount, del_amount, held}

abbrev pub AllNonneg : List Amount → Type 0
AllNonneg [] = Unit
AllNonneg (a ∷ amounts) = (pos 0 ≤ℤ a.value) × AllNonneg amounts

-- No key has this id.
abbrev pub Absent : Text → List Amount → Type 0
Absent id [] = Unit
Absent id (a ∷ amounts) = (text_eqb a.id id ≡ false) × Absent id amounts

-- Whatever a key of this id holds is 0.
abbrev pub AllZero : Text → List Amount → Type 0
AllZero id [] = Unit
AllZero id (a ∷ amounts) = (text_eqb a.id id ≡ true → a.value ≡ pos 0) × AllZero id amounts

-- What GET gives, with '0' for a missing key.
abbrev pub stored : Option ℤ → ℤ
stored none = pos 0
stored (some v) = v

pub held-del_amount :
    (clock : ℕ) (id : Text) (amounts : List Amount)
    → stored (get_amount clock id amounts) +ℤ held clock (del_amount id amounts)
      ≡ held clock amounts
unfolding get_amount del_amount held
held-del_amount clock id [] = grind int_laws
held-del_amount clock id (a ∷ amounts) = grind (int_laws, held-del_amount clock id amounts)

pub get_amount_nonneg :
    (clock : ℕ) (id : Text) (amounts : List Amount)
    → AllNonneg amounts
    → pos 0 ≤ℤ stored (get_amount clock id amounts)
unfolding get_amount
get_amount_nonneg clock id [] h = omega arith
get_amount_nonneg clock id (a ∷ amounts) h = grind (arith, get_amount_nonneg clock id amounts h.1)

pub held_nonneg :
    (clock : ℕ) (amounts : List Amount) → AllNonneg amounts → pos 0 ≤ℤ held clock amounts
unfolding held
held_nonneg clock [] h = omega arith
held_nonneg clock (a ∷ amounts) h = grind (int_laws, held_nonneg clock amounts h.1)

pub del_amount-AllNonneg :
    (id : Text) (amounts : List Amount) → AllNonneg amounts → AllNonneg (del_amount id amounts)
unfolding del_amount
del_amount-AllNonneg id [] h = tt
del_amount-AllNonneg id (a ∷ amounts) h = ground (arith, del_amount-AllNonneg id amounts)

pub del_amount-Absent :
    (other id : Text) (amounts : List Amount)
    → Absent id amounts
    → Absent id (del_amount other amounts)
unfolding del_amount
del_amount-Absent other id [] h = tt
del_amount-Absent other id (a ∷ amounts) h = ground (arith, del_amount-Absent other id amounts)

pub del_amount_missing :
    (id : Text) (amounts : List Amount) → Absent id amounts → del_amount id amounts ≡ amounts
unfolding del_amount
del_amount_missing id [] h = refl
del_amount_missing id (a ∷ amounts) h = ground (arith, del_amount_missing id amounts)

pub Absent-AllZero : (id : Text) (amounts : List Amount) → Absent id amounts → AllZero id amounts
Absent-AllZero id [] h = tt
Absent-AllZero id (a ∷ amounts) h = (ground (arith, h.0), Absent-AllZero id amounts h.1)

pub del_amount-AllZero :
    (other id : Text) (amounts : List Amount)
    → AllZero id amounts
    → AllZero id (del_amount other amounts)
unfolding del_amount
del_amount-AllZero other id [] h = tt
del_amount-AllZero other id (a ∷ amounts) h =
    ground (arith, del_amount-AllZero other id amounts h.1)

pub get_amount_zero :
    (clock : ℕ) (id : Text) (amounts : List Amount)
    → AllZero id amounts
    → stored (get_amount clock id amounts) ≡ pos 0
unfolding get_amount
get_amount_zero clock id [] h = refl
get_amount_zero clock id (a ∷ amounts) h = ground (arith, get_amount_zero clock id amounts h.1)
