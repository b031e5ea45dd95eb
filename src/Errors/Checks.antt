-- ===== src/Errors/Checks.antt =====
-- Code that returns at its first error: steps one after another, and what holds of their result.
use cost.Prelude.{Bool, true, false, if◌then◌else◌, Option, none, some, ◌≡◌, refl, ap, subst, arith}
use cost.Errors.{Error, Result, ok, err}

-- `if err != nil { return err }`: a step that may fail, and what follows it on the result.
infixl 5 ◌>>=◌
abbrev pub ◌>>=◌ {μ ν} :
    {Value : Type μ} {Next : Type ν}
    → (step : Result Value) → (rest : Value → Result Next) → Result Next
step >>= rest = elim step [ err e ↦ err e | ok value ↦ rest value ]

abbrev pub check : Bool → Error → Result (Unit {0})
check b e = if b then ok tt else err e

infixl 5 ◌>>◌
abbrev pub ◌>>◌ {ν} : {Next : Type ν} → (test : Result (Unit {0})) → Result Next → Result Next
test >> rest = test >>= λ _. rest

-- A map entry, or the error of a missing one.
abbrev pub require {ℓ} : {A : Type ℓ} → Option A → Error → Result A
require none e = err e
require (some a) e = ok a

pub require-ok_inv {ℓ} :
    {A : Type ℓ} (o : Option A) (e : Error) (a : A) → require o e ≡ ok a → o ≡ some a
require-ok_inv none e a h = ground arith
require-ok_inv (some b) e a h = ground arith

pub ok_inj {ℓ} : {A : Type ℓ} (a b : A) → ok a ≡ ok b → a ≡ b
ok_inj a b e = ap (λ c. elim c [ ok x ↦ x | err _ ↦ a ]) e

-- A bind that succeeds has gone through its first part.
pub bind-ok_inv {ℓ κ} :
    {A : Type ℓ} {B : Type κ} (m : Result A) (f : A → Result B) (b : B)
    → (m >>= f) ≡ ok b
    → (a : A) × (m ≡ ok a) × (f a ≡ ok b)
bind-ok_inv (ok a) f b e = (a, refl, e)
bind-ok_inv (err _) f b e = ground arith

pub check-ok_inv : (b : Bool) (e : Error) (u : Unit {0}) → check b e ≡ ok u → b ≡ true
check-ok_inv true e u h = refl
check-ok_inv false e u h = ground arith

-- A result that has a property if it is one.
abbrev pub OnOk {ℓ κ} : {A : Type ℓ} → (A → Type κ) → Result A → Type κ
OnOk P (ok a) = P a
OnOk P (err _) = Unit

pub OnOk-elim {ℓ κ} :
    {A : Type ℓ} (P : A → Type κ) (c : Result A) (a : A) → OnOk P c → c ≡ ok a → P a
OnOk-elim P (ok b) a h e = subst P (ok_inj b a e) h
OnOk-elim P (err _) a h e = ground arith

-- A step whose results satisfy `P`, and a rest that turns `P` into `Q`.
pub OnOk-bind {ℓ κ μ ν} :
    {A : Type ℓ} {B : Type κ} (P : A → Type μ) (Q : B → Type ν) (m : Result A) (f : A → Result B)
    → OnOk P m
    → ((a : A) → P a → OnOk Q (f a))
    → OnOk Q (m >>= f)
OnOk-bind P Q (ok a) f h rest = rest a h
OnOk-bind P Q (err _) f h rest = tt

pub OnOk-step {ℓ κ ν} :
    {A : Type ℓ} {B : Type κ} (Q : B → Type ν) (m : Result A) (f : A → Result B)
    → ((a : A) → m ≡ ok a → OnOk Q (f a))
    → OnOk Q (m >>= f)
OnOk-step Q (ok a) f rest = rest a refl
OnOk-step Q (err _) f rest = tt

pub OnOk-check {ℓ κ} :
    {A : Type ℓ} (Q : A → Type κ) (b : Bool) (e : Error) (rest : Result A)
    → (b ≡ true → OnOk Q rest)
    → OnOk Q (check b e >> rest)
OnOk-check Q true e rest h = h refl
OnOk-check Q false e rest h = tt
