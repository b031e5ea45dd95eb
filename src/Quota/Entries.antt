-- ===== src/Quota/Entries.antt =====
-- What a map of reservations in nexssflow/storage_backend.go holds under one id.
use mathlib.Core.List.{Permᴰ}
use mathlib.Core.Bool.{true≢false}
use cost.Prelude.{
  ◌≡◌, refl, sym, ap, subst, ◌∙◌, some, [], ◌∷◌, true, arith, Bool-cases, some_inj, inl, inr,
}
use cost.Text.{Text, text_eqb}
use cost.Quota.Record.{
  Amounts, RuntimeQuotaRecord, ok_inj, get_amount, delete_amount, set_amount, decode_record,
}
use cost.Quota.Base.{Storage}
use cost.Quota.Store.{Reads}

-- Every entry under the id has the amount.
abbrev IsAt : Text → Text → Text × Text → Type 0
IsAt id raw e = text_eqb e.0 id ≡ true → e.1 ≡ raw

abbrev pub AllAt : (id raw : Text) → Amounts → Type 0
AllAt id raw [] = Unit
AllAt id raw (e ∷ m) = IsAt id raw e × AllAt id raw m

AllAt-delete_amount : (id raw : Text) (m : Amounts) → AllAt id raw (delete_amount id m)
unfolding delete_amount
AllAt-delete_amount id raw [] = tt
AllAt-delete_amount id raw ((key, held) ∷ m) = elim (Bool-cases (text_eqb key id)) [
  | inl same ↦ rw same (AllAt-delete_amount id raw m)
  | inr other ↦
      rw other ((λ same. absurd (true≢false (sym same ∙ other))), AllAt-delete_amount id raw m)
]

pub AllAt-set_amount : (id raw : Text) (m : Amounts) → AllAt id raw (set_amount id raw m)
AllAt-set_amount id raw m = ((λ _. refl), AllAt-delete_amount id raw m)

pub AllAt-Permᴰ : (id raw : Text) (m m' : Amounts) → Permᴰ m m' → AllAt id raw m → AllAt id raw m'
AllAt-Permᴰ id raw _ _ Permᴰ.nil h = h
AllAt-Permᴰ id raw (a ∷ m) (b ∷ m') (Permᴰ.cons e p) (ha, h) =
    (subst (IsAt id raw) e ha, AllAt-Permᴰ id raw m m' p h)
AllAt-Permᴰ id raw (a ∷ b ∷ m) (a' ∷ b' ∷ _) (Permᴰ.swap e f) (ha, (hb, h)) =
    (subst (IsAt id raw) f hb, (subst (IsAt id raw) e ha, h))
AllAt-Permᴰ id raw _ _ (Permᴰ.trans {l₂ = m} p q) h =
    AllAt-Permᴰ id raw m _ q (AllAt-Permᴰ id raw _ m p h)

pub AllAt-get_amount :
    (id raw held : Text) (m : Amounts) → AllAt id raw m → get_amount id m ≡ some held → held ≡ raw
unfolding get_amount
AllAt-get_amount id raw held [] all e = ground arith
AllAt-get_amount id raw held ((key, amount) ∷ m) (at, all) e = elim (Bool-cases (text_eqb key id)) [
  | inl same ↦ sym (some_inj amount held (rw same at e)) ∙ at same
  | inr other ↦ AllAt-get_amount id raw held m all (rw other at e)
]

-- The record under a key is determined.
pub Reads-unique :
    {S V : Type 0} (storage : Storage S V) (key : Text) (s : S) (r r' : RuntimeQuotaRecord)
    → Reads storage key s r
    → Reads storage key s r'
    → r ≡ r'
Reads-unique storage key s r r' (v, found, e) (v', found', e') =
    ok_inj r r' (
      sym e
      ∙ ap (λ x. decode_record (storage.reencode x)) (some_inj v v' (sym found ∙ found'))
      ∙ e')
