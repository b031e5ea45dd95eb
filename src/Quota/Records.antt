-- ===== src/Quota/Records.antt =====
-- What decoding and the update functions of nexssflow/storage_backend.go do to a record.
use mathlib.Core.List.{Permᴰ}
use mathlib.Core.List.Permᴰ
use cost.Prelude.{
  ℕ, ◌+◌, ◌≡◌, refl, ap, sym, subst, ◌∙◌, pos, ◌||◌, eqb_ℤ, some, [], false, arith, if-elim,
}
use cost.Text.{text, text_eqb}
use cost.Errors.{ok}
use cost.Quota.Record.{
  ◌>>=◌, ◌>>◌, check, ok_inj, bind-ok_inv, RuntimeQuotaRecord, entries, Reencoded, reencoded,
  spent_or_zero, completed, unsupported_version, decode_fields, decode_record,
  parse_non_negative_micros, check_amounts,
}
use cost.Quota.Amounts.{
  IsMicros, micros, IsSound, total, parse_non_negative_micros-ok,
  parse_non_negative_micros-IsMicros, check_amounts-IsSound, IsSound-check_amounts, total-Permᴰ,
  IsSound-Permᴰ,
}

-- Two records with the same fields, and the same reservations in some order.
pub record Same (r r' : RuntimeQuotaRecord) : Type 0 where
  pub version : r.version ≡ r'.version
  pub budget : r.budget_micros ≡ r'.budget_micros
  pub spent : r.spent_micros ≡ r'.spent_micros
  pub reservations : Permᴰ (entries r) (entries r')

pub Same-sym : (r r' : RuntimeQuotaRecord) → Same r r' → Same r' r
Same-sym r r' h = record {
  version = sym h.version;
  budget = sym h.budget;
  spent = sym h.spent;
  reservations = Permᴰ.symm h.reservations;
}

-- What decoding makes sure of.
pub record IsSoundRecord (r : RuntimeQuotaRecord) : Type 0 where
  pub version : r.version ≡ pos 1
  pub spent_given : text_eqb r.spent_micros [] ≡ false
  pub spent : IsMicros r.spent_micros (micros r.spent_micros)
  pub reservations : IsSound (entries r)

-- What is charged or held.
abbrev pub used : RuntimeQuotaRecord → ℕ
used r = micros r.spent_micros + total (entries r)

pub used-Same : (r r' : RuntimeQuotaRecord) → Same r r' → used r ≡ used r'
used-Same r r' h =
    omega (arith, ap micros h.spent, total-Permᴰ (entries r) (entries r') h.reservations)

pub IsSoundRecord-Same :
    (r r' : RuntimeQuotaRecord) → Same r r' → IsSoundRecord r → IsSoundRecord r'
IsSoundRecord-Same r r' h s = record {
  version = sym h.version ∙ s.version;
  spent_given = subst (λ x. text_eqb x [] ≡ false) h.spent s.spent_given;
  spent = subst (λ x. IsMicros x (micros x)) h.spent s.spent;
  reservations = IsSound-Permᴰ (entries r) (entries r') h.reservations s.reservations;
}

-- A record that is sound decodes to itself, with a map for its reservations.
pub decode_fields_lem :
    (r : RuntimeQuotaRecord)
    → IsSoundRecord r
    → decode_fields r ≡ ok (record r { reservations = some (entries r) })
unfolding decode_fields
decode_fields_lem r s = simp (
  s.version,
  s.spent_given,
  parse_non_negative_micros-ok r.spent_micros (text "spent_micros") (micros r.spent_micros) s.spent,
  IsSound-check_amounts (entries r) s.reservations,
)

spent_or_zero_given : (r : RuntimeQuotaRecord) → text_eqb (spent_or_zero r) [] ≡ false
spent_or_zero_given r =
    if-elim (λ s. text_eqb s [] ≡ false) (text_eqb r.spent_micros []) (λ _. refl) (λ given. given)

pub decode_fields-IsSoundRecord :
    (r r' : RuntimeQuotaRecord) → decode_fields r ≡ ok r' → IsSoundRecord r'
unfolding decode_fields
decode_fields-IsSoundRecord r r' e =
    let (_, _, e1) =
      bind-ok_inv
        (check (eqb_ℤ r.version (pos 0) || eqb_ℤ r.version (pos 1)) (unsupported_version r))
        (λ _. parse_non_negative_micros (spent_or_zero r) (text "spent_micros") >>= λ _.
          check_amounts (entries r) >> ok (completed r))
        r' e in
    let (v, parsed, e2) =
      bind-ok_inv (parse_non_negative_micros (spent_or_zero r) (text "spent_micros"))
        (λ _. check_amounts (entries r) >> ok (completed r)) r' e1 in
    let (_, sound, e3) = bind-ok_inv (check_amounts (entries r)) (λ _. ok (completed r)) r' e2 in
    subst IsSoundRecord (ok_inj (completed r) r' e3) (record {
      version = refl;
      spent_given = spent_or_zero_given r;
      spent =
          (parse_non_negative_micros-IsMicros (spent_or_zero r) (text "spent_micros") v parsed).1;
      reservations = check_amounts-IsSound (entries r) sound;
    })

pub decode_record-IsSoundRecord :
    (w : Reencoded) (r : RuntimeQuotaRecord) → decode_record w ≡ ok r → IsSoundRecord r
unfolding decode_record
decode_record-IsSoundRecord (reencoded r0) r e = decode_fields-IsSoundRecord r0 r e
decode_record-IsSoundRecord (Reencoded.marshal_failed x) r e = ground arith
decode_record-IsSoundRecord (Reencoded.unmarshal_failed x) r e = ground arith
