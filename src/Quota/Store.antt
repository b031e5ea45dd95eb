-- ===== src/Quota/Store.antt =====
-- What is assumed of the store of nexssflow/storage_backend.go, and what an update of a tenant's
-- record has done.
use cost.Prelude.{◌≡◌, refl, ap, sym, subst, ◌∙◌, ◌⊎◌, inl, inr, Option, some}
use cost.Text.{Text}
use cost.Errors.{Context, Result, ok, err, is_ok}
use cost.Quota.Record.{
  ◌>>=◌, ok_inj, bind-ok_inv, RuntimeQuotaRecord, entries, reencoded, decode_record,
}
use cost.Quota.Base.{Storage, change}
use cost.Quota.Records.{
  Same, IsSoundRecord, decode_record-IsSoundRecord, decode_fields_lem, IsSoundRecord-Same,
}

module _ {S V : Type 0} (storage : Storage S V) where
  -- Under the key stands what was given, as far as encoding/json shows: a record reads back with its
  -- fields, and its map with its entries in some order.
  abbrev pub IsStored : Text → V → S → Type 0
  IsStored key v s =
      (w : V) × (storage.lookup key s ≡ some w)
      × ((r : RuntimeQuotaRecord)
          → v ≡ storage.any_of r
          → (r' : RuntimeQuotaRecord) × (storage.reencode w ≡ reencoded r') × Same r r')

  -- An update of a key is atomic: if it reports success, then what its function makes of the current
  -- value has been stored; after an error the value is the old one, or has been stored all the
  -- same.
  abbrev pub UpdateOutcome : Text → (Option V → Result V) → S → Result (Unit {0}) × S → Type 0
  UpdateOutcome key f s (ok _, s') = (v : V) × (f (storage.lookup key s) ≡ ok v) × IsStored key v s'
  UpdateOutcome key f s (err _, s') =
      (storage.lookup key s' ≡ storage.lookup key s)
      ⊎ ((v : V) × (f (storage.lookup key s) ≡ ok v) × IsStored key v s')

  abbrev pub IsAtomic : Type 0
  IsAtomic =
      (ctx : Context) (key : Text) (f : Option V → Result V) (s : S)
      → UpdateOutcome key f s (storage.update ctx key f s)

  -- The update answers as its function does: no other error comes in between.
  abbrev pub Answers : Context → S → Type 0
  Answers ctx s =
      (key : Text) (f : Option V → Result V)
      → is_ok (storage.update ctx key f s).0 ≡ is_ok (f (storage.lookup key s))

  -- The record under a key.
  abbrev pub Reads : Text → S → RuntimeQuotaRecord → Type 0
  Reads key s r =
      (v : V) × (storage.lookup key s ≡ some v) × (decode_record (storage.reencode v) ≡ ok r)

  -- The record under the key is what `f` has made of `r`, up to the order of its map.
  abbrev pub Changed :
      Text → (RuntimeQuotaRecord → Result RuntimeQuotaRecord) → RuntimeQuotaRecord → S → Type 0
  Changed key f r s' =
      (r1 : RuntimeQuotaRecord) × (f r ≡ ok r1)
      × ((r2 : RuntimeQuotaRecord) × Reads key s' r2 × Same r1 r2)

  pub Reads-IsSoundRecord :
      (key : Text) (s : S) (r : RuntimeQuotaRecord) → Reads key s r → IsSoundRecord r
  Reads-IsSoundRecord key s r (v, _, e) = decode_record-IsSoundRecord (storage.reencode v) r e

  IsStored-Reads :
      (key : Text) (r1 : RuntimeQuotaRecord) (s' : S)
      → IsSoundRecord r1
      → IsStored key (storage.any_of r1) s'
      → (r2 : RuntimeQuotaRecord) × Reads key s' r2 × Same r1 r2
  unfolding decode_record
  IsStored-Reads key r1 s' sound (w, found, back) =
      let (r', read, same) = back r1 refl in
      (
        record r' { reservations = some (entries r') },
        (
          w,
          found,
          ap decode_record read ∙ decode_fields_lem r' (IsSoundRecord-Same r1 r' same sound),
        ),
        record {
          version = same.version;
          budget = same.budget;
          spent = same.spent;
          reservations = same.reservations;
        },
      )

  pub change-some :
      (missing : Result RuntimeQuotaRecord) (f : RuntimeQuotaRecord → Result RuntimeQuotaRecord)
      (key : Text) (s : S) (r : RuntimeQuotaRecord)
      → Reads key s r
      → change storage missing f (storage.lookup key s) ≡ (f r >>= λ r. ok (storage.any_of r))
  change-some missing f key s r (v, found, e) = rw (found, e) refl

  stored-Changed :
      (missing : Result RuntimeQuotaRecord) (f : RuntimeQuotaRecord → Result RuntimeQuotaRecord)
      (key : Text) (s s' : S) (r : RuntimeQuotaRecord) (v : V)
      → ((r1 : RuntimeQuotaRecord) → f r ≡ ok r1 → IsSoundRecord r1)
      → Reads key s r
      → change storage missing f (storage.lookup key s) ≡ ok v
      → IsStored key v s'
      → Changed key f r s'
  stored-Changed missing f key s s' r v sound reads e stored =
      let (r1, done, e1) =
        bind-ok_inv (f r) (λ r. ok (storage.any_of r)) v
          (sym (change-some missing f key s r reads) ∙ e) in
      (
        r1,
        done,
        IsStored-Reads key r1 s' (sound r1 done)
            (subst (λ v. IsStored key v s') (sym (ok_inj (storage.any_of r1) v e1)) stored),
      )

  -- What an update has done to the record, whatever it reports.
  abbrev pub ChangeOutcome :
      Text
      → (RuntimeQuotaRecord → Result RuntimeQuotaRecord)
      → RuntimeQuotaRecord
      → Result (Unit {0}) × S
      → Type 0
  ChangeOutcome key f r (ok _, s') = Changed key f r s'
  ChangeOutcome key f r (err _, s') = Reads key s' r ⊎ Changed key f r s'

  module _ (atomic : IsAtomic) where
    pub update-ChangeOutcome :
        (ctx : Context) (missing : Result RuntimeQuotaRecord)
        (f : RuntimeQuotaRecord → Result RuntimeQuotaRecord) (key : Text) (s : S)
        (r : RuntimeQuotaRecord)
        → ((r1 : RuntimeQuotaRecord) → f r ≡ ok r1 → IsSoundRecord r1)
        → Reads key s r
        → ChangeOutcome key f r (storage.update ctx key (change storage missing f) s)
    update-ChangeOutcome ctx missing f key s r sound reads =
        outcome (storage.update ctx key (change storage missing f) s)
          (atomic ctx key (change storage missing f) s)
      where
        outcome :
            (c : Result (Unit {0}) × S)
            → UpdateOutcome key (change storage missing f) s c
            → ChangeOutcome key f r c
        outcome (ok _, s') (v, e, stored) =
            stored-Changed missing f key s s' r v sound reads e stored
        outcome (err x, s') (inl same) = let (v, found, e) = reads in inl (v, same ∙ found, e)
        outcome (err x, s') (inr (v, e, stored)) =
            inr (stored-Changed missing f key s s' r v sound reads e stored)
