-- ===== src/Quota/Admission.antt =====
-- When Reserve of nexssflow/storage_backend.go grants, and what it has done.
use cost.Prelude.{
  ℕ, ◌+◌, ◌≤◌, ◌<◌, ◌≡◌, refl, sym, subst, [], ◌⊎◌, inl, inr, ◌↔◌, ℤ, pos, negsuc, ◌+ℤ◌, ◌≤ℤ◌, none,
  true, false, not, Bool, if◌then◌else◌, arith, int_laws, if-elim,
}
use cost.Text.{Text, text_eqb}
use cost.Errors.{Error, validation, Context, context_error, Result, ok, err, is_ok, checked-elim}
use cost.Ledger.{invalid_estimate}
use cost.Quota.Record.{◌>>=◌, RuntimeQuotaRecord, with_reservation, admit, policy_missing}
use cost.Quota.Base.{
  Storage, RuntimeQuotaLedger, RuntimeQuotaReservation, runtime_quota_key, change, reserve_under,
  reserve,
}
use cost.Quota.Amounts.{IsMicros, micros}
use cost.Quota.Records.{Same, IsSoundRecord, used}
use cost.Quota.Admitting.{Verdict, admit_lem, admit-ok, with_reservation-IsSoundRecord}
use cost.Quota.Store.{
  IsAtomic, Answers, Reads, Reads-IsSoundRecord, Changed, change-some, ChangeOutcome,
  update-ChangeOutcome,
}

module _ {S V : Type 0} (storage : Storage S V) where
  is_ok-bind : (m : Result RuntimeQuotaRecord) → is_ok (m >>= λ r. ok (storage.any_of r)) ≡ is_ok m
  is_ok-bind (ok r) = refl
  is_ok-bind (err e) = refl

  is_ok-then {ℓ} : {A : Type ℓ} (m : Result (Unit {0})) (a : A) → is_ok (m >>= λ _. ok a) ≡ is_ok m
  is_ok-then (ok r) a = refl
  is_ok-then (err e) a = refl

  admit_iff :
      (estimate : ℕ) (id : Text) (r : RuntimeQuotaRecord)
      → IsSoundRecord r
      → IsMicros r.budget_micros (micros r.budget_micros)
      → (is_ok (admit (pos estimate) id r) ≡ true) ↔ (used r + estimate ≤ micros r.budget_micros)
  admit_iff estimate id r sound b =
      verdict_iff (admit (pos estimate) id r) (admit_lem estimate id r sound b)
    where
      verdict_iff :
          (c : Result RuntimeQuotaRecord)
          → Verdict
              (micros r.budget_micros)
              (used r)
              estimate
              (with_reservation (pos estimate) id r)
              c
          → (is_ok c ≡ true) ↔ (used r + estimate ≤ micros r.budget_micros)
      verdict_iff c v = ground arith

  guarded_iff {ℓ} :
      {A : Type ℓ} (b : Bool) (s : S) (e : Error) (rest : Result A × S)
      → (is_ok (if b then (err e, s) else rest).0 ≡ true) ↔ ((b ≡ false) × (is_ok rest.0 ≡ true))
  guarded_iff true s e rest = ((λ never. ground arith), (λ (never, _). ground arith))
  guarded_iff false s e rest = ((λ h. (refl, h)), (λ (_, h). h))

  tested {ℓ} :
      {A : Type ℓ} (u limit : ℕ) (s : S) (e : Error) (rest : ℤ → Result A × S)
      → ((n : ℕ) → (is_ok (rest (pos n)).0 ≡ true) ↔ (u + n ≤ limit))
      → (estimate : ℤ)
      → (is_ok (if invalid_estimate estimate then (err e, s) else rest estimate).0 ≡ true)
        ↔ ((invalid_estimate estimate ≡ false) × (pos u +ℤ estimate ≤ℤ pos limit))
  tested u limit s e rest h (negsuc n) = ((λ never. ground arith), (λ (valid, _). ground arith))
  tested u limit s e rest h (pos n) =
      let guarded = guarded_iff (invalid_estimate (pos n)) s e (rest (pos n)) in
      (
        (λ granted. ((guarded.0 granted).0, grind (int_laws, (h n).0 (guarded.0 granted).1))),
        (λ (valid, fits). guarded.1 (valid, (h n).1 (grind int_laws))),
      )

  reserve_under_iff :
      (ctx : Context) (key id : Text) (estimate : ℕ) (s : S) (r : RuntimeQuotaRecord)
      → Answers storage ctx s
      → Reads storage key s r
      → IsMicros r.budget_micros (micros r.budget_micros)
      → (is_ok (reserve_under storage ctx (ok key) (ok id) (pos estimate) s).0 ≡ true)
        ↔ (used r + estimate ≤ micros r.budget_micros)
  unfolding reserve_under
  reserve_under_iff ctx key id estimate s r answers reads b =
      rw
        (
          is_ok-then {A = RuntimeQuotaReservation}
              (storage.update ctx key
                (change storage (err policy_missing) (admit (pos estimate) id)) s).0
              (record { key = key; id = id; done = false }),
          answers key (change storage (err policy_missing) (admit (pos estimate) id)),
          change-some storage (err policy_missing) (admit (pos estimate) id) key s r reads,
          is_ok-bind (admit (pos estimate) id r),
        )
        (admit_iff estimate id r (Reads-IsSoundRecord storage key s r reads) b)

  -- Where the store answers as the update function does and the record of the tenant reads with a
  -- budget, Reserve with a live context, a storage and a new id grants exactly the valid estimates
  -- that fit in the budget beside what is spent and reserved.
  pub quota_reserve_iff :
      (ctx : Context) (l : RuntimeQuotaLedger) (key id : Text) (estimate : ℤ) (s : S)
      (r : RuntimeQuotaRecord)
      → context_error ctx ≡ none
      → l.connected ≡ true
      → runtime_quota_key storage l.tenant_id ≡ ok key
      → Answers storage ctx s
      → Reads storage key s r
      → IsMicros r.budget_micros (micros r.budget_micros)
      → (is_ok (reserve storage ctx l (ok id) estimate s).0 ≡ true) ↔ (
          (invalid_estimate estimate ≡ false)
          × (pos (used r) +ℤ estimate ≤ℤ pos (micros r.budget_micros)))
  unfolding reserve
  quota_reserve_iff ctx l key id estimate s r live connected named answers reads b =
      rw (live, connected, named)
        (tested {A = RuntimeQuotaReservation} (used r) (micros r.budget_micros) s
          (validation "estimate_micros" estimate)
          (λ n. (reserve_under storage ctx (ok key) (ok id) n s))
          (λ n. reserve_under_iff ctx key id n s r answers reads b) estimate)

  -- What Reserve asked of the record, and the record after it.
  abbrev pub Granted : (key id : Text) → (estimate : ℕ) → RuntimeQuotaRecord → S → Type 0
  Granted key id estimate r s' =
      IsMicros r.budget_micros (micros r.budget_micros)
      × (used r + estimate ≤ micros r.budget_micros)
      × ((r2 : RuntimeQuotaRecord) × Reads storage key s' r2
          × Same (with_reservation (pos estimate) id r) r2)

  Changed-Granted :
      (key id : Text) (estimate : ℕ) (r : RuntimeQuotaRecord) (s' : S)
      → IsSoundRecord r
      → Changed storage key (admit (pos estimate) id) r s'
      → Granted key id estimate r s'
  Changed-Granted key id estimate r s' sound (r1, e, (r2, reads, same)) =
      let (b, fits, made) = admit-ok estimate id r r1 sound e in
      (b, fits, (r2, reads, subst (λ x. Same x r2) made same))

  abbrev pub ReserveOutcome :
      (key id : Text)
      → (estimate : ℤ) → RuntimeQuotaRecord
      → Result RuntimeQuotaReservation × S
      → Type 0
  ReserveOutcome key id estimate r (ok h, s') =
      (h ≡ record { key = key; id = id; done = false })
      × ((n : ℕ) × (estimate ≡ pos n) × Granted key id n r s')
  ReserveOutcome key id estimate r (err _, s') =
      Reads storage key s' r ⊎ ((n : ℕ) × (estimate ≡ pos n) × Granted key id n r s')

  module _ (atomic : IsAtomic storage) where
    admit_sound :
        (id : Text) (n : ℕ) (r : RuntimeQuotaRecord)
        → IsSoundRecord r
        → n < 9223372036854775808
        → text_eqb id [] ≡ false
        → (r1 : RuntimeQuotaRecord) → admit (pos n) id r ≡ ok r1
        → IsSoundRecord r1
    admit_sound id n r sound lt given r1 e =
        let (_, _, made) = admit-ok n id r r1 sound e in
        subst IsSoundRecord (sym made) (with_reservation-IsSoundRecord n id r lt given sound)

    reserve_under-ReserveOutcome :
        (ctx : Context) (key id : Text) (n : ℕ) (s : S) (r : RuntimeQuotaRecord)
        → n < 9223372036854775808
        → text_eqb id [] ≡ false
        → Reads storage key s r
        → ReserveOutcome key id (pos n) r (reserve_under storage ctx (ok key) (ok id) (pos n) s)
    unfolding reserve_under
    reserve_under-ReserveOutcome ctx key id n s r lt given reads =
        outcome (storage.update ctx key (change storage (err policy_missing) (admit (pos n) id)) s)
          (update-ChangeOutcome storage atomic ctx (err policy_missing) (admit (pos n) id) key s r
            (admit_sound id n r sound lt given) reads)
      where
        sound : IsSoundRecord r
        sound = Reads-IsSoundRecord storage key s r reads

        outcome :
            (c : Result (Unit {0}) × S)
            → ChangeOutcome storage key (admit (pos n) id) r c
            → ReserveOutcome key id
                (pos n)
                r
                (c.0 >>= (λ _. ok (record { key = key; id = id; done = false })), c.1)
        outcome (ok _, s') changed = (refl, (n, refl, Changed-Granted key id n r s' sound changed))
        outcome (err _, s') (inl same) = inl same
        outcome (err _, s') (inr changed) =
            inr (n, refl, Changed-Granted key id n r s' sound changed)

    -- What Reserve has done to the record when it reports a grant or an error.
    pub quota_reserve_lem :
        (ctx : Context) (l : RuntimeQuotaLedger) (key id : Text) (estimate : ℤ) (s : S)
        (r : RuntimeQuotaRecord)
        → runtime_quota_key storage l.tenant_id ≡ ok key
        → text_eqb id [] ≡ false
        → Reads storage key s r
        → ReserveOutcome key id estimate r (reserve storage ctx l (ok id) estimate s)
    unfolding reserve
    quota_reserve_lem ctx l key id estimate s r named given reads =
        checked-elim (ReserveOutcome key id estimate r) (context_error ctx) s (λ _ _. inl reads)
          (λ _.
            if-elim (ReserveOutcome key id estimate r) (invalid_estimate estimate) (λ _. inl reads)
              (λ valid.
                if-elim (ReserveOutcome key id estimate r) (not l.connected) (λ _. inl reads)
                  (λ _. rw named (under estimate valid))))
      where
        under :
            (estimate : ℤ)
            → invalid_estimate estimate ≡ false
            → ReserveOutcome key id estimate r
                (reserve_under storage ctx (ok key) (ok id) estimate s)
        under (negsuc n) valid = ground arith
        under (pos n) valid =
            reserve_under-ReserveOutcome ctx key id n s r (ground arith) given reads
