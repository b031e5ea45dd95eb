-- ===== src/Quota/Settlement.antt =====
-- What Commit and Release of nexssflow/storage_backend.go have done.
use cost.Prelude.{
  ℕ, ◌+◌, ◌<◌, ◌≡◌, refl, sym, subst, ◌∙◌, ◌⊎◌, inl, inr, ℤ, pos, negsuc, pos_part, some, true,
  false, arith, if-elim,
}
use mathlib.Core.Bool.{true≢false}
use cost.Text.{Text}
use cost.Errors.{Context, context_error, Result, ok, err, checked-elim}
use cost.Reservation.{clamp}
use cost.Quota.Record.{
  RuntimeQuotaRecord, entries, get_amount, delete_amount, with_spent, charge, drop_reservation,
}
use cost.Quota.Base.{Storage, RuntimeQuotaReservation, disappeared, mark_done, commit, release}
use cost.Quota.Amounts.{micros}
use cost.Quota.Records.{Same, IsSoundRecord}
use cost.Quota.Updates.{
  charge_lem, drop_reservation_lem, with_spent-IsSoundRecord, drop_reservation-IsSoundRecord,
}
use cost.Quota.Store.{
  IsAtomic, Reads, Reads-IsSoundRecord, Changed, ChangeOutcome, update-ChangeOutcome,
}

-- A negative actual cost counts as 0.
clamp_pos : (actual : ℤ) → clamp actual ≡ pos (pos_part actual)
clamp_pos (pos n) = ground arith
clamp_pos (negsuc n) = ground arith

module _ {S V : Type 0} (storage : Storage S V) where
  -- The reservation was there, and the record after it has the actual cost added to what is spent
  -- (which an int64 holds) and no reservation under the id.
  abbrev pub Charged : (key id : Text) → (actual : ℕ) → RuntimeQuotaRecord → S → Type 0
  Charged key id actual r s' =
      (raw : Text) × (get_amount id (entries r) ≡ some raw)
      × (micros r.spent_micros + actual < 9223372036854775808)
      × ((r2 : RuntimeQuotaRecord) × Reads storage key s' r2
          × Same (with_spent id (pos (micros r.spent_micros + actual)) r) r2)

  -- The reservation was there, and the record after it has no reservation under the id.
  abbrev pub Dropped : (key id : Text) → RuntimeQuotaRecord → S → Type 0
  Dropped key id r s' =
      (raw : Text) × (get_amount id (entries r) ≡ some raw)
      × ((r2 : RuntimeQuotaRecord) × Reads storage key s' r2
          × Same (record r { reservations = some (delete_amount id (entries r)) }) r2)

  -- After a success the handle is done and the record changed; after an error the handle is as
  -- before, and so is the record, or it has changed all the same.
  abbrev pub SettleOutcome :
      (S → Type 0)
      → RuntimeQuotaReservation
      → RuntimeQuotaRecord
      → Result (Unit {0}) × (RuntimeQuotaReservation × S)
      → Type 0
  SettleOutcome Done h r (ok _, (h', s')) = (h' ≡ record h { done = true }) × Done s'
  SettleOutcome Done h r (err _, (h', s')) = (h' ≡ h) × (Reads storage h.key s' r ⊎ Done s')

  mark_done-SettleOutcome :
      (Done : S → Type 0) (f : RuntimeQuotaRecord → Result RuntimeQuotaRecord)
      (h : RuntimeQuotaReservation) (r : RuntimeQuotaRecord) (c : Result (Unit {0}) × S)
      → ((s' : S) → Changed storage h.key f r s' → Done s')
      → ChangeOutcome storage h.key f r c
      → SettleOutcome Done h r (mark_done storage h c)
  mark_done-SettleOutcome Done f h r (ok _, s') done changed = (refl, done s' changed)
  mark_done-SettleOutcome Done f h r (err _, s') done (inl same) = (refl, inl same)
  mark_done-SettleOutcome Done f h r (err _, s') done (inr changed) = (refl, inr (done s' changed))

  Changed-Charged :
      (key id : Text) (actual : ℕ) (r : RuntimeQuotaRecord) (s' : S)
      → IsSoundRecord r
      → Changed storage key (charge (pos actual) id) r s'
      → Charged key id actual r s'
  Changed-Charged key id actual r s' sound (r1, e, (r2, reads, same)) =
      let (raw, held, fits, made) = charge_lem actual id r r1 sound e in
      (raw, held, fits, (r2, reads, subst (λ x. Same x r2) made same))

  Changed-Dropped :
      (key id : Text) (r : RuntimeQuotaRecord) (s' : S)
      → Changed storage key (drop_reservation id) r s'
      → Dropped key id r s'
  Changed-Dropped key id r s' (r1, e, (r2, reads, same)) =
      let (raw, held, made) = drop_reservation_lem id r r1 e in
      (raw, held, (r2, reads, subst (λ x. Same x r2) made same))

  -- On a handle that is done nothing happens.
  pub commit_done :
      (ctx : Context) (actual : ℤ) (h : RuntimeQuotaReservation) (s : S)
      → h.done ≡ true
      → (commit storage ctx actual h s).1.1 ≡ s
  unfolding commit
  commit_done ctx actual h s done =
      checked-elim Unchanged (context_error ctx) (h, s) (λ _ _. refl)
        (λ _.
          if-elim Unchanged h.done (λ _. refl) (λ fresh. absurd (true≢false (sym done ∙ fresh))))
    where
      Unchanged : Result (Unit {0}) × (RuntimeQuotaReservation × S) → Type 0
      Unchanged c = c.1.1 ≡ s

  pub release_done :
      (ctx : Context) (h : RuntimeQuotaReservation) (s : S)
      → h.done ≡ true
      → (release storage ctx h s).1.1 ≡ s
  unfolding release
  release_done ctx h s done =
      checked-elim Unchanged (context_error ctx) (h, s) (λ _ _. refl)
        (λ _.
          if-elim Unchanged h.done (λ _. refl) (λ fresh. absurd (true≢false (sym done ∙ fresh))))
    where
      Unchanged : Result (Unit {0}) × (RuntimeQuotaReservation × S) → Type 0
      Unchanged c = c.1.1 ≡ s

  module _ (atomic : IsAtomic storage) where
    -- Commit of an open handle on an atomic store: after a reported success the handle is done,
    -- the record had its reservation, and the record is stored with the actual cost (a negative
    -- one as 0) added to what is spent, which an int64 holds, and without the reservation, up to
    -- the order of its map; after an error the handle is open and the record as before, or as
    -- after a success.
    pub quota_commit_lem :
        (ctx : Context) (actual : ℤ) (h : RuntimeQuotaReservation) (s : S) (r : RuntimeQuotaRecord)
        → h.done ≡ false
        → Reads storage h.key s r
        → SettleOutcome (Charged h.key h.id (pos_part actual) r) h r (commit storage ctx actual h s)
    unfolding commit
    quota_commit_lem ctx actual h s r fresh reads =
        checked-elim (SettleOutcome Done h r) (context_error ctx) (h, s) (λ _ _. (refl, inl reads))
          (λ _.
            if-elim (SettleOutcome Done h r) h.done (λ done. absurd (true≢false (sym done ∙ fresh)))
              (λ _. rw (clamp_pos actual) (
                mark_done-SettleOutcome Done (charge (pos (pos_part actual)) h.id) h r _
                  (λ s'. Changed-Charged h.key h.id (pos_part actual) r s' sound)
                  (update-ChangeOutcome storage atomic ctx disappeared
                    (charge (pos (pos_part actual)) h.id) h.key s r charged-sound reads))))
      where
        Done : S → Type 0
        Done = Charged h.key h.id (pos_part actual) r

        sound : IsSoundRecord r
        sound = Reads-IsSoundRecord storage h.key s r reads

        charged-sound :
            (r1 : RuntimeQuotaRecord)
            → charge (pos (pos_part actual)) h.id r ≡ ok r1
            → IsSoundRecord r1
        charged-sound r1 e =
            let (raw, held, fits, made) = charge_lem (pos_part actual) h.id r r1 sound e in
            subst IsSoundRecord (sym made)
              (with_spent-IsSoundRecord (micros r.spent_micros + pos_part actual) h.id r fits sound)

    -- Release of an open handle: the reservation is dropped, or nothing has happened, or a failed
    -- update has been stored all the same.
    pub quota_release_lem :
        (ctx : Context) (h : RuntimeQuotaReservation) (s : S) (r : RuntimeQuotaRecord)
        → h.done ≡ false
        → Reads storage h.key s r
        → SettleOutcome (Dropped h.key h.id r) h r (release storage ctx h s)
    unfolding release
    quota_release_lem ctx h s r fresh reads =
        checked-elim (SettleOutcome (Dropped h.key h.id r) h r) (context_error ctx) (h, s)
          (λ _ _. (refl, inl reads))
          (λ _.
            if-elim (SettleOutcome (Dropped h.key h.id r) h r) h.done
              (λ done. absurd (true≢false (sym done ∙ fresh)))
              (λ _.
                mark_done-SettleOutcome (Dropped h.key h.id r) (drop_reservation h.id) h r _
                  (λ s'. Changed-Dropped h.key h.id r s')
                  (update-ChangeOutcome storage atomic ctx disappeared (drop_reservation h.id) h.key
                    s r dropped-sound reads)))
      where
        dropped-sound :
            (r1 : RuntimeQuotaRecord) → drop_reservation h.id r ≡ ok r1 → IsSoundRecord r1
        dropped-sound r1 e =
            let (raw, held, made) = drop_reservation_lem h.id r r1 e in
            subst IsSoundRecord (sym made)
              (drop_reservation-IsSoundRecord h.id r (Reads-IsSoundRecord storage h.key s r reads))
