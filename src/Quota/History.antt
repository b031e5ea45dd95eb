-- ===== src/Quota/History.antt =====
-- Sequences of calls of nexssflow/storage_backend.go on the record of one tenant.
use cost.Prelude.{
  ◌≤◌, ◌≡◌, sym, subst, inl, inr, ℤ, pos, negsuc, pos_part, ◌≤ℤ◌, some, List, [], ◌∷◌, Bool, false,
  not, ltb_ℤ, arith, if-elim, Bool-cases,
}
use cost.Int64.{IsInt64}
use cost.Text.{Text, text_eqb}
use cost.Errors.{Context, Result, ok, checked-elim}
use cost.Quota.Record.{RuntimeQuotaRecord, entries, get_amount}
use cost.Quota.Base.{
  Storage, RuntimeQuotaLedger, RuntimeQuotaReservation, runtime_quota_key, nil_error, set_under,
  set_runtime_budget, reserve, commit, release,
}
use cost.Quota.Amounts.{micros}
use cost.Quota.Records.{used}
use cost.Quota.Store.{IsAtomic, Reads}
use cost.Quota.Admission.{quota_reserve_lem}
use cost.Quota.Settlement.{
  Charged, Dropped, commit_done, release_done, quota_commit_lem, quota_release_lem,
}
use cost.Quota.Within.{
  IsWithinBudget, Charged-IsWithinBudget, Dropped-IsWithinBudget, set_under-IsWithinBudget,
  reserve-IsWithinBudget, settle-IsWithinBudget,
}

pub data QuotaCall : Type 0 where
  budget_call : Context → (connected : Bool) → (tenant_id : Text) → (limit : ℤ) → QuotaCall
  reserve_call : Context → RuntimeQuotaLedger → (id : Text) → (estimate : ℤ) → QuotaCall
  commit_call : Context → (actual : ℤ) → RuntimeQuotaReservation → QuotaCall
  release_call : Context → RuntimeQuotaReservation → QuotaCall

module _ {S V : Type 0} (storage : Storage S V) where
  -- The store after a call.
  unfoldable pub apply : QuotaCall → S → S
  apply (budget_call ctx connected tenant_id limit) s =
      (set_runtime_budget storage ctx connected tenant_id limit s).1
  apply (reserve_call ctx l id estimate) s = (reserve storage ctx l (ok id) estimate s).1
  apply (commit_call ctx actual h) s = (commit storage ctx actual h s).1.1
  apply (release_call ctx h) s = (release storage ctx h s).1.1

  unfoldable pub run : List QuotaCall → S → S
  unfolding apply
  run [] s = s
  run (c ∷ calls) s = run calls (apply c s)

  -- A call on the record under the key that does not itself ask for more than the budget: a new
  -- budget covers what is in use, and an actual cost is not above what was reserved for it.
  abbrev pub IsModest : Text → QuotaCall → S → Type 0
  IsModest key (budget_call ctx connected tenant_id limit) s =
      (runtime_quota_key storage tenant_id ≡ ok key)
      × IsInt64 limit
      × ((r : RuntimeQuotaRecord) → Reads storage key s r → pos (used r) ≤ℤ limit)
  IsModest key (reserve_call ctx l id estimate) s =
      (runtime_quota_key storage l.tenant_id ≡ ok key) × (text_eqb id [] ≡ false)
  IsModest key (commit_call ctx actual h) s =
      (h.key ≡ key)
      × ((r : RuntimeQuotaRecord) (raw : Text)
          → Reads storage key s r
          → get_amount h.id (entries r) ≡ some raw
          → pos_part actual ≤ micros raw)
  IsModest key (release_call ctx h) s = h.key ≡ key

  unfoldable pub AllModest : Text → List QuotaCall → S → Type 0
  AllModest key [] s = Unit
  AllModest key (c ∷ calls) s = IsModest key c s × AllModest key calls (apply c s)

  module _ (atomic : IsAtomic storage) where
    budget-IsWithinBudget :
        (ctx : Context) (connected : Bool) (tenant_id : Text) (limit : ℤ) (key : Text) (s : S)
        → IsModest key (budget_call ctx connected tenant_id limit) s
        → IsWithinBudget storage key s
        → IsWithinBudget storage key (set_runtime_budget storage ctx connected tenant_id limit s).1
    unfolding set_runtime_budget
    budget-IsWithinBudget ctx connected tenant_id limit key s (named, fits64, covers)
          (r, reads, within) =
        checked-elim Kept (nil_error ctx) s (λ _ _. (r, reads, within))
          (λ _.
            if-elim Kept (not connected) (λ _. (r, reads, within))
              (λ _.
                if-elim Kept (ltb_ℤ limit (pos 0)) (λ _. (r, reads, within))
                  (λ valid. rw named (under limit valid fits64 (covers r reads)))))
      where
        Kept : Result (Unit {0}) × S → Type 0
        Kept c = IsWithinBudget storage key c.1

        under :
            (limit : ℤ)
            → ltb_ℤ limit (pos 0) ≡ false
            → IsInt64 limit
            → pos (used r) ≤ℤ limit
            → IsWithinBudget storage key (set_under storage ctx limit (ok key) s).1
        under (negsuc n) valid lt covered = ground arith
        under (pos n) valid lt covered =
            set_under-IsWithinBudget storage atomic ctx key n s r (omega (arith, lt))
              (omega (arith, covered)) reads within

    pub commit-IsWithinBudget :
        (ctx : Context) (actual : ℤ) (h : RuntimeQuotaReservation) (s : S)
        → ((r : RuntimeQuotaRecord) (raw : Text)
            → Reads storage h.key s r
            → get_amount h.id (entries r) ≡ some raw
            → pos_part actual ≤ micros raw)
        → IsWithinBudget storage h.key s
        → IsWithinBudget storage h.key (commit storage ctx actual h s).1.1
    commit-IsWithinBudget ctx actual h s modest (r, reads, within) = elim (Bool-cases h.done) [
      | inl done ↦ (
        r,
        subst (λ s'. Reads storage h.key s' r) (sym (commit_done storage ctx actual h s done))
            reads,
        within,
      )
      | inr fresh ↦
          settle-IsWithinBudget storage (Charged storage h.key h.id (pos_part actual) r) h r
            (commit storage ctx actual h s) within
            (λ s'.
              Charged-IsWithinBudget storage h.key h.id (pos_part actual) r s'
                (λ raw held. modest r raw reads held) within)
            (quota_commit_lem storage atomic ctx actual h s r fresh reads)
    ]

    pub release-IsWithinBudget :
        (ctx : Context) (h : RuntimeQuotaReservation) (s : S)
        → IsWithinBudget storage h.key s
        → IsWithinBudget storage h.key (release storage ctx h s).1.1
    release-IsWithinBudget ctx h s (r, reads, within) = elim (Bool-cases h.done) [
      | inl done ↦ (
        r,
        subst (λ s'. Reads storage h.key s' r) (sym (release_done storage ctx h s done)) reads,
        within,
      )
      | inr fresh ↦
          settle-IsWithinBudget storage (Dropped storage h.key h.id r) h r (release storage ctx h s)
            within (λ s'. Dropped-IsWithinBudget storage h.key h.id r s' within)
            (quota_release_lem storage atomic ctx h s r fresh reads)
    ]

    apply-IsWithinBudget :
        (key : Text) (c : QuotaCall) (s : S)
        → IsModest key c s
        → IsWithinBudget storage key s
        → IsWithinBudget storage key (apply c s)
    unfolding apply
    apply-IsWithinBudget key (budget_call ctx connected tenant_id limit) s modest within =
        budget-IsWithinBudget ctx connected tenant_id limit key s modest within
    apply-IsWithinBudget key (reserve_call ctx l id estimate) s (named, given) (r, reads, within) =
        reserve-IsWithinBudget storage key id estimate r (reserve storage ctx l (ok id) estimate s)
          within (quota_reserve_lem storage atomic ctx l key id estimate s r named given reads)
    apply-IsWithinBudget key (commit_call ctx actual h) s (named, modest) within =
        subst (λ k. IsWithinBudget storage k (commit storage ctx actual h s).1.1) named
          (commit-IsWithinBudget ctx actual h s
            (λ r raw reads. modest r raw (subst (λ k. Reads storage k s r) named reads))
            (subst (λ k. IsWithinBudget storage k s) (sym named) within))
    apply-IsWithinBudget key (release_call ctx h) s named within =
        subst (λ k. IsWithinBudget storage k (release storage ctx h s).1.1) named
          (release-IsWithinBudget ctx h s
            (subst (λ k. IsWithinBudget storage k s) (sym named) within))

    -- On an atomic store, a sequence of SetRuntimeBudget, Reserve, Commit and Release calls on the
    -- record of a tenant keeps what is spent and what is reserved within its budget, if each new
    -- budget covers what is in use and no commit charges more than was reserved for it; whatever
    -- the contexts are and also where an update reports an error.
    pub run-IsWithinBudget :
        (key : Text) (calls : List QuotaCall) (s : S)
        → AllModest key calls s
        → IsWithinBudget storage key s
        → IsWithinBudget storage key (run calls s)
    unfolding run AllModest
    run-IsWithinBudget key [] s modest within = within
    run-IsWithinBudget key (c ∷ calls) s (modest, rest) within =
        run-IsWithinBudget key calls (apply c s) rest (apply-IsWithinBudget key c s modest within)
