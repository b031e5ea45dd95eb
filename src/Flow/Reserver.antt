-- ===== src/Flow/Reserver.antt =====
-- reserver.go as an interface: a ledger with a state `S` and reservations `H`, and what nexssflow
-- does with it.
use cost.Prelude.{
  ℕ, suc, ◌≡◌, refl, ℤ, pos, max_ℤ, Bool, true, false, if◌then◌else◌, Option, none, some, [],
  length, drop,
}
use cost.Text.{Text, text, text_eqb}
use cost.Errors.{Context, background, Result, ok, err}
use cost.Event.{Event}
use cost.Ledger.{empty_event}
use cost.World.{World, apply, reserve_call, commit_call, release_call, record_call}
use cost.Guard.{take, last_dot, domain, operation}

-- type Reserver, and type Reservation
pub record Reserver (S H : Type 0) : Type 0 where
  pub reserve : Context → (estimate : ℤ) → S → Result H × S
  pub commit : Context → (actual : ℤ) → H → S → Result (Unit {0}) × (H × S)
  pub release : Context → H → S → Result (Unit {0}) × (H × S)
  pub record_event : Context → (now : ℕ) → Event → S → Result (Unit {0}) × S

abbrev pub numbered : ℕ → Result (Unit {0}) × World → Result ℕ × World
numbered i (ok _, w) = (ok i, w)
numbered i (err e, w) = (err e, w)

abbrev pub with_handle : ℕ → Result (Unit {0}) × World → Result (Unit {0}) × (ℕ × World)
with_handle i (result, w) = (result, (i, w))

-- The local ledger, with its reservations by their numbers.
abbrev pub local : Reserver World ℕ
local = record {
  reserve =
      λ ctx estimate w. numbered (length w.reservations) (apply (reserve_call ctx estimate) w);
  commit = λ ctx actual i w. with_handle i (apply (commit_call ctx i actual) w);
  release = λ ctx i w. with_handle i (apply (release_call ctx i) w);
  record_event = λ ctx now event w. apply (record_call ctx now event) w;
}

module _ {S H : Type 0} (ledger : Reserver S H) where
  -- finishReservation: the context of the accounting is not canceled with that of the request.
  unfoldable pub finish_reservation :
      (commit : Bool) → (actual : ℤ) → H → S → Result (Unit {0}) × (H × S)
  finish_reservation commit actual h s =
      if commit then ledger.commit background actual h s else ledger.release background h s

-- actionDomainOperation
unfoldable pub action_domain_operation : Text → Text × Text
action_domain_operation name = elim (last_dot name (length name)) [
  | none ↦ if text_eqb name [] then (text "action", text "action") else (text "action", name)
  | some i ↦ (take i name, drop (suc i) name)
]

-- `actual := estimate`, or what the output reports, a negative cost as 0
abbrev pub actual_cost : (estimate : ℤ) → (reported : Option ℤ) → ℤ
actual_cost estimate none = estimate
actual_cost estimate (some cost) = max_ℤ cost (pos 0)

-- cost.Event{Domain: domain, Operation: operation, CostMicros: actual}
abbrev pub action_event : Text → (actual : ℤ) → Event
action_event name actual =
    let (domain, operation) = action_domain_operation name in
    record empty_event { domain = domain; operation = operation; cost_micros = actual }

-- nexssflow and the kernel adapter take a name apart in the same way.
pub action_domain_operation_lem :
    (name : Text) → action_domain_operation name ≡ (domain name, operation name)
unfolding action_domain_operation domain operation
action_domain_operation_lem name = parts (last_dot name (length name))
  where
    fallback :
        (b : Bool)
        → ◌≡◌ {A = Text × Text}
            (if b then (text "action", text "action") else (text "action", name))
            (text "action", if b then text "action" else name)
    fallback true = refl
    fallback false = refl

    parts :
        (o : Option ℕ)
        → ◌≡◌ {A = Text × Text}
            (elim o [
              | none ↦
                  if text_eqb name [] then (text "action", text "action") else (text "action", name)
              | some i ↦ (take i name, drop (suc i) name)
            ])
            (
              elim o [ none ↦ text "action" | some i ↦ take i name ],
              elim o [
                | none ↦ if text_eqb name [] then text "action" else name
                | some i ↦ drop (suc i) name
              ],
            )
    parts none = fallback (text_eqb name [])
    parts (some i) = refl
