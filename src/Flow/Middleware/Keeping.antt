-- ===== src/Flow/Middleware/Keeping.antt =====
-- What all the calls of a ledger keep, the middleware keeps.
use cost.Prelude.{ℕ, ℤ, pos, ltb_ℤ, Option, none, some, if-elim, List, [], ◌∷◌}
use cost.Text.{Text}
use cost.Errors.{Context, background, Error, errorf, is, err_budget_exceeded, Result, ok, err}
use cost.Event.{Event}
use cost.Flow.Value.{Value, nil_value}
use cost.Flow.Reserver.{Reserver, finish_reservation, actual_cost}
use cost.Flow.Middleware.{
  ActionEnd, action_panicked, action_failed, action_returned, Reply, Style, released, recorded,
  paid, committed, with_reservation, answered, guarded_action,
}

pub record Keeps {S H : Type 0} (ledger : Reserver S H) (P : S → Type 0) : Type 0 where
  pub reserve_keeps :
      (ctx : Context) (estimate : ℤ) (s : S) → P s → P (ledger.reserve ctx estimate s).1
  pub commit_keeps :
      (ctx : Context) (actual : ℤ) (h : H) (s : S) → P s → P (ledger.commit ctx actual h s).1.1
  pub release_keeps : (ctx : Context) (h : H) (s : S) → P s → P (ledger.release ctx h s).1.1
  pub record_keeps :
      (ctx : Context) (now : ℕ) (event : Event) (s : S)
      → P s
      → P (ledger.record_event ctx now event s).1

module _ {S H : Type 0} (ledger : Reserver S H) (style : Style) (P : S → Type 0)
    (keeps : Keeps ledger P) where
  abbrev KeptReply : Reply × S → Type 0
  KeptReply c = P c.1

  released-Keeps :
      (output : Value) (errors : List Error) (h : H) (s : S)
      → P s
      → P (released ledger style output errors h s).1
  unfolding released finish_reservation
  released-Keeps output errors h s p = keeps.release_keeps background h s p

  recorded-Keeps :
      (output : Value) (c : Result (Unit {0}) × S) → P c.1 → P (recorded ledger style output c).1
  recorded-Keeps output (ok _, s) p = p
  recorded-Keeps output (err e, s) p = p

  paid-Keeps :
      (now : ℕ) (name : Text) (output : Value) (actual : ℤ) (in_commit : Option Text) (s : S)
      → P s
      → P (paid ledger style now name output actual in_commit s).1
  paid-Keeps now name output actual (some state) s p = p
  paid-Keeps now name output actual none s p =
      recorded-Keeps output _ (keeps.record_keeps background now _ s p)

  committed-Keeps :
      (now : ℕ) (name : Text) (output : Value) (actual : ℤ) (c : Result (Unit {0}) × (H × S))
      → P c.1.1
      → P (committed ledger style now name output actual c).1
  committed-Keeps now name output actual (err e, (h, s)) p =
      released-Keeps nil_value (errorf style.settle_format style.operands e ∷ []) h s p
  committed-Keeps now name output actual (ok _, (h, s)) p =
      if-elim KeptReply (ltb_ℤ (pos 0) actual)
        (λ _. paid-Keeps now name output actual style.in_commit s p) (λ _. p)

  with_reservation-Keeps :
      (now : ℕ) (name : Text) (estimate : ℤ) (action : ActionEnd) (h : H) (s : S)
      → P s
      → P (with_reservation ledger style now name estimate action h s).1
  unfolding with_reservation finish_reservation
  with_reservation-Keeps now name estimate action_panicked h s p =
      keeps.release_keeps background h s p
  with_reservation-Keeps now name estimate (action_failed output e) h s p =
      released-Keeps output (e ∷ []) h s p
  with_reservation-Keeps now name estimate (action_returned output reported) h s p =
      let actual = actual_cost estimate reported in
      committed-Keeps now name output actual (ledger.commit background actual h s)
        (keeps.commit_keeps background actual h s p)

  answered-Keeps :
      (now : ℕ) (name : Text) (input : Value) (estimate : ℤ) (action : ActionEnd) (c : Result H × S)
      → P c.1
      → P (answered ledger style now name input estimate action c).1
  answered-Keeps now name input estimate action (ok h, s) p =
      with_reservation-Keeps now name estimate action h s p
  answered-Keeps now name input estimate action (err e, s) p =
      if-elim KeptReply (is e err_budget_exceeded) (λ _. p) (λ _. p)

  pub guarded_action-Keeps :
      (ctx : Context) (now : ℕ) (name : Text) (input : Value) (estimate : ℤ) (action : ActionEnd)
      (s : S)
      → P s
      → P (guarded_action ledger style ctx now name input estimate action s).1
  unfolding guarded_action
  guarded_action-Keeps ctx now name input estimate action s p =
      answered-Keeps now name input estimate action (ledger.reserve ctx estimate s)
        (keeps.reserve_keeps ctx estimate s p)
