-- ===== src/Ledger/Contention.antt =====
-- What ledger.go's Reserve does while other goroutines move the counter.
use cost.Prelude.{
  ◌≡◌, ◌⊎◌, ℤ, pos, ◌+ℤ◌, ◌≤ℤ◌, ◌≢◌, sym, ◌∙◌, eqb_ℤ, eqb_ℤ_iff, Option, true, false, none, some,
  List, [], ◌∷◌, arith, refl, ap, if-elim, inl, inr,
}
use cost.Int64.{IsInt64, add64}
use mathlib.Core.Bool.{true≢false}
use cost.Errors.{
  CtxError, Context, context, context_error, Error, Result, ok, err, is, unwrap, validation,
  checked, checked-elim, err_budget_exceeded,
}
use cost.Ledger.{
  Ledger, LocalReservation, Interference, invalid_estimate, budget_error, fresh, reserve_loop,
  reserve,
}
use cost.Ledger.Admission.{
  IsEstimate, Fits, budget_error-Fits, budget_error-none, loads, with_used, add64_estimate,
  invalid_estimate-IsEstimate,
}

abbrev pub AllInt64 : List ℤ → Type 0
AllInt64 [] = Unit
AllInt64 (x ∷ xs) = IsInt64 x × AllInt64 xs

-- Rounds that are lost: others have moved the counter from the value loaded, the context is live,
-- and the loop goes on. From `used` with `rounds` to come they lead to `now` with `rest`.
pub data Lost : ℤ → List Interference → ℤ → List Interference → Type 0 where
  no_round : (used : ℤ) (rounds : List Interference) → Lost used rounds used rounds
  lost_round :
      (used : ℤ) (i : Interference) (rounds : List Interference) {now : ℤ}
      {rest : List Interference}
      → i.found ≢ used
      → i.interrupted ≡ none
      → Lost i.found rounds now rest
      → Lost used (i ∷ rounds) now rest

-- Nobody moves the counter before the swap of the next round.
abbrev pub Undisturbed : ℤ → List Interference → Type 0
Undisturbed now [] = Unit
Undisturbed now (i ∷ rest) = i.found ≡ now

-- A round that ends the loop with an error, on what the others have left: the value loaded is not
-- admitted, or the swap is lost and the context is not live any more.
abbrev pub NotAdmitted : Ledger → ℤ → ℤ → Error → Ledger → Type 0
NotAdmitted l estimate now e l' =
    (¬ ((pos 0 ≤ℤ now) × Fits l.limit_micros now estimate))
    × (is e err_budget_exceeded ≡ true)
    × (l' ≡ record l { used_micros = now })

abbrev pub Interrupted : Ledger → ℤ → List Interference → Error → Ledger → Type 0
Interrupted l now [] e l' = ⊥
Interrupted l now (i ∷ rest) e l' =
    (i.found ≢ now)
    × (context_error (context i.interrupted) ≡ some e)
    × (l' ≡ record l { used_micros = i.found })

-- How the loop ends, from the counter `used`: after some lost rounds, the estimate is added to the
-- counter as it is at the swap; or nothing is written.
abbrev pub LoopOutcome :
    Ledger → ℤ → ℤ → List Interference → Result LocalReservation × Ledger → Type 0
LoopOutcome l estimate used rounds (ok r, l') =
    (now : ℤ) × (rest : List Interference) × Lost used rounds now rest
    × Undisturbed now rest
    × (pos 0 ≤ℤ now)
    × Fits l.limit_micros now estimate
    × (r ≡ record { reserved = estimate; done = false })
    × (l' ≡ record l { used_micros = now +ℤ estimate })
LoopOutcome l estimate used rounds (err e, l') =
    (now : ℤ) × (rest : List Interference) × Lost used rounds now rest
    × (NotAdmitted l estimate now e l' ⊎ Interrupted l now rest e l')

-- How a call of Reserve ends: without the loop for a context that is not live or an invalid
-- estimate, and else as the loop does.
abbrev pub Outcome :
    Context → Ledger → ℤ → List Interference → Result LocalReservation × Ledger → Type 0
Outcome ctx l estimate rounds c =
    ((e : Error) × (context_error ctx ≡ some e) × (c ≡ (err e, l)))
    ⊎ ((context_error ctx ≡ none)
        × (¬ IsEstimate estimate)
        × (c ≡ (err (validation "estimate_micros" estimate), l)))
    ⊎ ((context_error ctx ≡ none)
        × IsEstimate estimate
        × LoopOutcome l estimate l.used_micros rounds c)

-- A round that swaps.
admitted :
    (estimate : ℤ) (l : Ledger) (rounds : List Interference)
    → IsEstimate estimate
    → IsInt64 l.limit_micros
    → IsInt64 l.used_micros
    → Undisturbed l.used_micros rounds
    → budget_error l.limit_micros l.used_micros estimate ≡ none
    → LoopOutcome l estimate l.used_micros rounds
        (ok (fresh estimate), with_used l (add64 l.used_micros estimate))
admitted estimate l rounds he hl hu free e =
    let (nonneg, f) = budget_error-Fits l.limit_micros l.used_micros estimate hl hu he e in
    (
      l.used_micros,
      rounds,
      no_round l.used_micros rounds,
      free,
      nonneg,
      f,
      refl,
      ap (with_used l) (add64_estimate l.limit_micros l.used_micros estimate he f nonneg),
    )

budget_error-some :
    (limit used estimate : ℤ) (e : Error)
    → IsInt64 limit
    → IsInt64 used
    → IsEstimate estimate
    → budget_error limit used estimate ≡ some e
    → (¬ ((pos 0 ≤ℤ used) × Fits limit used estimate)) × (is e err_budget_exceeded ≡ true)
unfolding budget_error is unwrap
budget_error-some limit used estimate e hl hu he h =
    ground (arith, budget_error-none limit used estimate)

-- A round that the budget does not admit.
refused :
    (estimate : ℤ) (l : Ledger) (rounds : List Interference) (e : Error)
    → IsEstimate estimate
    → IsInt64 l.limit_micros
    → IsInt64 l.used_micros
    → budget_error l.limit_micros l.used_micros estimate ≡ some e
    → LoopOutcome l estimate l.used_micros rounds (err e, l)
refused estimate l rounds e he hl hu h =
    let (unfit, exceeded) = budget_error-some l.limit_micros l.used_micros estimate e hl hu he h in
    (l.used_micros, rounds, no_round l.used_micros rounds, inl (unfit, exceeded, refl))

-- A lost round before the others.
after_loss :
    (estimate used : ℤ) (i : Interference) (rounds : List Interference) (l : Ledger)
    (c : Result LocalReservation × Ledger)
    → i.found ≢ used
    → i.interrupted ≡ none
    → LoopOutcome (with_used l i.found) estimate i.found rounds c
    → LoopOutcome l estimate used (i ∷ rounds) c
after_loss estimate used i rounds l (ok r, l') moved live
      (now, rest, lost, free, n, f, r_eq, l_eq) =
    (now, rest, lost_round used i rounds moved live lost, free, n, f, r_eq, l_eq)
after_loss estimate used i rounds l (err e, l') moved live (now, rest, lost, inl h) =
    (now, rest, lost_round used i rounds moved live lost, inl h)
after_loss estimate used i rounds l (err e, l') moved live (now, [], lost, inr h) = absurd h
after_loss estimate used i rounds l (err e, l') moved live (now, j ∷ rest, lost, inr h) =
    (now, j ∷ rest, lost_round used i rounds moved live lost, inr h)

not_interrupted :
    (interrupted : Option CtxError)
    → context_error (context interrupted) ≡ none
    → interrupted ≡ none
not_interrupted none h = refl
not_interrupted (some e) h = ground arith

moved_from : (found used : ℤ) → eqb_ℤ found used ≡ false → found ≢ used
moved_from found used h e = true≢false (sym ((eqb_ℤ_iff found used).1 e) ∙ h)

reserve_loop-Outcome :
    (estimate : ℤ) (rounds : List Interference) (l : Ledger)
    → IsEstimate estimate
    → IsInt64 l.limit_micros
    → AllInt64 (loads l.used_micros rounds)
    → LoopOutcome l estimate l.used_micros rounds (reserve_loop estimate rounds l)
unfolding reserve_loop
reserve_loop-Outcome estimate [] l he hl h =
    checked-elim (LoopOutcome l estimate l.used_micros []) _ l
      (λ e r. refused estimate l [] e he hl h.0 r) (admitted estimate l [] he hl h.0 tt)
reserve_loop-Outcome estimate (i ∷ rounds) l he hl h =
    let found = with_used l i.found in
    checked-elim O _ l (λ e r. refused estimate l (i ∷ rounds) e he hl h.0 r)
      (λ fits.
        if-elim O (eqb_ℤ i.found l.used_micros)
          {x = (ok (fresh estimate), with_used l (add64 l.used_micros estimate))}
          {y = checked (context_error (context i.interrupted)) found
            (reserve_loop estimate rounds found)}
          (λ same.
            admitted estimate l (i ∷ rounds) he hl h.0 ((eqb_ℤ_iff i.found l.used_micros).0 same)
              fits)
          (λ other.
            let moved = moved_from i.found l.used_micros other in
            checked-elim O (context_error (context i.interrupted)) found
              (λ e stopped. (
                l.used_micros,
                i ∷ rounds,
                no_round l.used_micros (i ∷ rounds),
                inr (moved, stopped, refl),
              ))
              (λ live.
                after_loss estimate l.used_micros i rounds l (reserve_loop estimate rounds found)
                  moved (not_interrupted i.interrupted live)
                  (reserve_loop-Outcome estimate rounds found he hl h.1))))
  where
    O : Result LocalReservation × Ledger → Type 0
    O = LoopOutcome l estimate l.used_micros (i ∷ rounds)

invalid_estimate-not : (estimate : ℤ) → invalid_estimate estimate ≡ true → ¬ IsEstimate estimate
invalid_estimate-not estimate h = ground arith

-- For every list of what other goroutines do to the counter in the rounds of Reserve, int64 values
-- all, on a limit that is an int64: Reserve under a context that is not live returns its error,
-- and with an invalid estimate a validation error, and leaves the ledger as it is. Else it first
-- loses some rounds, in each of which others have moved the counter from the value loaded and the
-- context is live. Then it succeeds, with an open reservation of the estimate, nobody having moved
-- the counter since it was loaded, and the counter, which is not negative, is larger by exactly
-- the estimate, within a non-negative limit and int64; or it fails and the counter is as the
-- others left it: with a budget error where the value loaded is negative or the estimate does not
-- fit, or with the error of the context, where the round is lost and the context is not live any
-- more.
pub reserve-Outcome :
    (ctx : Context) (estimate : ℤ) (rounds : List Interference) (l : Ledger)
    → IsInt64 l.limit_micros
    → AllInt64 (loads l.used_micros rounds)
    → Outcome ctx l estimate rounds (reserve ctx estimate rounds l)
unfolding reserve
reserve-Outcome ctx estimate rounds l hl h =
    checked-elim O (context_error ctx) l (λ e stopped. inl (e, stopped, refl))
      (λ live.
        if-elim O (invalid_estimate estimate) {x = (err (validation "estimate_micros" estimate), l)}
          {y = reserve_loop estimate rounds l}
          (λ v. inr (inl (live, invalid_estimate-not estimate v, refl)))
          (λ v.
            let valid = invalid_estimate-IsEstimate estimate v in
            inr (inr (live, valid, reserve_loop-Outcome estimate rounds l valid hl h))))
  where
    O : Result LocalReservation × Ledger → Type 0
    O = Outcome ctx l estimate rounds
