-- ===== src/Contract.antt =====
-- testkit/contract.go: the run of calls that every adapter has to pass, over the interfaces of
-- reserver.go.
mod Tests
use Prim.Native.String.{String}
use cost.Prelude.{ℤ, pos, [], ◌∷◌}
use cost.Errors.{Error, message, errorf, background, Result, ok, err}
use cost.Sql.{Tx, ◌>>=◌, ◌>>◌, pure}
use cost.Flow.Reserver.{Reserver}

module _ {S H : Type 0} (backend : Reserver S H) where
  -- A call, whose error ends the test: t.Fatalf(format, err)
  abbrev fatal {ℓ} : {A : Type ℓ} → (format : String) → Result A → Result A
  fatal format (ok a) = ok a
  fatal format (err e) = err (errorf format [] e)

  abbrev pub reserving : (format : String) → (estimate : ℤ) → Tx S H
  reserving format estimate s =
      let (result, s') = backend.reserve background estimate s in (fatal format result, s')

  -- A terminal call leaves the reservation changed.
  abbrev with_reservation : H → Result (Unit {0}) → Result H
  with_reservation h (ok _) = ok h
  with_reservation h (err e) = err e

  abbrev pub committing : (format : String) → (actual : ℤ) → H → Tx S H
  committing format actual h s =
      let (result, (h', s')) = backend.commit background actual h s in
      (with_reservation h' (fatal format result), s')

  abbrev pub releasing : (format : String) → H → Tx S H
  releasing format h s =
      let (result, (h', s')) = backend.release background h s in
      (with_reservation h' (fatal format result), s')

  -- A reservation that has to be refused
  abbrev not_granted : Result H → Result (Unit {0})
  not_granted (ok _) = err (message "expected budget rejection when limit exceeded" [])
  not_granted (err _) = ok tt

  abbrev pub refused : (estimate : ℤ) → Tx S (Unit {0})
  refused estimate s =
      let (result, s') = backend.reserve background estimate s in (not_granted result, s')

  -- RunContract; an error is the message of t.Fatal.
  unfoldable pub run_contract : Tx S (Unit {0})
  run_contract = do
    reservation ← reserving "unexpected reserve error: %v" (pos 100)
    reservation ← committing "unexpected commit error: %v" (pos 40) reservation
    _ ← committing "expected commit idempotency, got: %v" (pos 90) reservation
    refused (pos 61)
    to_release ← reserving "unexpected reserve error: %v" (pos 20)
    to_release ← releasing "unexpected release error: %v" to_release
    _ ← releasing "expected release idempotency, got: %v" to_release
    pure tt
