-- ===== src/Wallet/History.antt =====
-- Sequences of calls on a wallet, by any ledgers of nexssflow/wallet.go that stand for it: each call
-- has its own context, environment and faults. A terminal call brings a reservation, whatever its id.
use cost.Prelude.{◌≡◌, ℤ, List, [], ◌∷◌, sym, subst}
use cost.Text.{Text}
use cost.Errors.{Context}
use cost.Event.{Event}
use cost.Sql.{CommitOutcome}
use cost.Wallet.Tables.{Database}
use cost.Wallet.Base.{WalletLedger, Environment, WalletReservation}
use cost.Wallet.Reserve.{reserve}
use cost.Wallet.Settle.{commit, release}
use cost.Wallet.Record.{record_event}
use cost.Wallet.Accounts.{Accounted}
use cost.Wallet.Keeps.{reserve-Kept, commit-Kept, release-Kept, record_event-Kept}

pub data WalletCall : Type 0 where
  reserve_call : WalletLedger → Context → Environment → (estimate : ℤ) → WalletCall
  commit_call : WalletLedger → Context → Environment → (actual : ℤ) → WalletReservation → WalletCall
  release_call : WalletLedger → Context → Environment → WalletReservation → WalletCall
  record_call : WalletLedger → Context → CommitOutcome → Event → WalletCall

abbrev pub caller : WalletCall → WalletLedger
caller (reserve_call l _ _ _) = l
caller (commit_call l _ _ _ _) = l
caller (release_call l _ _ _) = l
caller (record_call l _ _ _) = l

-- What a call leaves of the tables.
unfoldable pub apply : WalletCall → Database → Database
apply (reserve_call l ctx env estimate) t = (reserve ctx l env estimate t).1
apply (commit_call l ctx env actual r) t = (commit ctx l env actual r t).1.1
apply (release_call l ctx env r) t = (release ctx l env r t).1.1
apply (record_call l ctx outcome event) t = (record_event ctx l outcome event t).1

unfoldable pub run : List WalletCall → Database → Database
run [] t = t
run (c ∷ calls) t = run calls (apply c t)

-- The calls are on this wallet.
abbrev pub AllOn : Text → List WalletCall → Type 0
AllOn wallet [] = Unit
AllOn wallet (c ∷ calls) = ((caller c).identity.wallet_id ≡ wallet) × AllOn wallet calls

apply-Accounted :
    (opening : ℤ) (c : WalletCall) (t : Database)
    → Accounted (caller c).identity.wallet_id opening t
    → Accounted (caller c).identity.wallet_id opening (apply c t)
unfolding apply
apply-Accounted opening (reserve_call l ctx env estimate) t a =
    reserve-Kept l env opening ctx estimate t a
apply-Accounted opening (commit_call l ctx env actual r) t a =
    commit-Kept l env opening ctx actual r t a
apply-Accounted opening (release_call l ctx env r) t a = release-Kept l env opening ctx r t a
apply-Accounted opening (record_call l ctx outcome event) t a =
    record_event-Kept l opening ctx outcome event t a

-- Every sequence of Reserve, Commit, Release and Record calls on a wallet keeps its account,
-- whatever the ledgers that stand for it, the contexts, the faults of the driver and the arguments
-- of the calls are: its row reserves exactly what its reservations hold, none of them below 0, the
-- balance covers it and is an int64, and the balance and the debits add up to the opening balance
-- and the credits.
pub run-Accounted :
    (wallet : Text) (opening : ℤ) (calls : List WalletCall) (t : Database)
    → AllOn wallet calls
    → Accounted wallet opening t
    → Accounted wallet opening (run calls t)
unfolding run
run-Accounted wallet opening [] t on a = a
run-Accounted wallet opening (c ∷ calls) t (own, on) a =
    run-Accounted wallet opening calls (apply c t) on (
      subst (λ w. Accounted w opening (apply c t)) own
        (apply-Accounted opening c t (subst (λ w. Accounted w opening t) (sym own) a)))
