-- ===== src/Sql.antt =====
-- Transactions of database/sql, as the PostgreSQL backends use them (BeginTx, statements, Commit,
-- and the deferred Rollback). The tables are a value that each statement takes and returns. Which
-- statement the driver fails, and how a Commit that reports an error has ended, is an argument.
pub mod Rules
use Prim.Native.String.{String}
use cost.Prelude.{ℤ, Bool, true, false, if◌then◌else◌, Option, none, some, List, [], leb_ℤ, ◌&&◌}
use cost.Int64.{min_int64, max_int64}
use cost.Errors.{Error, errorf, message, Result, ok, err}

-- A statement inside a transaction.
abbrev pub Tx {ℓ} : Type 0 → Type ℓ → Type ℓ
Tx T A = T → Result A × T

infixl 5 ◌>>=◌ ◌>>◌
abbrev pub ◌>>=◌ {ℓ κ} : {T : Type 0} {A : Type ℓ} {B : Type κ} → Tx T A → (A → Tx T B) → Tx T B
◌>>=◌ m f t = let (r, t') = m t in elim r [ ok a ↦ f a t' | err e ↦ (err e, t') ]

abbrev pub ◌>>◌ {ℓ} : {T : Type 0} {B : Type ℓ} → Tx T (Unit {0}) → Tx T B → Tx T B
m >> k = m >>= λ _. k

abbrev pub pure {ℓ} : {T : Type 0} {A : Type ℓ} → A → Tx T A
pure a t = (ok a, t)

abbrev pub fail {ℓ} : {T : Type 0} {A : Type ℓ} → Error → Tx T A
fail e t = (err e, t)

abbrev pub gets {ℓ} : {T : Type 0} {A : Type ℓ} → (T → A) → Tx T A
gets f t = (ok (f t), t)

abbrev pub modify : {T : Type 0} → (T → T) → Tx T (Unit {0})
modify f t = (ok tt, f t)

-- The driver's error on a statement, wrapped as the caller does.
abbrev pub attempt : {T : Type 0} → String → Option Error → Tx T (Unit {0})
attempt format none t = (ok tt, t)
attempt format (some e) t = (err (errorf format [] e), t)

abbrev pub require {ℓ} : {T : Type 0} {A : Type ℓ} → Option A → Error → Tx T A
require none e t = (err e, t)
require (some a) e t = (ok a, t)

abbrev pub check : {T : Type 0} → Bool → Error → Tx T (Unit {0})
check b e t = (if b then ok tt else err e, t)

-- Does a numeric value fit BIGINT, and a Go int64?
abbrev pub fits_int64 : ℤ → Bool
fits_int64 a = leb_ℤ min_int64 a && leb_ℤ a max_int64

-- How tx.Commit ends: with success, or with an error, and then the changes may have been applied
-- or not.
pub data CommitOutcome : Type 0 where
  committed : CommitOutcome
  commit_failed : Error → (applied : Bool) → CommitOutcome

-- What the driver does in one transaction.
pub record Faults (Statement : Type 0) : Type 0 where
  pub begin_error : Option Error
  pub statement_error : Statement → Option Error
  pub commit_outcome : CommitOutcome

-- The end of a body: the format of a failed commit, and what the method returns after a good one.
pub record Finish {ℓ} (A : Type ℓ) : Type ℓ where
  pub commit_format : String
  pub result : Result A

-- After the body: tx.Commit, or the deferred Rollback if the body failed. The transaction began at
-- `t`.
abbrev pub conclude {ℓ} :
    {T : Type 0} {A : Type ℓ} → CommitOutcome → (t : T) → Result (Finish A) × T → Result A × T
conclude outcome t (err e, t') = (err e, t)
conclude committed t (ok f, t') = (f.result, t')
conclude (commit_failed e applied) t (ok f, t') =
    (err (errorf f.commit_format [] e), if applied then t' else t)

-- BeginTx, the body and its end.
abbrev pub begin {ℓ} :
    {T : Type 0} {A : Type ℓ} → Option Error → String → T → Result A × T → Result A × T
begin none format t rest = rest
begin (some e) format t rest = (err (errorf format [] e), t)

unfoldable pub transaction {ℓ} :
    {S T : Type 0} {A : Type ℓ} → Faults S → (begin_format : String) → Tx T (Finish A) → Tx T A
transaction faults begin_format body t =
    let rest = conclude faults.commit_outcome t (body t) in
    begin faults.begin_error begin_format t rest
