-- ===== src/Sql/Rules.antt =====
-- Rules for transactions: what holds of the tables whenever a statement succeeds, and whatever a
-- transaction meets.
use Prim.Native.String.{String}
use cost.Prelude.{◌≡◌, refl, ap, Bool, true, false, Option, none, some}
use cost.Errors.{Error, Result, ok, err, is_ok}
use cost.Sql.{
  Tx, check, ◌>>=◌, CommitOutcome, committed, commit_failed, Faults, Finish, conclude, begin,
  transaction,
}

-- If the statement succeeds, its value and the tables it leaves satisfy `Q`.
abbrev pub OnOk {ℓ κ} : {T : Type 0} {A : Type ℓ} → (A → T → Type κ) → Result A × T → Type κ
OnOk Q (ok a, t) = Q a t
OnOk Q (err e, t) = Unit

-- The elimination that a bind computes to.
bound {ℓ κ} : {T : Type 0} {A : Type ℓ} {B : Type κ} → Result A × T → (A → Tx T B) → Result B × T
bound c f = ((λ (t : _). c) >>= f) c.1

pub bind-OnOk {ℓ κ μ ν} :
    {T : Type 0} {A : Type ℓ} {B : Type κ} (R : A → T → Type μ) (Q : B → T → Type ν) (m : Tx T A)
    (f : A → Tx T B) (t : T)
    → OnOk R (m t)
    → ((a : A) (t' : T) → R a t' → OnOk Q (f a t'))
    → OnOk Q ((m >>= f) t)
unfolding bound
bind-OnOk R Q m f t h k = bound-OnOk (m t) h
  where
    bound-OnOk : (c : Result _ × _) → OnOk R c → OnOk Q (bound c f)
    bound-OnOk (ok a, t') h = k a t' h
    bound-OnOk (err e, t') h = tt

conclude-keeps {ℓ κ} :
    {T : Type 0} {A : Type ℓ} (P : T → Type κ) (outcome : CommitOutcome) (t : T)
    (c : Result (Finish A) × T)
    → P t
    → OnOk (λ _ t'. P t') c
    → P (conclude outcome t c).1
conclude-keeps P outcome t (err e, t') before after = before
conclude-keeps P committed t (ok f, t') before after = after
conclude-keeps P (commit_failed e true) t (ok f, t') before after = after
conclude-keeps P (commit_failed e false) t (ok f, t') before after = before

begin-keeps {ℓ κ} :
    {T : Type 0} {A : Type ℓ} (P : T → Type κ) (b : Option Error) (format : String) (t : T)
    (c : Result A × T)
    → P t
    → P c.1
    → P (begin b format t c).1
begin-keeps P none format t c before after = after
begin-keeps P (some e) format t c before after = before

-- A property of the tables that holds before, and after every successful body, holds after the
-- transaction, with any fault and any outcome of its commit.
pub transaction-keeps {ℓ κ} :
    {S T : Type 0} {A : Type ℓ} (P : T → Type κ) (faults : Faults S) (begin_format : String)
    (body : Tx T (Finish A)) (t : T)
    → P t
    → OnOk (λ _ t'. P t') (body t)
    → P (transaction faults begin_format body t).1
unfolding transaction
transaction-keeps P faults begin_format body t before after =
    begin-keeps P faults.begin_error begin_format t _ before
      (conclude-keeps P faults.commit_outcome t (body t) before after)

-- A check that passes has held, and writes nothing.
pub check-OnOk :
    {T : Type 0} (b : Bool) (e : Error) (t : T) → OnOk (λ _ t'. (b ≡ true) × (t' ≡ t)) (check b e t)
check-OnOk true e t = (refl, refl)
check-OnOk false e t = tt

pub OnOk-mono {ℓ κ μ} :
    {T : Type 0} {A : Type ℓ} (Q : A → T → Type κ) (R : A → T → Type μ) (c : Result A × T)
    → ((a : A) (t : T) → Q a t → R a t)
    → OnOk Q c
    → OnOk R c
OnOk-mono Q R (ok a, t) k h = k a t h
OnOk-mono Q R (err e, t) k h = tt

-- What a transaction that reports success has done is what its body did.
pub transaction-OnOk {ℓ κ} :
    {S T : Type 0} {A : Type ℓ} (Q : A → T → Type κ) (faults : Faults S) (begin_format : String)
    (body : Tx T (Finish A)) (t : T)
    → OnOk (λ f t'. OnOk Q (f.result, t')) (body t)
    → OnOk Q (transaction faults begin_format body t)
unfolding transaction
transaction-OnOk Q faults begin_format body t after =
    begun-OnOk faults.begin_error (conclude faults.commit_outcome t (body t))
      (concluded-OnOk faults.commit_outcome (body t) after)
  where
    concluded-OnOk :
        (o : CommitOutcome) (c : Result (Finish _) × _)
        → OnOk (λ f t'. OnOk Q (f.result, t')) c
        → OnOk Q (conclude o t c)
    concluded-OnOk o (err e, t') h = tt
    concluded-OnOk committed (ok f, t') h = h
    concluded-OnOk (commit_failed e applied) (ok f, t') h = tt

    begun-OnOk :
        (b : Option Error) (c : Result _ × _) → OnOk Q c → OnOk Q (begin b begin_format t c)
    begun-OnOk none c h = h
    begun-OnOk (some e) c h = tt

pub bind-ok {ℓ κ} :
    {T : Type 0} {A : Type ℓ} {B : Type κ} (m : Tx T A) (f : A → Tx T B) (t : T) (a : A) (t' : T)
    → m t ≡ (ok a, t')
    → (m >>= f) t ≡ f a t'
unfolding bound
bind-ok m f t a t' h = ap (λ (c : Result _ × _). bound c f) h

-- Does a body end well, with a good result?
abbrev pub granted {ℓ} : {T : Type 0} {A : Type ℓ} → Result (Finish A) × T → Bool
granted (ok f, _) = is_ok f.result
granted (err _, _) = false

granted-conclude {ℓ} :
    {T : Type 0} {A : Type ℓ} (c : Result (Finish A) × T) (t : T)
    → is_ok (conclude committed t c).0 ≡ granted c
granted-conclude (ok f, t') t = refl
granted-conclude (err e, t') t = refl

-- If the driver begins and commits, a transaction ends as its body does.
pub transaction-answers {ℓ} :
    {S T : Type 0} {A : Type ℓ} (faults : Faults S) (begin_format : String) (body : Tx T (Finish A))
    (t : T)
    → faults.begin_error ≡ none
    → faults.commit_outcome ≡ committed
    → is_ok (transaction faults begin_format body t).0 ≡ granted (body t)
unfolding transaction
transaction-answers faults begin_format body t begins commits =
    simp (begins, commits) (granted-conclude (body t) t)
