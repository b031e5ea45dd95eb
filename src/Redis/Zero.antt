-- ===== src/Redis/Zero.antt =====
-- An estimate of 0 on adapters/redis/ledger.go: the scripts read its key as a missing one.
use Prim.Native.String.{String}
use cost.Prelude.{
  ℕ, ◌≡◌, refl, ℤ, pos, ◌-ℤ◌, ◌+ℤ◌, leb_ℤ, ltb_ℤ, not, ◌&&◌, false, Option, none, some, subst,
  arith, if-elim, ◌/◌, List, [], ◌∷◌, map, sym, ap, if◌then◌else◌, ◌∙◌,
}
use mathlib.Core.Bool.{true≢false}
use cost.Text.{Text, text}
use cost.Errors.{
  Context, nil_context, context, context_error, Error, checked, errorf, sentinel, txt,
  err_reservation_not_found, Result, ok, err, checked-elim,
}
use cost.Reservation.{clamp}
use cost.Redis.Keys.{Keyspace, del_amount, zrange}
use cost.Redis.{
  Ledger, Reservation, Reply, number_reply, budget_exceeded, reservation_not_found, Delivery,
  delivered, undelivered, reclaim, close, terminal_script, release_script, reserve_script, grant,
  mark_done, commit, release, reserve, reserve_with, delivery, handed, to_number, ttl_seconds,
}
use cost.Redis.Rows.{Absent, AllZero, stored, Absent-AllZero, get_amount_zero, del_amount_missing}
use cost.Redis.Accounts.{IsExact, reclaim_each-Absent, reclaim_each-AllZero}

-- What Commit and Release return for a reservation that has no key.
abbrev pub not_found : Error
not_found =
    errorf "%w: %w" (txt (text "RESERVATION_NOT_FOUND") ∷ []) (sentinel err_reservation_not_found)

-- A granted reservation is open, and its key holds 0.
abbrev ZeroGranted : Result Reservation × Keyspace → Type 0
ZeroGranted (ok r, k) = (r.done ≡ false) × AllZero r.id k.amounts
ZeroGranted (err e, k) = Unit

handed-ZeroGranted :
    (id : Text) (d : Delivery) (k k' : Keyspace) (reply : Reply)
    → AllZero id k'.amounts
    → ZeroGranted (handed id (delivery "redis: reserve: %w" d k (reply, k')))
handed-ZeroGranted id delivered k k' (number_reply _) h = (refl, h)
handed-ZeroGranted id delivered k k' budget_exceeded h = tt
handed-ZeroGranted id delivered k k' reservation_not_found h = tt
handed-ZeroGranted id (undelivered e ran) k k' (number_reply _) h = tt
handed-ZeroGranted id (undelivered e ran) k k' budget_exceeded h = tt
handed-ZeroGranted id (undelivered e ran) k k' reservation_not_found h = tt

-- A call of Commit or Release on a reservation: its context, the clock, and how its script ends for
-- the client.
pub data Attempt : Type 0 where
  commit_attempt : Context → (clock : ℕ) → Delivery → (actual : ℤ) → Attempt
  release_attempt : Context → (clock : ℕ) → Delivery → Attempt

unfoldable pub attempt :
    (ℤ → ℤ) → Attempt → Reservation → Keyspace → Result (Unit {0}) × (Reservation × Keyspace)
attempt lua (commit_attempt ctx clock d actual) r k = commit lua ctx clock d actual r k
attempt lua (release_attempt ctx clock d) r k = release lua ctx clock d r k

-- What the calls return, one after another, on what the ones before have left.
unfoldable pub answers : (ℤ → ℤ) → List Attempt → Reservation → Keyspace → List (Result (Unit {0}))
unfolding attempt
answers lua [] r k = []
answers lua (a ∷ calls) r k =
    let (result, (r', k')) = attempt lua a r k in result ∷ answers lua calls r' k'

-- The error of a call: that of the context, that of the client, or that the reservation is missing.
abbrev delivered_error : String → Delivery → Error
delivered_error format delivered = not_found
delivered_error format (undelivered e ran) = errorf format [] e

abbrev live_error : Context → Error → Error
live_error ctx e = elim (context_error ctx) [ some c ↦ c | none ↦ e ]

abbrev pub refusal : Attempt → Error
refusal (commit_attempt ctx clock d actual) = live_error ctx (delivered_error "redis: commit: %w" d)
refusal (release_attempt ctx clock d) = live_error ctx (delivered_error "redis: release: %w" d)

abbrev pub refused : Attempt → Result (Unit {0})
refused a = err (refusal a)

-- A call has reported the error, and the handle is open, with a key of 0 at most.
abbrev Refused : Reservation → Error → Result (Unit {0}) × (Reservation × Keyspace) → Type 0
Refused r e (result, (r', k')) = (result ≡ err e) × (r' ≡ r) × AllZero r.id k'.amounts

-- The guards of Commit and Release, on an open handle.
guarded-Refused :
    (ctx : Context) (e : Error) (r : Reservation) (k : Keyspace)
    (c : Result (Unit {0}) × (Reservation × Keyspace))
    → r.done ≡ false
    → AllZero r.id k.amounts
    → Refused r e c
    → Refused r
        (live_error ctx e)
        (checked (context_error ctx) (r, k) (if r.done then (ok tt, (r, k)) else c))
guarded-Refused nil_context e r k c is_open h q = (refl, refl, h)
guarded-Refused (context none) e r k c is_open h q =
    if-elim (Refused r e) r.done (λ closed. absurd (true≢false (sym closed ∙ is_open))) (λ _. q)
guarded-Refused (context (some x)) e r k c is_open h q = (refl, refl, h)

module _ (lua : ℤ → ℤ) (lua_exact : (a : ℤ) → IsExact a → lua a ≡ a) where
  lua_zero : lua (pos 0) ≡ pos 0
  lua_zero = lua_exact (pos 0) (omega arith)

  grant-AllZero :
      (limit : ℤ) (id : Text) (ttl clock : ℕ) (used : ℤ) (k : Keyspace)
      → Absent id k.amounts
      → AllZero id (grant lua limit (pos 0) id ttl clock (used, k)).1.amounts
  unfolding grant
  grant-AllZero limit id ttl clock used k absent =
      let rest : AllZero id (del_amount id k.amounts) =
        rw (del_amount_missing id k.amounts absent) (Absent-AllZero id k.amounts absent) in
      if-elim (λ (reply : Reply × Keyspace). AllZero id reply.1.amounts)
        (leb_ℤ (pos 0) (lua limit) && ltb_ℤ (lua limit) (lua (used +ℤ lua (pos 0))))
        (λ _. Absent-AllZero id k.amounts absent) (λ _. ((λ _. lua_zero), rest))

  reserve_with-ZeroGranted :
      (l : Ledger) (id : Text) (clock : ℕ) (d : Delivery) (k : Keyspace)
      → Absent id k.amounts
      → ZeroGranted (reserve_with lua l (ok id) clock d (pos 0) k)
  unfolding reserve_with reserve_script reclaim
  reserve_with-ZeroGranted l id clock d k absent =
      let reply = reserve_script lua l.limit_micros (pos 0) id (ttl_seconds l) clock k in
      handed-ZeroGranted id d k reply.1 reply.0 (
        grant-AllZero l.limit_micros id (ttl_seconds l) clock _ _ (
          reclaim_each-Absent lua lua_exact clock id (zrange 100 (clock / 1000) k.expiry)
            (to_number lua k.used) k absent))

  reserve-ZeroGranted :
      (ctx : Context) (l : Ledger) (id : Text) (clock : ℕ) (d : Delivery) (k : Keyspace)
      → Absent id k.amounts
      → ZeroGranted (reserve lua ctx l (ok id) clock d (pos 0) k)
  unfolding reserve
  reserve-ZeroGranted ctx l id clock d k absent =
      checked-elim ZeroGranted (context_error ctx) k (λ _ _. tt)
        (λ _.
          if-elim ZeroGranted (not l.connected) (λ _. tt)
            (λ _. reserve_with-ZeroGranted l id clock d k absent))

  to_number_zero : (o : Option ℤ) → stored o ≡ pos 0 → to_number lua o ≡ pos 0
  to_number_zero none h = lua_zero
  to_number_zero (some v) h = rw h lua_zero

  close-zero :
      (change : (used reserved : ℤ) → ℤ) (id : Text) (clock : ℕ) (k : Keyspace)
      → AllZero id k.amounts
      → (close lua change id clock (reclaim lua clock k)).0 ≡ reservation_not_found
  unfolding close reclaim
  close-zero change id clock k h =
      let left =
        reclaim_each-AllZero lua lua_exact clock id (zrange 100 (clock / 1000) k.expiry)
          (to_number lua k.used) k h in
      rw (to_number_zero _ (get_amount_zero clock id _ left)) refl

  close-AllZero :
      (change : (used reserved : ℤ) → ℤ) (id : Text) (clock : ℕ) (k : Keyspace)
      → AllZero id k.amounts
      → AllZero id (close lua change id clock (reclaim lua clock k)).1.amounts
  unfolding close reclaim
  close-AllZero change id clock k h =
      let left =
        reclaim_each-AllZero lua lua_exact clock id (zrange 100 (clock / 1000) k.expiry)
          (to_number lua k.used) k h in
      rw (to_number_zero _ (get_amount_zero clock id _ left)) left

  -- What a call on an open handle without a reservation leaves, its script run or not.
  settled-Refused :
      (d : Delivery) (format : String) (r : Reservation) (k : Keyspace) (c : Reply × Keyspace)
      → c.0 ≡ reservation_not_found
      → AllZero r.id k.amounts
      → AllZero r.id c.1.amounts
      → Refused r (delivered_error format d) (mark_done r (delivery format d k c))
  settled-Refused d format r k (number_reply _, k') e h h' = ground arith
  settled-Refused d format r k (budget_exceeded, k') e h h' = ground arith
  settled-Refused delivered format r k (reservation_not_found, k') e h h' = (refl, refl, h')
  settled-Refused (undelivered x ran) format r k (reservation_not_found, k') e h h' =
      (refl, refl, if-elim (λ (j : Keyspace). AllZero r.id j.amounts) ran (λ _. h') (λ _. h))

  attempt-Refused :
      (a : Attempt) (r : Reservation) (k : Keyspace)
      → r.done ≡ false
      → AllZero r.id k.amounts
      → Refused r (refusal a) (attempt lua a r k)
  unfolding attempt commit release terminal_script release_script
  attempt-Refused (commit_attempt ctx clock d actual) r k is_open h =
      let change : ℤ → ℤ → ℤ =
        λ used reserved. lua (lua (used +ℤ lua (clamp actual)) -ℤ reserved) in
      let reply = close lua change r.id clock (reclaim lua clock k) in
      guarded-Refused ctx (delivered_error "redis: commit: %w" d) r k
        (mark_done r (delivery "redis: commit: %w" d k reply)) is_open h
        (settled-Refused d "redis: commit: %w" r k reply (close-zero change r.id clock k h) h
          (close-AllZero change r.id clock k h))
  attempt-Refused (release_attempt ctx clock d) r k is_open h =
      let change : ℤ → ℤ → ℤ = λ used reserved. lua (used -ℤ reserved) in
      let reply = close lua change r.id clock (reclaim lua clock k) in
      guarded-Refused ctx (delivered_error "redis: release: %w" d) r k
        (mark_done r (delivery "redis: release: %w" d k reply)) is_open h
        (settled-Refused d "redis: release: %w" r k reply (close-zero change r.id clock k h) h
          (close-AllZero change r.id clock k h))

  attempts-refused :
      (calls : List Attempt) (r : Reservation) (k : Keyspace)
      → r.done ≡ false
      → AllZero r.id k.amounts
      → answers lua calls r k ≡ map refused calls
  unfolding answers
  attempts-refused [] r k is_open h = refl
  attempts-refused (a ∷ calls) r k is_open h =
      let (error, same, zero) = attempt-Refused a r k is_open h in
      let (r', k') = (attempt lua a r k).1 in
      ap (λ result. result ∷ answers lua calls r' k') error
      ∙ ap (λ results. refused a ∷ results)
          (attempts-refused calls r' k' (ap (λ (q : Reservation). q.done) same ∙ is_open)
            (subst (λ (q : Reservation). AllZero q.id k'.amounts) (sym same) zero))

  -- If Lua numbers are exact up to 2^53 and Reserve on Redis grants a reservation of 0 under a
  -- fresh id, then every sequence of Commit and Release calls on it, with no other call in
  -- between, and whatever their contexts, times and amounts are and however their scripts end for
  -- the client, fails throughout: each call returns the error of its context if that is not live,
  -- else the error of the client if the script failed or its reply was lost, and else that the
  -- reservation is not found.
  pub zero_never_settles :
      (ctx : Context) (l : Ledger) (id : Text) (clock : ℕ) (d : Delivery) (k k' : Keyspace)
      (r : Reservation) (calls : List Attempt)
      → Absent id k.amounts
      → reserve lua ctx l (ok id) clock d (pos 0) k ≡ (ok r, k')
      → answers lua calls r k' ≡ map refused calls
  zero_never_settles ctx l id clock d k k' r calls absent granted =
      let (is_open, zero) : ZeroGranted (ok r, k') =
        subst ZeroGranted granted (reserve-ZeroGranted ctx l id clock d k absent) in
      attempts-refused calls r k' is_open zero
