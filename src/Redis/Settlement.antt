-- ===== src/Redis/Settlement.antt =====
-- terminalScript and releaseScript of adapters/redis/ledger.go, and the methods that run them.
use Prim.Native.String.{String}
use cost.Prelude.{
  List, ℕ, ◌≡◌, refl, ◌∙◌, inl, inr, ◌⊎◌, ℤ, pos, ◌+ℤ◌, ◌-ℤ◌, ◌≤ℤ◌, eqb_ℤ, true, false,
  if◌then◌else◌, arith, int_laws, if-elim, ◌/◌,
}
use cost.Text.{Text}
use cost.Errors.{Context, context_error, Error, Result, ok, err, checked, checked-elim}
use cost.Reservation.{clamp}
use cost.Redis.Keys.{Amount, Keyspace, get_amount, del_amount, held, zrange}
use cost.Redis.{
  Reservation, Reply, number_reply, budget_exceeded, reservation_not_found, Delivery, delivered,
  undelivered, reclaim, close, terminal_script, release_script, commit, release, delivery,
  mark_done, to_number,
}
use cost.Redis.Rows.{stored, held-del_amount, get_amount_nonneg, held_nonneg, del_amount-AllNonneg}
use cost.Redis.Accounts.{
  IsExact, max_counter, Counted, Accounted, to_number-stored, reclaim-Counted, held-reclaim_each,
}

-- After a script that settles `extra`: only a number as the reply means that it has.
abbrev pub ClosedReply : ℕ → (settled extra : ℤ) → (left : List Amount) → Reply × Keyspace → Type 0
ClosedReply clock settled extra left (number_reply n, k) =
    (k.amounts ≡ left) × Accounted clock (settled +ℤ extra) k
ClosedReply clock settled extra left (budget_exceeded, k) = Accounted clock settled k
ClosedReply clock settled extra left (reservation_not_found, k) = Accounted clock settled k

-- After a terminal method: success closes the handle, leaves `left` of the amounts and settles
-- `extra`. After an error the handle is still open, and nothing is settled, unless the script ran
-- without its reply getting through.
abbrev pub Closed :
    ℕ
    → (settled extra : ℤ) → (left : List Amount) → Delivery
    → Reservation
    → Result (Unit {0}) × (Reservation × Keyspace)
    → Type 0
Closed clock settled extra left d r (ok _, (r', k')) =
    (r' ≡ record r { done = true }) × ((k'.amounts ≡ left) × Accounted clock (settled +ℤ extra) k')
Closed clock settled extra left delivered r (err e, (r', k')) =
    (r' ≡ r) × Accounted clock settled k'
Closed clock settled extra left (undelivered _ ran) r (err e, (r', k')) =
    (r' ≡ r)
    × (Accounted clock settled k'
        ⊎ ((ran ≡ true) × ((k'.amounts ≡ left) × Accounted clock (settled +ℤ extra) k')))

-- The reply, handed to the caller.
delivered-Closed :
    (format : String) (clock : ℕ) (settled extra : ℤ) (left : List Amount) (d : Delivery)
    (r : Reservation) (k : Keyspace) (reply : Reply × Keyspace)
    → Accounted clock settled k
    → ClosedReply clock settled extra left reply
    → Closed clock settled extra left d r (mark_done r (delivery format d k reply))
delivered-Closed f clock settled extra left delivered r k (number_reply _, k') a c = (refl, c)
delivered-Closed f clock settled extra left delivered r k (budget_exceeded, k') a c = (refl, c)
delivered-Closed f clock settled extra left delivered r k (reservation_not_found, k') a c =
    (refl, c)
delivered-Closed f clock settled extra left (undelivered e true) r k (number_reply _, k') a c =
    (refl, inr (refl, c))
delivered-Closed f clock settled extra left (undelivered e true) r k (budget_exceeded, k') a c =
    (refl, inl c)
delivered-Closed f clock settled extra left (undelivered e true) r k (reservation_not_found, k') a
      c =
    (refl, inl c)
delivered-Closed f clock settled extra left (undelivered e false) r k (number_reply _, k') a c =
    (refl, inl a)
delivered-Closed f clock settled extra left (undelivered e false) r k (budget_exceeded, k') a c =
    (refl, inl a)
delivered-Closed f clock settled extra left (undelivered e false) r k (reservation_not_found, k') a
      c =
    (refl, inl a)

-- A method that has not reached its script.
unsettled-Closed :
    (clock : ℕ) (settled extra : ℤ) (left : List Amount) (d : Delivery) (r : Reservation)
    (k : Keyspace) (e : Error)
    → Accounted clock settled k
    → Closed clock settled extra left d r (err e, (r, k))
unsettled-Closed clock settled extra left delivered r k e a = (refl, a)
unsettled-Closed clock settled extra left (undelivered _ _) r k e a = (refl, inl a)

module _ (lua : ℤ → ℤ) (lua_exact : (a : ℤ) → IsExact a → lua a ≡ a) where
  close-ClosedReply :
      (change : (used reserved : ℤ) → ℤ) (clock : ℕ) (settled extra used : ℤ) (id : Text)
      (k : Keyspace)
      → ((v : ℤ) → pos 0 ≤ℤ v → v ≤ℤ used → change used v ≡ used +ℤ extra -ℤ v)
      → pos 0 ≤ℤ extra
      → used +ℤ extra ≤ℤ max_counter
      → Counted clock settled used k
      → ClosedReply clock settled extra
          (del_amount id k.amounts)
          (close lua change id clock (used, k))
  unfolding close
  close-ClosedReply change clock settled extra used id k exact h0 small c =
      let v = get_amount clock id k.amounts in
      let left = held clock (del_amount id k.amounts) in
      let sum : stored v +ℤ left ≡ held clock k.amounts = held-del_amount clock id k.amounts in
      let v0 : pos 0 ≤ℤ stored v = get_amount_nonneg clock id k.amounts c.amounts in
      let kept = del_amount-AllNonneg id k.amounts c.amounts in
      let left0 : pos 0 ≤ℤ left = held_nonneg clock _ kept in
      let below : stored v ≤ℤ used = grind (int_laws, c.exact, c.spent) in
      let read : to_number lua v ≡ stored v =
        to_number-stored lua lua_exact v v0 (grind (int_laws, c.small)) in
      rw (read, exact (stored v) v0 below)
        (if-elim (ClosedReply clock settled extra (del_amount id k.amounts))
          (eqb_ℤ (stored v) (pos 0))
          (λ _. record { exact = c.exact; spent = c.spent; amounts = c.amounts; small = c.small })
          (λ _. (
            refl,
            record {
              exact = grind (int_laws, c.exact);
              spent = grind (int_laws, c.spent);
              amounts = kept;
              small = grind int_laws;
            },
          )))

  commit_exact :
      (used extra v : ℤ)
      → pos 0 ≤ℤ extra
      → used +ℤ extra ≤ℤ max_counter
      → pos 0 ≤ℤ v
      → v ≤ℤ used
      → lua (lua (used +ℤ lua extra) -ℤ v) ≡ used +ℤ extra -ℤ v
  commit_exact used extra v h0 small v0 below =
      rw (lua_exact extra (grind int_laws), lua_exact (used +ℤ extra) (grind int_laws))
        (lua_exact (used +ℤ extra -ℤ v) (grind int_laws))

  release_exact :
      (used v : ℤ)
      → used ≤ℤ max_counter
      → pos 0 ≤ℤ v
      → v ≤ℤ used
      → lua (used -ℤ v) ≡ used +ℤ pos 0 -ℤ v
  release_exact used v small v0 below = lua_exact (used -ℤ v) (grind int_laws) ∙ grind int_laws

  -- A settling script, its reclaim included.
  closed_after_reclaim :
      (change : (used reserved : ℤ) → ℤ) (clock : ℕ) (settled extra : ℤ) (id : Text) (k : Keyspace)
      → ((used v : ℤ)
          → used +ℤ extra ≤ℤ max_counter
          → pos 0 ≤ℤ v
          → v ≤ℤ used
          → change used v ≡ used +ℤ extra -ℤ v)
      → pos 0 ≤ℤ extra
      → stored k.used +ℤ extra ≤ℤ max_counter
      → Accounted clock settled k
      → ClosedReply clock settled extra
          (del_amount id (reclaim lua clock k).1.amounts)
          (close lua change id clock (reclaim lua clock k))
  unfolding reclaim
  closed_after_reclaim change clock settled extra id k exact h0 small a =
      let c = reclaim-Counted lua lua_exact clock settled k a in
      let lower =
        held-reclaim_each lua lua_exact clock (zrange 100 (clock / 1000) k.expiry)
          (to_number lua k.used) k a.amounts in
      let room = the_room _ _ _ _ settled extra c.exact a.exact lower small in
      close-ClosedReply change clock settled extra _ id _ (λ v. exact _ v room) h0 room c
    where
      the_room :
          (used' used h' h settled extra : ℤ)
          → used' ≡ settled +ℤ h'
          → used ≡ settled +ℤ h
          → h' ≤ℤ h
          → used +ℤ extra ≤ℤ max_counter
          → used' +ℤ extra ≤ℤ max_counter
      the_room used' used h' h settled extra e' e l small = grind int_laws

  terminal_script-ClosedReply :
      (clock : ℕ) (settled actual : ℤ) (id : Text) (k : Keyspace)
      → pos 0 ≤ℤ actual
      → stored k.used +ℤ actual ≤ℤ max_counter
      → Accounted clock settled k
      → ClosedReply clock settled actual
          (del_amount id (reclaim lua clock k).1.amounts)
          (terminal_script lua id actual clock k)
  unfolding terminal_script
  terminal_script-ClosedReply clock settled actual id k h0 small a =
      closed_after_reclaim (λ used reserved. lua (lua (used +ℤ lua actual) -ℤ reserved)) clock
        settled actual id k (λ used v room. commit_exact used actual v h0 room) h0 small a

  release_script-ClosedReply :
      (clock : ℕ) (settled : ℤ) (id : Text) (k : Keyspace)
      → Accounted clock settled k
      → ClosedReply clock settled
          (pos 0)
          (del_amount id (reclaim lua clock k).1.amounts)
          (release_script lua id clock k)
  unfolding release_script
  release_script-ClosedReply clock settled id k a =
      closed_after_reclaim (λ used reserved. lua (used -ℤ reserved)) clock settled (pos 0) id k
        (λ used v room. release_exact used v (grind int_laws)) (omega arith)
        (grind (int_laws, a.small)) a

  -- A terminal method on an open handle, from its script.
  script-Closed :
      (ctx : Context) (format : String) (clock : ℕ) (settled extra : ℤ) (left : List Amount)
      (d : Delivery) (r : Reservation) (k : Keyspace) (reply : Reply × Keyspace)
      → r.done ≡ false
      → Accounted clock settled k
      → ClosedReply clock settled extra left reply
      → Closed clock settled extra left d r (
          checked
            (context_error ctx)
            (r, k)
            (if r.done then (ok tt, (r, k)) else mark_done r (delivery format d k reply)))
  script-Closed ctx format clock settled extra left d r k reply is_open a c =
      let P = Closed clock settled extra left d r in
      checked-elim P (context_error ctx) (r, k)
        (λ e _. unsettled-Closed clock settled extra left d r k e a)
        (λ _.
          if-elim P r.done (λ closed. ground (arith, is_open, closed))
            (λ _. delivered-Closed format clock settled extra left d r k reply a c))

  -- Commit on Redis of an open handle: success closes the handle, deletes its key from those that
  -- the reclaim leaves and settles the actual amount, a negative one as 0; after an error the
  -- handle is open and the account as before, or, only if the script ran and no reply to it was
  -- received, as after a success; for Lua numbers that are exact up to 2^53 and a counter that
  -- stays within 2^52.
  pub commit-Closed :
      (ctx : Context) (clock : ℕ) (d : Delivery) (settled actual : ℤ) (r : Reservation)
      (k : Keyspace)
      → stored k.used +ℤ clamp actual ≤ℤ max_counter
      → r.done ≡ false
      → Accounted clock settled k
      → Closed clock settled
          (clamp actual)
          (del_amount r.id (reclaim lua clock k).1.amounts)
          d
          r
          (commit lua ctx clock d actual r k)
  unfolding commit
  commit-Closed ctx clock d settled actual r k small is_open a =
      script-Closed ctx "redis: commit: %w" clock settled (clamp actual)
        (del_amount r.id (reclaim lua clock k).1.amounts) d r k
        (terminal_script lua r.id (clamp actual) clock k) is_open a
        (terminal_script-ClosedReply clock settled (clamp actual) r.id k (ground arith) small a)

  -- Release on Redis of an open handle: success closes the handle, deletes its key from those that
  -- the reclaim leaves and takes what it held out of the counter; after an error the handle is
  -- open and the account holds as before, or, only if the script ran and no reply to it was
  -- received, as after a success; for Lua numbers that are exact up to 2^53 and a counter that is
  -- within 2^52.
  pub release-Closed :
      (ctx : Context) (clock : ℕ) (d : Delivery) (settled : ℤ) (r : Reservation) (k : Keyspace)
      → r.done ≡ false
      → Accounted clock settled k
      → Closed clock settled
          (pos 0)
          (del_amount r.id (reclaim lua clock k).1.amounts)
          d
          r
          (release lua ctx clock d r k)
  unfolding release
  release-Closed ctx clock d settled r k is_open a =
      script-Closed ctx "redis: release: %w" clock settled (pos 0)
        (del_amount r.id (reclaim lua clock k).1.amounts) d r k (release_script lua r.id clock k)
        is_open a (release_script-ClosedReply clock settled r.id k a)
