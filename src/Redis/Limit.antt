-- ===== src/Redis/Limit.antt =====
-- reserveScript and Reserve of adapters/redis/ledger.go: the account and the limit.
use cost.Prelude.{
  ℕ, ◌≡◌, refl, inl, inr, ◌⊎◌, ℤ, pos, ◌+ℤ◌, ◌≤ℤ◌, ltb_ℤ, leb_ℤ, ◌&&◌, not, true, false, arith,
  int_laws, if-elim, leb, ◌+◌, ◌*◌, ◌/◌,
}
use cost.Text.{Text}
use cost.Errors.{Context, context_error, Result, ok, err, is_ok, checked-elim}
use cost.Ledger.{invalid_estimate}
use cost.Ledger.Admission.{invalid_estimate-IsEstimate}
use cost.Redis.Keys.{Keyspace, held, zrange}
use cost.Redis.{
  Ledger, Reply, number_reply, budget_exceeded, reservation_not_found, Delivery, delivered,
  undelivered, reclaim, grant, reserve_script, reserve_with, reserve, delivery, handed, ttl_seconds,
  to_number,
}
use cost.Redis.Rows.{Absent, stored, del_amount_missing, held_nonneg}
use cost.Redis.Accounts.{
  IsExact, max_counter, Counted, Accounted, reclaim-Counted, reclaim_each-Absent,
}

-- An estimate of whole micro-units that doubles can add.
abbrev pub IsSmall : ℤ → Type 0
IsSmall a = (pos 0 ≤ℤ a) × (a ≤ℤ max_counter)

-- The account is kept, and a grant leaves the counter within the limit.
abbrev pub Kept {ℓ} : {A : Type ℓ} → ℕ → (settled limit : ℤ) → Result A × Keyspace → Type 0
Kept clock settled limit (r, k) =
    Accounted clock settled k × (is_ok r ≡ true → stored k.used ≤ℤ limit)

-- The reply of the script, as Kept has it of the method.
abbrev KeptReply : ℕ → (settled limit : ℤ) → Reply × Keyspace → Type 0
KeptReply clock settled limit (r, k) =
    Accounted clock settled k × (stored k.used ≤ℤ limit ⊎ (r ≡ budget_exceeded))

module _ (clock : ℕ) (settled limit : ℤ) (id : Text) where
  delivered-Kept :
      (d : Delivery) (k : Keyspace) (reply : Reply × Keyspace)
      → Accounted clock settled k
      → KeptReply clock settled limit reply
      → Kept clock settled limit (handed id (delivery "redis: reserve: %w" d k reply))
  delivered-Kept delivered k (number_reply n, k') a (b, o) = (b, ground (arith, o))
  delivered-Kept delivered k (budget_exceeded, k') a (b, o) = (b, ground arith)
  delivered-Kept delivered k (reservation_not_found, k') a (b, o) = (b, ground arith)
  delivered-Kept (undelivered e true) k (number_reply _, k') a (b, o) = (b, ground arith)
  delivered-Kept (undelivered e true) k (budget_exceeded, k') a (b, o) = (b, ground arith)
  delivered-Kept (undelivered e true) k (reservation_not_found, k') a (b, o) = (b, ground arith)
  delivered-Kept (undelivered e false) k (number_reply _, k') a (b, o) = (a, ground arith)
  delivered-Kept (undelivered e false) k (budget_exceeded, k') a (b, o) = (a, ground arith)
  delivered-Kept (undelivered e false) k (reservation_not_found, k') a (b, o) = (a, ground arith)

module _ (lua : ℤ → ℤ) (lua_exact : (a : ℤ) → IsExact a → lua a ≡ a) where
  -- A key that Reserve sets lives on.
  new_key_live : (clock ttl : ℕ) → leb clock (clock + (ttl + 86400) * 1000) ≡ true
  new_key_live clock ttl = ground arith

  grant-KeptReply :
      (clock : ℕ) (settled limit estimate used : ℤ) (id : Text) (ttl : ℕ) (k : Keyspace)
      → IsSmall limit
      → IsSmall estimate
      → Absent id k.amounts
      → Counted clock settled used k
      → pos 0 ≤ℤ used
      → KeptReply clock settled limit (grant lua limit estimate id ttl clock (used, k))
  unfolding grant held
  grant-KeptReply clock settled limit estimate used id ttl k hl he absent c h0 =
      rw
        (
          lua_exact limit (grind arith),
          lua_exact estimate (grind arith),
          lua_exact (used +ℤ estimate) (grind (int_laws, c.small)),
          del_amount_missing id k.amounts absent,
        )
        (if-elim (KeptReply clock settled limit)
          (leb_ℤ (pos 0) limit && ltb_ℤ limit (used +ℤ estimate))
          (λ _. (
            record { exact = c.exact; spent = c.spent; amounts = c.amounts; small = c.small },
            inr refl,
          ))
          (λ fits. (
            record {
              exact = rw (new_key_live clock ttl) (grind (int_laws, c.exact));
              spent = c.spent;
              amounts = (he.0, c.amounts);
              small = grind (int_laws, fits);
            },
            inl (grind (int_laws, fits)),
          )))

  reserve_script-KeptReply :
      (clock : ℕ) (settled limit estimate : ℤ) (id : Text) (ttl : ℕ) (k : Keyspace)
      → IsSmall limit
      → IsSmall estimate
      → Absent id k.amounts
      → Accounted clock settled k
      → KeptReply clock settled limit (reserve_script lua limit estimate id ttl clock k)
  unfolding reserve_script reclaim
  reserve_script-KeptReply clock settled limit estimate id ttl k hl he absent a =
      let c = reclaim-Counted lua lua_exact clock settled k a in
      grant-KeptReply clock settled limit estimate _ id ttl _ hl he
        (reclaim_each-Absent lua lua_exact clock id (zrange 100 (clock / 1000) k.expiry)
          (to_number lua k.used) k absent)
        c (grind (int_laws, c.exact, c.spent, held_nonneg clock _ c.amounts))

  reserve_with-Kept :
      (clock : ℕ) (settled estimate : ℤ) (l : Ledger) (new_id : Result Text) (d : Delivery)
      (k : Keyspace)
      → IsSmall l.limit_micros
      → IsSmall estimate
      → ((id : Text) → new_id ≡ ok id → Absent id k.amounts)
      → Accounted clock settled k
      → Kept clock settled l.limit_micros (reserve_with lua l new_id clock d estimate k)
  unfolding reserve_with
  reserve_with-Kept clock settled estimate l (err e) d k hl he absent a = (a, ground arith)
  reserve_with-Kept clock settled estimate l (ok id) d k hl he absent a =
      let kept =
        reserve_script-KeptReply clock settled l.limit_micros estimate id (ttl_seconds l) k hl he
          (absent id refl) a in
      delivered-Kept clock settled l.limit_micros id d k
        (reserve_script lua l.limit_micros estimate id (ttl_seconds l) clock k) a kept

  -- Reserve on Redis, under any context and whether or not its script runs or is heard of, keeps
  -- the account, in which the counter is what is settled plus what the live keys hold, and a grant
  -- leaves the counter within the limit; for a limit and an estimate of at most 2^52, a limit that
  -- is not negative, a fresh id, and Lua numbers that are exact up to 2^53.
  pub reserve-Kept :
      (ctx : Context) (l : Ledger) (new_id : Result Text) (clock : ℕ) (d : Delivery)
      (settled estimate : ℤ) (k : Keyspace)
      → IsSmall l.limit_micros
      → estimate ≤ℤ max_counter
      → ((id : Text) → new_id ≡ ok id → Absent id k.amounts)
      → Accounted clock settled k
      → Kept clock settled l.limit_micros (reserve lua ctx l new_id clock d estimate k)
  unfolding reserve
  reserve-Kept ctx l new_id clock d settled estimate k hl small absent a =
      let P = Kept clock settled l.limit_micros in
      checked-elim P (context_error ctx) k (λ _ _. (a, ground arith))
        (λ _.
          if-elim P (not l.connected) (λ _. (a, ground arith))
            (λ _.
              if-elim P (invalid_estimate estimate) (λ _. (a, ground arith))
                (λ valid.
                  reserve_with-Kept clock settled estimate l new_id d k hl
                    ((invalid_estimate-IsEstimate estimate valid).0, small) absent a)))
