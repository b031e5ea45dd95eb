-- ===== src/Redis/Tests.antt =====
-- The Redis ledger at a concrete keyspace, with numbers that doubles have exactly.
use cost.Prelude.{
  ◌≡◌, refl, ℤ, pos, ◌+ℤ◌, ◌-ℤ◌, ◌≤ℤ◌, true, false, some, List, [], ◌∷◌, map, subst, arith,
}
use cost.Text.{Text, text}
use cost.Errors.{context, canceled, background, message, ok, err, Result}
use cost.Currency.{usd}
use cost.Redis.Keys.{Keyspace, get_amount, del_amount, zrem, zinsert, zrange, held}
use cost.Redis.{
  Ledger, Reservation, delivered, undelivered, reclaim_each, reclaim, grant, reserve_script,
  reserve_with, reserve, commit, release,
}
use cost.Redis.Accounts.{Accounted, max_counter}
use cost.Redis.Rows.{Absent}
use cost.Redis.Limit.{Kept, reserve-Kept}
use cost.Redis.Settlement.{Closed, commit-Closed, release-Closed}
use cost.Redis.Zero.{Attempt, commit_attempt, release_attempt, answers, refused, zero_never_settles}

abbrev exact_number : ℤ → ℤ
exact_number a = a

abbrev ledger : Ledger
ledger = record {
  connected = true;
  prefix = text "p";
  limit_micros = pos 100;
  currency = usd;
  ttl = pos 30000000000;
}

-- 30 are settled for good, and "a" holds 30 and expires at second 5.
abbrev keyspace : Keyspace
keyspace = record {
  used = some (pos 60);
  amounts = record { id = text "a"; value = pos 30; dies_at = 99000 } ∷ [];
  expiry = record { id = text "a"; score = 5 } ∷ [];
  spent = [];
}

account : Accounted 4000 (pos 30) keyspace
unfolding held ◌+ℤ◌
account = record { exact = refl; spent = omega arith; amounts = omega arith; small = omega arith }

abbrev AbsentId : Result Text → Type 0
AbsentId (ok id) = Absent id keyspace.amounts
AbsentId (err e) = Unit

b_fresh : (id : Text) → ok (text "b") ≡ ok id → Absent id keyspace.amounts
b_fresh id e = subst AbsentId e (refl, tt)

within : pos 60 +ℤ pos 45 ≤ℤ max_counter
unfolding ◌+ℤ◌
within = omega arith

-- 65 fit at second 9, when "a" has expired.
expired_lease_freed :
    (reserve exact_number background ledger (ok (text "b")) 9000 delivered (pos 65) keyspace).1.used
    ≡ some (pos 95)
unfolding reserve reserve_with reserve_script reclaim reclaim_each grant get_amount del_amount zrem
    zinsert zrange ◌+ℤ◌ ◌-ℤ◌
expired_lease_freed = refl

reserve-Kept_example :
    Kept 4000
      (pos 30)
      (pos 100)
      (reserve exact_number background ledger (ok (text "b")) 4000 delivered (pos 40) keyspace)
reserve-Kept_example =
    reserve-Kept exact_number (λ a _. refl) background ledger (ok (text "b")) 4000 delivered
      (pos 30) (pos 40) keyspace (omega arith) (omega arith) b_fresh account

abbrev lease_a : Reservation
lease_a = record { id = text "a"; done = false }

-- The reply of the script is lost.
commit-Closed_example :
    Closed 4000
      (pos 30)
      (pos 45)
      (del_amount (text "a") (reclaim exact_number 4000 keyspace).1.amounts)
      (undelivered (message "connection lost" []) true)
      lease_a
      (commit exact_number background 4000
        (undelivered (message "connection lost" []) true)
        (pos 45)
        lease_a
        keyspace)
commit-Closed_example =
    commit-Closed exact_number (λ a _. refl) background 4000
      (undelivered (message "connection lost" []) true) (pos 30) (pos 45) lease_a keyspace within
      refl account

release-Closed_example :
    Closed 4000
      (pos 30)
      (pos 0)
      (del_amount (text "a") (reclaim exact_number 4000 keyspace).1.amounts)
      delivered
      lease_a
      (release exact_number background 4000 delivered lease_a keyspace)
release-Closed_example =
    release-Closed exact_number (λ a _. refl) background 4000 delivered (pos 30) lease_a keyspace
      refl account

-- The keys after a granted estimate of 0.
abbrev zero_keys : Keyspace
zero_keys = record keyspace {
  used = some (pos 60);
  amounts = record { id = text "b"; value = pos 0; dies_at = 86434000 } ∷ keyspace.amounts;
  expiry = record { id = text "a"; score = 5 } ∷ record { id = text "b"; score = 34 } ∷ [];
}

abbrev lease_b : Reservation
lease_b = record { id = text "b"; done = false }

zero_granted :
    reserve exact_number background ledger (ok (text "b")) 4000 delivered (pos 0) keyspace
    ≡ (ok lease_b, zero_keys)
unfolding reserve reserve_with reserve_script reclaim reclaim_each grant get_amount del_amount zrem
    zinsert zrange ◌+ℤ◌ ◌-ℤ◌
zero_granted = refl

-- A reply is lost, a context is canceled, and two calls are answered.
abbrev attempts : List Attempt
attempts =
    commit_attempt background 5000 (undelivered (message "connection lost" []) true) (pos 7)
    ∷ commit_attempt background 5000 delivered (pos 7)
    ∷ release_attempt (context (some canceled)) 6000 delivered
    ∷ release_attempt background 7000 delivered
    ∷ []

zero_never_settles_example : answers exact_number attempts lease_b zero_keys ≡ map refused attempts
zero_never_settles_example =
    zero_never_settles exact_number (λ a _. refl) background ledger (text "b") 4000 delivered
      keyspace zero_keys lease_b attempts (refl, tt) zero_granted
