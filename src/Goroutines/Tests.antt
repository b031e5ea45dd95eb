-- ===== src/Goroutines/Tests.antt =====
-- Tests of the goroutines: two of them, of which one reserves and begins to commit.
use cost.Prelude.{◌≢◌, ◌≤◌, ◌*◌, ◌+◌, ◌≡◌, refl, pos, ◌-ℤ◌, [], ◌∷◌}
use cost.Int64.{sub64, wrap, of_bits, to_bits}
use cost.Errors.{background, ok}
use cost.Currency.{usd}
use cost.Ledger.{new_ledger, budget_error, fresh}
use cost.World.{World, new_world, reserve_call, apply, held}
use cost.Goroutines.{
  idle, loaded, swapped, System, pick, Reach, crowd, start, later, call_reserve, load, swap,
  call_commit, take, settling, taken,
}
use cost.Goroutines.Conservation.{due, owed, total, IsSettled, Reach-IsSettled}
use cost.Goroutines.Progress.{InnerSteps, none_yet, one_more, inner, InnerSteps-bound}
use cost.Goroutines.Linear.{swap-apply}

abbrev budget_100 : World
budget_100 = new_world (pos 100) usd

abbrev before_swap : System
before_swap = record { world = budget_100; goroutines = loaded (pos 30) (pos 0) ∷ idle ∷ [] }

before_swap-Reach : Reach budget_100 2 before_swap
unfolding crowd new_ledger budget_error sub64 wrap of_bits to_bits ◌-ℤ◌
before_swap-Reach =
    later (later start (pick 0 refl (call_reserve refl)))
      (pick 0 refl (load {estimate = pos 30} refl))

abbrev reserved_30 : World
reserved_30 = swapped (pos 30) (pos 0) budget_100

abbrev in_commit : System
in_commit = record {
  world = taken 0 (fresh (pos 30)) reserved_30;
  goroutines = idle ∷ settling (sub64 (pos 20) (pos 30)) (pos 20) ∷ [];
}

in_commit-Reach : Reach budget_100 2 in_commit
unfolding new_ledger
in_commit-Reach =
    later
      (later (later before_swap-Reach (pick 0 refl (swap refl)))
        (pick 1 refl (call_commit {i = 0} {actual = pos 20})))
      (pick 1 refl (take refl refl))

unused_at_first : budget_100.ledger.used_micros ≡ pos 0
unfolding new_ledger
unused_at_first = refl

swap-apply_example :
    apply (reserve_call background (pos 30)) budget_100
    ≡ (ok tt, swapped (pos 30) (pos 0) budget_100)
swap-apply_example =
    swap-apply budget_100 2 before_swap 0 (pos 30) (pos 0) before_swap-Reach refl unused_at_first

budget_100-IsSettled : IsSettled 0 0 budget_100
unfolding to_bits held new_ledger
budget_100-IsSettled = refl

Reach-IsSettled_example :
    IsSettled (total due in_commit.goroutines) (total owed in_commit.goroutines) in_commit.world
Reach-IsSettled_example =
    Reach-IsSettled budget_100 2 in_commit budget_100-IsSettled in_commit-Reach

loaded≢idle : loaded (pos 30) (pos 0) ≢ idle
loaded≢idle e = cc

after_swap :
    InnerSteps before_swap 1 (record { world = reserved_30; goroutines = idle ∷ idle ∷ [] })
unfolding new_ledger
after_swap = one_more none_yet (inner 0 loaded≢idle refl (swap refl))

InnerSteps-bound_example : 1 ≤ 2 * (2 * 2 + 3)
InnerSteps-bound_example =
    InnerSteps-bound before_swap (record { world = reserved_30; goroutines = idle ∷ idle ∷ [] }) 1
      after_swap
