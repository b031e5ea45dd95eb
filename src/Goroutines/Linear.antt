-- ===== src/Goroutines/Linear.antt =====
-- The swap of Reserve under goroutines: at the moment of its success the call does what it does
-- alone.
use cost.Prelude.{
  some_inj, ℕ, zero, suc, ◌≡◌, refl, ℤ, pos, false, none, some, List, [], ◌∷◌, get_elem?, set,
  arith, sym, subst, if-elim, ltb_ℤ,
}
use cost.Errors.{background, ok}
use cost.Ledger.{invalid_estimate, budget_error, reserve, reserve_loop}
use cost.World.{World, reserve_call, apply}
use cost.Goroutines.{
  Goroutine, reserving, loaded, swapped, after_used, Move, System, pick, Reach, crowd, start, later,
  call_reserve, load, refuse, swap, retry, cancel, call_commit, call_release, take, take_back,
  commit_again, release_again, add_used, add_spent,
}

-- What a goroutine in Reserve has tested.
abbrev pub IsTested : (limit : ℤ) → Goroutine → Type 0
IsTested limit (reserving estimate) = invalid_estimate estimate ≡ false
IsTested limit (loaded estimate used) =
    (invalid_estimate estimate ≡ false) × (budget_error limit used estimate ≡ none)
IsTested limit _ = Unit

unfoldable pub AllTested : (limit : ℤ) → List Goroutine → Type 0
AllTested limit [] = Unit
AllTested limit (g ∷ gs) = IsTested limit g × AllTested limit gs

AllTested-set :
    (limit : ℤ) (gs : List Goroutine) (i : ℕ) (g : Goroutine)
    → AllTested limit gs
    → IsTested limit g
    → AllTested limit (set gs i g)
unfolding AllTested
AllTested-set limit [] i g all h = tt
AllTested-set limit (x ∷ gs) zero g (_, all) h = (h, all)
AllTested-set limit (x ∷ gs) (suc i) g (hx, all) h = (hx, AllTested-set limit gs i g all h)

AllTested-get_elem? :
    (limit : ℤ) (gs : List Goroutine) (i : ℕ) (g : Goroutine)
    → AllTested limit gs
    → get_elem? gs i ≡ some g
    → IsTested limit g
unfolding AllTested
AllTested-get_elem? limit [] i g all e = ground arith
AllTested-get_elem? limit (x ∷ gs) zero g (hx, _) e = subst (IsTested limit) (some_inj x g e) hx
AllTested-get_elem? limit (x ∷ gs) (suc i) g (_, all) e = AllTested-get_elem? limit gs i g all e

AllTested-crowd : (limit : ℤ) (n : ℕ) → AllTested limit (crowd n)
unfolding AllTested crowd
AllTested-crowd limit zero = tt
AllTested-crowd limit (suc n) = (tt, AllTested-crowd limit n)

after_used-IsTested : (limit actual : ℤ) → IsTested limit (after_used actual)
after_used-IsTested limit actual =
    if-elim (IsTested limit) (ltb_ℤ (pos 0) actual) (λ _. tt) (λ _. tt)

-- No move changes the limit, and each leaves its goroutine with what it has tested.
Move-IsTested :
    (w w' : World) (g g' : Goroutine)
    → Move w g w' g'
    → IsTested w.ledger.limit_micros g
    → (w'.ledger.limit_micros ≡ w.ledger.limit_micros) × IsTested w.ledger.limit_micros g'
Move-IsTested w w' _ _ (call_reserve valid) h = (refl, valid)
Move-IsTested w w' _ _ (load fits) h = (refl, (h, fits))
Move-IsTested w w' _ _ (refuse _) h = (refl, tt)
Move-IsTested w w' _ _ (swap _) h = (refl, tt)
Move-IsTested w w' _ _ (retry _) (valid, _) = (refl, valid)
Move-IsTested w w' _ _ (cancel _) h = (refl, tt)
Move-IsTested w w' _ _ call_commit h = (refl, tt)
Move-IsTested w w' _ _ call_release h = (refl, tt)
Move-IsTested w w' _ _ (take _ _) h = (refl, tt)
Move-IsTested w w' _ _ (take_back _ _) h = (refl, tt)
Move-IsTested w w' _ _ (commit_again _ _) h = (refl, tt)
Move-IsTested w w' _ _ (release_again _ _) h = (refl, tt)
Move-IsTested w w' _ _ (add_used {delta} {actual}) h =
    (refl, after_used-IsTested w.ledger.limit_micros actual)
Move-IsTested w w' _ _ add_spent h = (refl, tt)

Reach-AllTested :
    (w : World) (n : ℕ) (s : System)
    → Reach w n s
    → AllTested s.world.ledger.limit_micros s.goroutines
Reach-AllTested w n _ start = AllTested-crowd w.ledger.limit_micros n
Reach-AllTested w n _ (later {s} reach (pick i {g} {g'} {w'} e move)) =
    let limit = s.world.ledger.limit_micros in
    let all = Reach-AllTested w n s reach in
    let (same, tested) =
      Move-IsTested s.world w' g g' move (AllTested-get_elem? limit s.goroutines i g all e) in
    subst (λ k. AllTested k (set s.goroutines i g')) (sym same)
      (AllTested-set limit s.goroutines i g' all tested)

-- In every state that goroutines reach, a goroutine whose CompareAndSwap in Reserve finds the
-- value that it has loaded changes the ledger as the whole call does that runs alone at this
-- moment.
pub swap-apply :
    (w : World) (n : ℕ) (s : System) (i : ℕ) (estimate used : ℤ)
    → Reach w n s
    → get_elem? s.goroutines i ≡ some (loaded estimate used)
    → s.world.ledger.used_micros ≡ used
    → apply (reserve_call background estimate) s.world ≡ (ok tt, swapped estimate used s.world)
unfolding apply reserve reserve_loop
swap-apply w n s i estimate used reach e same =
    let (valid, fits) =
      AllTested-get_elem? s.world.ledger.limit_micros s.goroutines i (loaded estimate used)
        (Reach-AllTested w n s reach) e in
    rw (valid, same, fits) refl
