-- ===== src/World/Settled.antt =====
-- A reservation of the local ledger is settled once, whatever is called in between and however
-- often it is committed or released again.
use native.Mathlib.Decide.{ℕ_discrete}
use cost.Prelude.{
  ℕ, ◌≡◌, refl, ℤ, true, none, some, List, [], ◌∷◌, get_elem?, set_self, get_elem?-append_left,
  get_elem?-set_self, get_elem?-set_ne, arith, Option-cases, inl, inr, ◌∙◌, ap,
}
use cost.Errors.{Context, nil_context, context, background, Result, ok, err}
use cost.Ledger.{Ledger, LocalReservation, reserve}
use cost.Reservation.{commit, release}
use cost.World.{
  World, Call, reserve_call, commit_call, release_call, record_call, apply, run, on_handle,
  handed_out,
}

-- The two ways to settle.
pub data Terminal : Type 0 where
  commits : (actual : ℤ) → Terminal
  releases : Terminal

abbrev pub terminal_call : Terminal → Context → ℕ → Call
terminal_call (commits actual) ctx i = commit_call ctx i actual
terminal_call releases ctx i = release_call ctx i

-- The reservation at `i` is there and settled.
abbrev IsSettled : ℕ → World → Type 0
IsSettled i w = (r : LocalReservation) × (get_elem? w.reservations i ≡ some r) × (r.done ≡ true)

-- A terminal method leaves a settled reservation as it is.
commit_done :
    (ctx : Context) (actual : ℤ) (r : LocalReservation) (l : Ledger)
    → r.done ≡ true
    → (commit ctx actual r l).1 ≡ (r, l)
unfolding commit
commit_done nil_context actual r l d = refl
commit_done (context none) actual r l d = simp d
commit_done (context (some e)) actual r l d = refl

release_done :
    (ctx : Context) (r : LocalReservation) (l : Ledger)
    → r.done ≡ true
    → (release ctx r l).1 ≡ (r, l)
unfolding release
release_done nil_context r l d = refl
release_done (context none) r l d = simp d
release_done (context (some e)) r l d = refl

-- Any terminal method may run on another reservation, or on a settled one.
on_handle-IsSettled :
    (i j : ℕ) (w : World)
    (method : LocalReservation → Ledger → Result (Unit {0}) × (LocalReservation × Ledger))
    → ((r : LocalReservation) (l : Ledger) → r.done ≡ true → (method r l).1 ≡ (r, l))
    → IsSettled i w
    → IsSettled i (on_handle w j method (get_elem? w.reservations j)).1
on_handle-IsSettled i j w method keeps (r, at_i, d) =
    elim (Option-cases (get_elem? w.reservations j)) [
      | inl missing ↦ rw missing (r, at_i, d)
      | inr (q, at_j) ↦ rw at_j (elim (ℕ_discrete j i) [
        | yes same ↦
            let here : get_elem? w.reservations i ≡ some q = rw same at at_j in
            let q_done : q.done ≡ true = ground arith in
            let q' = (method q w.ledger).1.0 in
            (
              q',
              rw same (get_elem?-set_self w.reservations i q q' here),
              ap (λ (p : LocalReservation × Ledger). p.0.done) (keeps q w.ledger q_done) ∙ q_done,
            )
        | no differ ↦
            (r, get_elem?-set_ne w.reservations j i (method q w.ledger).1.0 differ ∙ at_i, d)
      ])
    ]

handed_out-IsSettled :
    (i : ℕ) (w : World) (c : Result LocalReservation × Ledger)
    → IsSettled i w
    → IsSettled i (handed_out w c).1
handed_out-IsSettled i w (ok q, l) (r, at_i, d) =
    (r, get_elem?-append_left w.reservations (q ∷ []) i r at_i, d)
handed_out-IsSettled i w (err e, l) s = s

apply-IsSettled : (c : Call) (i : ℕ) (w : World) → IsSettled i w → IsSettled i (apply c w).1
unfolding apply
apply-IsSettled (reserve_call ctx estimate) i w s =
    handed_out-IsSettled i w (reserve ctx estimate [] w.ledger) s
apply-IsSettled (commit_call ctx j actual) i w s =
    on_handle-IsSettled i j w (commit ctx actual) (commit_done ctx actual) s
apply-IsSettled (release_call ctx j) i w s =
    on_handle-IsSettled i j w (release ctx) (release_done ctx) s
apply-IsSettled (record_call ctx now event) i w s = s

run-IsSettled : (calls : List Call) (i : ℕ) (w : World) → IsSettled i w → IsSettled i (run calls w)
unfolding run
run-IsSettled [] i w s = s
run-IsSettled (c ∷ calls) i w s = run-IsSettled calls i (apply c w).1 (apply-IsSettled c i w s)

commit_marks :
    (actual : ℤ) (r : LocalReservation) (l : Ledger)
    → (commit background actual r l).1.0.done ≡ true
unfolding commit
commit_marks actual r l = ground arith

release_marks : (r : LocalReservation) (l : Ledger) → (release background r l).1.0.done ≡ true
unfolding release
release_marks r l = ground arith

terminal-IsSettled :
    (t : Terminal) (i : ℕ) (r : LocalReservation) (w : World)
    → get_elem? w.reservations i ≡ some r
    → IsSettled i (apply (terminal_call t background i) w).1
unfolding apply
terminal-IsSettled (commits actual) i r w e =
    rw e (_, get_elem?-set_self w.reservations i r _ e, commit_marks actual r w.ledger)
terminal-IsSettled releases i r w e =
    rw e (_, get_elem?-set_self w.reservations i r _ e, release_marks r w.ledger)

commit_again :
    (actual : ℤ) (r : LocalReservation) (l : Ledger)
    → r.done ≡ true
    → commit background actual r l ≡ (ok tt, (r, l))
unfolding commit
commit_again actual r l d = simp d

release_again :
    (r : LocalReservation) (l : Ledger) → r.done ≡ true → release background r l ≡ (ok tt, (r, l))
unfolding release
release_again r l d = simp d

terminal_again :
    (t : Terminal) (i : ℕ) (w : World)
    → IsSettled i w
    → apply (terminal_call t background i) w ≡ (ok tt, w)
unfolding apply
terminal_again (commits actual) i w (r, e, d) =
    rw (e, commit_again actual r w.ledger d, set_self w.reservations i r e)
terminal_again releases i w (r, e, d) =
    rw (e, release_again r w.ledger d, set_self w.reservations i r e)

-- After a commit or a release of a reservation under a live context, and any calls after it, a
-- further commit, of any amount, or release of it reports success and changes nothing at all.
pub settles_once :
    (first second : Terminal) (i : ℕ) (r : LocalReservation) (calls : List Call) (w : World)
    → get_elem? w.reservations i ≡ some r
    → let later = run calls (apply (terminal_call first background i) w).1 in
      apply (terminal_call second background i) later ≡ (ok tt, later)
settles_once first second i r calls w e =
    terminal_again second i _ (run-IsSettled calls i _ (terminal-IsSettled first i r w e))
