-- ===== src/Ledger/Ring.antt =====
-- The audit ring of ledger.go against the list of all events recorded.
use cost.Prelude.{
  ℕ, zero, suc, ◌+◌, ◌-◌, ◌%◌, ◌<◌, ◌≤◌, min, ◌≡◌, refl, sym, ◌∙◌, ◌==◌, if◌then◌else◌, some, List,
  [], ◌∷◌, ◌++◌, length, get_elem?, drop, length-append, arith,
}
use cost.Event.{Event}
use cost.Ledger.{Ledger, audit_ring_capacity, append_entry, copy_entries, entries_snapshot}

-- The ring stands for a history: the head counts it, and the last 1024 events are in their slots.
pub record Holds (history : List Event) (l : Ledger) : Type 0 where
  pub counted : l.head ≡ length history
  pub small : length history < 18446744073709551616
  pub kept :
      (i : ℕ) (e : Event)
      → get_elem? history i ≡ some e
      → length history ≤ i + audit_ring_capacity
      → l.entries (i % audit_ring_capacity) ≡ e

get_elem?-lt : (xs : List Event) (i : ℕ) (e : Event) → get_elem? xs i ≡ some e → i < length xs
get_elem?-lt [] i e h = ground arith
get_elem?-lt (x ∷ xs) zero e h = omega arith
get_elem?-lt (x ∷ xs) (suc i) e h = omega (arith, get_elem?-lt xs i e h)

get_elem?-append :
    (xs : List Event) (e : Event) (i : ℕ)
    → get_elem? (xs ++ e ∷ []) i ≡ (if i == length xs then some e else get_elem? xs i)
get_elem?-append [] e zero = refl
get_elem?-append [] e (suc i) = ground arith
get_elem?-append (x ∷ xs) e zero = ground arith
get_elem?-append (x ∷ xs) e (suc i) = ground (arith, get_elem?-append xs e i)

pub append_entry-Holds :
    (event : Event) (history : List Event) (l : Ledger)
    → Holds history l
    → length history + 1 < 18446744073709551616
    → Holds (history ++ event ∷ []) (append_entry event l)
unfolding append_entry
append_entry-Holds event history l h room = record {
  counted = omega (arith, h.counted, length-append history (event ∷ []));
  small = omega (arith, length-append history (event ∷ []));
  kept = λ i e at_i recent. ground (
    arith,
    h.counted,
    length-append history (event ∷ []),
    get_elem?-append history event i,
    get_elem?-lt history i e,
    h.kept i e,
  );
}

get_elem?-drop : (k : ℕ) (xs : List Event) (i : ℕ) → get_elem? (drop k xs) i ≡ get_elem? xs (k + i)
get_elem?-drop zero xs i = ground arith
get_elem?-drop (suc k) [] i = refl
get_elem?-drop (suc k) (x ∷ xs) i = ground (arith, get_elem?-drop k xs i)

length-drop : (k : ℕ) (xs : List Event) → length (drop k xs) ≡ length xs - k
length-drop zero xs = omega arith
length-drop (suc k) [] = omega arith
length-drop (suc k) (x ∷ xs) = omega (arith, length-drop k xs)

copy_entries-eq :
    (f : ℕ → Event) (start : ℕ) (ys : List Event)
    → start + length ys < 18446744073709551616
    → ((i : ℕ) (e : Event) → get_elem? ys i ≡ some e → f ((start + i) % audit_ring_capacity) ≡ e)
    → copy_entries f start (length ys) ≡ ys
unfolding copy_entries
copy_entries-eq f start [] room h = refl
copy_entries-eq f start (y ∷ ys) room h =
    let next : (start + 1) % 18446744073709551616 ≡ start + 1 = omega arith in
    let here : f (start % audit_ring_capacity) ≡ y = ground (arith, h 0 y refl) in
    let rest : copy_entries f (start + 1) (length ys) ≡ ys =
      copy_entries-eq f (start + 1) ys (omega arith) (λ i e at_i. ground (arith, h (suc i) e)) in
    rw (next, here, rest)

-- Entries returns the last 1024 events of the history, oldest first.
pub entries_snapshot-Holds :
    (history : List Event) (l : Ledger)
    → Holds history l
    → entries_snapshot l ≡ drop (length history - audit_ring_capacity) history
unfolding entries_snapshot
entries_snapshot-Holds history l h =
    let k = length history - audit_ring_capacity in
    let count : min l.head audit_ring_capacity ≡ length (drop k history) =
      omega (arith, h.counted, length-drop k history) in
    let start : l.head - length (drop k history) ≡ k =
      omega (arith, h.counted, length-drop k history) in
    rw (count, start)
      (copy_entries-eq l.entries k (drop k history) (omega (arith, h.small, length-drop k history))
        (λ i e at_i. h.kept (k + i) e (sym (get_elem?-drop k history i) ∙ at_i) (omega arith)))
