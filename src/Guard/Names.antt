-- ===== src/Guard/Names.antt =====
-- The name of an action, split at its last dot.
use cost.Prelude.{
  ℕ, zero, suc, ◌+◌, ◌≡◌, refl, ap, ◌∙◌, false, true, none, some, [], ◌∷◌, ◌++◌, ◌==◌, length,
  length-append, get_elem?, drop, if◌then◌else◌, arith,
}
use cost.Text.{Text, text, text_eqb}
use cost.Guard.{is_dot, dot_at, take, last_dot, domain, operation}

-- No byte is a dot.
abbrev pub Undotted : Text → Type 0
Undotted [] = Unit
Undotted (c ∷ name) = ((c == 46) ≡ false) × Undotted name

get_elem?-append_right : (d xs : Text) (j : ℕ) → get_elem? (d ++ xs) (length d + j) ≡ get_elem? xs j
get_elem?-append_right [] xs j = ap (get_elem? xs) (omega arith)
get_elem?-append_right (c ∷ d) xs j =
    let place : length (c ∷ d) + j ≡ suc (length d + j) = omega arith in
    ap (get_elem? (c ∷ d ++ xs)) place ∙ get_elem?-append_right d xs j

dot_at-Undotted : (o : Text) (j : ℕ) → Undotted o → dot_at o j ≡ false
dot_at-Undotted [] j u = refl
dot_at-Undotted (c ∷ o) zero u = u.0
dot_at-Undotted (c ∷ o) (suc j) u = dot_at-Undotted o j u.1

-- No dot is found after the one that is put in.
last_dot-append :
    (d o : Text) (j : ℕ)
    → Undotted o
    → last_dot (d ++ 46 ∷ o) (suc (length d + j)) ≡ some (length d)
unfolding last_dot
last_dot-append d o zero u =
    let here : dot_at (d ++ 46 ∷ o) (length d + 0) ≡ true =
      ap is_dot (get_elem?-append_right d (46 ∷ o) 0) in
    rw (last_dot, here) (ap some (omega arith))
last_dot-append d o (suc j) u =
    let skipped : dot_at (d ++ 46 ∷ o) (length d + suc j) ≡ false =
      ap is_dot (get_elem?-append_right d (46 ∷ o) (suc j)) ∙ dot_at-Undotted o j u in
    let place : length d + suc j ≡ suc (length d + j) = omega arith in
    rw (last_dot, skipped, place) (last_dot-append d o j u)

last_dot-Undotted : (name : Text) (i : ℕ) → Undotted name → last_dot name i ≡ none
unfolding last_dot
last_dot-Undotted name zero u = refl
last_dot-Undotted name (suc i) u = rw (dot_at-Undotted name i u) (last_dot-Undotted name i u)

take-append : (d xs : Text) → take (length d) (d ++ xs) ≡ d
unfolding take
take-append [] xs = refl
take-append (c ∷ d) xs = ap (λ rest. c ∷ rest) (take-append d xs)

drop-append : (d o : Text) → drop (suc (length d)) (d ++ 46 ∷ o) ≡ o
drop-append [] o = refl
drop-append (c ∷ d) o = drop-append d o

length-dotted : (d o : Text) → length (d ++ 46 ∷ o) ≡ suc (length d + length o)
length-dotted d o = length-append d (46 ∷ o) ∙ omega arith

-- A name with no dot is an operation of the domain "action".
pub operation-Undotted :
    (name : Text)
    → Undotted name
    → (domain name ≡ text "action")
      × (operation name ≡ (if text_eqb name [] then text "action" else name))
unfolding domain operation
operation-Undotted name u =
    let missing : last_dot name (length name) ≡ none = last_dot-Undotted name (length name) u in
    (rw (domain, missing) refl, rw (operation, missing) refl)

-- A name is split at its last dot.
pub domain-operation_dotted :
    (d o : Text) → Undotted o → (domain (d ++ 46 ∷ o) ≡ d) × (operation (d ++ 46 ∷ o) ≡ o)
unfolding domain operation
domain-operation_dotted d o u =
    let found : last_dot (d ++ 46 ∷ o) (length (d ++ 46 ∷ o)) ≡ some (length d) =
      rw (length-dotted d o) (last_dot-append d o (length o) u) in
    (rw (domain, found) (take-append d (46 ∷ o)), rw (operation, found) (drop-append d o))
