-- ===== src/Int64.antt =====
-- Go's int64: an integer with wrap-around, as `int64`, `math.MaxInt64` and atomic.Int64.Add have it
-- in ledger.go, reservation.go and the adapters.
use cost.Prelude.{
  ℕ, ◌+◌, ◌-◌, ◌%◌, ◌<◌, ◌≤◌, ◌≡◌, ℤ, pos, negsuc, pos_part, neg_part, ◌+ℤ◌, ap, sym, ◌∙◌, ◌-ℤ◌,
  ltb, if◌then◌else◌, arith, +ℤ_parts, -ℤ_parts,
}

-- math.MaxInt64
abbrev pub max_int64 : ℤ
max_int64 = pos 9223372036854775807

-- math.MinInt64
abbrev pub min_int64 : ℤ
min_int64 = negsuc 9223372036854775807

-- math.MaxInt64 / 2
abbrev pub half_max_int64 : ℤ
half_max_int64 = pos 4611686018427387903

abbrev pub IsInt64 : ℤ → Type 0
IsInt64 a = (pos_part a < 9223372036854775808) × (neg_part a ≤ 9223372036854775808)

-- The bit pattern of an integer, modulo 2^64, and the signed reading of a pattern.
unfoldable pub to_bits : ℤ → ℕ
to_bits (pos n) = n % 18446744073709551616
to_bits (negsuc n) = 18446744073709551615 - n % 18446744073709551616

unfoldable pub of_bits : ℕ → ℤ
of_bits u = if ltb u 9223372036854775808 then pos u else negsuc (18446744073709551615 - u)

-- The int64 that an exact integer is truncated to.
unfoldable pub wrap : ℤ → ℤ
wrap a = of_bits (to_bits a)

unfoldable pub add64 : ℤ → ℤ → ℤ
add64 a b = wrap (a +ℤ b)

unfoldable pub sub64 : ℤ → ℤ → ℤ
sub64 a b = wrap (a -ℤ b)

pub to_bits-lt : (a : ℤ) → to_bits a < 18446744073709551616
unfolding to_bits
to_bits-lt (pos n) = omega arith
to_bits-lt (negsuc n) = omega arith

pub to_bits-of_bits : (u : ℕ) → u < 18446744073709551616 → to_bits (of_bits u) ≡ u
unfolding to_bits of_bits
to_bits-of_bits u h = ground arith

pub wrap-IsInt64 : (a : ℤ) → IsInt64 (wrap a)
unfolding wrap of_bits
wrap-IsInt64 a = ground (arith, to_bits-lt a)

pub wrap_id : (a : ℤ) → IsInt64 a → wrap a ≡ a
unfolding wrap of_bits to_bits
wrap_id (pos n) h = ground arith
wrap_id (negsuc n) h = ground arith

pub to_bits-+ℤ : (a b : ℤ) → to_bits (a +ℤ b) ≡ (to_bits a + to_bits b) % 18446744073709551616
unfolding to_bits ◌+ℤ◌
to_bits-+ℤ (pos m) (pos n) = ground arith
to_bits-+ℤ (pos m) (negsuc n) = ground arith
to_bits-+ℤ (negsuc m) (pos n) = ground arith
to_bits-+ℤ (negsuc m) (negsuc n) = ground arith

pub to_bits-wrap : (a : ℤ) → to_bits (wrap a) ≡ to_bits a
unfolding wrap
to_bits-wrap a = to_bits-of_bits (to_bits a) (to_bits-lt a)

-- Additions may be truncated early or late.
pub wrap-add64_left : (a b : ℤ) → wrap (wrap a +ℤ b) ≡ wrap (a +ℤ b)
unfolding wrap
wrap-add64_left a b = ap of_bits (
    to_bits-+ℤ (wrap a) b
    ∙ ap (λ n. (n + to_bits b) % 18446744073709551616) (to_bits-wrap a)
    ∙ sym (to_bits-+ℤ a b))

pub add64_exact : (a b : ℤ) → IsInt64 (a +ℤ b) → add64 a b ≡ a +ℤ b
unfolding add64
add64_exact a b h = wrap_id (a +ℤ b) h

pub sub64_exact : (a b : ℤ) → IsInt64 (a -ℤ b) → sub64 a b ≡ a -ℤ b
unfolding sub64
sub64_exact a b h = wrap_id (a -ℤ b) h

pub to_bits--ℤ :
    (a b : ℤ)
    → to_bits (a -ℤ b) ≡ (to_bits a + 18446744073709551616 - to_bits b) % 18446744073709551616
unfolding to_bits ◌-ℤ◌
to_bits--ℤ (pos m) (pos n) = ground arith
to_bits--ℤ (pos m) (negsuc n) = ground arith
to_bits--ℤ (negsuc m) (pos n) = ground arith
to_bits--ℤ (negsuc m) (negsuc n) = ground arith

pub to_bits-add64 : (a b : ℤ) → to_bits (add64 a b) ≡ (to_bits a + to_bits b) % 18446744073709551616
unfolding add64
to_bits-add64 a b = to_bits-wrap (a +ℤ b) ∙ to_bits-+ℤ a b

pub to_bits-sub64 :
    (a b : ℤ)
    → to_bits (sub64 a b) ≡ (to_bits a + 18446744073709551616 - to_bits b) % 18446744073709551616
unfolding sub64
to_bits-sub64 a b = to_bits-wrap (a -ℤ b) ∙ to_bits--ℤ a b

-- `omega` reasons modulo 2^64 by these, with the operations shut.
pub ruleset bits_laws = (arith, to_bits-add64, to_bits-sub64, to_bits-+ℤ, to_bits--ℤ, to_bits-lt)

-- An int64 is determined by its bits.
pub wrap_of_bits : (a b : ℤ) → IsInt64 a → to_bits a ≡ to_bits b → a ≡ wrap b
unfolding wrap
wrap_of_bits a b h e = sym (wrap_id a h) ∙ ap of_bits e

pub add64-IsInt64 : (a b : ℤ) → IsInt64 (add64 a b)
unfolding add64
add64-IsInt64 a b = wrap-IsInt64 (a +ℤ b)
