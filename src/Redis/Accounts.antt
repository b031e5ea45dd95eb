-- ===== src/Redis/Accounts.antt =====
-- The account of a Redis ledger: what its counter says against what its live keys hold.
use cost.Prelude.{
  ℕ, ◌≡◌, ℤ, pos, negsuc, pos_part, neg_part, ◌≤◌, ◌+ℤ◌, ◌-ℤ◌, ◌≤ℤ◌, ltb_ℤ, if◌then◌else◌, Option,
  none, some, List, [], ◌∷◌, arith, int_laws, ◌/◌,
}
use cost.Text.{Text}
use cost.Redis.Keys.{Keyspace, get_amount, del_amount, zrem, zrange, held}
use cost.Redis.{to_number, reclaim_each, reclaim}
use cost.Redis.Rows.{
  AllNonneg, Absent, AllZero, stored, held-del_amount, get_amount_nonneg, held_nonneg,
  del_amount-AllNonneg, del_amount-Absent, del_amount-AllZero,
}

-- The integers that a double has exactly.
abbrev pub IsExact : ℤ → Type 0
IsExact a = (pos_part a ≤ 9007199254740992) × (neg_part a ≤ 9007199254740992)

-- Half of them: the sum of two such amounts is exact.
abbrev pub max_counter : ℤ
max_counter = pos 4503599627370496

-- A counter is exactly what was settled for good plus what the live keys hold, none of it below 0,
-- within the range where sums are exact.
pub record Counted (clock : ℕ) (settled used : ℤ) (k : Keyspace) : Type 0 where
  pub exact : used ≡ settled +ℤ held clock k.amounts
  pub spent : pos 0 ≤ℤ settled
  pub amounts : AllNonneg k.amounts
  pub small : used ≤ℤ max_counter

-- The same of the counter that is stored.
abbrev pub Accounted : ℕ → ℤ → Keyspace → Type 0
Accounted clock settled k = Counted clock settled (stored k.used) k

module _ (lua : ℤ → ℤ) (lua_exact : (a : ℤ) → IsExact a → lua a ≡ a) where
  pub to_number-stored :
      (o : Option ℤ) → pos 0 ≤ℤ stored o → stored o ≤ℤ max_counter → to_number lua o ≡ stored o
  to_number-stored none h s = lua_exact (pos 0) (omega arith)
  to_number-stored (some (pos n)) h s = lua_exact (pos n) (ground arith)
  to_number-stored (some (negsuc n)) h s = ground arith

  -- One round of the loop over the expired ids.
  pub subtract_exact :
      (used v rest settled : ℤ)
      → used ≡ settled +ℤ (v +ℤ rest)
      → pos 0 ≤ℤ settled
      → pos 0 ≤ℤ v
      → pos 0 ≤ℤ rest
      → used ≤ℤ max_counter
      → (if ltb_ℤ (pos 0) v then lua (used -ℤ v) else used) ≡ settled +ℤ rest
  subtract_exact used v rest settled e hs hv hr small =
      grind (int_laws, lua_exact (used -ℤ v) (grind int_laws))

  pub reclaim_each-Counted :
      (clock : ℕ) (settled : ℤ) (expired : List Text) (used : ℤ) (k : Keyspace)
      → Counted clock settled used k
      → Counted clock settled
          (reclaim_each lua clock expired used k).0
          (reclaim_each lua clock expired used k).1
  unfolding reclaim_each
  reclaim_each-Counted clock settled [] used k c = c
  reclaim_each-Counted clock settled (id ∷ expired) used k c =
      let v = get_amount clock id k.amounts in
      let left = held clock (del_amount id k.amounts) in
      let sum : stored v +ℤ left ≡ held clock k.amounts = held-del_amount clock id k.amounts in
      let v0 : pos 0 ≤ℤ stored v = get_amount_nonneg clock id k.amounts c.amounts in
      let kept : AllNonneg (del_amount id k.amounts) =
        del_amount-AllNonneg id k.amounts c.amounts in
      let left0 : pos 0 ≤ℤ left = held_nonneg clock _ kept in
      let read : to_number lua v ≡ stored v =
        to_number-stored v v0 (grind (int_laws, c.exact, c.spent, c.small)) in
      let now : (if ltb_ℤ (pos 0) (to_number lua v) then lua (used -ℤ to_number lua v) else used)
          ≡ settled +ℤ left =
        rw read (
          subtract_exact used (stored v) left settled (grind (int_laws, c.exact)) c.spent v0 left0
            c.small) in
      reclaim_each-Counted clock settled expired _ _ (record {
        exact = now;
        spent = c.spent;
        amounts = kept;
        small = rw now (grind (int_laws, c.exact, c.small));
      })

  pub reclaim-Counted :
      (clock : ℕ) (settled : ℤ) (k : Keyspace)
      → Accounted clock settled k
      → Counted clock settled (reclaim lua clock k).0 (reclaim lua clock k).1
  unfolding reclaim
  reclaim-Counted clock settled k c =
      rw
        (to_number-stored k.used
          (grind (int_laws, c.exact, c.spent, held_nonneg clock k.amounts c.amounts)) c.small)
        (reclaim_each-Counted clock settled (zrange 100 (clock / 1000) k.expiry) (stored k.used) k
          c)

  -- Reclaiming only lowers what is held.
  pub held-reclaim_each :
      (clock : ℕ) (expired : List Text) (used : ℤ) (k : Keyspace)
      → AllNonneg k.amounts
      → held clock (reclaim_each lua clock expired used k).1.amounts ≤ℤ held clock k.amounts
  unfolding reclaim_each
  held-reclaim_each clock [] used k h = omega arith
  held-reclaim_each clock (id ∷ expired) used k h =
      let kept = del_amount-AllNonneg id k.amounts h in
      let sum = held-del_amount clock id k.amounts in
      let v0 = get_amount_nonneg clock id k.amounts h in
      let value = to_number lua (get_amount clock id k.amounts) in
      let rest =
        held-reclaim_each clock expired (if ltb_ℤ (pos 0) value then lua (used -ℤ value) else used)
          (record k { amounts = del_amount id k.amounts; expiry = zrem id k.expiry }) kept in
      grind (int_laws, sum, v0, rest)

  pub reclaim_each-Absent :
      (clock : ℕ) (id : Text) (expired : List Text) (used : ℤ) (k : Keyspace)
      → Absent id k.amounts
      → Absent id (reclaim_each lua clock expired used k).1.amounts
  unfolding reclaim_each
  reclaim_each-Absent clock id [] used k h = h
  reclaim_each-Absent clock id (other ∷ expired) used k h =
      reclaim_each-Absent clock id expired _ _ (del_amount-Absent other id k.amounts h)

  pub reclaim_each-AllZero :
      (clock : ℕ) (id : Text) (expired : List Text) (used : ℤ) (k : Keyspace)
      → AllZero id k.amounts
      → AllZero id (reclaim_each lua clock expired used k).1.amounts
  unfolding reclaim_each
  reclaim_each-AllZero clock id [] used k h = h
  reclaim_each-AllZero clock id (other ∷ expired) used k h =
      reclaim_each-AllZero clock id expired _ _ (del_amount-AllZero other id k.amounts h)
