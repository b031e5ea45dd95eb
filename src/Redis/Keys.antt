-- ===== src/Redis/Keys.antt =====
-- The keys that the scripts of adapters/redis/ledger.go read and write, and the Redis commands on
-- them. The server's clock counts milliseconds; TIME gives it in seconds.
use cost.Prelude.{
  ℕ, zero, suc, ℤ, pos, ◌+ℤ◌, ltb, leb, ◌==◌, Bool, true, false, ◌&&◌, ◌||◌, if◌then◌else◌, Option,
  none, some, List, [], ◌∷◌,
}
use cost.Text.{Text, text_eqb}

-- The key KEYS[2]:id, which the server drops after `dies_at`.
pub record Amount : Type 0 where
  pub id : Text
  pub value : ℤ
  pub dies_at : ℕ

-- A member of the sorted set KEYS[3].
pub record Member : Type 0 where
  pub id : Text
  pub score : ℕ

-- A counter of Record.
pub record Spent : Type 0 where
  pub key : Text
  pub value : ℤ

-- The keys of one ledger; `used` is KEYS[1], if it exists.
pub record Keyspace : Type 0 where
  pub used : Option ℤ
  pub amounts : List Amount
  pub expiry : List Member
  pub spent : List Spent

-- GET KEYS[2]:id
unfoldable pub get_amount : (clock : ℕ) → Text → List Amount → Option ℤ
get_amount clock id [] = none
get_amount clock id (a ∷ amounts) =
    if text_eqb a.id id
    then (if leb clock a.dies_at then some a.value else none)
    else get_amount clock id amounts

-- DEL KEYS[2]:id; a key occurs once.
unfoldable pub del_amount : Text → List Amount → List Amount
del_amount id [] = []
del_amount id (a ∷ amounts) =
    let rest = del_amount id amounts in if text_eqb a.id id then amounts else a ∷ rest

-- ZREM KEYS[3] id
unfoldable pub zrem : Text → List Member → List Member
zrem id [] = []
zrem id (m ∷ members) = let rest = zrem id members in if text_eqb m.id id then members else m ∷ rest

-- The order of bytes.
abbrev pub text_ltb : Text → Text → Bool
text_ltb [] [] = false
text_ltb [] (y ∷ ys) = true
text_ltb (x ∷ xs) [] = false
text_ltb (x ∷ xs) (y ∷ ys) = ltb x y || ((x == y) && text_ltb xs ys)

-- The place of a member in its set: by score, and by id where the scores agree.
unfoldable pub zinsert : Member → List Member → List Member
zinsert n [] = n ∷ []
zinsert n (m ∷ members) =
    let rest = zinsert n members in
    if ltb n.score m.score || ((n.score == m.score) && text_ltb n.id m.id)
    then n ∷ m ∷ members
    else m ∷ rest

-- ZADD KEYS[3] score id
abbrev pub zadd : ℕ → Text → List Member → List Member
zadd score id members = zinsert (record { id = id; score = score }) (zrem id members)

-- ZRANGEBYSCORE KEYS[3] -inf now LIMIT 0 count
unfoldable pub zrange : (count now : ℕ) → List Member → List Text
zrange zero now members = []
zrange (suc count) now [] = []
zrange (suc count) now (m ∷ members) =
    let rest = zrange count now members in if leb m.score now then m.id ∷ rest else []

-- What the live keys KEYS[2]:… hold together.
unfoldable pub held : (clock : ℕ) → List Amount → ℤ
held clock [] = pos 0
held clock (a ∷ amounts) =
    let rest = held clock amounts in if leb clock a.dies_at then a.value +ℤ rest else rest

-- INCRBY on a counter of Record: the value before, and the keys with the value after.
unfoldable pub get_spent : Text → List Spent → ℤ
get_spent key [] = pos 0
get_spent key (s ∷ spent) =
    let rest = get_spent key spent in if text_eqb s.key key then s.value else rest

unfoldable pub set_spent : Text → ℤ → List Spent → List Spent
set_spent key value [] = record { key = key; value = value } ∷ []
set_spent key value (s ∷ spent) =
    let rest = set_spent key value spent in
    if text_eqb s.key key then record s { value = value } ∷ spent else s ∷ rest
