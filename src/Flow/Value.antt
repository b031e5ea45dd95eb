-- ===== src/Flow/Value.antt =====
-- The dynamic values (`any`) that nexssflow reads, by what reflect and type switches see of them.
use cost.Prelude.{ℕ, ℤ, Bool, not, ◌==◌, if◌then◌else◌, Option, none, some, List, [], ◌∷◌}
use cost.Text.{Text, text, text_eqb}

-- A float64: not a finite number, one with a fraction, or a whole number.
pub data Float : Type 0 where
  not_finite fractional : Float
  whole : ℤ → Float

-- `any_map` is a map[string]any and `text_map` a map[string]string; `other_map` is a map of another
-- type, with keys of kind string or not. Kinds that the code does not tell apart are
-- `other_value`.
mutual
  pub data Value : Type 0 where
    nil_value nil_pointer other_value : Value
    boolean : Bool → Value
    signed : ℤ → Value
    unsigned : ℕ → Value
    float : Float → Value
    json_number : Text → Value
    string_value : Text → Value
    any_map : Entries → Value
    text_map : List (Text × Text) → Value
    other_map : (string_keys : Bool) → Entries → Value
    struct_value : StructFields → Value
    pointer : Value → Value

  -- The entries of a map, by their keys.
  pub data Entries : Type 0 where
    no_entries : Entries
    entry : Text → Value → Entries → Entries

  -- The fields of a struct: whether it is exported, its name, and its json tag.
  pub data StructFields : Type 0 where
    no_fields : StructFields
    field : (exported : Bool) → (name json_tag : Text) → Value → StructFields → StructFields

-- MapIndex, and `object[field]`
unfoldable pub find_entry : Text → Entries → Option Value
find_entry name no_entries = none
find_entry name (entry key v es) =
    let rest = find_entry name es in if text_eqb key name then some v else rest

unfoldable pub find_text : Text → List (Text × Text) → Option Text
find_text name [] = none
find_text name ((key, s) ∷ es) =
    let rest = find_text name es in if text_eqb key name then some s else rest

-- `object[key] = v`
unfoldable pub set_entry : Text → Value → Entries → Entries
set_entry name v no_entries = entry name v no_entries
set_entry name v (entry key u es) =
    let rest = set_entry name v es in
    if text_eqb key name then entry name v es else entry key u rest

-- The loop of setQuotaState over a map of strings.
unfoldable pub as_entries : List (Text × Text) → Entries
as_entries [] = no_entries
as_entries ((key, s) ∷ es) = entry key (string_value s) (as_entries es)

-- `strings.Cut(tag, ",")`, the part before
unfoldable pub before_comma : Text → Text
before_comma [] = []
before_comma (c ∷ cs) = let rest = before_comma cs in if c == 44 then [] else c ∷ rest

-- The name of a field in JSON: that of its tag, or its own.
abbrev pub json_name : (name json_tag : Text) → Text
json_name name json_tag =
    let tagged = before_comma json_tag in if text_eqb tagged [] then name else tagged

-- estimateStructField
unfoldable pub estimate_struct_field : Text → StructFields → Option Value
unfolding before_comma
estimate_struct_field wanted no_fields = none
estimate_struct_field wanted (field exported name json_tag v fs) =
    let rest = estimate_struct_field wanted fs in
    if not exported
    then rest
    else if text_eqb (before_comma json_tag) (text "-")
    then rest
    else if text_eqb (json_name name json_tag) wanted
    then some v
    else rest

-- `item.Interface()` of a string
abbrev pub as_string : Option Text → Option Value
as_string none = none
as_string (some s) = some (string_value s)

-- estimateField, estimateMapField
unfoldable pub estimate_field : Value → Text → Option Value
estimate_field (pointer v) name = estimate_field v name
estimate_field (any_map es) name = find_entry name es
estimate_field (text_map es) name = as_string (find_text name es)
estimate_field (other_map string_keys es) name = if string_keys then find_entry name es else none
estimate_field (struct_value fs) name = estimate_struct_field name fs
estimate_field _ name = none
