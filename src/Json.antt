-- ===== src/Json.antt =====
-- The JSON values of serde_json, with the operations on objects that src/ calls. An object is a map in key
-- order, as serde_json keeps it where no feature says otherwise.
use system_pilot.Base.Strings.{unsigned}
use system_pilot.Base.Texts.{text_lt}
use system_pilot.Base.{
  ℕ, Bool, Option, none, some, Text, text_beq, text_beq_iff, leb, ◌≡◌, refl, arith, if◌then◌else◌,
}

-- `serde_json::Value`; a number is kept as its text.
mutual
  pub data Value : Type 0 where
    null : Value
    bool : Bool → Value
    number : Text → Value
    string : Text → Value
    array : Values → Value
    object : Fields → Value

  pub data Values : Type 0 where
    no_values : Values
    value : Value → Values → Values

  pub data Fields : Type 0 where
    no_fields : Fields
    field : Text → Value → Fields → Fields

-- `Map::get`.
unfoldable pub get : Text → Fields → Option Value
get key no_fields = none
get key (field k v fields) = if text_beq k key then some v else get key fields

-- `Map::insert`.
unfoldable pub insert : Text → Value → Fields → Fields
insert key v no_fields = field key v no_fields
insert key v (field k w fields) =
    let rest = insert key v fields in
    if text_beq k key
    then field key v fields
    else if text_lt key k
    then field key v (field k w fields)
    else field k w rest

-- `Map::remove`.
unfoldable pub remove : Text → Fields → Fields
remove key no_fields = no_fields
remove key (field k w fields) =
    let rest = remove key fields in if text_beq k key then rest else field k w rest

-- `as_str`, `as_object` and `as_u64`: a `u64` has no sign, no point and no exponent.
abbrev pub as_str : Value → Option Text
as_str (string t) = some t
as_str _ = none

abbrev pub as_object : Value → Option Fields
as_object (object fields) = some fields
as_object _ = none

abbrev pub u64_of : Option ℕ → Option ℕ
u64_of none = none
u64_of (some n) = if leb n 18_446_744_073_709_551_615 then some n else none

unfoldable pub as_u64 : Value → Option ℕ
as_u64 (number t) = u64_of (unsigned t)
as_u64 _ = none

pub get-insert :
    (k j : Text) (v : Value) (o : Fields)
    → get j (insert k v o) ≡ (if text_beq k j then some v else get j o)
unfolding get insert
get-insert k j v no_fields = refl
get-insert k j v (field i w o) =
    ground (arith, text_beq_iff k j, text_beq_iff i k, text_beq_iff i j, get-insert k j v o)

pub get-remove :
    (k j : Text) (o : Fields) → get j (remove k o) ≡ (if text_beq k j then none else get j o)
unfolding get remove
get-remove k j no_fields = ground arith
get-remove k j (field i w o) =
    ground (arith, text_beq_iff k j, text_beq_iff i k, text_beq_iff i j, get-remove k j o)
