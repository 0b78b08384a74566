-- ===== src/Bson/Sample.antt =====
-- A small implementation of the document interface, on which the theorems are tried out.
use mongo_ha.Base.{
  ltb, if◌then◌else◌, ℕ, ◌≡◌, refl, ap, Bool, false, Option, none, some, List, [], ◌∷◌, arith,
}
use mongo_ha.Text.{Text, text_eq, text_eq_iff}
use mongo_ha.Int64.{ℤ, pos}
use mongo_ha.Bson.{
  View, int32, int64, double, string, boolean, timestamp, array, document, other, Documents,
}

mutual
  pub data Value : Type 0 where
    int32_value int64_value double_value : ℤ → Value
    string_value : Text → Value
    boolean_value : Bool → Value
    timestamp_value : ℕ → Value
    array_value : Values → Value
    document_value : Fields → Value
    other_value : Value

  pub data Values : Type 0 where
    no_values : Values
    values : Value → Values → Values

  pub data Fields : Type 0 where
    no_fields : Fields
    fields : Text → Value → Fields → Fields

abbrev pub values_of : List Value → Values
values_of [] = no_values
values_of (v ∷ vs) = values v (values_of vs)

abbrev pub list_of : Values → List Value
list_of no_values = []
list_of (values v vs) = v ∷ list_of vs

list_of-values_of : (vs : List Value) → list_of (values_of vs) ≡ vs
list_of-values_of [] = refl
list_of-values_of (v ∷ vs) = ap (◌∷◌ v) (list_of-values_of vs)

abbrev pub view_of : Value → View Value Fields ℤ
view_of (int32_value i) = int32 i
view_of (int64_value i) = int64 i
view_of (double_value f) = double f
view_of (string_value t) = string t
view_of (boolean_value x) = boolean x
view_of (timestamp_value t) = timestamp t
view_of (array_value vs) = array (list_of vs)
view_of (document_value d) = document d
view_of other_value = other

abbrev pub value_of : View Value Fields ℤ → Value
value_of (int32 i) = int32_value i
value_of (int64 i) = int64_value i
value_of (double f) = double_value f
value_of (string t) = string_value t
value_of (boolean x) = boolean_value x
value_of (timestamp t) = timestamp_value t
value_of (array vs) = array_value (values_of vs)
value_of (document d) = document_value d
value_of other = other_value

pub view_of-value_of : (v : View Value Fields ℤ) → view_of (value_of v) ≡ v
view_of-value_of (int32 i) = refl
view_of-value_of (int64 i) = refl
view_of-value_of (double f) = refl
view_of-value_of (string t) = refl
view_of-value_of (boolean x) = refl
view_of-value_of (timestamp t) = refl
view_of-value_of (array vs) = ap array (list_of-values_of vs)
view_of-value_of (document d) = refl
view_of-value_of other = refl

abbrev pub field : Fields → Text → Option Value
field no_fields k = none
field (fields j v d) k = if text_eq j k then some v else field d k

abbrev pub without : Fields → Text → Fields
without no_fields k = no_fields
without (fields j v d) k = let rest = without d k in if text_eq j k then rest else fields j v rest

pub field-without :
    (d : Fields) (k j : Text) → field (without d k) j ≡ (if text_eq k j then none else field d j)
field-without no_fields k j = ground arith
field-without (fields i v d) k j =
    ground (arith, text_eq_iff i k, text_eq_iff i j, text_eq_iff k j, field-without d k j)

pub field-insert :
    (d : Fields) (k j : Text) (v : Value)
    → field (fields k v (without d k)) j ≡ (if text_eq k j then some v else field d j)
field-insert d k j v = ground (arith, field-without d k j)

abbrev pub is_positive : ℤ → Bool
is_positive (pos n) = ltb 0 n
is_positive _ = false

abbrev pub sample : Documents
sample = record {
  Bson = Value;
  Document = Fields;
  F64 = ℤ;
  as_i64 = λ f. f;
  at_least_one = is_positive;
  view = view_of;
  make = value_of;
  empty = no_fields;
  get = field;
  insert = λ d k v. fields k v (without d k);
  remove = without;
  view-make = view_of-value_of;
  get-empty = λ k. refl;
  get-insert = field-insert;
  get-remove = field-without;
}
