-- ===== src/Bson.antt =====
-- The `bson` crate, which the repository only calls: documents are an interface, with the laws of
-- its ordered map that the program relies on.
pub mod Sample
use mongo_ha.Base.{if◌then◌else◌, and_then, ℕ, ◌≡◌, Bool, Option, none, some, List}
use mongo_ha.Text.{Text, text_eq}
use mongo_ha.Int64.{ℤ}

-- The variants of `Bson` that the program distinguishes. `F` stands for `f64`.
pub data View (B D F : Type 0) : Type 0 where
  int32 : ℤ → View B D F
  int64 : ℤ → View B D F
  double : F → View B D F
  string : Text → View B D F
  boolean : Bool → View B D F
  timestamp : ℕ → View B D F
  array : List B → View B D F
  document : D → View B D F
  other : View B D F

pub record Documents : Type 1 where
  pub Bson : Type 0
  pub Document : Type 0
  pub F64 : Type 0
  -- Rust's `as i64` on a double, and `h >= 1.0`.
  pub as_i64 : F64 → ℤ
  pub at_least_one : F64 → Bool
  pub view : Bson → View Bson Document F64
  pub make : View Bson Document F64 → Bson
  pub empty : Document
  pub get : Document → Text → Option Bson
  pub insert : Document → Text → Bson → Document
  pub remove : Document → Text → Document
  pub view-make : (v : View Bson Document F64) → view (make v) ≡ v
  pub get-empty : (k : Text) → get empty k ≡ none
  pub get-insert :
      (d : Document) (k j : Text) (b : Bson)
      → get (insert d k b) j ≡ (if text_eq k j then some b else get d j)
  pub get-remove :
      (d : Document) (k j : Text) → get (remove d k) j ≡ (if text_eq k j then none else get d j)

-- The payload of one variant.
module _ {B D F : Type 0} where
  abbrev pub str_of : View B D F → Option (Text)
  str_of (string x) = some x
  str_of _ = none

  abbrev pub bool_of : View B D F → Option (Bool)
  bool_of (boolean x) = some x
  bool_of _ = none

  abbrev pub document_of : View B D F → Option (D)
  document_of (document x) = some x
  document_of _ = none

  abbrev pub array_of : View B D F → Option (List B)
  array_of (array x) = some x
  array_of _ = none

  abbrev pub timestamp_of : View B D F → Option (ℕ)
  timestamp_of (timestamp x) = some x
  timestamp_of _ = none

  abbrev pub f64_of : View B D F → Option (F)
  f64_of (double x) = some x
  f64_of _ = none

-- `get_str`, `get_bool`, `get_array`, `get_document`, `get_timestamp`: `none` for their errors.
module _ (b : Documents) where
  open b use {Bson, Document, F64, view, get}

  abbrev pub as_str : Bson → Option (Text)
  as_str v = str_of (view v)

  abbrev pub as_bool : Bson → Option (Bool)
  as_bool v = bool_of (view v)

  abbrev pub as_document : Bson → Option (Document)
  as_document v = document_of (view v)

  abbrev pub as_array : Bson → Option (List Bson)
  as_array v = array_of (view v)

  abbrev pub as_timestamp : Bson → Option (ℕ)
  as_timestamp v = timestamp_of (view v)

  abbrev pub as_f64 : Bson → Option (F64)
  as_f64 v = f64_of (view v)

  abbrev pub get_str : Document → Text → Option Text
  get_str d k = and_then (get d k) as_str

  abbrev pub get_bool : Document → Text → Option Bool
  get_bool d k = and_then (get d k) as_bool

  abbrev pub get_document : Document → Text → Option Document
  get_document d k = and_then (get d k) as_document

  abbrev pub get_array : Document → Text → Option (List Bson)
  get_array d k = and_then (get d k) as_array

  abbrev pub get_timestamp : Document → Text → Option ℕ
  get_timestamp d k = and_then (get d k) as_timestamp

  abbrev pub get_f64 : Document → Text → Option F64
  get_f64 d k = and_then (get d k) as_f64
