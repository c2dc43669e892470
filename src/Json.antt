-- ===== src/Json.antt =====
-- The part of serde_json that the components share: values, `get`, the readings `as_…`, the macro
-- `json!` and the writing `value["key"] = …`. Numbers other than those of `u64` are not told apart.
mod Tests
use multi_proxy_panel.Prelude.{
  ℕ, ◌+◌, ◌≡◌, refl, String, str_eq, Bool, true, false, List, [], ◌∷◌, Option, none, some,
  if◌then◌else◌, unwrap_or, Bool-cases, eq_iff, eq_refl, inl, inr, ap, sym, ◌∙◌, false≢true, arith,
  arith,
}

mutual
  -- A map, in the order of its insertions.
  pub data Fields : Type 0 where
    no_fields : Fields
    field : String → Value → Fields → Fields

  pub data Value : Type 0 where
    object : Fields → Value
    array : Items → Value
    text : String → Value
    number : ℕ → Value
    other_number null : Value
    boolean : Bool → Value

  -- A vector.
  pub data Items : Type 0 where
    no_items : Items
    item : Value → Items → Items

unfoldable pub get_field : String → Fields → Option Value
get_field k no_fields = none
get_field k (field j v fs) = if str_eq j k then some v else get_field k fs

unfoldable pub get : String → Value → Option Value
unfolding get_field
get k (object fs) = get_field k fs
get k _ = none

abbrev pub as_str : Option Value → Option String
as_str (some (text s)) = some s
as_str _ = none

abbrev pub as_u64 : Option Value → Option ℕ
as_u64 (some (number n)) = some n
as_u64 _ = none

abbrev pub as_array : Option Value → Option Items
as_array (some (array xs)) = some xs
as_array _ = none

abbrev pub is_object : Value → Bool
is_object (object fs) = true
is_object _ = false

unfoldable pub count_items : Items → ℕ
count_items no_items = 0
count_items (item v xs) = 1 + count_items xs

abbrev pub to_list : Items → List Value
to_list no_items = []
to_list (item v xs) = v ∷ to_list xs

abbrev pub from_list : List Value → Items
from_list [] = no_items
from_list (v ∷ vs) = item v (from_list vs)

-- `json!([…])`
abbrev pub json_array : List Value → Value
json_array vs = array (from_list vs)

abbrev pub to_fields : List (String × Value) → Fields
to_fields [] = no_fields
to_fields (f ∷ fs) = field f.0 f.1 (to_fields fs)

-- `json!({…})`
abbrev pub json_object : List (String × Value) → Value
json_object fs = object (to_fields fs)

-- Map::insert: the value of a key that is there is replaced.
unfoldable pub put_field : String → Value → Fields → Fields
put_field k v no_fields = field k v no_fields
put_field k v (field j w fs) =
    let rest = put_field k v fs in if str_eq j k then field j v fs else field j w rest

-- `if let Some(obj) = value.as_object_mut() { obj.insert(k, v) }`
unfoldable pub put : String → Value → Value → Value
unfolding put_field
put k v (object fs) = object (put_field k v fs)
put k v o = o

-- `for (k, v) in …` with an insertion each
unfoldable pub put_all : Fields → Fields → Fields
unfolding put_field
put_all no_fields into = into
put_all (field k v fs) into = put_all fs (put_field k v into)

-- The keys of a map are distinct.
abbrev pub AreDistinct : Fields → Type 0
AreDistinct no_fields = Unit
AreDistinct (field k v fs) = (get_field k fs ≡ none) × AreDistinct fs

-- `value.get(key).and_then(|v| v.as_str())`
unfoldable pub get_str : String → Value → Option String
unfolding get
get_str k v = as_str (get k v)

-- `….as_str().unwrap_or(default)`
abbrev pub str_or : String → String → Value → String
str_or k default v = unwrap_or (get_str k v) default

abbrev pub u64_or : String → ℕ → Value → ℕ
u64_or k default v = unwrap_or (as_u64 (get k v)) default

pub get_field-put_field :
    (k : String) (v : Value) (fs : Fields) → get_field k (put_field k v fs) ≡ some v
unfolding get_field put_field
get_field-put_field k v no_fields = rw (eq_refl k) refl
get_field-put_field k v (field j w fs) = elim (Bool-cases (str_eq j k)) [
  | inl e ↦ rw (e, e) refl
  | inr d ↦ rw (d, d) (get_field-put_field k v fs)
]

abbrev pub IsObject : Value → Type 0
IsObject v = is_object v ≡ true

-- What was written is read.
pub get-put : (k : String) (v o : Value) → IsObject o → get k (put k v o) ≡ some v
unfolding get put
get-put k v (object fs) h = get_field-put_field k v fs
get-put k v null h = absurd (false≢true h)
get-put k v (boolean b) h = absurd (false≢true h)
get-put k v (number n) h = absurd (false≢true h)
get-put k v other_number h = absurd (false≢true h)
get-put k v (text s) h = absurd (false≢true h)
get-put k v (array xs) h = absurd (false≢true h)

pub get_field-put_field-apart :
    (k j : String) (v : Value) (fs : Fields)
    → str_eq j k ≡ false
    → get_field k (put_field j v fs) ≡ get_field k fs
unfolding get_field put_field
get_field-put_field-apart k j v no_fields d = rw d refl
get_field-put_field-apart k j v (field i w fs) d =
    ground (arith, eq_iff i j, get_field-put_field-apart k j v fs d)

-- Another key reads as before.
pub get-put-apart : (k j : String) (v o : Value) → str_eq j k ≡ false → get k (put j v o) ≡ get k o
unfolding get put
get-put-apart k j v (object fs) d = get_field-put_field-apart k j v fs d
get-put-apart k j v null d = refl
get-put-apart k j v (boolean b) d = refl
get-put-apart k j v (number n) d = refl
get-put-apart k j v other_number d = refl
get-put-apart k j v (text s) d = refl
get-put-apart k j v (array xs) d = refl
