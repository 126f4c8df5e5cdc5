-- ===== src/Json.antt =====
-- `serde_json::Value`, as src/jwt_verify.rs, src/auth_callout.rs and src/publish_drain.rs use it. The
-- type and its accessors are the library's documented interface; parsing and printing are parameters
-- of the modules that call them.
pub mod Laws
pub mod Plain
use pg_ck.Prelude.{
  ℕ, Bool, true, false, ◌&&◌, List, [], ◌∷◌, Option, none, some, leb, if◌then◌else◌, ◌>>=◌,
}
use pg_ck.Prelude.Int.{ℤ, pos, negsuc, i64_max}
use pg_ck.Text.{Text, text_eq}
use pg_ck.BTreeMap.{text_lt}

mutual
  pub data Value : Type 0 where
    null : Value
    bool : Bool → Value
    -- a number from 0 on, a negative one -(n + 1), and the text of any other
    pos_int neg_int : ℕ → Value
    float : Text → Value
    string : Text → Value
    array : Items → Value
    object : Fields → Value

  pub data Items : Type 0 where
    nil : Items
    cons : Value → Items → Items

  -- A `Map`: ascending keys.
  pub data Fields : Type 0 where
    end : Fields
    field : Text → Value → Fields → Fields

unfoldable pub get_field : Text → Fields → Option Value
get_field k end = none
get_field k (field j v fs) = if text_eq j k then some v else get_field k fs

unfoldable pub insert_field : Text → Value → Fields → Fields
insert_field k v end = field k v end
insert_field k v (field j w fs) =
    let later = field j w (insert_field k v fs) in
    if text_eq j k then field k v fs else if text_lt k j then field k v (field j w fs) else later

-- `v.get("k")`
unfoldable pub get : Text → Value → Option Value
unfolding get_field
get k (object fs) = get_field k fs
get k _ = none

unfoldable pub as_str : Value → Option Text
as_str (string s) = some s
as_str _ = none

unfoldable pub as_array : Value → Option Items
as_array (array vs) = some vs
as_array _ = none

unfoldable pub as_object : Value → Option Fields
as_object (object fs) = some fs
as_object _ = none

-- `v.as_i64()`: a whole number in the range of i64.
unfoldable pub as_i64 : Value → Option ℤ
as_i64 (pos_int n) = if leb n i64_max then some (pos n) else none
as_i64 (neg_int n) = if leb n i64_max then some (negsuc n) else none
as_i64 _ = none

-- `json!(n)` of an i64.
unfoldable pub of_i64 : ℤ → Value
of_i64 (pos n) = pos_int n
of_i64 (negsuc n) = neg_int n

-- `if let Some(obj) = v.as_object_mut() { obj.insert(k, w); }`
unfoldable pub with_field : Text → Value → Value → Value
unfolding insert_field
with_field k w (object fs) = object (insert_field k w fs)
with_field k w v = v

-- `json!({ k: v, … })`
unfoldable pub fields_of : List (Text × Value) → Fields → Fields
unfolding insert_field
fields_of [] fs = fs
fields_of ((k, v) ∷ rest) fs = fields_of rest (insert_field k v fs)

unfoldable pub object_of : List (Text × Value) → Value
unfolding fields_of
object_of kvs = object (fields_of kvs end)

-- `json!([ … ])` of texts.
unfoldable pub strings : List Text → Items
strings [] = nil
strings (s ∷ ss) = cons (string s) (strings ss)
