-- ===== src/Json/Laws.antt =====
-- Reading back what was written into an object.
use pg_ck.Prelude.{◌≡◌, refl, ◌∙◌, List, [], ◌∷◌, Option, none, some, arith, if◌then◌else◌}
use pg_ck.Prelude.Int.{ℤ, pos, negsuc, InI64}
use pg_ck.Text.{Text, text_eq, text_eq_iff}
use pg_ck.Json.{
  Value, object, Fields, end, field, get_field, insert_field, get, as_i64, of_i64, with_field,
  fields_of, object_of,
}

pub get_field-insert_field :
    (k j : Text) (v : Value) (fs : Fields)
    → get_field j (insert_field k v fs) ≡ (if text_eq k j then some v else get_field j fs)
unfolding get_field insert_field
get_field-insert_field k j v end = refl
get_field-insert_field k j v (field i w fs) =
    ground
      (arith, text_eq_iff k j, text_eq_iff i k, text_eq_iff i j, get_field-insert_field k j v fs)

-- The last entry with the key, if there is one.
abbrev pub last_of : Text → List (Text × Value) → Option Value → Option Value
last_of j [] before = before
last_of j ((k, v) ∷ rest) before = last_of j rest (if text_eq k j then some v else before)

get_field-fields_of :
    (j : Text) (kvs : List (Text × Value)) (fs : Fields)
    → get_field j (fields_of kvs fs) ≡ last_of j kvs (get_field j fs)
unfolding fields_of
get_field-fields_of j [] fs = refl
get_field-fields_of j ((k, v) ∷ rest) fs =
    get_field-fields_of j rest (insert_field k v fs)
    ∙ (λ i. last_of j rest (get_field-insert_field k j v fs i))

pub get-object_of :
    (j : Text) (kvs : List (Text × Value)) → get j (object_of kvs) ≡ last_of j kvs none
unfolding get object_of
get-object_of j kvs = get_field-fields_of j kvs end

pub get-with_field :
    (k j : Text) (v : Value) (fs : Fields)
    → get j (with_field k v (object fs)) ≡ (if text_eq k j then some v else get j (object fs))
unfolding get with_field
get-with_field k j v fs = get_field-insert_field k j v fs

pub as_i64-of_i64 : (a : ℤ) → InI64 a → as_i64 (of_i64 a) ≡ some a
unfolding as_i64 of_i64
as_i64-of_i64 (pos n) h = ground arith
as_i64-of_i64 (negsuc n) h = ground arith

pub as_i64-InI64 : (v : Value) {a : ℤ} → as_i64 v ≡ some a → InI64 a
unfolding as_i64
as_i64-InI64 (Value.pos_int n) h = ground arith
as_i64-InI64 (Value.neg_int n) h = ground arith
as_i64-InI64 _ h = absurd (ground arith)
