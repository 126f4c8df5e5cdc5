-- ===== src/Json/Plain.antt =====
-- The values that the code builds with `json!` are plain: they print, and parse back.
use pg_ck.Prelude.{◌≡◌, sym, true, false, List, [], ◌∷◌, All, Bool-cases, inl, inr}
use pg_ck.Prelude.Int.{ℤ, pos, negsuc}
use pg_ck.Text.{Text, text_eq, text_eq_iff}
use pg_ck.BTreeMap.{text_lt}
use pg_ck.BTreeMap.Order.{text_lt_trans, text_lt_total}
use pg_ck.Json
use pg_ck.Json.{
  Value, Fields, Items, insert_field, of_i64, with_field, fields_of, object_of, strings,
}
use pg_ck.Libraries.{IsPlain, ArePlain, HasPlain, AllKeys}

AllKeys-insert_field :
    (P : Text → Type 0) (k : Text) (v : Value) (fs : Fields)
    → P k
    → AllKeys P fs
    → AllKeys P (insert_field k v fs)
unfolding insert_field
AllKeys-insert_field P k v Json.end p h = (p, tt)
AllKeys-insert_field P k v (Json.field j w fs) p (q, h) = elim (Bool-cases (text_eq j k)) [
  | inl e ↦ rw e (p, h)
  | inr e ↦ elim (Bool-cases (text_lt k j)) [
    | inl l ↦ rw (e, l) (p, (q, h))
    | inr l ↦ rw (e, l) (q, AllKeys-insert_field P k v fs p h)
  ]
]

AllKeys-mono :
    (P Q : Text → Type 0) (fs : Fields) → ((k : Text) → P k → Q k) → AllKeys P fs → AllKeys Q fs
AllKeys-mono P Q Json.end f h = tt
AllKeys-mono P Q (Json.field k v fs) f (p, h) = (f k p, AllKeys-mono P Q fs f h)

text_eq_comm : (s t : Text) → text_eq s t ≡ false → text_eq t s ≡ false
text_eq_comm s t h = elim (Bool-cases (text_eq t s)) [
  | inl e ↦ cc ((text_eq_iff s t).1 (sym ((text_eq_iff t s).0 e)), h)
  | inr e ↦ e
]

later : (k j : Text) → text_eq j k ≡ false → text_lt k j ≡ false → text_lt j k ≡ true
later k j e l = text_lt_total k j (text_eq_comm j k e) l

insert_field-HasPlain :
    (k : Text) (v : Value) (fs : Fields) → IsPlain v → HasPlain fs → HasPlain (insert_field k v fs)
unfolding insert_field
insert_field-HasPlain k v Json.end p h = HasPlain.field p tt HasPlain.end
insert_field-HasPlain k v (Json.field j w fs) p (HasPlain.field q above h) =
    elim (Bool-cases (text_eq j k)) [
      | inl e ↦ rw e (HasPlain.field p (rw ((text_eq_iff j k).0 e) at above) h)
      | inr e ↦ elim (Bool-cases (text_lt k j)) [
        | inl l ↦
            rw (e, l)
              (HasPlain.field p (l, AllKeys-mono _ _ fs (λ i m. text_lt_trans k j i l m) above)
                (HasPlain.field q above h))
        | inr l ↦
            rw (e, l)
              (HasPlain.field q (AllKeys-insert_field _ k v fs (later k j e l) above)
                (insert_field-HasPlain k v fs p h))
      ]
    ]

pub of_i64-IsPlain : (a : ℤ) → IsPlain (of_i64 a)
unfolding of_i64
of_i64-IsPlain (pos n) = IsPlain.pos_int n
of_i64-IsPlain (negsuc n) = IsPlain.neg_int n

pub strings-ArePlain : (ss : List Text) → ArePlain (strings ss)
unfolding strings
strings-ArePlain [] = ArePlain.nil
strings-ArePlain (s ∷ ss) = ArePlain.cons (IsPlain.string s) (strings-ArePlain ss)

fields_of-HasPlain :
    (kvs : List (Text × Value)) (fs : Fields)
    → All (λ kv. IsPlain kv.1) kvs
    → HasPlain fs
    → HasPlain (fields_of kvs fs)
unfolding fields_of
fields_of-HasPlain [] fs ps h = h
fields_of-HasPlain ((k, v) ∷ kvs) fs (p, ps) h =
    fields_of-HasPlain kvs (insert_field k v fs) ps (insert_field-HasPlain k v fs p h)

pub object_of-IsPlain :
    (kvs : List (Text × Value)) → All (λ kv. IsPlain kv.1) kvs → IsPlain (object_of kvs)
unfolding object_of
object_of-IsPlain kvs ps = IsPlain.object (fields_of-HasPlain kvs Json.end ps HasPlain.end)

pub with_field-IsPlain :
    (k : Text) (w v : Value) → IsPlain w → IsPlain v → IsPlain (with_field k w v)
unfolding with_field
with_field-IsPlain k w (Json.object fs) p (IsPlain.object h) =
    IsPlain.object (insert_field-HasPlain k w fs p h)
with_field-IsPlain k w _ p q = q
