-- ===== src/Tests/Toys.antt =====
-- Concrete third-party libraries for the tests: a codec that prints a value as instructions of a stack
-- machine and keeps every law of `CodecLaws`, and signatures that name the key and the message's length.
use pg_ck.Prelude.{
  ℕ, ◌≡◌, ◌∙◌, refl, sym, ap, ◌+◌, ◌-◌, true, false, List, [], ◌∷◌, ◌++◌, Option, none, some, leb,
  ◌==◌, length, if◌then◌else◌, append_assoc, append-nil, arith,
}
use mathlib.Core.Option
use pg_ck.Prelude.Result.{ok}
use pg_ck.Text.{Text, text_eq, Lacks}
use pg_ck.Text.Utf8.{Bytes}
use pg_ck.Json
use pg_ck.Json.{Value, Items, Fields}
use pg_ck.Libraries.{Codec, CodecLaws, Ed25519, Nkeys, Digests}

abbrev pub encode : Bytes → Text
encode [] = []
encode (b ∷ bs) = (b + 100) ∷ encode bs

abbrev pub decode : Text → Option Bytes
decode [] = some []
decode (c ∷ cs) =
    let rest = decode cs in if leb 100 c then Option.map (λ bs. (c - 100) ∷ bs) rest else none

pub data Cell : Type 0 where
  value : Value → Cell
  items : Items → Cell
  fields : Fields → Cell
  text : Text → Cell

-- The instructions that take from the stack.
abbrev pub push_char : ℕ → List Cell → Option (List Cell)
push_char n (text s ∷ st) = some (text (n ∷ s) ∷ st)
push_char n _ = none

abbrev pub make_string : List Cell → Option (List Cell)
make_string (text s ∷ st) = some (value (Json.string s) ∷ st)
make_string _ = none

abbrev pub make_float : List Cell → Option (List Cell)
make_float (text s ∷ st) = some (value (Json.float s) ∷ st)
make_float _ = none

abbrev pub push_item : List Cell → Option (List Cell)
push_item (value v ∷ items vs ∷ st) = some (items (Json.cons v vs) ∷ st)
push_item _ = none

abbrev pub make_array : List Cell → Option (List Cell)
make_array (items vs ∷ st) = some (value (Json.array vs) ∷ st)
make_array _ = none

abbrev pub push_field : List Cell → Option (List Cell)
push_field (value v ∷ text k ∷ fields fs ∷ st) = some (fields (Json.field k v fs) ∷ st)
push_field _ = none

abbrev pub make_object : List Cell → Option (List Cell)
make_object (fields fs ∷ st) = some (value (Json.object fs) ∷ st)
make_object _ = none

-- One instruction: its number, its argument and the stack.
abbrev pub step : ℕ → ℕ → List Cell → Option (List Cell)
step op n st =
    if op == 0
    then some (value Json.null ∷ st)
    else if op == 1
    then some (value (Json.bool (n == 1)) ∷ st)
    else if op == 2
    then some (value (Json.pos_int n) ∷ st)
    else if op == 3
    then some (value (Json.neg_int n) ∷ st)
    else if op == 4
    then some (text [] ∷ st)
    else if op == 5
    then push_char n st
    else if op == 6
    then make_string st
    else if op == 7
    then make_float st
    else if op == 8
    then some (items Json.nil ∷ st)
    else if op == 9
    then push_item st
    else if op == 10
    then make_array st
    else if op == 11
    then some (fields Json.end ∷ st)
    else if op == 12
    then push_field st
    else if op == 13
    then make_object st
    else none

abbrev pub execute : Bytes → Option (List Cell) → Option (List Cell)
execute (op ∷ n ∷ rest) (some st) = execute rest (step op n st)
execute (op ∷ n ∷ rest) none = none
execute (op ∷ []) st = none
execute [] st = st

abbrev pub print_text : Text → Bytes
print_text [] = 4 ∷ 0 ∷ []
print_text (c ∷ s) = print_text s ++ 5 ∷ c ∷ []

unfoldable mutual
  pub print : Value → Bytes
  print Json.null = 0 ∷ 0 ∷ []
  print (Json.bool true) = 1 ∷ 1 ∷ []
  print (Json.bool false) = 1 ∷ 0 ∷ []
  print (Json.pos_int n) = 2 ∷ n ∷ []
  print (Json.neg_int n) = 3 ∷ n ∷ []
  print (Json.float s) = print_text s ++ 7 ∷ 0 ∷ []
  print (Json.string s) = print_text s ++ 6 ∷ 0 ∷ []
  print (Json.array vs) = print_items vs ++ 10 ∷ 0 ∷ []
  print (Json.object fs) = print_fields fs ++ 13 ∷ 0 ∷ []

  pub print_items : Items → Bytes
  print_items Json.nil = 8 ∷ 0 ∷ []
  print_items (Json.cons v vs) = print_items vs ++ (print v ++ 9 ∷ 0 ∷ [])

  pub print_fields : Fields → Bytes
  print_fields Json.end = 11 ∷ 0 ∷ []
  print_fields (Json.field k v fs) = print_fields fs ++ (print_text k ++ (print v ++ 12 ∷ 0 ∷ []))

abbrev pub only_value : Option (List Cell) → Option Value
only_value (some (value v ∷ [])) = some v
only_value _ = none

execute-print_text :
    (s : Text) (rest : Bytes) (st : List Cell)
    → execute (print_text s ++ rest) (some st) ≡ execute rest (some (text s ∷ st))
execute-print_text [] rest st = refl
execute-print_text (c ∷ s) rest st =
    rw (append_assoc (print_text s) (5 ∷ c ∷ []) rest) (execute-print_text s (5 ∷ c ∷ rest) st)

mutual
  unfolding print

  execute-print :
      (v : Value) (rest : Bytes) (st : List Cell)
      → execute (print v ++ rest) (some st) ≡ execute rest (some (value v ∷ st))
  execute-print Json.null rest st = refl
  execute-print (Json.bool true) rest st = refl
  execute-print (Json.bool false) rest st = refl
  execute-print (Json.pos_int n) rest st = refl
  execute-print (Json.neg_int n) rest st = refl
  execute-print (Json.float s) rest st =
      rw (append_assoc (print_text s) (7 ∷ 0 ∷ []) rest) (execute-print_text s (7 ∷ 0 ∷ rest) st)
  execute-print (Json.string s) rest st =
      rw (append_assoc (print_text s) (6 ∷ 0 ∷ []) rest) (execute-print_text s (6 ∷ 0 ∷ rest) st)
  execute-print (Json.array vs) rest st =
      rw (append_assoc (print_items vs) (10 ∷ 0 ∷ []) rest)
        (execute-print_items vs (10 ∷ 0 ∷ rest) st)
  execute-print (Json.object fs) rest st =
      rw (append_assoc (print_fields fs) (13 ∷ 0 ∷ []) rest)
        (execute-print_fields fs (13 ∷ 0 ∷ rest) st)

  execute-print_items :
      (vs : Items) (rest : Bytes) (st : List Cell)
      → execute (print_items vs ++ rest) (some st) ≡ execute rest (some (items vs ∷ st))
  execute-print_items Json.nil rest st = refl
  execute-print_items (Json.cons v vs) rest st =
      rw
        (
          append_assoc (print_items vs) (print v ++ 9 ∷ 0 ∷ []) rest,
          append_assoc (print v) (9 ∷ 0 ∷ []) rest,
        )
        (execute-print_items vs (print v ++ 9 ∷ 0 ∷ rest) st
          ∙ execute-print v (9 ∷ 0 ∷ rest) (items vs ∷ st))

  execute-print_fields :
      (fs : Fields) (rest : Bytes) (st : List Cell)
      → execute (print_fields fs ++ rest) (some st) ≡ execute rest (some (fields fs ∷ st))
  execute-print_fields Json.end rest st = refl
  execute-print_fields (Json.field k v fs) rest st =
      rw
        (
          append_assoc (print_fields fs) (print_text k ++ (print v ++ 12 ∷ 0 ∷ [])) rest,
          append_assoc (print_text k) (print v ++ 12 ∷ 0 ∷ []) rest,
          append_assoc (print v) (12 ∷ 0 ∷ []) rest,
        )
        (execute-print_fields fs (print_text k ++ (print v ++ 12 ∷ 0 ∷ rest)) st
          ∙ execute-print_text k (print v ++ 12 ∷ 0 ∷ rest) (fields fs ∷ st)
          ∙ execute-print v (12 ∷ 0 ∷ rest) (text k ∷ fields fs ∷ st))

abbrev pub codec : Codec
codec = record {
  decode = decode;
  encode = encode;
  from_slice = λ bs. only_value (execute bs (some []));
  from_str = λ s. only_value (execute s (some []));
  to_vec = λ v. ok (print v);
}

decode-encode : (bs : Bytes) → decode (encode bs) ≡ some bs
decode-encode [] = refl
decode-encode (b ∷ bs) = ground (arith, decode-encode bs)

encode-Lacks : (bs : Bytes) → Lacks b'.' (encode bs)
encode-Lacks [] = tt
encode-Lacks (b ∷ bs) = ((λ e. absurd (omega arith)), encode-Lacks bs)

only_value-print : (v : Value) → only_value (execute (print v) (some [])) ≡ some v
only_value-print v =
    ap (λ (bs : Bytes). only_value (execute bs (some []))) (sym (append-nil (print v)))
    ∙ ap only_value (execute-print v [] [])

pub codec_laws : CodecLaws codec
codec_laws = record {
  decode_encode = decode-encode;
  encode_dotless = encode-Lacks;
  prints = λ v _. (print v, refl, only_value-print v);
}

abbrev pub ed : Ed25519
ed = record {
  VerifyingKey = Bytes;
  Signature = Bytes;
  key_from_bytes = λ bs. some bs;
  signature_from_slice = λ bs. some bs;
  verify = λ key message sig. text_eq sig (length message ∷ key);
}

abbrev pub nkeys : Nkeys
nkeys = record {
  KeyPair = Text;
  from_seed = λ s. some s;
  public_key = λ kp. kp;
  sign = λ kp message. ok (length message ∷ kp);
}

abbrev pub digests : Digests
digests = record { sha256 = λ bs. length bs ∷ []; base32 = encode }
