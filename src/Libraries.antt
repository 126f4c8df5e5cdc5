-- ===== src/Libraries.antt =====
-- The third-party libraries that the code calls, as parameters: base64 and serde_json (`Codec`),
-- ed25519-dalek (`Ed25519`), nkeys (`Nkeys`), sha2 and data-encoding (`Digests`). What the proofs rely
-- on is their documented behaviour, in `CodecLaws`.
use pg_ck.Prelude.{ℕ, ◌≡◌, Bool, true, Option, some}
use pg_ck.Prelude.Result.{Result, ok}
use pg_ck.Text.{Text, Lacks}
use pg_ck.Text.Utf8.{Bytes}
use pg_ck.BTreeMap.{text_lt}
use pg_ck.Json
use pg_ck.Json.{Value, Items, Fields}

pub record Codec : Type 0 where
  -- `URL_SAFE_NO_PAD.decode(s).ok()`, `URL_SAFE_NO_PAD.encode(bytes)`
  pub decode : Text → Option Bytes
  pub encode : Bytes → Text
  -- `serde_json::from_slice(bytes).ok()`, `from_str(s).ok()`, `to_vec(v)` with its error's text
  pub from_slice : Bytes → Option Value
  pub from_str : Text → Option Value
  pub to_vec : Value → Result Text Bytes

abbrev pub AllKeys : (Text → Type 0) → Fields → Type 0
AllKeys P Json.end = Unit
AllKeys P (Json.field k v fs) = P k × AllKeys P fs

-- A value that `json!` builds with no float: its objects have ascending keys.
mutual
  pub data IsPlain : Value → Type 0 where
    null : IsPlain Json.null
    bool : (b : Bool) → IsPlain (Json.bool b)
    pos_int : (n : ℕ) → IsPlain (Json.pos_int n)
    neg_int : (n : ℕ) → IsPlain (Json.neg_int n)
    string : (s : Text) → IsPlain (Json.string s)
    array : {vs : Items} → ArePlain vs → IsPlain (Json.array vs)
    object : {fs : Fields} → HasPlain fs → IsPlain (Json.object fs)

  pub data ArePlain : Items → Type 0 where
    nil : ArePlain Json.nil
    cons : {v : Value} {vs : Items} → IsPlain v → ArePlain vs → ArePlain (Json.cons v vs)

  pub data HasPlain : Fields → Type 0 where
    end : HasPlain Json.end
    field :
        {k : Text} {v : Value} {fs : Fields}
        → IsPlain v
        → AllKeys (λ j. text_lt k j ≡ true) fs
        → HasPlain fs
        → HasPlain (Json.field k v fs)

pub record CodecLaws (c : Codec) : Type 0 where
  -- Decoding undoes encoding, whose alphabet has no dot.
  pub decode_encode : (bs : Bytes) → c.decode (c.encode bs) ≡ some bs
  pub encode_dotless : (bs : Bytes) → Lacks b'.' (c.encode bs)
  -- Printing a value with text keys succeeds, and parsing the print gives the value back.
  pub prints :
      (v : Value) → IsPlain v → (bs : Bytes) × (c.to_vec v ≡ ok bs) × (c.from_slice bs ≡ some v)

pub record Ed25519 : Type 1 where
  pub VerifyingKey : Type 0
  pub Signature : Type 0
  pub key_from_bytes : Bytes → Option VerifyingKey
  pub signature_from_slice : Bytes → Option Signature
  pub verify : VerifyingKey → Bytes → Signature → Bool

pub record Nkeys : Type 1 where
  pub KeyPair : Type 0
  pub from_seed : Text → Option KeyPair
  pub public_key : KeyPair → Text
  -- with its error's text
  pub sign : KeyPair → Bytes → Result Text Bytes

pub record Digests : Type 0 where
  pub sha256 : Bytes → Bytes
  pub base32 : Bytes → Text
