-- ===== src/Jwt.antt =====
-- src/jwt_verify.rs: the offline EdDSA JWT verifier.
pub mod Accepts
pub mod Keys
pub mod Admits
use pg_ck.Prelude.{
  ℕ, Bool, true, false, ◌&&◌, not, List, [], ◌∷◌, ◌++◌, Option, none, some, ◌==◌, if◌then◌else◌,
  length,
}
use pg_ck.Prelude.Int.{ℤ, pos, ◌+ℤ◌, ◌-ℤ◌, ltb_ℤ, wrap_i64}
use pg_ck.Prelude.Result.{Result, ok, err, ok_or, ◌>>=◌, require}
use pg_ck.Text.{Text, codes, text_eq, split}
use pg_ck.Text.Utf8.{Bytes}
use pg_ck.Text.Utf8
use pg_ck.BTreeMap
use pg_ck.Json.{Value, Items, nil, cons, string, array, get, as_str, as_i64, as_array}
use pg_ck.Libraries.{Codec, Ed25519}
use mathlib.Core.Option

pub record VerifiedIdentity : Type 0 where
  pub sub : Text
  pub preferred_username : Option Text
  pub exp : ℤ

pub data VerifyError : Type 0 where
  malformed unsupported_alg bad_signature expired not_yet_valid wrong_issuer wrong_audience
        missing_sub :
      VerifyError

pub record Expected : Type 0 where
  pub issuer : Text
  pub audience : Text
  pub now_unix : ℤ
  pub leeway_secs : ℤ

pub data Admission : Type 0 where
  verified : Text → ℤ → Admission
  anonymous : Admission

-- `v == Some(s)` on an optional text.
abbrev pub is_text : Option Text → Text → Bool
is_text none want = false
is_text (some s) want = text_eq s want

-- `v.get("k").and_then(|v| v.as_str())`
unfoldable pub get_str : Text → Value → Option Text
get_str k v = Option.bind (get k v) as_str

unfoldable pub get_i64 : Text → Value → Option ℤ
get_i64 k v = Option.bind (get k v) as_i64

unfoldable pub any_str : Items → Text → Bool
any_str nil want = false
any_str (cons v vs) want = if is_text (as_str v) want then true else any_str vs want

unfoldable pub aud_contains : Option Value → Text → Bool
unfolding any_str
aud_contains (some (string s)) want = text_eq s want
aud_contains (some (array a)) want = any_str a want
aud_contains _ want = false

-- The three parts of a compact token; `split` gives one part at least.
unfoldable pub three_parts : List Text → Result VerifyError (Text × Text × Text)
three_parts (h ∷ p ∷ s ∷ []) = ok (h, p, s)
three_parts _ = err malformed

abbrev pub live_exp : Option ℤ → Expected → Result VerifyError ℤ
live_exp none x = err expired
live_exp (some exp) x =
    if ltb_ℤ x.now_unix (wrap_i64 (exp +ℤ x.leeway_secs)) then ok exp else err expired

abbrev pub begun : Option ℤ → Expected → Bool
begun none x = true
begun (some nbf) x = not (ltb_ℤ x.now_unix (wrap_i64 (nbf -ℤ x.leeway_secs)))

-- The claims of a payload that is proven authentic.
unfoldable pub check_claims : Value → Expected → Result VerifyError VerifiedIdentity
unfolding get_str get_i64 aud_contains
check_claims claims x = do
  _ ← require (is_text (get_str (codes "iss") claims) x.issuer) wrong_issuer
  _ ← require (aud_contains (get (codes "aud") claims) x.audience) wrong_audience
  exp ← live_exp (get_i64 (codes "exp") claims) x
  _ ← require (begun (get_i64 (codes "nbf") claims) x) not_yet_valid
  sub ← ok_or missing_sub (get_str (codes "sub") claims)
  ok (record {
    sub = sub;
    preferred_username = get_str (codes "preferred_username") claims;
    exp = exp;
  })

module _ (codec : Codec) where
  unfoldable pub b64 : Text → Result VerifyError Bytes
  b64 s = ok_or malformed (codec.decode s)

  unfoldable pub json_segment : Text → Result VerifyError Value
  unfolding b64
  json_segment s = do bytes ← b64 s; ok_or malformed (codec.from_slice bytes)

module _ (codec : Codec) (ed : Ed25519) where
  open ed use {VerifyingKey, Signature, key_from_bytes, signature_from_slice, verify}

  unfoldable pub verify_parts :
      Text × Text × Text → VerifyingKey → Expected → Result VerifyError VerifiedIdentity
  unfolding json_segment check_claims
  verify_parts (h_b64, p_b64, s_b64) pubkey x = do
    header ← json_segment codec h_b64
    _ ← require (is_text (get_str (codes "alg") header) (codes "EdDSA")) unsupported_alg
    sig_bytes ← b64 codec s_b64
    sig ← ok_or bad_signature (signature_from_slice sig_bytes)
    _ ← require (verify pubkey (Utf8.encode (h_b64 ++ b'.' ∷ p_b64)) sig) bad_signature
    claims ← json_segment codec p_b64
    check_claims claims x

  unfoldable pub verify_eddsa : Text → VerifyingKey → Expected → Result VerifyError VerifiedIdentity
  unfolding verify_parts three_parts
  verify_eddsa token pubkey x = do
    parts ← three_parts (split b'.' token)
    verify_parts parts pubkey x

  -- `Jwks`: the keys by `kid`; a later key with the same `kid` replaces an earlier one.
  abbrev pub Jwks : Type 0
  Jwks = List (Text × VerifyingKey)

  abbrev as_32 : Bytes → Option Bytes
  as_32 bytes = if length bytes == 32 then some bytes else none

  abbrev key_of_x : Text → Option VerifyingKey
  key_of_x x = Option.bind (Option.bind (codec.decode x) as_32) key_from_bytes

  abbrev kid_and_key : Option Text → Option Text → Option (Text × VerifyingKey)
  kid_and_key (some kid) (some x) = Option.map (λ key. (kid, key)) (key_of_x x)
  kid_and_key _ _ = none

  -- One round of the loop: an entry that is no Ed25519 key is skipped.
  unfoldable pub jwk_entry : Value → Option (Text × VerifyingKey)
  unfolding get_str
  jwk_entry jwk =
      if not (is_text (get_str (codes "kty") jwk) (codes "OKP"))
      then none
      else if not (is_text (get_str (codes "crv") jwk) (codes "Ed25519"))
      then none
      else kid_and_key (get_str (codes "kid") jwk) (get_str (codes "x") jwk)

  abbrev with_entry : Option (Text × VerifyingKey) → Jwks → Jwks
  with_entry none keys = keys
  with_entry (some (kid, key)) keys = BTreeMap.insert kid key keys

  unfoldable pub collect_keys : Items → Jwks → Jwks
  unfolding jwk_entry
  collect_keys nil keys = keys
  collect_keys (cons jwk jwks) keys = collect_keys jwks (with_entry (jwk_entry jwk) keys)

  abbrev nonempty : Jwks → Result VerifyError Jwks
  nonempty [] = err malformed
  nonempty (k ∷ ks) = ok (k ∷ ks)

  unfoldable pub parse_jwks : Text → Result VerifyError Jwks
  unfolding collect_keys
  parse_jwks jwks_json = do
    doc ← ok_or malformed (codec.from_str jwks_json)
    arr ← ok_or malformed (Option.bind (get (codes "keys") doc) as_array)
    nonempty (collect_keys arr [])

  abbrev first_part : List Text → Result VerifyError Text
  first_part [] = err malformed
  first_part (h ∷ parts) = ok h

  unfoldable pub verify_jwt : Text → Jwks → Expected → Result VerifyError VerifiedIdentity
  unfolding json_segment get_str
  verify_jwt token jwks x = do
    h_b64 ← first_part (split b'.' token)
    header ← json_segment codec h_b64
    kid ← ok_or malformed (get_str (codes "kid") header)
    key ← ok_or bad_signature (BTreeMap.lookup kid jwks)
    verify_eddsa token key x

  pub record AuthConfig : Type 0 where
    pub jwks : Jwks
    pub issuer : Text
    pub audience : Text
    pub leeway_secs : ℤ

  unfoldable pub from_parts : Text → Text → Text → Result VerifyError AuthConfig
  from_parts jwks_json issuer audience = do
    jwks ← parse_jwks jwks_json
    ok (record { jwks = jwks; issuer = issuer; audience = audience; leeway_secs = pos 30 })

  abbrev pub expected_at : AuthConfig → ℤ → Expected
  expected_at cfg now = record {
    issuer = cfg.issuer;
    audience = cfg.audience;
    now_unix = now;
    leeway_secs = cfg.leeway_secs;
  }

  unfoldable pub verify_config : AuthConfig → Text → ℤ → Result VerifyError VerifiedIdentity
  verify_config cfg token now = verify_jwt token cfg.jwks (expected_at cfg now)

  abbrev admission_of : Result VerifyError VerifiedIdentity → Admission
  admission_of (ok id) = verified id.sub id.exp
  admission_of (err _) = anonymous

  unfoldable pub callout_identity : Option Text → Option AuthConfig → ℤ → Admission
  callout_identity (some t) (some c) now = admission_of (verify_config c t now)
  callout_identity _ _ now = anonymous
