-- ===== src/Tests/Admission.antt =====
-- The admission decision on a token, a key set and a request.
use mathlib.Core.Option
use pg_ck.Prelude.{
  ◌≡◌, ◌↔◌, ◌⊎◌, inl, inr, refl, Bool, true, false, List, [], ◌∷◌, ◌++◌, Option, none, some,
  replicate, length, ◌≤◌, arith, All, Any,
}
use pg_ck.Prelude.Int.{ℤ, pos, ◌+ℤ◌, ◌≤ℤ◌, InI64}
use pg_ck.Prelude.Result.{ok, err}
use pg_ck.Text.{Text, codes}
use pg_ck.Text.Utf8
use pg_ck.Text.Utf8.{Bytes}
use pg_ck.Json
use pg_ck.Json.{Value, object_of, string, array, pos_int}
use pg_ck.Jwt.{
  VerifiedIdentity, Expected, verified, anonymous, verify_eddsa, parse_jwks, jwk_entry, AuthConfig,
  from_parts, callout_identity, Jwks,
}
use pg_ck.Jwt.Accepts.{IsAuthentic, verify_eddsa_iff, ◌<ℤ◌}
use pg_ck.Jwt.Keys.{IsLoaded, parse_jwks-IsLoaded}
use pg_ck.Jwt.Admits.{IsAdmitted, callout_identity_iff, verified_before_exp}
use pg_ck.Policy.{Gucs, oidc_auth_config}
use pg_ck.Policy.Verifier.{IsConfigured, oidc_auth_config_iff}
use pg_ck.Callout.{handle_request}
use pg_ck.Callout.Request.{AuthRequest, parse_auth_request}
use pg_ck.Callout.Claims.{Signs, IsResponse, IsUserJwt}
use pg_ck.Callout.Answers.{malformed_answer, strict_answer, admitted_answer}
use pg_ck.Tests.Toys.{codec, ed, nkeys, digests, codec_laws, encode, print}

abbrev key : Bytes
key = replicate 32 7

abbrev segment : Value → Text
segment v = encode (print v)

abbrev header : Value
header = Json.object (
    Json.field (codes "alg") (string (codes "EdDSA"))
      (Json.field (codes "kid") (string (codes "k1")) Json.end))

abbrev payload : Value
payload = Json.object (
    Json.field (codes "aud") (string (codes "ck")) (
      Json.field (codes "exp") (pos_int 5000) (
        Json.field (codes "iss") (string (codes "realm"))
          (Json.field (codes "sub") (string (codes "al.ice")) Json.end))))

abbrev signed : Text
signed = segment header ++ b'.' ∷ segment payload

abbrev pub token : Text
token = signed ++ b'.' ∷ encode (length (Utf8.encode signed) ∷ key)

abbrev jwk : Value
jwk = Json.object (
    Json.field (codes "crv") (string (codes "Ed25519")) (
      Json.field (codes "kid") (string (codes "k1")) (
        Json.field (codes "kty") (string (codes "OKP"))
          (Json.field (codes "x") (string (encode key)) Json.end))))

abbrev jwks_json : Text
jwks_json = print (
    Json.object
      (Json.field (codes "keys") (array (Json.cons jwk (Json.cons Json.null Json.nil))) Json.end))

abbrev keys : Jwks codec ed
keys = (codes "k1", key) ∷ []

abbrev pub config : AuthConfig codec ed
config = record { jwks = keys; issuer = codes "realm"; audience = codes "ck"; leeway_secs = pos 30 }

abbrev expected : Expected
expected = record {
  issuer = codes "realm";
  audience = codes "ck";
  now_unix = pos 1000;
  leeway_secs = pos 30;
}

abbrev alice : VerifiedIdentity
alice = record { sub = codes "al.ice"; preferred_username = none; exp = pos 5000 }

verify_eddsa_iff_example :
    (verify_eddsa codec ed token key expected ≡ ok alice)
    ↔ IsAuthentic codec ed token key expected alice
verify_eddsa_iff_example = verify_eddsa_iff codec ed token key expected alice

parse_jwks_example : parse_jwks codec ed jwks_json ≡ ok keys
unfolding parse_jwks print Option.bind Json.get pg_ck.Text.text_eq Json.as_array Json.as_str
    pg_ck.BTreeMap.insert
parse_jwks_example = refl

parse_jwks-IsLoaded_example : IsLoaded codec ed jwks_json keys
parse_jwks-IsLoaded_example = parse_jwks-IsLoaded codec ed jwks_json keys parse_jwks_example

from_parts_example : from_parts codec ed jwks_json (codes "realm") (codes "ck") ≡ ok config
unfolding from_parts
from_parts_example = rw parse_jwks_example refl

callout_identity_example :
    callout_identity codec ed (some token) (some config) (pos 1000)
    ≡ verified (codes "al.ice") (pos 5000)
unfolding callout_identity print pg_ck.Jwt.verify_config pg_ck.Jwt.verify_jwt pg_ck.Text.split
    Option.bind Json.get pg_ck.Text.text_eq Json.as_str pg_ck.BTreeMap.lookup verify_eddsa
    Utf8.encode Json.as_i64 pg_ck.Prelude.Int.wrap_i64
callout_identity_example = refl

callout_identity_iff_example :
    (callout_identity codec ed (some token) (some config) (pos 1000)
      ≡ verified (codes "al.ice") (pos 5000))
    ↔ IsAdmitted codec ed (some token) (some config) (pos 1000) (codes "al.ice") (pos 5000)
callout_identity_iff_example =
    callout_identity_iff codec ed (some token) (some config) (pos 1000) (codes "al.ice") (pos 5000)

verified_before_exp_example : (pos 1000 <ℤ pos 5000 +ℤ pos 30) × InI64 (pos 5000 +ℤ pos 30)
verified_before_exp_example =
    verified_before_exp codec ed jwks_json (codes "realm") (codes "ck") config (some token)
      (pos 1000) (codes "al.ice") (pos 5000) from_parts_example (omega arith)
      callout_identity_example

abbrev request_claims : Value
request_claims = Json.object (
    Json.field (codes "nats")
      (Json.object (
        Json.field (codes "connect_opts")
          (Json.object (Json.field (codes "auth_token") (string token) Json.end))
          (Json.field (codes "server_id")
            (Json.object (Json.field (codes "id") (string (codes "N1")) Json.end))
            (Json.field (codes "user_nkey") (string (codes "U1")) Json.end))))
      Json.end)

abbrev pub request : Text
request = codes "h." ++ (segment request_claims ++ codes ".s")

abbrev auth_request : AuthRequest
auth_request = record { user_nkey = codes "U1"; server_id = codes "N1"; auth_token = some token }

parse_auth_request_example : parse_auth_request codec request ≡ some auth_request
unfolding parse_auth_request print pg_ck.Callout.Request.decode_claims Utf8.encode Json.get
    pg_ck.Text.text_eq Json.as_str Option.bind
parse_auth_request_example = refl

pub signs : Signs codec codec_laws nkeys digests (codes "A1")
signs bs = (length bs ∷ codes "A1", refl)

unreadable : parse_auth_request codec (codes "x") ≡ none
unfolding parse_auth_request pg_ck.Callout.Request.decode_claims
unreadable = refl

unverified : callout_identity codec ed (some token) none (pos 1000) ≡ anonymous
unfolding callout_identity
unverified = refl

malformed_answer_example :
    IsResponse codec codec_laws nkeys digests
      (handle_request codec ed nkeys digests
        (codes "x")
        (some config)
        (codes "A1")
        (pos 1000)
        true
        (codes "ck" ∷ []))
      []
      []
      (codes "A1")
      (err (codes "malformed request"))
malformed_answer_example =
    malformed_answer codec codec_laws ed nkeys digests (codes "x") (some config) (codes "A1")
      (pos 1000) true (codes "ck" ∷ []) signs unreadable

strict_answer_example :
    IsResponse codec codec_laws nkeys digests
      (handle_request codec ed nkeys digests request none
        (codes "A1")
        (pos 1000)
        false
        (codes "ck" ∷ []))
      (codes "U1")
      (codes "N1")
      (codes "A1")
      (err (codes "unverified connection refused (pgck.admit_anonymous=false)"))
strict_answer_example =
    strict_answer codec codec_laws ed nkeys digests request none (codes "A1") (pos 1000) false
      (codes "ck" ∷ []) signs auth_request parse_auth_request_example refl unverified

admitted_answer_example :
    (user_jwt : Text) × IsResponse codec codec_laws nkeys digests
      (handle_request codec ed nkeys digests request
        (some config)
        (codes "A1")
        (pos 1000)
        false
        (codes "ck" ∷ []))
      (codes "U1")
      (codes "N1")
      (codes "A1")
      (ok user_jwt)
    × IsUserJwt codec codec_laws nkeys digests user_jwt
        (codes "U1")
        (codes "A1")
        (callout_identity codec ed (some token) (some config) (pos 1000))
        (codes "ck" ∷ [])
admitted_answer_example =
    admitted_answer codec codec_laws ed nkeys digests request (some config) (codes "A1") (pos 1000)
      false (codes "ck" ∷ []) signs auth_request parse_auth_request_example
      (inr (codes "al.ice", pos 5000, callout_identity_example))

abbrev gucs : Gucs
gucs = record {
  nats_url = none;
  nats_js_stream = none;
  nats_account_seed = none;
  oidc_jwks = some jwks_json;
  oidc_issuer = some (codes "realm");
  oidc_audience = some (codes "ck");
  worker_database = none;
  admit_anonymous = true;
  kernels = none;
}

oidc_auth_config_iff_example :
    (oidc_auth_config codec ed gucs ≡ some config) ↔ IsConfigured codec ed gucs config
oidc_auth_config_iff_example = oidc_auth_config_iff codec ed gucs config
