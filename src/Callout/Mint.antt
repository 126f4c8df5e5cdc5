-- ===== src/Callout/Mint.antt =====
-- src/auth_callout.rs: the signed answers (`encode_and_sign`, `build_user_jwt`, `build_response`), and
-- the choice between a refusal and a user JWT.
use pg_ck.Prelude.{
  Bool, true, false, not, ◌&&◌, List, [], ◌∷◌, ◌++◌, Option, none, some, if◌then◌else◌,
}
use pg_ck.Prelude.Int.{ℤ}
use pg_ck.Prelude.Result.{Result, ok, err, ◌>>=◌}
use pg_ck.Text.{Text, codes}
use pg_ck.Text.Utf8
use pg_ck.Text.Utf8.{Bytes}
use pg_ck.Json.{Value, array, string, pos_int, neg_int, of_i64, with_field, object_of, strings}
use pg_ck.Libraries.{Codec, Nkeys, Digests}
use pg_ck.Jwt.{Admission, verified, anonymous}
use pg_ck.Callout.Grants.{UserPermissions, permissions_for}

-- `response.unwrap_or_default()`
abbrev pub unwrap_or_default : Result Text Text → Text
unwrap_or_default (ok s) = s
unwrap_or_default (err _) = []

abbrev bytes_or_empty : Result Text Bytes → Bytes
bytes_or_empty (ok bs) = bs
bytes_or_empty (err _) = []

module _ (codec : Codec) (nkeys : Nkeys) (digests : Digests) where
  open nkeys use {KeyPair, public_key, sign}

  unfoldable pub nats_jti : Value → Text
  unfolding with_field
  nats_jti claims =
      digests.base32 (
        digests.sha256
          (bytes_or_empty (codec.to_vec (with_field (codes "jti") (string []) claims))))

  -- The claims as they are signed.
  abbrev pub stamped : Value → Value
  stamped claims = with_field (codes "jti") (string (nats_jti claims)) claims

  abbrev pub jwt_header : Text
  jwt_header = codec.encode (codes "{\"typ\":\"JWT\",\"alg\":\"ed25519-nkey\"}")

  unfoldable pub encode_and_sign : Value → KeyPair → Result Text Text
  unfolding with_field
  encode_and_sign claims signer = do
    bytes ← codec.to_vec (stamped claims)
    sig ← sign signer (Utf8.encode (jwt_header ++ b'.' ∷ codec.encode bytes))
    ok (jwt_header ++ b'.' ∷ (codec.encode bytes ++ b'.' ∷ codec.encode sig))

  abbrev pub allow : List Text → Value
  allow ss = object_of ((codes "allow", array (strings ss)) ∷ [])

  abbrev pub pub_perm : List Text → Value
  pub_perm [] = object_of ((codes "deny", array (strings (codes ">" ∷ []))) ∷ [])
  pub_perm (s ∷ ss) = allow (s ∷ ss)

  -- The `nats` claim of a user.
  abbrev pub user_nats : UserPermissions → Value
  user_nats perms = object_of (
      (codes "pub", pub_perm perms.pub_allow)
      ∷ (codes "sub", allow perms.sub_allow)
      ∷ (codes "subs", neg_int 0)
      ∷ (codes "data", neg_int 0)
      ∷ (codes "payload", neg_int 0)
      ∷ (codes "type", string (codes "user"))
      ∷ (codes "version", pos_int 2)
      ∷ [])

  abbrev with_exp : Option ℤ → Value → Value
  with_exp none claims = claims
  with_exp (some exp) claims = with_field (codes "exp") (of_i64 exp) claims

  abbrev pub user_entries : Text → Text → UserPermissions → KeyPair → ℤ → List (Text × Value)
  user_entries user_nkey name perms account iat =
      (codes "iat", of_i64 iat)
      ∷ (codes "iss", string (public_key account))
      ∷ (codes "sub", string user_nkey)
      ∷ (codes "aud", string (codes "$G"))
      ∷ (codes "name", string name)
      ∷ (codes "nats", user_nats perms)
      ∷ []

  unfoldable pub user_claims : Text → Text → UserPermissions → KeyPair → ℤ → Option ℤ → Value
  unfolding object_of with_field strings of_i64
  user_claims user_nkey name perms account iat exp =
      with_exp exp (object_of (user_entries user_nkey name perms account iat))

  unfoldable pub build_user_jwt :
      Text → Text → UserPermissions → KeyPair → ℤ → Option ℤ → Result Text Text
  unfolding user_claims encode_and_sign
  build_user_jwt user_nkey name perms account iat exp =
      encode_and_sign (user_claims user_nkey name perms account iat exp) account

  abbrev pub response_nats : Result Text Text → Value
  response_nats (ok user_jwt) = object_of (
      (codes "jwt", string user_jwt)
      ∷ (codes "type", string (codes "authorization_response"))
      ∷ (codes "version", pos_int 2)
      ∷ [])
  response_nats (err reason) = object_of (
      (codes "error", string reason)
      ∷ (codes "type", string (codes "authorization_response"))
      ∷ (codes "version", pos_int 2)
      ∷ [])

  abbrev pub response_entries : Text → Text → KeyPair → Result Text Text → ℤ → List (Text × Value)
  response_entries user_nkey server_id account result iat =
      (codes "iat", of_i64 iat)
      ∷ (codes "iss", string (public_key account))
      ∷ (codes "sub", string user_nkey)
      ∷ (codes "aud", string server_id)
      ∷ (codes "nats", response_nats result)
      ∷ []

  unfoldable pub response_claims : Text → Text → KeyPair → Result Text Text → ℤ → Value
  unfolding object_of of_i64
  response_claims user_nkey server_id account result iat =
      object_of (response_entries user_nkey server_id account result iat)

  unfoldable pub build_response : Text → Text → KeyPair → Result Text Text → ℤ → Result Text Text
  unfolding response_claims encode_and_sign
  build_response user_nkey server_id account result iat =
      encode_and_sign (response_claims user_nkey server_id account result iat) account

  abbrev pub name_of : Admission → Text
  name_of (verified sub exp) = codes "urn:ckp:participant:" ++ sub
  name_of anonymous = codes "urn:ckp:participant:anon"

  abbrev pub exp_of : Admission → Option ℤ
  exp_of (verified sub exp) = some exp
  exp_of anonymous = none

  abbrev pub is_anonymous : Admission → Bool
  is_anonymous (verified sub exp) = false
  is_anonymous anonymous = true

  -- The answer to an admission: a refusal under `pgck.admit_anonymous=false`, else a user JWT.
  unfoldable pub decision : Text → Admission → KeyPair → ℤ → Bool → List Text → Result Text Text
  unfolding permissions_for build_user_jwt
  decision user_nkey admission account now admit_anonymous kernels =
      if not admit_anonymous && is_anonymous admission
      then err (codes "unverified connection refused (pgck.admit_anonymous=false)")
      else build_user_jwt user_nkey (name_of admission) (permissions_for admission kernels) account
          now (exp_of admission)

  abbrev pub respond : Text → Text → KeyPair → Result Text Text → ℤ → Text
  respond user_nkey server_id account result now =
      unwrap_or_default (build_response user_nkey server_id account result now)
