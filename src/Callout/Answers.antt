-- ===== src/Callout/Answers.antt =====
-- The answers of `handle_request` in src/auth_callout.rs, for each kind of request.
use pg_ck.Prelude.{
  ◌≡◌, refl, Bool, true, false, not, ◌&&◌, ◌⊎◌, inl, inr, List, [], Option, none, some, arith,
}
use pg_ck.Prelude.Int.{ℤ}
use pg_ck.Prelude.Result.{ok, err}
use pg_ck.Text.{Text, codes}
use pg_ck.Jwt.Admits.{verified-InI64}
use pg_ck.Libraries.{Codec, CodecLaws, Ed25519, Nkeys, Digests}
use pg_ck.Jwt.{Admission, verified, anonymous, AuthConfig, callout_identity}
use pg_ck.Callout.{handle_request}
use pg_ck.Callout.Request.{AuthRequest, parse_auth_request}
use pg_ck.Callout.Mint.{decision, is_anonymous}
use pg_ck.Callout.Claims.{
  Signs, IsTimed, IsUserJwt, build_user_jwt-IsUserJwt, IsResponse, respond-IsResponse,
}

module _ (codec : Codec) (laws : CodecLaws codec) (ed : Ed25519) (nkeys : Nkeys) (digests : Digests)
    (request : Text) (cfg : Option (AuthConfig codec ed)) (account : nkeys.KeyPair) (now : ℤ)
    (admit_anonymous : Bool) (kernels : List Text)
    (signs : Signs codec laws nkeys digests account) where
  callout_identity-IsTimed :
      (token : Option Text) (adm : Admission)
      → callout_identity codec ed token cfg now ≡ adm
      → IsTimed codec laws nkeys digests adm
  callout_identity-IsTimed token (verified sub exp) h =
      verified-InI64 codec ed token cfg now sub exp h
  callout_identity-IsTimed token anonymous h = tt

  abbrev answer : Text
  answer = handle_request codec ed nkeys digests request cfg account now admit_anonymous kernels

  -- A payload that is no authorization request is answered with the error `malformed request` and no
  -- user JWT, to the empty user and server, for an account key that signs.
  pub malformed_answer :
      parse_auth_request codec request ≡ none
      → IsResponse codec laws nkeys digests answer [] [] account (err (codes "malformed request"))
  unfolding handle_request
  malformed_answer h = rw h (respond-IsResponse codec laws nkeys digests [] [] account _ now signs)

  -- Under `pgck.admit_anonymous=false`, a connection that is not verified is answered, as the user and
  -- by the server of its request, with the refusal as an error and with no user JWT, for an account key
  -- that signs.
  pub strict_answer :
      (req : AuthRequest)
      → parse_auth_request codec request ≡ some req
      → admit_anonymous ≡ false
      → callout_identity codec ed req.auth_token cfg now ≡ anonymous
      → IsResponse codec laws nkeys digests answer req.user_nkey req.server_id account
          (err (codes "unverified connection refused (pgck.admit_anonymous=false)"))
  unfolding handle_request decision
  strict_answer req h strict unverified =
      rw (h, strict, unverified)
        (respond-IsResponse codec laws nkeys digests req.user_nkey req.server_id account _ now
          signs)

  -- A connection that is verified, or that is anonymous where that is allowed, is answered with a user
  -- JWT and no error, for an account key that signs. Decoded again, both are for the user key of the
  -- request and issued by the account, and the user JWT has the name of the admission, expires with the
  -- token of a verified connection and never otherwise, and lists the permissions of the admission:
  -- those to subscribe to, and those to publish, or a denial of every subject where there are none.
  pub admitted_answer :
      (req : AuthRequest)
      → parse_auth_request codec request ≡ some req
      → (admit_anonymous ≡ true)
        ⊎ ((sub : Text) × (exp : ℤ) × (callout_identity codec ed req.auth_token cfg now
              ≡ verified sub exp))
      → (user_jwt : Text) × IsResponse codec laws nkeys digests answer req.user_nkey req.server_id
          account
          (ok user_jwt)
        × IsUserJwt codec laws nkeys digests user_jwt req.user_nkey account
            (callout_identity codec ed req.auth_token cfg now)
            kernels
  unfolding handle_request decision
  admitted_answer req h allowed =
      let adm = callout_identity codec ed req.auth_token cfg now in
      let timed : IsTimed codec laws nkeys digests adm =
        callout_identity-IsTimed req.auth_token adm refl in
      let (user_jwt, same, user) =
        build_user_jwt-IsUserJwt codec laws nkeys digests req.user_nkey adm account now kernels
          signs timed in
      let granted : (not admit_anonymous && is_anonymous codec nkeys digests adm) ≡ false =
        elim allowed [ inl e ↦ rw e refl | inr (_, _, e) ↦ rw e (ground arith) ] in
      (
        user_jwt,
        rw (h, granted, same)
            (respond-IsResponse codec laws nkeys digests req.user_nkey req.server_id account
              (ok user_jwt) now signs),
        user,
      )
