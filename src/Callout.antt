-- ===== src/Callout.antt =====
-- src/auth_callout.rs: the responder that decides on each connection to the broker, `handle_request`.
pub mod Grants
pub mod Request
pub mod Mint
pub mod Token
pub mod Patterns
pub mod Scope
pub mod Plain
pub mod Claims
pub mod Answers
use pg_ck.Prelude.{Bool, List, [], Option, none, some}
use pg_ck.Prelude.Int.{ℤ}
use pg_ck.Prelude.Result.{err}
use pg_ck.Text.{Text, codes}
use pg_ck.Libraries.{Codec, Ed25519, Nkeys, Digests}
use pg_ck.Jwt.{AuthConfig, callout_identity}
use pg_ck.Callout.Request.{AuthRequest, parse_auth_request}
use pg_ck.Callout.Mint.{respond, decision, build_response}

module _ (codec : Codec) (ed : Ed25519) (nkeys : Nkeys) (digests : Digests) where
  open nkeys use {KeyPair}

  abbrev pub handle_parsed :
      Option AuthRequest → Option (AuthConfig codec ed) → KeyPair → ℤ → Bool → List Text → Text
  handle_parsed none cfg account now admit_anonymous kernels =
      respond codec nkeys digests [] [] account (err (codes "malformed request")) now
  handle_parsed (some req) cfg account now admit_anonymous kernels =
      let admission = callout_identity codec ed req.auth_token cfg now in
      respond codec nkeys digests req.user_nkey req.server_id account
        (decision codec nkeys digests req.user_nkey admission account now admit_anonymous kernels)
        now

  unfoldable pub handle_request :
      Text → Option (AuthConfig codec ed) → KeyPair → ℤ → Bool → List Text → Text
  unfolding parse_auth_request decision build_response
  handle_request request_jwt cfg account now admit_anonymous kernels =
      handle_parsed (parse_auth_request codec request_jwt) cfg account now admit_anonymous kernels
