-- ===== src/Identity.antt =====
-- From the token to the governed write: admission (src/jwt_verify.rs), grants (src/auth_callout.rs) under
-- the cached policy (src/lib.rs), routing (src/nats_client.rs) and dispatch (src/inbound_dispatch.rs).
use pg_ck.Prelude.{◌≡◌, refl, true, List, [], ◌∷◌, Option, some}
use pg_ck.Prelude.Int.{ℤ}
use pg_ck.Prelude.Result.{ok}
use pg_ck.Text.{Text}
use pg_ck.Text.Utf8.{Bytes}
use pg_ck.Libraries.{Codec, Ed25519}
use pg_ck.Jwt.{Admission, verified, anonymous, AuthConfig, callout_identity}
use pg_ck.Jwt.Admits.{IsAdmitted, callout_identity_iff}
use pg_ck.Policy
use pg_ck.Policy.{callout_policy}
use pg_ck.Policy.Roster.{Has, Update, run, run-All_names}
use pg_ck.Callout.Grants.{subject_token, permissions_for}
use pg_ck.Callout.Scope.{permitted, anonymous_scope_iff}
use pg_ck.Inbound.{InboundAction, Spi, SpiLaws, relay_message, transaction}
use pg_ck.Inbound.Dispatch.{IsFresh, IsDispatched, verified_dispatches_as_itself}

-- The kernels that the responder grants on after these updates of the caches.
abbrev pub granted_kernels : List Update → List Text
granted_kernels updates = (callout_policy (run Policy.initial updates)).1

-- The connection presented a token that proves an identity, and the dispatch ran as the token of that
-- identity, on a granted kernel.
pub record IsAccountable (codec : Codec) (ed : Ed25519) (spi : Spi) (laws : SpiLaws spi)
    (token : Option Text) (cfg : Option (AuthConfig codec ed)) (now : ℤ) (kernels : List Text)
    (a : InboundAction) (payload : Bytes) (out : Option Text) : Type 0 where
  pub sub : Text
  pub exp : ℤ
  pub admitted : IsAdmitted codec ed token cfg now sub exp
  pub kernel : Has a.kernel kernels
  pub dispatched :
      IsDispatched spi laws (some (subject_token sub)) (some a.kernel) a.verb payload out

IsAccountable-as :
    (codec : Codec) (ed : Ed25519) (spi : Spi) (laws : SpiLaws spi) (updates : List Update)
    (token : Option Text) (cfg : Option (AuthConfig codec ed)) (now : ℤ) (adm : Admission)
    (subject : Text) (payload : Bytes) (headers : Option (Text → Option Text)) (a : InboundAction)
    (s : spi.State) (out : Option Text)
    → callout_identity codec ed token cfg now ≡ adm
    → permitted (permissions_for adm (granted_kernels updates)).pub_allow subject ≡ true
    → relay_message subject payload headers [] ≡ a ∷ []
    → IsFresh spi laws s
    → transaction spi a s ≡ ok out
    → IsAccountable codec ed spi laws token cfg now (granted_kernels updates) a payload out
IsAccountable-as codec ed spi laws updates token cfg now anonymous subject payload headers a s out
      admission allowed relayed fresh done =
    absurd (
      cc (
        allowed,
        (anonymous_scope_iff (granted_kernels updates) subject (run-All_names updates)).0,
      ))
IsAccountable-as codec ed spi laws updates token cfg now (verified sub exp) subject payload headers
      a s out admission allowed relayed fresh done =
    let (kernel, dispatched) =
      verified_dispatches_as_itself spi laws sub exp (granted_kernels updates) subject payload
        headers a s out (run-All_names updates) allowed relayed fresh done in
    record {
      sub = sub;
      exp = exp;
      admitted = (callout_identity_iff codec ed token cfg now sub exp).0 admission;
      kernel = kernel;
      dispatched = dispatched;
    }

-- Whatever a connection is admitted as, and whatever the settings and the ledger made the policy: if its
-- permissions allow a subject, the relay queues the message, and the worker runs that action in a fresh
-- transaction of a database that reads settings back, then the connection presented a token that a
-- listed key vouches for with every claim in order, and the dispatch saw the token of that very `sub` as
-- `ckp.requester`, a kernel of the policy as `ckp.project`, and the message's payload.
pub dispatch-IsAccountable :
    (codec : Codec) (ed : Ed25519) (spi : Spi) (laws : SpiLaws spi) (updates : List Update)
    (token : Option Text) (cfg : Option (AuthConfig codec ed)) (now : ℤ) (subject : Text)
    (payload : Bytes) (headers : Option (Text → Option Text)) (a : InboundAction) (s : spi.State)
    (out : Option Text)
    → permitted
        (permissions_for
          (callout_identity codec ed token cfg now)
          (granted_kernels updates)).pub_allow
        subject
      ≡ true
    → relay_message subject payload headers [] ≡ a ∷ []
    → IsFresh spi laws s
    → transaction spi a s ≡ ok out
    → IsAccountable codec ed spi laws token cfg now (granted_kernels updates) a payload out
dispatch-IsAccountable codec ed spi laws updates token cfg now subject payload headers a s out =
    IsAccountable-as codec ed spi laws updates token cfg now
      (callout_identity codec ed token cfg now) subject payload headers a s out refl
