-- ===== src/Threads/Served.antt =====
-- What the responder's loop publishes for the requests it is handed.
use pg_ck.Prelude.Int.{ℤ, pos, i64_max, wrap_i64_of_InI64}
use pg_ck.Prelude.{
  ℕ, ◌≤◌, arith, ◌≡◌, ◌≢◌, ◌⊎◌, refl, sym, subst, inl, inr, Bool, true, false, List, [], ◌∷◌,
  Option, none, some, Option-cases, Bool-cases,
}
use pg_ck.Prelude.Result.{ok, err}
use pg_ck.Text.{Text, codes}
use pg_ck.Text.Utf8
use pg_ck.Text.Utf8.{Bytes, decode}
use pg_ck.Libraries.{Codec, CodecLaws, Ed25519, Nkeys, Digests}
use pg_ck.Jwt.{Admission, verified, anonymous, callout_identity}
use pg_ck.Policy.{callout_policy}
use pg_ck.Callout.Request.{AuthRequest, parse_auth_request}
use pg_ck.Callout.Claims.{Signs, IsResponse, IsUserJwt}
use pg_ck.Callout.Answers.{malformed_answer, strict_answer, admitted_answer}
use pg_ck.Threads.{
  Request, CalloutContext, unix_now, response_to, respond_to, and_then, callout_loop,
  callout_subject, run_callout,
}

module _ (codec : Codec) (laws : CodecLaws codec) (ed : Ed25519) (nkeys : Nkeys) (digests : Digests)
    (ctx : CalloutContext codec ed nkeys digests) where
  -- The time in seconds that a clock tells: 0 before 1970; nothing is said of 2 ^ 63 seconds and more.
  abbrev pub IsTime : Option ℕ → ℤ → Type 0
  IsTime none now = now ≡ pos 0
  IsTime (some secs) now = secs ≤ i64_max → now ≡ pos secs

  -- The decision that a request's token meets.
  abbrev pub admission_of : ℤ → AuthRequest → Admission
  admission_of now req = callout_identity codec ed req.auth_token ctx.auth now

  -- What the text published in answer to an authorization request says.
  pub data Decided (request : Request) (request_jwt answer : Text) : Type 0 where
    malformed :
        parse_auth_request codec request_jwt ≡ none
        → IsResponse codec laws nkeys digests answer [] [] ctx.account
            (err (codes "malformed request"))
        → Decided request request_jwt answer
    refused :
        (req : AuthRequest) (now : ℤ)
        → parse_auth_request codec request_jwt ≡ some req
        → IsTime request.clock now
        → (callout_policy request.caches).0 ≡ false
        → admission_of now req ≡ anonymous
        → IsResponse codec laws nkeys digests answer req.user_nkey req.server_id ctx.account
            (err (codes "unverified connection refused (pgck.admit_anonymous=false)"))
        → Decided request request_jwt answer
    admitted :
        (req : AuthRequest) (now : ℤ) (user_jwt : Text)
        → parse_auth_request codec request_jwt ≡ some req
        → IsTime request.clock now
        → ((callout_policy request.caches).0 ≡ true) ⊎ (admission_of now req ≢ anonymous)
        → IsResponse codec laws nkeys digests answer req.user_nkey req.server_id ctx.account
            (ok user_jwt)
        → IsUserJwt codec laws nkeys digests user_jwt req.user_nkey ctx.account
            (admission_of now req)
            (callout_policy request.caches).1
        → Decided request request_jwt answer

  unix_now-IsTime : (clock : Option ℕ) → IsTime clock (unix_now clock)
  unfolding unix_now
  unix_now-IsTime none = refl
  unix_now-IsTime (some secs) = λ h. wrap_i64_of_InI64 (pos secs) (h, omega arith)

  -- The requests, and what is published for them in turn.
  pub data Served : List Request → List (Text × Bytes) → Type 0 where
    nothing : Served [] []
    ignored :
        {request : Request} {requests : List Request} {published : List (Text × Bytes)}
        → (request.message.reply ≡ none) ⊎ (decode request.message.payload ≡ none)
        → Served requests published
        → Served (request ∷ requests) published
    answered :
        {request : Request} {requests : List Request} {published : List (Text × Bytes)}
        (reply request_jwt answer : Text)
        → request.message.reply ≡ some reply
        → decode request.message.payload ≡ some request_jwt
        → Decided request request_jwt answer
        → Served requests published
        → Served (request ∷ requests) ((reply, Utf8.encode answer) ∷ published)

  module _ (signs : Signs codec laws nkeys digests ctx.account) where
    Decided-for :
        (request : Request) (request_jwt : Text) (req : AuthRequest) (adm : Admission)
        → parse_auth_request codec request_jwt ≡ some req
        → admission_of (unix_now request.clock) req ≡ adm
        → ((callout_policy request.caches).0 ≡ true) ⊎ ((callout_policy request.caches).0 ≡ false)
        → Decided request request_jwt (response_to codec ed nkeys digests ctx request request_jwt)
    Decided-for request request_jwt req anonymous parsed decision (inr strict) =
        refused req (unix_now request.clock) parsed (unix_now-IsTime request.clock) strict decision
          (strict_answer codec laws ed nkeys digests request_jwt ctx.auth ctx.account
            (unix_now request.clock) (callout_policy request.caches).0
            (callout_policy request.caches).1 signs req parsed strict decision)
    Decided-for request request_jwt req adm parsed decision (inl open_door) =
        let (user_jwt, response, user) =
          admitted_answer codec laws ed nkeys digests request_jwt ctx.auth ctx.account
            (unix_now request.clock) (callout_policy request.caches).0
            (callout_policy request.caches).1 signs req parsed (inl open_door) in
        admitted req (unix_now request.clock) user_jwt parsed (unix_now-IsTime request.clock)
          (inl open_door) response user
    Decided-for request request_jwt req (verified sub exp) parsed decision (inr strict) =
        let (user_jwt, response, user) =
          admitted_answer codec laws ed nkeys digests request_jwt ctx.auth ctx.account
            (unix_now request.clock) (callout_policy request.caches).0
            (callout_policy request.caches).1 signs req parsed (inr (sub, exp, decision)) in
        admitted req (unix_now request.clock) user_jwt parsed (unix_now-IsTime request.clock)
          (inr (λ unverified. absurd (cc (decision, unverified)))) response user

    response_to-Decided :
        (request : Request) (request_jwt : Text)
        → Decided request request_jwt (response_to codec ed nkeys digests ctx request request_jwt)
    response_to-Decided request request_jwt =
        elim (Option-cases (parse_auth_request codec request_jwt)) [
          | inl unreadable ↦ malformed unreadable (
              malformed_answer codec laws ed nkeys digests request_jwt ctx.auth ctx.account
                (unix_now request.clock) (callout_policy request.caches).0
                (callout_policy request.caches).1 signs unreadable)
          | inr (req, parsed) ↦
              Decided-for request request_jwt req (admission_of (unix_now request.clock) req) parsed
                refl (Bool-cases (callout_policy request.caches).0)
        ]

    respond_none :
        (request : Request)
        → request.message.reply ≡ none
        → respond_to codec ed nkeys digests ctx request ≡ none
    unfolding respond_to
    respond_none request none_given = rw none_given refl

    respond_garbled :
        (request : Request) (reply : Text)
        → request.message.reply ≡ some reply
        → decode request.message.payload ≡ none
        → respond_to codec ed nkeys digests ctx request ≡ none
    unfolding respond_to
    respond_garbled request reply given garbled = rw (given, garbled) refl

    respond_answers :
        (request : Request) (reply request_jwt : Text)
        → request.message.reply ≡ some reply
        → decode request.message.payload ≡ some request_jwt
        → respond_to codec ed nkeys digests ctx request
          ≡ some (reply, Utf8.encode (response_to codec ed nkeys digests ctx request request_jwt))
    unfolding respond_to
    respond_answers request reply request_jwt given text = rw (given, text) refl

    Served-by :
        (request : Request) (requests : List Request) (published : List (Text × Bytes))
        {outcome : Option (Text × Bytes)}
        → respond_to codec ed nkeys digests ctx request ≡ outcome
        → Served (request ∷ requests) (and_then outcome published)
        → Served
            (request ∷ requests)
            (and_then (respond_to codec ed nkeys digests ctx request) published)
    Served-by request requests published same served =
        subst (λ (o : Option (Text × Bytes)). Served (request ∷ requests) (and_then o published))
          (sym same) served

    callout_loop-Served :
        (requests : List Request)
        → Served requests (callout_loop codec ed nkeys digests ctx requests)
    unfolding callout_loop
    callout_loop-Served [] = nothing
    callout_loop-Served (request ∷ requests) =
        let later = callout_loop-Served requests in
        elim (Option-cases request.message.reply) [
          | inl none_given ↦
              Served-by request requests _ (respond_none request none_given)
                (ignored (inl none_given) later)
          | inr (reply, given) ↦ elim (Option-cases (decode request.message.payload)) [
            | inl garbled ↦
                Served-by request requests _ (respond_garbled request reply given garbled)
                  (ignored (inr garbled) later)
            | inr (request_jwt, text) ↦
                Served-by request requests _ (respond_answers request reply request_jwt given text)
                  (answered reply request_jwt _ given text (response_to-Decided request request_jwt)
                    later)
          ]
        ]

    -- A responder whose account key signs and whose subscription the broker takes publishes exactly
    -- one answer for every request with a reply subject and a UTF-8 payload, in the order of the
    -- requests, and nothing else. Decoded again, the answer to a payload that is no authorization
    -- request holds an error and no user JWT; under a policy that does not admit anonymous connections
    -- the answer to a connection that is unverified at the time of its clock holds the refusal and no
    -- user JWT; and every other answer holds no error and a user JWT for the request's user, with the
    -- permissions and the expiry of its admission at that time on the kernels of the policy that is
    -- cached then.
    pub run_callout-Served :
        (takes : Text → Bool) (requests : List Request)
        → takes callout_subject ≡ true
        → Served requests (run_callout codec ed nkeys digests takes ctx requests)
    unfolding run_callout
    run_callout-Served takes requests taken = rw taken (callout_loop-Served requests)
