-- ===== src/Threads.antt =====
-- The relay's thread in src/nats_client.rs: its subscriptions, the loop that queues actions, and the
-- loop of the auth-callout responder beside it. The broker is a parameter: whether it takes a
-- subscription, and the messages that the streams yield.
pub mod Served
pub mod Queued
pub mod Replies
use pg_ck.Prelude.{
  ℕ, suc, Bool, true, false, List, [], ◌∷◌, ◌++◌, Option, none, some, if◌then◌else◌, ◌>>=◌,
}
use pg_ck.Prelude.Int.{ℤ, pos, wrap_i64}
use pg_ck.Text.{Text, codes}
use pg_ck.Text.Utf8
use pg_ck.Text.Utf8.{Bytes, decode}
use pg_ck.Libraries.{Codec, Ed25519, Nkeys, Digests}
use pg_ck.Jwt.{AuthConfig}
use pg_ck.Policy.{Caches, callout_policy}
use pg_ck.Callout.{handle_request}
use pg_ck.Relay.{relay_in_subject, relay_id_subject}
use pg_ck.Inbound.{InboundAction, relay_message}

abbrev pub callout_subject : Text
callout_subject = codes "$SYS.REQ.USER.AUTH"

-- A message of the broker, as a subscription yields it.
pub record Message : Type 0 where
  pub subject : Text
  pub payload : Bytes
  pub reply : Option Text
  pub headers : Option (Text → Option Text)

-- A request, with the clock and the caches that it meets. The clock is the seconds since 1970, unless
-- it stands before.
pub record Request : Type 0 where
  pub message : Message
  pub clock : Option ℕ
  pub caches : Caches

-- `duration_since(UNIX_EPOCH).map(|d| d.as_secs() as i64).unwrap_or(0)`
unfoldable pub unix_now : Option ℕ → ℤ
unfolding wrap_i64
unix_now none = pos 0
unix_now (some secs) = wrap_i64 (pos secs)

abbrev and_then : Option (Text × Bytes) → List (Text × Bytes) → List (Text × Bytes)
and_then none published = published
and_then (some answer) published = answer ∷ published

-- `while let Some(msg) = sub.next().await`
unfoldable pub relay_loop : List Message → List InboundAction → List InboundAction
unfolding relay_message
relay_loop [] q = q
relay_loop (m ∷ messages) q = relay_loop messages (relay_message m.subject m.payload m.headers q)

module _ (codec : Codec) (ed : Ed25519) (nkeys : Nkeys) (digests : Digests) where
  pub record CalloutContext : Type 0 where
    pub auth : Option (AuthConfig codec ed)
    pub account : nkeys.KeyPair

  abbrev pub response_to : CalloutContext → Request → Text → Text
  response_to ctx request request_jwt =
      let (admit_anonymous, kernels) = callout_policy request.caches in
      handle_request codec ed nkeys digests request_jwt ctx.auth ctx.account
        (unix_now request.clock) admit_anonymous kernels

  -- One round of the responder's loop: the subject and the payload that it publishes, if any.
  unfoldable pub respond_to : CalloutContext → Request → Option (Text × Bytes)
  unfolding decode callout_policy handle_request unix_now
  respond_to ctx request = do
    reply ← request.message.reply
    request_jwt ← decode request.message.payload
    some (reply, Utf8.encode (response_to ctx request request_jwt))

  unfoldable pub callout_loop : CalloutContext → List Request → List (Text × Bytes)
  unfolding respond_to
  callout_loop ctx [] = []
  callout_loop ctx (request ∷ requests) =
      and_then (respond_to ctx request) (callout_loop ctx requests)

  -- The requests are those that arrive while the relay's thread lives.
  unfoldable pub run_callout : (Text → Bool) → CalloutContext → List Request → List (Text × Bytes)
  unfolding callout_loop
  run_callout takes ctx requests = if takes callout_subject then callout_loop ctx requests else []

  abbrev spawned : (Text → Bool) → Option CalloutContext → List Request → List (Text × Bytes)
  spawned takes none requests = []
  spawned takes (some ctx) requests = run_callout takes ctx requests

  -- The thread from the connection on: what the responder publishes, and the queue of actions after
  -- the messages that the two subscriptions yield.
  unfoldable pub run_relay_thread :
      (Text → Bool)
      → Option CalloutContext
      → List Request
      → List Message
      → List InboundAction
      → List (Text × Bytes) × List InboundAction
  unfolding run_callout relay_loop
  run_relay_thread takes callout requests messages q = (
    spawned takes callout requests,
    if takes relay_in_subject
        then (if takes relay_id_subject then relay_loop messages q else q)
        else q,
  )

-- `RELAY_STARTED`: whether it is set, and how many threads were spawned.
pub record Relays : Type 0 where
  pub started : Bool
  pub threads : ℕ

unfoldable pub init_relay : Relays → Relays
init_relay r = if r.started then r else record { started = true; threads = suc r.threads }
