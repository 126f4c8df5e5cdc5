-- ===== src/Inbound.antt =====
-- src/inbound_dispatch.rs and the relay's loop in src/nats_client.rs: routed actions are queued by the
-- relay and dispatched by the worker, each in a transaction of its own.
pub mod Queue
pub mod Dispatch
use mathlib.Core.Option
use pg_ck.Prelude.{
  ℕ, ◌+◌, ◌≡◌, ◌≢◌, Bool, true, false, List, [], ◌∷◌, ◌++◌, Option, none, some, if◌then◌else◌, ltb,
  length, map, ◌==◌,
}
use pg_ck.Prelude.Result.{Result, ok, err, ◌>>=◌}
use pg_ck.Text.{Text, codes, is_nil}
use pg_ck.Text.Utf8.{Bytes, decode_lossy}
use pg_ck.Text.Utf8
use pg_ck.Relay.{RoutedInbound, route_inbound, trace_headers}
use pg_ck.Client.{Headers, Client, publish}

pub record InboundAction : Type 0 where
  pub kernel : Text
  pub verb : Text
  pub payload : Bytes
  pub result_subject : Text
  pub headers : Headers
  pub identity : Option Text

abbrev pub max_queue : ℕ
max_queue = 1000

unfoldable pub enqueue : InboundAction → List InboundAction → List InboundAction
enqueue action q = if ltb (length q) max_queue then q ++ action ∷ [] else q

-- What is taken, and the queue that is left.
unfoldable pub take_all : List InboundAction → List InboundAction × List InboundAction
take_all q = (q, [])

abbrev pub headers_of : Option (Text → Option Text) → Headers
headers_of none = []
headers_of (some get) = trace_headers get

abbrev pub action_for : RoutedInbound → Bytes → Option (Text → Option Text) → InboundAction
action_for routed payload headers = record {
  kernel = routed.kernel;
  verb = routed.verb;
  payload = payload;
  result_subject = routed.result_subject;
  headers = headers_of headers;
  identity = routed.identity;
}

abbrev enqueue_routed :
    Option RoutedInbound
    → Bytes
    → Option (Text → Option Text)
    → List InboundAction
    → List InboundAction
enqueue_routed none payload headers q = q
enqueue_routed (some routed) payload headers q = enqueue (action_for routed payload headers) q

-- One round of the relay's loop, on a message's subject, payload and headers.
unfoldable pub relay_message :
    Text → Bytes → Option (Text → Option Text) → List InboundAction → List InboundAction
unfolding route_inbound trace_headers enqueue
relay_message subject payload headers q = enqueue_routed (route_inbound subject) payload headers q

-- PostgreSQL inside one transaction: `set_config(name, value, true)` and `ckp._dispatch_safe(verb,
-- payload)`, each with the text of its error, and the settings that a transaction sees.
pub record Spi : Type 1 where
  pub State : Type 0
  pub setting : Text → State → Option Text
  pub set_config : Text → Text → State → Result Text State
  pub dispatch_safe : Text → Text → State → Result Text (Option Text)

-- A setting is read back, and the others stay.
pub record SpiLaws (spi : Spi) : Type 0 where
  pub read_back :
      (name v : Text) {s t : spi.State}
      → spi.set_config name v s ≡ ok t
      → spi.setting name t ≡ some v
  pub others :
      (name other v : Text) {s t : spi.State}
      → name ≢ other
      → spi.set_config name v s ≡ ok t
      → spi.setting other t ≡ spi.setting other s

abbrev pub quote_to_apostrophe : ℕ → ℕ
quote_to_apostrophe c = if c == b'"' then 39 else c

-- The typed result, or a structured error that the caller can still correlate.
abbrev pub reply_text : Result Text (Option Text) → Text
reply_text (ok (some json)) = json
reply_text (ok none) = codes "{\"ok\":false,\"error\":\"dispatch returned null\"}"
reply_text (err e) =
    codes "{\"ok\":false,\"error\":\"dispatch failed: "
    ++ (map quote_to_apostrophe e ++ codes "\"}")

module _ (spi : Spi) where
  open spi use {State, set_config, dispatch_safe}

  abbrev pub set_requester : Option Text → State → Result Text State
  set_requester none s = ok s
  set_requester (some sub) s = set_config (codes "ckp.requester") sub s

  abbrev pub set_project : Text → State → Result Text State
  set_project kernel s = if is_nil kernel then ok s else set_config (codes "ckp.project") kernel s

  -- The transaction of one action, from the state in which it begins.
  unfoldable pub transaction : InboundAction → State → Result Text (Option Text)
  unfolding decode_lossy
  transaction action s = do
    requested ← set_requester action.identity s
    scoped ← set_project action.kernel requested
    dispatch_safe action.verb (decode_lossy action.payload) scoped

  unfoldable pub dispatch_one : InboundAction → State → Text
  unfolding transaction
  dispatch_one action s = reply_text (transaction action s)

  abbrev pub or_keep : Client → Result Text Client → Client
  or_keep c (ok d) = d
  or_keep c (err _) = c

  -- The loop over the taken actions; `begin n` is the state in which the `n`-th transaction begins.
  unfoldable pub dispatch_all : List InboundAction → (ℕ → State) → ℕ → Client → Client
  unfolding dispatch_one publish
  dispatch_all [] begin n c = c
  dispatch_all (a ∷ actions) begin n c =
      dispatch_all actions begin (n + 1)
        (or_keep c (publish a.result_subject (Utf8.encode (dispatch_one a (begin n))) a.headers c))

  unfoldable pub drain_and_dispatch :
      List InboundAction → (ℕ → State) → Client → List InboundAction × Client
  unfolding dispatch_all take_all
  drain_and_dispatch q begin c =
      let (actions, left) = take_all q in (left, dispatch_all actions begin 0 c)
