-- ===== src/Tests/Sessions.antt =====
-- Sessions of the embedded server, and its listener over a concrete channel.
use pg_ck.Prelude.{
  inr, ℕ, zero, suc, ◌+◌, ◌≡◌, ◌∙◌, refl, ap, List, [], ◌∷◌, ◌++◌, Option, none, some, length, ltb,
  lt→ltb, if◌then◌else◌, All, map, arith,
}
use pg_ck.Prelude.Result.{ok, err}
use pg_ck.Text.Utf8.{Bytes}
use pg_ck.Text.{Text, codes}
use pg_ck.Nats.Parser.{ClientMsg, sub}
use pg_ck.Nats.Parser.Render.{control_line}
use pg_ck.Nats.Server.{
  invalid_line, read_client_message, Connection, Delivery, opened, handle_client, on_message,
  on_delivery,
}
use pg_ck.Nats.Server.Framing.{IsLine}
use pg_ck.Nats.Server.Session.{Session, Input, says, hears, begun, Run, IsReady, stream, event}
use pg_ck.Nats.Server.Session.Refines.{Refines, handle_client-Refines}
use pg_ck.Nats.Hub.{
  Received, value, dropped, pending, Broadcast, BroadcastLaws, at, HubEvent, accepted, reads,
  receives, serve, hub_step, run,
}
use pg_ck.Nats.Hub.Order.{at_same, at_other}
use pg_ck.Nats.Hub.Broker.{IsBroker, run-IsBroker}
use pg_ck.Nats.Hub.Endings.{HasEnded, run-HasEnded}
use pg_ck.Nats.Hub.Integrity.{IsLegible, run-IsLegible}
use pg_ck.Tests.Traffic.{message, one-IsLine, plain-IsLine}

abbrev subscription : ClientMsg
subscription = sub (codes "a.*") none (codes "1")

abbrev delivery : Delivery
delivery = record { subject = codes "a.b"; reply = none; payload = codes "hi" }

abbrev inputs : List Input
inputs = says subscription ∷ hears delivery ∷ says message ∷ []

sub-IsLine : IsLine (control_line subscription)
unfolding control_line pg_ck.Text.join
sub-IsLine = plain-IsLine (codes "SUB a.* 1") refl

ready : All IsReady inputs
unfolding pg_ck.Text.is_whitespace
ready = (
  (((refl, (refl, (refl, (refl, tt)))), tt, (refl, (refl, tt))), sub-IsLine, tt),
  (
    tt,
    ((((refl, (refl, (refl, (refl, tt)))), tt, omega arith), one-IsLine, (refl, omega arith)), tt),
  ),
)

handle_client-Refines_example :
    (c : Connection) × (s : Session) × (handle_client
        (map event inputs)
        (opened (stream inputs (codes "PING")))
      ≡ ok (some c))
    × Run begun inputs s
    × Refines c s (codes "PING")
handle_client-Refines_example = handle_client-Refines inputs (codes "PING") ready

-- A channel that keeps for each receiver what waits for it.
abbrev Waiting : Type 0
Waiting = Option (ℕ × List Delivery)

record Channel : Type 0 where
  capacity : ℕ
  view : ℕ → Waiting

abbrev shift : Delivery → ℕ → List Delivery → Waiting
shift d k [] = some (k, [])
shift d k (oldest ∷ ds) = some (k + 1, ds ++ d ∷ [])

abbrev push : ℕ → Delivery → Waiting → Waiting
push size d none = none
push size d (some (k, ds)) = if ltb (length ds) size then some (k, ds ++ d ∷ []) else shift d k ds

abbrev pull : Waiting → Received × Waiting
pull none = (pending, none)
pull (some (zero, [])) = (pending, some (0, []))
pull (some (zero, d ∷ ds)) = (value d, some (0, ds))
pull (some (suc k, ds)) = (dropped (suc k), some (0, ds))

abbrev broadcast : Broadcast
broadcast = record {
  Channel = Channel;
  channel = λ size. record { capacity = size; view = λ n. none };
  subscribe = λ n ch. record ch { view = at n (some (0, [])) ch.view };
  unsubscribe = λ n ch. record ch { view = at n none ch.view };
  send = λ d ch. record ch { view = λ n. push ch.capacity d (ch.view n) };
  recv = λ n ch. ((pull (ch.view n)).0, record ch { view = at n (pull (ch.view n)).1 ch.view });
}

pulled :
    (n : ℕ) (ch : Channel) {before after : Waiting} {got : Received}
    → ch.view n ≡ before
    → pull before ≡ (got, after)
    → ((broadcast.recv n ch).0 ≡ got) × ((broadcast.recv n ch).1.view n ≡ after)
pulled n ch before result =
    let same = ap pull before ∙ result in
    (
      ap (λ (p : Received × Waiting). p.0) same,
      at_same n _ ch.view ∙ ap (λ (p : Received × Waiting). p.1) same,
    )

broadcast_laws : BroadcastLaws broadcast
broadcast_laws = record {
  capacity = λ ch. ch.capacity;
  view = λ n ch. ch.view n;
  channel_capacity = λ size. omega arith;
  subscribe_capacity = λ n ch. refl;
  unsubscribe_capacity = λ n ch. refl;
  send_capacity = λ d ch. refl;
  recv_capacity = λ n ch. refl;
  subscribed = λ n ch. at_same n _ ch.view;
  subscribe_others = λ n m ch h. at_other n m _ ch.view h;
  unsubscribe_others = λ n m ch h. at_other n m _ ch.view h;
  send_room = λ d n ch k ds h room. ap (push ch.capacity d) h ∙ rw (lt→ltb _ _ room) refl;
  send_full = λ d oldest n ch k ds h behind. ap (push ch.capacity d) h ∙ ground arith;
  recv_pending = λ n ch h. pulled n ch h refl;
  recv_value = λ d n ch ds h. pulled n ch h refl;
  recv_dropped = λ n ch k ds h. pulled n ch h refl;
  recv_others = λ n m ch h. at_other n m _ ch.view h;
}

abbrev happenings : List HubEvent
happenings =
    accepted (stream (says message ∷ []) [])
    ∷ accepted []
    ∷ reads 0
    ∷ receives 1 0
    ∷ receives 1 0
    ∷ []

run-IsBroker_example :
    IsBroker broadcast broadcast_laws (run broadcast happenings (serve broadcast))
run-IsBroker_example = run-IsBroker broadcast broadcast_laws happenings

abbrev exchange : List HubEvent
exchange =
    accepted (stream (says subscription ∷ []) [])
    ∷ accepted (stream (says message ∷ []) [])
    ∷ reads 0
    ∷ reads 1
    ∷ receives 0 0
    ∷ []

abbrev subscriber : Connection
subscriber =
    on_delivery (on_message (opened (stream (says subscription ∷ []) [])) subscription []) delivery

subscriber_running : (run broadcast exchange (serve broadcast)).clients 0 ≡ some subscriber
unfolding run serve pg_ck.Text.Utf8.encode control_line pg_ck.Text.join pg_ck.Text.Utf8.decode
    pg_ck.Nats.Parser.parse_line pg_ck.Text.split_whitespace pg_ck.Text.text_eq
    pg_ck.Text.to_ascii_uppercase pg_ck.Text.Decimal.parse_u64 pg_ck.BTreeMap.insert
    pg_ck.Nats.Router.matches pg_ck.Text.split
subscriber_running = refl

run-IsLegible_example : IsLegible subscriber ((run broadcast exchange (serve broadcast)).handed 0)
run-IsLegible_example =
    run-IsLegible broadcast broadcast_laws exchange 0 subscriber subscriber_running

abbrev rude : Bytes
rude = codes "HELLO" ++ 13 ∷ 10 ∷ []

abbrev intrusion : List HubEvent
intrusion = accepted rude ∷ accepted (stream (says message ∷ []) []) ∷ reads 1 ∷ []

rude_running : (run broadcast intrusion (serve broadcast)).clients 0 ≡ some (opened rude)
unfolding run serve pg_ck.Text.Utf8.encode control_line pg_ck.Text.join pg_ck.Text.Utf8.decode
    pg_ck.Nats.Parser.parse_line pg_ck.Text.split_whitespace pg_ck.Text.text_eq
    pg_ck.Text.to_ascii_uppercase pg_ck.Text.Decimal.parse_u64
rude_running = refl

rude_fails : read_client_message rude ≡ err invalid_line
unfolding read_client_message pg_ck.Text.Utf8.decode pg_ck.Nats.Parser.parse_line
    pg_ck.Text.split_whitespace pg_ck.Text.text_eq pg_ck.Text.to_ascii_uppercase
rude_fails = refl

run-HasEnded_example :
    HasEnded broadcast broadcast_laws 0
      (run broadcast intrusion (serve broadcast))
      (hub_step broadcast (reads 0) (run broadcast intrusion (serve broadcast)))
unfolding opened
run-HasEnded_example =
    run-HasEnded broadcast broadcast_laws intrusion 0 (opened rude) rude_running
      (inr (invalid_line, rude_fails))
