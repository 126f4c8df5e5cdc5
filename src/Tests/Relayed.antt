-- ===== src/Tests/Relayed.antt =====
-- The relay's thread on concrete requests and messages.
use mathlib.Core.List.{Perm}
use pg_ck.Prelude.{
  if◌then◌else◌, ◌≡◌, ◌≤◌, refl, Bool, true, List, [], ◌∷◌, ◌++◌, none, some, All, take, length,
  arith,
}
use pg_ck.Text.{Text, codes, text_eq}
use pg_ck.Text.Utf8
use pg_ck.Policy
use pg_ck.Relay.{relay_in_subject, relay_id_subject}
use pg_ck.Inbound.{InboundAction, max_queue, drain_and_dispatch}
use pg_ck.Threads.{Message, Request, CalloutContext, run_callout, run_relay_thread, relay_loop}
use pg_ck.Threads.Replies.{Replied, drain_and_dispatch-Replied}
use pg_ck.Threads.Served.{Served, run_callout-Served}
use pg_ck.Threads.Queued.{
  actions_of, heard, Interleaved, both_end, from_left, from_right, run_relay_thread-Perm,
}
use pg_ck.Relay.Subscribed.{IsFilled}
use pg_ck.Client.Sent.{IsBounded}
use pg_ck.Client.{IsRunning, Cmd, Client, run_client_thread}
use pg_ck.Answered.{Answers, published-Answers}
use pg_ck.Tests.Traffic.{fresh, spi_laws, spi, nothing_set, client, running}
use pg_ck.Tests.Toys.{codec, ed, nkeys, digests, codec_laws}
use pg_ck.Tests.Admission.{config, request, signs}

abbrev context : CalloutContext codec ed nkeys digests
context = record { auth = some config; account = codes "A1" }

abbrev takes_all : Text → Bool
takes_all pattern = true

-- A connection's request, and a message that asks for nothing.
abbrev requests : List Request
requests =
    record {
      message = record {
        subject = codes "$SYS.REQ.USER.AUTH";
        payload = Utf8.encode request;
        reply = some (codes "_INBOX.1");
        headers = none;
      };
      clock = some 1000;
      caches = Policy.initial;
    }
    ∷ record {
      message = record {
        subject = codes "$SYS.REQ.USER.AUTH";
        payload = codes "x";
        reply = none;
        headers = none;
      };
      clock = none;
      caches = Policy.initial;
    }
    ∷ []

run_callout-Served_example :
    Served codec codec_laws ed nkeys digests context requests
      (run_callout codec ed nkeys digests takes_all context requests)
run_callout-Served_example =
    run_callout-Served codec codec_laws ed nkeys digests context signs takes_all requests refl

abbrev anonymous_save : Message
anonymous_save = record {
  subject = codes "input.kernel.ck.action.save";
  payload = codes "{}";
  reply = none;
  headers = none;
}

abbrev alice_save : Message
alice_save = record {
  subject = codes "input.kernel.ck.id.al-ice.action.save";
  payload = codes "{}";
  reply = none;
  headers = none;
}

abbrev elsewhere : Message
elsewhere = record { subject = codes "event.ck"; payload = []; reply = none; headers = none }

abbrev published : List Message
published = anonymous_save ∷ elsewhere ∷ alice_save ∷ []

abbrev selected : List Message
selected = alice_save ∷ anonymous_save ∷ []

filled : All (λ (m : Message). IsFilled m.subject) published
unfolding pg_ck.Text.split
filled = ground arith

interleaved :
    Interleaved (heard relay_in_subject published) (heard relay_id_subject published) selected
unfolding pg_ck.Nats.Router.matches pg_ck.Text.split pg_ck.Text.text_eq
interleaved = from_right alice_save (from_left anonymous_save both_end)

run_relay_thread-Perm_example :
    ((run_relay_thread codec ed nkeys digests takes_all (some context) requests selected []).1
      ≡ take max_queue (actions_of selected))
    × Perm (actions_of selected) (actions_of published)
run_relay_thread-Perm_example =
    run_relay_thread-Perm codec ed nkeys digests takes_all (some context) requests published
      selected refl refl filled interleaved

few : length (actions_of selected) ≤ max_queue
unfolding pg_ck.Relay.route_inbound pg_ck.Text.strip_prefix pg_ck.Text.split_once pg_ck.Text.text_eq
few = omega arith

published-Answers_example :
    (actions : List InboundAction) × (answers : List Cmd) × (after : Client) × (drain_and_dispatch
        spi
        (run_relay_thread codec ed nkeys digests takes_all (some context) requests selected []).1
        (λ _. nothing_set)
        client
      ≡ ([], after))
    × (run_client_thread none after.queue ≡ run_client_thread none client.queue ++ answers)
    × Answers spi actions answers
    × Perm actions (actions_of published)
published-Answers_example =
    published-Answers codec ed nkeys digests takes_all (some context) requests spi
      (λ _. nothing_set) none client published selected refl refl filled interleaved few running

abbrev traced : Message
traced = record {
  subject = codes "input.kernel.ck.id.al-ice.action.save";
  payload = codes "{}";
  reply = none;
  headers = some (λ key. if text_eq key (codes "Trace-Id") then some (codes "t1") else none);
}

few_traced : length (actions_of (elsewhere ∷ traced ∷ [])) ≤ max_queue
unfolding pg_ck.Relay.route_inbound pg_ck.Text.strip_prefix pg_ck.Text.split_once pg_ck.Text.text_eq
few_traced = omega arith

drain_and_dispatch-Replied_example :
    (told : List Cmd) × (after : Client) × Replied spi spi_laws (elsewhere ∷ traced ∷ []) told
    × (drain_and_dispatch spi (relay_loop (elsewhere ∷ traced ∷ []) []) (λ _. nothing_set) client
        ≡ ([], after))
    × (after.queue ≡ told)
    × IsRunning after
    × IsBounded after
drain_and_dispatch-Replied_example =
    drain_and_dispatch-Replied spi spi_laws (λ _. nothing_set) (λ _. fresh)
      (elsewhere ∷ traced ∷ []) client running
      (record { some_room = omega arith; bounded = omega arith }) few_traced
