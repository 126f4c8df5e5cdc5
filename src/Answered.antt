-- ===== src/Answered.antt =====
-- From the message that asks to the message that answers: the relay's thread (src/nats_client.rs), the
-- worker's dispatch (src/inbound_dispatch.rs) and the publisher's thread (src/nats_client.rs).
use mathlib.Core.List.{Perm}
use pg_ck.Prelude.{
  ℕ, ◌+◌, ◌≤◌, ◌≡◌, ◌∙◌, refl, ap, true, Bool, List, [], ◌∷◌, ◌++◌, Option, All, length,
}
use pg_ck.Text.{Text}
use pg_ck.Text.Utf8
use pg_ck.Libraries.{Codec, Ed25519, Nkeys, Digests}
use pg_ck.Client.{Cmd, Client, IsRunning, publish_core, run_client_thread}
use pg_ck.Client.Sent.{pushed_all, pushed_all-queue}
use pg_ck.Relay.{relay_in_subject, relay_id_subject}
use pg_ck.Relay.Subscribed.{IsFilled}
use pg_ck.Inbound.{InboundAction, Spi, max_queue, dispatch_one, drain_and_dispatch}
use pg_ck.Inbound.Queue.{take_short}
use pg_ck.Inbound.Dispatch.{replies, drain_and_dispatch-replies}
use pg_ck.Outbox.Delivers.{run_client_thread-append}
use pg_ck.Threads.{Message, Request, CalloutContext, run_relay_thread}
use pg_ck.Threads.Queued.{actions_of, heard, Interleaved, run_relay_thread-Perm}

-- One message for each action, on its subject and with its headers: what the dispatch of the action in
-- some state of the database gave, or its error.
pub data Answers (spi : Spi) : List InboundAction → List Cmd → Type 0 where
  silence : Answers spi [] []
  answer :
      (a : InboundAction) (s : spi.State) {actions : List InboundAction} {published : List Cmd}
      → Answers spi actions published
      → Answers spi
          (a ∷ actions)
          (publish_core a.result_subject (Utf8.encode (dispatch_one spi a s)) a.headers ∷ published)

replies-Answers :
    (spi : Spi) (actions : List InboundAction) (begin : ℕ → spi.State) (n : ℕ)
    → Answers spi actions (replies spi actions begin n)
replies-Answers spi [] begin n = silence
replies-Answers spi (a ∷ actions) begin n =
    answer a (begin n) (replies-Answers spi actions begin (n + 1))

-- The publisher's thread hands every reply on, whether a stream is configured or not.
run_client_thread-replies :
    (spi : Spi) (js_stream : Option Text) (actions : List InboundAction) (begin : ℕ → spi.State)
    (n : ℕ)
    → run_client_thread js_stream (replies spi actions begin n) ≡ replies spi actions begin n
unfolding run_client_thread
run_client_thread-replies spi js_stream [] begin n = refl
run_client_thread-replies spi js_stream (a ∷ actions) begin n =
    ap
      (λ (l : List Cmd).
        publish_core a.result_subject (Utf8.encode (dispatch_one spi a (begin n))) a.headers ∷ l)
      (run_client_thread-replies spi js_stream actions begin (n + 1))

module _ (codec : Codec) (ed : Ed25519) (nkeys : Nkeys) (digests : Digests) (takes : Text → Bool)
    (callout : Option (CalloutContext codec ed nkeys digests)) (requests : List Request) (spi : Spi)
    (begin : ℕ → spi.State) (js_stream : Option Text) (client : Client) where
  -- If the broker takes both subscriptions and hands each what matches it, no published subject has an
  -- empty token, at most 1000 actions come between two ticks, and the client runs: after the tick the
  -- queue of actions is empty, and the publisher's thread publishes what it had to publish before, and
  -- then exactly one answer for each published message whose subject routes, whether its dispatch
  -- succeeds or fails.
  pub published-Answers :
      (published selected : List Message)
      → takes relay_in_subject ≡ true
      → takes relay_id_subject ≡ true
      → All (λ m. IsFilled m.subject) published
      → Interleaved (heard relay_in_subject published) (heard relay_id_subject published) selected
      → length (actions_of selected) ≤ max_queue
      → IsRunning client
      → (actions : List InboundAction) × (answers : List Cmd) × (after : Client)
        × (drain_and_dispatch spi
              (run_relay_thread codec ed nkeys digests takes callout requests selected []).1
              begin
              client
            ≡ ([], after))
        × (run_client_thread js_stream after.queue
            ≡ run_client_thread js_stream client.queue ++ answers)
        × Answers spi actions answers
        × Perm actions (actions_of published)
  published-Answers published selected plain scoped filled interleaved few running =
      let (queued, same) =
        run_relay_thread-Perm codec ed nkeys digests takes callout requests published selected plain
          scoped filled interleaved in
      let told = replies spi (actions_of selected) begin 0 in
      (
        actions_of selected,
        told,
        pushed_all told client,
        ap (λ (q : List InboundAction). drain_and_dispatch spi q begin client)
              (queued ∙ take_short max_queue (actions_of selected) few)
            ∙ drain_and_dispatch-replies spi (actions_of selected) begin client running,
        ap (run_client_thread js_stream) (pushed_all-queue told client)
            ∙ run_client_thread-append js_stream client.queue told
            ∙ ap (λ (l : List Cmd). run_client_thread js_stream client.queue ++ l)
                (run_client_thread-replies spi js_stream (actions_of selected) begin 0),
        replies-Answers spi (actions_of selected) begin 0,
        same,
      )
