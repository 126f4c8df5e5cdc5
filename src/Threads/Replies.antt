-- ===== src/Threads/Replies.antt =====
-- What a caller reads in reply to a message: the dispatch in src/inbound_dispatch.rs behind the relay's
-- loop in src/nats_client.rs.
use pg_ck.Prelude.{
  ℕ, ◌+◌, ◌≤◌, ◌≡◌, ◌≢◌, ◌∙◌, refl, sym, ap, subst, inl, inr, List, [], ◌∷◌, ◌++◌, Option, none,
  some, length, map, arith, ◌==◌, ==_iff, Bool-cases,
}
use pg_ck.Prelude.Result.{Result, ok, err, >>=-eq-err}
use pg_ck.Text.{Text, codes}
use pg_ck.Text.Utf8
use pg_ck.Text.Utf8.{Bytes, decode_lossy}
use pg_ck.Relay.{RoutedInbound, route_inbound, with_header, trace_headers}
use pg_ck.Client.{Headers, IsRunning, Client, Cmd, publish_core}
use pg_ck.Client.Sent.{
  pushed_all, pushed_all-queue, pushed_all-IsRunning, IsBounded, pushed_all-IsBounded,
}
use pg_ck.Inbound.{
  InboundAction, Spi, SpiLaws, max_queue, action_for, headers_of, quote_to_apostrophe, reply_text,
  transaction, dispatch_one, drain_and_dispatch, set_requester, set_project,
}
use pg_ck.Inbound.Queue.{enqueue_all-take, take_short}
use pg_ck.Inbound.Dispatch.{
  project_of, IsFresh, IsDispatched, set_requester_sound, set_project_sound,
  transaction-IsDispatched, replies, drain_and_dispatch-replies,
}
use pg_ck.Threads.{Message, relay_loop}
use pg_ck.Threads.Queued.{actions_at, actions_of, relay_loop-enqueue_all}

-- The text of an error with an apostrophe for each double quote.
pub data Quoted : Text → Text → Type 0 where
  ended : Quoted [] []
  quote : {s t : Text} → Quoted s t → Quoted (34 ∷ s) (39 ∷ t)
  other : (c : ℕ) {s t : Text} → c ≢ 34 → Quoted s t → Quoted (c ∷ s) (c ∷ t)

-- The two headers that a reply echoes, as far as the message has them.
abbrev echo_of : Option Text → Option Text → Headers
echo_of none none = []
echo_of (some trace) none = (codes "Trace-Id", trace) ∷ []
echo_of none (some seq) = (codes "Ck-Seq", seq) ∷ []
echo_of (some trace) (some seq) = (codes "Trace-Id", trace) ∷ (codes "Ck-Seq", seq) ∷ []

abbrev pub echoed : Option (Text → Option Text) → Headers
echoed none = []
echoed (some get) = echo_of (get (codes "Trace-Id")) (get (codes "Ck-Seq"))

quote_map-Quoted : (e : Text) → Quoted e (map quote_to_apostrophe e)
quote_map-Quoted [] = ended
quote_map-Quoted (c ∷ e) = elim (Bool-cases (c == 34)) [
  | inl same ↦
      subst (λ d. Quoted (d ∷ e) (quote_to_apostrophe d ∷ map quote_to_apostrophe e))
        (sym ((==_iff c 34).0 same)) (quote (quote_map-Quoted e))
  | inr differs ↦
      rw differs
        (other c (λ same. absurd (cc ((==_iff c 34).1 same, differs))) (quote_map-Quoted e))
]

with_header-echo_of :
    (trace seq : Option Text)
    → with_header (codes "Ck-Seq") seq (with_header (codes "Trace-Id") trace []) ≡ echo_of trace seq
with_header-echo_of none none = refl
with_header-echo_of (some trace) none = refl
with_header-echo_of none (some seq) = refl
with_header-echo_of (some trace) (some seq) = refl

headers_of-echoed : (headers : Option (Text → Option Text)) → headers_of headers ≡ echoed headers
unfolding trace_headers
headers_of-echoed none = refl
headers_of-echoed (some get) = with_header-echo_of (get (codes "Trace-Id")) (get (codes "Ck-Seq"))

module _ (spi : Spi) (laws : SpiLaws spi) where
  open spi use {State, setting, set_config, dispatch_safe}

  -- One of the calls of the transaction gave this error.
  pub data Fails (r : RoutedInbound) (payload : Bytes) (e : Text) : Type 0 where
    as_requester :
        (sub : Text) (s : State)
        → r.identity ≡ some sub
        → set_config (codes "ckp.requester") sub s ≡ err e
        → Fails r payload e
    on_project :
        (s : State) → set_config (codes "ckp.project") r.kernel s ≡ err e → Fails r payload e
    in_dispatch :
        (s : State)
        → setting (codes "ckp.requester") s ≡ r.identity
        → setting (codes "ckp.project") s ≡ project_of r.kernel
        → dispatch_safe r.verb (decode_lossy payload) s ≡ err e
        → Fails r payload e

  -- The reply to a routed message: the text that a dispatch under the message's identity and on its
  -- kernel returned, or what stands for NULL or for the error of one of the calls.
  pub data IsReply (r : RoutedInbound) (payload : Bytes) : Text → Type 0 where
    result :
        (json : Text)
        → IsDispatched spi laws r.identity (project_of r.kernel) r.verb payload (some json)
        → IsReply r payload json
    null :
        IsDispatched spi laws r.identity (project_of r.kernel) r.verb payload none
        → IsReply r payload (codes "{\"ok\":false,\"error\":\"dispatch returned null\"}")
    failed :
        (e shown : Text)
        → Fails r payload e
        → Quoted e shown
        → IsReply r payload
            (codes "{\"ok\":false,\"error\":\"dispatch failed: " ++ (shown ++ codes "\"}"))

  -- The messages that were relayed, and what is queued for the publisher in turn.
  pub data Replied : List Message → List Cmd → Type 0 where
    silence : Replied [] []
    unrouted :
        (m : Message) {messages : List Message} {told : List Cmd}
        → route_inbound m.subject ≡ none
        → Replied messages told
        → Replied (m ∷ messages) told
    replied :
        (m : Message) (r : RoutedInbound) (text : Text) {messages : List Message} {told : List Cmd}
        → route_inbound m.subject ≡ some r
        → IsReply r m.payload text
        → Replied messages told
        → Replied
            (m ∷ messages)
            (publish_core r.result_subject (Utf8.encode text) (echoed m.headers) ∷ told)

  set_requester-eq-err :
      (identity : Option Text) (s : State) {e : Text}
      → set_requester spi identity s ≡ err e
      → (sub : Text) × (identity ≡ some sub) × (set_config (codes "ckp.requester") sub s ≡ err e)
  set_requester-eq-err none s h = absurd (ground (arith, h))
  set_requester-eq-err (some sub) s h = (sub, refl, h)

  set_project-eq-err :
      (kernel : Text) (s : State) {e : Text}
      → set_project spi kernel s ≡ err e
      → set_config (codes "ckp.project") kernel s ≡ err e
  set_project-eq-err [] s h = absurd (ground (arith, h))
  set_project-eq-err (c ∷ kernel) s h = h

  transaction-Fails :
      (r : RoutedInbound) (payload : Bytes) (headers : Option (Text → Option Text)) (s : State)
      {e : Text}
      → IsFresh spi laws s
      → transaction spi (action_for r payload headers) s ≡ err e
      → Fails r payload e
  unfolding transaction
  transaction-Fails r payload headers s fresh h =
      elim (>>=-eq-err (set_requester spi r.identity s) _ h) [
        | inl first ↦
            let (sub, given, why) = set_requester-eq-err r.identity s first in
            as_requester sub s given why
        | inr (t, requested, h1) ↦ elim (>>=-eq-err (set_project spi r.kernel t) _ h1) [
          | inl second ↦ on_project t (set_project-eq-err r.kernel t second)
          | inr (u, scoped, h2) ↦
              let (requester, unset) = set_requester_sound spi laws r.identity s fresh requested in
              let (project, same) = set_project_sound spi laws r.kernel t unset scoped in
              in_dispatch u (same ∙ requester) project h2
        ]
      ]

  reply_text-IsReply :
      (r : RoutedInbound) (payload : Bytes) (headers : Option (Text → Option Text)) (s : State)
      (outcome : Result Text (Option Text))
      → IsFresh spi laws s
      → transaction spi (action_for r payload headers) s ≡ outcome
      → IsReply r payload (reply_text outcome)
  reply_text-IsReply r payload headers s (ok (some json)) fresh h =
      result json (transaction-IsDispatched spi laws (action_for r payload headers) s fresh h)
  reply_text-IsReply r payload headers s (ok none) fresh h =
      null (transaction-IsDispatched spi laws (action_for r payload headers) s fresh h)
  reply_text-IsReply r payload headers s (err e) fresh h =
      failed e (map quote_to_apostrophe e) (transaction-Fails r payload headers s fresh h)
        (quote_map-Quoted e)

  module _ (begin : ℕ → State) (fresh : (n : ℕ) → IsFresh spi laws (begin n)) where
    Replied-by :
        (m : Message) (o : Option RoutedInbound) (messages : List Message) (n : ℕ)
        → route_inbound m.subject ≡ o
        → ((k : ℕ) → Replied messages (replies spi (actions_of messages) begin k))
        → Replied (m ∷ messages) (replies spi (actions_at o m ++ actions_of messages) begin n)
    unfolding dispatch_one
    Replied-by m none messages n lost later = unrouted m lost (later n)
    Replied-by m (some r) messages n routes later =
        let action = action_for r m.payload m.headers in
        subst
          (λ (h : Headers). Replied (m ∷ messages) (
            publish_core r.result_subject (Utf8.encode (dispatch_one spi action (begin n))) h
            ∷ replies spi (actions_of messages) begin (n + 1)))
          (sym (headers_of-echoed m.headers))
          (replied m r (dispatch_one spi action (begin n)) routes
            (reply_text-IsReply r m.payload m.headers (begin n) (transaction spi action (begin n))
              (fresh n) refl)
            (later (n + 1)))

    replies-Replied :
        (messages : List Message) (n : ℕ)
        → Replied messages (replies spi (actions_of messages) begin n)
    replies-Replied [] n = silence
    replies-Replied (m ∷ messages) n =
        Replied-by m (route_inbound m.subject) messages n refl (replies-Replied messages)

    -- With a client that runs and whose channel holds no more than its capacity, which stays so,
    -- transactions that begin with neither setting, a database that reads
    -- settings back, and at most 1000 actions between two ticks: after the relay's loop over any
    -- messages, the tick leaves the queue of actions empty and queues one reply for each message that
    -- routes, in the order of the messages and on the subject of its route. The reply echoes the
    -- message's `Trace-Id` and `Ck-Seq`, those that it has, and its text is what a dispatch returned
    -- that saw the identity and the kernel of the subject, or says that this was NULL, or gives the
    -- error of the call that failed, with an apostrophe for each double quote.
    pub drain_and_dispatch-Replied :
        (messages : List Message) (c : Client)
        → IsRunning c
        → IsBounded c
        → length (actions_of messages) ≤ max_queue
        → (told : List Cmd) × (after : Client) × Replied messages told
          × (drain_and_dispatch spi (relay_loop messages []) begin c ≡ ([], after))
          × (after.queue ≡ c.queue ++ told)
          × IsRunning after
          × IsBounded after
    drain_and_dispatch-Replied messages c running bounded few = (
      replies spi (actions_of messages) begin 0,
      pushed_all (replies spi (actions_of messages) begin 0) c,
      replies-Replied messages 0,
      ap (λ (q : List InboundAction). drain_and_dispatch spi q begin c)
            (relay_loop-enqueue_all messages []
              ∙ enqueue_all-take [] (actions_of messages) (omega arith)
              ∙ take_short max_queue (actions_of messages) few)
          ∙ drain_and_dispatch-replies spi (actions_of messages) begin c running,
      pushed_all-queue (replies spi (actions_of messages) begin 0) c,
      pushed_all-IsRunning (replies spi (actions_of messages) begin 0) c running,
      pushed_all-IsBounded (replies spi (actions_of messages) begin 0) c bounded,
    )
