-- ===== src/Nats/Hub.antt =====
-- The listener of src/nats/server.rs: `serve` accepts connections, which exchange deliveries over one
-- broadcast channel. The channel is tokio's, a parameter.
pub mod Order
pub mod Fair
pub mod Sources
pub mod Serves
pub mod Handed
pub mod Serving
pub mod Broker
pub mod Integrity
pub mod Endings
use pg_ck.Prelude.{
  ℕ, suc, ◌+◌, ◌≤◌, ◌<◌, ◌≡◌, ◌≢◌, List, [], ◌∷◌, ◌++◌, Option, none, some, ◌==◌, if◌then◌else◌,
  length, drop,
}
use pg_ck.Prelude.Result.{Result, ok, err}
use pg_ck.Text.Utf8.{Bytes}
use pg_ck.Nats.Server.{
  IoError, Connection, Delivery, Event, readable, received, lagged, opened, step,
}

-- `rx.recv()`, where it is ready: a value, or the number of values that were dropped before it read
-- them. `pending` is a call that is not ready.
pub data Received : Type 0 where
  value : Delivery → Received
  dropped : ℕ → Received
  pending : Received

-- `tokio::sync::broadcast`, with its receivers by number.
pub record Broadcast : Type 1 where
  pub Channel : Type 0
  pub channel : ℕ → Channel
  pub subscribe : ℕ → Channel → Channel
  pub unsubscribe : ℕ → Channel → Channel
  pub send : Delivery → Channel → Channel
  pub recv : ℕ → Channel → Received × Channel

-- What is documented of it: a receiver sees what is sent after it subscribed, in order; where it is
-- `capacity` values behind, the oldest is dropped and counted, and the count is reported before the
-- next value. `view` is a receiver's count and the values that wait for it.
pub record BroadcastLaws (b : Broadcast) : Type 0 where
  pub capacity : b.Channel → ℕ
  pub view : ℕ → b.Channel → Option (ℕ × List Delivery)
  pub channel_capacity : (size : ℕ) → size ≤ capacity (b.channel size)
  pub subscribe_capacity : (n : ℕ) (ch : b.Channel) → capacity (b.subscribe n ch) ≡ capacity ch
  pub unsubscribe_capacity : (n : ℕ) (ch : b.Channel) → capacity (b.unsubscribe n ch) ≡ capacity ch
  pub send_capacity : (d : Delivery) (ch : b.Channel) → capacity (b.send d ch) ≡ capacity ch
  pub recv_capacity : (n : ℕ) (ch : b.Channel) → capacity (b.recv n ch).1 ≡ capacity ch
  pub subscribed : (n : ℕ) (ch : b.Channel) → view n (b.subscribe n ch) ≡ some (0, [])
  pub subscribe_others : (n m : ℕ) (ch : b.Channel) → n ≢ m → view m (b.subscribe n ch) ≡ view m ch
  pub unsubscribe_others :
      (n m : ℕ) (ch : b.Channel) → n ≢ m → view m (b.unsubscribe n ch) ≡ view m ch
  pub send_room :
      (d : Delivery) (n : ℕ) (ch : b.Channel) (count : ℕ) (waiting : List Delivery)
      → view n ch ≡ some (count, waiting)
      → length waiting < capacity ch
      → view n (b.send d ch) ≡ some (count, waiting ++ d ∷ [])
  pub send_full :
      (d oldest : Delivery) (n : ℕ) (ch : b.Channel) (count : ℕ) (waiting : List Delivery)
      → view n ch ≡ some (count, oldest ∷ waiting)
      → capacity ch ≤ length (oldest ∷ waiting)
      → view n (b.send d ch) ≡ some (count + 1, waiting ++ d ∷ [])
  pub recv_pending :
      (n : ℕ) (ch : b.Channel)
      → view n ch ≡ some (0, [])
      → ((b.recv n ch).0 ≡ pending) × (view n (b.recv n ch).1 ≡ some (0, []))
  pub recv_value :
      (d : Delivery) (n : ℕ) (ch : b.Channel) (waiting : List Delivery)
      → view n ch ≡ some (0, d ∷ waiting)
      → ((b.recv n ch).0 ≡ value d) × (view n (b.recv n ch).1 ≡ some (0, waiting))
  pub recv_dropped :
      (n : ℕ) (ch : b.Channel) (count : ℕ) (waiting : List Delivery)
      → view n ch ≡ some (suc count, waiting)
      → ((b.recv n ch).0 ≡ dropped (suc count)) × (view n (b.recv n ch).1 ≡ some (0, waiting))
  pub recv_others : (n m : ℕ) (ch : b.Channel) → n ≢ m → view m (b.recv n ch).1 ≡ view m ch

abbrev pub broadcast_capacity : ℕ
broadcast_capacity = 1024

-- A function with one value changed.
abbrev pub at {ℓ} : {A : Type ℓ} → ℕ → A → (ℕ → A) → ℕ → A
at n v f m = if n == m then v else f m

abbrev pub sent_of : List (ℕ × Delivery) → List Delivery
sent_of [] = []
sent_of ((n, d) ∷ log) = d ∷ sent_of log

-- What happens next: a connection is accepted, with the bytes that it will send; the task of one of
-- them finds a message; or its `recv` is ready, when the read has taken some bytes from the stream.
pub data HubEvent : Type 0 where
  accepted : Bytes → HubEvent
  reads : ℕ → HubEvent
  receives : ℕ → ℕ → HubEvent

module _ (b : Broadcast) where
  open b use {Channel, channel, subscribe, send, recv}

  -- The connections that run, by number. The last three fields are a record of the past that no
  -- operation reads: all that was sent on the channel, each with the connection that published it; what
  -- had been sent when a connection subscribed; and what the connection's `recv` has returned.
  pub record Hub : Type 0 where
    pub tx : Channel
    pub clients : ℕ → Option Connection
    pub count : ℕ
    pub log : List (ℕ × Delivery)
    pub joined : ℕ → List Delivery
    pub handed : ℕ → List Received

  unfoldable pub serve : Hub
  serve = record {
    tx = channel broadcast_capacity;
    clients = λ n. none;
    count = 0;
    log = [];
    joined = λ n. [];
    handed = λ n. [];
  }

  -- `tx.subscribe()` and `tokio::spawn`
  abbrev pub accept : Bytes → Hub → Hub
  accept input h = record {
    tx = subscribe h.count h.tx;
    clients = at h.count (some (opened input)) h.clients;
    count = suc h.count;
    log = h.log;
    joined = at h.count (sent_of h.log) h.joined;
    handed = at h.count [] h.handed;
  }

  -- The task has ended, with an error or without: its receiver is dropped.
  abbrev pub ended : ℕ → Hub → Hub
  ended n h = record h { tx = b.unsubscribe n h.tx; clients = at n none h.clients }

  abbrev pub send_all : ℕ → List Delivery → Hub → Hub
  send_all n [] h = h
  send_all n (d ∷ ds) h = send_all n ds (record h { tx = send d h.tx; log = h.log ++ (n, d) ∷ [] })

  -- The connection goes on, and what it has published since is sent.
  abbrev pub continue_with : ℕ → ℕ → Connection → Hub → Hub
  continue_with n already c h =
      send_all n (drop already c.sent) (record h { clients = at n (some c) h.clients })

  abbrev pub settle : ℕ → ℕ → Result IoError (Option Connection) → Hub → Hub
  settle n already (ok (some c)) h = continue_with n already c h
  settle n already (ok none) h = ended n h
  settle n already (err e) h = ended n h

  abbrev pub handle : ℕ → Option Connection → Event → Hub → Hub
  handle n none event h = h
  handle n (some c) event h = settle n (length c.sent) (step c event) h

  abbrev pub note : ℕ → Received → Channel → Hub → Hub
  note n got tx h = record h { tx = tx; handed = at n (h.handed n ++ got ∷ []) h.handed }

  abbrev pub deliver : ℕ → Connection → ℕ → Received × Channel → Hub → Hub
  deliver n c taken (value d, tx) h = handle n (some c) (received d taken) (note n (value d) tx h)
  deliver n c taken (dropped k, tx) h = handle n (some c) (lagged taken) (note n (dropped k) tx h)
  deliver n c taken (pending, tx) h = record h { tx = tx }

  abbrev pub receive : ℕ → ℕ → Option Connection → Hub → Hub
  receive n taken none h = h
  receive n taken (some c) h = deliver n c taken (recv n h.tx) h

  unfoldable pub hub_step : HubEvent → Hub → Hub
  unfolding step opened
  hub_step (accepted input) h = accept input h
  hub_step (reads n) h = handle n (h.clients n) readable h
  hub_step (receives n taken) h = receive n taken (h.clients n) h

  unfoldable pub run : List HubEvent → Hub → Hub
  unfolding hub_step
  run [] h = h
  run (event ∷ events) h = run events (hub_step event h)
