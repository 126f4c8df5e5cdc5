-- ===== src/Nats/Hub/Endings.antt =====
-- What the end of one connection's loop does to the listener.
use mathlib.Core.Option.{some-injective}
use pg_ck.Prelude.{
  ℕ, ◌<◌, ◌≡◌, ◌≢◌, ◌⊎◌, ◌∙◌, refl, sym, ap, subst, inl, inr, List, [], ◌∷◌, Option, none, some,
  length, drop, arith,
}
use pg_ck.Prelude.Result.{Result, ok, err}
use pg_ck.Text.Utf8.{Bytes}
use pg_ck.Nats.Parser.{ClientMsg}
use pg_ck.Nats.Server.{
  IoError, Connection, Delivery, Event, readable, received, lagged, opened, step,
  read_client_message,
}
use pg_ck.Nats.Hub.{
  Received, value, dropped, pending, Broadcast, BroadcastLaws, at, HubEvent, accepted, reads,
  receives, Hub, serve, accept, ended, send_all, settle, handle, note, deliver, receive, hub_step,
  run,
}
use pg_ck.Nats.Hub.Order.{at_same, at_other}
use pg_ck.Nats.Hub.Broker.{run-IsBroker}

module _ (b : Broadcast) where
  -- The number was given out, and no connection runs under it.
  abbrev IsOver : ℕ → Hub b → Type 0
  IsOver n h = (n < h.count) × (h.clients n ≡ none)

  accept-IsOver : (n : ℕ) (input : Bytes) (h : Hub b) → IsOver n h → IsOver n (accept b input h)
  accept-IsOver n input h (given, over) = (
    omega (arith, given),
    at_other h.count n (some (opened input)) h.clients (λ same. absurd (omega (arith, given, same)))
        ∙ over,
  )

  send_all-IsOver :
      (n m : ℕ) (ds : List Delivery) (h : Hub b) → IsOver n h → IsOver n (send_all b m ds h)
  send_all-IsOver n m [] h over = over
  send_all-IsOver n m (d ∷ ds) h over = send_all-IsOver n m ds _ over

  settle-IsOver :
      (n m already : ℕ) (outcome : Result IoError (Option Connection)) (h : Hub b)
      → m ≢ n
      → IsOver n h
      → IsOver n (settle b m already outcome h)
  settle-IsOver n m already (err e) h other (given, over) =
      (given, at_other m n none h.clients other ∙ over)
  settle-IsOver n m already (ok none) h other (given, over) =
      (given, at_other m n none h.clients other ∙ over)
  settle-IsOver n m already (ok (some c)) h other (given, over) =
      send_all-IsOver n m (drop already c.sent) (record h { clients = at m (some c) h.clients })
        (given, at_other m n (some c) h.clients other ∙ over)

  -- A connection that runs has another number.
  elsewhere : (n m : ℕ) (c : Connection) (h : Hub b) → h.clients m ≡ some c → IsOver n h → m ≢ n
  elsewhere n m c h running (given, over) same =
      absurd (ground (arith, sym running ∙ ap h.clients same ∙ over))

  handle-IsOver :
      (n m : ℕ) (o : Option Connection) (event : Event) (h : Hub b)
      → h.clients m ≡ o
      → IsOver n h
      → IsOver n (handle b m o event h)
  handle-IsOver n m none event h running over = over
  handle-IsOver n m (some c) event h running over =
      settle-IsOver n m (length c.sent) (step c event) h (elsewhere n m c h running over) over

  deliver-IsOver :
      (n m taken : ℕ) (c : Connection) (result : Received) (tx : b.Channel) (h : Hub b)
      → h.clients m ≡ some c
      → IsOver n h
      → IsOver n (deliver b m c taken (result, tx) h)
  deliver-IsOver n m taken c (value d) tx h running over =
      handle-IsOver n m (some c) (received d taken) (note b m (value d) tx h) running over
  deliver-IsOver n m taken c (dropped k) tx h running over =
      handle-IsOver n m (some c) (lagged taken) (note b m (dropped k) tx h) running over
  deliver-IsOver n m taken c pending tx h running over = over

  receive-IsOver :
      (n m taken : ℕ) (o : Option Connection) (h : Hub b)
      → h.clients m ≡ o
      → IsOver n h
      → IsOver n (receive b m taken o h)
  receive-IsOver n m taken none h running over = over
  receive-IsOver n m taken (some c) h running over =
      deliver-IsOver n m taken c (b.recv m h.tx).0 (b.recv m h.tx).1 h running over

  hub_step-IsOver :
      (n : ℕ) (event : HubEvent) (h : Hub b) → IsOver n h → IsOver n (hub_step b event h)
  unfolding hub_step
  hub_step-IsOver n (accepted input) h over = accept-IsOver n input h over
  hub_step-IsOver n (reads m) h over = handle-IsOver n m (h.clients m) readable h refl over
  hub_step-IsOver n (receives m taken) h over = receive-IsOver n m taken (h.clients m) h refl over

  run-IsOver : (n : ℕ) (events : List HubEvent) (h : Hub b) → IsOver n h → IsOver n (run b events h)
  unfolding run
  run-IsOver n [] h over = over
  run-IsOver n (event ∷ events) h over =
      run-IsOver n events (hub_step b event h) (hub_step-IsOver n event h over)

  module _ (laws : BroadcastLaws b) where
    open laws use {view}

    -- Connection `n` has ended for good, and nothing else has happened.
    pub record HasEnded (n : ℕ) (h h' : Hub b) : Type 0 where
      pub over : (later : List HubEvent) → (run b later h').clients n ≡ none
      pub log : h'.log ≡ h.log
      pub count : h'.count ≡ h.count
      pub clients : (m : ℕ) → n ≢ m → h'.clients m ≡ h.clients m
      pub handed : (m : ℕ) → h'.handed m ≡ h.handed m
      pub waiting : (m : ℕ) → n ≢ m → view m h'.tx ≡ view m h.tx

    -- Nothing more to read, or bytes that are no message.
    abbrev pub Fails : Result IoError (Option (ClientMsg × Bytes)) → Type 0
    Fails read = (read ≡ ok none) ⊎ ((e : IoError) × (read ≡ err e))

    ended_step :
        (c : Connection)
        → Fails (read_client_message c.input)
        → (step c readable ≡ ok none) ⊎ ((e : IoError) × (step c readable ≡ err e))
    unfolding step
    ended_step c (inl e) = inl (rw e refl)
    ended_step c (inr (why, e)) = inr (why, rw e refl)

    ended-HasEnded : (n : ℕ) (h : Hub b) → n < h.count → HasEnded n h (ended b n h)
    ended-HasEnded n h given = record {
      over = λ later. (run-IsOver n later (ended b n h) (given, at_same n none h.clients)).1;
      log = refl;
      count = refl;
      clients = λ m other. at_other n m none h.clients other;
      handed = λ m. refl;
      waiting = λ m other. laws.unsubscribe_others n m h.tx other;
    }

    settle-HasEnded :
        (n already : ℕ) (outcome : Result IoError (Option Connection)) (h : Hub b)
        → (outcome ≡ ok none) ⊎ ((e : IoError) × (outcome ≡ err e))
        → n < h.count
        → HasEnded n h (settle b n already outcome h)
    settle-HasEnded n already (ok (some c)) h (inl e) given = absurd (ground (arith, e))
    settle-HasEnded n already (ok (some c)) h (inr (why, e)) given = absurd (ground (arith, e))
    settle-HasEnded n already (ok none) h _ given = ended-HasEnded n h given
    settle-HasEnded n already (err e) h _ given = ended-HasEnded n h given

    handle-HasEnded :
        (n : ℕ) (o : Option Connection) (c : Connection) (h : Hub b)
        → o ≡ some c
        → Fails (read_client_message c.input)
        → n < h.count
        → HasEnded n h (handle b n o readable h)
    unfolding step
    handle-HasEnded n none c h same fails given = absurd (ground (arith, same))
    handle-HasEnded n (some c') c h same fails given =
        settle-HasEnded n (length c'.sent) (step c' readable) h
          (ended_step c' (
            subst (λ (x : Connection). Fails (read_client_message x.input))
              (sym (some-injective c' c same)) fails))
          given

    -- The error of one client is no one else's. Whatever has happened: if the next that a running
    -- connection reads is the end of its stream or no message, because of its UTF-8, its line, its
    -- length or its end, then its task ends: whatever happens later no connection runs under its number
    -- again; nothing is sent on the channel; and every other connection, what it was handed and what
    -- waits for it stay as they were.
    pub run-HasEnded :
        (events : List HubEvent) (n : ℕ) (c : Connection)
        → (run b events (serve b)).clients n ≡ some c
        → Fails (read_client_message c.input)
        → HasEnded n (run b events (serve b)) (hub_step b (reads n) (run b events (serve b)))
    unfolding hub_step
    run-HasEnded events n c running fails =
        let h = run b events (serve b) in
        handle-HasEnded n (h.clients n) c h running fails
          ((run-IsBroker b laws events).fair.numbered n c running)
