-- ===== src/Nats/Hub/Broker.antt =====
-- The listener as a whole: what every connection is handed, sends and is told.
use pg_ck.Prelude.{
  All, All-append, All-drop, ℕ, ◌≡◌, refl, sym, subst, List, [], ◌∷◌, ◌++◌, Option, none, some,
  drop, length,
}
use pg_ck.Prelude.Result.{Result, ok, err}
use pg_ck.Nats.Server.{IoError, Connection, Delivery, readable, received, lagged, step}
use pg_ck.Nats.Hub.{
  Received, value, dropped, pending, Broadcast, BroadcastLaws, at, sent_of, HubEvent, accepted,
  reads, receives, Hub, serve, send_all, settle, handle, note, deliver, receive, hub_step, run,
}
use pg_ck.Nats.Server.Plain.{IsPlainDelivery}
use pg_ck.Nats.Hub.Fair.{IsFair, serve-IsFair, hub_step-IsFair, sent_of-append}
use pg_ck.Nats.Hub.Sources.{IsSourced, run-IsFair-IsSourced}
use pg_ck.Nats.Hub.Serving.{
  IsServing, serve-IsServing, accept-IsServing, reads-IsServing, deliver-IsServing,
}
use pg_ck.Nats.Hub.Serves.{readable-Serves, received-Serves, lagged-Serves, Serves-sent}
use pg_ck.Nats.Hub.Handed.{recv-All}

module _ (b : Broadcast) where
  -- What is put on the channel can be told.
  send_all-log :
      (n : ℕ) (ds : List Delivery) (h : Hub b)
      → All IsPlainDelivery ds
      → All IsPlainDelivery (sent_of h.log)
      → All IsPlainDelivery (sent_of (send_all b n ds h).log)
  send_all-log n [] h plain log = log
  send_all-log n (d ∷ ds) h (first, later) log = send_all-log n ds _ later (
      subst (All IsPlainDelivery) (sym (sent_of-append h.log n d))
        (All-append IsPlainDelivery (sent_of h.log) (d ∷ []) log (first, tt)))

  settle-log :
      (n already : ℕ) (outcome : Result IoError (Option Connection)) (h : Hub b)
      → ((c' : Connection) → outcome ≡ ok (some c') → All IsPlainDelivery c'.sent)
      → All IsPlainDelivery (sent_of h.log)
      → All IsPlainDelivery (sent_of (settle b n already outcome h).log)
  settle-log n already (err why) h plain log = log
  settle-log n already (ok none) h plain log = log
  settle-log n already (ok (some c')) h plain log =
      send_all-log n (drop already c'.sent) (record h { clients = at n (some c') h.clients })
        (All-drop IsPlainDelivery already c'.sent (plain c' refl)) log

  reads-log :
      (n : ℕ) (o : Option Connection) (h : Hub b)
      → h.clients n ≡ o
      → IsServing b h
      → All IsPlainDelivery (sent_of h.log)
      → All IsPlainDelivery (sent_of (handle b n o readable h).log)
  reads-log n none h running s log = log
  reads-log n (some c) h running s log =
      settle-log n (length c.sent) (step c readable) h
        (λ c' e. Serves-sent c' (h.handed n) (readable-Serves c c' (h.handed n) e (s n c running)))
        log

  deliver-log :
      (n taken : ℕ) (c : Connection) (result : Received) (tx : b.Channel) (h : Hub b)
      → h.clients n ≡ some c
      → ((d : Delivery) → result ≡ value d → IsPlainDelivery d)
      → IsServing b h
      → All IsPlainDelivery (sent_of h.log)
      → All IsPlainDelivery (sent_of (deliver b n c taken (result, tx) h).log)
  deliver-log n taken c (value d) tx h running plain s log =
      settle-log n (length c.sent) (step c (received d taken)) (note b n (value d) tx h)
        (λ c' e.
          Serves-sent c' (h.handed n ++ value d ∷ [])
            (received-Serves c c' (h.handed n) d taken (plain d refl) e (s n c running)))
        log
  deliver-log n taken c (dropped k) tx h running plain s log =
      settle-log n (length c.sent) (step c (lagged taken)) (note b n (dropped k) tx h)
        (λ c' e.
          Serves-sent c' (h.handed n ++ dropped k ∷ [])
            (lagged-Serves c c' (h.handed n) k taken e (s n c running)))
        log
  deliver-log n taken c pending tx h running plain s log = log

  module _ (laws : BroadcastLaws b) where
    -- What `recv` hands over was sent.
    receive-IsServing :
        (n taken : ℕ) (o : Option Connection) (h : Hub b)
        → h.clients n ≡ o
        → IsFair b laws h
        → All IsPlainDelivery (sent_of h.log)
        → IsServing b h
        → IsServing b (receive b n taken o h)
    receive-IsServing n taken none h running fair log s = s
    receive-IsServing n taken (some c) h running fair log s =
        deliver-IsServing b n taken c (b.recv n h.tx).0 (b.recv n h.tx).1 h running
          (λ d got.
            recv-All b laws IsPlainDelivery n h.tx (sent_of h.log) (h.joined n) (h.handed n) d
              (fair.follows n c running) log got)
          s

    hub_step-IsServing :
        (event : HubEvent) (h : Hub b)
        → IsFair b laws h
        → All IsPlainDelivery (sent_of h.log)
        → IsServing b h
        → IsServing b (hub_step b event h)
    unfolding hub_step
    hub_step-IsServing (accepted input) h fair log s = accept-IsServing b input h s
    hub_step-IsServing (reads n) h fair log s = reads-IsServing b n (h.clients n) h refl s
    hub_step-IsServing (receives n taken) h fair log s =
        receive-IsServing n taken (h.clients n) h refl fair log s

    receive-log :
        (n taken : ℕ) (o : Option Connection) (h : Hub b)
        → h.clients n ≡ o
        → IsFair b laws h
        → IsServing b h
        → All IsPlainDelivery (sent_of h.log)
        → All IsPlainDelivery (sent_of (receive b n taken o h).log)
    receive-log n taken none h running fair s log = log
    receive-log n taken (some c) h running fair s log =
        deliver-log n taken c (b.recv n h.tx).0 (b.recv n h.tx).1 h running
          (λ d got.
            recv-All b laws IsPlainDelivery n h.tx (sent_of h.log) (h.joined n) (h.handed n) d
              (fair.follows n c running) log got)
          s log

    hub_step-log :
        (event : HubEvent) (h : Hub b)
        → IsFair b laws h
        → All IsPlainDelivery (sent_of h.log)
        → IsServing b h
        → All IsPlainDelivery (sent_of (hub_step b event h).log)
    unfolding hub_step
    hub_step-log (accepted input) h fair log s = log
    hub_step-log (reads n) h fair log s = reads-log n (h.clients n) h refl s log
    hub_step-log (receives n taken) h fair log s =
        receive-log n taken (h.clients n) h refl fair s log

    run_serves :
        (events : List HubEvent) (h : Hub b)
        → IsFair b laws h
        → All IsPlainDelivery (sent_of h.log)
        → IsServing b h
        → IsServing b (run b events h)
    unfolding run
    run_serves [] h fair log s = s
    run_serves (event ∷ events) h fair log s =
        run_serves events (hub_step b event h) (hub_step-IsFair b laws event h fair)
          (hub_step-log event h fair log s) (hub_step-IsServing event h fair log s)

  -- What the listener promises.
  pub record IsBroker (laws : BroadcastLaws b) (h : Hub b) : Type 0 where
    pub fair : IsFair b laws h
    pub sourced : IsSourced b h
    pub serving : IsServing b h

  -- Whatever connections are accepted, whatever they send and in whatever order their tasks run: the
  -- channel has been sent exactly what each running connection has published, in its order. For each
  -- connection that runs, the deliveries sent since it was accepted are, in the order in which they
  -- were sent, those that its loop was handed or told to have missed, then those dropped since it was
  -- last told, then those that wait for it, where some are dropped only while 1024 or more wait. And
  -- the bytes that it was written are those of a session that heard just the deliveries handed over,
  -- in their order: each is told once for every sid subscribed at that time whose pattern matches.
  pub run-IsBroker :
      (laws : BroadcastLaws b) (events : List HubEvent) → IsBroker laws (run b events (serve b))
  run-IsBroker laws events =
      let (fair, sourced) = run-IsFair-IsSourced b laws events in
      record {
        fair = fair;
        sourced = sourced;
        serving =
            run_serves laws events (serve b) (serve-IsFair b laws) (unfold serve in tt)
              (serve-IsServing b);
      }
