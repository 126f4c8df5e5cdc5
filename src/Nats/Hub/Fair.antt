-- ===== src/Nats/Hub/Fair.antt =====
-- What holds of all connections that `serve` has accepted, whatever happens in whatever order.
use pg_ck.Prelude.{
  ℕ, suc, ◌≤◌, ◌<◌, ◌≡◌, ◌≢◌, ◌⊎◌, ◌∙◌, refl, sym, ap, subst, inl, inr, List, [], ◌∷◌, ◌++◌, Option,
  none, some, length, drop, arith,
}
use pg_ck.Prelude.Result.{Result, ok, err}
use pg_ck.Text.Utf8.{Bytes}
use pg_ck.Nats.Server.{
  IoError, Connection, Delivery, Event, readable, received, lagged, opened, step,
}
use pg_ck.Nats.Hub.{
  Received, value, dropped, pending, Broadcast, BroadcastLaws, broadcast_capacity, at, HubEvent,
  accepted, reads, receives, sent_of, Hub, serve, accept, ended, send_all, settle, handle, note,
  deliver, receive, hub_step,
}
use pg_ck.Nats.Hub.Order.{
  at_same, at_other, same_or_other, Follows, Follows-start, Follows-view, Follows-send,
  Follows-recv,
}

pub sent_of-append :
    (log : List (ℕ × Delivery)) (n : ℕ) (d : Delivery)
    → sent_of (log ++ (n, d) ∷ []) ≡ sent_of log ++ d ∷ []
sent_of-append [] n d = refl
sent_of-append (e ∷ log) n d = ap (λ (l : List Delivery). e.1 ∷ l) (sent_of-append log n d)

module _ (b : Broadcast) (laws : BroadcastLaws b) where
  open laws use {capacity}

  -- Every connection that runs follows the channel.
  pub record IsFair (h : Hub b) : Type 0 where
    pub large : broadcast_capacity ≤ capacity h.tx
    pub numbered : (n : ℕ) (c : Connection) → h.clients n ≡ some c → n < h.count
    pub follows :
        (n : ℕ) (c : Connection)
        → h.clients n ≡ some c
        → Follows b laws n h.tx (sent_of h.log) (h.joined n) (h.handed n)

  pub serve-IsFair : IsFair (serve b)
  unfolding serve
  serve-IsFair = record {
    large = laws.channel_capacity broadcast_capacity;
    numbered = λ n c e. absurd (ground arith);
    follows = λ n c e. absurd (ground arith);
  }

  accept-Follows :
      (input : Bytes) (h : Hub b) (n : ℕ) (c : Connection)
      → IsFair h
      → (h.count ≡ n) ⊎ (h.count ≢ n)
      → (accept b input h).clients n ≡ some c
      → (n < suc h.count)
        × Follows b laws n
            (accept b input h).tx
            (sent_of h.log)
            ((accept b input h).joined n)
            ((accept b input h).handed n)
  accept-Follows input h n c fair (inl same) e =
      subst
        (λ k.
          (k < suc h.count)
          × Follows b laws k (accept b input h).tx (sent_of h.log) ((accept b input h).joined k)
              ((accept b input h).handed k))
        same
        (
          omega arith,
          subst
              (λ (j : List Delivery).
                Follows b laws h.count (b.subscribe h.count h.tx) (sent_of h.log) j
                  ((accept b input h).handed h.count))
              (sym (at_same h.count (sent_of h.log) h.joined))
              (subst
                (λ (r : List Received).
                  Follows b laws h.count (b.subscribe h.count h.tx) (sent_of h.log) (sent_of h.log)
                    r)
                (sym (at_same h.count [] h.handed))
                (Follows-start b laws h.count h.tx (sent_of h.log))),
        )
  accept-Follows input h n c fair (inr other) e =
      let running = sym (at_other h.count n (some (opened input)) h.clients other) ∙ e in
      (
        omega (arith, fair.numbered n c running),
        subst
            (λ (j : List Delivery).
              Follows b laws n (b.subscribe h.count h.tx) (sent_of h.log) j
                ((accept b input h).handed n))
            (sym (at_other h.count n (sent_of h.log) h.joined other))
            (subst
              (λ (r : List Received).
                Follows b laws n (b.subscribe h.count h.tx) (sent_of h.log) (h.joined n) r)
              (sym (at_other h.count n [] h.handed other))
              (Follows-view b laws n h.tx (b.subscribe h.count h.tx) (sent_of h.log) (h.joined n)
                (h.handed n) (laws.subscribe_others h.count n h.tx other)
                (fair.follows n c running))),
      )

  accept-IsFair : (input : Bytes) (h : Hub b) → IsFair h → IsFair (accept b input h)
  accept-IsFair input h fair = record {
    large = omega (arith, fair.large, laws.subscribe_capacity h.count h.tx);
    numbered = λ n c e. (accept-Follows input h n c fair (same_or_other h.count n) e).0;
    follows = λ n c e. (accept-Follows input h n c fair (same_or_other h.count n) e).1;
  }

  still_running :
      (h : Hub b) (n m : ℕ) (c : Connection)
      → at n none h.clients m ≡ some c
      → (n ≢ m) × (h.clients m ≡ some c)
  still_running h n m c e = elim (same_or_other n m) [
    | inl same ↦ absurd (gone (subst (λ k. at n none h.clients k ≡ some c) (sym same) e))
    | inr other ↦ (other, sym (at_other n m none h.clients other) ∙ e)
  ]
    where
      gone : ¬ (at n none h.clients n ≡ some c)
      gone e' = cc (e', at_same n none h.clients)

  ended-IsFair : (n : ℕ) (h : Hub b) → IsFair h → IsFair (ended b n h)
  ended-IsFair n h fair = record {
    large = omega (arith, fair.large, laws.unsubscribe_capacity n h.tx);
    numbered = λ m c e. fair.numbered m c (still_running h n m c e).1;
    follows = λ m c e.
        let (other, running) = still_running h n m c e in
        Follows-view b laws m h.tx (b.unsubscribe n h.tx) (sent_of h.log) (h.joined m) (h.handed m)
          (laws.unsubscribe_others n m h.tx other) (fair.follows m c running);
  }

  send-IsFair :
      (n : ℕ) (d : Delivery) (h : Hub b)
      → IsFair h
      → IsFair (record h { tx = b.send d h.tx; log = h.log ++ (n, d) ∷ [] })
  send-IsFair n d h fair = record {
    large = omega (arith, fair.large, laws.send_capacity d h.tx);
    numbered = fair.numbered;
    follows = λ m c e.
        subst (λ (l : List Delivery). Follows b laws m (b.send d h.tx) l (h.joined m) (h.handed m))
          (sym (sent_of-append h.log n d))
          (Follows-send b laws m h.tx (sent_of h.log) (h.joined m) (h.handed m) d fair.large
            (fair.follows m c e));
  }

  send_all-IsFair : (n : ℕ) (ds : List Delivery) (h : Hub b) → IsFair h → IsFair (send_all b n ds h)
  send_all-IsFair n [] h fair = fair
  send_all-IsFair n (d ∷ ds) h fair = send_all-IsFair n ds _ (send-IsFair n d h fair)

  -- Another state of a connection that runs.
  was_running :
      (h : Hub b) (n m : ℕ) (c c' x : Connection)
      → h.clients n ≡ some c
      → at n (some c') h.clients m ≡ some x
      → (y : Connection) × (h.clients m ≡ some y)
  was_running h n m c c' x running e = elim (same_or_other n m) [
    | inl same ↦ (c, ap h.clients (sym same) ∙ running)
    | inr other ↦ (x, sym (at_other n m (some c') h.clients other) ∙ e)
  ]

  settle-IsFair :
      (n : ℕ) (c : Connection) (outcome : Result IoError (Option Connection)) (h : Hub b)
      → h.clients n ≡ some c
      → IsFair h
      → IsFair (settle b n (length c.sent) outcome h)
  settle-IsFair n c (err e) h running fair = ended-IsFair n h fair
  settle-IsFair n c (ok none) h running fair = ended-IsFair n h fair
  settle-IsFair n c (ok (some c')) h running fair =
      send_all-IsFair n (drop (length c.sent) c'.sent) _ (record {
        large = fair.large;
        numbered =
            λ m x e. let (y, was) = was_running h n m c c' x running e in fair.numbered m y was;
        follows =
            λ m x e. let (y, was) = was_running h n m c c' x running e in fair.follows m y was;
      })

  handle-IsFair :
      (n : ℕ) (o : Option Connection) (event : Event) (h : Hub b)
      → h.clients n ≡ o
      → IsFair h
      → IsFair (handle b n o event h)
  handle-IsFair n none event h running fair = fair
  handle-IsFair n (some c) event h running fair = settle-IsFair n c (step c event) h running fair

  -- Another receiver's `recv` leaves a connection as it was.
  other_received :
      (n m : ℕ) (x : Connection) (h : Hub b)
      → n ≢ m
      → h.clients m ≡ some x
      → IsFair h
      → Follows b laws m (b.recv n h.tx).1 (sent_of h.log) (h.joined m) (h.handed m)
  other_received n m x h other running fair =
      Follows-view b laws m h.tx (b.recv n h.tx).1 (sent_of h.log) (h.joined m) (h.handed m)
        (laws.recv_others n m h.tx other) (fair.follows m x running)

  noted-IsFair :
      (n : ℕ) (h : Hub b)
      → IsFair h
      → Follows b laws n
          (b.recv n h.tx).1
          (sent_of h.log)
          (h.joined n)
          (h.handed n ++ (b.recv n h.tx).0 ∷ [])
      → IsFair (note b n (b.recv n h.tx).0 (b.recv n h.tx).1 h)
  noted-IsFair n h fair own = record {
    large = omega (arith, fair.large, laws.recv_capacity n h.tx);
    numbered = fair.numbered;
    follows = λ m x e. elim (same_or_other n m) [
      | inl same ↦
          subst
            (λ k.
              Follows b laws k (b.recv n h.tx).1 (sent_of h.log) (h.joined k)
                (at n (h.handed n ++ (b.recv n h.tx).0 ∷ []) h.handed k))
            same
            (subst
              (λ (r : List Received).
                Follows b laws n (b.recv n h.tx).1 (sent_of h.log) (h.joined n) r)
              (sym (at_same n (h.handed n ++ (b.recv n h.tx).0 ∷ []) h.handed)) own)
      | inr other ↦
          subst
            (λ (r : List Received).
              Follows b laws m (b.recv n h.tx).1 (sent_of h.log) (h.joined m) r)
            (sym (at_other n m (h.handed n ++ (b.recv n h.tx).0 ∷ []) h.handed other))
            (other_received n m x h other e fair)
    ];
  }

  unready-IsFair :
      (n : ℕ) (h : Hub b)
      → IsFair h
      → Follows b laws n (b.recv n h.tx).1 (sent_of h.log) (h.joined n) (h.handed n)
      → IsFair (record h { tx = (b.recv n h.tx).1 })
  unready-IsFair n h fair own = record {
    large = omega (arith, fair.large, laws.recv_capacity n h.tx);
    numbered = fair.numbered;
    follows = λ m x e. elim (same_or_other n m) [
      | inl same ↦
          subst (λ k. Follows b laws k (b.recv n h.tx).1 (sent_of h.log) (h.joined k) (h.handed k))
            same own
      | inr other ↦ other_received n m x h other e fair
    ];
  }

  deliver-IsFair :
      (n taken : ℕ) (c : Connection) (result : Received) (tx : b.Channel) (h : Hub b)
      → h.clients n ≡ some c
      → (result ≢ pending → IsFair (note b n result tx h))
      → (result ≡ pending → IsFair (record h { tx = tx }))
      → IsFair (deliver b n c taken (result, tx) h)
  deliver-IsFair n taken c (value d) tx h running noted unready =
      handle-IsFair n (some c) (received d taken) (note b n (value d) tx h) running
        (noted (λ e. absurd (ground arith)))
  deliver-IsFair n taken c (dropped k) tx h running noted unready =
      handle-IsFair n (some c) (lagged taken) (note b n (dropped k) tx h) running
        (noted (λ e. absurd (ground arith)))
  deliver-IsFair n taken c pending tx h running noted unready = unready refl

  receive-IsFair :
      (n taken : ℕ) (o : Option Connection) (h : Hub b)
      → h.clients n ≡ o
      → IsFair h
      → IsFair (receive b n taken o h)
  receive-IsFair n taken none h running fair = fair
  receive-IsFair n taken (some c) h running fair =
      elim (Follows-recv b laws n h.tx (sent_of h.log) (h.joined n) (h.handed n)
        (fair.follows n c running)) [
          | inl (unready, own) ↦
              deliver-IsFair n taken c (b.recv n h.tx).0 (b.recv n h.tx).1 h running
                (λ ready. absurd (ready unready)) (λ _. unready-IsFair n h fair own)
          | inr (ready, own) ↦
              deliver-IsFair n taken c (b.recv n h.tx).0 (b.recv n h.tx).1 h running
                (λ _. noted-IsFair n h fair own) (λ unready. absurd (ready unready))
        ]

  pub hub_step-IsFair : (event : HubEvent) (h : Hub b) → IsFair h → IsFair (hub_step b event h)
  unfolding hub_step
  hub_step-IsFair (accepted input) h fair = accept-IsFair input h fair
  hub_step-IsFair (reads n) h fair = handle-IsFair n (h.clients n) readable h refl fair
  hub_step-IsFair (receives n taken) h fair = receive-IsFair n taken (h.clients n) h refl fair
