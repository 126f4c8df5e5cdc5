-- ===== src/Nats/Hub/Sources.antt =====
-- What reaches the channel is what the connections publish.
use mathlib.Core.Option.{some-injective}
use pg_ck.Prelude.{
  ℕ, ◌≤◌, ◌<◌, ◌≡◌, ◌≢◌, ◌∙◌, refl, sym, ap, subst, inl, inr, List, [], ◌∷◌, ◌++◌, Option, none,
  some, ◌==◌, ==_iff, if◌then◌else◌, Bool-cases, length, drop, drop-append, append-nil,
  append_assoc, arith,
}
use pg_ck.Prelude.Result.{Result, ok, err, >>=-eq-ok, ok_injective}
use pg_ck.Text.Utf8.{Bytes}
use pg_ck.Nats.Parser.{ClientMsg, connect, ping, pong, sub, unsub, publish}
use pg_ck.Nats.Server.{
  IoError, Connection, Delivery, Event, readable, received, lagged, closed, opened, on_message,
  on_delivery, after_read, read_client_message, step,
}
use pg_ck.Nats.Hub.{
  Received, value, dropped, pending, Broadcast, BroadcastLaws, at, HubEvent, accepted, reads,
  receives, Hub, serve, accept, ended, send_all, settle, handle, note, deliver, receive, hub_step,
  run,
}
use pg_ck.Nats.Hub.Order.{at_same, at_other, same_or_other}
use pg_ck.Nats.Hub.Fair.{IsFair, serve-IsFair, hub_step-IsFair}

-- What one connection has put on the channel.
abbrev pub from : ℕ → List (ℕ × Delivery) → List Delivery
from n [] = []
from n ((m, d) ∷ log) = let rest = from n log in if m == n then d ∷ rest else rest

from_own :
    (n : ℕ) (log : List (ℕ × Delivery)) (d : Delivery)
    → from n (log ++ (n, d) ∷ []) ≡ from n log ++ d ∷ []
from_own n [] d = rw ((==_iff n n).1 refl) refl
from_own n ((m, x) ∷ log) d = elim (Bool-cases (m == n)) [
  | inl e ↦ rw (e, from_own n log d) refl
  | inr e ↦ rw (e, from_own n log d) refl
]

from_other :
    (n m : ℕ) (log : List (ℕ × Delivery)) (d : Delivery)
    → n ≢ m
    → from m (log ++ (n, d) ∷ []) ≡ from m log
from_other n m [] d h = elim (Bool-cases (n == m)) [
  | inl e ↦ absurd (h ((==_iff n m).0 e))
  | inr e ↦ rw e refl
]
from_other n m ((k, x) ∷ log) d h = elim (Bool-cases (k == m)) [
  | inl e ↦ rw (e, from_other n m log d h) refl
  | inr e ↦ rw (e, from_other n m log d h) refl
]

-- A connection's list of what it has sent only grows.
Grows : Connection → Connection → Type 0
Grows c c' = (more : List Delivery) × (c'.sent ≡ c.sent ++ more)

on_message-Grows : (c : Connection) (m : ClientMsg) (rest : Bytes) → Grows c (on_message c m rest)
unfolding Grows on_message
on_message-Grows c (connect options) rest = ([], sym (append-nil c.sent))
on_message-Grows c ping rest = ([], sym (append-nil c.sent))
on_message-Grows c pong rest = ([], sym (append-nil c.sent))
on_message-Grows c (sub subject queue sid) rest = ([], sym (append-nil c.sent))
on_message-Grows c (unsub sid max) rest = ([], sym (append-nil c.sent))
on_message-Grows c (publish subject reply n payload) rest = (_, refl)

Grows-to : (c d e : Connection) → Grows c d → d ≡ e → Grows c e
Grows-to c d e g same = subst (λ x. Grows c x) same g

after_read-Grows :
    (c c' : Connection) (read : Option (ClientMsg × Bytes))
    → after_read c read ≡ some c'
    → Grows c c'
after_read-Grows c c' none e = absurd (cc)
after_read-Grows c c' (some (m, rest)) e =
    Grows-to c _ c' (on_message-Grows c m rest) (some-injective _ _ e)

step-Grows : (c c' : Connection) (event : Event) → step c event ≡ ok (some c') → Grows c c'
unfolding step Grows on_delivery
step-Grows c c' readable e =
    let (read, _, after) = >>=-eq-ok (read_client_message c.input) (λ r. ok (after_read c r)) e in
    after_read-Grows c c' read (ok_injective after)
step-Grows c c' (received d taken) e =
    Grows-to c _ c' ([], sym (append-nil c.sent)) (some-injective _ _ (ok_injective e))
step-Grows c c' (lagged taken) e =
    Grows-to c _ c' ([], sym (append-nil c.sent)) (some-injective _ _ (ok_injective e))
step-Grows c c' (closed taken) e = absurd (cc)

module _ (b : Broadcast) where
  -- The log holds what each running connection has sent, in its order, and nothing of a connection
  -- that was never accepted.
  pub record IsSourced (h : Hub b) : Type 0 where
    pub published : (n : ℕ) (c : Connection) → h.clients n ≡ some c → from n h.log ≡ c.sent
    pub unaccepted : (n : ℕ) → h.count ≤ n → from n h.log ≡ []

  serve-IsSourced : IsSourced (serve b)
  unfolding serve
  serve-IsSourced = record { published = λ n c e. absurd (ground arith); unaccepted = λ n h. refl }

  accept-IsSourced : (input : Bytes) (h : Hub b) → IsSourced h → IsSourced (accept b input h)
  unfolding opened
  accept-IsSourced input h s = record {
    published = λ n c e. elim (same_or_other h.count n) [
      | inl same ↦
          let fresh : some (opened input) ≡ some c =
            sym (at_same h.count (some (opened input)) h.clients)
            ∙ ap (at h.count (some (opened input)) h.clients) same
            ∙ e in
          s.unaccepted n (omega arith)
          ∙ ap (λ (x : Connection). x.sent) (some-injective (opened input) c fresh)
      | inr other ↦
          s.published n c (sym (at_other h.count n (some (opened input)) h.clients other) ∙ e)
    ];
    unaccepted = λ n late. s.unaccepted n (omega arith);
  }

  ended-IsSourced : (n : ℕ) (h : Hub b) → IsSourced h → IsSourced (ended b n h)
  ended-IsSourced n h s = record {
    published = λ m c e. elim (same_or_other n m) [
      | inl same ↦ absurd (cc (e, same, at_same n none h.clients))
      | inr other ↦ s.published m c (sym (at_other n m none h.clients other) ∙ e)
    ];
    unaccepted = s.unaccepted;
  }

  -- While `n` has sent all but these.
  record IsBehind (n : ℕ) (c : Connection) (rest : List Delivery) (h : Hub b) : Type 0 where
    running : h.clients n ≡ some c
    numbered : n < h.count
    own : from n h.log ++ rest ≡ c.sent
    published : (m : ℕ) (x : Connection) → n ≢ m → h.clients m ≡ some x → from m h.log ≡ x.sent
    unaccepted : (m : ℕ) → h.count ≤ m → from m h.log ≡ []

  send_all-IsSourced :
      (n : ℕ) (c : Connection) (ds : List Delivery) (h : Hub b)
      → IsBehind n c ds h
      → IsSourced (send_all b n ds h)
  send_all-IsSourced n c [] h s = record {
    published = λ m x e. elim (same_or_other n m) [
      | inl same ↦
          let is_c : c ≡ x = some-injective c x (sym s.running ∙ ap h.clients same ∙ e) in
          ap (λ k. from k h.log) (sym same)
          ∙ sym (append-nil (from n h.log))
          ∙ s.own
          ∙ ap (λ (y : Connection). y.sent) is_c
      | inr other ↦ s.published m x other e
    ];
    unaccepted = s.unaccepted;
  }
  send_all-IsSourced n c (d ∷ ds) h s = send_all-IsSourced n c ds _ (record {
    running = s.running;
    numbered = s.numbered;
    own =
        ap (λ (l : List Delivery). l ++ ds) (from_own n h.log d)
        ∙ append_assoc (from n h.log) (d ∷ []) ds
        ∙ s.own;
    published = λ m x other e. from_other n m h.log d other ∙ s.published m x other e;
    unaccepted = λ m late.
        from_other n m h.log d (λ same. absurd (omega (arith, s.numbered))) ∙ s.unaccepted m late;
  })

  settle-IsSourced :
      (n : ℕ) (c : Connection) (outcome : Result IoError (Option Connection)) (h : Hub b)
      → ((c' : Connection) → outcome ≡ ok (some c') → Grows c c')
      → h.clients n ≡ some c
      → n < h.count
      → IsSourced h
      → IsSourced (settle b n (length c.sent) outcome h)
  settle-IsSourced n c (err e) h grows running numbered s = ended-IsSourced n h s
  settle-IsSourced n c (ok none) h grows running numbered s = ended-IsSourced n h s
  settle-IsSourced n c (ok (some c')) h grows running numbered s =
      unfold Grows in
      let (more, grown) = grows c' refl in
      send_all-IsSourced n c' (drop (length c.sent) c'.sent) _ (record {
        running = at_same n (some c') h.clients;
        numbered = numbered;
        own =
            ap (λ (l : List Delivery). l ++ drop (length c.sent) c'.sent) (s.published n c running)
            ∙ ap (λ (l : List Delivery). c.sent ++ l)
                (ap (λ (l : List Delivery). drop (length c.sent) l) grown ∙ drop-append c.sent more)
            ∙ sym grown;
        published =
            λ m x other e. s.published m x (sym (at_other n m (some c') h.clients other) ∙ e);
        unaccepted = s.unaccepted;
      })

  handle-IsSourced :
      (n : ℕ) (o : Option Connection) (event : Event) (h : Hub b)
      → h.clients n ≡ o
      → ((c : Connection) → h.clients n ≡ some c → n < h.count)
      → IsSourced h
      → IsSourced (handle b n o event h)
  handle-IsSourced n none event h running numbered s = s
  handle-IsSourced n (some c) event h running numbered s =
      settle-IsSourced n c (step c event) h (λ c'. step-Grows c c' event) running
        (numbered c running) s

  noted-IsSourced :
      (n : ℕ) (got : Received) (tx : b.Channel) (h : Hub b)
      → IsSourced h
      → IsSourced (note b n got tx h)
  noted-IsSourced n got tx h s = record { published = s.published; unaccepted = s.unaccepted }

  deliver-IsSourced :
      (n taken : ℕ) (c : Connection) (result : Received) (tx : b.Channel) (h : Hub b)
      → h.clients n ≡ some c
      → ((c : Connection) → h.clients n ≡ some c → n < h.count)
      → IsSourced h
      → IsSourced (deliver b n c taken (result, tx) h)
  deliver-IsSourced n taken c (value d) tx h running numbered s =
      handle-IsSourced n (some c) (received d taken) (note b n (value d) tx h) running numbered
        (noted-IsSourced n (value d) tx h s)
  deliver-IsSourced n taken c (dropped k) tx h running numbered s =
      handle-IsSourced n (some c) (lagged taken) (note b n (dropped k) tx h) running numbered
        (noted-IsSourced n (dropped k) tx h s)
  deliver-IsSourced n taken c pending tx h running numbered s = record {
    published = s.published;
    unaccepted = s.unaccepted;
  }

  receive-IsSourced :
      (n taken : ℕ) (o : Option Connection) (h : Hub b)
      → h.clients n ≡ o
      → ((c : Connection) → h.clients n ≡ some c → n < h.count)
      → IsSourced h
      → IsSourced (receive b n taken o h)
  receive-IsSourced n taken none h running numbered s = s
  receive-IsSourced n taken (some c) h running numbered s =
      deliver-IsSourced n taken c (b.recv n h.tx).0 (b.recv n h.tx).1 h running numbered s

  module _ (laws : BroadcastLaws b) where
    hub_step-IsSourced :
        (event : HubEvent) (h : Hub b)
        → IsFair b laws h
        → IsSourced h
        → IsSourced (hub_step b event h)
    unfolding hub_step
    hub_step-IsSourced (accepted input) h fair s = accept-IsSourced input h s
    hub_step-IsSourced (reads n) h fair s =
        handle-IsSourced n (h.clients n) readable h refl (fair.numbered n) s
    hub_step-IsSourced (receives n taken) h fair s =
        receive-IsSourced n taken (h.clients n) h refl (fair.numbered n) s

    run_keeps :
        (events : List HubEvent) (h : Hub b)
        → IsFair b laws h
        → IsSourced h
        → IsFair b laws (run b events h) × IsSourced (run b events h)
    unfolding run
    run_keeps [] h fair s = (fair, s)
    run_keeps (event ∷ events) h fair s =
        run_keeps events (hub_step b event h) (hub_step-IsFair b laws event h fair)
          (hub_step-IsSourced event h fair s)

    -- Whatever connections are accepted, whatever they send and in whatever order their tasks run: the
    -- channel has been sent exactly what each running connection has published, in its order; and for
    -- each connection that runs, the deliveries sent since it was accepted are, in the order in which
    -- they were sent, those that its loop was handed or told to have missed, then those dropped since
    -- it was last told, then those that wait for it, where some are dropped only while 1024 or more
    -- wait.
    pub run-IsFair-IsSourced :
        (events : List HubEvent)
        → IsFair b laws (run b events (serve b)) × IsSourced (run b events (serve b))
    run-IsFair-IsSourced events = run_keeps events (serve b) (serve-IsFair b laws) serve-IsSourced
