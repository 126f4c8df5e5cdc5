-- ===== src/Nats/Hub/Serving.antt =====
-- What each event does to the sessions that the connections carry out.
use mathlib.Core.Option.{some-injective}
use pg_ck.Prelude.{
  ℕ, ◌≡◌, ◌≢◌, ◌∙◌, refl, sym, ap, subst, inl, inr, List, [], ◌∷◌, ◌++◌, Option, none, some, drop,
  length, arith,
}
use pg_ck.Prelude.Result.{Result, ok, err}
use pg_ck.Text.Utf8.{Bytes}
use pg_ck.Nats.Server.{IoError, Connection, Delivery, readable, received, lagged, opened, step}
use pg_ck.Nats.Hub.{
  Received, value, dropped, pending, Broadcast, at, Hub, serve, accept, ended, send_all, settle,
  handle, note, deliver,
}
use pg_ck.Nats.Hub.Order.{at_same, at_other, same_or_other}
use pg_ck.Nats.Server.Plain.{IsPlainDelivery}
use pg_ck.Nats.Hub.Serves.{Serves, opened-Serves, readable-Serves, received-Serves, lagged-Serves}

module _ (b : Broadcast) where
  -- Every connection that runs carries out a session in which it hears what it was handed.
  abbrev pub IsServing : Hub b → Type 0
  IsServing h = (n : ℕ) (c : Connection) → h.clients n ≡ some c → Serves c (h.handed n)

  pub serve-IsServing : IsServing (serve b)
  unfolding serve
  serve-IsServing n c e = absurd (ground arith)

  pub accept-IsServing : (input : Bytes) (h : Hub b) → IsServing h → IsServing (accept b input h)
  accept-IsServing input h s n c e = elim (same_or_other h.count n) [
    | inl same ↦
        subst (λ k. Serves c (at h.count [] h.handed k)) same
          (subst (Serves c) (sym (at_same h.count [] h.handed)) (
            subst (λ x. Serves x [])
              (some-injective (opened input) c (
                sym (at_same h.count (some (opened input)) h.clients)
                ∙ ap (at h.count (some (opened input)) h.clients) same
                ∙ e))
              (opened-Serves input)))
    | inr other ↦
        subst (Serves c) (sym (at_other h.count n [] h.handed other))
          (s n c (sym (at_other h.count n (some (opened input)) h.clients other) ∙ e))
  ]

  send_all-IsServing :
      (n : ℕ) (ds : List Delivery) (h : Hub b) → IsServing h → IsServing (send_all b n ds h)
  send_all-IsServing n [] h s = s
  send_all-IsServing n (d ∷ ds) h s = send_all-IsServing n ds _ s

  -- All connections but one.
  abbrev Others : ℕ → Hub b → Type 0
  Others n h = (m : ℕ) (x : Connection) → n ≢ m → h.clients m ≡ some x → Serves x (h.handed m)

  ended-IsServing : (n : ℕ) (h : Hub b) → Others n h → IsServing (ended b n h)
  ended-IsServing n h others m x e = elim (same_or_other n m) [
    | inl same ↦ absurd (cc (e, same, at_same n none h.clients))
    | inr other ↦ others m x other (sym (at_other n m none h.clients other) ∙ e)
  ]

  settle-IsServing :
      (n already : ℕ) (outcome : Result IoError (Option Connection)) (h : Hub b)
      → ((c' : Connection) → outcome ≡ ok (some c') → Serves c' (h.handed n))
      → Others n h
      → IsServing (settle b n already outcome h)
  settle-IsServing n already (err why) h own others = ended-IsServing n h others
  settle-IsServing n already (ok none) h own others = ended-IsServing n h others
  settle-IsServing n already (ok (some c')) h own others =
      send_all-IsServing n (drop already c'.sent) (record h { clients = at n (some c') h.clients })
        λ m x e. elim (same_or_other n m) [
          | inl same ↦
              subst (λ k. Serves x (h.handed k)) same
                (subst (λ y. Serves y (h.handed n))
                  (some-injective c' x
                    (sym (at_same n (some c') h.clients) ∙ ap (at n (some c') h.clients) same ∙ e))
                  (own c' refl))
          | inr other ↦ others m x other (sym (at_other n m (some c') h.clients other) ∙ e)
        ]

  pub reads-IsServing :
      (n : ℕ) (o : Option Connection) (h : Hub b)
      → h.clients n ≡ o
      → IsServing h
      → IsServing (handle b n o readable h)
  reads-IsServing n none h running s = s
  reads-IsServing n (some c) h running s =
      settle-IsServing n (length c.sent) (step c readable) h
        (λ c' e. readable-Serves c c' (h.handed n) e (s n c running)) (λ m x _. s m x)

  -- The other connections do not see the note.
  note-Others :
      (n : ℕ) (got : Received) (tx : b.Channel) (h : Hub b)
      → IsServing h
      → Others n (note b n got tx h)
  note-Others n got tx h s m x other e =
      subst (Serves x) (sym (at_other n m (h.handed n ++ got ∷ []) h.handed other)) (s m x e)

  pub deliver-IsServing :
      (n taken : ℕ) (c : Connection) (result : Received) (tx : b.Channel) (h : Hub b)
      → h.clients n ≡ some c
      → ((d : Delivery) → result ≡ value d → IsPlainDelivery d)
      → IsServing h
      → IsServing (deliver b n c taken (result, tx) h)
  deliver-IsServing n taken c (value d) tx h running plain s =
      settle-IsServing n (length c.sent) (step c (received d taken)) (note b n (value d) tx h)
        (λ c' e.
          subst (Serves c') (sym (at_same n (h.handed n ++ value d ∷ []) h.handed))
            (received-Serves c c' (h.handed n) d taken (plain d refl) e (s n c running)))
        (note-Others n (value d) tx h s)
  deliver-IsServing n taken c (dropped k) tx h running plain s =
      settle-IsServing n (length c.sent) (step c (lagged taken)) (note b n (dropped k) tx h)
        (λ c' e.
          subst (Serves c') (sym (at_same n (h.handed n ++ dropped k ∷ []) h.handed))
            (lagged-Serves c c' (h.handed n) k taken e (s n c running)))
        (note-Others n (dropped k) tx h s)
  deliver-IsServing n taken c pending tx h running plain s = s
