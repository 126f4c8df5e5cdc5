-- ===== src/Nats/Hub/Order.antt =====
-- Every connection is handed what is sent, in the order in which it is sent.
use pg_ck.Prelude.{
  ℕ, ◌≤◌, ◌<◌, ◌≡◌, ◌≢◌, ◌⊎◌, ◌∙◌, refl, sym, ap, subst, inl, inr, List, [], ◌∷◌, ◌++◌, some, ◌==◌,
  ==_iff, Bool-cases, length, append_assoc, append-nil, length-append, arith,
}
use pg_ck.Nats.Server.{Delivery}
use pg_ck.Nats.Hub.{
  Received, value, dropped, pending, Broadcast, BroadcastLaws, broadcast_capacity, at,
}

-- The results of `recv` tell of these deliveries in their order: each is handed over, or counted among
-- those that were dropped.
pub data Accounts : List Received → List Delivery → Type 0 where
  untold : Accounts [] []
  got :
      (d : Delivery) {results : List Received} {heard : List Delivery}
      → Accounts results heard
      → Accounts (results ++ value d ∷ []) (heard ++ d ∷ [])
  lost :
      (gone : List Delivery) {results : List Received} {heard : List Delivery}
      → Accounts results heard
      → Accounts (results ++ dropped (length gone) ∷ []) (heard ++ gone)

pub at_same {ℓ} : {A : Type ℓ} (n : ℕ) (v : A) (f : ℕ → A) → at n v f n ≡ v
at_same n v f = rw ((==_iff n n).1 refl) refl

pub at_other {ℓ} : {A : Type ℓ} (n m : ℕ) (v : A) (f : ℕ → A) → n ≢ m → at n v f m ≡ f m
at_other n m v f h = elim (Bool-cases (n == m)) [
  | inl e ↦ absurd (h ((==_iff n m).0 e))
  | inr e ↦ rw e refl
]

pub same_or_other : (n m : ℕ) → (n ≡ m) ⊎ (n ≢ m)
same_or_other n m = elim (Bool-cases (n == m)) [
  | inl e ↦ inl ((==_iff n m).0 e)
  | inr e ↦ inr (λ same. absurd (cc ((==_iff n m).1 same, e)))
]

module _ (b : Broadcast) (laws : BroadcastLaws b) where
  open laws use {capacity, view}

  -- What was sent since receiver `n` subscribed is what its results tell of, then what was dropped
  -- since the last of them, then what waits for it; and it loses only what is 1024 or more values
  -- behind.
  pub record Follows (n : ℕ) (tx : b.Channel) (log joined : List Delivery) (results : List Received)
      : Type 0 where
    pub heard : List Delivery
    pub gone : List Delivery
    pub waiting : List Delivery
    pub all : log ≡ joined ++ (heard ++ (gone ++ waiting))
    pub told : Accounts results heard
    pub backlog : view n tx ≡ some (length gone, waiting)
    pub full : (gone ≡ []) ⊎ (broadcast_capacity ≤ length waiting)

  pub Follows-start :
      (n : ℕ) (tx : b.Channel) (log : List Delivery) → Follows n (b.subscribe n tx) log log []
  Follows-start n tx log = record {
    heard = [];
    gone = [];
    waiting = [];
    all = sym (append-nil log);
    told = untold;
    backlog = laws.subscribed n tx;
    full = inl refl;
  }

  pub Follows-view :
      (n : ℕ) (tx tx' : b.Channel) (log joined : List Delivery) (results : List Received)
      → view n tx' ≡ view n tx
      → Follows n tx log joined results
      → Follows n tx' log joined results
  Follows-view n tx tx' log joined results same f = record {
    heard = f.heard;
    gone = f.gone;
    waiting = f.waiting;
    all = f.all;
    told = f.told;
    backlog = same ∙ f.backlog;
    full = f.full;
  }

  regroup :
      (joined heard gone waiting : List Delivery) (d : Delivery) {log : List Delivery}
      → log ≡ joined ++ (heard ++ (gone ++ waiting))
      → log ++ d ∷ [] ≡ joined ++ (heard ++ (gone ++ (waiting ++ d ∷ [])))
  regroup joined heard gone waiting d all =
      ap (λ (l : List Delivery). l ++ d ∷ []) all
      ∙ append_assoc joined (heard ++ (gone ++ waiting)) (d ∷ [])
      ∙ ap (λ (l : List Delivery). joined ++ l)
          (append_assoc heard (gone ++ waiting) (d ∷ [])
            ∙ ap (λ (l : List Delivery). heard ++ l) (append_assoc gone waiting (d ∷ [])))

  -- The oldest of those that wait is dropped.
  drop_oldest :
      (n : ℕ) (tx : b.Channel) (log joined : List Delivery) (results : List Received) (d : Delivery)
      (f : Follows n tx log joined results) (waiting : List Delivery)
      → f.waiting ≡ waiting
      → broadcast_capacity ≤ capacity tx
      → capacity tx ≤ length waiting
      → Follows n (b.send d tx) (log ++ d ∷ []) joined results
  drop_oldest n tx log joined results d f [] same large behind = absurd (omega arith)
  drop_oldest n tx log joined results d f (oldest ∷ waiting) same large behind = record {
    heard = f.heard;
    gone = f.gone ++ oldest ∷ [];
    waiting = waiting ++ d ∷ [];
    all =
        regroup joined f.heard f.gone f.waiting d f.all
        ∙ ap (λ (l : List Delivery). joined ++ (f.heard ++ l))
            (ap (λ (w : List Delivery). f.gone ++ (w ++ d ∷ [])) same
              ∙ sym (append_assoc f.gone (oldest ∷ []) (waiting ++ d ∷ [])));
    told = f.told;
    backlog =
        laws.send_full d oldest n tx (length f.gone) waiting
          (f.backlog ∙ ap (λ (w : List Delivery). some (length f.gone, w)) same) behind
        ∙ ap (λ k. some (k, waiting ++ d ∷ [])) (sym (length-append f.gone (oldest ∷ [])));
    full = inr (omega (arith, length-append waiting (d ∷ [])));
  }

  pub Follows-send :
      (n : ℕ) (tx : b.Channel) (log joined : List Delivery) (results : List Received) (d : Delivery)
      → broadcast_capacity ≤ capacity tx
      → Follows n tx log joined results
      → Follows n (b.send d tx) (log ++ d ∷ []) joined results
  Follows-send n tx log joined results d large f =
      elim (Nat_split (length f.waiting) (capacity tx)) [
        | inl room ↦ record {
          heard = f.heard;
          gone = f.gone;
          waiting = f.waiting ++ d ∷ [];
          all = regroup joined f.heard f.gone f.waiting d f.all;
          told = f.told;
          backlog = laws.send_room d n tx (length f.gone) f.waiting f.backlog room;
          full = still_full f.full;
        }
        | inr behind ↦ drop_oldest n tx log joined results d f f.waiting refl large behind
      ]
    where
      still_full :
          (f.gone ≡ []) ⊎ (broadcast_capacity ≤ length f.waiting)
          → (f.gone ≡ []) ⊎ (broadcast_capacity ≤ length (f.waiting ++ d ∷ []))
      still_full (inl none_gone) = inl none_gone
      still_full (inr far) = inr (omega (arith, length-append f.waiting (d ∷ [])))

      Nat_split : (x y : ℕ) → (x < y) ⊎ (y ≤ x)
      Nat_split x y = ground arith

  -- After `recv` was ready the result is noted; otherwise nothing has changed.
  abbrev pub Noted : ℕ → b.Channel → List Delivery → List Delivery → List Received → Type 0
  Noted n tx log joined results =
      (((b.recv n tx).0 ≡ pending) × Follows n (b.recv n tx).1 log joined results)
      ⊎ (((b.recv n tx).0 ≢ pending)
          × Follows n (b.recv n tx).1 log joined (results ++ (b.recv n tx).0 ∷ []))

  Noted-value :
      (n : ℕ) (tx : b.Channel) (log joined : List Delivery) (results : List Received)
      (heard waiting : List Delivery)
      → log ≡ joined ++ (heard ++ waiting)
      → Accounts results heard
      → view n tx ≡ some (0, waiting)
      → Noted n tx log joined results
  Noted-value n tx log joined results heard [] all told backlog =
      let (got_none, after) = laws.recv_pending n tx backlog in
      inl (
        got_none,
        record {
          heard = heard;
          gone = [];
          waiting = [];
          all = all;
          told = told;
          backlog = after;
          full = inl refl;
        },
      )
  Noted-value n tx log joined results heard (d ∷ waiting) all told backlog =
      let (got_one, after) = laws.recv_value d n tx waiting backlog in
      inr (
        (λ e. absurd (ground (arith, got_one, e))),
        record {
          heard = heard ++ d ∷ [];
          gone = [];
          waiting = waiting;
          all =
              all
              ∙ ap (λ (l : List Delivery). joined ++ l) (sym (append_assoc heard (d ∷ []) waiting));
          told =
              subst (λ (r : Received). Accounts (results ++ r ∷ []) (heard ++ d ∷ [])) (sym got_one)
                (got d told);
          backlog = after;
          full = inl refl;
        },
      )

  Noted-by :
      (n : ℕ) (tx : b.Channel) (log joined : List Delivery) (results : List Received)
      (heard gone waiting : List Delivery)
      → log ≡ joined ++ (heard ++ (gone ++ waiting))
      → Accounts results heard
      → view n tx ≡ some (length gone, waiting)
      → Noted n tx log joined results
  Noted-by n tx log joined results heard [] waiting all told backlog =
      Noted-value n tx log joined results heard waiting all told backlog
  Noted-by n tx log joined results heard (g ∷ gone) waiting all told backlog =
      let (got_count, after) = laws.recv_dropped n tx (length gone) waiting backlog in
      inr (
        (λ e. absurd (ground (arith, got_count, e))),
        record {
          heard = heard ++ g ∷ gone;
          gone = [];
          waiting = waiting;
          all =
              all
              ∙ ap (λ (l : List Delivery). joined ++ l)
                  (sym (append_assoc heard (g ∷ gone) waiting));
          told =
              subst (λ (r : Received). Accounts (results ++ r ∷ []) (heard ++ g ∷ gone))
                (sym got_count) (lost (g ∷ gone) told);
          backlog = after;
          full = inl refl;
        },
      )

  pub Follows-recv :
      (n : ℕ) (tx : b.Channel) (log joined : List Delivery) (results : List Received)
      → Follows n tx log joined results
      → Noted n tx log joined results
  Follows-recv n tx log joined results f =
      Noted-by n tx log joined results f.heard f.gone f.waiting f.all f.told f.backlog
