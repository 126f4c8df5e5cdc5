-- ===== src/Threads/Queued.antt =====
-- From what is published on the broker to the relay's queue.
use mathlib.Core.List.Perm
use mathlib.Core.List.{Perm, perm_middle}
use pg_ck.Prelude.{
  ◌≤◌, ◌≡◌, ◌∙◌, refl, sym, inl, inr, Bool, true, List, [], ◌∷◌, ◌++◌, Option, none, some,
  Option-cases, Bool-cases, append_assoc, filter, take, All, subst, arith,
}
use pg_ck.Text.{Text}
use pg_ck.Nats.Router.{matches}
use pg_ck.Relay.{RoutedInbound, route_inbound, relay_in_subject, relay_id_subject}
use pg_ck.Relay.Subscribed.{routable, IsFilled, deliveries-routable}
use pg_ck.Inbound.{InboundAction, action_for, relay_message, max_queue}
use pg_ck.Inbound.Queue.{enqueue_all, enqueue_all-take}
use pg_ck.Threads.{Message, Request, CalloutContext, relay_loop, run_relay_thread}
use pg_ck.Libraries.{Codec, Ed25519, Nkeys, Digests}

-- The action of a message, if its subject routes.
abbrev pub actions_at : Option RoutedInbound → Message → List InboundAction
actions_at none m = []
actions_at (some routed) m = action_for routed m.payload m.headers ∷ []

abbrev actions_in : Message → List InboundAction
actions_in m = actions_at (route_inbound m.subject) m

-- The actions of messages, in turn.
abbrev pub actions_of : List Message → List InboundAction
actions_of [] = []
actions_of (m ∷ messages) = actions_in m ++ actions_of messages

-- What a subscription yields of the messages that are published.
abbrev pub heard : Text → List Message → List Message
heard pattern published = filter (λ m. matches pattern m.subject) published

-- Two streams as one, which keeps the order of each and nothing else.
pub data Interleaved : List Message → List Message → List Message → Type 0 where
  both_end : Interleaved [] [] []
  from_left :
      (m : Message) {left right selected : List Message}
      → Interleaved left right selected
      → Interleaved (m ∷ left) right (m ∷ selected)
  from_right :
      (m : Message) {left right selected : List Message}
      → Interleaved left right selected
      → Interleaved left (m ∷ right) (m ∷ selected)

insert_middle :
    (added left right : List InboundAction) {all : List InboundAction}
    → Perm all (left ++ right)
    → Perm (added ++ all) (left ++ (added ++ right))
insert_middle [] left right p = p
insert_middle (a ∷ added) left right p =
    Perm.trans (Perm.cons a (insert_middle added left right p))
      (Perm.symm (perm_middle left (added ++ right)))

interleaved-Perm :
    {left right selected : List Message}
    → Interleaved left right selected
    → Perm (actions_of selected) (actions_of left ++ actions_of right)
interleaved-Perm both_end = Perm.nil
interleaved-Perm (from_left m {left} {right} {selected} i) =
    subst (Perm (actions_in m ++ actions_of selected))
      (sym (append_assoc (actions_in m) (actions_of left) (actions_of right)))
      (Perm.append_left (actions_in m) (interleaved-Perm i))
interleaved-Perm (from_right m {left} {right} {selected} i) =
    insert_middle (actions_in m) (actions_of left) (actions_of right) (interleaved-Perm i)

unroutable : (o : Option RoutedInbound) (m : Message) → routable o ≡ 0 → actions_at o m ≡ []
unroutable none m h = refl
unroutable (some r) m h = absurd (omega arith)

routable-le-one : (o : Option RoutedInbound) → routable o ≤ 1
routable-le-one none = omega arith
routable-le-one (some r) = omega arith

-- Each action of the published messages is heard by exactly one of the two subscriptions.
heard-Perm :
    (published : List Message)
    → All (λ m. IsFilled m.subject) published
    → Perm
        (actions_of (heard relay_in_subject published)
          ++ actions_of (heard relay_id_subject published))
        (actions_of published)
heard-Perm [] _ = Perm.nil
heard-Perm (m ∷ published) (filled, later) =
    let rest = heard-Perm published later in
    let once = deliveries-routable m.subject filled in
    elim (Bool-cases (matches relay_in_subject m.subject)) [
      | inl plain ↦ elim (Bool-cases (matches relay_id_subject m.subject)) [
        | inl scoped ↦
            let twice : 2 ≡ routable (route_inbound m.subject) = rw (plain, scoped) at once in
            absurd (omega (arith, routable-le-one (route_inbound m.subject)))
        | inr scoped ↦
            rw (plain, scoped)
              (subst (λ (l : List InboundAction). Perm l (actions_of (m ∷ published)))
                (sym (
                  append_assoc (actions_in m) (actions_of (heard relay_in_subject published))
                    (actions_of (heard relay_id_subject published))))
                (Perm.append_left (actions_in m) rest))
      ]
      | inr plain ↦ elim (Bool-cases (matches relay_id_subject m.subject)) [
        | inl scoped ↦
            rw (plain, scoped)
              (Perm.symm (
                insert_middle (actions_in m) (actions_of (heard relay_in_subject published))
                  (actions_of (heard relay_id_subject published)) (Perm.symm rest)))
        | inr scoped ↦
            let never : 0 ≡ routable (route_inbound m.subject) = rw (plain, scoped) at once in
            rw (plain, scoped, unroutable (route_inbound m.subject) m (sym never)) rest
      ]
    ]

enqueue_routed-actions :
    (m : Message) (messages : List Message) (q : List InboundAction)
    → enqueue_all (relay_message m.subject m.payload m.headers q) (actions_of messages)
      ≡ enqueue_all q (actions_of (m ∷ messages))
unfolding relay_message
enqueue_routed-actions m messages q = elim (Option-cases (route_inbound m.subject)) [
  | inl lost ↦ rw lost refl
  | inr (routed, routes) ↦ rw routes refl
]

pub relay_loop-enqueue_all :
    (messages : List Message) (q : List InboundAction)
    → relay_loop messages q ≡ enqueue_all q (actions_of messages)
unfolding relay_loop
relay_loop-enqueue_all [] q = refl
relay_loop-enqueue_all (m ∷ messages) q =
    relay_loop-enqueue_all messages (relay_message m.subject m.payload m.headers q)
    ∙ enqueue_routed-actions m messages q

module _ (codec : Codec) (ed : Ed25519) (nkeys : Nkeys) (digests : Digests) (takes : Text → Bool)
    (callout : Option (CalloutContext codec ed nkeys digests)) (requests : List Request) where
  -- If the broker takes both of the relay's subscriptions and hands each the published messages that
  -- match it, in any interleaving, and no published subject has an empty token, then the relay's queue
  -- holds the first 1000 of the actions it has been handed, in order; and these are, up to their order,
  -- exactly the actions of the published messages whose subjects route, each once.
  pub run_relay_thread-Perm :
      (published selected : List Message)
      → takes relay_in_subject ≡ true
      → takes relay_id_subject ≡ true
      → All (λ m. IsFilled m.subject) published
      → Interleaved (heard relay_in_subject published) (heard relay_id_subject published) selected
      → ((run_relay_thread codec ed nkeys digests takes callout requests selected []).1
          ≡ take max_queue (actions_of selected))
        × Perm (actions_of selected) (actions_of published)
  unfolding run_relay_thread
  run_relay_thread-Perm published selected plain scoped filled interleaved = (
    rw (plain, scoped)
        (relay_loop-enqueue_all selected []
          ∙ enqueue_all-take [] (actions_of selected) (omega arith)),
    Perm.trans (interleaved-Perm interleaved) (heard-Perm published filled),
  )
