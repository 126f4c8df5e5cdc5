-- ===== src/Nats/Server/Session/Refines.antt =====
-- The connections of src/nats/server.rs carry the sessions out.
use pg_ck.Prelude.{
  ◌≡◌, ◌∙◌, refl, sym, ap, List, [], ◌∷◌, ◌++◌, Option, none, some, if◌then◌else◌, All, map,
  append_assoc, append-nil, Bool-cases, inl, inr,
}
use pg_ck.Prelude.Result.{ok}
use pg_ck.Text.{Text, codes, text_eq}
use pg_ck.Text.Utf8.{Bytes}
use pg_ck.BTreeMap.{lookup, IsOrdered}
use pg_ck.BTreeMap.Laws.{lookup-insert, lookup-remove, lookup_below}
use pg_ck.Nats.Parser.{ClientMsg, connect, ping, pong, sub, unsub, publish}
use pg_ck.Nats.Router
use pg_ck.Nats.Router.{Router, matches, matching, matching_sids}
use pg_ck.Nats.Router.Laws.{IsValid, Has, matching_iff, add-IsValid, unsubscribe-IsValid}
use pg_ck.Nats.Server.{
  Connection, Delivery, readable, opened, info, on_message, on_delivery, write_msg, write_all, step,
  handle_client,
}
use pg_ck.Nats.Server.Framing.{frame, read_client_message-frame}
use pg_ck.Nats.Server.Session.{
  Notice, ponged, delivered, Session, Input, says, hears, begun, said, IsDistinct, IsAudience, Step,
  on_said, on_heard, Run, stop, more, stream, event, IsReady,
}

abbrev pub notice_bytes : Notice → Bytes
notice_bytes ponged = codes "PONG" ++ 13 ∷ 10 ∷ []
notice_bytes (delivered d sid) = write_msg d sid

abbrev pub render : List Notice → Bytes
render [] = []
render (n ∷ ns) = notice_bytes n ++ render ns

render-append : (ns ms : List Notice) → render (ns ++ ms) ≡ render ns ++ render ms
render-append [] ms = refl
render-append (n ∷ ns) ms =
    ap (λ (bs : Bytes). notice_bytes n ++ bs) (render-append ns ms)
    ∙ sym (append_assoc (notice_bytes n) (render ns) (render ms))

-- The connection stands for the session, with these bytes still to read.
pub record Refines (c : Connection) (s : Session) (rest : Bytes) : Type 0 where
  pub router : IsValid c.router
  pub subscribed : (sid : Text) → lookup sid c.router.subscriptions ≡ s.subscribed sid
  pub written : c.written ≡ info ++ render s.notices
  pub sent : c.sent ≡ s.published
  pub input : c.input ≡ rest

tell :
    (written : Bytes) (notices added : List Notice)
    → written ≡ info ++ render notices
    → written ++ render added ≡ info ++ render (notices ++ added)
tell written notices added h =
    ap (λ (bs : Bytes). bs ++ render added) h
    ∙ append_assoc info (render notices) (render added)
    ∙ ap (λ (bs : Bytes). info ++ bs) (sym (render-append notices added))

pub opened-Refines : (rest : Bytes) → Refines (opened rest) begun rest
unfolding opened Router.new lookup
opened-Refines rest = record {
  router = tt;
  subscribed = λ sid. refl;
  written = sym (append-nil info);
  sent = refl;
  input = refl;
}

pub on_message-Refines :
    (m : ClientMsg) (c : Connection) (s : Session) (before rest : Bytes)
    → Refines c s before
    → Refines (on_message c m rest) (said m s) rest
unfolding on_message
on_message-Refines (connect options) c s before rest h = record {
  router = h.router;
  subscribed = h.subscribed;
  written = h.written;
  sent = h.sent;
  input = refl;
}
on_message-Refines pong c s before rest h = record {
  router = h.router;
  subscribed = h.subscribed;
  written = h.written;
  sent = h.sent;
  input = refl;
}
on_message-Refines ping c s before rest h = record {
  router = h.router;
  subscribed = h.subscribed;
  written =
      append_assoc c.written (codes "PONG") (13 ∷ 10 ∷ [])
      ∙ tell c.written s.notices (ponged ∷ []) h.written;
  sent = h.sent;
  input = refl;
}
on_message-Refines (sub subject queue sid) c s before rest h = record {
  router = add-IsValid c.router sid subject h.router;
  subscribed = λ j.
      (unfold Router.add in lookup-insert sid j subject c.router.subscriptions)
      ∙ ap (λ (o : Option Text). if text_eq sid j then some subject else o) (h.subscribed j);
  written = h.written;
  sent = h.sent;
  input = refl;
}
on_message-Refines (unsub sid max) c s before rest h = record {
  router = unsubscribe-IsValid c.router sid h.router;
  subscribed = λ j.
      (unfold Router.unsubscribe in lookup-remove sid j c.router.subscriptions h.router)
      ∙ ap (λ (o : Option Text). if text_eq sid j then none else o) (h.subscribed j);
  written = h.written;
  sent = h.sent;
  input = refl;
}
on_message-Refines (publish subject reply n payload) c s before rest h = record {
  router = h.router;
  subscribed = h.subscribed;
  written = h.written;
  sent =
      ap
        (λ (ds : List Delivery).
          ds ++ record { subject = subject; reply = reply; payload = payload } ∷ [])
        h.sent;
  input = refl;
}

no_entry :
    (subject sid : Text) (m : List (Text × Text))
    → IsOrdered m
    → lookup sid m ≡ none
    → ¬ Has sid (matching_sids subject m)
unfolding matching
no_entry subject sid m ordered absent h =
    let (p, found, _) = (matching_iff (record { subscriptions = m }) sid subject ordered).0 h in
    absurd (cc (absent, found))

matching_sids-IsDistinct :
    (subject : Text) (m : List (Text × Text)) → IsOrdered m → IsDistinct (matching_sids subject m)
unfolding matching_sids
matching_sids-IsDistinct subject [] h = tt
matching_sids-IsDistinct subject ((sid, pattern) ∷ m) (below, h) =
    elim (Bool-cases (matches pattern subject)) [
      | inl hit ↦ rw hit (
        no_entry subject sid m h (lookup_below sid m below),
        matching_sids-IsDistinct subject m h,
      )
      | inr miss ↦ rw miss (matching_sids-IsDistinct subject m h)
    ]

pub matching-IsAudience :
    (c : Connection) (s : Session) (before : Bytes) (d : Delivery)
    → Refines c s before
    → IsAudience s d (matching c.router d.subject)
unfolding matching
matching-IsAudience c s before d h = record {
  hear = λ sid. (
    λ has.
        let (p, found, hit) = (matching_iff c.router sid d.subject h.router).0 has in
        (p, sym (h.subscribed sid) ∙ found, hit),
    λ (p, found, hit).
        (matching_iff c.router sid d.subject h.router).1 (p, h.subscribed sid ∙ found, hit),
  );
  once = matching_sids-IsDistinct d.subject c.router.subscriptions h.router;
}

write_all-render :
    (d : Delivery) (sids : List Text) (written : Bytes)
    → write_all d sids written ≡ written ++ render (map (delivered d) sids)
unfolding write_all
write_all-render d [] written = sym (append-nil written)
write_all-render d (sid ∷ sids) written =
    write_all-render d sids (written ++ write_msg d sid)
    ∙ append_assoc written (write_msg d sid) (render (map (delivered d) sids))

pub on_delivery-Refines :
    (d : Delivery) (c : Connection) (s : Session) (rest : Bytes)
    → Refines c s rest
    → Refines
        (on_delivery c d)
        (record s { notices = s.notices ++ map (delivered d) (matching c.router d.subject) })
        rest
unfolding on_delivery
on_delivery-Refines d c s rest h = record {
  router = h.router;
  subscribed = h.subscribed;
  written =
      write_all-render d (matching c.router d.subject) c.written
      ∙ tell c.written s.notices (map (delivered d) (matching c.router d.subject)) h.written;
  sent = h.sent;
  input = h.input;
}

-- The loop carries out the inputs from any point of a session.
Carried : List Input → Connection → Session → Bytes → Type 0
Carried is c s rest =
    (c' : Connection) × (s' : Session) × (handle_client (map event is) c ≡ ok (some c'))
    × Run s is s'
    × Refines c' s' rest

Carried-step :
    (i : Input) (is : List Input) (c c' : Connection) (s t : Session) (rest : Bytes)
    → step c (event i) ≡ ok (some c')
    → Step s i t
    → Carried is c' t rest
    → Carried (i ∷ is) c s rest
unfolding Carried handle_client
Carried-step i is c c' s t rest stepped moved (d, u, ran, run, refines) =
    (d, u, rw stepped ran, more moved run, refines)

said_step :
    (m : ClientMsg) (c : Connection) (rest : Bytes)
    → IsReady (says m)
    → c.input ≡ frame m ++ rest
    → step c readable ≡ ok (some (on_message c m rest))
unfolding step
said_step m c rest (sendable, line, sized) input =
    rw (input, read_client_message-frame m rest sendable line sized) refl

carries :
    (is : List Input) (c : Connection) (s : Session) (rest : Bytes)
    → All IsReady is
    → Refines c s (stream is rest)
    → Carried is c s rest
unfolding Carried handle_client
carries [] c s rest ready h = (c, s, refl, stop, h)
carries (says m ∷ is) c s rest (ready, later) h =
    Carried-step (says m) is c (on_message c m (stream is rest)) s (said m s) rest
      (said_step m c (stream is rest) ready h.input) (on_said m)
      (carries is (on_message c m (stream is rest)) (said m s) rest later
        (on_message-Refines m c s (stream (says m ∷ is) rest) (stream is rest) h))
carries (hears d ∷ is) c s rest (ready, later) h =
    Carried-step (hears d) is c (on_delivery c d) s _ rest (unfold step in refl)
      (on_heard d (matching c.router d.subject) (matching-IsAudience c s (stream is rest) d h))
      (carries is (on_delivery c d) _ rest later (on_delivery-Refines d c s (stream is rest) h))

-- A connection whose client sends messages that can be sent, with deliveries handed over between
-- them, never fails and does not end: after them it stands for a session that the specification
-- reaches by these inputs, in which SUB and UNSUB change the pattern of one sid, each PING is answered
-- in turn, each PUB is published in turn, and each delivery is written once for every sid whose
-- pattern matches; and the bytes behind the messages are still to read.
pub handle_client-Refines :
    (is : List Input) (rest : Bytes)
    → All IsReady is
    → (c : Connection) × (s : Session) × (handle_client (map event is) (opened (stream is rest))
        ≡ ok (some c))
      × Run begun is s
      × Refines c s rest
unfolding Carried
handle_client-Refines is rest ready =
    carries is (opened (stream is rest)) begun rest ready (opened-Refines (stream is rest))
