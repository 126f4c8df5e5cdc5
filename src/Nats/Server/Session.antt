-- ===== src/Nats/Server/Session.antt =====
-- What a client is promised of a connection to src/nats/server.rs: a session, independent of how the
-- server keeps its subscriptions and of the order in which it writes.
pub mod Refines
use pg_ck.Prelude.{
  ◌≡◌, ◌↔◌, ◌∙◌, refl, sym, ap, Bool, true, false, List, [], ◌∷◌, ◌++◌, Option, none, some,
  if◌then◌else◌, All, map, append_assoc, append-nil, Bool-cases, inl, inr, subst, arith,
}
use pg_ck.Prelude.Result.{ok}
use pg_ck.Text.{Text, codes, text_eq}
use pg_ck.Text.Utf8.{Bytes}
use pg_ck.BTreeMap.{lookup, IsOrdered}
use pg_ck.BTreeMap.Laws.{lookup-insert, lookup-remove, lookup_below}
use pg_ck.Nats.Parser.{ClientMsg, connect, ping, pong, sub, unsub, publish}
use pg_ck.Nats.Parser.Render.{control_line, IsSendable}
use pg_ck.Nats.Router
use pg_ck.Nats.Router.{Router, matches, matching, matching_sids}
use pg_ck.Nats.Router.Laws.{
  IsValid, Has, matching_iff, add-IsValid, unsubscribe-IsValid, new-IsValid,
}
use pg_ck.Nats.Server.{
  Connection, Delivery, Event, readable, received, opened, info, on_message, on_delivery, write_msg,
  write_all, step, handle_client,
}
use pg_ck.Nats.Server.Framing.{IsSized, IsLine, frame, read_client_message-frame}

-- What the client has been told.
pub data Notice : Type 0 where
  ponged : Notice
  delivered : Delivery → Text → Notice

pub record Session : Type 0 where
  pub subscribed : Text → Option Text
  pub notices : List Notice
  pub published : List Delivery

-- The client sends a message, or the channel hands a delivery over.
pub data Input : Type 0 where
  says : ClientMsg → Input
  hears : Delivery → Input

abbrev pub begun : Session
begun = record { subscribed = λ sid. none; notices = []; published = [] }

-- The subscriptions with one changed.
abbrev pub at_sid : Text → Option Text → (Text → Option Text) → Text → Option Text
at_sid sid pattern subscribed j = if text_eq sid j then pattern else subscribed j

abbrev pub said : ClientMsg → Session → Session
said (connect _) s = s
said pong s = s
said ping s = record s { notices = s.notices ++ ponged ∷ [] }
said (sub subject _ sid) s = record s { subscribed = at_sid sid (some subject) s.subscribed }
said (unsub sid _) s = record s { subscribed = at_sid sid none s.subscribed }
said (publish subject reply _ payload) s = record s {
  published = s.published ++ record { subject = subject; reply = reply; payload = payload } ∷ [];
}

abbrev pub IsDistinct : List Text → Type 0
IsDistinct [] = Unit
IsDistinct (sid ∷ sids) = ¬ Has sid sids × IsDistinct sids

-- The sids that hear a delivery, each once, in any order.
pub record IsAudience (s : Session) (d : Delivery) (sids : List Text) : Type 0 where
  pub hear :
      (sid : Text)
      → Has sid sids ↔ (
          (pattern : Text) × (s.subscribed sid ≡ some pattern) × (matches pattern d.subject ≡ true))
  pub once : IsDistinct sids

pub data Step : Session → Input → Session → Type 0 where
  on_said : (m : ClientMsg) {s : Session} → Step s (says m) (said m s)
  on_heard :
      (d : Delivery) (sids : List Text) {s : Session}
      → IsAudience s d sids
      → Step s (hears d) (record s { notices = s.notices ++ map (delivered d) sids })

pub data Run : Session → List Input → Session → Type 0 where
  stop : {s : Session} → Run s [] s
  more :
      {i : Input} {is : List Input} {s t u : Session} → Step s i t → Run t is u → Run s (i ∷ is) u

-- The bytes that a client sends, and what `select!` completes.
abbrev pub stream : List Input → Bytes → Bytes
stream [] rest = rest
stream (says m ∷ is) rest = frame m ++ stream is rest
stream (hears d ∷ is) rest = stream is rest

abbrev pub event : Input → Event
event (says m) = readable
event (hears d) = received d 0

abbrev pub IsReady : Input → Type 0
IsReady (says m) = IsSendable m × IsLine (control_line m) × IsSized m
IsReady (hears d) = Unit
