-- ===== src/Nats/Hub/Serves.antt =====
-- Every connection of the listener carries out a session, in which it hears what it was handed.
use mathlib.Core.Option.{some-injective}
use pg_ck.Prelude.{
  All, All-append, append-nil, ℕ, ◌≡◌, ◌∙◌, refl, sym, ap, subst, List, [], ◌∷◌, ◌++◌, Option, none,
  some, drop, map,
}
use pg_ck.Prelude.Result.{ok, >>=-eq-ok, ok_injective}
use pg_ck.Text.Utf8.{Bytes}
use pg_ck.Nats.Parser.{ClientMsg}
use pg_ck.Nats.Router.{matching}
use pg_ck.Nats.Server.{
  Connection, Delivery, readable, received, lagged, opened, on_message, on_delivery, after_read,
  read_client_message, step,
}
use pg_ck.Nats.Server.Session.{
  Session, Input, says, hears, begun, said, Step, on_said, on_heard, Run, stop, more, delivered,
}
use pg_ck.Nats.Server.Session.Refines.{
  Refines, opened-Refines, on_message-Refines, matching-IsAudience, on_delivery-Refines,
}
use pg_ck.Nats.Server.Plain.{
  IsPlainMessage, IsPlainDelivery, IsPlainInput, read_client_message-IsPlainMessage,
  begun-Run-IsPlainSession,
}
use pg_ck.Nats.Hub.{Received, value, dropped, pending}

-- The deliveries among the results of `recv`, and among the inputs of a session.
abbrev pub values_of : List Received → List Delivery
values_of [] = []
values_of (value d ∷ results) = d ∷ values_of results
values_of (dropped k ∷ results) = values_of results
values_of (pending ∷ results) = values_of results

abbrev pub heard_of : List Input → List Delivery
heard_of [] = []
heard_of (says m ∷ inputs) = heard_of inputs
heard_of (hears d ∷ inputs) = d ∷ heard_of inputs

pub values_of-append : (xs ys : List Received) → values_of (xs ++ ys) ≡ values_of xs ++ values_of ys
values_of-append [] ys = refl
values_of-append (value d ∷ xs) ys = ap (λ (l : List Delivery). d ∷ l) (values_of-append xs ys)
values_of-append (dropped k ∷ xs) ys = values_of-append xs ys
values_of-append (pending ∷ xs) ys = values_of-append xs ys

heard_of-append : (xs ys : List Input) → heard_of (xs ++ ys) ≡ heard_of xs ++ heard_of ys
heard_of-append [] ys = refl
heard_of-append (says m ∷ xs) ys = heard_of-append xs ys
heard_of-append (hears d ∷ xs) ys = ap (λ (l : List Delivery). d ∷ l) (heard_of-append xs ys)

Run-snoc :
    {s t u : Session} {is : List Input} (i : Input)
    → Run s is t
    → Step t i u
    → Run s (is ++ i ∷ []) u
Run-snoc i stop last = more last stop
Run-snoc i (more first rest) last = more first (Run-snoc i rest last)

-- The connection stands for a session that heard the deliveries among these results of `recv`, in
-- their order.
pub record Serves (c : Connection) (results : List Received) : Type 0 where
  pub inputs : List Input
  pub session : Session
  pub unread : Bytes
  pub ran : Run begun inputs session
  pub refines : Refines c session unread
  pub heard : heard_of inputs ≡ values_of results
  pub plain : All IsPlainInput inputs

pub opened-Serves : (input : Bytes) → Serves (opened input) []
opened-Serves input = record {
  inputs = [];
  session = begun;
  unread = input;
  ran = stop;
  refines = opened-Refines input;
  heard = refl;
  plain = tt;
}

Serves-says :
    (c : Connection) (m : ClientMsg) (rest : Bytes) (results : List Received)
    → IsPlainMessage m
    → Serves c results
    → Serves (on_message c m rest) results
Serves-says c m rest results carried s = record {
  plain = All-append IsPlainInput s.inputs (says m ∷ []) s.plain (carried, tt);
  inputs = s.inputs ++ says m ∷ [];
  session = said m s.session;
  unread = rest;
  ran = Run-snoc (says m) s.ran (on_said m);
  refines = on_message-Refines m c s.session s.unread rest s.refines;
  heard = heard_of-append s.inputs (says m ∷ []) ∙ append-nil (heard_of s.inputs) ∙ s.heard;
}

Serves-forgets :
    (c : Connection) (taken : ℕ) (results : List Received)
    → Serves c results
    → Serves (record c { input = drop taken c.input }) results
Serves-forgets c taken results s = record {
  plain = s.plain;
  inputs = s.inputs;
  session = s.session;
  unread = drop taken c.input;
  ran = s.ran;
  refines = record {
    router = s.refines.router;
    subscribed = s.refines.subscribed;
    written = s.refines.written;
    sent = s.refines.sent;
    input = refl;
  };
  heard = s.heard;
}

Serves-hears :
    (c : Connection) (d : Delivery) (results : List Received)
    → IsPlainDelivery d
    → Serves c results
    → Serves (on_delivery c d) (results ++ value d ∷ [])
Serves-hears c d results carried s = record {
  plain = All-append IsPlainInput s.inputs (hears d ∷ []) s.plain (carried, tt);
  inputs = s.inputs ++ hears d ∷ [];
  session = record s.session {
    notices = s.session.notices ++ map (delivered d) (matching c.router d.subject);
  };
  unread = s.unread;
  ran = Run-snoc (hears d) s.ran (
      on_heard d (matching c.router d.subject)
        (matching-IsAudience c s.session s.unread d s.refines));
  refines = on_delivery-Refines d c s.session s.unread s.refines;
  heard =
      heard_of-append s.inputs (hears d ∷ [])
      ∙ ap (λ (l : List Delivery). l ++ d ∷ []) s.heard
      ∙ sym (values_of-append results (value d ∷ []));
}

Serves-misses :
    (c : Connection) (k : ℕ) (results : List Received)
    → Serves c results
    → Serves c (results ++ dropped k ∷ [])
Serves-misses c k results s = record {
  plain = s.plain;
  inputs = s.inputs;
  session = s.session;
  unread = s.unread;
  ran = s.ran;
  refines = s.refines;
  heard =
      s.heard
      ∙ sym (append-nil (values_of results))
      ∙ sym (values_of-append results (dropped k ∷ []));
}

Serves-of :
    (c c' : Connection) (results : List Received) → c ≡ c' → Serves c results → Serves c' results
Serves-of c c' results same s = subst (λ x. Serves x results) same s

after_read-Serves :
    (c c' : Connection) (results : List Received) (read : Option (ClientMsg × Bytes))
    → read_client_message c.input ≡ ok read
    → after_read c read ≡ some c'
    → Serves c results
    → Serves c' results
after_read-Serves c c' results none reading e s = absurd (cc)
after_read-Serves c c' results (some (m, rest)) reading e s =
    Serves-of (on_message c m rest) c' results (some-injective _ _ e)
      (Serves-says c m rest results (read_client_message-IsPlainMessage c.input m rest reading) s)

module _ (c c' : Connection) (results : List Received) where
  pub readable-Serves : step c readable ≡ ok (some c') → Serves c results → Serves c' results
  unfolding step
  readable-Serves e s =
      let (read, reading, after) =
        >>=-eq-ok (read_client_message c.input) (λ r. ok (after_read c r)) e in
      after_read-Serves c c' results read reading (ok_injective after) s

  pub received-Serves :
      (d : Delivery) (taken : ℕ)
      → IsPlainDelivery d
      → step c (received d taken) ≡ ok (some c')
      → Serves c results
      → Serves c' (results ++ value d ∷ [])
  unfolding step
  received-Serves d taken carried e s =
      Serves-of (on_delivery (record c { input = drop taken c.input }) d) c'
        (results ++ value d ∷ []) (some-injective _ _ (ok_injective e))
        (Serves-hears (record c { input = drop taken c.input }) d results carried
          (Serves-forgets c taken results s))

  pub lagged-Serves :
      (k taken : ℕ)
      → step c (lagged taken) ≡ ok (some c')
      → Serves c results
      → Serves c' (results ++ dropped k ∷ [])
  unfolding step
  lagged-Serves k taken e s =
      Serves-of (record c { input = drop taken c.input }) c' (results ++ dropped k ∷ [])
        (some-injective _ _ (ok_injective e))
        (Serves-misses (record c { input = drop taken c.input }) k results
          (Serves-forgets c taken results s))

-- What such a connection has published can be told to others.
pub Serves-sent :
    (c : Connection) (results : List Received) → Serves c results → All IsPlainDelivery c.sent
Serves-sent c results s =
    subst (All IsPlainDelivery) (sym s.refines.sent)
      (begun-Run-IsPlainSession s.inputs s.session s.plain s.ran).published
