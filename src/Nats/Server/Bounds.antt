-- ===== src/Nats/Server/Bounds.antt =====
-- What a read message can be, and what a connection keeps through every event.
use pg_ck.Prelude.{
  ℕ, zero, suc, ◌+◌, ◌≤◌, ◌<◌, ◌≡◌, ◌≢◌, refl, sym, subst, true, false, [], ◌∷◌, Option, none, some,
  arith, if◌then◌else◌, ltb, ◌==◌, length, take, drop, All, All-append, Bool-cases, inl, inr,
}
use mathlib.Core.Option.{some-injective}
use mathlib.Core.List.{cons-ne-nil}
use pg_ck.Prelude.Result.{ok, >>=-eq-ok, ok_or-bind, require-bind, ok_injective}
use pg_ck.Text.{text_eq}
use pg_ck.Text.Words.{IsWord}
use pg_ck.Text.Utf8.{Bytes}
use pg_ck.Nats.Parser.{ClientMsg, connect, ping, pong, sub, unsub, publish}
use pg_ck.Nats.Parser.Render.{head_only, IsOptionalWord}
use pg_ck.Nats.Parser.Sound.{IsWellFormed, parse_line-IsWellFormed}
use pg_ck.Nats.Router.Laws.{IsValid, new-IsValid, add-IsValid, unsubscribe-IsValid}
use pg_ck.Nats.Server.{
  IoError, max_payload, read_until, read_exact, decode_control_line, read_payload, with_payload,
  read_line_message, read_client_message, Delivery, Connection, opened, on_message, on_delivery,
  Event, readable, received, lagged, closed, step, after_read,
}
use pg_ck.Nats.Server.Framing.{IsSized}

length-take : (n : ℕ) (bs : Bytes) → n ≤ length bs → length (take n bs) ≡ n
length-take zero bs h = refl
length-take (suc n) [] h = absurd (omega arith)
length-take (suc n) (b ∷ bs) h = omega (arith, length-take n bs (omega arith))

length-drop : (n : ℕ) (bs : Bytes) → length (drop n bs) ≤ length bs
length-drop zero bs = omega arith
length-drop (suc n) [] = omega arith
length-drop (suc n) (b ∷ bs) = omega (arith, length-drop n bs)

read_exact_sound :
    (n : ℕ) (bs : Bytes) {r : Bytes × Bytes}
    → read_exact n bs ≡ ok r
    → (length r.0 ≡ n) × (length r.1 ≤ length bs)
unfolding read_exact
read_exact_sound n bs {r} h = elim (Bool-cases (ltb (length bs) n)) [
  | inl e ↦ absurd (cc (rw e at h))
  | inr e ↦
      let same : (take n bs, drop n bs) ≡ r = ok_injective (rw e at h) in
      subst (λ (r : Bytes × Bytes). (length r.0 ≡ n) × (length r.1 ≤ length bs)) same
        (length-take n bs (ground arith), length-drop n bs)
]

within : (n : ℕ) → (if ltb max_payload n then false else true) ≡ true → n ≤ max_payload
within n h = ground arith

read_payload_sound :
    (n : ℕ) (bs : Bytes) {r : Bytes × Bytes}
    → read_payload n bs ≡ ok r
    → (n ≡ length r.0) × (n ≤ max_payload) × (length r.1 ≤ length bs)
unfolding read_payload
read_payload_sound n bs {r} h =
    let (small, h1) = require-bind _ _ _ h in
    let (payload, e2, h2) = >>=-eq-ok (read_exact n bs) _ h1 in
    let (terminator, e3, h3) = >>=-eq-ok (read_exact 2 payload.1) _ h2 in
    let (_, h4) =
      require-bind (text_eq terminator.0 (13 ∷ 10 ∷ [])) IoError.missing_terminator
        (λ _. ok (payload.0, terminator.1)) h3 in
    let (size, left) = read_exact_sound n bs {r = payload} e2 in
    let (_, left') = read_exact_sound 2 payload.1 {r = terminator} e3 in
    let same : (payload.0, terminator.1) ≡ r = ok_injective h4 in
    subst (λ (r : Bytes × Bytes). (n ≡ length r.0) × (n ≤ max_payload) × (length r.1 ≤ length bs))
      same (sym size, within n small, omega arith)

-- A message that was read from these bytes, with what is left of them.
pub record IsRead (bs : Bytes) (m : ClientMsg) (rest : Bytes) : Type 0 where
  pub well_formed : IsWellFormed (head_only m)
  pub sized : IsSized m
  pub left : length rest ≤ length bs

with_payload_sound :
    (m : ClientMsg) (bs : Bytes) {r : Option (ClientMsg × Bytes)}
    → IsWellFormed m
    → with_payload m bs ≡ ok r
    → (n : ClientMsg) × (rest : Bytes) × (r ≡ some (n, rest)) × IsRead bs n rest
with_payload_sound (publish subject reply n payload) bs (s, w, u, _) h =
    let (read, e, h1) = >>=-eq-ok (read_payload n bs) _ h in
    let (size, small, left) = read_payload_sound n bs {r = read} e in
    (
      publish subject reply n read.0,
      read.1,
      sym (ok_injective h1),
      record { well_formed = (s, w, u, refl); sized = (size, small); left = left },
    )
with_payload_sound (connect options) bs f h = (
  connect options,
  bs,
  sym (ok_injective h),
  record { well_formed = f; sized = tt; left = omega arith },
)
with_payload_sound ping bs f h =
    (ping, bs, sym (ok_injective h), record { well_formed = f; sized = tt; left = omega arith })
with_payload_sound pong bs f h =
    (pong, bs, sym (ok_injective h), record { well_formed = f; sized = tt; left = omega arith })
with_payload_sound (sub subject queue sid) bs f h = (
  sub subject queue sid,
  bs,
  sym (ok_injective h),
  record { well_formed = f; sized = tt; left = omega arith },
)
with_payload_sound (unsub sid max) bs f h = (
  unsub sid max,
  bs,
  sym (ok_injective h),
  record { well_formed = f; sized = tt; left = omega arith },
)

read_line_message_sound :
    (line rest : Bytes) {m : ClientMsg} {left : Bytes}
    → read_line_message line rest ≡ ok (some (m, left))
    → IsRead rest m left × (line ≢ [])
unfolding read_line_message
read_line_message_sound [] rest h = absurd (ground arith)
read_line_message_sound (b ∷ line) rest {m} {left} h =
    let (text, _, h1) = >>=-eq-ok (decode_control_line (b ∷ line)) _ h in
    let (message, parsed, h2) = ok_or-bind _ _ _ h1 in
    let (n, tail, same, read) =
      with_payload_sound message rest (parse_line-IsWellFormed text parsed) h2 in
    let pair : (n, tail) ≡ (m, left) = some-injective (n, tail) (m, left) (sym same) in
    (subst (λ (p : ClientMsg × Bytes). IsRead rest p.0 p.1) pair read, cons-ne-nil b line)

read_until-length : (bs : Bytes) → length (read_until bs).0 + length (read_until bs).1 ≡ length bs
unfolding read_until
read_until-length [] = refl
read_until-length (b ∷ bs) =
    let later = read_until-length bs in
    elim (Bool-cases (b == 10)) [ inl e ↦ rw e (omega arith) | inr e ↦ rw e (omega arith) ]

positive : (bs : Bytes) → bs ≢ [] → 0 < length bs
positive [] h = absurd (h refl)
positive (b ∷ bs) h = omega arith

-- A message that is read has the shape that the protocol asks for, the payload of a PUB has the
-- announced length and at most 1 MiB, and the stream is strictly shorter afterwards, so that a stream
-- holds only finitely many messages.
pub read_client_message-IsRead :
    (bs : Bytes) (m : ClientMsg) (rest : Bytes)
    → read_client_message bs ≡ ok (some (m, rest))
    → IsWellFormed (head_only m) × IsSized m × (length rest < length bs)
unfolding read_client_message
read_client_message-IsRead bs m rest h =
    let (read, filled) =
      read_line_message_sound (read_until bs).0 (read_until bs).1 {m = m} {left = rest} h in
    let some_line = positive (read_until bs).0 filled in
    let all = read_until-length bs in
    let left = read.left in (read.well_formed, read.sized, omega arith)

-- A message for the subscribers: a word as its subject, and at most 1 MiB.
abbrev pub IsFit : Delivery → Type 0
IsFit d = IsWord d.subject × IsOptionalWord d.reply × (length d.payload ≤ max_payload)

pub record IsSound (c : Connection) : Type 0 where
  pub router : IsValid c.router
  pub sent : All IsFit c.sent

on_message-IsSound :
    (c : Connection) (m : ClientMsg) (rest : Bytes)
    → IsWellFormed (head_only m)
    → IsSized m
    → IsSound c
    → IsSound (on_message c m rest)
unfolding on_message
on_message-IsSound c (connect options) rest f z s = record { router = s.router; sent = s.sent }
on_message-IsSound c ping rest f z s = record { router = s.router; sent = s.sent }
on_message-IsSound c pong rest f z s = record { router = s.router; sent = s.sent }
on_message-IsSound c (sub subject queue sid) rest f z s = record {
  router = add-IsValid c.router sid subject s.router;
  sent = s.sent;
}
on_message-IsSound c (unsub sid max) rest f z s = record {
  router = unsubscribe-IsValid c.router sid s.router;
  sent = s.sent;
}
on_message-IsSound c (publish subject reply n payload) rest (word, optional, _, _) (size, small) s =
    record {
      router = s.router;
      sent = All-append IsFit c.sent _ s.sent ((word, optional, omega arith), tt);
    }

step-IsSound : (c d : Connection) (e : Event) → IsSound c → step c e ≡ ok (some d) → IsSound d
unfolding step on_delivery
step-IsSound c d readable s h =
    let (read, found, h1) = >>=-eq-ok (read_client_message c.input) _ h in
    after read found (ok_injective h1)
  where
    after :
        (read : Option (ClientMsg × Bytes))
        → read_client_message c.input ≡ ok read
        → after_read c read ≡ some d
        → IsSound d
    after none found h = absurd (cc)
    after (some (m, rest)) found h =
        let (formed, sized, _) = read_client_message-IsRead c.input m rest found in
        subst IsSound (some-injective (on_message c m rest) d h)
          (on_message-IsSound c m rest formed sized s)
step-IsSound c d (received delivery taken) s h =
    subst IsSound (some-injective _ d (ok_injective h))
      (record { router = s.router; sent = s.sent })
step-IsSound c d (lagged taken) s h =
    subst IsSound (some-injective _ d (ok_injective h))
      (record { router = s.router; sent = s.sent })
step-IsSound c d (closed taken) s h = absurd (cc)

-- The states that the loop of `handle_client` reaches from a new connection.
pub data Reached (input : Bytes) : Connection → Type 0 where
  start : Reached input (opened input)
  next : {c d : Connection} (e : Event) → Reached input c → step c e ≡ ok (some d) → Reached input d

opened-IsSound : (input : Bytes) → IsSound (opened input)
unfolding opened
opened-IsSound input = record { router = new-IsValid; sent = tt }

-- Whatever bytes a client sends and whatever events occur, in any order, the subscriptions of the
-- connection stay a valid map, and every message that it puts on the broadcast channel has words as its
-- subject and reply and a payload of at most 1 MiB.
pub Reached-IsSound : (input : Bytes) (c : Connection) → Reached input c → IsSound c
Reached-IsSound input _ start = opened-IsSound input
Reached-IsSound input d (next {c = c} e r h) = step-IsSound c d e (Reached-IsSound input c r) h
