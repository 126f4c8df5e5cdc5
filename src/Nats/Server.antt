-- ===== src/Nats/Server.antt =====
-- src/nats/server.rs: reading a client's messages from its byte stream, and serving one connection.
-- A stream is the list of the bytes that will arrive, up to its end.
pub mod Framing
pub mod Bounds
pub mod Session
pub mod Messages
pub mod Plain
use pg_ck.Prelude.{
  ℕ, ◌+◌, ◌-◌, Bool, true, false, ◌&&◌, ◌||◌, List, [], ◌∷◌, ◌++◌, Option, none, some,
  if◌then◌else◌, ltb, ◌==◌, length, take, drop,
}
use pg_ck.Prelude.Result.{Result, ok, err, ok_or, require, ◌>>=◌}
use pg_ck.Text.{Text, codes, text_eq, trim_end_by, is_nil}
use pg_ck.Text.Utf8.{Bytes, decode}
use pg_ck.Text.Utf8
use pg_ck.Text.Decimal.{to_decimal}
use pg_ck.Nats.Parser
use pg_ck.Nats.Parser.{ClientMsg, connect, ping, pong, sub, unsub, publish, parse_line}
use pg_ck.Nats.Router
use pg_ck.Nats.Router.{Router}

abbrev pub max_payload : ℕ
max_payload = 1048576

pub data IoError : Type 0 where
  not_utf8 invalid_line payload_exceeds unexpected_eof missing_terminator : IoError

-- `reader.read_until(b'\n', &mut line)`: through the next line feed, or to the end.
abbrev pub onto_line : ℕ → Bytes × Bytes → Bytes × Bytes
onto_line b (line, rest) = (b ∷ line, rest)

unfoldable pub read_until : Bytes → Bytes × Bytes
read_until [] = ([], [])
read_until (b ∷ bs) =
    let later = read_until bs in if b == 10 then (b ∷ [], bs) else onto_line b later

-- `reader.read_exact(&mut buffer)` into a buffer of `n` bytes.
unfoldable pub read_exact : ℕ → Bytes → Result IoError (Bytes × Bytes)
read_exact n bs =
    if ltb (length bs) n then err IoError.unexpected_eof else ok (take n bs, drop n bs)

abbrev pub is_line_end : ℕ → Bool
is_line_end c = c == 13 || c == 10

unfoldable pub decode_control_line : Bytes → Result IoError Text
unfolding trim_end_by
decode_control_line bytes = do
  line ← ok_or IoError.not_utf8 (decode bytes)
  ok (trim_end_by is_line_end line)

-- The payload and the CRLF behind it.
unfoldable pub read_payload : ℕ → Bytes → Result IoError (Bytes × Bytes)
unfolding read_exact
read_payload payload_len bs = do
  _ ← require (if ltb max_payload payload_len then false else true) IoError.payload_exceeds
  payload ← read_exact payload_len bs
  terminator ← read_exact 2 payload.1
  _ ← require (text_eq terminator.0 (13 ∷ 10 ∷ [])) IoError.missing_terminator
  ok (payload.0, terminator.1)

abbrev pub with_payload : ClientMsg → Bytes → Result IoError (Option (ClientMsg × Bytes))
with_payload (publish subject reply payload_len payload) bs = do
  read ← read_payload payload_len bs
  ok (some (publish subject reply payload_len read.0, read.1))
with_payload message bs = ok (some (message, bs))

unfoldable pub read_line_message : Bytes → Bytes → Result IoError (Option (ClientMsg × Bytes))
unfolding decode_control_line read_payload
read_line_message [] rest = ok none
read_line_message (b ∷ line) rest = do
  text ← decode_control_line (b ∷ line)
  message ← ok_or IoError.invalid_line (parse_line text)
  with_payload message rest

-- The next message and the stream behind it; `none` at the end of the stream.
unfoldable pub read_client_message : Bytes → Result IoError (Option (ClientMsg × Bytes))
unfolding read_until read_line_message
read_client_message bs = let (line, rest) = read_until bs in read_line_message line rest

pub record Delivery : Type 0 where
  pub subject : Text
  pub reply : Option Text
  pub payload : Bytes

abbrev reply_word : Option Text → Text
reply_word none = []
reply_word (some reply) = b' ' ∷ reply

unfoldable pub write_msg : Delivery → Text → Bytes
unfolding to_decimal
write_msg d sid =
    Utf8.encode (
      codes "MSG "
      ++ (d.subject
          ++ (b' '
              ∷ (sid
                  ++ (reply_word d.reply
                      ++ (b' ' ∷ (to_decimal (length d.payload) ++ 13 ∷ 10 ∷ [])))))))
    ++ (d.payload ++ 13 ∷ 10 ∷ [])

-- One connection: its subscriptions, the bytes still to read, those written, and what it has sent to
-- the broadcast channel.
pub record Connection : Type 0 where
  pub router : Router
  pub input : Bytes
  pub written : Bytes
  pub sent : List Delivery

-- `INFO`, which a connection begins with.
abbrev pub info : Text
info =
    codes "INFO {\"server_name\":\"pgck\",\"version\":\"0.4.3\",\"max_payload\":1048576}"
    ++ 13 ∷ 10 ∷ []

unfoldable pub opened : Bytes → Connection
unfolding Router.new
opened input = record { router = Router.new; input = input; written = info; sent = [] }

-- The arms of the `match` on a message.
unfoldable pub on_message : Connection → ClientMsg → Bytes → Connection
unfolding Router.add Router.unsubscribe
on_message c (connect _) rest = record c { input = rest }
on_message c pong rest = record c { input = rest }
on_message c ping rest = record c {
  input = rest;
  written = c.written ++ codes "PONG" ++ 13 ∷ 10 ∷ [];
}
on_message c (sub subject _ sid) rest = record c {
  input = rest;
  router = Router.add c.router sid subject;
}
on_message c (unsub sid _) rest = record c {
  input = rest;
  router = Router.unsubscribe c.router sid;
}
on_message c (publish subject reply _ payload) rest = record c {
  input = rest;
  sent = c.sent ++ record { subject = subject; reply = reply; payload = payload } ∷ [];
}

unfoldable pub write_all : Delivery → List Text → Bytes → Bytes
unfolding write_msg
write_all d [] written = written
write_all d (sid ∷ sids) written = write_all d sids (written ++ write_msg d sid)

unfoldable pub on_delivery : Connection → Delivery → Connection
unfolding write_all Router.matching
on_delivery c d = record c { written = write_all d (Router.matching c.router d.subject) c.written }

-- What `select!` completes. When the channel wins, the read is dropped with the bytes that it has
-- taken from the stream so far.
pub data Event : Type 0 where
  readable : Event
  received : Delivery → ℕ → Event
  lagged : ℕ → Event
  closed : ℕ → Event

abbrev forget : ℕ → Connection → Connection
forget n c = record c { input = drop n c.input }

-- `none`: the loop ends.
abbrev pub after_read : Connection → Option (ClientMsg × Bytes) → Option Connection
after_read c none = none
after_read c (some (message, rest)) = some (on_message c message rest)

unfoldable pub step : Connection → Event → Result IoError (Option Connection)
unfolding read_client_message on_message on_delivery
step c readable = do read ← read_client_message c.input; ok (after_read c read)
step c (received d taken) = ok (some (on_delivery (forget taken c) d))
step c (lagged taken) = ok (some (forget taken c))
step c (closed taken) = ok none

-- The loop of `handle_client` over what `select!` completes in turn; `none` when it has ended.
abbrev pub when_open :
    Option Connection
    → (Connection → Result IoError (Option Connection))
    → Result IoError (Option Connection)
when_open none next = ok none
when_open (some c) next = next c

unfoldable pub handle_client : List Event → Connection → Result IoError (Option Connection)
unfolding step
handle_client [] c = ok (some c)
handle_client (event ∷ events) c = do after ← step c event; when_open after (handle_client events)
