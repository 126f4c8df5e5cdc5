-- ===== src/Tests/Traffic.antt =====
-- The embedded server, the queue of actions, the dispatch and the outbox.
use pg_ck.Prelude.{
  ℕ, ◌≡◌, ◌≢◌, ◌<◌, ◌∙◌, sym, ap, All, Bool-cases, inl, inr, refl, true, [], ◌∷◌, ◌++◌, Option,
  none, some, length, all, Bool, true, false, ltb, ◌==◌, arith, List, if◌then◌else◌,
}
use pg_ck.Prelude.Int.{pos}
use pg_ck.Prelude.Result.{ok, ok_injective}
use pg_ck.Text.{Text, codes, text_eq, text_eq_iff}
use pg_ck.Text.Utf8.{Bytes}
use pg_ck.Json
use pg_ck.Json.{Value}
use pg_ck.Jwt.{verified}
use pg_ck.Nats.Parser.{ClientMsg, publish, ping}
use pg_ck.Nats.Parser.Render.{head_only, control_line}
use pg_ck.Nats.Parser.Sound.{IsWellFormed}
use pg_ck.Nats.Server.{read_client_message, Connection, opened, step, readable, on_message}
use pg_ck.Nats.Server.Framing.{IsSized, IsLine, frame, read_client_message-frame}
use pg_ck.Nats.Server.Bounds.{
  read_client_message-IsRead, Reached, start, next, IsSound, Reached-IsSound,
}
use pg_ck.Policy
use pg_ck.Policy.Roster.{Has, IsKernelName, clean_kernels-All}
use pg_ck.Callout.Grants.{subject_token, permissions_for}
use pg_ck.Callout.Scope.{permitted}
use pg_ck.Client.{Client, IsRunning, run_client_thread}
use pg_ck.Relay.{connect_with_retry}
use pg_ck.Relay.Retry.{delays, connect_with_retry-delays}
use pg_ck.Outbox.{Row, drain_once}
use pg_ck.Client.{Cmd}
use pg_ck.Outbox.Delivers.{Published, drain_once-messages}
use pg_ck.Inbound.{InboundAction, Spi, SpiLaws, relay_message, transaction}
use pg_ck.Inbound.Dispatch.{IsFresh, IsDispatched, verified_dispatches_as_itself}

abbrev pub message : ClientMsg
message = publish (codes "a.b") none 2 (codes "hi")

framed : read_client_message (frame message ++ codes "PING") ≡ ok (some (message, codes "PING"))
unfolding read_client_message pg_ck.Text.Utf8.encode control_line pg_ck.Text.join
    pg_ck.Text.Utf8.decode pg_ck.Text.Decimal.to_decimal pg_ck.Nats.Parser.parse_line
    pg_ck.Text.split_whitespace text_eq pg_ck.Text.to_ascii_uppercase pg_ck.Text.Decimal.parse_u64
framed = refl

abbrev pub is_plain : ℕ → Bool
is_plain c = if c == 10 then false else if c == 13 then false else ltb c 128

pub plain-IsLine : (s : Text) → all is_plain s ≡ true → IsLine s
plain-IsLine [] h = record { scalars = tt; no_feed = tt; no_return = tt }
plain-IsLine (c ∷ s) h = elim (Bool-cases (is_plain c)) [
  | inl e ↦
      let later = plain-IsLine s (rw e at h) in
      record {
        scalars = (ground arith, later.scalars);
        no_feed = (ground arith, later.no_feed);
        no_return = (ground arith, later.no_return);
      }
  | inr e ↦ absurd (cc (rw e at h))
]

pub one-IsLine : IsLine (control_line message)
unfolding control_line pg_ck.Text.join pg_ck.Text.Decimal.to_decimal
one-IsLine = plain-IsLine (codes "PUB a.b 2") refl

read_client_message-frame_example :
    read_client_message (frame message ++ codes "PING") ≡ ok (some (message, codes "PING"))
unfolding pg_ck.Text.is_whitespace
read_client_message-frame_example =
    read_client_message-frame message (codes "PING")
      ((refl, (refl, (refl, (refl, tt)))), tt, omega arith) one-IsLine (refl, omega arith)

read_client_message-IsRead_example :
    IsWellFormed (head_only message)
    × IsSized message
    × (4 < length (frame message ++ codes "PING"))
read_client_message-IsRead_example =
    read_client_message-IsRead (frame message ++ codes "PING") message (codes "PING") framed

abbrev after : Connection
after = on_message (opened (frame message)) message []

stepped : step (opened (frame message)) readable ≡ ok (some after)
unfolding step opened pg_ck.Text.Utf8.encode control_line pg_ck.Text.join pg_ck.Text.Utf8.decode
    pg_ck.Nats.Parser.parse_line pg_ck.Text.split_whitespace text_eq pg_ck.Text.to_ascii_uppercase
    pg_ck.Text.Decimal.parse_u64
stepped = refl

reached : Reached (frame message) after
reached = next readable start stepped

Reached-IsSound_example : IsSound after
Reached-IsSound_example = Reached-IsSound (frame message) after reached

abbrev pub subject : Text
subject = codes "input.kernel.ck.id.al-ice.action.save"

abbrev pub action : InboundAction
action = record {
  kernel = codes "ck";
  verb = codes "save";
  payload = codes "{}";
  result_subject = codes "result.kernel.ck.save";
  headers = [];
  identity = some (codes "al-ice");
}

-- Settings as a function of their names.
abbrev set : Text → Text → (Text → Option Text) → Text → Option Text
set name v s other = if text_eq name other then some v else s other

abbrev pub spi : Spi
spi = record {
  State = Text → Option Text;
  setting = λ name s. s name;
  set_config = λ name v s. ok (set name v s);
  dispatch_safe = λ verb payload s. ok (s (codes "ckp.requester"));
}

read_back : (name v : Text) (s : Text → Option Text) → set name v s name ≡ some v
read_back name v s = rw ((text_eq_iff name name).1 refl) refl

others :
    (name other v : Text) (s : Text → Option Text) → name ≢ other → set name v s other ≡ s other
others name other v s h = elim (Bool-cases (text_eq name other)) [
  | inl e ↦ absurd (h ((text_eq_iff name other).0 e))
  | inr e ↦ rw e refl
]

pub spi_laws : SpiLaws spi
spi_laws = record {
  read_back = λ name v {s} {t} h.
      ap (λ (t : Text → Option Text). t name) (sym (ok_injective h)) ∙ read_back name v s;
  others = λ name other v {s} {t} ne h.
      ap (λ (t : Text → Option Text). t other) (sym (ok_injective h)) ∙ others name other v s ne;
}

abbrev pub nothing_set : Text → Option Text
nothing_set name = none

names : All IsKernelName (codes "ck" ∷ [])
unfolding Policy.clean_kernels
names = clean_kernels-All (codes "ck" ∷ [])

allowed :
    permitted
      (permissions_for (verified (codes "al.ice") (pos 5000)) (codes "ck" ∷ [])).pub_allow
      subject
    ≡ true
unfolding permissions_for pg_ck.Nats.Router.matches pg_ck.Text.split
    pg_ck.Callout.Grants.input_subject text_eq subject_token
allowed = refl

pub relayed : relay_message subject (codes "{}") none [] ≡ action ∷ []
unfolding relay_message pg_ck.Text.strip_prefix pg_ck.Text.split_once
relayed = refl

pub done : transaction spi action nothing_set ≡ ok (some (codes "al-ice"))
unfolding transaction text_eq
done = refl

pub fresh : IsFresh spi spi_laws nothing_set
fresh = record { requester = refl; project = refl }

verified_dispatches_as_itself_example :
    Has (codes "ck") (codes "ck" ∷ [])
    × IsDispatched spi spi_laws
        (some (subject_token (codes "al.ice")))
        (some (codes "ck"))
        (codes "save")
        (codes "{}")
        (some (codes "al-ice"))
verified_dispatches_as_itself_example =
    verified_dispatches_as_itself spi spi_laws (codes "al.ice") (pos 5000) (codes "ck" ∷ []) subject
      (codes "{}") none action nothing_set (some (codes "al-ice")) names allowed relayed fresh done

abbrev pub client : Client
client = record { initialised = true; receiving = true; capacity = 1024; queue = []; received = 0 }

pub running : IsRunning client
running = record { initialised = refl; receiving = refl }

abbrev rows : List Row
rows =
    record {
      ledger_seq = some (pos 7);
      subject = some (codes "event.kernel.ck.save");
      payload = some (codes "{}");
      headers = some Json.null;
    }
    ∷ record { ledger_seq = none; subject = none; payload = none; headers = none }
    ∷ []

drain_once-messages_example :
    (cmds : List Cmd) × Published
      (some (codes "js"))
      (some (codes "old"))
      rows
      (drain_once (ok rows) (some (codes "js")) client).0
      cmds
    × (run_client_thread
          (some (codes "old"))
          (drain_once (ok rows) (some (codes "js")) client).1.queue
        ≡ run_client_thread (some (codes "old")) [] ++ cmds)
drain_once-messages_example =
    drain_once-messages rows (some (codes "js")) (some (codes "old")) client running

connect_with_retry-delays_example : connect_with_retry 9 (λ n. n == 5) ≡ some (delays 0 5)
connect_with_retry-delays_example =
    connect_with_retry-delays 5 9 (λ n. n == 5) (omega arith)
      (refl, (refl, (refl, (refl, (refl, refl)))))
