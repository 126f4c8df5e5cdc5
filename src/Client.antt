-- ===== src/Client.antt =====
-- The publish half of src/nats_client.rs: the command queue between the worker and the thread that owns
-- the connection, and what that thread does with each command.
pub mod Sent
use pg_ck.Prelude.{
  ℕ, ◌+◌, ◌-◌, ltb, length, ◌≡◌, Bool, true, false, List, [], ◌∷◌, ◌++◌, Option, none, some,
  if◌then◌else◌,
}
use pg_ck.Prelude.Result.{Result, ok, err}
use pg_ck.Text.{Text, codes}
use pg_ck.Text.Utf8.{Bytes}

abbrev pub Headers : Type 0
Headers = List (Text × Text)

-- A command, and a message as it is published: subject, payload, headers.
pub data Cmd : Type 0 where
  publish_core publish_stream : Text → Bytes → Headers → Cmd

-- `CLIENT`: whether its handle is set and its receiver still there, how many commands the channel
-- holds at most, all that were sent, and how many of these the thread has received.
pub record Client : Type 0 where
  pub initialised : Bool
  pub receiving : Bool
  pub capacity : ℕ
  pub queue : List Cmd
  pub received : ℕ

abbrev pub not_started : Client
not_started = record {
  initialised = false;
  receiving = false;
  capacity = 0;
  queue = [];
  received = 0;
}

unfoldable pub init : Client → Client
init c =
    if c.initialised
    then c
    else record { initialised = true; receiving = true; capacity = 1024; queue = []; received = 0 }

-- A send on a full channel blocks the caller until the thread has received so many that one more fits.
abbrev until_room : Client → ℕ
until_room c =
    if ltb (length c.queue) (c.received + c.capacity)
    then c.received
    else length c.queue + 1 - c.capacity

abbrev pub pushed : Cmd → Client → Client
pushed cmd c = record c { queue = c.queue ++ cmd ∷ []; received = until_room c }

-- `handle.tx.send(cmd)`, which fails only without a receiver, with the standard library's text.
abbrev pub send : Text → Cmd → Client → Result Text Client
send why cmd c =
    if c.initialised
    then (if c.receiving then ok (pushed cmd c) else err why)
    else err (codes "nats client not initialised")

unfoldable pub publish : Text → Bytes → Headers → Client → Result Text Client
publish subject payload headers =
    send (codes "nats publish enqueue failed: sending on a closed channel")
      (publish_core subject payload headers)

unfoldable pub publish_js : Text → Bytes → Headers → Client → Result Text Client
publish_js subject payload headers =
    send (codes "js publish enqueue failed: sending on a closed channel")
      (publish_stream subject payload headers)

-- What the thread hands to the broker for one command: nothing for a stream command without a stream.
unfoldable pub execute : Option Text → Cmd → List Cmd
execute js_stream (publish_core subject payload headers) = publish_core subject payload headers ∷ []
execute none (publish_stream subject payload headers) = []
execute (some _) (publish_stream subject payload headers) =
    publish_stream subject payload headers ∷ []

-- The loop of `run_client_thread` over the commands that are received.
unfoldable pub run_client_thread : Option Text → List Cmd → List Cmd
unfolding execute
run_client_thread js_stream [] = []
run_client_thread js_stream (cmd ∷ cmds) = execute js_stream cmd ++ run_client_thread js_stream cmds

-- A client that was initialised and whose thread receives.
pub record IsRunning (c : Client) : Type 0 where
  pub initialised : c.initialised ≡ true
  pub receiving : c.receiving ≡ true
