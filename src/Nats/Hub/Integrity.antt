-- ===== src/Nats/Hub/Integrity.antt =====
-- What the client of a connection reads, whatever the other clients send.
use pg_ck.Prelude.{ℕ, ◌≡◌, ◌∙◌, sym, ap, List, [], ◌++◌, some, length, append-nil}
use pg_ck.Text.Utf8.{Bytes}
use pg_ck.Nats.Server.{Connection, info}
use pg_ck.Nats.Server.Messages.{read_notices, read_notices-render}
use pg_ck.Nats.Server.Plain.{begun-Run-IsPlainSession}
use pg_ck.Nats.Server.Session.{Session, Input, begun, Run}
use pg_ck.Nats.Server.Session.Refines.{render}
use pg_ck.Nats.Hub.{Received, Broadcast, BroadcastLaws, HubEvent, serve, run}
use pg_ck.Nats.Hub.Serves.{Serves, values_of, heard_of}
use pg_ck.Nats.Hub.Broker.{run-IsBroker}

-- The client of this connection has been written INFO and then bytes that it reads as the notices of a
-- session, with none left, in which it heard the deliveries among these results of `recv`.
pub record IsLegible (c : Connection) (results : List Received) : Type 0 where
  pub inputs : List Input
  pub session : Session
  pub bytes : Bytes
  pub ran : Run begun inputs session
  pub heard : heard_of inputs ≡ values_of results
  pub written : c.written ≡ info ++ bytes
  pub back : read_notices (length session.notices) bytes ≡ some (session.notices, [])

Serves-IsLegible :
    (c : Connection) (results : List Received) → Serves c results → IsLegible c results
Serves-IsLegible c results s = record {
  inputs = s.inputs;
  session = s.session;
  bytes = render s.session.notices;
  ran = s.ran;
  heard = s.heard;
  written = s.refines.written;
  back =
      ap (read_notices (length s.session.notices)) (sym (append-nil (render s.session.notices)))
      ∙ read_notices-render s.session.notices []
          (begun-Run-IsPlainSession s.inputs s.session s.plain s.ran).told;
}

-- No client can break what another one reads. Whatever connections are accepted, whatever bytes they
-- send and in whatever order their tasks run: what was written to a connection that still runs is the
-- INFO line and then bytes that a reader of the protocol takes apart, with none left over, into exactly
-- the PONGs and MSGs of a session in which the connection heard the deliveries that its `recv` handed
-- over, in their order.
pub run-IsLegible :
    (b : Broadcast) (laws : BroadcastLaws b) (events : List HubEvent) (n : ℕ) (c : Connection)
    → (run b events (serve b)).clients n ≡ some c
    → IsLegible c ((run b events (serve b)).handed n)
run-IsLegible b laws events n c running =
    Serves-IsLegible c ((run b events (serve b)).handed n)
      ((run-IsBroker b laws events).serving n c running)
