-- ===== src/Bridge/Builds.antt =====
-- What the worker of each build starts and drains.
use pg_ck.Prelude.{
  ◌≡◌, ◌∙◌, refl, ap, inl, inr, Bool, true, false, List, [], ◌∷◌, ◌++◌, Bool-cases, if◌then◌else◌,
  arith,
}
use pg_ck.Text.{Text}
use pg_ck.Policy.{Gucs, refresh_callout_policy}
use pg_ck.Worker.{
  Worker, World, Build, embedded_nats, nats_client, plain, booted, materialized, orbited,
  start_client, start_server_once, pgck_ready, refresh_ledger_kernels, is_due, run_drains,
  run_sql_drains, refreshed, tick, tick_of,
}
use pg_ck.Worker.Order.{drains, drains-append, IsOrderly, tick-IsOrderly}
use pg_ck.Bridge.Counts.{servers, dialled, servers-append, dialled-append}
use pg_ck.Bridge.{Wake, Process, Reload, found, reloaded, wake, wakes, pgck_bridge_main}

-- A worker that hosts the server (or has not ticked), and one that turns to no broker.
record IsLocal (w : Worker) : Type 0 where
  once : servers w.effects ≡ (if w.server_started then 1 else 0)
  undialled : dialled w.effects ≡ 0
  waits : w.ready ≡ false → drains w.effects ≡ 0

start_server_once-IsLocal : (w : Worker) → IsLocal w → IsLocal (start_server_once w)
unfolding start_server_once
start_server_once-IsLocal w h = elim (Bool-cases w.server_started) [
  | inl e ↦ rw e (record { once = (rw e at h.once); undialled = h.undialled; waits = h.waits })
  | inr e ↦ rw e (record {
    once = servers-append w.effects _ ∙ omega (arith, rw e at h.once);
    undialled = dialled-append w.effects _ ∙ omega (arith, h.undialled);
    waits = λ r. drains-append w.effects _ ∙ omega (arith, h.waits r);
  })
]

pgck_ready-IsLocal : (b : Bool) (w : Worker) → IsLocal w → IsLocal (pgck_ready b w)
unfolding pgck_ready
pgck_ready-IsLocal b w h = record {
  once = h.once;
  undialled = h.undialled;
  waits = λ r. h.waits (ground arith);
}

sql-IsLocal :
    (w : Worker) (b : Bool)
    → w.ready ≡ b
    → IsLocal w
    → IsLocal (if b then record w { effects = w.effects ++ materialized ∷ orbited ∷ [] } else w)
sql-IsLocal w false e h = h
sql-IsLocal w true e h = record {
  once = servers-append w.effects _ ∙ omega (arith, h.once);
  undialled = dialled-append w.effects _ ∙ omega (arith, h.undialled);
  waits = λ r. absurd (cc (e, r));
}

run_sql_drains-IsLocal : (w : Worker) → IsLocal w → IsLocal (run_sql_drains w)
run_sql_drains-IsLocal w h = sql-IsLocal w w.ready refl h

-- A worker that turns to the broker and hosts no server.
record IsClient (w : Worker) : Type 0 where
  orderly : IsOrderly w
  unhosted : servers w.effects ≡ 0
  stopped : w.server_started ≡ false

start_client-servers :
    (p : Text → Bool) (g : Gucs) (w : Worker)
    → (servers (start_client p g w).effects ≡ servers w.effects)
      × ((start_client p g w).server_started ≡ w.server_started)
unfolding start_client
start_client-servers p g w = elim (Bool-cases w.client_initialised) [
  | inl e ↦ rw e (refl, refl)
  | inr e ↦ rw e (servers-append w.effects _ ∙ omega arith, refl)
]

refresh-servers :
    (world : World) (w : Worker)
    → ((refresh_ledger_kernels world w).effects ≡ w.effects)
      × ((refresh_ledger_kernels world w).server_started ≡ w.server_started)
unfolding refresh_ledger_kernels
refresh-servers world w = elim (Bool-cases (is_due w.ledger_last world.now)) [
  | inl e ↦ rw e (refl, refl)
  | inr e ↦ rw e (refl, refl)
]

gate-servers :
    (world : World) (w : Worker) (b : Bool)
    → (servers (if b then run_drains (refresh_ledger_kernels world w) else w).effects
        ≡ servers w.effects)
      × ((if b then run_drains (refresh_ledger_kernels world w) else w).server_started
          ≡ w.server_started)
gate-servers world w false = (refl, refl)
gate-servers world w true =
    let (effects, stopped) = refresh-servers world w in
    (
      servers-append (refresh_ledger_kernels world w).effects _ ∙ omega (arith, ap servers effects),
      stopped,
    )

tick-IsClient :
    (p : Text → Bool) (world : World) (w : Worker) → IsClient w → IsClient (tick p world w)
unfolding tick pgck_ready refresh_callout_policy
tick-IsClient p world w h =
    let (kept, same) = start_client-servers p world.gucs (refreshed world.gucs w) in
    let start = start_client p world.gucs (refreshed world.gucs w) in
    let (later, still) =
      gate-servers world (pgck_ready world.present start) (pgck_ready world.present start).ready in
    record {
      orderly = tick-IsOrderly p world w h.orderly;
      unhosted = later ∙ kept ∙ h.unhosted;
      stopped = still ∙ same ∙ h.stopped;
    }

-- What each build may do.
pub data IsBuilt : Build → Worker → Type 0 where
  hosting :
      {w : Worker}
      → servers w.effects ≡ (if w.server_started then 1 else 0)
      → dialled w.effects ≡ 0
      → (w.ready ≡ false → drains w.effects ≡ 0)
      → IsBuilt embedded_nats w
  dialling : {w : Worker} → IsOrderly w → servers w.effects ≡ 0 → IsBuilt nats_client w
  neither :
      {w : Worker}
      → servers w.effects ≡ 0
      → dialled w.effects ≡ 0
      → (w.ready ≡ false → drains w.effects ≡ 0)
      → IsBuilt plain w

-- The same for each build, with what a tick keeps.
Keeps : Build → Worker → Type 0
Keeps embedded_nats w = IsLocal w
Keeps nats_client w = IsClient w
Keeps plain w = IsLocal w × (w.server_started ≡ false)

Keeps-IsBuilt : (build : Build) (w : Worker) → Keeps build w → IsBuilt build w
unfolding Keeps
Keeps-IsBuilt embedded_nats w h = hosting h.once h.undialled h.waits
Keeps-IsBuilt nats_client w h = dialling h.orderly h.unhosted
Keeps-IsBuilt plain w (h, stopped) = neither (h.once ∙ rw stopped refl) h.undialled h.waits

sql-stopped :
    (w : Worker) (b : Bool)
    → (if b
        then record w { effects = w.effects ++ materialized ∷ orbited ∷ [] }
        else w).server_started
      ≡ w.server_started
sql-stopped w true = refl
sql-stopped w false = refl

tick_of-Keeps :
    (build : Build) (p : Text → Bool) (world : World) (w : Worker)
    → Keeps build w
    → Keeps build (tick_of build p world w)
unfolding Keeps tick_of pgck_ready
tick_of-Keeps embedded_nats p world w h =
    run_sql_drains-IsLocal (pgck_ready world.present (start_server_once w))
      (pgck_ready-IsLocal world.present (start_server_once w) (start_server_once-IsLocal w h))
tick_of-Keeps nats_client p world w h = tick-IsClient p world w h
tick_of-Keeps plain p world w (h, stopped) = (
  run_sql_drains-IsLocal (pgck_ready world.present w) (pgck_ready-IsLocal world.present w h),
  sql-stopped (pgck_ready world.present w) (pgck_ready world.present w).ready ∙ stopped,
)

booted-Keeps : (build : Build) → Keeps build booted
unfolding Keeps
booted-Keeps embedded_nats = record { once = refl; undialled = refl; waits = λ _. refl }
booted-Keeps nats_client = record {
  orderly = record { once = refl; cached = λ e. absurd (ground arith); waits = λ _. refl };
  unhosted = refl;
  stopped = refl;
}
booted-Keeps plain = (record { once = refl; undialled = refl; waits = λ _. refl }, refl)

wakes-Keeps :
    (reload : Reload) (build : Build) (p : Text → Bool) (ws : List Wake) (b : Process)
    → Keeps build b.worker
    → Keeps build (wakes reload build p ws b).worker
unfolding wakes wake
wakes-Keeps reload build p [] b h = h
wakes-Keeps reload build p (w ∷ ws) b h =
    wakes-Keeps reload build p ws (wake reload build p w b)
      (tick_of-Keeps build p (found w (reloaded reload build p w b.gucs)) b.worker h)

-- After any wakes of the worker: with `embedded-nats` the server was spawned once if at all, and in the
-- other builds never; with `nats-client` the relay was started at most once, and with the policy
-- cached; in the other builds nothing was started towards an outside broker, and neither the outbox
-- nor the queue of actions was drained. In every build, nothing of the database was drained before the
-- extension was seen.
pub pgck_bridge_main-IsBuilt :
    (reload : Reload) (build : Build) (p : Text → Bool) (boot : Gucs) (ws : List Wake)
    → IsBuilt build (pgck_bridge_main reload build p boot ws).worker
unfolding pgck_bridge_main
pgck_bridge_main-IsBuilt reload build p boot ws =
    Keeps-IsBuilt build _ (wakes-Keeps reload build p ws _ (booted-Keeps build))
