-- ===== src/Worker.antt =====
-- src/bgworker.rs: one tick of the background worker. With the `nats-client` feature it refreshes the
-- policy, starts the client once, waits for the extension and then runs the drains; with
-- `embedded-nats` it hosts the server, and with neither it only drains what is SQL.
pub mod Order
pub mod Latency
use mathlib.Core.Option
use pg_ck.Prelude.{
  ℕ, ◌+◌, ◌-◌, Bool, true, false, not, ◌||◌, List, [], ◌∷◌, ◌++◌, Option, none, some, if◌then◌else◌,
  ltb,
}
use pg_ck.Text.{Text, split}
use pg_ck.Policy
use pg_ck.Policy.{
  Gucs, Caches, refresh_callout_policy, set_ledger_kernels, nats_account_seed, nats_url,
  nats_js_stream,
}

-- What the responder's `CalloutContext` is built from: the account key is `parse_account_seed` of the
-- seed, the verifier's configuration `oidc_auth_config` of the settings.
pub record CalloutSource : Type 0 where
  pub seed : Text
  pub settings : Gucs

-- What a tick does beside the caches: the threads that it starts and the drains that it runs.
pub data Effect : Type 0 where
  -- the broker's URL, and the responder's context, if there is one
  relay_started : Text → Option CalloutSource → Effect
  publisher_started : Text → Option Text → Effect
  server_spawned : Effect
  inbound_drained outbox_drained materialized orbited : Effect

-- The latches, the caches, and the effects so far.
pub record Worker : Type 0 where
  pub caches : Caches
  pub client_initialised : Bool
  pub server_started : Bool
  pub ready : Bool
  pub ledger_last : Option ℕ
  pub effects : List Effect

abbrev pub booted : Worker
booted = record {
  caches = Policy.initial;
  client_initialised = false;
  server_started = false;
  ready = false;
  ledger_last = none;
  effects = [];
}

-- What a tick finds: the settings, the probe for `ckp.outbox`, the monotonic clock in nanoseconds, and the ledger's
-- kernels as `ckp._ledger_kernels()` gives them, if it does.
pub record World : Type 0 where
  pub gucs : Gucs
  pub present : Bool
  pub now : ℕ
  pub ledger : Option Text

-- `parse_account_seed(&seed).is_some()`
module _ (is_account_seed : Text → Bool) where
  abbrev pub callout_of : Gucs → Option Text → Option CalloutSource
  callout_of g none = none
  callout_of g (some seed) =
      if is_account_seed seed then some (record { seed = seed; settings = g }) else none

  unfoldable pub start_client : Gucs → Worker → Worker
  unfolding nats_url nats_js_stream nats_account_seed
  start_client g w = if w.client_initialised then w else record w {
    client_initialised = true;
    effects =
        w.effects
        ++ relay_started (nats_url g) (callout_of g (nats_account_seed g))
          ∷ publisher_started (nats_url g) (nats_js_stream g)
          ∷ [];
  }

unfoldable pub pgck_ready : Bool → Worker → Worker
pgck_ready present w = record w { ready = w.ready || present }

-- `Duration::from_secs(5)`, in nanoseconds.
abbrev refresh_every : ℕ
refresh_every = 5000000000

abbrev pub is_due : Option ℕ → ℕ → Bool
is_due none now = true
is_due (some t) now = not (ltb (now - t) refresh_every)

abbrev pub store_ledger : Option Text → Caches → Caches
store_ledger none c = c
store_ledger (some csv) c = set_ledger_kernels (split b',' csv) c

unfoldable pub refresh_ledger_kernels : World → Worker → Worker
unfolding set_ledger_kernels split
refresh_ledger_kernels world w =
    if is_due w.ledger_last world.now
    then record w { ledger_last = some world.now; caches = store_ledger world.ledger w.caches }
    else w

abbrev pub run_drains : Worker → Worker
run_drains w = record w {
  effects = w.effects ++ inbound_drained ∷ outbox_drained ∷ materialized ∷ orbited ∷ [];
}

abbrev pub gated : World → Worker → Worker
gated world w = if w.ready then run_drains (refresh_ledger_kernels world w) else w

abbrev pub refreshed : Gucs → Worker → Worker
refreshed g w = record w { caches = refresh_callout_policy g w.caches }

unfoldable pub tick : (Text → Bool) → World → Worker → Worker
unfolding start_client pgck_ready refresh_ledger_kernels refresh_callout_policy
tick is_account_seed world w =
    gated world
      (pgck_ready world.present (start_client is_account_seed world.gucs (refreshed world.gucs w)))

unfoldable pub ticks : (Text → Bool) → List World → Worker → Worker
unfolding tick
ticks is_account_seed [] w = w
ticks is_account_seed (world ∷ worlds) w =
    ticks is_account_seed worlds (tick is_account_seed world w)

-- The features `embedded-nats` and `nats-client`, which exclude each other, and a build with neither.
pub data Build : Type 0 where
  embedded_nats nats_client plain : Build

-- `TICK_INTERVAL`, in milliseconds.
abbrev pub tick_interval : Build → ℕ
tick_interval nats_client = 100
tick_interval _ = 5000

unfoldable pub start_server_once : Worker → Worker
start_server_once w =
    if w.server_started
    then w
    else record w { server_started = true; effects = w.effects ++ server_spawned ∷ [] }

abbrev pub run_sql_drains : Worker → Worker
run_sql_drains w =
    if w.ready then record w { effects = w.effects ++ materialized ∷ orbited ∷ [] } else w

unfoldable pub tick_of : Build → (Text → Bool) → World → Worker → Worker
unfolding tick start_server_once
tick_of nats_client is_account_seed world w = tick is_account_seed world w
tick_of embedded_nats is_account_seed world w =
    run_sql_drains (pgck_ready world.present (start_server_once w))
tick_of plain is_account_seed world w = run_sql_drains (pgck_ready world.present w)
