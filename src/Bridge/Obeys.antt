-- ===== src/Bridge/Obeys.antt =====
-- Which settings a running worker obeys.
use pg_ck.Prelude.{
  ◌≡◌, ◌∙◌, refl, sym, ap, subst, inl, inr, Bool, true, false, List, [], ◌∷◌, ◌++◌, Bool-cases,
  if◌then◌else◌, append-nil, arith, ◌||◌,
}
use pg_ck.Text.{Text, text_eq}
use pg_ck.Policy.{
  Gucs, callout_policy, configured_kernels, worker_database, nats_url, nats_js_stream,
  nats_account_seed,
}
use pg_ck.Policy.Roster.{Has, union-left}
use pg_ck.Worker.{
  Effect, Worker, World, callout_of, nats_client, booted, relay_started, publisher_started,
  inbound_drained, outbox_drained, materialized, orbited, start_client, pgck_ready,
  refresh_ledger_kernels, is_due, run_drains, refreshed, tick, tick_of,
}
use pg_ck.Worker.Order.{starts, starts-append}
use pg_ck.Worker.Latency.{tick-policy}
use pg_ck.Bridge.{
  Wake, Process, found, registered, reloads, Reload, ReloadLaws, reloaded, wake, wakes,
  pgck_bridge_main,
}

-- The settings of the last file that SIGHUP announced, but the database as at the start.
abbrev pub in_effect : Gucs → List Wake → Gucs
in_effect g [] = g
in_effect g (w ∷ ws) =
    in_effect
      (if w.sighup_received then record w.file { worker_database = g.worker_database } else g) ws

-- The connections that were started are those of the settings at the first tick.
abbrev pub IsConnected : (Text → Bool) → Gucs → List Effect → Type 0
IsConnected is_account_seed g effects =
    (rest : List Effect) × (effects
      ≡ relay_started (nats_url g) (callout_of is_account_seed g (nats_account_seed g))
        ∷ publisher_started (nats_url g) (nats_js_stream g)
        ∷ rest)
    × (starts rest ≡ 0)

-- The worker's process obeys the settings `now`, and its connections those of the first tick.
pub record Obeys (is_account_seed : Text → Bool) (boot first now : Gucs) (b : Process)
    : Type 0 where
  pub strict : (callout_policy b.worker.caches).0 ≡ now.admit_anonymous
  pub granted :
      (k : Text) → Has k (configured_kernels now) → Has k (callout_policy b.worker.caches).1
  pub connected : IsConnected is_account_seed first b.worker.effects
  pub attached : b.database ≡ worker_database boot

module _ (process_config_file : Reload) (laws : ReloadLaws process_config_file) where
  reload-client :
      (file g : Gucs)
      → process_config_file (registered nats_client) file g
        ≡ record file { worker_database = g.worker_database }
  unfolding registered reloads text_eq
  reload-client file g =
      let defs = registered nats_client in
      cc (
        laws.nats_url defs file g,
        laws.nats_js_stream defs file g,
        laws.nats_account_seed defs file g,
        laws.oidc_jwks defs file g,
        laws.oidc_issuer defs file g,
        laws.oidc_audience defs file g,
        laws.admit_anonymous defs file g,
        laws.kernels defs file g,
        laws.worker_database defs file g,
      )

module _ (process_config_file : Reload) (laws : ReloadLaws process_config_file)
    (is_account_seed : Text → Bool) where
  -- What a tick adds, once the client is initialised.
  Adds : Worker → Worker → Type 0
  Adds w w' =
      (added : List Effect) × (w'.effects ≡ w.effects ++ added)
      × (starts added ≡ 0)
      × (w'.client_initialised ≡ w.client_initialised)

  refresh-effects :
      (world : World) (w : Worker)
      → ((refresh_ledger_kernels world w).effects ≡ w.effects)
        × ((refresh_ledger_kernels world w).client_initialised ≡ w.client_initialised)
  unfolding refresh_ledger_kernels
  refresh-effects world w = elim (Bool-cases (is_due w.ledger_last world.now)) [
    | inl e ↦ rw e (refl, refl)
    | inr e ↦ rw e (refl, refl)
  ]

  gate-Adds :
      (world : World) (w : Worker) (ready : Bool)
      → Adds w (if ready then run_drains (refresh_ledger_kernels world w) else w)
  unfolding Adds
  gate-Adds world w false = ([], sym (append-nil w.effects), refl, refl)
  gate-Adds world w true =
      let (effects, client) = refresh-effects world w in
      (
        inbound_drained ∷ outbox_drained ∷ materialized ∷ orbited ∷ [],
        ap (λ (es : List Effect). es ++ _) effects,
        refl,
        client,
      )

  tick-Adds :
      (world : World) (w : Worker)
      → w.client_initialised ≡ true
      → Adds w (tick is_account_seed world w)
  unfolding tick start_client pgck_ready Adds
  tick-Adds world w started = rw started (gate-Adds world _ (w.ready || world.present))

  first_tick :
      (world : World)
      → IsConnected is_account_seed world.gucs (tick is_account_seed world booted).effects
        × ((tick is_account_seed world booted).client_initialised ≡ true)
  unfolding tick start_client pgck_ready Adds
  first_tick world =
      let (rest, effects, quiet, client) =
        gate-Adds world
          (pgck_ready world.present
            (start_client is_account_seed world.gucs (refreshed world.gucs booted)))
          world.present in
      ((rest, effects, quiet), client)

  -- Between two wakes.
  record IsSettled (boot first : Gucs) (b : Process) : Type 0 where
    obeys : Obeys is_account_seed boot first b.gucs b
    running : b.worker.client_initialised ≡ true

  policy_obeys :
      (world : World) (w : Worker)
      → ((callout_policy (tick is_account_seed world w).caches).0 ≡ world.gucs.admit_anonymous)
        × ((k : Text)
            → Has k (configured_kernels world.gucs)
            → Has k (callout_policy (tick is_account_seed world w).caches).1)
  policy_obeys world w =
      let same = tick-policy is_account_seed world w in
      (
        ap (λ (c : Bool × List Text). c.0) same,
        λ k has.
            subst (λ (c : Bool × List Text). Has k c.1) (sym same)
              (union-left k (configured_kernels world.gucs) w.caches.ledger_kernels has),
      )

  wake-IsSettled :
      (w : Wake) (boot first : Gucs) (b : Process)
      → IsSettled boot first b
      → IsSettled boot first (wake process_config_file nats_client is_account_seed w b)
  unfolding wake tick_of Adds
  wake-IsSettled w boot first b h =
      let world = found w (reloaded process_config_file nats_client is_account_seed w b.gucs) in
      let (strict, granted) = policy_obeys world b.worker in
      let (added, effects, quiet, client) = tick-Adds world b.worker h.running in
      let (rest, so_far, silent) = h.obeys.connected in
      record {
        obeys = record {
          strict = strict;
          granted = granted;
          connected = (
            rest ++ added,
            effects ∙ ap (λ (es : List Effect). es ++ added) so_far,
            starts-append rest added ∙ omega (arith, silent, quiet),
          );
          attached = h.obeys.attached;
        };
        running = client ∙ h.running;
      }

  wakes-IsSettled :
      (ws : List Wake) (boot first : Gucs) (b : Process)
      → IsSettled boot first b
      → IsSettled boot first (wakes process_config_file nats_client is_account_seed ws b)
  unfolding wakes
  wakes-IsSettled [] boot first b h = h
  wakes-IsSettled (w ∷ ws) boot first b h =
      wakes-IsSettled ws boot first (wake process_config_file nats_client is_account_seed w b)
        (wake-IsSettled w boot first b h)

  reloaded-in_effect :
      (w : Wake) (g : Gucs)
      → reloaded process_config_file nats_client is_account_seed w g ≡ in_effect g (w ∷ [])
  reloaded-in_effect w g = elim (Bool-cases w.sighup_received) [
    | inl e ↦ rw e (reload-client process_config_file laws w.file g)
    | inr e ↦ rw e refl
  ]

  wakes-in_effect :
      (ws : List Wake) (b : Process)
      → (wakes process_config_file nats_client is_account_seed ws b).gucs ≡ in_effect b.gucs ws
  unfolding wakes wake
  wakes-in_effect [] b = refl
  wakes-in_effect (w ∷ ws) b =
      wakes-in_effect ws (wake process_config_file nats_client is_account_seed w b)
      ∙ ap (λ (g : Gucs). in_effect g ws) (reloaded-in_effect w b.gucs)

  -- In the `nats-client` build, after any wakes: `admit_anonymous` of the policy that the responder
  -- reads is that of the last file that SIGHUP announced, and every kernel configured there is
  -- granted; but the relay and the publisher were started once, with the URL, the stream, the seed
  -- and the verifier's settings of the first tick, and the database is that of the start.
  pub pgck_bridge_main-Obeys :
      (boot : Gucs) (first : Wake) (later : List Wake)
      → Obeys is_account_seed boot
          (in_effect boot (first ∷ []))
          (in_effect boot (first ∷ later))
          (pgck_bridge_main process_config_file nats_client is_account_seed boot (first ∷ later))
  unfolding pgck_bridge_main wakes wake tick_of
  pgck_bridge_main-Obeys boot first later =
      let g = reloaded process_config_file nats_client is_account_seed first boot in
      let (strict, granted) = policy_obeys (found first g) booted in
      let (connected, client) = first_tick (found first g) in
      let start : Process = record {
        gucs = boot;
        database = worker_database boot;
        worker = booted;
      } in
      let settled : IsSettled boot g
          (wake process_config_file nats_client is_account_seed first start) =
        record {
          obeys = record {
            strict = strict;
            granted = granted;
            connected = connected;
            attached = refl;
          };
          running = client;
        } in
      let done =
        wakes-IsSettled later boot g
          (wake process_config_file nats_client is_account_seed first start) settled in
      let ends = wakes-in_effect (first ∷ later) start in
      subst
        (λ (x : Gucs).
          Obeys is_account_seed boot x (in_effect boot (first ∷ later))
            (wakes process_config_file nats_client is_account_seed (first ∷ later) start))
        (reloaded-in_effect first boot)
        (subst
          (λ (x : Gucs).
            Obeys is_account_seed boot g x
              (wakes process_config_file nats_client is_account_seed (first ∷ later) start))
          ends done.obeys)
