-- ===== src/Bridge.antt =====
-- src/lib.rs: the settings that the extension registers, and the loop of the background worker, which
-- reloads them on SIGHUP and then ticks.
pub mod Counts
pub mod Obeys
pub mod Builds
use pg_ck.Prelude.{
  ◌≡◌, Bool, true, false, List, [], ◌∷◌, ◌++◌, ℕ, Option, none, some, if◌then◌else◌,
}
use pg_ck.Text.{Text, codes, text_eq}
use pg_ck.Policy.{Gucs, worker_database}
use pg_ck.Worker.{Worker, World, Build, embedded_nats, nats_client, plain, booted, tick_of}

pub data GucContext : Type 0 where
  postmaster sighup : GucContext

-- A registration: the setting's name, when it may change, and whether only a superuser reads it.
pub record GucDef : Type 0 where
  pub name : Text
  pub context : GucContext
  pub superuser_only : Bool

abbrev guc : Text → GucContext → GucDef
guc name context = record { name = name; context = context; superuser_only = false }

-- `GucSetting::new` of each setting.
abbrev pub default_gucs : Gucs
default_gucs = record {
  nats_url = some (codes "nats://127.0.0.1:4222");
  nats_js_stream = none;
  nats_account_seed = none;
  oidc_jwks = none;
  oidc_issuer = none;
  oidc_audience = none;
  worker_database = none;
  admit_anonymous = true;
  kernels = some (codes "pgck");
}

abbrev client_gucs : List GucDef
client_gucs =
    guc (codes "pgck.admit_anonymous") sighup
    ∷ guc (codes "pgck.nats_url") sighup
    ∷ guc (codes "pgck.nats_js_stream") sighup
    ∷ guc (codes "pgck.oidc_jwks") sighup
    ∷ guc (codes "pgck.oidc_issuer") sighup
    ∷ guc (codes "pgck.oidc_audience") sighup
    ∷ record { name = codes "pgck.nats_account_seed"; context = sighup; superuser_only = true }
    ∷ guc (codes "pgck.kernels") sighup
    ∷ []

-- `_PG_init`: what it registers, in its order.
unfoldable pub registered : Build → List GucDef
registered nats_client = guc (codes "pgck.worker_database") postmaster ∷ client_gucs
registered _ = guc (codes "pgck.worker_database") postmaster ∷ []

abbrev is_sighup : GucContext → Bool
is_sighup sighup = true
is_sighup postmaster = false

-- Whether a setting is registered as one that a reload may change.
unfoldable pub reloads : List GucDef → Text → Bool
reloads [] name = false
reloads (d ∷ defs) name =
    let later = reloads defs name in if text_eq d.name name then is_sighup d.context else later

-- PostgreSQL's `ProcessConfigFile(PGC_SIGHUP)`, from the registrations, the file's settings and those
-- in effect.
abbrev pub Reload : Type 0
Reload = List GucDef → Gucs → Gucs → Gucs

-- What is documented of it: a setting takes the file's value if it is registered as one that a reload
-- may change, and else it stays.
pub record ReloadLaws (process_config_file : Reload) : Type 0 where
  pub nats_url :
      (defs : List GucDef) (file g : Gucs)
      → (process_config_file defs file g).nats_url
        ≡ (if reloads defs (codes "pgck.nats_url") then file.nats_url else g.nats_url)
  pub nats_js_stream :
      (defs : List GucDef) (file g : Gucs)
      → (process_config_file defs file g).nats_js_stream ≡ (
          if reloads defs (codes "pgck.nats_js_stream")
          then file.nats_js_stream
          else g.nats_js_stream)
  pub nats_account_seed :
      (defs : List GucDef) (file g : Gucs)
      → (process_config_file defs file g).nats_account_seed ≡ (
          if reloads defs (codes "pgck.nats_account_seed")
          then file.nats_account_seed
          else g.nats_account_seed)
  pub oidc_jwks :
      (defs : List GucDef) (file g : Gucs)
      → (process_config_file defs file g).oidc_jwks
        ≡ (if reloads defs (codes "pgck.oidc_jwks") then file.oidc_jwks else g.oidc_jwks)
  pub oidc_issuer :
      (defs : List GucDef) (file g : Gucs)
      → (process_config_file defs file g).oidc_issuer
        ≡ (if reloads defs (codes "pgck.oidc_issuer") then file.oidc_issuer else g.oidc_issuer)
  pub oidc_audience :
      (defs : List GucDef) (file g : Gucs)
      → (process_config_file defs file g).oidc_audience ≡ (
          if reloads defs (codes "pgck.oidc_audience") then file.oidc_audience else g.oidc_audience)
  pub admit_anonymous :
      (defs : List GucDef) (file g : Gucs)
      → (process_config_file defs file g).admit_anonymous ≡ (
          if reloads defs (codes "pgck.admit_anonymous")
          then file.admit_anonymous
          else g.admit_anonymous)
  pub kernels :
      (defs : List GucDef) (file g : Gucs)
      → (process_config_file defs file g).kernels
        ≡ (if reloads defs (codes "pgck.kernels") then file.kernels else g.kernels)
  pub worker_database :
      (defs : List GucDef) (file g : Gucs)
      → (process_config_file defs file g).worker_database ≡ (
          if reloads defs (codes "pgck.worker_database")
          then file.worker_database
          else g.worker_database)

-- What a return of `wait_latch` finds: whether SIGHUP came, the configuration file, and the rest of
-- the world as the tick reads it.
pub record Wake : Type 0 where
  pub sighup_received : Bool
  pub file : Gucs
  pub present : Bool
  pub now : ℕ
  pub ledger : Option Text

-- The worker's process: the settings in effect, the database that it attached to, and its ticks.
pub record Process : Type 0 where
  pub gucs : Gucs
  pub database : Text
  pub worker : Worker

abbrev pub found : Wake → Gucs → World
found w g = record { gucs = g; present = w.present; now = w.now; ledger = w.ledger }

module _ (process_config_file : Reload) (build : Build) (is_account_seed : Text → Bool) where
  abbrev pub reloaded : Wake → Gucs → Gucs
  reloaded w g = if w.sighup_received then process_config_file (registered build) w.file g else g

  unfoldable pub wake : Wake → Process → Process
  unfolding registered tick_of
  wake w b = record b {
    gucs = reloaded w b.gucs;
    worker = tick_of build is_account_seed (found w (reloaded w b.gucs)) b.worker;
  }

  unfoldable pub wakes : List Wake → Process → Process
  unfolding wake
  wakes [] b = b
  wakes (w ∷ ws) b = wakes ws (wake w b)

  -- From the settings at the process's start, until `wait_latch` reports the end.
  unfoldable pub pgck_bridge_main : Gucs → List Wake → Process
  unfolding wakes worker_database
  pgck_bridge_main boot ws =
      wakes ws (record { gucs = boot; database = worker_database boot; worker = booted })
