-- ===== src/Tests/Ticks.antt =====
-- Ticks of the worker.
use pg_ck.Prelude.{◌≡◌, refl, true, false, Bool, if◌then◌else◌, [], ◌∷◌, none, some, inl}
use pg_ck.Text.{Text, codes, split}
use pg_ck.Policy.{Gucs, callout_policy, clean_kernels}
use pg_ck.Policy.Roster.{Has}
use pg_ck.Worker.{World, booted, tick}
use pg_ck.Worker.Latency.{tick-tick-Has}
use pg_ck.Worker.{embedded_nats, nats_client}
use pg_ck.Bridge.{Wake, Reload, ReloadLaws, reloads, default_gucs, pgck_bridge_main}
use pg_ck.Bridge.Obeys.{in_effect, Obeys, pgck_bridge_main-Obeys}
use pg_ck.Bridge.Builds.{IsBuilt, pgck_bridge_main-IsBuilt}

abbrev gucs : Gucs
gucs = record {
  nats_url = none;
  nats_js_stream = none;
  nats_account_seed = some (codes "SA");
  oidc_jwks = none;
  oidc_issuer = none;
  oidc_audience = none;
  worker_database = none;
  admit_anonymous = false;
  kernels = some (codes "ck");
}

abbrev absent : World
absent = record { gucs = gucs; present = false; now = 0; ledger = none }

abbrev listed : World
listed = record {
  gucs = gucs;
  present = true;
  now = 7000000000;
  ledger = some (codes "dict,bad.name");
}

abbrev is_seed : Text → Bool
is_seed s = true

kept : Has (codes "dict") (clean_kernels (split b',' (codes "dict,bad.name")))
unfolding clean_kernels split
kept = inl refl

tick-tick-Has_example :
    ((callout_policy (tick is_seed listed booted).caches).0 ≡ false)
    × Has
        (codes "dict")
        (callout_policy (tick is_seed absent (tick is_seed listed booted)).caches).1
tick-tick-Has_example =
    tick-tick-Has is_seed listed absent booted (codes "dict,bad.name") (codes "dict") refl refl refl
      kept

-- A reload that takes from the file what is registered for it.
abbrev reload : Reload
reload defs file g = record {
  nats_url = if reloads defs (codes "pgck.nats_url") then file.nats_url else g.nats_url;
  nats_js_stream =
      if reloads defs (codes "pgck.nats_js_stream") then file.nats_js_stream else g.nats_js_stream;
  nats_account_seed =
      if reloads defs (codes "pgck.nats_account_seed")
      then file.nats_account_seed
      else g.nats_account_seed;
  oidc_jwks = if reloads defs (codes "pgck.oidc_jwks") then file.oidc_jwks else g.oidc_jwks;
  oidc_issuer = if reloads defs (codes "pgck.oidc_issuer") then file.oidc_issuer else g.oidc_issuer;
  oidc_audience =
      if reloads defs (codes "pgck.oidc_audience") then file.oidc_audience else g.oidc_audience;
  admit_anonymous =
      if reloads defs (codes "pgck.admit_anonymous")
      then file.admit_anonymous
      else g.admit_anonymous;
  kernels = if reloads defs (codes "pgck.kernels") then file.kernels else g.kernels;
  worker_database =
      if reloads defs (codes "pgck.worker_database")
      then file.worker_database
      else g.worker_database;
}

reload_laws : ReloadLaws reload
reload_laws = record {
  nats_url = λ defs file g. refl;
  nats_js_stream = λ defs file g. refl;
  nats_account_seed = λ defs file g. refl;
  oidc_jwks = λ defs file g. refl;
  oidc_issuer = λ defs file g. refl;
  oidc_audience = λ defs file g. refl;
  admit_anonymous = λ defs file g. refl;
  kernels = λ defs file g. refl;
  worker_database = λ defs file g. refl;
}

abbrev at_start : Wake
at_start = record {
  sighup_received = false;
  file = default_gucs;
  present = false;
  now = 0;
  ledger = none;
}

abbrev tightened : Wake
tightened = record {
  sighup_received = true;
  file = gucs;
  present = true;
  now = 9000000000;
  ledger = some (codes "dict");
}

pgck_bridge_main-Obeys_example :
    Obeys is_seed default_gucs
      (in_effect default_gucs (at_start ∷ []))
      (in_effect default_gucs (at_start ∷ tightened ∷ at_start ∷ []))
      (pgck_bridge_main reload nats_client is_seed default_gucs
        (at_start ∷ tightened ∷ at_start ∷ []))
pgck_bridge_main-Obeys_example =
    pgck_bridge_main-Obeys reload reload_laws is_seed default_gucs at_start
      (tightened ∷ at_start ∷ [])

pgck_bridge_main-IsBuilt_example :
    IsBuilt embedded_nats
      (pgck_bridge_main reload embedded_nats is_seed default_gucs
        (at_start ∷ tightened ∷ [])).worker
pgck_bridge_main-IsBuilt_example =
    pgck_bridge_main-IsBuilt reload embedded_nats is_seed default_gucs (at_start ∷ tightened ∷ [])
