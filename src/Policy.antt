-- ===== src/Policy.antt =====
-- The configuration snapshots and the callout policy of src/lib.rs. A GUC is the text that PostgreSQL
-- holds for it, if any; the two caches are the fields of `Caches`.
pub mod Roster
pub mod Verifier
use mathlib.Core.Option
use pg_ck.Prelude.{
  ℕ, Bool, true, false, ◌||◌, ◌&&◌, not, List, [], ◌∷◌, ◌++◌, Option, none, some, map, filter, ◌==◌,
  if◌then◌else◌, any,
}
use pg_ck.Prelude.Result.{to_option}
use pg_ck.Text.{
  Text, codes, text_eq, split, trim, trim_start, starts_with, is_filled, is_whitespace,
}
use pg_ck.Libraries.{Codec, Ed25519}
use pg_ck.Jwt.{AuthConfig, from_parts}

pub record Gucs : Type 0 where
  pub nats_url : Option Text
  pub nats_js_stream : Option Text
  pub nats_account_seed : Option Text
  pub oidc_jwks : Option Text
  pub oidc_issuer : Option Text
  pub oidc_audience : Option Text
  pub worker_database : Option Text
  pub admit_anonymous : Bool
  pub kernels : Option Text

-- `.unwrap_or_else(…)`
abbrev pub unwrap_or : Text → Option Text → Text
unwrap_or d none = d
unwrap_or d (some s) = s

-- `.filter(…)` on an optional text.
abbrev pub keep_if : (Text → Bool) → Option Text → Option Text
keep_if p none = none
keep_if p (some s) = if p s then some s else none

unfoldable pub nats_url : Gucs → Text
nats_url g = unwrap_or (codes "nats://127.0.0.1:4222") g.nats_url

unfoldable pub nats_js_stream : Gucs → Option Text
nats_js_stream g = keep_if is_filled g.nats_js_stream

unfoldable pub nats_account_seed : Gucs → Option Text
unfolding trim
nats_account_seed g = keep_if (λ s. is_filled (trim s)) g.nats_account_seed

unfoldable pub worker_database : Gucs → Text
worker_database g = unwrap_or (codes "postgres") (keep_if is_filled g.worker_database)

-- `['.', '*', '>', ' ', '\t', '\r', '\n']`
abbrev pub is_metachar : ℕ → Bool
is_metachar c = c == b'.' || c == b'*' || c == b'>' || c == b' ' || c == 9 || c == 13 || c == 10

abbrev pub is_kernel_name : Text → Bool
is_kernel_name k = is_filled k && not (any is_metachar k)

-- Trim, then drop what is empty or holds a metacharacter.
unfoldable pub clean_kernels : List Text → List Text
unfolding trim
clean_kernels ks = filter is_kernel_name (map trim ks)

unfoldable pub configured_kernels : Gucs → List Text
unfolding clean_kernels split
configured_kernels g = clean_kernels (split b',' (unwrap_or [] g.kernels))

pub record Caches : Type 0 where
  pub callout_policy : Option (Bool × List Text)
  pub ledger_kernels : List Text

abbrev pub initial : Caches
initial = record { callout_policy = none; ledger_kernels = [] }

unfoldable pub set_ledger_kernels : List Text → Caches → Caches
unfolding clean_kernels
set_ledger_kernels kernels c = record c { ledger_kernels = clean_kernels kernels }

abbrev pub contains : List Text → Text → Bool
contains ks k = any (λ j. text_eq j k) ks

-- The loop that adds the ledger's names to the configured ones.
unfoldable pub union : List Text → List Text → List Text
union kernels [] = kernels
union kernels (k ∷ ledger) =
    union (if contains kernels k then kernels else kernels ++ k ∷ []) ledger

unfoldable pub refresh_callout_policy : Gucs → Caches → Caches
unfolding configured_kernels union
refresh_callout_policy g c = record c {
  callout_policy = some (g.admit_anonymous, union (configured_kernels g) c.ledger_kernels);
}

abbrev or_default : Option (Bool × List Text) → Bool × List Text
or_default none = (true, codes "pgck" ∷ [])
or_default (some p) = p

unfoldable pub callout_policy : Caches → Bool × List Text
callout_policy c = or_default c.callout_policy

abbrev pub is_url : Text → Bool
is_url jwks =
    starts_with (codes "http://") (trim_start jwks)
    || starts_with (codes "https://") (trim_start jwks)

module _ (codec : Codec) (ed : Ed25519) where
  abbrev pub auth_config : Option Text → Option Text → Option Text → Option (AuthConfig codec ed)
  auth_config (some jwks) (some issuer) (some audience) =
      if is_url jwks then none else to_option (from_parts codec ed jwks issuer audience)
  auth_config _ _ _ = none

  -- What the `OnceLock` is filled with at the first call.
  unfoldable pub oidc_auth_config : Gucs → Option (AuthConfig codec ed)
  unfolding trim_start
  oidc_auth_config g = auth_config g.oidc_jwks g.oidc_issuer g.oidc_audience
