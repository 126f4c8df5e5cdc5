-- ===== src/Worker/Order.antt =====
-- What holds of the worker after any ticks, and when a sealed kernel reaches the responder.
use mathlib.Core.Option.{none-ne-some}
use pg_ck.Prelude.{
  ℕ, suc, ◌+◌, ◌≡◌, ◌≢◌, refl, sym, ◌∙◌, Bool, true, false, List, [], ◌∷◌, ◌++◌, Option, none, some,
  if◌then◌else◌, arith, Bool-cases, inl, inr,
}
use pg_ck.Text.{Text}
use pg_ck.Policy.{Gucs, refresh_callout_policy, set_ledger_kernels}
use pg_ck.Worker
use pg_ck.Worker.{
  Effect, Worker, World, booted, start_client, pgck_ready, refresh_ledger_kernels, is_due, gated,
  run_drains, refreshed, tick, ticks, relay_started, publisher_started, server_spawned,
  inbound_drained, outbox_drained, materialized, orbited,
}

-- How often the relay was started.
abbrev pub starts : List Effect → ℕ
starts [] = 0
starts (relay_started _ _ ∷ es) = suc (starts es)
starts (publisher_started _ _ ∷ es) = starts es
starts (server_spawned ∷ es) = starts es
starts (inbound_drained ∷ es) = starts es
starts (outbox_drained ∷ es) = starts es
starts (materialized ∷ es) = starts es
starts (orbited ∷ es) = starts es

-- How often something of the database was drained.
abbrev pub drains : List Effect → ℕ
drains [] = 0
drains (relay_started _ _ ∷ es) = drains es
drains (publisher_started _ _ ∷ es) = drains es
drains (server_spawned ∷ es) = drains es
drains (inbound_drained ∷ es) = suc (drains es)
drains (outbox_drained ∷ es) = suc (drains es)
drains (materialized ∷ es) = suc (drains es)
drains (orbited ∷ es) = suc (drains es)

pub starts-append : (xs ys : List Effect) → starts (xs ++ ys) ≡ starts xs + starts ys
starts-append [] ys = omega arith
starts-append (relay_started _ _ ∷ xs) ys = omega (arith, starts-append xs ys)
starts-append (publisher_started _ _ ∷ xs) ys = starts-append xs ys
starts-append (server_spawned ∷ xs) ys = starts-append xs ys
starts-append (inbound_drained ∷ xs) ys = starts-append xs ys
starts-append (outbox_drained ∷ xs) ys = starts-append xs ys
starts-append (materialized ∷ xs) ys = starts-append xs ys
starts-append (orbited ∷ xs) ys = starts-append xs ys

pub drains-append : (xs ys : List Effect) → drains (xs ++ ys) ≡ drains xs + drains ys
drains-append [] ys = omega arith
drains-append (relay_started _ _ ∷ xs) ys = drains-append xs ys
drains-append (publisher_started _ _ ∷ xs) ys = drains-append xs ys
drains-append (server_spawned ∷ xs) ys = drains-append xs ys
drains-append (inbound_drained ∷ xs) ys = omega (arith, drains-append xs ys)
drains-append (outbox_drained ∷ xs) ys = omega (arith, drains-append xs ys)
drains-append (materialized ∷ xs) ys = omega (arith, drains-append xs ys)
drains-append (orbited ∷ xs) ys = omega (arith, drains-append xs ys)

-- The relay has started once if the client is initialised and never before, the policy is cached when
-- it has, and nothing of the database is drained before the extension was seen.
pub record IsOrderly (w : Worker) : Type 0 where
  pub once : starts w.effects ≡ (if w.client_initialised then 1 else 0)
  pub cached : w.client_initialised ≡ true → w.caches.callout_policy ≢ none
  pub waits : w.ready ≡ false → drains w.effects ≡ 0

-- The same, with the policy cached in any case.
record IsPrepared (w : Worker) : Type 0 where
  once : starts w.effects ≡ (if w.client_initialised then 1 else 0)
  cached : w.caches.callout_policy ≢ none
  waits : w.ready ≡ false → drains w.effects ≡ 0

refreshed-IsPrepared : (g : Gucs) (w : Worker) → IsOrderly w → IsPrepared (refreshed g w)
unfolding refresh_callout_policy
refreshed-IsPrepared g w h = record {
  once = h.once;
  cached = λ e. absurd (none-ne-some _ (sym e));
  waits = h.waits;
}

start_client-IsPrepared :
    (p : Text → Bool) (g : Gucs) (w : Worker) → IsPrepared w → IsPrepared (start_client p g w)
unfolding start_client
start_client-IsPrepared p g w h = elim (Bool-cases w.client_initialised) [
  | inl e ↦ rw e (record { once = (rw e at h.once); cached = h.cached; waits = h.waits })
  | inr e ↦ rw e (record {
    once = starts-append w.effects _ ∙ omega (arith, rw e at h.once);
    cached = h.cached;
    waits = λ r. drains-append w.effects _ ∙ omega (arith, h.waits r);
  })
]

pgck_ready-IsPrepared : (b : Bool) (w : Worker) → IsPrepared w → IsPrepared (pgck_ready b w)
unfolding pgck_ready
pgck_ready-IsPrepared b w h = record {
  once = h.once;
  cached = h.cached;
  waits = λ r. h.waits (ground arith);
}

refresh_ledger_kernels-IsPrepared :
    (world : World) (w : Worker) → IsPrepared w → IsPrepared (refresh_ledger_kernels world w)
unfolding refresh_ledger_kernels set_ledger_kernels
refresh_ledger_kernels-IsPrepared world w h = elim (Bool-cases (is_due w.ledger_last world.now)) [
  | inl e ↦ rw e (stored world.ledger)
  | inr e ↦ rw e h
]
  where
    stored :
        (ledger : Option Text)
        → IsPrepared (record w {
          ledger_last = some world.now;
          caches = Worker.store_ledger ledger w.caches;
        })
    stored none = record { once = h.once; cached = h.cached; waits = h.waits }
    stored (some csv) = record { once = h.once; cached = h.cached; waits = h.waits }

refresh_ledger_kernels-ready :
    (world : World) (w : Worker) → (refresh_ledger_kernels world w).ready ≡ w.ready
unfolding refresh_ledger_kernels
refresh_ledger_kernels-ready world w = elim (Bool-cases (is_due w.ledger_last world.now)) [
  | inl e ↦ rw e refl
  | inr e ↦ rw e refl
]

run_drains-IsOrderly : (w : Worker) → w.ready ≡ true → IsPrepared w → IsOrderly (run_drains w)
run_drains-IsOrderly w e h = record {
  once = starts-append w.effects _ ∙ omega (arith, h.once);
  cached = λ _. h.cached;
  waits = λ never. absurd (cc (e, never));
}

gate-IsOrderly :
    (world : World) (w : Worker) (b : Bool)
    → w.ready ≡ b
    → IsPrepared w
    → IsOrderly (if b then run_drains (refresh_ledger_kernels world w) else w)
gate-IsOrderly world w true e h =
    run_drains-IsOrderly (refresh_ledger_kernels world w) (refresh_ledger_kernels-ready world w ∙ e)
      (refresh_ledger_kernels-IsPrepared world w h)
gate-IsOrderly world w false e h = record {
  once = h.once;
  cached = λ _. h.cached;
  waits = λ _. h.waits e;
}

gated-IsOrderly : (world : World) (w : Worker) → IsPrepared w → IsOrderly (gated world w)
gated-IsOrderly world w h = gate-IsOrderly world w w.ready refl h

pub tick-IsOrderly :
    (p : Text → Bool) (world : World) (w : Worker) → IsOrderly w → IsOrderly (tick p world w)
unfolding tick
tick-IsOrderly p world w h = gated-IsOrderly world _ (
    pgck_ready-IsPrepared world.present _
      (start_client-IsPrepared p world.gucs _ (refreshed-IsPrepared world.gucs w h)))

ticks-keep :
    (p : Text → Bool) (worlds : List World) (w : Worker)
    → IsOrderly w
    → IsOrderly (ticks p worlds w)
unfolding ticks
ticks-keep p [] w h = h
ticks-keep p (world ∷ worlds) w h =
    ticks-keep p worlds (tick p world w) (tick-IsOrderly p world w h)

-- After any ticks of a booted worker, whatever they find: the relay was started at most once, and only
-- with the policy cached, so that a request never meets an empty cache; and as long as the extension
-- was not seen, nothing of the database was drained.
pub ticks-IsOrderly : (p : Text → Bool) (worlds : List World) → IsOrderly (ticks p worlds booted)
ticks-IsOrderly p worlds =
    ticks-keep p worlds booted
      (record { once = refl; cached = λ e. absurd (ground arith); waits = λ _. refl })
