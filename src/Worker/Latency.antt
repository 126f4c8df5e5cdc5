-- ===== src/Worker/Latency.antt =====
-- When a change of the settings or of the ledger reaches the responder.
use pg_ck.Prelude.{
  ◌≡◌, refl, sym, ap, subst, Bool, true, false, List, Option, none, some, if◌then◌else◌, Bool-cases,
  inl, inr, arith,
}
use pg_ck.Text.{Text, split}
use pg_ck.Policy.{
  Gucs, Caches, refresh_callout_policy, set_ledger_kernels, callout_policy, clean_kernels,
  configured_kernels, union,
}
use pg_ck.Policy.Roster.{Has, union-right}
use pg_ck.Worker.{
  Worker, World, start_client, pgck_ready, refresh_ledger_kernels, is_due, gated, run_drains,
  refreshed, store_ledger, tick,
}

start_client-caches :
    (p : Text → Bool) (g : Gucs) (w : Worker) → (start_client p g w).caches ≡ w.caches
unfolding start_client
start_client-caches p g w = elim (Bool-cases w.client_initialised) [
  | inl e ↦ rw e refl
  | inr e ↦ rw e refl
]

store_ledger-policy :
    (ledger : Option Text) (c : Caches) → (store_ledger ledger c).callout_policy ≡ c.callout_policy
unfolding set_ledger_kernels
store_ledger-policy none c = refl
store_ledger-policy (some csv) c = refl

gated-policy :
    (world : World) (w : Worker) → (gated world w).caches.callout_policy ≡ w.caches.callout_policy
unfolding refresh_ledger_kernels
gated-policy world w = gate w.ready
  where
    stored :
        (b : Bool)
        → (if b
            then record w {
              ledger_last = some world.now;
              caches = store_ledger world.ledger w.caches;
            }
            else w).caches.callout_policy
          ≡ w.caches.callout_policy
    stored true = store_ledger-policy world.ledger w.caches
    stored false = refl

    gate :
        (b : Bool)
        → (if b then run_drains (refresh_ledger_kernels world w) else w).caches.callout_policy
          ≡ w.caches.callout_policy
    gate true = stored (is_due w.ledger_last world.now)
    gate false = refl

-- The policy after a tick.
pub tick-policy :
    (p : Text → Bool) (world : World) (w : Worker)
    → callout_policy (tick p world w).caches
      ≡ (world.gucs.admit_anonymous, union (configured_kernels world.gucs) w.caches.ledger_kernels)
unfolding tick callout_policy pgck_ready refresh_callout_policy
tick-policy p world w =
    let start = start_client p world.gucs (refreshed world.gucs w) in
    let same = gated-policy world (pgck_ready world.present start) in
    let started = start_client-caches p world.gucs (refreshed world.gucs w) in
    rw (same, started) refl

tick-ledger :
    (p : Text → Bool) (world : World) (w : Worker) (csv : Text)
    → world.ledger ≡ some csv
    → world.present ≡ true
    → is_due w.ledger_last world.now ≡ true
    → (tick p world w).caches.ledger_kernels ≡ clean_kernels (split b',' csv)
unfolding tick start_client pgck_ready refresh_ledger_kernels set_ledger_kernels
tick-ledger p world w csv listed present due = elim (Bool-cases w.client_initialised) [
  | inl e ↦ ground (arith, listed, present, due, e)
  | inr e ↦ ground (arith, listed, present, due, e)
]

-- A tick hands the current `admit_anonymous` to the responder at once, and a kernel that the ledger
-- lists, when the extension is present and the ledger's refresh is due, is granted from the next tick
-- on, whatever that tick finds, under a name that the filter keeps.
pub tick-tick-Has :
    (p : Text → Bool) (first second : World) (w : Worker) (csv k : Text)
    → first.ledger ≡ some csv
    → first.present ≡ true
    → is_due w.ledger_last first.now ≡ true
    → Has k (clean_kernels (split b',' csv))
    → ((callout_policy (tick p first w).caches).0 ≡ first.gucs.admit_anonymous)
      × Has k (callout_policy (tick p second (tick p first w)).caches).1
tick-tick-Has p first second w csv k listed present due has = (
  ap (λ (c : Bool × List Text). c.0) (tick-policy p first w),
  subst (λ (c : Bool × List Text). Has k c.1) (sym (tick-policy p second (tick p first w)))
      (union-right k (configured_kernels second.gucs) (tick p first w).caches.ledger_kernels
        (subst (Has k) (sym (tick-ledger p first w csv listed present due)) has)),
)
