-- ===== src/Inbound/Dispatch.antt =====
-- Under whose identity an action is dispatched.
use mathlib.Core.List.{head-eq_of_cons-eq}
use pg_ck.Prelude.{
  ℕ, ◌+◌, ◌≡◌, ◌≢◌, refl, sym, ap, ◌∙◌, true, List, [], ◌∷◌, Option, none, some, if◌then◌else◌, All,
  subst, Option-cases, inl, inr,
}
use pg_ck.Prelude.Int.{ℤ}
use pg_ck.Prelude.Result.{Result, ok, >>=-eq-ok, ok_injective}
use pg_ck.Text.{Text, codes, is_nil, text_eq, text_eq_iff}
use pg_ck.Text.Utf8.{Bytes, decode_lossy}
use pg_ck.Text.Utf8
use pg_ck.Jwt.{verified}
use pg_ck.Policy.Roster.{IsKernelName, Has}
use pg_ck.Relay.{RoutedInbound, route_inbound}
use pg_ck.Callout.Grants.{subject_token, permissions_for}
use pg_ck.Callout.Scope.{permitted, verified_routes_as_itself}
use pg_ck.Client.{IsRunning, Client, Cmd, pushed, publish_core, publish}
use pg_ck.Client.Sent.{pushed_all, send-ok, pushed-IsRunning}
use pg_ck.Inbound.{
  InboundAction, Spi, SpiLaws, enqueue, relay_message, action_for, transaction, dispatch_one,
  dispatch_all, drain_and_dispatch, or_keep, set_requester, set_project,
}

requester-ne-project : codes "ckp.requester" ≢ codes "ckp.project"
unfolding text_eq
requester-ne-project e = cc ((text_eq_iff (codes "ckp.requester") (codes "ckp.project")).1 e)

-- The setting of the kernel: none for an empty one.
abbrev pub project_of : Text → Option Text
project_of kernel = if is_nil kernel then none else some kernel

module _ (spi : Spi) (laws : SpiLaws spi) where
  open spi use {State, setting, dispatch_safe}

  -- A transaction begins with neither setting.
  pub record IsFresh (s : State) : Type 0 where
    pub requester : setting (codes "ckp.requester") s ≡ none
    pub project : setting (codes "ckp.project") s ≡ none

  -- The result came from a dispatch that saw this requester and this project.
  pub record IsDispatched (requester project : Option Text) (verb : Text) (payload : Bytes)
      (out : Option Text) : Type 0 where
    pub state : State
    pub as_requester : setting (codes "ckp.requester") state ≡ requester
    pub on_project : setting (codes "ckp.project") state ≡ project
    pub dispatched : dispatch_safe verb (decode_lossy payload) state ≡ ok out

  pub set_requester_sound :
      (identity : Option Text) (s : State) {t : State}
      → IsFresh s
      → set_requester spi identity s ≡ ok t
      → (setting (codes "ckp.requester") t ≡ identity) × (setting (codes "ckp.project") t ≡ none)
  set_requester_sound none s {t} fresh h =
      subst
        (λ t. (setting (codes "ckp.requester") t ≡ none) × (setting (codes "ckp.project") t ≡ none))
        (ok_injective h) (fresh.requester, fresh.project)
  set_requester_sound (some sub) s fresh h = (
    laws.read_back (codes "ckp.requester") sub h,
    laws.others (codes "ckp.requester") (codes "ckp.project") sub requester-ne-project h
        ∙ fresh.project,
  )

  pub set_project_sound :
      (kernel : Text) (s : State) {t : State}
      → setting (codes "ckp.project") s ≡ none
      → set_project spi kernel s ≡ ok t
      → (setting (codes "ckp.project") t ≡ project_of kernel)
        × (setting (codes "ckp.requester") t ≡ setting (codes "ckp.requester") s)
  set_project_sound [] s {t} unset h =
      subst
        (λ t.
          (setting (codes "ckp.project") t ≡ none)
          × (setting (codes "ckp.requester") t ≡ setting (codes "ckp.requester") s))
        (ok_injective h) (unset, refl)
  set_project_sound (c ∷ kernel) s unset h = (
    laws.read_back (codes "ckp.project") (c ∷ kernel) h,
    laws.others (codes "ckp.project") (codes "ckp.requester") (c ∷ kernel)
        (λ e. requester-ne-project (sym e)) h,
  )

  pub transaction-IsDispatched :
      (a : InboundAction) (s : State) {out : Option Text}
      → IsFresh s
      → transaction spi a s ≡ ok out
      → IsDispatched a.identity (project_of a.kernel) a.verb a.payload out
  unfolding transaction
  transaction-IsDispatched a s fresh h =
      let (t, requested, h1) = >>=-eq-ok (set_requester spi a.identity s) _ h in
      let (u, scoped, h2) = >>=-eq-ok (set_project spi a.kernel t) _ h1 in
      let (as_requester, unset) = set_requester_sound a.identity s fresh requested in
      let (on_project, same) = set_project_sound a.kernel t unset scoped in
      record {
        state = u;
        as_requester = same ∙ as_requester;
        on_project = on_project;
        dispatched = h2;
      }

relay_message_sound :
    (subject : Text) (payload : Bytes) (headers : Option (Text → Option Text)) (a : InboundAction)
    → relay_message subject payload headers [] ≡ a ∷ []
    → (r : RoutedInbound) × (route_inbound subject ≡ some r) × (action_for r payload headers ≡ a)
unfolding relay_message enqueue
relay_message_sound subject payload headers a h = elim (Option-cases (route_inbound subject)) [
  | inl e ↦ absurd (cc (rw e at h))
  | inr (r, e) ↦ (r, e, head-eq_of_cons-eq (rw e at h))
]

named : (ks : List Text) (k : Text) → All IsKernelName ks → Has k ks → IsKernelName k
named [] k h a = absurd a
named (j ∷ ks) k (h, hs) (inl e) = subst IsKernelName e h
named (j ∷ ks) k (h, hs) (inr a) = named ks k hs a

project_of-name : (k : Text) → IsKernelName k → project_of k ≡ some k
project_of-name [] h = absurd (h.filled refl)
project_of-name (c ∷ k) h = refl

-- From the grant to the dispatch: when the relay queues what a verified connection was allowed to
-- publish, and the worker runs that action in a fresh transaction of a database that reads settings
-- back, every result comes from a dispatch that saw the connection's own token as `ckp.requester` and a
-- kernel of the policy as `ckp.project`, with the message's payload; the policy's kernels are names.
pub verified_dispatches_as_itself :
    (spi : Spi) (laws : SpiLaws spi) (sub : Text) (exp : ℤ) (kernels : List Text) (subject : Text)
    (payload : Bytes) (headers : Option (Text → Option Text)) (a : InboundAction) (s : spi.State)
    (out : Option Text)
    → All IsKernelName kernels
    → permitted (permissions_for (verified sub exp) kernels).pub_allow subject ≡ true
    → relay_message subject payload headers [] ≡ a ∷ []
    → IsFresh spi laws s
    → transaction spi a s ≡ ok out
    → Has a.kernel kernels
      × IsDispatched spi laws (some (subject_token sub)) (some a.kernel) a.verb payload out
verified_dispatches_as_itself spi laws sub exp kernels subject payload headers a s out names allowed
      relayed fresh done =
    let (r, routed, same) = relay_message_sound subject payload headers a relayed in
    let (identity, has, _) =
      verified_routes_as_itself sub exp kernels subject r names allowed routed in
    let has_kernel : Has a.kernel kernels =
      subst (λ (a : InboundAction). Has a.kernel kernels) same has in
    let d = transaction-IsDispatched spi laws a s fresh done in
    (
      has_kernel,
      record {
        state = d.state;
        as_requester =
            d.as_requester ∙ ap (λ (a : InboundAction). a.identity) (sym same) ∙ identity;
        on_project =
            d.on_project ∙ project_of-name a.kernel (named kernels a.kernel names has_kernel);
        dispatched =
            subst (λ (p : Bytes). spi.dispatch_safe a.verb (decode_lossy p) d.state ≡ ok out)
              (ap (λ (a : InboundAction). a.payload) (sym same)) d.dispatched;
      },
    )

-- The reply of each action, on its own subject and with its own headers.
abbrev pub replies : (spi : Spi) → List InboundAction → (ℕ → spi.State) → ℕ → List Cmd
replies spi [] begin n = []
replies spi (a ∷ actions) begin n =
    publish_core a.result_subject (Utf8.encode (dispatch_one spi a (begin n))) a.headers
    ∷ replies spi actions begin (n + 1)

dispatch_all-replies :
    (spi : Spi) (actions : List InboundAction) (begin : ℕ → spi.State) (n : ℕ) (c : Client)
    → IsRunning c
    → dispatch_all spi actions begin n c ≡ pushed_all (replies spi actions begin n) c
unfolding dispatch_all publish
dispatch_all-replies spi [] begin n c h = refl
dispatch_all-replies spi (a ∷ actions) begin n c h =
    ap (λ (r : Result Text Client). dispatch_all spi actions begin (n + 1) (or_keep spi c r))
      (send-ok _ reply c h)
    ∙ dispatch_all-replies spi actions begin (n + 1) (pushed reply c) (pushed-IsRunning reply c h)
  where
    reply : Cmd
    reply = publish_core a.result_subject (Utf8.encode (dispatch_one spi a (begin n))) a.headers

-- A tick empties the queue of actions and queues the replies.
pub drain_and_dispatch-replies :
    (spi : Spi) (q : List InboundAction) (begin : ℕ → spi.State) (c : Client)
    → IsRunning c
    → drain_and_dispatch spi q begin c ≡ ([], pushed_all (replies spi q begin 0) c)
unfolding drain_and_dispatch
drain_and_dispatch-replies spi q begin c h =
    ap (λ (d : Client). ([], d)) (dispatch_all-replies spi q begin 0 c h)
