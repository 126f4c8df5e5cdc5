-- ===== src/Callout/Scope.antt =====
-- What the minted permissions allow, by the subject matching of the repository's own broker.
use pg_ck.Prelude.{
  ◌≡◌, ◌↔◌, ◌⊎◌, ◌∙◌, inl, inr, refl, sym, ap, Bool, true, false, List, [], ◌∷◌, some, map, arith,
  All, Any, any, All-Any, Any-mono, if◌then◌else◌,
}
use pg_ck.Prelude.Int.{ℤ}
use pg_ck.Text.{Text, codes}
use pg_ck.Jwt.{verified, anonymous}
use pg_ck.Policy.Roster.{IsKernelName, Has}
use pg_ck.Nats.Router.{matches}
use pg_ck.Nats.Router.Open.{prefixed}
use pg_ck.Relay.{RoutedInbound, route_inbound, reply_to}
use pg_ck.Relay.Routes.{route_inbound-parts, routed_sound}
use pg_ck.Callout.Grants.{
  subject_token, permissions_for, verified_sub_allow, event_subject, input_subject,
}
use pg_ck.Callout.Token.{subject_token-ne-nil, subject_token-IsTokenChar}
use pg_ck.Callout.Patterns.{
  Under, event_tokens, result_tokens, input_tokens, event_iff, result_iff, input_iff, inbox_iff,
}

-- One of the patterns matches the subject.
abbrev pub permitted : List Text → Text → Bool
permitted allow subject = any (λ p. matches p subject) allow

any_some : (b c : Bool) → (if b then true else c) ≡ true → (b ≡ true) ⊎ (c ≡ true)
any_some true c h = inl refl
any_some false c h = inr h

module _ (P : Text → Type 0) (pattern : Text → Text) (subject : Text)
    (law : (k : Text) → IsKernelName k → (matches (pattern k) subject ≡ true) ↔ P k) where
  map-permitted :
      (ks : List Text) → All IsKernelName ks → permitted (map pattern ks) subject ≡ true → Any P ks
  map-permitted [] h m = absurd (cc)
  map-permitted (k ∷ ks) (hk, hs) m = elim (any_some _ _ m) [
    | inl here ↦ inl ((law k hk).0 here)
    | inr later ↦ inr (map-permitted ks hs later)
  ]

  permitted-map :
      (ks : List Text) → All IsKernelName ks → Any P ks → permitted (map pattern ks) subject ≡ true
  permitted-map [] h a = absurd a
  permitted-map (k ∷ ks) (hk, hs) (inl p) = rw ((law k hk).1 p) refl
  permitted-map (k ∷ ks) (hk, hs) (inr a) = rw (permitted-map ks hs a) (ground arith)

-- A verified connection may publish exactly on the subjects `input.kernel.<K>.id.<T>.action.<rest>`,
-- with T its own token and K a kernel of the policy, as long as the policy's kernels are names.
pub verified_publish_iff :
    (sub : Text) (exp : ℤ) (kernels : List Text) (subject : Text)
    → All IsKernelName kernels
    → (permitted (permissions_for (verified sub exp) kernels).pub_allow subject ≡ true)
      ↔ Any (λ k. Under (input_tokens k (subject_token sub)) subject) kernels
unfolding permissions_for
verified_publish_iff sub exp kernels subject h =
    let law = λ (k : Text) (hk : IsKernelName k). input_iff k sub subject hk in
    (
      map-permitted _ (λ k. input_subject k (subject_token sub)) subject law kernels h,
      permitted-map _ (λ k. input_subject k (subject_token sub)) subject law kernels h,
    )

-- Where the subject lies for a verified connection that subscribes.
abbrev pub Readable : List Text → Text → Type 0
Readable kernels subject =
    Any (λ k. Under (event_tokens k) subject ⊎ Under (result_tokens k) subject) kernels
    ⊎ Under (codes "_INBOX" ∷ []) subject

reads_sound :
    (kernels : List Text) (subject : Text)
    → All IsKernelName kernels
    → permitted (verified_sub_allow kernels) subject ≡ true
    → Readable kernels subject
unfolding verified_sub_allow
reads_sound [] subject h m = elim (any_some _ _ m) [
  | inl here ↦ inr ((inbox_iff subject).0 here)
  | inr never ↦ absurd (cc)
]
reads_sound (k ∷ kernels) subject (hk, hs) m = elim (any_some _ _ m) [
  | inl event ↦ inl (inl (inl ((event_iff k subject hk).0 event)))
  | inr later ↦ elim (any_some _ _ later) [
    | inl result ↦ inl (inl (inr ((result_iff k subject hk).0 result)))
    | inr rest ↦ elim (reads_sound kernels subject hs rest) [
      | inl kernel ↦ inl (inr kernel)
      | inr inbox ↦ inr inbox
    ]
  ]
]

reads_inbox :
    (kernels : List Text) (subject : Text)
    → Under (codes "_INBOX" ∷ []) subject
    → permitted (verified_sub_allow kernels) subject ≡ true
unfolding verified_sub_allow
reads_inbox [] subject u = rw ((inbox_iff subject).1 u) refl
reads_inbox (k ∷ kernels) subject u = rw (reads_inbox kernels subject u) (ground arith)

reads_kernel :
    (kernels : List Text) (subject : Text)
    → All IsKernelName kernels
    → Any (λ k. Under (event_tokens k) subject ⊎ Under (result_tokens k) subject) kernels
    → permitted (verified_sub_allow kernels) subject ≡ true
unfolding verified_sub_allow
reads_kernel [] subject h a = absurd a
reads_kernel (k ∷ kernels) subject (hk, hs) (inl (inl event)) =
    rw ((event_iff k subject hk).1 event) refl
reads_kernel (k ∷ kernels) subject (hk, hs) (inl (inr result)) =
    rw ((result_iff k subject hk).1 result) (ground arith)
reads_kernel (k ∷ kernels) subject (hk, hs) (inr a) =
    rw (reads_kernel kernels subject hs a) (ground arith)

-- A verified connection may subscribe exactly to what lies under a kernel's events, a kernel's results
-- or the inbox, for the kernels of the policy, as long as these are names.
pub verified_read_iff :
    (sub : Text) (exp : ℤ) (kernels : List Text) (subject : Text)
    → All IsKernelName kernels
    → (permitted (permissions_for (verified sub exp) kernels).sub_allow subject ≡ true)
      ↔ Readable kernels subject
unfolding permissions_for
verified_read_iff sub exp kernels subject h = (
  reads_sound kernels subject h,
  λ r. elim r [ inl a ↦ reads_kernel kernels subject h a | inr u ↦ reads_inbox kernels subject u ],
)

-- An anonymous connection may publish nowhere, and may subscribe exactly to what lies under the events
-- of the policy's kernels, as long as these are names.
pub anonymous_scope_iff :
    (kernels : List Text) (subject : Text)
    → All IsKernelName kernels
    → (permitted (permissions_for anonymous kernels).pub_allow subject ≡ false)
      × ((permitted (permissions_for anonymous kernels).sub_allow subject ≡ true)
          ↔ Any (λ k. Under (event_tokens k) subject) kernels)
unfolding permissions_for
anonymous_scope_iff kernels subject h =
    let law = λ (k : Text) (hk : IsKernelName k). event_iff k subject hk in
    (
      refl,
      (
        map-permitted _ event_subject subject law kernels h,
        permitted-map _ event_subject subject law kernels h,
      ),
    )

routes_as :
    (k sub verb : Text) (r : RoutedInbound)
    → IsKernelName k
    → route_inbound (prefixed (input_tokens k (subject_token sub)) verb) ≡ some r
    → r ≡ record {
      kernel = k;
      identity = some (subject_token sub);
      verb = verb;
      result_subject = reply_to k verb;
    }
routes_as k sub verb r h e =
    let (_, _, dotless, _) = subject_token-IsTokenChar sub in
    let parts =
      route_inbound-parts
        (record {
          kernel = k;
          identity = some (subject_token sub);
          verb = verb;
          result_subject = reply_to k verb;
        })
        (h.filled, h.dotless) (subject_token-ne-nil sub, dotless) in
    (routed_sound k (some (subject_token sub), verb) r (sym parts ∙ e)).1

-- What a verified connection is allowed to publish and the relay routes is routed with that
-- connection's own token as its identity and no other, on a kernel of the policy, and the connection
-- may subscribe to the subject of the reply; the policy's kernels are names.
pub verified_routes_as_itself :
    (sub : Text) (exp : ℤ) (kernels : List Text) (subject : Text) (r : RoutedInbound)
    → All IsKernelName kernels
    → permitted (permissions_for (verified sub exp) kernels).pub_allow subject ≡ true
    → route_inbound subject ≡ some r
    → (r.identity ≡ some (subject_token sub))
      × Has r.kernel kernels
      × (permitted (permissions_for (verified sub exp) kernels).sub_allow r.result_subject ≡ true)
verified_routes_as_itself sub exp kernels subject r h m e =
    let a = (verified_publish_iff sub exp kernels subject h).0 m in
    let found =
      All-Any IsKernelName _
        (λ k.
          (r.identity ≡ some (subject_token sub))
          × (k ≡ r.kernel)
          × Under (result_tokens k) r.result_subject)
        kernels
        (λ k hk (verb, spelled).
          let same = routes_as k sub verb r hk (rw spelled at e) in
          (
            ap (λ (r : RoutedInbound). r.identity) same,
            sym (ap (λ (r : RoutedInbound). r.kernel) same),
            (verb, ap (λ (r : RoutedInbound). r.result_subject) same),
          ))
        h a in
    (
      first kernels found,
      Any-mono _ _ kernels (λ k (_, same, _). same) found,
      (verified_read_iff sub exp kernels r.result_subject h).1
          (inl (Any-mono _ _ kernels (λ k (_, _, under). inr under) found)),
    )
  where
    first :
        (ks : List Text)
        → Any
            (λ k.
              (r.identity ≡ some (subject_token sub))
              × (k ≡ r.kernel)
              × Under (result_tokens k) r.result_subject)
            ks
        → r.identity ≡ some (subject_token sub)
    first [] a = absurd a
    first (k ∷ ks) (inl (identity, _, _)) = identity
    first (k ∷ ks) (inr a) = first ks a
