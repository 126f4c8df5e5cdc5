-- ===== src/Relay/Routes.antt =====
-- Which subjects route, and to what.
use mathlib.Core.Option
use mathlib.Core.Option.{some-injective}
use mathlib.Core.List.{cons-ne-nil}
use pg_ck.Prelude.{
  ◌≡◌, ◌↔◌, ◌≢◌, ◌∙◌, refl, sym, ap, false, [], ◌∷◌, ◌++◌, Option, none, some, >>=-eq-some,
  Bool-cases, Option-cases, inl, inr, subst,
}
use pg_ck.Text.{
  Text, codes, strip_prefix, split_once, is_nil, Lacks, strip_prefix-append, strip_prefix_sound,
  split_once-append, split_once_sound,
}
use pg_ck.Relay.{
  RoutedInbound, scoped_tail, plain_verb, identity_and_verb, reply_to, routed, route_after,
  route_inbound,
}

-- The part of a subject behind its kernel.
abbrev pub action_of : Option Text → Text → Text
action_of none verb = codes "action." ++ verb
action_of (some sub) verb = codes "id." ++ (sub ++ b'.' ∷ (codes "action." ++ verb))

-- The subject that a routed action was published on.
abbrev pub inbound_subject : RoutedInbound → Text
inbound_subject r = codes "input.kernel." ++ (r.kernel ++ b'.' ∷ action_of r.identity r.verb)

abbrev pub IsToken : Text → Type 0
IsToken s = (s ≢ []) × Lacks b'.' s

abbrev pub IsOptionalToken : Option Text → Type 0
IsOptionalToken none = Unit
IsOptionalToken (some s) = IsToken s

-- The kernel and the identity are one token each, the verb is not empty, and the reply goes to the
-- result subject of that kernel and verb.
pub record IsRouted (r : RoutedInbound) : Type 0 where
  pub kernel : IsToken r.kernel
  pub identity : IsOptionalToken r.identity
  pub verb : r.verb ≢ []
  pub reply : r.result_subject ≡ reply_to r.kernel r.verb

is_nil-false : (s : Text) → s ≢ [] → is_nil s ≡ false
is_nil-false [] h = absurd (h refl)
is_nil-false (c ∷ s) h = refl

ne-nil_of_is_nil : (s : Text) → is_nil s ≡ false → s ≢ []
ne-nil_of_is_nil [] h = absurd (cc)
ne-nil_of_is_nil (c ∷ s) h = cons-ne-nil c s

identity_and_verb-action_of :
    (identity : Option Text) (verb : Text)
    → IsOptionalToken identity
    → identity_and_verb (action_of identity verb) ≡ some (identity, verb)
unfolding identity_and_verb strip_prefix
identity_and_verb-action_of none verb h = refl
identity_and_verb-action_of (some sub) verb (filled, dotless) =
    rw (split_once-append b'.' sub _ dotless, is_nil-false sub filled) refl

plain_verb_sound :
    (after : Text) {identity : Option Text} {verb : Text}
    → plain_verb after ≡ some (identity, verb)
    → IsOptionalToken identity × (after ≡ action_of identity verb)
plain_verb_sound after h =
    let (v, found, same) = (Option.map-eq-some_iff _ _).0 h in
    subst (λ (p : Option Text × Text). IsOptionalToken p.0 × (after ≡ action_of p.0 p.1)) same
      (tt, strip_prefix_sound (codes "action.") after found)

scoped_tail_sound :
    (sub tail : Text) {identity : Option Text} {verb : Text}
    → Lacks b'.' sub
    → scoped_tail (sub, tail) ≡ some (identity, verb)
    → IsOptionalToken identity × (codes "id." ++ (sub ++ b'.' ∷ tail) ≡ action_of identity verb)
scoped_tail_sound sub tail dotless h = elim (Bool-cases (is_nil sub)) [
  | inl e ↦ absurd (cc (rw e at h))
  | inr e ↦
      let (v, found, same) = (Option.map-eq-some_iff _ _).0 (rw e at h) in
      subst
        (λ (p : Option Text × Text).
          IsOptionalToken p.0 × (codes "id." ++ (sub ++ b'.' ∷ tail) ≡ action_of p.0 p.1))
        same
        (
          (ne-nil_of_is_nil sub e, dotless),
          ap (λ (t : Text). codes "id." ++ (sub ++ b'.' ∷ t))
              (strip_prefix_sound (codes "action.") tail found),
        )
]

identity_and_verb_sound :
    (after : Text) {identity : Option Text} {verb : Text}
    → identity_and_verb after ≡ some (identity, verb)
    → IsOptionalToken identity × (after ≡ action_of identity verb)
unfolding identity_and_verb strip_prefix
identity_and_verb_sound after {identity} {verb} h =
    elim (Option-cases (strip_prefix (codes "id.") after)) [
      | inl plain ↦ plain_verb_sound after (rw plain at h)
      | inr (scoped, e) ↦
          let (parts, cut, h1) = >>=-eq-some (split_once b'.' scoped) scoped_tail (rw e at h) in
          let (dotless, spelled) = split_once_sound b'.' scoped parts.0 parts.1 cut in
          let (token, same) = scoped_tail_sound parts.0 parts.1 dotless h1 in
          (
            token,
            strip_prefix_sound (codes "id.") after e
                ∙ ap (λ (t : Text). codes "id." ++ t) spelled
                ∙ same,
          )
    ]

-- An inbound subject is taken apart into its parts, whatever the verb.
pub route_inbound-parts :
    (r : RoutedInbound)
    → IsToken r.kernel
    → IsOptionalToken r.identity
    → route_inbound (inbound_subject r) ≡ routed r.kernel (r.identity, r.verb)
unfolding route_inbound
route_inbound-parts r (filled, dotless) token =
    rw
      (
        strip_prefix-append (codes "input.kernel.")
            (r.kernel ++ b'.' ∷ action_of r.identity r.verb),
        split_once-append b'.' r.kernel (action_of r.identity r.verb) dotless,
        is_nil-false r.kernel filled,
        identity_and_verb-action_of r.identity r.verb token,
      )
      refl

route_inbound-inbound_subject :
    (r : RoutedInbound) → IsRouted r → route_inbound (inbound_subject r) ≡ some r
route_inbound-inbound_subject r h =
    rw (route_inbound-parts r h.kernel h.identity, is_nil-false r.verb h.verb, ← h.reply) refl

pub routed_sound :
    (kernel : Text) (iv : Option Text × Text) (r : RoutedInbound)
    → routed kernel iv ≡ some r
    → (iv.1 ≢ [])
      × (r ≡ record {
        kernel = kernel;
        identity = iv.0;
        verb = iv.1;
        result_subject = reply_to kernel iv.1;
      })
routed_sound kernel (identity, verb) r h = elim (Bool-cases (is_nil verb)) [
  | inl e ↦ absurd (cc (rw e at h))
  | inr e ↦ (ne-nil_of_is_nil verb e, sym (some-injective _ _ (rw e at h)))
]

route_after_sound :
    (kernel after : Text) (r : RoutedInbound)
    → Lacks b'.' kernel
    → route_after (kernel, after) ≡ some r
    → IsRouted r × (codes "input.kernel." ++ (kernel ++ b'.' ∷ after) ≡ inbound_subject r)
route_after_sound kernel after r dotless h = elim (Bool-cases (is_nil kernel)) [
  | inl e ↦ absurd (cc (rw e at h))
  | inr e ↦
      let (iv, found, h1) = >>=-eq-some (identity_and_verb after) (routed kernel) (rw e at h) in
      let (filled, same) = routed_sound kernel iv r h1 in
      let (token, spelled) = identity_and_verb_sound after {identity = iv.0} {verb = iv.1} found in
      subst
        (λ r. IsRouted r × (codes "input.kernel." ++ (kernel ++ b'.' ∷ after) ≡ inbound_subject r))
        (sym same)
        (
          record {
            kernel = (ne-nil_of_is_nil kernel e, dotless);
            identity = token;
            verb = filled;
            reply = refl;
          },
          ap (λ (t : Text). codes "input.kernel." ++ (kernel ++ b'.' ∷ t)) spelled,
        )
]

route_inbound_sound :
    (subject : Text) (r : RoutedInbound)
    → route_inbound subject ≡ some r
    → IsRouted r × (subject ≡ inbound_subject r)
unfolding route_inbound
route_inbound_sound subject r h =
    let (rest, stripped, h1) = >>=-eq-some (strip_prefix (codes "input.kernel.") subject) _ h in
    let (parts, cut, h2) = >>=-eq-some (split_once b'.' rest) route_after h1 in
    let (dotless, spelled) = split_once_sound b'.' rest parts.0 parts.1 cut in
    let (ok, same) = route_after_sound parts.0 parts.1 r dotless h2 in
    (
      ok,
      strip_prefix_sound (codes "input.kernel.") subject stripped
          ∙ ap (λ (t : Text). codes "input.kernel." ++ t) spelled
          ∙ same,
    )

-- A subject routes exactly when it is `input.kernel.<K>.action.<verb>` or
-- `input.kernel.<K>.id.<sub>.action.<verb>` with one token each for the kernel and the identity and a
-- verb that is not empty; it routes to that kernel, identity and verb, with the reply on
-- `result.kernel.<K>.<verb>`.
pub route_inbound_iff :
    (subject : Text) (r : RoutedInbound)
    → (route_inbound subject ≡ some r) ↔ (IsRouted r × (subject ≡ inbound_subject r))
route_inbound_iff subject r =
    (route_inbound_sound subject r, λ (ok, e). rw e (route_inbound-inbound_subject r ok))
