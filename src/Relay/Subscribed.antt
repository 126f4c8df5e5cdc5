-- ===== src/Relay/Subscribed.antt =====
-- What the relay's two subscriptions deliver to `route_inbound`.
use mathlib.Core.List.{cons-ne-nil}
use pg_ck.Prelude.{
  any, ◌==◌, ℕ, ◌+◌, ◌≡◌, ◌≢◌, ◌⊎◌, ◌∙◌, refl, sym, ap, subst, true, false, List, [], ◌∷◌, ◌++◌,
  Option, none, some, if◌then◌else◌, All, inl, inr, Bool-cases, Option-cases,
}
use pg_ck.Text.{Text, codes, Lacks, split, text_eq, text_eq_iff}
use pg_ck.Callout.Patterns.{Lacks-any}
use pg_ck.Nats.Router.{matches}
use pg_ck.Nats.Router.Open.{prefixed, split-prefixed}
use pg_ck.Nats.Router.Slots.{Fits, IsSlot, matches_slots_iff}
use pg_ck.Relay.{RoutedInbound, route_inbound, reply_to, relay_in_subject, relay_id_subject}
use pg_ck.Relay.Routes.{inbound_subject, route_inbound_iff, IsToken, IsOptionalToken}

abbrev plain_slots : List Text
plain_slots = codes "input" ∷ codes "kernel" ∷ codes "*" ∷ codes "action" ∷ []

abbrev scoped_slots : List Text
scoped_slots =
    codes "input" ∷ codes "kernel" ∷ codes "*" ∷ codes "id" ∷ codes "*" ∷ codes "action" ∷ []

abbrev plain_tokens : Text → List Text
plain_tokens k = codes "input" ∷ codes "kernel" ∷ k ∷ codes "action" ∷ []

abbrev scoped_tokens : Text → Text → List Text
scoped_tokens k sub = codes "input" ∷ codes "kernel" ∷ k ∷ codes "id" ∷ sub ∷ codes "action" ∷ []

-- How many of the two subscriptions deliver a message on the subject.
abbrev pub deliveries : Text → ℕ
deliveries subject =
    (if matches relay_in_subject subject then 1 else 0)
    + (if matches relay_id_subject subject then 1 else 0)

slot : (s : Text) → text_eq s (codes ">") ≡ false → any (λ c. c == b'.') s ≡ false → IsSlot s
slot s rest dotless = ((λ e. cc ((text_eq_iff s (codes ">")).1 e, rest)), Lacks-any b'.' s dotless)

plain_slots-All : All IsSlot plain_slots
unfolding text_eq
plain_slots-All = (slot _ refl refl, (slot _ refl refl, (slot _ refl refl, (slot _ refl refl, tt))))

scoped_slots-All : All IsSlot scoped_slots
unfolding text_eq
scoped_slots-All = (
  slot _ refl refl,
  (
    slot _ refl refl,
    (slot _ refl refl, (slot _ refl refl, (slot _ refl refl, (slot _ refl refl, tt)))),
  ),
)

word_fit : (p q : Text) → text_eq p (codes "*") ≡ false → (p ≡ codes "*") ⊎ (q ≡ p) → q ≡ p
word_fit p q h (inl e) = absurd (cc ((text_eq_iff p (codes "*")).1 e, h))
word_fit p q h (inr e) = e

plain_fit : (qs : List Text) → Fits plain_slots qs → (k : Text) × (qs ≡ plain_tokens k)
unfolding text_eq
plain_fit (a ∷ b ∷ k ∷ d ∷ []) (fa, (fb, (_, (fd, _)))) =
    (k, cc (word_fit _ a refl fa, word_fit _ b refl fb, word_fit _ d refl fd))
plain_fit (a ∷ b ∷ k ∷ d ∷ e ∷ qs) (_, (_, (_, (_, never)))) = absurd never
plain_fit (a ∷ b ∷ k ∷ []) (_, (_, (_, never))) = absurd never
plain_fit (a ∷ b ∷ []) (_, (_, never)) = absurd never
plain_fit (a ∷ []) (_, never) = absurd never
plain_fit [] never = absurd never

scoped_fit : (qs : List Text) → Fits scoped_slots qs → (k sub : Text) × (qs ≡ scoped_tokens k sub)
unfolding text_eq
scoped_fit (a ∷ b ∷ k ∷ d ∷ sub ∷ f ∷ []) (fa, (fb, (_, (fd, (_, (ff, _)))))) = (
  k,
  sub,
  cc (word_fit _ a refl fa, word_fit _ b refl fb, word_fit _ d refl fd, word_fit _ f refl ff),
)
scoped_fit (a ∷ b ∷ k ∷ d ∷ sub ∷ f ∷ g ∷ qs) (_, (_, (_, (_, (_, (_, never)))))) = absurd never
scoped_fit (a ∷ b ∷ k ∷ d ∷ sub ∷ []) (_, (_, (_, (_, (_, never))))) = absurd never
scoped_fit (a ∷ b ∷ k ∷ d ∷ []) (_, (_, (_, (_, never)))) = absurd never
scoped_fit (a ∷ b ∷ k ∷ []) (_, (_, (_, never))) = absurd never
scoped_fit (a ∷ b ∷ []) (_, (_, never)) = absurd never
scoped_fit (a ∷ []) (_, never) = absurd never
scoped_fit [] never = absurd never

-- No token of the subject is empty.
abbrev pub IsFilled : Text → Type 0
IsFilled subject = All (λ (t : Text). t ≢ []) (split b'.' subject)

-- The tokens of a filled subject that starts with these.
filled_prefix :
    (qs : List Text) (rest : Text) {subject : Text}
    → All (Lacks b'.') qs
    → subject ≡ prefixed qs rest
    → IsFilled subject
    → All (λ (t : Text). t ≢ []) (qs ++ split b'.' rest)
filled_prefix qs rest dotless spelled filled =
    subst (All (λ (t : Text). t ≢ []))
      (ap (λ (t : Text). split b'.' t) spelled ∙ split-prefixed qs rest dotless) filled

ne-nil_of_filled : (rest : Text) → IsFilled rest → rest ≢ []
unfolding split
ne-nil_of_filled [] (filled, _) = absurd (filled refl)
ne-nil_of_filled (c ∷ rest) h = cons-ne-nil c rest

-- The action of a kernel, an identity and a verb.
abbrev action_named : Text → Option Text → Text → RoutedInbound
action_named kernel identity verb = record {
  kernel = kernel;
  identity = identity;
  verb = verb;
  result_subject = reply_to kernel verb;
}

named_routes :
    (kernel : Text) (identity : Option Text) (verb : Text) {subject : Text}
    → IsToken kernel
    → IsOptionalToken identity
    → verb ≢ []
    → subject ≡ inbound_subject (action_named kernel identity verb)
    → route_inbound subject ≡ some (action_named kernel identity verb)
named_routes kernel identity verb token optional filled spelled =
    (route_inbound_iff _ (action_named kernel identity verb)).1
      (record { kernel = token; identity = optional; verb = filled; reply = refl }, spelled)

plain_routes :
    (subject : Text)
    → IsFilled subject
    → matches relay_in_subject subject ≡ true
    → (kernel verb : Text) × (route_inbound subject ≡ some (action_named kernel none verb))
plain_routes subject filled m =
    let (qs, rest, fits, dotless, spelled) =
      (matches_slots_iff plain_slots subject plain_slots-All).0 m in
    let (k, tokens) = plain_fit qs fits in
    let at_k : subject ≡ prefixed (plain_tokens k) rest =
      spelled ∙ ap (λ (l : List Text). prefixed l rest) tokens in
    let lacks : All (Lacks b'.') (plain_tokens k) = subst (All (Lacks b'.')) tokens dotless in
    let (_, (_, (named, (_, behind)))) = filled_prefix (plain_tokens k) rest lacks at_k filled in
    (k, rest, named_routes k none rest (named, lacks.1.1.0) tt (ne-nil_of_filled rest behind) at_k)

scoped_routes :
    (subject : Text)
    → IsFilled subject
    → matches relay_id_subject subject ≡ true
    → (kernel sub verb : Text) × (route_inbound subject
        ≡ some (action_named kernel (some sub) verb))
scoped_routes subject filled m =
    let (qs, rest, fits, dotless, spelled) =
      (matches_slots_iff scoped_slots subject scoped_slots-All).0 m in
    let (k, sub, tokens) = scoped_fit qs fits in
    let at_k : subject ≡ prefixed (scoped_tokens k sub) rest =
      spelled ∙ ap (λ (l : List Text). prefixed l rest) tokens in
    let lacks : All (Lacks b'.') (scoped_tokens k sub) = subst (All (Lacks b'.')) tokens dotless in
    let (_, (_, (named, (_, (who, (_, behind)))))) =
      filled_prefix (scoped_tokens k sub) rest lacks at_k filled in
    (
      k,
      sub,
      rest,
      named_routes k (some sub) rest (named, lacks.1.1.0) (who, lacks.1.1.1.1.0)
          (ne-nil_of_filled rest behind) at_k,
    )

matches-prefixed :
    (slots tokens : List Text) (rest : Text) {subject : Text}
    → All IsSlot slots
    → Fits slots tokens
    → All (Lacks b'.') tokens
    → subject ≡ prefixed tokens rest
    → matches (prefixed slots (codes ">")) subject ≡ true
matches-prefixed slots tokens rest h fits dotless spelled =
    (matches_slots_iff slots _ h).1 (tokens, rest, fits, dotless, spelled)

plain_delivered :
    (subject kernel verb : Text)
    → route_inbound subject ≡ some (action_named kernel none verb)
    → matches relay_in_subject subject ≡ true
plain_delivered subject kernel verb routes =
    let (ok, spelled) = (route_inbound_iff subject _).0 routes in
    matches-prefixed plain_slots (plain_tokens kernel) verb plain_slots-All
      (inr refl, (inr refl, (inl refl, (inr refl, tt))))
      (
        Lacks-any b'.' (codes "input") refl,
        (
          Lacks-any b'.' (codes "kernel") refl,
          (ok.kernel.1, (Lacks-any b'.' (codes "action") refl, tt)),
        ),
      )
      spelled

scoped_delivered :
    (subject kernel sub verb : Text)
    → route_inbound subject ≡ some (action_named kernel (some sub) verb)
    → matches relay_id_subject subject ≡ true
scoped_delivered subject kernel sub verb routes =
    let (ok, spelled) = (route_inbound_iff subject _).0 routes in
    matches-prefixed scoped_slots (scoped_tokens kernel sub) verb scoped_slots-All
      (inr refl, (inr refl, (inl refl, (inr refl, (inl refl, (inr refl, tt))))))
      (
        Lacks-any b'.' (codes "input") refl,
        (
          Lacks-any b'.' (codes "kernel") refl,
          (
            ok.kernel.1,
            (
              Lacks-any b'.' (codes "id") refl,
              (ok.identity.1, (Lacks-any b'.' (codes "action") refl, tt)),
            ),
          ),
        ),
      )
      spelled

routed_named :
    (subject : Text) (r : RoutedInbound)
    → route_inbound subject ≡ some r
    → (identity : Option Text) × (route_inbound subject
        ≡ some (action_named r.kernel identity r.verb))
routed_named subject r routes =
    let (ok, _) = (route_inbound_iff subject r).0 routes in (r.identity, routes ∙ cc (ok.reply))

-- One message of the relay's stream for each of its two subscriptions that matches.
abbrev pub routable : Option RoutedInbound → ℕ
routable none = 0
routable (some _) = 1

delivered_as :
    (subject kernel verb : Text) (identity : Option Text)
    → IsFilled subject
    → route_inbound subject ≡ some (action_named kernel identity verb)
    → deliveries subject ≡ 1
delivered_as subject kernel verb none filled routes =
    elim (Bool-cases (matches relay_id_subject subject)) [
      | inl m ↦ let (_, _, _, r) = scoped_routes subject filled m in absurd (cc (routes, r))
      | inr m ↦ rw (m, plain_delivered subject kernel verb routes) refl
    ]
delivered_as subject kernel verb (some sub) filled routes =
    elim (Bool-cases (matches relay_in_subject subject)) [
      | inl m ↦ let (_, _, r) = plain_routes subject filled m in absurd (cc (routes, r))
      | inr m ↦ rw (m, scoped_delivered subject kernel sub verb routes) refl
    ]

undelivered :
    (subject : Text) → IsFilled subject → route_inbound subject ≡ none → deliveries subject ≡ 0
undelivered subject filled lost = elim (Bool-cases (matches relay_in_subject subject)) [
  | inl m ↦ let (_, _, r) = plain_routes subject filled m in absurd (cc (lost, r))
  | inr plain ↦ elim (Bool-cases (matches relay_id_subject subject)) [
    | inl m ↦ let (_, _, _, r) = scoped_routes subject filled m in absurd (cc (lost, r))
    | inr scoped ↦ rw (plain, scoped) refl
  ]
]

-- On a subject without an empty token, the relay's two subscriptions together deliver a message once
-- if `route_inbound` routes its subject, and never otherwise.
pub deliveries-routable :
    (subject : Text) → IsFilled subject → deliveries subject ≡ routable (route_inbound subject)
deliveries-routable subject filled = elim (Option-cases (route_inbound subject)) [
  | inl lost ↦ undelivered subject filled lost ∙ sym (ap routable lost)
  | inr (r, routes) ↦
      let (identity, named) = routed_named subject r routes in
      delivered_as subject r.kernel r.verb identity filled named ∙ sym (ap routable routes)
]
