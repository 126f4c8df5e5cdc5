-- ===== src/Nats/Router/Laws.antt =====
-- What `add`, `remove` and `matching` mean for the subscription of one sid.
use mathlib.Core.Option.{some-injective}
use pg_ck.Prelude.{
  ◌≡◌, refl, sym, ◌∙◌, true, false, List, [], ◌∷◌, none, some, arith, Any, if◌then◌else◌, ◌≢◌, ◌↔◌,
  Bool-cases, inl, inr, ◌⊎◌,
}
use pg_ck.Text.{Text, text_eq, text_eq_iff, text_eq_refl}
use pg_ck.BTreeMap.{lookup, IsOrdered}
use pg_ck.BTreeMap.Laws.{
  lookup-insert, lookup-remove, insert-IsOrdered, remove-IsOrdered, lookup_below,
}
use pg_ck.Nats.Router.{Router, new, add, unsubscribe, matches, matching_sids, matching}

abbrev pub IsValid : Router → Type 0
IsValid r = IsOrdered r.subscriptions

abbrev pub Has : Text → List Text → Type 0
Has sid = Any (λ s. s ≡ sid)

-- The sid has a subscription, and its pattern matches.
abbrev pub Hears : Router → Text → Text → Type 0
Hears r sid subject =
    (pattern : Text) × (lookup sid r.subscriptions ≡ some pattern)
    × (matches pattern subject ≡ true)

pub new-IsValid : IsValid new
unfolding new
new-IsValid = tt

pub add-IsValid : (r : Router) (sid pattern : Text) → IsValid r → IsValid (add r sid pattern)
unfolding add
add-IsValid r sid pattern h = insert-IsOrdered sid pattern r.subscriptions h

pub unsubscribe-IsValid : (r : Router) (sid : Text) → IsValid r → IsValid (unsubscribe r sid)
unfolding unsubscribe
unsubscribe-IsValid r sid h = remove-IsOrdered sid r.subscriptions h

module _ (subject : Text) where
  -- The pattern that a map holds for a key, found among its entries.
  abbrev Selects : List (Text × Text) → Text → Type 0
  Selects m sid = (p : Text) × (lookup sid m ≡ some p) × (matches p subject ≡ true)

  Selects-cons :
      (i w : Text) (m : List (Text × Text)) (sid : Text)
      → text_eq i sid ≡ false
      → Selects m sid
      → Selects ((i, w) ∷ m) sid
  unfolding lookup
  Selects-cons i w m sid e (p, found, ok) = (p, rw e found, ok)

  matching_sids_sound :
      (m : List (Text × Text)) (sid : Text)
      → IsOrdered m
      → Has sid (matching_sids subject m)
      → Selects m sid
  unfolding matching_sids lookup
  matching_sids_sound [] sid o h = absurd h
  matching_sids_sound ((i, w) ∷ m) sid (below, o) h = elim (Bool-cases (matches w subject)) [
    | inl hit ↦ first hit (matching_sids_sound m sid o) (rw hit at h)
    | inr miss ↦ later (matching_sids_sound m sid o (rw miss at h))
  ]
    where
      later : Selects m sid → Selects ((i, w) ∷ m) sid
      later (p, found, ok) =
          Selects-cons i w m sid (ground (arith, text_eq_iff i sid, lookup_below i m below))
            (p, found, ok)

      first :
          matches w subject ≡ true
          → (Has sid (matching_sids subject m) → Selects m sid)
          → (i ≡ sid) ⊎ Has sid (matching_sids subject m)
          → Selects ((i, w) ∷ m) sid
      first hit ih (inl e) = (w, rw (← e, text_eq_refl i) refl, hit)
      first hit ih (inr r) = later (ih r)

  matching_sids_complete :
      (m : List (Text × Text)) (sid p : Text)
      → lookup sid m ≡ some p
      → matches p subject ≡ true
      → Has sid (matching_sids subject m)
  unfolding matching_sids lookup
  matching_sids_complete [] sid p e h = absurd (ground arith)
  matching_sids_complete ((i, w) ∷ m) sid p e h = elim (Bool-cases (text_eq i sid)) [
    | inl same ↦
        let hit : matches w subject ≡ true = ground arith in
        rw hit (inl ((text_eq_iff i sid).0 same))
    | inr other ↦
        let rest = matching_sids_complete m sid p (rw other at e) h in
        elim (Bool-cases (matches w subject)) [
          | inl hit ↦ rw hit (inr rest)
          | inr miss ↦ rw miss rest
        ]
  ]

-- A delivery goes to a sid exactly when the sid is subscribed and its pattern matches the subject.
pub matching_iff :
    (r : Router) (sid subject : Text)
    → IsValid r
    → Has sid (matching r subject) ↔ Hears r sid subject
unfolding matching
matching_iff r sid subject v = (
  matching_sids_sound subject r.subscriptions sid v,
  λ (p, found, ok). matching_sids_complete subject r.subscriptions sid p found ok,
)

Hears-add :
    (r : Router) (sid pattern j subject : Text)
    → Hears (add r sid pattern) j subject ↔ (
        (p : Text) × ((if text_eq sid j then some pattern else lookup j r.subscriptions) ≡ some p)
        × (matches p subject ≡ true))
unfolding add
Hears-add r sid pattern j subject =
    let e = lookup-insert sid j pattern r.subscriptions in
    (λ (p, found, ok). (p, sym e ∙ found, ok), λ (p, found, ok). (p, e ∙ found, ok))

-- After SUB a delivery goes to that sid exactly when the new pattern matches, whatever the sid was
-- subscribed to before, and to every other sid as before.
pub matching-add :
    (r : Router) (sid pattern subject : Text)
    → IsValid r
    → (Has sid (matching (add r sid pattern) subject) ↔ (matches pattern subject ≡ true))
      × ((j : Text)
          → j ≢ sid
          → Has j (matching (add r sid pattern) subject) ↔ Has j (matching r subject))
matching-add r sid pattern subject v = (
  (λ h. own (to sid h), λ ok. from sid (pattern, rw (text_eq_refl sid), ok)),
  λ j ne. (
    λ h. (matching_iff r j subject v).1 (rw (other j ne) at (to j h)),
    λ h. from j (rw (other j ne) ((matching_iff r j subject v).0 h)),
  ),
)
  where
    to :
        (j : Text)
        → Has j (matching (add r sid pattern) subject)
        → (p : Text) × ((if text_eq sid j then some pattern else lookup j r.subscriptions) ≡ some p)
          × (matches p subject ≡ true)
    to j h =
        (Hears-add r sid pattern j subject).0
          ((matching_iff (add r sid pattern) j subject (add-IsValid r sid pattern v)).0 h)

    from :
        (j : Text)
        → (p : Text) × ((if text_eq sid j then some pattern else lookup j r.subscriptions) ≡ some p)
          × (matches p subject ≡ true)
        → Has j (matching (add r sid pattern) subject)
    from j h =
        (matching_iff (add r sid pattern) j subject (add-IsValid r sid pattern v)).1
          ((Hears-add r sid pattern j subject).1 h)

    other : (j : Text) → j ≢ sid → text_eq sid j ≡ false
    other j ne = ground (arith, text_eq_iff sid j)

    own :
        (p : Text) × ((if text_eq sid sid then some pattern else lookup sid r.subscriptions)
            ≡ some p)
          × (matches p subject ≡ true)
        → matches pattern subject ≡ true
    own (p, found, ok) =
        let e : some pattern ≡ some p = rw (text_eq_refl sid) at found in
        rw (some-injective pattern p e) ok

-- After UNSUB no delivery goes to that sid, and every other sid gets what it got before.
pub matching-unsubscribe :
    (r : Router) (sid subject : Text)
    → IsValid r
    → ¬ Has sid (matching (unsubscribe r sid) subject)
      × ((j : Text)
          → j ≢ sid
          → Has j (matching (unsubscribe r sid) subject) ↔ Has j (matching r subject))
matching-unsubscribe r sid subject v = (
  λ h. gone ((matching_iff (unsubscribe r sid) sid subject (unsubscribe-IsValid r sid v)).0 h),
  λ j ne. (
    λ h. (matching_iff r j subject v).1 (
        kept j ne ((matching_iff (unsubscribe r sid) j subject (unsubscribe-IsValid r sid v)).0 h)),
    λ h.
        (matching_iff (unsubscribe r sid) j subject (unsubscribe-IsValid r sid v)).1
          (back j ne ((matching_iff r j subject v).0 h)),
  ),
)
  where
    looked :
        (j : Text)
        → lookup j (unsubscribe r sid).subscriptions
          ≡ (if text_eq sid j then none else lookup j r.subscriptions)
    looked j = unfold unsubscribe in lookup-remove sid j r.subscriptions v

    gone : ¬ Hears (unsubscribe r sid) sid subject
    gone (p, found, ok) = ground (arith, looked sid, text_eq_refl sid)

    kept : (j : Text) → j ≢ sid → Hears (unsubscribe r sid) j subject → Hears r j subject
    kept j ne (p, found, ok) = (p, ground (arith, looked j, text_eq_iff sid j), ok)

    back : (j : Text) → j ≢ sid → Hears r j subject → Hears (unsubscribe r sid) j subject
    back j ne (p, found, ok) = (p, ground (arith, looked j, text_eq_iff sid j), ok)
