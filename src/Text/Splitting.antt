-- ===== src/Text/Splitting.antt =====
-- Splitting at a separator, and joining.
use mathlib.Core.Option
use pg_ck.Prelude.{
  ℕ, ◌≡◌, refl, ap, ◌∙◌, ◌≢◌, Bool, true, false, List, [], ◌∷◌, ◌++◌, Option, none, some, arith,
  ◌==◌, ==_iff, All, Bool-cases, inl, inr,
}
use pg_ck.Text.Defs.{Text, onto_first, split_by, split, onto_left, split_once, join, Lacks}

onto_first-ne-nil : (c : ℕ) (ps : List Text) → onto_first c ps ≢ []
onto_first-ne-nil c [] h = absurd (ground arith)
onto_first-ne-nil c (p ∷ ps) h = absurd (ground arith)

module _ (cut : ℕ → Bool) where
  pub split_by-ne-nil : (s : Text) → split_by cut s ≢ []
  unfolding split_by
  split_by-ne-nil [] h = ground arith
  split_by-ne-nil (c ∷ s) h = elim (Bool-cases (cut c)) [
    | inl e ↦ ground arith
    | inr e ↦ onto_first-ne-nil c (split_by cut s) (rw e at h)
  ]

  -- A first part without a cut, then a cut.
  pub split_by-append :
      (a : Text) (c : ℕ) (b : Text)
      → All (λ x. cut x ≡ false) a
      → cut c ≡ true
      → split_by cut (a ++ c ∷ b) ≡ a ∷ split_by cut b
  unfolding split_by
  split_by-append [] c b _ hc = rw hc
  split_by-append (x ∷ a) c b (hx, ha) hc = rw (hx, split_by-append a c b ha hc)

  pub split_by_uncut : (a : Text) → All (λ x. cut x ≡ false) a → split_by cut a ≡ a ∷ []
  unfolding split_by
  split_by_uncut [] _ = refl
  split_by_uncut (x ∷ a) (hx, ha) = rw (hx, split_by_uncut a ha)

  onto_first-All :
      (P : ℕ → Type 0) (c : ℕ) (ps : List Text)
      → P c
      → All (All P) ps
      → All (All P) (onto_first c ps)
  onto_first-All P c [] h hs = ((h, tt), tt)
  onto_first-All P c (p ∷ ps) h (hp, hs) = ((h, hp), hs)

  -- No part holds a character at which the text is cut.
  pub split_by-All : (s : Text) → All (All (λ x. cut x ≡ false)) (split_by cut s)
  unfolding split_by
  split_by-All [] = (tt, tt)
  split_by-All (c ∷ s) = elim (Bool-cases (cut c)) [
    | inl e ↦ rw e (tt, split_by-All s)
    | inr e ↦ rw e (onto_first-All (λ x. cut x ≡ false) c (split_by cut s) e (split_by-All s))
  ]

Lacks-cut : (sep : ℕ) (s : Text) → Lacks sep s → All (λ c. (c == sep) ≡ false) s
Lacks-cut sep [] h = tt
Lacks-cut sep (c ∷ s) (h, hs) = (ground arith, Lacks-cut sep s hs)

cut-Lacks : (sep : ℕ) (s : Text) → All (λ c. (c == sep) ≡ false) s → Lacks sep s
cut-Lacks sep [] h = tt
cut-Lacks sep (c ∷ s) (h, hs) = (ground arith, cut-Lacks sep s hs)

module _ (sep : ℕ) where
  pub split-append : (a b : Text) → Lacks sep a → split sep (a ++ sep ∷ b) ≡ a ∷ split sep b
  unfolding split
  split-append a b h = split_by-append (λ c. c == sep) a sep b (Lacks-cut sep a h) (ground arith)

  pub split_of_Lacks : (a : Text) → Lacks sep a → split sep a ≡ a ∷ []
  unfolding split
  split_of_Lacks a h = split_by_uncut (λ c. c == sep) a (Lacks-cut sep a h)

  cuts-Lacks : (ps : List Text) → All (All (λ c. (c == sep) ≡ false)) ps → All (Lacks sep) ps
  cuts-Lacks [] h = tt
  cuts-Lacks (p ∷ ps) (h, hs) = (cut-Lacks sep p h, cuts-Lacks ps hs)

  pub split-Lacks : (s : Text) → All (Lacks sep) (split sep s)
  unfolding split
  split-Lacks s = cuts-Lacks (split sep s) (split_by-All (λ c. c == sep) s)

  pub split-ne-nil : (s : Text) → split sep s ≢ []
  unfolding split
  split-ne-nil s = split_by-ne-nil (λ c. c == sep) s

  -- The parts of a joined list are the list, if there is a part and none holds the separator.
  pub split-join :
      (p : Text) (ps : List Text)
      → All (Lacks sep) (p ∷ ps)
      → split sep (join sep (p ∷ ps)) ≡ p ∷ ps
  unfolding join
  split-join p [] (h, _) = split_of_Lacks p h
  split-join p (q ∷ ps) (h, hs) =
      split-append p (join sep (q ∷ ps)) h ∙ ap (λ (l : List Text). p ∷ l) (split-join q ps hs)

  join-onto_first :
      (c : ℕ) (ps : List Text) → ps ≢ [] → join sep (onto_first c ps) ≡ c ∷ join sep ps
  unfolding join
  join-onto_first c [] h = absurd (h refl)
  join-onto_first c (p ∷ []) h = refl
  join-onto_first c (p ∷ q ∷ ps) h = refl

  join-nil-cons : (ps : List Text) → ps ≢ [] → join sep ([] ∷ ps) ≡ sep ∷ join sep ps
  unfolding join
  join-nil-cons [] h = absurd (h refl)
  join-nil-cons (p ∷ ps) h = refl

  -- Joining the parts of a text gives the text back.
  pub join-split : (s : Text) → join sep (split sep s) ≡ s
  unfolding split
  join-split [] = unfold join in refl
  join-split (c ∷ s) = elim (Bool-cases (c == sep)) [
    | inl e ↦
        rw e (join-nil-cons (split sep s) (split-ne-nil s) ∙ cc ((==_iff c sep).0 e, join-split s))
    | inr e ↦
        rw e (
          join-onto_first c (split sep s) (split-ne-nil s)
          ∙ ap (λ (t : Text). c ∷ t) (join-split s))
  ]

  pub split_once-append : (a b : Text) → Lacks sep a → split_once sep (a ++ sep ∷ b) ≡ some (a, b)
  unfolding split_once
  split_once-append [] b h = ground arith
  split_once-append (c ∷ a) b (h, hs) = ground (arith, split_once-append a b hs)

  split_once_here :
      (c : ℕ) (s a b : Text)
      → c ≡ sep
      → ◌≡◌ {A = Option (Text × Text)} (some ([], s)) (some (a, b))
      → Lacks sep a × (c ∷ s ≡ a ++ sep ∷ b)
  split_once_here c s [] b e h = (tt, ground arith)
  split_once_here c s (x ∷ a) b e h = absurd (ground arith)

  split_once_sound-step :
      (c : ℕ) (o : Option (Text × Text)) (a b : Text)
      → Option.map (onto_left c) o ≡ some (a, b)
      → (a' : Text) × (o ≡ some (a', b)) × (a ≡ c ∷ a')
  split_once_sound-step c none a b h = absurd (ground arith)
  split_once_sound-step c (some (a', b')) a b h = (a', ground arith, ground arith)

  pub split_once_sound :
      (s a b : Text) → split_once sep s ≡ some (a, b) → Lacks sep a × (s ≡ a ++ sep ∷ b)
  unfolding split_once
  split_once_sound [] a b h = absurd (ground arith)
  split_once_sound (c ∷ s) a b h = elim (Bool-cases (c == sep)) [
    | inl e ↦ split_once_here c s a b ((==_iff c sep).0 e) (ground arith)
    | inr e ↦
        let (a', found, same) = split_once_sound-step c (split_once sep s) a b (rw e at h) in
        let (lacks, spelled) = split_once_sound s a' b found in
        rw same ((ground arith, lacks), ap (λ (t : Text). c ∷ t) spelled)
  ]
