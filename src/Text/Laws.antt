-- ===== src/Text/Laws.antt =====
-- Equality of texts, prefixes and trimming.
use mathlib.Core.List.{reverse-append, reverse-reverse}
use pg_ck.Prelude.{
  ℕ, ◌≡◌, refl, ap, ◌∙◌, ◌↔◌, Bool, true, false, [], ◌∷◌, ◌++◌, reverse, some, arith, All,
  All-append, append_assoc,
}
use pg_ck.Text.Defs.{Text, text_eq, strip_prefix, skip_while, trim_end_by}

pub text_eq→eq : (s t : Text) → text_eq s t ≡ true → s ≡ t
unfolding text_eq
text_eq→eq [] [] h = refl
text_eq→eq [] (b ∷ t) h = absurd (ground arith)
text_eq→eq (a ∷ s) [] h = absurd (ground arith)
text_eq→eq (a ∷ s) (b ∷ t) h = ground (arith, text_eq→eq s t)

pub text_eq_refl : (s : Text) → text_eq s s ≡ true
unfolding text_eq
text_eq_refl [] = refl
text_eq_refl (a ∷ s) = ground (arith, text_eq_refl s)

pub text_eq_iff : (s t : Text) → (text_eq s t ≡ true) ↔ (s ≡ t)
text_eq_iff s t = (text_eq→eq s t, λ e. rw e (text_eq_refl t))

pub strip_prefix-append : (p s : Text) → strip_prefix p (p ++ s) ≡ some s
unfolding strip_prefix
strip_prefix-append [] s = refl
strip_prefix-append (a ∷ p) s = ground (arith, strip_prefix-append p s)

pub strip_prefix_sound : (p s : Text) {r : Text} → strip_prefix p s ≡ some r → s ≡ p ++ r
unfolding strip_prefix
strip_prefix_sound [] s h = ground arith
strip_prefix_sound (a ∷ p) [] h = absurd (ground arith)
strip_prefix_sound (a ∷ p) (b ∷ s) {r} h = ground (arith, strip_prefix_sound p s {r = r})

-- Dropping from the front drops nothing from a text that begins with what is kept.
pub skip_while_kept :
    (drop : ℕ → Bool) (c : ℕ) (s : Text) → drop c ≡ false → skip_while drop (c ∷ s) ≡ c ∷ s
unfolding skip_while
skip_while_kept drop c s h = rw h

pub skip_while_dropped :
    (drop : ℕ → Bool) (d s : Text)
    → All (λ c. drop c ≡ true) d
    → skip_while drop (d ++ s) ≡ skip_while drop s
unfolding skip_while
skip_while_dropped drop [] s h = refl
skip_while_dropped drop (c ∷ d) s (h, hs) = rw h (skip_while_dropped drop d s hs)

pub All-reverse : (P : ℕ → Type 0) (s : Text) → All P s → All P (reverse s)
All-reverse P [] h = tt
All-reverse P (c ∷ s) (h, hs) =
    rw (reverse-append (c ∷ []) s) (All-append P (reverse s) (c ∷ []) (All-reverse P s hs) (h, tt))

reverse_middle : (s : Text) (c : ℕ) (d : Text) → reverse (s ++ c ∷ d) ≡ reverse d ++ c ∷ reverse s
reverse_middle s c d =
    reverse-append s (c ∷ d)
    ∙ ap (λ (t : Text). t ++ reverse s) (reverse-append (c ∷ []) d)
    ∙ append_assoc (reverse d) (c ∷ []) (reverse s)

reverse-cons-reverse : (s : Text) (c : ℕ) → reverse (c ∷ reverse s) ≡ s ++ c ∷ []
reverse-cons-reverse s c =
    reverse-append (c ∷ []) (reverse s) ∙ ap (λ (t : Text). t ++ c ∷ []) (reverse-reverse s)

-- Dropping from the end drops a tail of such characters behind a kept one.
pub trim_end_by-append :
    (drop : ℕ → Bool) (s : Text) (c : ℕ) (d : Text)
    → drop c ≡ false
    → All (λ x. drop x ≡ true) d
    → trim_end_by drop (s ++ c ∷ d) ≡ s ++ c ∷ []
unfolding trim_end_by
trim_end_by-append drop s c d h hd =
    ap (λ (t : Text). reverse (skip_while drop t)) (reverse_middle s c d)
    ∙ ap reverse (
        skip_while_dropped drop (reverse d) (c ∷ reverse s) (All-reverse _ d hd)
        ∙ skip_while_kept drop c (reverse s) h)
    ∙ reverse-cons-reverse s c

skip_while-All : (drop : ℕ → Bool) (s : Text) → All (λ x. drop x ≡ false) s → skip_while drop s ≡ s
unfolding skip_while
skip_while-All drop [] h = refl
skip_while-All drop (c ∷ s) (h, hs) = rw h refl

-- Dropping from the end drops exactly the tail of such characters, if none stands before it.
pub trim_end_by_tail :
    (drop : ℕ → Bool) (s d : Text)
    → All (λ x. drop x ≡ false) s
    → All (λ x. drop x ≡ true) d
    → trim_end_by drop (s ++ d) ≡ s
unfolding trim_end_by
trim_end_by_tail drop s d h hd =
    ap (λ (t : Text). reverse (skip_while drop t)) (reverse-append s d)
    ∙ ap reverse (
        skip_while_dropped drop (reverse d) (reverse s) (All-reverse _ d hd)
        ∙ skip_while-All drop (reverse s) (All-reverse _ s h))
    ∙ reverse-reverse s
