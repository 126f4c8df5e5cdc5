-- ===== src/Callout/Token.antt =====
-- `subject_token`: a verified `sub` as one token of a subject.
use mathlib.Core.List.{cons-ne-nil}
use pg_ck.Prelude.{
  ℕ, ◌≤◌, ◌⊎◌, ◌∙◌, sym, arith, List, ◌≡◌, ◌≢◌, refl, ap, true, false, [], ◌∷◌, ◌++◌, map,
  map-append, All, All-map, Bool-cases, inl, inr,
}
use pg_ck.Text.{Text, Lacks}
use pg_ck.Callout.Grants.{subject_token, is_token_char, token_char, or_dash, permissions_for}
use pg_ck.Prelude.Int.{ℤ}
use pg_ck.Jwt.{verified}

abbrev pub IsTokenChar : ℕ → Type 0
IsTokenChar c = is_token_char c ≡ true

token_char-IsTokenChar : (c : ℕ) → IsTokenChar (token_char c)
token_char-IsTokenChar c = elim (Bool-cases (is_token_char c)) [
  | inl e ↦ rw (e, e) refl
  | inr e ↦ rw e refl
]

map-All : (s : Text) → All IsTokenChar (map token_char s)
map-All [] = tt
map-All (c ∷ s) = (token_char-IsTokenChar c, map-All s)

map-fixed : (s : Text) → All IsTokenChar s → map token_char s ≡ s
map-fixed [] h = refl
map-fixed (c ∷ s) (e, hs) = rw (e, map-fixed s hs) refl

pub subject_token-ne-nil : (sub : Text) → subject_token sub ≢ []
unfolding subject_token
subject_token-ne-nil [] = cons-ne-nil b'-' []
subject_token-ne-nil (c ∷ s) = cons-ne-nil (token_char c) (map token_char s)

subject_token-All : (sub : Text) → All IsTokenChar (subject_token sub)
unfolding subject_token
subject_token-All [] = (refl, tt)
subject_token-All (c ∷ s) = map-All (c ∷ s)

pub Lacks-token : (b : ℕ) → is_token_char b ≡ false → (s : Text) → All IsTokenChar s → Lacks b s
Lacks-token b h s hs =
    All-map IsTokenChar (λ c. c ≢ b) s (λ c e same. absurd (cc (e, h, ap is_token_char same))) hs

subject_token_fixed : (sub : Text) → sub ≢ [] → All IsTokenChar sub → subject_token sub ≡ sub
unfolding subject_token
subject_token_fixed [] filled h = absurd (filled refl)
subject_token_fixed (c ∷ s) filled h = map-fixed (c ∷ s) h

-- Every `sub` becomes one token that is not empty and holds only letters, digits, `-` and `_`, hence no
-- dot and no wildcard; a `sub` that is such a token already, as a UUID is, stays as it is.
pub subject_token-IsTokenChar :
    (sub : Text)
    → (subject_token sub ≢ [])
      × All IsTokenChar (subject_token sub)
      × Lacks b'.' (subject_token sub)
      × (sub ≢ [] → All IsTokenChar sub → subject_token sub ≡ sub)
subject_token-IsTokenChar sub = (
  subject_token-ne-nil sub,
  subject_token-All sub,
  Lacks-token b'.' refl (subject_token sub) (subject_token-All sub),
  subject_token_fixed sub,
)

-- ASCII letters and digits, `-` and `_`.
abbrev pub IsTokenLetter : ℕ → Type 0
IsTokenLetter c =
    ((48 ≤ c) × (c ≤ 57)) ⊎ ((65 ≤ c) × (c ≤ 90)) ⊎ ((97 ≤ c) × (c ≤ 122)) ⊎ (c ≡ 95) ⊎ (c ≡ 45)

-- What the token writes as a dash.
abbrev pub IsDashed : ℕ → Type 0
IsDashed c = (¬ IsTokenLetter c) ⊎ (c ≡ 45)

token_char-IsDashed : (c : ℕ) → IsDashed c → token_char c ≡ b'-'
token_char-IsDashed c (inr same) = rw same refl
token_char-IsDashed c (inl other) = elim (Bool-cases (is_token_char c)) [
  | inl e ↦ absurd (other (ground (arith, e)))
  | inr e ↦ rw e refl
]

subject_token-dashed :
    (before after : Text) (c : ℕ)
    → IsDashed c
    → subject_token (before ++ c ∷ after)
      ≡ or_dash (map token_char before ++ b'-' ∷ map token_char after)
unfolding subject_token
subject_token-dashed before after c h =
    rw (map-append token_char before (c ∷ after), token_char-IsDashed c h) refl

-- Two identities that differ in one character, which in each is a dash or no ASCII letter, digit, `-`
-- or `_`, get the same token of a subject, and a verified connection of either gets the permissions of
-- the other.
pub subject_token_collides :
    (before after : Text) (c d : ℕ)
    → IsDashed c
    → IsDashed d
    → (subject_token (before ++ c ∷ after) ≡ subject_token (before ++ d ∷ after))
      × ((exp : ℤ) (kernels : List Text)
          → permissions_for (verified (before ++ c ∷ after) exp) kernels
            ≡ permissions_for (verified (before ++ d ∷ after) exp) kernels)
unfolding permissions_for
subject_token_collides before after c d h k =
    let same =
      subject_token-dashed before after c h ∙ sym (subject_token-dashed before after d k) in
    (same, λ exp kernels. rw same refl)
