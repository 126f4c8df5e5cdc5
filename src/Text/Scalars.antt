-- ===== src/Text/Scalars.antt =====
-- What is decoded is Unicode scalar values, and stays so when it is trimmed and split.
use mathlib.Core.Option
use pg_ck.Prelude.{
  ℕ, zero, suc, ◌+◌, ◌*◌, ◌-◌, ◌≤◌, ◌<◌, ◌≡◌, refl, subst, inl, inr, Bool, true, false, ◌&&◌, List,
  [], ◌∷◌, none, some, arith, if◌then◌else◌, ltb, leb, ◌==◌, All, All-both, All-filter_keeps,
  Bool-cases,
}
use pg_ck.Text.Defs.{
  Text, skip_while, trim_end_by, split_by, onto_first, split_whitespace, is_whitespace, is_filled,
}
use pg_ck.Text.Laws.{All-reverse}
use pg_ck.Text.Words.{IsWord, split_whitespace-IsWord}
use pg_ck.Text.Utf8.{
  Bytes, Pending, idle, due, Step, char, wait, bad, lead, follow, next, decode_from, decode,
  IsScalar,
}

-- Whatever bytes of the announced ranges follow, the value is a scalar.
IsDue : ℕ → ℕ → ℕ → ℕ → Type 0
IsDue zero value lo hi = (b : ℕ) → lo ≤ b → b ≤ hi → IsScalar (value * 64 + (b - 0x80))
IsDue (suc k) value lo hi = (b : ℕ) → lo ≤ b → b ≤ hi → IsDue k (value * 64 + (b - 0x80)) 0x80 0xbf

IsPending : Pending → Type 0
IsPending idle = Unit
IsPending (due k value lo hi) = IsDue k value lo hi

IsStep : Step → Type 0
IsStep (char c) = IsScalar c
IsStep (wait p) = IsPending p
IsStep bad = Unit

two : (v lo hi : ℕ) → 0x80 ≤ lo → hi ≤ 0xbf → v < 32 → IsDue 0 v lo hi
unfolding IsDue
two v lo hi l h small b from to = inl (omega arith)

low_three : (v lo hi : ℕ) → 0x80 ≤ lo → hi ≤ 0xbf → v < 13 → IsDue 1 v lo hi
unfolding IsDue
low_three v lo hi l h small b from to c from_c to_c = inl (omega arith)

high_three : (v : ℕ) → 14 ≤ v → v < 16 → IsDue 1 v 0x80 0xbf
unfolding IsDue
high_three v large small b from to c from_c to_c = inr (omega arith, omega arith)

surrogates : IsDue 1 13 0x80 0x9f
unfolding IsDue
surrogates b from to c from_c to_c = inl (omega arith)

first_four : IsDue 2 0 0x90 0xbf
unfolding IsDue
first_four b from to c from_c to_c d from_d to_d = inr (omega arith, omega arith)

four : (v : ℕ) → 1 ≤ v → v < 4 → IsDue 2 v 0x80 0xbf
unfolding IsDue
four v large small b from to c from_c to_c d from_d to_d = inr (omega arith, omega arith)

last_four : IsDue 2 4 0x80 0x8f
unfolding IsDue
last_four b from to c from_c to_c d from_d to_d = inr (omega arith, omega arith)

IsStep-if :
    (x y : Step) (t : Bool)
    → (t ≡ true → IsStep x)
    → (t ≡ false → IsStep y)
    → IsStep (if t then x else y)
IsStep-if x y true h k = h refl
IsStep-if x y false h k = k refl

between_three :
    (b : ℕ)
    → (b == 0xe0) ≡ false
    → (b == 0xed) ≡ false
    → ltb b 0xe0 ≡ false
    → ltb b 0xf0 ≡ true
    → IsDue 1 (b - 0xe0) 0x80 0xbf
between_three b e0 ed from to = elim (Bool-cases (ltb b 0xed)) [
  | inl below ↦ low_three (b - 0xe0) 0x80 0xbf (omega arith) (omega arith) (ground arith)
  | inr above ↦ high_three (b - 0xe0) (ground arith) (ground arith)
]

lead-IsStep : (b : ℕ) → IsStep (lead b)
unfolding lead IsStep IsPending
lead-IsStep b =
    IsStep-if _ _ (ltb b 0x80) (λ e. inl (ground arith))
      λ e1.
        IsStep-if _ _ (ltb b 0xc2) (λ _. tt)
          λ e2.
            IsStep-if _ _ (ltb b 0xe0)
              (λ e. two (b - 0xc0) 0x80 0xbf (omega arith) (omega arith) (ground arith))
              λ e3.
                IsStep-if _ _ (b == 0xe0)
                  (λ _. low_three 0 0xa0 0xbf (omega arith) (omega arith) (omega arith))
                  λ e4.
                    IsStep-if _ _ (b == 0xed) (λ _. surrogates)
                      λ e5.
                        IsStep-if _ _ (ltb b 0xf0) (λ e6. between_three b e4 e5 e3 e6)
                          λ e6.
                            IsStep-if _ _ (b == 0xf0) (λ _. first_four)
                              λ e7.
                                IsStep-if _ _ (ltb b 0xf4)
                                  (λ e8. four (b - 0xf0) (ground arith) (ground arith))
                                  λ e8. IsStep-if _ _ (b == 0xf4) (λ _. last_four) (λ _. tt)

follow-IsStep :
    (k value lo hi b : ℕ) → IsDue k value lo hi → lo ≤ b → b ≤ hi → IsStep (follow k value b)
unfolding follow IsStep IsPending IsDue
follow-IsStep zero value lo hi b h from to = h b from to
follow-IsStep (suc k) value lo hi b h from to = h b from to

next-IsStep : (p : Pending) (b : ℕ) → IsPending p → IsStep (next p b)
unfolding next IsPending
next-IsStep idle b h = lead-IsStep b
next-IsStep (due k value lo hi) b h =
    IsStep-if _ _ (leb lo b && leb b hi)
      (λ e. follow-IsStep k value lo hi b h (ground arith) (ground arith))
      (λ _. unfold IsStep in tt)

step-All :
    (x : Step) (bs : Bytes) {s : Text}
    → IsStep x
    → ((q : Pending) (t : Text) → IsPending q → decode_from q bs ≡ some t → All IsScalar t)
    → elim x [
      | char c ↦ Option.map (λ t. c ∷ t) (decode_from idle bs)
      | wait q ↦ decode_from q bs
      | bad ↦ none
    ]
      ≡ some s
    → All IsScalar s
unfolding IsStep IsPending
step-All (char c) bs h ih e =
    let (t, found, same) = (Option.map-eq-some_iff _ _).0 e in
    subst (All IsScalar) same (h, ih idle t tt found)
step-All (wait q) bs {s} h ih e = ih q s h e
step-All bad bs h ih e = absurd (ground arith)

decode_from-All :
    (bs : Bytes) (p : Pending) (s : Text) → IsPending p → decode_from p bs ≡ some s → All IsScalar s
unfolding decode_from
decode_from-All [] idle s h e = subst (All IsScalar) (Option.some-injective [] s e) tt
decode_from-All [] (due k v lo hi) s h e = absurd (ground arith)
decode_from-All (b ∷ bs) p s h e =
    step-All (next p b) bs {s = s} (next-IsStep p b h) (decode_from-All bs) e

-- Text that is decoded from bytes is Unicode scalar values.
pub decode-All : (bs : Bytes) (s : Text) → decode bs ≡ some s → All IsScalar s
unfolding decode IsPending
decode-All bs s e = decode_from-All bs idle s tt e

module _ (P : ℕ → Type 0) where
  skip_while_keeps : (drop : ℕ → Bool) (s : Text) → All P s → All P (skip_while drop s)
  unfolding skip_while
  skip_while_keeps drop [] h = tt
  skip_while_keeps drop (c ∷ s) (h, hs) = elim (Bool-cases (drop c)) [
    | inl e ↦ rw e (skip_while_keeps drop s hs)
    | inr e ↦ rw e (h, hs)
  ]

  pub trim_end_by_keeps : (drop : ℕ → Bool) (s : Text) → All P s → All P (trim_end_by drop s)
  unfolding trim_end_by
  trim_end_by_keeps drop s h = All-reverse P _ (skip_while_keeps drop _ (All-reverse P s h))

  onto_first_keeps : (c : ℕ) (ps : List Text) → P c → All (All P) ps → All (All P) (onto_first c ps)
  onto_first_keeps c [] h hs = ((h, tt), tt)
  onto_first_keeps c (p ∷ ps) h (hp, hs) = ((h, hp), hs)

  split_by_keeps : (cut : ℕ → Bool) (s : Text) → All P s → All (All P) (split_by cut s)
  unfolding split_by
  split_by_keeps cut [] h = (tt, tt)
  split_by_keeps cut (c ∷ s) (h, hs) = elim (Bool-cases (cut c)) [
    | inl e ↦ rw e (tt, split_by_keeps cut s hs)
    | inr e ↦ rw e (onto_first_keeps c (split_by cut s) h (split_by_keeps cut s hs))
  ]

-- A word that UTF-8 can carry.
abbrev pub IsPlainWord : Text → Type 0
IsPlainWord w = IsWord w × All IsScalar w

pub split_whitespace-IsPlainWord :
    (s : Text) → All IsScalar s → All IsPlainWord (split_whitespace s)
unfolding split_whitespace
split_whitespace-IsPlainWord s h =
    All-both IsWord (All IsScalar) (split_whitespace s) (split_whitespace-IsWord s)
      (All-filter_keeps (All IsScalar) is_filled _ (split_by_keeps IsScalar is_whitespace s h))
