-- ===== src/Text/Words.antt =====
-- `split_whitespace`: the words of a text.
use pg_ck.Prelude.{
  ℕ, ◌≡◌, refl, ap, ◌∙◌, true, false, List, [], ◌∷◌, ◌++◌, arith, All, Bool-cases, inl, inr, filter,
}
use pg_ck.Text.Defs.{Text, is_whitespace, is_filled, split_by, split_whitespace, join}
use pg_ck.Text.Splitting.{split_by-append, split_by_uncut, split_by-All}
use pg_ck.Text.Decimal.{IsDigit}

abbrev pub HasNoSpace : Text → Type 0
HasNoSpace = All (λ c. is_whitespace c ≡ false)

-- One token of a control line.
abbrev pub IsWord : Text → Type 0
IsWord s = (is_filled s ≡ true) × HasNoSpace s

filter-IsWord : (ps : List Text) → All HasNoSpace ps → All IsWord (filter is_filled ps)
filter-IsWord [] h = tt
filter-IsWord (p ∷ ps) (h, hs) = elim (Bool-cases (is_filled p)) [
  | inl e ↦ rw e ((e, h), filter-IsWord ps hs)
  | inr e ↦ rw e (filter-IsWord ps hs)
]

-- The parts of `split_whitespace` are words.
pub split_whitespace-IsWord : (s : Text) → All IsWord (split_whitespace s)
unfolding split_whitespace
split_whitespace-IsWord s = filter-IsWord (split_by is_whitespace s) (split_by-All is_whitespace s)

-- A word and a space in front of the rest.
pub split_whitespace-word :
    (w rest : Text) → IsWord w → split_whitespace (w ++ b' ' ∷ rest) ≡ w ∷ split_whitespace rest
unfolding split_whitespace
split_whitespace-word w rest (filled, h) =
    ap (filter is_filled) (split_by-append is_whitespace w b' ' rest h refl) ∙ rw filled

pub split_whitespace_last : (w : Text) → IsWord w → split_whitespace w ≡ w ∷ []
unfolding split_whitespace
split_whitespace_last w (filled, h) =
    ap (filter is_filled) (split_by_uncut is_whitespace w h) ∙ rw filled

-- Words joined by one space are read back.
pub split_whitespace-join :
    (w : Text) (ws : List Text)
    → All IsWord (w ∷ ws)
    → split_whitespace (join b' ' (w ∷ ws)) ≡ w ∷ ws
unfolding join
split_whitespace-join w [] (h, _) = split_whitespace_last w h
split_whitespace-join w (v ∷ ws) (h, hs) =
    split_whitespace-word w (join b' ' (v ∷ ws)) h
    ∙ ap (λ (l : List Text). w ∷ l) (split_whitespace-join v ws hs)

is_whitespace-digit : (c : ℕ) → IsDigit c → is_whitespace c ≡ false
unfolding is_whitespace
is_whitespace-digit c h = ground arith

pub HasNoSpace-digits : (s : Text) → All IsDigit s → HasNoSpace s
HasNoSpace-digits [] h = tt
HasNoSpace-digits (c ∷ s) (h, hs) = (is_whitespace-digit c h, HasNoSpace-digits s hs)
