-- ===== src/Text/Defs.antt =====
-- Texts, and the operations of `str` on them.
use Prim.Native.Char.{code}
use Prim.Native.String.{String}
use mathlib.Core.Option
use pg_ck.Prelude.{
  ◌++◌, ℕ, ◌-◌, Bool, true, false, ◌&&◌, ◌||◌, List, [], ◌∷◌, reverse, map, Option, none, some, leb,
  ◌==◌, if◌then◌else◌, ◌≢◌, All, filter,
}

abbrev pub Text : Type 0
Text = List ℕ

-- The code points of a literal.
abbrev pub codes : String → Text
codes String.[] = []
codes (String.◌∷◌ c s) = code c ∷ codes s

unfoldable pub text_eq : Text → Text → Bool
text_eq [] [] = true
text_eq (a ∷ s) (b ∷ t) = (a == b) && text_eq s t
text_eq _ _ = false

abbrev pub is_nil {ℓ} : {A : Type ℓ} → List A → Bool
is_nil [] = true
is_nil (x ∷ xs) = false

abbrev pub Lacks : ℕ → Text → Type 0
Lacks b = All (λ c. c ≢ b)

-- `s.strip_prefix(p)`
unfoldable pub strip_prefix : Text → Text → Option Text
strip_prefix [] s = some s
strip_prefix (a ∷ p) [] = none
strip_prefix (a ∷ p) (b ∷ s) = if a == b then strip_prefix p s else none

abbrev pub starts_with : Text → Text → Bool
starts_with p s = elim (strip_prefix p s) [ none ↦ false | some _ ↦ true ]

-- `s.split(…)`: there is always one part at least.
abbrev pub onto_first : ℕ → List Text → List Text
onto_first c [] = (c ∷ []) ∷ []
onto_first c (p ∷ ps) = (c ∷ p) ∷ ps

unfoldable pub split_by : (ℕ → Bool) → Text → List Text
split_by cut [] = [] ∷ []
split_by cut (c ∷ s) = let rest = split_by cut s in if cut c then [] ∷ rest else onto_first c rest

unfoldable pub split : ℕ → Text → List Text
unfolding split_by
split sep = split_by (λ c. c == sep)

-- `s.split_once(sep)`: at the first `sep`.
abbrev pub onto_left : ℕ → Text × Text → Text × Text
onto_left c (a, b) = (c ∷ a, b)

unfoldable pub split_once : ℕ → Text → Option (Text × Text)
split_once sep [] = none
split_once sep (c ∷ s) =
    let rest = split_once sep s in if c == sep then some ([], s) else Option.map (onto_left c) rest

-- `char::is_whitespace`: the code points with the property White_Space.
unfoldable pub is_whitespace : ℕ → Bool
is_whitespace c =
    (leb 9 c && leb c 13)
    || c == 0x20
    || c == 0x85
    || c == 0xa0
    || c == 0x1680
    || (leb 0x2000 c && leb c 0x200a)
    || c == 0x2028
    || c == 0x2029
    || c == 0x202f
    || c == 0x205f
    || c == 0x3000

unfoldable pub skip_while : (ℕ → Bool) → Text → Text
skip_while drop [] = []
skip_while drop (c ∷ s) = let rest = skip_while drop s in if drop c then rest else c ∷ s

unfoldable pub trim_start : Text → Text
unfolding skip_while is_whitespace
trim_start s = skip_while is_whitespace s

unfoldable pub trim_end_by : (ℕ → Bool) → Text → Text
unfolding skip_while
trim_end_by drop s = reverse (skip_while drop (reverse s))

unfoldable pub trim : Text → Text
unfolding trim_start trim_end_by is_whitespace
trim s = trim_end_by is_whitespace (trim_start s)

abbrev pub is_filled : Text → Bool
is_filled [] = false
is_filled (c ∷ s) = true

-- `s.split_whitespace()`
unfoldable pub split_whitespace : Text → List Text
unfolding split_by is_whitespace
split_whitespace s = filter is_filled (split_by is_whitespace s)

abbrev upper : ℕ → ℕ
upper c = if leb b'a' c && leb c b'z' then c - 32 else c

unfoldable pub to_ascii_uppercase : Text → Text
to_ascii_uppercase s = map upper s

-- The parts with `sep` between them, as `format!` writes them.
unfoldable pub join : ℕ → List Text → Text
join sep [] = []
join sep (p ∷ []) = p
join sep (p ∷ q ∷ ps) = p ++ sep ∷ join sep (q ∷ ps)
