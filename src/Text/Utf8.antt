-- ===== src/Text/Utf8.antt =====
-- UTF-8: `String::as_bytes`, `str::from_utf8` and `String::from_utf8_lossy`.
use pg_ck.Prelude.{
  ℕ, zero, suc, ◌+◌, ◌-◌, ◌*◌, ◌/◌, ◌%◌, ◌≤◌, ◌<◌, ◌≡◌, refl, ap, ◌∙◌, ◌&&◌, List, [], ◌∷◌, ◌++◌,
  Option, none, some, arith, ltb, leb, ◌==◌, if◌then◌else◌, All, All-append, Bool-cases, inl, inr,
  ◌⊎◌, ◌≢◌,
}
use mathlib.Core.Option
use pg_ck.Text.Defs.{Text, Lacks}

abbrev pub Bytes : Type 0
Bytes = List ℕ

-- One code point.
unfoldable pub encode_char : ℕ → Bytes
encode_char c =
    if ltb c 0x80
    then c ∷ []
    else if ltb c 0x800
    then (0xc0 + c / 64) ∷ (0x80 + c % 64) ∷ []
    else if ltb c 0x10000
    then (0xe0 + c / 4096) ∷ (0x80 + c / 64 % 64) ∷ (0x80 + c % 64) ∷ []
    else (0xf0 + c / 262144) ∷ (0x80 + c / 4096 % 64) ∷ (0x80 + c / 64 % 64) ∷ (0x80 + c % 64) ∷ []

-- `s.as_bytes()`
unfoldable pub encode : Text → Bytes
unfolding encode_char
encode [] = []
encode (c ∷ s) = encode_char c ++ encode s

-- What the decoder is inside of: the continuation bytes still due, the value so far, and the range
-- of the next byte.
pub data Pending : Type 0 where
  idle : Pending
  due : ℕ → ℕ → ℕ → ℕ → Pending

pub data Step : Type 0 where
  char : ℕ → Step
  wait : Pending → Step
  bad : Step

-- A byte that begins a sequence: the table of well-formed sequences of the Unicode standard.
unfoldable pub lead : ℕ → Step
lead b =
    if ltb b 0x80
    then char b
    else if ltb b 0xc2
    then bad
    else if ltb b 0xe0
    then wait (due 0 (b - 0xc0) 0x80 0xbf)
    else if b == 0xe0
    then wait (due 1 0 0xa0 0xbf)
    else if b == 0xed
    then wait (due 1 13 0x80 0x9f)
    else if ltb b 0xf0
    then wait (due 1 (b - 0xe0) 0x80 0xbf)
    else if b == 0xf0
    then wait (due 2 0 0x90 0xbf)
    else if ltb b 0xf4
    then wait (due 2 (b - 0xf0) 0x80 0xbf)
    else if b == 0xf4
    then wait (due 2 4 0x80 0x8f)
    else bad

-- `due k`: `k` more continuation bytes follow the next one.
unfoldable pub follow : ℕ → ℕ → ℕ → Step
follow zero value b = char (value * 64 + (b - 0x80))
follow (suc k) value b = wait (due k (value * 64 + (b - 0x80)) 0x80 0xbf)

unfoldable pub next : Pending → ℕ → Step
unfolding lead follow
next idle b = lead b
next (due k value lo hi) b = if leb lo b && leb b hi then follow k value b else bad

unfoldable pub decode_from : Pending → Bytes → Option Text
decode_from idle [] = some []
decode_from (due k value lo hi) [] = none
decode_from p (b ∷ bs) = elim (next p b) [
  | char c ↦ Option.map (λ s. c ∷ s) (decode_from idle bs)
  | wait q ↦ decode_from q bs
  | bad ↦ none
]

-- `str::from_utf8(bytes).ok()`
unfoldable pub decode : Bytes → Option Text
unfolding decode_from next
decode bs = decode_from idle bs

abbrev pub replacement : ℕ
replacement = 0xfffd

-- A byte that does not belong: U+FFFD stands for what came before it, and the byte is read anew.
lossy_restart : Pending → ℕ → (Pending → Text) → Text
lossy_restart idle b rest = replacement ∷ rest idle
lossy_restart (due _ _ _ _) b rest = elim (next idle b) [
  | char c ↦ replacement ∷ c ∷ rest idle
  | wait q ↦ replacement ∷ rest q
  | bad ↦ replacement ∷ replacement ∷ rest idle
]

lossy_from : Pending → Bytes → Text
lossy_from idle [] = []
lossy_from (due k value lo hi) [] = replacement ∷ []
lossy_from p (b ∷ bs) = elim (next p b) [
  | char c ↦ c ∷ lossy_from idle bs
  | wait q ↦ lossy_from q bs
  | bad ↦ lossy_restart p b (λ q. lossy_from q bs)
]

-- `String::from_utf8_lossy(bytes)`
unfoldable pub decode_lossy : Bytes → Text
unfolding lossy_from lossy_restart next
decode_lossy bs = lossy_from idle bs

-- A Unicode scalar value, as a Rust `char` is.
abbrev pub IsScalar : ℕ → Type 0
IsScalar c = (c < 0xd800) ⊎ ((0xe000 ≤ c) × (c < 0x110000))

decode-encode_char :
    (c : ℕ) (bs : Bytes)
    → IsScalar c
    → decode_from idle (encode_char c ++ bs) ≡ Option.map (λ s. c ∷ s) (decode_from idle bs)
unfolding decode_from encode_char next
decode-encode_char c bs h = elim (Bool-cases (ltb c 0x80)) [
  | inl one ↦ rw one (ground arith)
  | inr e1 ↦ elim (Bool-cases (ltb c 0x800)) [
    | inl two ↦ rw (e1, two) (ground arith)
    | inr e2 ↦ elim (Bool-cases (ltb c 0x10000)) [
      | inl three ↦ rw (e1, e2, three) (ground arith)
      | inr four ↦ rw (e1, e2, four) (ground arith)
    ]
  ]
]

pub decode-encode : (s : Text) → All IsScalar s → decode (encode s) ≡ some s
unfolding decode encode
decode-encode [] h = refl
decode-encode (c ∷ s) (h, hs) =
    decode-encode_char c (encode s) h ∙ ap (Option.map (λ s. c ∷ s)) (decode-encode s hs)

-- The two readings of one step agree where the strict one goes on.
lossy-step :
    (x : Step) (bs : Bytes) (wrong s : Text)
    → ((q : Pending) (t : Text) → decode_from q bs ≡ some t → lossy_from q bs ≡ t)
    → elim x [
      | char c ↦ Option.map (λ t. c ∷ t) (decode_from idle bs)
      | wait q ↦ decode_from q bs
      | bad ↦ none
    ]
      ≡ some s
    → elim x [ char c ↦ c ∷ lossy_from idle bs | wait q ↦ lossy_from q bs | bad ↦ wrong ] ≡ s
lossy-step (char c) bs wrong s ih h =
    let (t, found, same) = (Option.map-eq-some_iff _ _).0 h in
    ap (λ (u : Text). c ∷ u) (ih idle t found) ∙ same
lossy-step (wait q) bs wrong s ih h = ih q s h
lossy-step bad bs wrong s ih h = absurd (ground arith)

lossy-decode_from :
    (bs : Bytes) (p : Pending) (s : Text) → decode_from p bs ≡ some s → lossy_from p bs ≡ s
unfolding decode_from lossy_from
lossy-decode_from [] idle s h = ground arith
lossy-decode_from [] (due k v lo hi) s h = absurd (ground arith)
lossy-decode_from (b ∷ bs) p s h = lossy-step (next p b) bs _ s (lossy-decode_from bs) h

-- Bytes that are valid UTF-8 are read alike by both.
pub decode_lossy_of_decode : (bs : Bytes) (s : Text) → decode bs ≡ some s → decode_lossy bs ≡ s
unfolding decode decode_lossy
decode_lossy_of_decode bs s h = lossy-decode_from bs idle s h

-- The bytes of a text hold no byte below 128 that is not one of its characters.
encode_char-Lacks : (b c : ℕ) → b < 128 → c ≢ b → Lacks b (encode_char c)
unfolding encode_char
encode_char-Lacks b c low ne = elim (Bool-cases (ltb c 0x80)) [
  | inl e1 ↦ rw e1 (ne, tt)
  | inr e1 ↦ elim (Bool-cases (ltb c 0x800)) [
    | inl e2 ↦ rw (e1, e2) ((λ e. absurd (omega arith)), ((λ e. absurd (omega arith)), tt))
    | inr e2 ↦ elim (Bool-cases (ltb c 0x10000)) [
      | inl e3 ↦
          rw (e1, e2, e3)
            (
              (λ e. absurd (omega arith)),
              ((λ e. absurd (omega arith)), ((λ e. absurd (omega arith)), tt)),
            )
      | inr e3 ↦
          rw (e1, e2, e3)
            (
              (λ e. absurd (omega arith)),
              (
                (λ e. absurd (omega arith)),
                ((λ e. absurd (omega arith)), ((λ e. absurd (omega arith)), tt)),
              ),
            )
    ]
  ]
]

pub encode-Lacks : (b : ℕ) (s : Text) → b < 128 → Lacks b s → Lacks b (encode s)
unfolding encode
encode-Lacks b [] low h = tt
encode-Lacks b (c ∷ s) low (h, hs) =
    All-append (λ x. x ≢ b) (encode_char c) (encode s) (encode_char-Lacks b c low h)
      (encode-Lacks b s low hs)
