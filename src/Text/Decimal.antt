-- ===== src/Text/Decimal.antt =====
-- Decimal numbers: `to_string` on an unsigned integer, and `str::parse` into a 64-bit one (`u64`, and
-- `usize` on a 64-bit target).
use pg_ck.Prelude.{
  ℕ, zero, suc, ◌+◌, ◌-◌, ◌*◌, ◌/◌, ◌%◌, ◌^◌, ◌≤◌, ◌<◌, ◌≡◌, sym, ap, ◌∙◌, ◌||◌, [], ◌∷◌, Option,
  none, some, arith, ltb, ◌==◌, ltb→lt, if◌then◌else◌, All, Bool-cases, inl, inr,
}
use pg_ck.Text.Defs.{Text}

abbrev pub u64_max : ℕ
u64_max = 2 ^ 64 - 1

-- The fuel is the number of digits at most.
emit : ℕ → ℕ → Text → Text
emit zero n out = out
emit (suc fuel) n out =
    let more = emit fuel (n / 10) ((b'0' + n % 10) ∷ out) in
    if ltb n 10 then (b'0' + n) ∷ out else more

-- `n.to_string()`
unfoldable pub to_decimal : ℕ → Text
unfolding emit
to_decimal n = emit (suc n) n []

-- `checked_mul` and `checked_add` of the digits from the left.
scan : Text → ℕ → Option ℕ
scan [] n = some n
scan (c ∷ s) n =
    if ltb c b'0' || ltb b'9' c
    then none
    else if ltb u64_max (n * 10 + (c - b'0'))
    then none
    else scan s (n * 10 + (c - b'0'))

scan_signed : ℕ → Text → Option ℕ
scan_signed c [] = if c == b'+' then none else scan (c ∷ []) 0
scan_signed c (d ∷ s) = if c == b'+' then scan (d ∷ s) 0 else scan (c ∷ d ∷ s) 0

-- `s.parse::<u64>().ok()`: one `+` in front is read, and the value does not leave the 64 bits.
unfoldable pub parse_u64 : Text → Option ℕ
unfolding scan scan_signed
parse_u64 [] = none
parse_u64 (c ∷ s) = scan_signed c s

abbrev pub IsDigit : ℕ → Type 0
IsDigit c = (b'0' ≤ c) × (c ≤ b'9')

scan-emit :
    (fuel n : ℕ) (out : Text) → n < fuel → n ≤ u64_max → scan (emit fuel n out) 0 ≡ scan out n
unfolding scan emit
scan-emit zero n out h fits = absurd (omega arith)
scan-emit (suc fuel) n out h fits = elim (Bool-cases (ltb n 10)) [
  | inl small ↦ rw small (ground arith)
  | inr large ↦ rw large (ground (arith, scan-emit fuel (n / 10) ((b'0' + n % 10) ∷ out)))
]

emit-IsDigit : (fuel n : ℕ) (out : Text) → All IsDigit out → All IsDigit (emit fuel n out)
unfolding emit
emit-IsDigit zero n out h = h
emit-IsDigit (suc fuel) n out h = elim (Bool-cases (ltb n 10)) [
  | inl small ↦ rw small ((omega arith, let l : n < 10 = ltb→lt n 10 small in omega arith), h)
  | inr large ↦ rw large (emit-IsDigit fuel (n / 10) _ ((omega arith, omega arith), h))
]

emit-cons : (fuel n : ℕ) (out : Text) → n < fuel → (c : ℕ) × (s : Text) × (emit fuel n out ≡ c ∷ s)
unfolding emit
emit-cons zero n out h = absurd (omega arith)
emit-cons (suc fuel) n out h = elim (Bool-cases (ltb n 10)) [
  | inl small ↦ (b'0' + n, out, rw small)
  | inr large ↦ rw large (emit-cons fuel (n / 10) ((b'0' + n % 10) ∷ out) (ground arith))
]

pub to_decimal-IsDigit : (n : ℕ) → All IsDigit (to_decimal n)
unfolding to_decimal
to_decimal-IsDigit n = emit-IsDigit (suc n) n [] tt

pub to_decimal-cons : (n : ℕ) → (c : ℕ) × (s : Text) × (to_decimal n ≡ c ∷ s)
unfolding to_decimal
to_decimal-cons n = emit-cons (suc n) n [] (omega arith)

parse_u64-scan : (c : ℕ) (s : Text) → IsDigit c → parse_u64 (c ∷ s) ≡ scan (c ∷ s) 0
unfolding parse_u64
parse_u64-scan c [] h = ground arith
parse_u64-scan c (d ∷ s) h = ground arith

-- A 64-bit number is read back from its decimal print.
pub parse_u64-to_decimal : (n : ℕ) → n ≤ u64_max → parse_u64 (to_decimal n) ≡ some n
parse_u64-to_decimal n h =
    let (c, s, e) = to_decimal-cons n in
    let digits : All IsDigit (c ∷ s) = rw e at (to_decimal-IsDigit n) in
    rw e (parse_u64-scan c s digits.0)
    ∙ ap (λ t. scan t 0) (sym e)
    ∙ unfold to_decimal scan in scan-emit (suc n) n [] (omega arith) h

scan-le : (s : Text) (n : ℕ) {r : ℕ} → n ≤ u64_max → scan s n ≡ some r → r ≤ u64_max
unfolding scan
scan-le [] n h e = ground arith
scan-le (c ∷ s) n {r} h e = ground (arith, scan-le s (n * 10 + (c - b'0')) {r = r})

-- What is read fits 64 bits.
pub parse_u64-le : (s : Text) {r : ℕ} → parse_u64 s ≡ some r → r ≤ u64_max
unfolding parse_u64
parse_u64-le [] e = absurd (ground arith)
parse_u64-le (c ∷ []) {r} e = ground (arith, scan-le (c ∷ []) 0 {r = r})
parse_u64-le (c ∷ d ∷ s) {r} e =
    ground (arith, scan-le (d ∷ s) 0 {r = r}, scan-le (c ∷ d ∷ s) 0 {r = r})
