-- ===== src/Relay/Retry.antt =====
-- `connect_with_retry`: the delays before the client is connected.
use pg_ck.Prelude.{
  leb, if◌then◌else◌, refl, ◌^◌, ℕ, zero, suc, ◌<◌, ◌≡◌, sym, ap, ◌∙◌, Bool, true, false, List, [],
  ◌∷◌, ◌++◌, some, arith, append_assoc, append-nil,
}
use pg_ck.Relay.{delay_after, connect_from, connect_with_retry}

-- 1, 2, 4, 8 and then 15 seconds: 2 ^ k, but 15 where that is more.
abbrev pub seconds : ℕ → ℕ
seconds k = if leb (2 ^ k) 15 then 2 ^ k else 15

-- The waits before attempts `k + 1` to `k + m`.
abbrev pub delays : ℕ → ℕ → List ℕ
delays k zero = []
delays k (suc m) = seconds k ∷ delays (suc k) m

delay_after-seconds : (k : ℕ) → delay_after k ≡ seconds k
unfolding delay_after
delay_after-seconds zero = refl
delay_after-seconds (suc k) = rw (delay_after-seconds k) (ground arith)

-- The broker does not answer attempts `k` to `k + m - 1`, and answers the next one.
abbrev pub AnswersAfter : (ℕ → Bool) → ℕ → ℕ → Type 0
AnswersAfter answers k zero = answers k ≡ true
AnswersAfter answers k (suc m) = (answers k ≡ false) × AnswersAfter answers (suc k) m

connect_from-delays :
    (m fuel k : ℕ) (answers : ℕ → Bool) (slept : List ℕ)
    → m < fuel
    → AnswersAfter answers k m
    → connect_from fuel answers k (delay_after k) slept ≡ some (slept ++ delays k m)
unfolding connect_from delay_after
connect_from-delays m zero k answers slept h a = absurd (omega arith)
connect_from-delays zero (suc fuel) k answers slept h a =
    rw a (ap (λ (l : List ℕ). some l) (sym (append-nil slept)))
connect_from-delays (suc m) (suc fuel) k answers slept h (silent, later) = rw silent (
    connect_from-delays m fuel (suc k) answers (slept ++ delay_after k ∷ []) (omega arith) later
    ∙ ap (λ (d : ℕ). some ((slept ++ d ∷ []) ++ delays (suc k) m)) (delay_after-seconds k)
    ∙ ap (λ (l : List ℕ). some l) (append_assoc slept (seconds k ∷ []) (delays (suc k) m)))

-- Against a broker that first answers after `m` attempts, the loop ends connected for every fuel above
-- `m`, having slept once before each further attempt: before the `k`-th of these, counted from 0, for
-- 2 ^ k seconds, but for 15 where that is more.
pub connect_with_retry-delays :
    (m fuel : ℕ) (answers : ℕ → Bool)
    → m < fuel
    → AnswersAfter answers 0 m
    → connect_with_retry fuel answers ≡ some (delays 0 m)
unfolding connect_with_retry delay_after
connect_with_retry-delays m fuel answers h a = connect_from-delays m fuel 0 answers [] h a
