-- ===== src/Prelude/Result.antt =====
-- `Result<A, E>` and the `?` operator, as the bind of a `do` block.
use mathlib.Core.Path.{◌≡◌, refl, ap}
use mathlib.Core.Bool.{Bool, true, false}
use mathlib.Core.Logic.{◌⊎◌, inl, inr}
use mathlib.Core.Option.{Option, none, some}

pub data Result {ℓ} (E : Type 0) (A : Type ℓ) : Type ℓ where
  ok : A → Result E A
  err : E → Result E A

infixl 5 ◌>>=◌
abbrev pub ◌>>=◌ {ℓ κ} :
    {E : Type 0} {A : Type ℓ} {B : Type κ} → Result E A → (A → Result E B) → Result E B
ok a >>= f = f a
err e >>= f = err e

-- `option.ok_or(e)`
abbrev pub ok_or {ℓ} : {E : Type 0} {A : Type ℓ} → E → Option A → Result E A
ok_or e none = err e
ok_or e (some a) = ok a

-- `result.ok()`
abbrev pub to_option {ℓ} : {E : Type 0} {A : Type ℓ} → Result E A → Option A
to_option (ok a) = some a
to_option (err e) = none

err_injective {ℓ} :
    {E : Type 0} {A : Type ℓ} {a b : E} → ◌≡◌ {A = Result E A} (err a) (err b) → a ≡ b
err_injective {E} {A} {a} e = ap why e
  where
    why : Result E A → E
    why (err x) = x
    why (ok _) = a

-- A chain that succeeds has a first step that succeeds.
pub >>=-eq-ok {ℓ κ} :
    {E : Type 0} {A : Type ℓ} {B : Type κ} (first : Result E A) (next : A → Result E B) {out : B}
    → (first >>= next) ≡ ok out
    → (between : A) × (first ≡ ok between) × (next between ≡ ok out)
>>=-eq-ok (err why) next chain = absurd (cc)
>>=-eq-ok (ok between) next chain = (between, refl, chain)

-- A chain that fails has a first step that fails, or a later one.
pub >>=-eq-err {ℓ κ} :
    {E : Type 0} {A : Type ℓ} {B : Type κ} (first : Result E A) (next : A → Result E B) {e : E}
    → (first >>= next) ≡ err e
    → (first ≡ err e) ⊎ ((between : A) × (first ≡ ok between) × (next between ≡ err e))
>>=-eq-err (err why) next chain = inl (ap err (err_injective chain))
>>=-eq-err (ok between) next chain = inr (between, refl, chain)

pub ok_or-eq-ok {ℓ} :
    {E : Type 0} {A : Type ℓ} (e : E) (o : Option A) {a : A} → ok_or e o ≡ ok a → o ≡ some a
ok_or-eq-ok e none h = cc
ok_or-eq-ok e (some a) h = cc

-- `if !b { return Err(e); }`
abbrev pub require : {E : Type 0} → Bool → E → Result E (Unit {0})
require true e = ok tt
require false e = err e

module _ {ℓ} {E : Type 0} {B : Type ℓ} where
  pub require-bind :
      (b : Bool) (e : E) (k : Unit {0} → Result E B) {r : B}
      → (require b e >>= k) ≡ ok r
      → (b ≡ true) × (k tt ≡ ok r)
  require-bind true e k h = (refl, h)
  require-bind false e k h = absurd (cc)

  pub ok_or-bind {κ} :
      {A : Type κ} (e : E) (o : Option A) (k : A → Result E B) {r : B}
      → (ok_or e o >>= k) ≡ ok r
      → (a : A) × (o ≡ some a) × (k a ≡ ok r)
  ok_or-bind e none k h = absurd (cc)
  ok_or-bind e (some a) k h = (a, refl, h)

pub ok_injective {ℓ} :
    {E : Type 0} {A : Type ℓ} {a b : A} → ◌≡◌ {A = Result E A} (ok a) (ok b) → a ≡ b
ok_injective {E} {A} {a} e = ap value e
  where
    value : Result E A → A
    value (ok x) = x
    value (err _) = a
