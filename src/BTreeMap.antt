-- ===== src/BTreeMap.antt =====
-- `std::collections::BTreeMap` with text keys, as src/nats/router.rs and `serde_json` objects use it:
-- an association list in ascending order of the keys (bytes of UTF-8 compare as code points do).
pub mod Order
pub mod Laws
use pg_ck.Prelude.{
  ℕ, Bool, true, false, List, [], ◌∷◌, Option, none, some, ltb, ◌==◌, if◌then◌else◌, All, ◌≡◌,
}
use pg_ck.Text.{Text, text_eq}

unfoldable pub text_lt : Text → Text → Bool
text_lt [] [] = false
text_lt [] (b ∷ t) = true
text_lt (a ∷ s) [] = false
text_lt (a ∷ s) (b ∷ t) = if a == b then text_lt s t else ltb a b

module _ {V : Type 0} where
  unfoldable pub lookup : Text → List (Text × V) → Option V
  lookup k [] = none
  lookup k ((j, v) ∷ m) = if text_eq j k then some v else lookup k m

  unfoldable pub insert : Text → V → List (Text × V) → List (Text × V)
  insert k v [] = (k, v) ∷ []
  insert k v ((j, w) ∷ m) =
      let later = (j, w) ∷ insert k v m in
      if text_eq j k then (k, v) ∷ m else if text_lt k j then (k, v) ∷ (j, w) ∷ m else later

  unfoldable pub remove : Text → List (Text × V) → List (Text × V)
  remove k [] = []
  remove k ((j, w) ∷ m) = let later = (j, w) ∷ remove k m in if text_eq j k then m else later

  -- The keys ascend strictly.
  abbrev pub IsOrdered : List (Text × V) → Type 0
  IsOrdered [] = Unit
  IsOrdered ((k, v) ∷ m) = All (λ e. text_lt k e.0 ≡ true) m × IsOrdered m
