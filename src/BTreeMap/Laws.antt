-- ===== src/BTreeMap/Laws.antt =====
-- Looking up after a write, and the order of the keys.
use pg_ck.Prelude.{
  ◌≡◌, refl, true, List, [], ◌∷◌, none, some, arith, if◌then◌else◌, inl, inr, All, All-map,
  Bool-cases,
}
use pg_ck.Text.{Text, text_eq, text_eq_iff}
use pg_ck.BTreeMap.{text_lt, lookup, insert, remove, IsOrdered}
use pg_ck.BTreeMap.Order.{text_lt_irrefl, text_lt_trans, text_lt_total}

module _ {V : Type 0} where
  pub lookup-insert :
      (k j : Text) (v : V) (m : List (Text × V))
      → lookup j (insert k v m) ≡ (if text_eq k j then some v else lookup j m)
  unfolding lookup insert
  lookup-insert k j v [] = refl
  lookup-insert k j v ((i, w) ∷ m) =
      ground (arith, text_eq_iff k j, text_eq_iff i k, text_eq_iff i j, lookup-insert k j v m)

  -- A key below all keys of a map is not in it.
  pub lookup_below :
      (k : Text) (m : List (Text × V)) → All (λ e. text_lt k e.0 ≡ true) m → lookup k m ≡ none
  unfolding lookup
  lookup_below k [] h = refl
  lookup_below k ((i, w) ∷ m) (h, hs) =
      ground (arith, text_eq_iff i k, text_lt_irrefl k, lookup_below k m hs)

  pub lookup-remove :
      (k j : Text) (m : List (Text × V))
      → IsOrdered m
      → lookup j (remove k m) ≡ (if text_eq k j then none else lookup j m)
  unfolding lookup remove
  lookup-remove k j [] h = ground arith
  lookup-remove k j ((i, w) ∷ m) (h, hs) = ground (
    arith,
    text_eq_iff k j,
    text_eq_iff i k,
    text_eq_iff i j,
    lookup_below i m h,
    lookup-remove k j m hs,
  )

  All-insert :
      (P : Text × V → Type 0) (k : Text) (v : V) (m : List (Text × V))
      → P (k, v)
      → All P m
      → All P (insert k v m)
  unfolding insert
  All-insert P k v [] h hs = (h, tt)
  All-insert P k v ((i, w) ∷ m) h (hi, hs) = elim (Bool-cases (text_eq i k)) [
    | inl same ↦ rw same (h, hs)
    | inr other ↦ elim (Bool-cases (text_lt k i)) [
      | inl below ↦ rw (other, below) (h, (hi, hs))
      | inr above ↦ rw (other, above) (hi, All-insert P k v m h hs)
    ]
  ]

  pub All-remove :
      (P : Text × V → Type 0) (k : Text) (m : List (Text × V)) → All P m → All P (remove k m)
  unfolding remove
  All-remove P k [] h = tt
  All-remove P k ((i, w) ∷ m) (hi, hs) = elim (Bool-cases (text_eq i k)) [
    | inl same ↦ rw same hs
    | inr other ↦ rw other (hi, All-remove P k m hs)
  ]

  pub insert-IsOrdered :
      (k : Text) (v : V) (m : List (Text × V)) → IsOrdered m → IsOrdered (insert k v m)
  unfolding insert
  insert-IsOrdered k v [] h = (tt, tt)
  insert-IsOrdered k v ((i, w) ∷ m) (h, hs) = elim (Bool-cases (text_eq i k)) [
    | inl same ↦ rw (same, ← (text_eq_iff i k).0 same) (h, hs)
    | inr other ↦ elim (Bool-cases (text_lt k i)) [
      | inl below ↦
          rw (other, below)
            ((below, All-map _ _ m (λ e above. text_lt_trans k i e.0 below above) h), (h, hs))
      | inr above ↦
          rw (other, above)
            (
              All-insert (λ e. text_lt i e.0 ≡ true) k v m
                  (text_lt_total k i (ground (arith, text_eq_iff i k, text_eq_iff k i)) above) h,
              insert-IsOrdered k v m hs,
            )
    ]
  ]

  pub remove-IsOrdered : (k : Text) (m : List (Text × V)) → IsOrdered m → IsOrdered (remove k m)
  unfolding remove
  remove-IsOrdered k [] h = tt
  remove-IsOrdered k ((i, w) ∷ m) (h, hs) = elim (Bool-cases (text_eq i k)) [
    | inl same ↦ rw same hs
    | inr other ↦ rw other (All-remove (λ e. text_lt i e.0 ≡ true) k m h, remove-IsOrdered k m hs)
  ]
