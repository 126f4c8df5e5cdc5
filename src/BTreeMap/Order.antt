-- ===== src/BTreeMap/Order.antt =====
-- The order of texts.
use pg_ck.Prelude.{◌≡◌, refl, true, false, [], ◌∷◌, arith}
use pg_ck.Text.{Text, text_eq}
use pg_ck.BTreeMap.{text_lt}

pub text_lt_irrefl : (s : Text) → text_lt s s ≡ false
unfolding text_lt
text_lt_irrefl [] = refl
text_lt_irrefl (a ∷ s) = ground (arith, text_lt_irrefl s)

pub text_lt_trans : (r s t : Text) → text_lt r s ≡ true → text_lt s t ≡ true → text_lt r t ≡ true
unfolding text_lt
text_lt_trans [] [] t h k = absurd (ground arith)
text_lt_trans [] (b ∷ s) [] h k = absurd (ground arith)
text_lt_trans [] (b ∷ s) (c ∷ t) h k = refl
text_lt_trans (a ∷ r) [] t h k = absurd (ground arith)
text_lt_trans (a ∷ r) (b ∷ s) [] h k = absurd (ground arith)
text_lt_trans (a ∷ r) (b ∷ s) (c ∷ t) h k = ground (arith, text_lt_trans r s t)

-- Of two different texts one comes first.
pub text_lt_total : (s t : Text) → text_eq s t ≡ false → text_lt s t ≡ false → text_lt t s ≡ true
unfolding text_lt text_eq
text_lt_total [] [] e h = absurd (ground arith)
text_lt_total [] (b ∷ t) e h = absurd (ground arith)
text_lt_total (a ∷ s) [] e h = refl
text_lt_total (a ∷ s) (b ∷ t) e h = ground (arith, text_lt_total s t)
