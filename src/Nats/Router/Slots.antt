-- ===== src/Nats/Router/Slots.antt =====
-- Patterns of the form `a.*.b.….>`: which subjects they match.
use pg_ck.Prelude.{
  ◌≡◌, ◌≢◌, ◌↔◌, ◌⊎◌, ◌∙◌, refl, sym, ap, true, List, [], ◌∷◌, ◌++◌, All, All-map, arith, subst,
}
use pg_ck.Text.{
  Text, codes, Lacks, split, join, split-Lacks, split-ne-nil, join-split, split_of_Lacks,
  text_eq_iff,
}
use pg_ck.Nats.Router.{matches}
use pg_ck.Nats.Router.Matching.{match_lists, matches-match_lists}
use pg_ck.Nats.Router.Open.{prefixed, split-prefixed, join-prefixed, ne-nil_of_open, open_of_ne-nil}

-- A token for each token of the pattern: any for `*`, and itself for another.
abbrev pub Fits : List Text → List Text → Type 0
Fits [] [] = Unit
Fits (p ∷ ps) (q ∷ qs) = ((p ≡ codes "*") ⊎ (q ≡ p)) × Fits ps qs
Fits [] (q ∷ qs) = ⊥
Fits (p ∷ ps) [] = ⊥

-- One token that is not `>`.
abbrev pub IsSlot : Text → Type 0
IsSlot p = (p ≢ codes ">") × Lacks b'.' p

slots_sound :
    (ps tokens : List Text)
    → All IsSlot ps
    → match_lists (ps ++ codes ">" ∷ []) tokens ≡ true
    → (qs rest : List Text) × (tokens ≡ qs ++ rest) × Fits ps qs × (rest ≢ [])
unfolding match_lists
slots_sound [] tokens h m = ([], tokens, refl, tt, ne-nil_of_open tokens m)
slots_sound (p ∷ ps) [] h m = absurd (ground arith)
slots_sound (p ∷ ps) (t ∷ tokens) ((not_rest, _), hs) m =
    let next : match_lists (ps ++ codes ">" ∷ []) tokens ≡ true =
      ground (arith, text_eq_iff p (codes ">")) in
    let fit : (p ≡ codes "*") ⊎ (t ≡ p) =
      ground (arith, text_eq_iff p (codes ">"), text_eq_iff p (codes "*"), text_eq_iff t p) in
    let (qs, rest, e, fits, filled) = slots_sound ps tokens hs next in
    (t ∷ qs, rest, ap (λ (l : List Text). t ∷ l) e, (fit, fits), filled)

slots_complete :
    (ps qs rest : List Text)
    → All IsSlot ps
    → Fits ps qs
    → rest ≢ []
    → match_lists (ps ++ codes ">" ∷ []) (qs ++ rest) ≡ true
unfolding match_lists
slots_complete [] [] rest h fits filled = open_of_ne-nil rest filled
slots_complete [] (q ∷ qs) rest h fits filled = absurd fits
slots_complete (p ∷ ps) [] rest h fits filled = absurd fits
slots_complete (p ∷ ps) (q ∷ qs) rest ((not_rest, _), hs) (fit, fits) filled = ground (
  arith,
  text_eq_iff p (codes ">"),
  text_eq_iff p (codes "*"),
  text_eq_iff q p,
  slots_complete ps qs rest hs fits filled,
)

slots_pattern :
    (ps : List Text) → All IsSlot ps → split b'.' (prefixed ps (codes ">")) ≡ ps ++ codes ">" ∷ []
slots_pattern ps h =
    split-prefixed ps (codes ">") (All-map IsSlot (Lacks b'.') ps (λ p (_, dotless). dotless) h)
    ∙ ap (λ (l : List Text). ps ++ l)
        (split_of_Lacks b'.' (codes ">") ((λ e. absurd (ground arith)), tt))

All-prefix : (qs rest : List Text) → All (Lacks b'.') (qs ++ rest) → All (Lacks b'.') qs
All-prefix [] rest h = tt
All-prefix (q ∷ qs) rest (h, hs) = (h, All-prefix qs rest hs)

-- A pattern of slots with `>` behind them matches a subject exactly when the subject starts with a
-- token for each slot, whatever follows.
pub matches_slots_iff :
    (ps : List Text) (subject : Text)
    → All IsSlot ps
    → (matches (prefixed ps (codes ">")) subject ≡ true) ↔ (
        (qs : List Text) × (rest : Text) × Fits ps qs
        × All (Lacks b'.') qs
        × (subject ≡ prefixed qs rest))
matches_slots_iff ps subject h =
    let same : matches (prefixed ps (codes ">")) subject
        ≡ match_lists (ps ++ codes ">" ∷ []) (split b'.' subject) =
      matches-match_lists (prefixed ps (codes ">")) subject
      ∙ ap (λ (l : List Text). match_lists l (split b'.' subject)) (slots_pattern ps h) in
    (
      (λ m.
          let (qs, rest, tokens, fits, filled) =
            slots_sound ps (split b'.' subject) h (sym same ∙ m) in
          (
            qs,
            join b'.' rest,
            fits,
            All-prefix qs rest (subst (All (Lacks b'.')) tokens (split-Lacks b'.' subject)),
            sym (join-split b'.' subject)
                ∙ ap (λ (l : List Text). join b'.' l) tokens
                ∙ join-prefixed qs rest filled,
          )),
      λ (qs, rest, fits, dotless, spelled).
          same
          ∙ ap (λ (l : List Text). match_lists (ps ++ codes ">" ∷ []) l)
              (ap (λ (t : Text). split b'.' t) spelled ∙ split-prefixed qs rest dotless)
          ∙ slots_complete ps qs (split b'.' rest) h fits (split-ne-nil b'.' rest),
    )
