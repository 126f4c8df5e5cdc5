-- ===== src/Nats/Router/Open.antt =====
-- Patterns of the form `a.b.….>`: which subjects they match.
use mathlib.Core.List.{cons-ne-nil}
use pg_ck.Prelude.{
  ◌≡◌, ◌≢◌, ◌↔◌, ◌∙◌, refl, sym, ap, true, List, [], ◌∷◌, ◌++◌, All, All-map, arith,
}
use pg_ck.Text.{
  Text, codes, Lacks, split, join, split-append, split-ne-nil, join-split, split_of_Lacks, text_eq,
  text_eq_iff, text_eq_refl,
}
use pg_ck.Nats.Router.{matches}
use pg_ck.Nats.Router.Matching.{match_lists, matches-match_lists}

-- The tokens, each with a dot behind it, and then the rest.
abbrev pub prefixed : List Text → Text → Text
prefixed [] rest = rest
prefixed (p ∷ ps) rest = p ++ b'.' ∷ prefixed ps rest

-- One token that stands for itself.
abbrev pub IsLiteral : Text → Type 0
IsLiteral p = (p ≢ codes ">") × (p ≢ codes "*") × Lacks b'.' p

pub split-prefixed :
    (ps : List Text) (rest : Text)
    → All (Lacks b'.') ps
    → split b'.' (prefixed ps rest) ≡ ps ++ split b'.' rest
split-prefixed [] rest h = refl
split-prefixed (p ∷ ps) rest (dotless, hs) =
    split-append b'.' p (prefixed ps rest) dotless
    ∙ ap (λ (l : List Text). p ∷ l) (split-prefixed ps rest hs)

pub join-prefixed :
    (ps rest : List Text) → rest ≢ [] → join b'.' (ps ++ rest) ≡ prefixed ps (join b'.' rest)
unfolding join
join-prefixed [] rest h = refl
join-prefixed (p ∷ []) [] h = absurd (h refl)
join-prefixed (p ∷ []) (r ∷ rest) h = refl
join-prefixed (p ∷ q ∷ ps) rest h = ap (λ (t : Text). p ++ b'.' ∷ t) (join-prefixed (q ∷ ps) rest h)

pub ne-nil_of_open : (tokens : List Text) → match_lists (codes ">" ∷ []) tokens ≡ true → tokens ≢ []
unfolding match_lists
ne-nil_of_open [] h = absurd (ground arith)
ne-nil_of_open (t ∷ tokens) h = cons-ne-nil t tokens

pub open_of_ne-nil : (tokens : List Text) → tokens ≢ [] → match_lists (codes ">" ∷ []) tokens ≡ true
unfolding match_lists text_eq
open_of_ne-nil [] h = absurd (h refl)
open_of_ne-nil (t ∷ tokens) h = refl

literal-Lacks : (ps : List Text) → All IsLiteral ps → All (Lacks b'.') ps
literal-Lacks ps = All-map IsLiteral (Lacks b'.') ps (λ p (_, _, dotless). dotless)

open_sound :
    (ps tokens : List Text)
    → All IsLiteral ps
    → match_lists (ps ++ codes ">" ∷ []) tokens ≡ true
    → (rest : List Text) × (tokens ≡ ps ++ rest) × (rest ≢ [])
unfolding match_lists
open_sound [] tokens h m = (tokens, refl, ne-nil_of_open tokens m)
open_sound (p ∷ ps) [] h m = absurd (ground arith)
open_sound (p ∷ ps) (t ∷ tokens) ((not_rest, not_star, _), hs) m =
    let same : t ≡ p =
      ground (arith, text_eq_iff p (codes ">"), text_eq_iff p (codes "*"), text_eq_iff t p) in
    let (rest, e, filled) =
      open_sound ps tokens hs
        (ground (arith, text_eq_iff p (codes ">"), text_eq_iff p (codes "*"), text_eq_iff t p)) in
    (rest, cc (same, e), filled)

open_complete :
    (ps rest : List Text)
    → All IsLiteral ps
    → rest ≢ []
    → match_lists (ps ++ codes ">" ∷ []) (ps ++ rest) ≡ true
unfolding match_lists
open_complete [] rest h filled = open_of_ne-nil rest filled
open_complete (p ∷ ps) rest ((not_rest, not_star, _), hs) filled = ground (
  arith,
  text_eq_iff p (codes ">"),
  text_eq_iff p (codes "*"),
  text_eq_refl p,
  open_complete ps rest hs filled,
)

open_pattern :
    (ps : List Text)
    → All IsLiteral ps
    → split b'.' (prefixed ps (codes ">")) ≡ ps ++ codes ">" ∷ []
open_pattern ps h =
    split-prefixed ps (codes ">") (literal-Lacks ps h)
    ∙ ap (λ (l : List Text). ps ++ l)
        (split_of_Lacks b'.' (codes ">") ((λ e. absurd (ground arith)), tt))

-- A pattern of tokens that stand for themselves with `>` behind them matches a subject exactly when
-- the subject starts with these tokens, whatever follows.
pub matches_open_iff :
    (ps : List Text) (subject : Text)
    → All IsLiteral ps
    → (matches (prefixed ps (codes ">")) subject ≡ true)
      ↔ ((rest : Text) × (subject ≡ prefixed ps rest))
matches_open_iff ps subject h =
    let same : matches (prefixed ps (codes ">")) subject
        ≡ match_lists (ps ++ codes ">" ∷ []) (split b'.' subject) =
      matches-match_lists (prefixed ps (codes ">")) subject
      ∙ ap (λ (l : List Text). match_lists l (split b'.' subject)) (open_pattern ps h) in
    (
      (λ m.
          let (rest, tokens, filled) = open_sound ps (split b'.' subject) h (sym same ∙ m) in
          (
            join b'.' rest,
            sym (join-split b'.' subject)
                ∙ ap (λ (l : List Text). join b'.' l) tokens
                ∙ join-prefixed ps rest filled,
          )),
      λ (rest, spelled).
          same
          ∙ ap (λ (l : List Text). match_lists (ps ++ codes ">" ∷ []) l)
              (ap (λ (t : Text). split b'.' t) spelled
                ∙ split-prefixed ps rest (literal-Lacks ps h))
          ∙ open_complete ps (split b'.' rest) h (split-ne-nil b'.' rest),
    )
