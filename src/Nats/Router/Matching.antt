-- ===== src/Nats/Router/Matching.antt =====
-- Subject matching against the rules of the protocol, stated on the tokens alone.
use pg_ck.Prelude.{
  ℕ, ◌+◌, ◌≡◌, refl, sym, ◌∙◌, Bool, true, false, List, [], ◌∷◌, ◌++◌, none, some, arith,
  if◌then◌else◌, length-append, append_assoc, ◌≢◌, ◌==◌, length, get_elem?, ◌↔◌, Bool-cases, inl,
  inr,
}
use pg_ck.Text.{Text, codes, text_eq, split, text_eq_iff, text_eq_refl}
use pg_ck.Nats.Router.{match_tokens, matches}

-- `>` stands for one or more tokens and is the last of a pattern, `*` for one token, and every other
-- token for itself.
pub data Matches : List Text → List Text → Type 0 where
  done : Matches [] []
  tail : (token : Text) (subject : List Text) → Matches (codes ">" ∷ []) (token ∷ subject)
  wildcard :
      (token : Text) {pattern subject : List Text}
      → Matches pattern subject
      → Matches (codes "*" ∷ pattern) (token ∷ subject)
  literal :
      (token : Text) {pattern subject : List Text}
      → token ≢ codes ">"
      → token ≢ codes "*"
      → Matches pattern subject
      → Matches (token ∷ pattern) (token ∷ subject)

-- The same rules as a program on the two lists, without indices.
unfoldable pub match_lists : List Text → List Text → Bool
match_lists [] [] = true
match_lists [] (s ∷ subject) = false
match_lists (token ∷ pattern) [] = false
match_lists (token ∷ pattern) (s ∷ subject) =
    let next = match_lists pattern subject in
    if text_eq token (codes ">")
    then length pattern == 0
    else if text_eq token (codes "*")
    then next
    else if text_eq s token
    then next
    else false

module _ {ℓ} {A : Type ℓ} where
  get_elem?_here :
      (pre : List A) (x : A) (ys : List A) → get_elem? (pre ++ x ∷ ys) (length pre) ≡ some x
  get_elem?_here [] x ys = refl
  get_elem?_here (p ∷ pre) x ys = get_elem?_here pre x ys

  get_elem?_end : (pre : List A) → get_elem? (pre ++ []) (length pre) ≡ none
  get_elem?_end [] = refl
  get_elem?_end (p ∷ pre) = get_elem?_end pre

-- The loop, with the tokens `pre` behind it, decides the rules on what is left of the two lists.
match_tokens-match_lists :
    (n : ℕ) (pattern : List Text) (i : ℕ) (pre subject : List Text)
    → i + length pattern ≡ n
    → match_tokens n pattern i (pre ++ subject) (length pre) ≡ match_lists pattern subject
unfolding match_tokens match_lists
match_tokens-match_lists n [] i pre [] e = ground (arith, length-append pre [])
match_tokens-match_lists n [] i pre (s ∷ subject) e =
    ground (arith, length-append pre (s ∷ subject))
match_tokens-match_lists n (token ∷ pattern) i pre [] e =
    ground (arith, length-append pre [], get_elem?_end pre)
match_tokens-match_lists n (token ∷ pattern) i pre (s ∷ subject) e = ground (
  arith,
  length-append pre (s ∷ subject),
  length-append pre (s ∷ []),
  append_assoc pre (s ∷ []) subject,
  get_elem?_here pre s subject,
  match_tokens-match_lists n pattern (i + 1) (pre ++ s ∷ []) subject,
)

match_lists_sound :
    (pattern subject : List Text) → match_lists pattern subject ≡ true → Matches pattern subject
unfolding match_lists
match_lists_sound [] [] h = done
match_lists_sound [] (s ∷ subject) h = absurd (ground arith)
match_lists_sound (token ∷ pattern) [] h = absurd (ground arith)
match_lists_sound (token ∷ pattern) (s ∷ subject) h =
    elim (Bool-cases (text_eq token (codes ">"))) [
      | inl rest ↦ last_token pattern ((text_eq_iff _ _).0 rest) (ground arith)
      | inr plain ↦ elim (Bool-cases (text_eq token (codes "*"))) [
        | inl star ↦
            rw ((text_eq_iff token (codes "*")).0 star)
              (wildcard s (match_lists_sound pattern subject (ground arith)))
        | inr other ↦
            let same : text_eq s token ≡ true = ground arith in
            rw ((text_eq_iff s token).0 same) (
              literal token (λ e. ground (arith, text_eq_iff token (codes ">")))
                (λ e. ground (arith, text_eq_iff token (codes "*")))
                (match_lists_sound pattern subject (ground arith)))
      ]
    ]
  where
    last_token :
        (pattern : List Text)
        → token ≡ codes ">"
        → (length pattern == 0) ≡ true
        → Matches (token ∷ pattern) (s ∷ subject)
    last_token [] e _ = rw e (tail s subject)
    last_token (p ∷ ps) e h = absurd (ground arith)

match_lists_complete :
    {pattern subject : List Text} → Matches pattern subject → match_lists pattern subject ≡ true
unfolding match_lists text_eq
match_lists_complete done = refl
match_lists_complete (tail token subject) = refl
match_lists_complete (wildcard token m) = match_lists_complete m
match_lists_complete (literal token h k m) = ground (
  arith,
  text_eq_iff token (codes ">"),
  text_eq_iff token (codes "*"),
  text_eq_refl token,
  match_lists_complete m,
)

pub matches-match_lists :
    (pattern subject : Text)
    → matches pattern subject ≡ match_lists (split b'.' pattern) (split b'.' subject)
unfolding matches
matches-match_lists pattern subject =
    let p = split b'.' pattern in
    match_tokens-match_lists (length p) p 0 [] (split b'.' subject) (omega arith)

-- `matches` returns true exactly when the tokens of the subject follow the pattern by the rules of
-- the protocol, for every pattern and subject.
pub matches_iff :
    (pattern subject : Text)
    → (matches pattern subject ≡ true) ↔ Matches (split b'.' pattern) (split b'.' subject)
matches_iff pattern subject =
    let same = matches-match_lists pattern subject in
    (λ h. match_lists_sound _ _ (sym same ∙ h), λ m. same ∙ match_lists_complete m)
