-- ===== src/Policy/Verifier.antt =====
-- When a verifier is loaded from the settings.
use pg_ck.Prelude.Int.{pos}
use pg_ck.Prelude.{
  ◌∙◌, sym, ap, [], ◌∷◌, ◌++◌, ◌⊎◌, ◌||◌, true, ℕ, Bool, arith, All, Option-cases, ◌≡◌, ◌↔◌, refl,
  false, Option, none, some, Bool-cases, inl, inr,
}
use pg_ck.Prelude.Result.{Result, ok, err, to_option, >>=-eq-ok, ok_injective}
use pg_ck.Text.{
  Text, codes, is_whitespace, skip_while, trim_start, starts_with, strip_prefix,
  strip_prefix-append, strip_prefix_sound, skip_while_kept, skip_while_dropped,
}
use pg_ck.Libraries.{Codec, Ed25519}
use pg_ck.Jwt.{AuthConfig, Jwks, parse_jwks, from_parts}
use pg_ck.Policy.{Gucs, is_url, auth_config, oidc_auth_config}

-- White space, then the prefix.
abbrev Begins : Text → Text → Type 0
Begins prefix s =
    (spaces : Text) × (rest : Text) × All (λ c. is_whitespace c ≡ true) spaces
    × (s ≡ spaces ++ (prefix ++ rest))

-- A text that is a web address, with white space before it or none.
abbrev pub IsUrl : Text → Type 0
IsUrl s = Begins (codes "http://") s ⊎ Begins (codes "https://") s

spaces_of :
    (s : Text)
    → (spaces : Text) × All (λ c. is_whitespace c ≡ true) spaces
      × (s ≡ spaces ++ skip_while is_whitespace s)
unfolding skip_while
spaces_of [] = ([], tt, refl)
spaces_of (c ∷ s) = elim (Bool-cases (is_whitespace c)) [
  | inl e ↦
      let (spaces, all, same) = spaces_of s in
      (c ∷ spaces, (e, all), rw e (ap (λ (t : Text). c ∷ t) same))
  | inr e ↦ ([], tt, rw e refl)
]

starts_with-append : (p rest : Text) → starts_with p (p ++ rest) ≡ true
starts_with-append p rest = rw (starts_with, strip_prefix-append p rest) refl

starts_with_rest : (p s : Text) → starts_with p s ≡ true → (rest : Text) × (s ≡ p ++ rest)
starts_with_rest p s h = elim (Option-cases (strip_prefix p s)) [
  | inl e ↦ absurd (cc (rw (starts_with, e) at h))
  | inr (rest, e) ↦ (rest, strip_prefix_sound p s e)
]

starts_with-Begins : (p s : Text) → starts_with p (trim_start s) ≡ true → Begins p s
unfolding trim_start
starts_with-Begins p s h =
    let (rest, e) = starts_with_rest p (skip_while is_whitespace s) h in
    let (spaces, all, same) = spaces_of s in
    (spaces, rest, all, same ∙ ap (λ (t : Text). spaces ++ t) e)

Begins-starts_with :
    (c : ℕ) (p s : Text)
    → is_whitespace c ≡ false
    → Begins (c ∷ p) s
    → starts_with (c ∷ p) (trim_start s) ≡ true
unfolding trim_start
Begins-starts_with c p s dark (spaces, rest, all, same) =
    ap (λ (t : Text). starts_with (c ∷ p) (skip_while is_whitespace t)) same
    ∙ ap (starts_with (c ∷ p)) (
        skip_while_dropped is_whitespace spaces (c ∷ (p ++ rest)) all
        ∙ skip_while_kept is_whitespace c (p ++ rest) dark)
    ∙ starts_with-append (c ∷ p) rest

is_url-IsUrl : (s : Text) → is_url s ≡ true → IsUrl s
is_url-IsUrl s h = elim (Bool-cases (starts_with (codes "http://") (trim_start s))) [
  | inl e ↦ inl (starts_with-Begins (codes "http://") s e)
  | inr e ↦ inr (starts_with-Begins (codes "https://") s (rw e at h))
]

or-true : (b : Bool) → (b || true) ≡ true
or-true b = ground arith

IsUrl-is_url : (s : Text) → IsUrl s → is_url s ≡ true
unfolding is_whitespace
IsUrl-is_url s (inl h) = rw (Begins-starts_with b'h' (codes "ttp://") s refl h) refl
IsUrl-is_url s (inr h) =
    rw (Begins-starts_with b'h' (codes "ttps://") s refl h)
      (or-true (starts_with (codes "http://") (trim_start s)))

module _ (codec : Codec) (ed : Ed25519) where
  -- The three settings are there, the key set is no URL and parses to keys, and these are the
  -- configuration, with the issuer and the audience as they are set and 30 seconds of leeway.
  pub record IsConfigured (g : Gucs) (cfg : AuthConfig codec ed) : Type 0 where
    pub jwks : Text
    pub issuer : Text
    pub audience : Text
    pub has_jwks : g.oidc_jwks ≡ some jwks
    pub has_issuer : g.oidc_issuer ≡ some issuer
    pub has_audience : g.oidc_audience ≡ some audience
    pub document : ¬ IsUrl jwks
    pub keys : Jwks codec ed
    pub parsed : parse_jwks codec ed jwks ≡ ok keys
    pub same :
        cfg ≡ record { jwks = keys; issuer = issuer; audience = audience; leeway_secs = pos 30 }

  to_option-ok :
      {E : Type 0} {A : Type 0} (r : Result E A) {a : A} → to_option r ≡ some a → r ≡ ok a
  to_option-ok (ok a) h = cc
  to_option-ok (err e) h = absurd (cc)

  auth_config-IsConfigured :
      (g : Gucs) (cfg : AuthConfig codec ed) (jwks issuer audience : Option Text)
      → g.oidc_jwks ≡ jwks
      → g.oidc_issuer ≡ issuer
      → g.oidc_audience ≡ audience
      → auth_config codec ed jwks issuer audience ≡ some cfg
      → IsConfigured g cfg
  unfolding from_parts
  auth_config-IsConfigured g cfg (some jwks) (some issuer) (some audience) j i a h =
      elim (Bool-cases (is_url jwks)) [
        | inl e ↦ absurd (cc (rw e at h))
        | inr e ↦
            let built = to_option-ok (from_parts codec ed jwks issuer audience) (rw e at h) in
            let (keys, parsed, made) = >>=-eq-ok (parse_jwks codec ed jwks) _ built in
            record {
              jwks = jwks;
              issuer = issuer;
              audience = audience;
              has_jwks = j;
              has_issuer = i;
              has_audience = a;
              document = λ url. absurd (cc (IsUrl-is_url jwks url, e));
              keys = keys;
              parsed = parsed;
              same = sym (ok_injective made);
            }
      ]
  auth_config-IsConfigured g cfg none issuer audience j i a h = absurd (cc)
  auth_config-IsConfigured g cfg (some jwks) none audience j i a h = absurd (cc)
  auth_config-IsConfigured g cfg (some jwks) (some issuer) none j i a h = absurd (cc)

  IsConfigured-complete :
      (g : Gucs) (cfg : AuthConfig codec ed)
      → IsConfigured g cfg
      → oidc_auth_config codec ed g ≡ some cfg
  unfolding oidc_auth_config from_parts
  IsConfigured-complete g cfg h =
      let document : is_url h.jwks ≡ false = elim (Bool-cases (is_url h.jwks)) [
        | inl e ↦ absurd (h.document (is_url-IsUrl h.jwks e))
        | inr e ↦ e
      ] in
      rw (h.has_jwks, h.has_issuer, h.has_audience, document, h.parsed)
        (ap (λ (c : AuthConfig codec ed). some c) (sym h.same))

-- A verifier is loaded exactly when the key set, the issuer and the audience are all set, be they
-- empty, the key set does not begin, after white space, with `http://` or `https://`, and it parses to
-- keys; the verifier has these keys, the issuer and the audience as they are set, and 30 seconds of
-- leeway.
pub oidc_auth_config_iff :
    (codec : Codec) (ed : Ed25519) (g : Gucs) (cfg : AuthConfig codec ed)
    → (oidc_auth_config codec ed g ≡ some cfg) ↔ IsConfigured codec ed g cfg
unfolding oidc_auth_config
oidc_auth_config_iff codec ed g cfg = (
  λ h.
      auth_config-IsConfigured codec ed g cfg g.oidc_jwks g.oidc_issuer g.oidc_audience refl refl
        refl h,
  IsConfigured-complete codec ed g cfg,
)
