-- ===== src/Jwt/Admits.antt =====
-- The admission decision: `verify_jwt`, `AuthConfig::verify` and `callout_identity`.
use pg_ck.Prelude.{subst, sym, ◌∙◌, ◌≡◌, refl, ◌↔◌, ap, List, [], ◌∷◌, Option, none, some, arith}
use pg_ck.Prelude.Int.{ℤ, pos, ◌+ℤ◌, wrap_i64, InI64, ◌≤ℤ◌}
use pg_ck.Prelude.Result.{Result, ok, err, >>=-eq-ok, ok_or-bind, ok_injective}
use pg_ck.Text.{Text, codes, split}
use pg_ck.BTreeMap
use pg_ck.Json.{Value, as_i64, get}
use pg_ck.Json.Laws.{as_i64-InI64}
use pg_ck.Libraries.{Codec, Ed25519}
use pg_ck.Jwt.{
  VerifiedIdentity, Expected, verified, get_str, json_segment, first_part, verify_jwt, AuthConfig,
  from_parts, parse_jwks, expected_at, verify_config, admission_of, callout_identity, Jwks,
}
use pg_ck.Jwt.Accepts.{
  i64_at, IsAuthentic, Segment, ◌<ℤ◌, verify_eddsa_iff, json_segment_sound, json_segment_complete,
}
use mathlib.Core.Option
use mathlib.Core.Option.{some-injective}

module _ (codec : Codec) (ed : Ed25519) where
  open ed use {VerifyingKey}

  -- The token's header names a key of the set by its `kid`, and the token is authentic under that key.
  pub record IsVouched (token : Text) (jwks : Jwks codec ed) (x : Expected) (id : VerifiedIdentity)
      : Type 0 where
    pub h_b64 : Text
    pub others : List Text
    pub begins : split b'.' token ≡ h_b64 ∷ others
    pub header : Value
    pub header_segment : Segment codec h_b64 header
    pub kid : Text
    pub names : get_str (codes "kid") header ≡ some kid
    pub key : VerifyingKey
    pub listed : BTreeMap.lookup kid jwks ≡ some key
    pub authentic : IsAuthentic codec ed token key x id

  first_part_sound :
      (ps : List Text) {h : Text}
      → first_part codec ed ps ≡ ok h
      → (others : List Text) × (ps ≡ h ∷ others)
  first_part_sound [] e = absurd (cc)
  first_part_sound (p ∷ ps) e = (ps, ap (λ (h : Text). h ∷ ps) (ok_injective e))

  verify_jwt_sound :
      (token : Text) (jwks : Jwks codec ed) (x : Expected) (id : VerifiedIdentity)
      → verify_jwt codec ed token jwks x ≡ ok id
      → IsVouched token jwks x id
  unfolding verify_jwt
  verify_jwt_sound token jwks x id e =
      let (h, first, e1) = >>=-eq-ok (first_part codec ed (split b'.' token)) _ e in
      let (others, begins) = first_part_sound _ first in
      let (header, seg, e2) = >>=-eq-ok (json_segment codec h) _ e1 in
      let (kid, names, e3) = ok_or-bind _ _ _ e2 in
      let (key, listed, e4) = ok_or-bind _ _ _ e3 in
      record {
        h_b64 = h;
        others = others;
        begins = begins;
        header = header;
        header_segment = json_segment_sound codec h seg;
        kid = kid;
        names = names;
        key = key;
        listed = listed;
        authentic = (verify_eddsa_iff codec ed token key x id).0 e4;
      }

  verify_jwt_complete :
      (token : Text) (jwks : Jwks codec ed) (x : Expected) (id : VerifiedIdentity)
      → IsVouched token jwks x id
      → verify_jwt codec ed token jwks x ≡ ok id
  unfolding verify_jwt
  verify_jwt_complete token jwks x id v =
      rw (v.begins, json_segment_complete codec v.h_b64 v.header_segment, v.names, v.listed)
        ((verify_eddsa_iff codec ed token v.key x id).1 v.authentic)

  -- A token is presented, verification is configured, and the token is vouched for by a listed key.
  pub record IsAdmitted (token : Option Text) (cfg : Option (AuthConfig codec ed)) (now : ℤ)
      (sub : Text) (exp : ℤ) : Type 0 where
    pub presented : Text
    pub has_token : token ≡ some presented
    pub config : AuthConfig codec ed
    pub configured : cfg ≡ some config
    pub id : VerifiedIdentity
    pub same_sub : id.sub ≡ sub
    pub same_exp : id.exp ≡ exp
    pub vouched : IsVouched presented config.jwks (expected_at codec ed config now) id

  admission_of_sound :
      (r : Result _ VerifiedIdentity) {sub : Text} {exp : ℤ}
      → admission_of codec ed r ≡ verified sub exp
      → (id : VerifiedIdentity) × (r ≡ ok id) × (id.sub ≡ sub) × (id.exp ≡ exp)
  admission_of_sound (ok id) h = (id, refl, ground arith, ground arith)
  admission_of_sound (err e) h = absurd (cc)

  callout_identity_sound :
      (token : Option Text) (cfg : Option (AuthConfig codec ed)) (now : ℤ) (sub : Text) (exp : ℤ)
      → callout_identity codec ed token cfg now ≡ verified sub exp
      → IsAdmitted token cfg now sub exp
  unfolding callout_identity verify_config
  callout_identity_sound (some t) (some c) now sub exp h =
      let (id, e, same_sub, same_exp) = admission_of_sound _ h in
      record {
        presented = t;
        has_token = refl;
        config = c;
        configured = refl;
        id = id;
        same_sub = same_sub;
        same_exp = same_exp;
        vouched = verify_jwt_sound t c.jwks (expected_at codec ed c now) id e;
      }
  callout_identity_sound (some t) none now sub exp h = absurd (cc)
  callout_identity_sound none cfg now sub exp h = absurd (cc)

  callout_identity_complete :
      (token : Option Text) (cfg : Option (AuthConfig codec ed)) (now : ℤ) (sub : Text) (exp : ℤ)
      → IsAdmitted token cfg now sub exp
      → callout_identity codec ed token cfg now ≡ verified sub exp
  unfolding callout_identity verify_config
  callout_identity_complete token cfg now sub exp a =
      rw
        (
          a.has_token,
          a.configured,
          verify_jwt_complete a.presented a.config.jwks (expected_at codec ed a.config now) a.id
              a.vouched,
          a.same_sub,
          a.same_exp,
        )
        refl

-- A connection is admitted under an identity exactly when it presents a token, verification is
-- configured, and the key that the token names by `kid` in the loaded set verifies the token with its
-- claims; the identity and the expiry are the token's own. In every other case it is anonymous.
pub callout_identity_iff :
    (codec : Codec) (ed : Ed25519) (token : Option Text) (cfg : Option (AuthConfig codec ed))
    (now : ℤ) (sub : Text) (exp : ℤ)
    → (callout_identity codec ed token cfg now ≡ verified sub exp)
      ↔ IsAdmitted codec ed token cfg now sub exp
callout_identity_iff codec ed token cfg now sub exp = (
  callout_identity_sound codec ed token cfg now sub exp,
  callout_identity_complete codec ed token cfg now sub exp,
)

i64_at-InI64 : (k : Text) (v : Value) {a : ℤ} → i64_at k v ≡ some a → InI64 a
i64_at-InI64 k v h =
    let (w, _, e) = (Option.bind-eq-some_iff (get k v) as_i64).0 h in as_i64-InI64 w e

-- The expiry of an admission is a number of 64 bits.
pub verified-InI64 :
    (codec : Codec) (ed : Ed25519) (token : Option Text) (cfg : Option (AuthConfig codec ed))
    (now : ℤ) (sub : Text) (exp : ℤ)
    → callout_identity codec ed token cfg now ≡ verified sub exp
    → InI64 exp
verified-InI64 codec ed token cfg now sub exp h =
    let a = callout_identity_sound codec ed token cfg now sub exp h in
    subst InI64 a.same_exp (i64_at-InI64 (codes "exp") _ a.vouched.authentic.holds.expires)

-- An accepted token's expiry, 30 seconds of leeway included, lies in the future, and adding the leeway
-- does not leave the 64 bits.
live_bound :
    (now exp : ℤ)
    → InI64 exp
    → pos 0 ≤ℤ now
    → now <ℤ wrap_i64 (exp +ℤ pos 30)
    → (now <ℤ exp +ℤ pos 30) × InI64 (exp +ℤ pos 30)
unfolding wrap_i64
live_bound now exp h k live = ground arith

from_parts-leeway :
    (codec : Codec) (ed : Ed25519) (jwks issuer audience : Text) {cfg : AuthConfig codec ed}
    → from_parts codec ed jwks issuer audience ≡ ok cfg
    → cfg.leeway_secs ≡ pos 30
unfolding from_parts
from_parts-leeway codec ed jwks issuer audience h =
    let (keys, _, e) = >>=-eq-ok (parse_jwks codec ed jwks) _ h in
    sym (ap (λ c. c.leeway_secs) (ok_injective e))

-- Under a configuration that was built from its parts, at a time from 1970 on, an identity is admitted
-- only before its token's expiry, 30 seconds of leeway included, and adding the leeway to that expiry
-- stays within the 64 bits: a token that expires in the last 30 seconds of the range is refused.
pub verified_before_exp :
    (codec : Codec) (ed : Ed25519) (jwks issuer audience : Text) (cfg : AuthConfig codec ed)
    (token : Option Text) (now : ℤ) (sub : Text) (exp : ℤ)
    → from_parts codec ed jwks issuer audience ≡ ok cfg
    → pos 0 ≤ℤ now
    → callout_identity codec ed token (some cfg) now ≡ verified sub exp
    → (now <ℤ exp +ℤ pos 30) × InI64 (exp +ℤ pos 30)
verified_before_exp codec ed jwks issuer audience cfg token now sub exp built from h =
    let a = callout_identity_sound codec ed token (some cfg) now sub exp h in
    let c = a.vouched.authentic.holds in
    let same : cfg ≡ a.config = some-injective cfg a.config a.configured in
    let leeway : a.config.leeway_secs ≡ pos 30 =
      ap (λ (k : AuthConfig codec ed). k.leeway_secs) (sym same)
      ∙ from_parts-leeway codec ed jwks issuer audience built in
    let live : now <ℤ wrap_i64 (exp +ℤ pos 30) =
      subst (λ e. now <ℤ wrap_i64 (e +ℤ pos 30)) a.same_exp
        (subst (λ l. now <ℤ wrap_i64 (a.id.exp +ℤ l)) leeway c.live) in
    live_bound now exp (verified-InI64 codec ed token (some cfg) now sub exp h) from live
