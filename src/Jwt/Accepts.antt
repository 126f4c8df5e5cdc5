-- ===== src/Jwt/Accepts.antt =====
-- What `verify_eddsa` and `verify_jwt` accept, in terms of the parts of the token.
use pg_ck.Prelude.{
  ap, sym, ◌+◌, ◌<◌, ◌≡◌, refl, ◌↔◌, true, Option, none, some, arith, Bool-cases, inl, inr, ◌++◌,
  List, [], ◌∷◌, ltb→lt, lt→ltb, subst,
}
use pg_ck.Prelude.Int.{ℤ, ◌+ℤ◌, ◌-ℤ◌, ltb_ℤ, wrap_i64, pos_part, neg_part}
use pg_ck.Prelude.Result.{
  Result, ok, ◌>>=◌, require-bind, ok_or-bind, ok_injective, >>=-eq-ok, ok_or-eq-ok,
}
use pg_ck.Text.{Text, codes, text_eq_iff, split}
use pg_ck.Text.Utf8
use mathlib.Core.Option
use mathlib.Core.Option.{some-injective}
use pg_ck.Json.{Value, Items, nil, cons, string, array, get, as_str, as_i64}
use pg_ck.Libraries.{Codec, Ed25519}
use pg_ck.Jwt.{
  VerifiedIdentity, VerifyError, Expected, is_text, get_str, get_i64, any_str, aud_contains,
  live_exp, begun, check_claims, b64, json_segment, three_parts, verify_parts, verify_eddsa,
}

infix 50 ◌<ℤ◌
abbrev pub ◌<ℤ◌ : ℤ → ℤ → Type 0
a <ℤ b = pos_part a + neg_part b < pos_part b + neg_part a

-- `nbf` is absent, or does not lie in the future.
abbrev pub HasBegun : Option ℤ → Expected → Type 0
HasBegun none x = Unit
HasBegun (some nbf) x = ¬ (x.now_unix <ℤ wrap_i64 (nbf -ℤ x.leeway_secs))

-- `v.get("k")` where it is a text, and where it is a whole number in the range of i64.
abbrev pub text_at : Text → Value → Option Text
text_at k v = Option.bind (get k v) as_str

abbrev pub i64_at : Text → Value → Option ℤ
i64_at k v = Option.bind (get k v) as_i64

-- The value is one of the items.
pub data IsItem (v : Value) : Items → Type 0 where
  here : (vs : Items) → IsItem v (cons v vs)
  there : (w : Value) {vs : Items} → IsItem v vs → IsItem v (cons w vs)

-- An `aud` that is the audience itself, or an array with the audience among its items.
pub data IsMeantFor (audience : Text) : Value → Type 0 where
  alone : IsMeantFor audience (string audience)
  among : {items : Items} → IsItem (string audience) items → IsMeantFor audience (array items)

-- The claims that are asked for, all at once.
pub record Claims (claims : Value) (x : Expected) (id : VerifiedIdentity) : Type 0 where
  pub issued : text_at (codes "iss") claims ≡ some x.issuer
  pub aud : Value
  pub has_aud : get (codes "aud") claims ≡ some aud
  pub meant_for : IsMeantFor x.audience aud
  pub expires : i64_at (codes "exp") claims ≡ some id.exp
  pub live : x.now_unix <ℤ wrap_i64 (id.exp +ℤ x.leeway_secs)
  pub started : HasBegun (i64_at (codes "nbf") claims) x
  pub subject : text_at (codes "sub") claims ≡ some id.sub
  pub username : text_at (codes "preferred_username") claims ≡ id.preferred_username

pub is_text_iff : (o : Option Text) (want : Text) → (is_text o want ≡ true) ↔ (o ≡ some want)
is_text_iff none want = (λ h. absurd (ground arith), λ h. absurd (ground arith))
is_text_iff (some s) want =
    (λ h. ground (arith, text_eq_iff s want), λ h. ground (arith, text_eq_iff s want))

begun_iff : (o : Option ℤ) (x : Expected) → (begun o x ≡ true) ↔ HasBegun o x
begun_iff none x = (λ h. tt, λ h. refl)
begun_iff (some nbf) x = (λ h. ground arith, λ h. ground arith)

live_exp-bind :
    (o : Option ℤ) (x : Expected) (k : ℤ → Result VerifyError VerifiedIdentity)
    {id : VerifiedIdentity}
    → (live_exp o x >>= k) ≡ ok id
    → (e : ℤ) × (o ≡ some e) × (x.now_unix <ℤ wrap_i64 (e +ℤ x.leeway_secs)) × (k e ≡ ok id)
live_exp-bind none x k h = absurd (cc)
live_exp-bind (some e) x k h =
    elim (Bool-cases (ltb_ℤ x.now_unix (wrap_i64 (e +ℤ x.leeway_secs)))) [
      | inl live ↦ (e, refl, ltb→lt _ _ live, rw live at h)
      | inr dead ↦ absurd (cc (rw dead at h))
    ]

string_injective : {s t : Text} → string s ≡ string t → s ≡ t
string_injective {s} {t} e = ap text e
  where
    text : Value → Text
    text (string u) = u
    text _ = s

as_str-string : (v : Value) {s : Text} → as_str v ≡ some s → v ≡ string s
unfolding as_str
as_str-string (string s) e = ap string (some-injective _ _ e)
as_str-string _ e = absurd (ground (arith, e))

any_str_sound :
    (items : Items) (want : Text) → any_str items want ≡ true → IsItem (string want) items
unfolding any_str
any_str_sound nil want h = absurd (ground (arith, h))
any_str_sound (cons v vs) want h = elim (Bool-cases (is_text (as_str v) want)) [
  | inl e ↦
      subst (λ (w : Value). IsItem (string want) (cons w vs))
        (sym (as_str-string v ((is_text_iff (as_str v) want).0 e))) (here vs)
  | inr e ↦ there v (any_str_sound vs want (rw e at h))
]

any_str_complete :
    (want : Text) (items : Items) → IsItem (string want) items → any_str items want ≡ true
unfolding any_str as_str
any_str_complete want _ (here vs) = rw ((text_eq_iff want want).1 refl) refl
any_str_complete want _ (there w {vs = vs} h) = elim (Bool-cases (is_text (as_str w) want)) [
  | inl e ↦ rw e refl
  | inr e ↦ rw e (any_str_complete want vs h)
]

aud_contains_sound :
    (o : Option Value) (want : Text)
    → aud_contains o want ≡ true
    → (aud : Value) × (o ≡ some aud) × IsMeantFor want aud
unfolding aud_contains
aud_contains_sound (some (string s)) want h = (
  string s,
  refl,
  subst (λ (t : Text). IsMeantFor want (string t)) (sym ((text_eq_iff s want).0 h)) alone,
)
aud_contains_sound (some (array items)) want h =
    (array items, refl, among (any_str_sound items want h))
aud_contains_sound _ want h = absurd (ground (arith, h))

aud_contains_complete :
    (aud : Value) (want : Text) → IsMeantFor want aud → aud_contains (some aud) want ≡ true
unfolding aud_contains
aud_contains_complete _ want alone = (text_eq_iff want want).1 refl
aud_contains_complete _ want (among {items = items} h) = any_str_complete want items h

check_claims_sound :
    (claims : Value) (x : Expected) (id : VerifiedIdentity)
    → check_claims claims x ≡ ok id
    → Claims claims x id
unfolding check_claims get_str get_i64
check_claims_sound claims x id h =
    let (iss, h1) = require-bind _ _ _ h in
    let (aud, h2) = require-bind _ _ _ h1 in
    let (exp, found, live, h3) = live_exp-bind _ x _ h2 in
    let (nbf, h4) = require-bind _ _ _ h3 in
    let (sub, has_sub, h5) = ok_or-bind _ _ _ h4 in
    let e = ok_injective h5 in
    let (to, has_aud, meant_for) = aud_contains_sound _ _ aud in
    subst (Claims claims x) e (record {
      issued = (is_text_iff _ _).0 iss;
      aud = to;
      has_aud = has_aud;
      meant_for = meant_for;
      expires = found;
      live = live;
      started = (begun_iff _ x).0 nbf;
      subject = has_sub;
      username = refl;
    })

check_claims_complete :
    (claims : Value) (x : Expected) (id : VerifiedIdentity)
    → Claims claims x id
    → check_claims claims x ≡ ok id
unfolding check_claims get_str get_i64
check_claims_complete claims x id c =
    let e1 = (is_text_iff _ _).1 c.issued in
    let e2 = (begun_iff _ x).1 c.started in
    let e3 = lt→ltb _ _ c.live in
    let e4 = aud_contains_complete c.aud x.audience c.meant_for in
    rw (e1, c.has_aud, e4, c.expires, e3, e2, c.subject, c.username) refl

check_claims_iff :
    (claims : Value) (x : Expected) (id : VerifiedIdentity)
    → (check_claims claims x ≡ ok id) ↔ Claims claims x id
check_claims_iff claims x id = (check_claims_sound claims x id, check_claims_complete claims x id)

module _ (codec : Codec) where
  -- A base64url segment that holds a JSON value.
  pub record Segment (s : Text) (v : Value) : Type 0 where
    pub bytes : Utf8.Bytes
    pub decodes : codec.decode s ≡ some bytes
    pub parses : codec.from_slice bytes ≡ some v

  pub json_segment_sound : (s : Text) {v : Value} → json_segment codec s ≡ ok v → Segment s v
  unfolding json_segment
  json_segment_sound s h =
      let (bytes, decodes, h1) = ok_or-bind _ _ _ h in
      record { bytes = bytes; decodes = decodes; parses = ok_or-eq-ok _ _ h1 }

  pub json_segment_complete : (s : Text) {v : Value} → Segment s v → json_segment codec s ≡ ok v
  unfolding json_segment
  json_segment_complete s g = rw (g.decodes, g.parses) refl

module _ (codec : Codec) (ed : Ed25519) where
  open ed use {VerifyingKey, Signature, signature_from_slice, verify}

  -- The token is `h.p.s`, its header asks for EdDSA, `s` is a signature by `key` of `h.p`, and the
  -- payload holds the claims.
  pub record IsAuthentic (token : Text) (key : VerifyingKey) (x : Expected) (id : VerifiedIdentity)
      : Type 0 where
    pub h_b64 : Text
    pub p_b64 : Text
    pub s_b64 : Text
    pub parts : split b'.' token ≡ h_b64 ∷ p_b64 ∷ s_b64 ∷ []
    pub header : Value
    pub header_segment : Segment codec h_b64 header
    pub alg : text_at (codes "alg") header ≡ some (codes "EdDSA")
    pub sig_bytes : Utf8.Bytes
    pub sig_decodes : codec.decode s_b64 ≡ some sig_bytes
    pub sig : Signature
    pub sig_parses : signature_from_slice sig_bytes ≡ some sig
    pub signed : verify key (Utf8.encode (h_b64 ++ b'.' ∷ p_b64)) sig ≡ true
    pub claims : Value
    pub claims_segment : Segment codec p_b64 claims
    pub holds : Claims claims x id

  three_parts_sound :
      (ps : List Text) {t : Text × Text × Text} → three_parts ps ≡ ok t → ps ≡ t.0 ∷ t.1 ∷ t.2 ∷ []
  unfolding three_parts
  three_parts_sound (h ∷ p ∷ s ∷ []) e =
      ap (λ (t : Text × Text × Text). t.0 ∷ t.1 ∷ t.2 ∷ []) (ok_injective e)
  three_parts_sound _ e = absurd (cc)

  verify_parts_sound :
      (h p s token : Text) (key : VerifyingKey) (x : Expected) (id : VerifiedIdentity)
      → split b'.' token ≡ h ∷ p ∷ s ∷ []
      → verify_parts codec ed (h, p, s) key x ≡ ok id
      → IsAuthentic token key x id
  unfolding verify_parts b64 get_str
  verify_parts_sound h p s token key x id parts e =
      let (header, seg, e1) = >>=-eq-ok (json_segment codec h) _ e in
      let (alg, e2) = require-bind _ _ _ e1 in
      let (sig_bytes, sig_decodes, e3) = ok_or-bind _ _ _ e2 in
      let (sig, sig_parses, e4) = ok_or-bind _ _ _ e3 in
      let (signed, e5) = require-bind _ _ _ e4 in
      let (claims, seg', e6) = >>=-eq-ok (json_segment codec p) _ e5 in
      record {
        h_b64 = h;
        p_b64 = p;
        s_b64 = s;
        parts = parts;
        header = header;
        header_segment = json_segment_sound codec h seg;
        alg = (is_text_iff _ _).0 alg;
        sig_bytes = sig_bytes;
        sig_decodes = sig_decodes;
        sig = sig;
        sig_parses = sig_parses;
        signed = signed;
        claims = claims;
        claims_segment = json_segment_sound codec p seg';
        holds = check_claims_sound claims x id e6;
      }

  verify_eddsa_sound :
      (token : Text) (key : VerifyingKey) (x : Expected) (id : VerifiedIdentity)
      → verify_eddsa codec ed token key x ≡ ok id
      → IsAuthentic token key x id
  unfolding verify_eddsa
  verify_eddsa_sound token key x id e =
      let (t, parts, e1) =
        >>=-eq-ok (three_parts (split b'.' token)) (λ t. verify_parts codec ed t key x) e in
      verify_parts_sound t.0 t.1 t.2 token key x id (three_parts_sound _ parts) e1

  verify_eddsa_complete :
      (token : Text) (key : VerifyingKey) (x : Expected) (id : VerifiedIdentity)
      → IsAuthentic token key x id
      → verify_eddsa codec ed token key x ≡ ok id
  unfolding verify_eddsa verify_parts three_parts b64 get_str
  verify_eddsa_complete token key x id a =
      rw
        (
          a.parts,
          json_segment_complete codec a.h_b64 a.header_segment,
          (is_text_iff _ _).1 a.alg,
          a.sig_decodes,
          a.sig_parses,
          a.signed,
          json_segment_complete codec a.p_b64 a.claims_segment,
        )
        (check_claims_complete a.claims x id a.holds)

-- A token is accepted, with an identity, exactly when it is a compact EdDSA token of three parts, the
-- key verifies its signature over `header.payload`, and the payload makes every claim asked for; the
-- identity is read from that payload.
pub verify_eddsa_iff :
    (codec : Codec) (ed : Ed25519) (token : Text) (key : ed.VerifyingKey) (x : Expected)
    (id : VerifiedIdentity)
    → (verify_eddsa codec ed token key x ≡ ok id) ↔ IsAuthentic codec ed token key x id
verify_eddsa_iff codec ed token key x id =
    (verify_eddsa_sound codec ed token key x id, verify_eddsa_complete codec ed token key x id)
