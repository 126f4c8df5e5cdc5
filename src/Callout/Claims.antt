-- ===== src/Callout/Claims.antt =====
-- What the broker reads of the responder's signed texts (src/auth_callout.rs), decoded again: the claims
-- of a response, and those of the user JWT in it.
use pg_ck.Prelude.{◌≡◌, refl, List, [], ◌∷◌, ◌++◌, Option, none, some}
use pg_ck.Prelude.Int.{ℤ, InI64}
use pg_ck.Prelude.Result.{Result, ok, err}
use mathlib.Core.Option
use pg_ck.Text.{Text, codes, Lacks, split-append, text_eq}
use pg_ck.Text.Utf8
use pg_ck.Text.Utf8.{Bytes}
use pg_ck.BTreeMap.{text_lt}
use pg_ck.Json.{
  Value, Items, nil, cons, string, as_str, as_array, strings, get, get_field, insert_field,
  fields_of, with_field, object_of,
}
use pg_ck.Json.Laws.{as_i64-of_i64}
use pg_ck.Jwt.Accepts.{text_at, i64_at}
use pg_ck.Json.Plain.{with_field-IsPlain}
use pg_ck.Libraries.{Codec, CodecLaws, Nkeys, Digests, IsPlain}
use pg_ck.Jwt.{Admission, verified, anonymous}
use pg_ck.Callout.Grants.{UserPermissions, permissions_for}
use pg_ck.Callout.Request.{decode_claims}
use pg_ck.Callout.Mint.{
  stamped, encode_and_sign, jwt_header, nats_jti, user_nats, user_claims, build_user_jwt,
  response_nats, response_claims, build_response, name_of, exp_of, respond,
}
use pg_ck.Callout.Plain.{user_claims-IsPlain, response_claims-IsPlain}

module _ (codec : Codec) (laws : CodecLaws codec) (nkeys : Nkeys) (digests : Digests) where
  open nkeys use {KeyPair, public_key, sign}

  -- The subjects in a list of a section of a `nats` claim, if it is there.
  abbrev texts_of : Items → Option (List Text)
  texts_of nil = some []
  texts_of (cons (string s) vs) = Option.map (λ (ss : List Text). s ∷ ss) (texts_of vs)
  texts_of (cons _ vs) = none

  abbrev subjects_at : Text → Text → Value → Option (List Text)
  subjects_at section key nats =
      Option.bind (Option.bind (Option.bind (get section nats) (get key)) as_array) texts_of

  abbrev unless_nil : List Text → Option (List Text)
  unless_nil [] = none
  unless_nil (s ∷ ss) = some (s ∷ ss)

  abbrev denied : List Text → Option (List Text)
  denied [] = some (codes ">" ∷ [])
  denied (s ∷ ss) = none

  texts_of-strings : (ss : List Text) → texts_of (strings ss) ≡ some ss
  unfolding strings
  texts_of-strings [] = refl
  texts_of-strings (s ∷ ss) = rw (texts_of-strings ss) refl

  -- The account's key signs whatever it is given.
  abbrev pub Signs : KeyPair → Type 0
  Signs account = (bs : Bytes) → (sig : Bytes) × (sign account bs ≡ ok sig)

  -- The text is a signed JWT with these claims and a `jti`.
  abbrev pub Carries : Text → Value → Type 0
  Carries jwt claims = decode_claims codec jwt ≡ some (stamped codec nkeys digests claims)

  decode_claims-parts :
      (h sig : Text) (bs : Bytes) (v : Value)
      → Lacks b'.' h
      → codec.from_slice bs ≡ some v
      → decode_claims codec (h ++ b'.' ∷ (codec.encode bs ++ b'.' ∷ sig)) ≡ some v
  unfolding decode_claims
  decode_claims-parts h sig bs v dotless parsed =
      rw
        (
          split-append b'.' h (codec.encode bs ++ b'.' ∷ sig) dotless,
          split-append b'.' (codec.encode bs) sig (laws.encode_dotless bs),
          laws.decode_encode bs,
          parsed,
        )
        refl

  encode_and_sign-Carries :
      (claims : Value) (account : KeyPair)
      → IsPlain claims
      → Signs account
      → (jwt : Text) × (encode_and_sign codec nkeys digests claims account ≡ ok jwt)
        × Carries jwt claims
  unfolding encode_and_sign
  encode_and_sign-Carries claims account plain signs =
      let (bs, printed, parsed) = laws.prints (stamped codec nkeys digests claims) (
        with_field-IsPlain (codes "jti") (string (nats_jti codec nkeys digests claims)) claims
          (IsPlain.string _) plain) in
      let header = jwt_header codec nkeys digests in
      let (sig, signed) = signs (Utf8.encode (header ++ b'.' ∷ codec.encode bs)) in
      (
        header ++ b'.' ∷ (codec.encode bs ++ b'.' ∷ codec.encode sig),
        rw (printed, signed) refl,
        decode_claims-parts header (codec.encode sig) bs _ (laws.encode_dotless _) parsed,
      )

  respond-Carries :
      (user_nkey server_id : Text) (account : KeyPair) (r : Result Text Text) (now : ℤ)
      → Signs account
      → Carries
          (respond codec nkeys digests user_nkey server_id account r now)
          (response_claims codec nkeys digests user_nkey server_id account r now)
  unfolding build_response
  respond-Carries user_nkey server_id account r now signs =
      let claims = response_claims codec nkeys digests user_nkey server_id account r now in
      let (jwt, same, carries) =
        encode_and_sign-Carries claims account
          (response_claims-IsPlain codec nkeys digests user_nkey server_id account r now) signs in
      rw same carries

  -- The end and the name that belong to an admission.
  abbrev pub ends : Admission → Option ℤ
  ends (verified sub exp) = some exp
  ends anonymous = none

  abbrev pub IsTimed : Admission → Type 0
  IsTimed (verified sub exp) = InI64 exp
  IsTimed anonymous = Unit

  abbrev pub participant : Admission → Text
  participant (verified sub exp) = codes "urn:ckp:participant:" ++ sub
  participant anonymous = codes "urn:ckp:participant:anon"

  -- What the broker reads of a `nats` claim of a user: the subjects that it may publish to and
  -- subscribe to; where it may publish to none, everything is denied.
  pub record IsUserClaim (nats : Value) (perms : UserPermissions) : Type 0 where
    pub pub_allow : subjects_at (codes "pub") (codes "allow") nats ≡ unless_nil perms.pub_allow
    pub pub_deny : subjects_at (codes "pub") (codes "deny") nats ≡ denied perms.pub_allow
    pub sub_allow : subjects_at (codes "sub") (codes "allow") nats ≡ some perms.sub_allow
    pub sub_deny : subjects_at (codes "sub") (codes "deny") nats ≡ none
    pub kind : text_at (codes "type") nats ≡ some (codes "user")

  -- What the broker reads of a user JWT: whom it is for, who issued it, when it ends, and the
  -- permissions.
  pub record IsUserJwt (jwt user_nkey : Text) (account : KeyPair) (adm : Admission)
      (kernels : List Text) : Type 0 where
    pub claims : Value
    pub decoded : decode_claims codec jwt ≡ some claims
    pub sub : text_at (codes "sub") claims ≡ some user_nkey
    pub iss : text_at (codes "iss") claims ≡ some (public_key account)
    pub aud : text_at (codes "aud") claims ≡ some (codes "$G")
    pub exp : i64_at (codes "exp") claims ≡ ends adm
    pub name : text_at (codes "name") claims ≡ some (participant adm)
    pub nats : Value
    pub has_nats : get (codes "nats") claims ≡ some nats
    pub granted : IsUserClaim nats (permissions_for adm kernels)

  user_nats-IsUserClaim :
      (published subscribed : List Text)
      → IsUserClaim
          (user_nats codec nkeys digests (record { pub_allow = published; sub_allow = subscribed }))
          (record { pub_allow = published; sub_allow = subscribed })
  unfolding get get_field insert_field object_of fields_of text_eq text_lt as_str as_array
      Option.bind strings
  user_nats-IsUserClaim [] subscribed = record {
    pub_allow = refl;
    pub_deny = refl;
    sub_allow = texts_of-strings subscribed;
    sub_deny = refl;
    kind = refl;
  }
  user_nats-IsUserClaim (s ∷ ss) subscribed = record {
    pub_allow = texts_of-strings (s ∷ ss);
    pub_deny = refl;
    sub_allow = texts_of-strings subscribed;
    sub_deny = refl;
    kind = refl;
  }

  pub build_user_jwt-IsUserJwt :
      (user_nkey : Text) (adm : Admission) (account : KeyPair) (now : ℤ) (kernels : List Text)
      → Signs account
      → IsTimed adm
      → (jwt : Text) × (build_user_jwt codec nkeys digests user_nkey
            (name_of codec nkeys digests adm)
            (permissions_for adm kernels)
            account
            now
            (exp_of codec nkeys digests adm)
          ≡ ok jwt)
        × IsUserJwt jwt user_nkey account adm kernels
  unfolding build_user_jwt user_claims get get_field insert_field with_field object_of fields_of
      text_eq text_lt as_str Option.bind
  build_user_jwt-IsUserJwt user_nkey (verified sub exp) account now kernels signs timed =
      let adm = verified sub exp in
      let perms = permissions_for adm kernels in
      let (jwt, same, carries) =
        encode_and_sign-Carries _ account
          (user_claims-IsPlain codec nkeys digests user_nkey (name_of codec nkeys digests adm) perms
            account now (some exp))
          signs in
      (
        jwt,
        same,
        record {
          claims = _;
          decoded = carries;
          sub = refl;
          iss = refl;
          aud = refl;
          exp = as_i64-of_i64 exp timed;
          name = refl;
          nats = user_nats codec nkeys digests perms;
          has_nats = refl;
          granted = user_nats-IsUserClaim perms.pub_allow perms.sub_allow;
        },
      )
  build_user_jwt-IsUserJwt user_nkey anonymous account now kernels signs timed =
      let perms = permissions_for anonymous kernels in
      let (jwt, same, carries) =
        encode_and_sign-Carries _ account
          (user_claims-IsPlain codec nkeys digests user_nkey (name_of codec nkeys digests anonymous)
            perms account now none)
          signs in
      (
        jwt,
        same,
        record {
          claims = _;
          decoded = carries;
          sub = refl;
          iss = refl;
          aud = refl;
          exp = refl;
          name = refl;
          nats = user_nats codec nkeys digests perms;
          has_nats = refl;
          granted = user_nats-IsUserClaim perms.pub_allow perms.sub_allow;
        },
      )

  -- The keys `jwt` and `error` of a response, of which it has the one that tells the result.
  abbrev jwt_entry : Result Text Text → Option Value
  jwt_entry (ok user_jwt) = some (string user_jwt)
  jwt_entry (err reason) = none

  abbrev error_entry : Result Text Text → Option Value
  error_entry (ok user_jwt) = none
  error_entry (err reason) = some (string reason)

  -- What the broker reads of a response: whom it is for, by which server it was asked, who issued it,
  -- and the result: a user JWT and no error, or an error and no user JWT.
  pub record IsResponse (jwt user_nkey server_id : Text) (account : KeyPair) (r : Result Text Text)
      : Type 0 where
    pub claims : Value
    pub decoded : decode_claims codec jwt ≡ some claims
    pub sub : text_at (codes "sub") claims ≡ some user_nkey
    pub iss : text_at (codes "iss") claims ≡ some (public_key account)
    pub aud : text_at (codes "aud") claims ≡ some server_id
    pub nats : Value
    pub has_nats : get (codes "nats") claims ≡ some nats
    pub user_jwt : get (codes "jwt") nats ≡ jwt_entry r
    pub error : get (codes "error") nats ≡ error_entry r
    pub kind : text_at (codes "type") nats ≡ some (codes "authorization_response")

  pub respond-IsResponse :
      (user_nkey server_id : Text) (account : KeyPair) (r : Result Text Text) (now : ℤ)
      → Signs account
      → IsResponse
          (respond codec nkeys digests user_nkey server_id account r now)
          user_nkey
          server_id
          account
          r
  unfolding response_claims get get_field insert_field with_field object_of fields_of text_eq
      text_lt as_str Option.bind
  respond-IsResponse user_nkey server_id account (ok jwt) now signs = record {
    claims = _;
    decoded = respond-Carries user_nkey server_id account (ok jwt) now signs;
    sub = refl;
    iss = refl;
    aud = refl;
    nats = response_nats codec nkeys digests (ok jwt);
    has_nats = refl;
    user_jwt = refl;
    error = refl;
    kind = refl;
  }
  respond-IsResponse user_nkey server_id account (err why) now signs = record {
    claims = _;
    decoded = respond-Carries user_nkey server_id account (err why) now signs;
    sub = refl;
    iss = refl;
    aud = refl;
    nats = response_nats codec nkeys digests (err why);
    has_nats = refl;
    user_jwt = refl;
    error = refl;
    kind = refl;
  }
