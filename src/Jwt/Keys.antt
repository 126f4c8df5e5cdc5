-- ===== src/Jwt/Keys.antt =====
-- Which keys `Jwks::parse` keeps, and which one `Jwks::get` finds.
use mathlib.Core.Option
use mathlib.Core.Option.{none-ne-some, some-injective}
use pg_ck.Prelude.{
  ◌≡◌, refl, ◌↔◌, ◌≢◌, ◌∙◌, ap, sym, [], ◌∷◌, Option, none, some, arith, if◌then◌else◌, ◌⊎◌, ==_iff,
  Bool-cases, inl, inr, length,
}
use pg_ck.Prelude.Result.{ok, ok_or-bind, ok_injective}
use pg_ck.Text.{Text, codes, text_eq, text_eq_iff}
use pg_ck.Text.Utf8
use pg_ck.BTreeMap
use pg_ck.BTreeMap.{IsOrdered}
use pg_ck.BTreeMap.Laws.{lookup-insert}
use pg_ck.Json.{Value, Items, nil, cons, get, as_array}
use pg_ck.Libraries.{Codec, Ed25519}
use pg_ck.Jwt.{
  is_text, get_str, Jwks, as_32, key_of_x, kid_and_key, jwk_entry, with_entry, collect_keys,
  parse_jwks, nonempty,
}
use pg_ck.Jwt.Accepts.{is_text_iff}

module _ (codec : Codec) (ed : Ed25519) where
  open ed use {VerifyingKey, key_from_bytes}

  -- An entry of the document that describes a 32-byte Ed25519 key.
  pub record Describes (jwk : Value) (kid : Text) (key : VerifyingKey) : Type 0 where
    pub kty : get_str (codes "kty") jwk ≡ some (codes "OKP")
    pub crv : get_str (codes "crv") jwk ≡ some (codes "Ed25519")
    pub named : get_str (codes "kid") jwk ≡ some kid
    pub x : Text
    pub has_x : get_str (codes "x") jwk ≡ some x
    pub bytes : Utf8.Bytes
    pub decodes : codec.decode x ≡ some bytes
    pub size : length bytes ≡ 32
    pub valid : key_from_bytes bytes ≡ some key

  abbrev pub newer : Option (Text × VerifyingKey) → Text → Option VerifyingKey → Option VerifyingKey
  newer none kid before = before
  newer (some (j, key)) kid before = if text_eq j kid then some key else before

  -- The last entry of the list with that `kid` that describes a key, or what was there before.
  abbrev pub last_key : Items → Text → Option VerifyingKey → Option VerifyingKey
  last_key nil kid before = before
  last_key (cons jwk jwks) kid before =
      last_key jwks kid (newer (jwk_entry codec ed jwk) kid before)

  lookup-with_entry :
      (o : Option (Text × VerifyingKey)) (kid : Text) (keys : Jwks codec ed)
      → BTreeMap.lookup kid (with_entry codec ed o keys) ≡ newer o kid (BTreeMap.lookup kid keys)
  lookup-with_entry none kid keys = refl
  lookup-with_entry (some (j, key)) kid keys = lookup-insert j kid key keys

  lookup-collect_keys :
      (jwks : Items) (kid : Text) (keys : Jwks codec ed)
      → BTreeMap.lookup kid (collect_keys codec ed jwks keys)
        ≡ last_key jwks kid (BTreeMap.lookup kid keys)
  unfolding collect_keys
  lookup-collect_keys nil kid keys = refl
  lookup-collect_keys (cons jwk jwks) kid keys =
      lookup-collect_keys jwks kid (with_entry codec ed (jwk_entry codec ed jwk) keys)
      ∙ ap (last_key jwks kid) (lookup-with_entry (jwk_entry codec ed jwk) kid keys)

  nonempty-eq-ok :
      (l : Jwks codec ed) {keys : Jwks codec ed}
      → nonempty codec ed l ≡ ok keys
      → (l ≡ keys) × (keys ≢ [])
  nonempty-eq-ok [] h = absurd (cc)
  nonempty-eq-ok (k ∷ ks) {keys} h = (ok_injective h, λ e. absurd (cc))

  as_32_sound :
      (bytes : Utf8.Bytes) {b : Utf8.Bytes}
      → as_32 codec ed bytes ≡ some b
      → (bytes ≡ b) × (length bytes ≡ 32)
  as_32_sound bytes h = (ground arith, ground arith)

  key_of_x_sound :
      (x : Text) {key : VerifyingKey}
      → key_of_x codec ed x ≡ some key
      → (bytes : Utf8.Bytes) × (codec.decode x ≡ some bytes)
        × (length bytes ≡ 32)
        × (key_from_bytes bytes ≡ some key)
  key_of_x_sound x h =
      let (b, sized, valid) = (Option.bind-eq-some_iff _ _).0 h in
      let (bytes, decodes, same) = (Option.bind-eq-some_iff _ _).0 sized in
      let (e, size) = as_32_sound bytes same in (bytes, decodes, size, rw e valid)

  kid_and_key_sound :
      (kid? x? : Option Text) {kid : Text} {key : VerifyingKey}
      → kid_and_key codec ed kid? x? ≡ some (kid, key)
      → (kid? ≡ some kid) × (x : Text) × (x? ≡ some x) × (key_of_x codec ed x ≡ some key)
  kid_and_key_sound none x? h = absurd (ground arith)
  kid_and_key_sound (some k) none h = absurd (ground arith)
  kid_and_key_sound (some k) (some x) h =
      let (key, found, same) = (Option.map-eq-some_iff _ _).0 h in
      (ap some (ap (λ p. p.0) same), x, refl, found ∙ ap some (ap (λ p. p.1) same))

  jwk_entry_sound :
      (jwk : Value) (kid : Text) (key : VerifyingKey)
      → jwk_entry codec ed jwk ≡ some (kid, key)
      → Describes jwk kid key
  unfolding jwk_entry
  jwk_entry_sound jwk kid key h =
      elim (Bool-cases (is_text (get_str (codes "kty") jwk) (codes "OKP"))) [
        | inl kty ↦ elim (Bool-cases (is_text (get_str (codes "crv") jwk) (codes "Ed25519"))) [
          | inl crv ↦
              let (named, x, has_x, made) = kid_and_key_sound _ _ (rw (kty, crv) at h) in
              let (bytes, decodes, size, valid) = key_of_x_sound x made in
              record {
                kty = (is_text_iff _ _).0 kty;
                crv = (is_text_iff _ _).0 crv;
                named = named;
                x = x;
                has_x = has_x;
                bytes = bytes;
                decodes = decodes;
                size = size;
                valid = valid;
              }
          | inr crv ↦ absurd (cc (rw (kty, crv) at h))
        ]
        | inr kty ↦ absurd (cc (rw kty at h))
      ]

  jwk_entry_complete :
      (jwk : Value) (kid : Text) (key : VerifyingKey)
      → Describes jwk kid key
      → jwk_entry codec ed jwk ≡ some (kid, key)
  unfolding jwk_entry Option.bind
  jwk_entry_complete jwk kid key d =
      rw
        (
          (is_text_iff _ _).1 d.kty,
          (is_text_iff _ _).1 d.crv,
          d.named,
          d.has_x,
          d.decodes,
          (==_iff _ 32).1 d.size,
          d.valid,
        )
        refl

  abbrev pub AnyItem : (Value → Type 0) → Items → Type 0
  AnyItem P nil = ⊥
  AnyItem P (cons v vs) = P v ⊎ AnyItem P vs

  -- A key that is found was there before, or is described by an entry.
  last_key_sound :
      (jwks : Items) (kid : Text) (before : Option VerifyingKey) {key : VerifyingKey}
      → last_key jwks kid before ≡ some key
      → (before ≡ some key) ⊎ AnyItem (λ jwk. Describes jwk kid key) jwks
  last_key_sound nil kid before h = inl h
  last_key_sound (cons jwk jwks) kid before {key} h =
      after (last_key_sound jwks kid (newer (jwk_entry codec ed jwk) kid before) h)
    where
      fresh :
          (o : Option (Text × VerifyingKey))
          → jwk_entry codec ed jwk ≡ o
          → newer o kid before ≡ some key
          → (before ≡ some key) ⊎ AnyItem (λ j. Describes j kid key) (cons jwk jwks)
      fresh none e n = inl n
      fresh (some (j, k)) e n = elim (Bool-cases (text_eq j kid)) [
        | inl same ↦
            let made : some k ≡ some key = rw same at n in
            inr (
              inl (
                jwk_entry_sound jwk kid key
                  (e ∙ (λ i. some ((text_eq_iff j kid).0 same i, some-injective k key made i)))))
        | inr other ↦ inl (rw other at n)
      ]

      after :
          (newer (jwk_entry codec ed jwk) kid before ≡ some key)
            ⊎ AnyItem (λ j. Describes j kid key) jwks
          → (before ≡ some key) ⊎ AnyItem (λ j. Describes j kid key) (cons jwk jwks)
      after (inl n) = fresh (jwk_entry codec ed jwk) refl n
      after (inr r) = inr (inr r)

  -- The document lists entries; the key under each `kid` is that of the last entry which describes a
  -- key with that `kid`; and there is a key.
  pub record IsLoaded (jwks_json : Text) (keys : Jwks codec ed) : Type 0 where
    pub document : Value
    pub parsed : codec.from_str jwks_json ≡ some document
    pub listed : Items
    pub has_keys : Option.bind (get (codes "keys") document) as_array ≡ some listed
    pub found : (kid : Text) → BTreeMap.lookup kid keys ≡ last_key listed kid none
    pub described :
        (kid : Text) (key : VerifyingKey)
        → BTreeMap.lookup kid keys ≡ some key
        → AnyItem (λ jwk. Describes jwk kid key) listed
    pub some_key : keys ≢ []

-- An entry of the document is kept exactly when it describes a 32-byte Ed25519 key under a `kid`, and
-- then with that `kid` and key; any other entry is skipped.
pub jwk_entry_iff :
    (codec : Codec) (ed : Ed25519) (jwk : Value) (kid : Text) (key : ed.VerifyingKey)
    → (jwk_entry codec ed jwk ≡ some (kid, key)) ↔ Describes codec ed jwk kid key
jwk_entry_iff codec ed jwk kid key =
    (jwk_entry_sound codec ed jwk kid key, jwk_entry_complete codec ed jwk kid key)

not_before {ℓ} : {A : Type ℓ} {a : A} {B : Type 0} → (◌≡◌ {A = Option A} none (some a)) ⊎ B → B
not_before (inl e) = absurd (none-ne-some _ e)
not_before (inr b) = b

-- A key set that loads holds, under each `kid`, the last entry of the document that is a usable key
-- with that `kid`, and nothing else; every key that is found is described by such an entry; and there
-- is a key.
pub parse_jwks-IsLoaded :
    (codec : Codec) (ed : Ed25519) (jwks_json : Text) (keys : Jwks codec ed)
    → parse_jwks codec ed jwks_json ≡ ok keys
    → IsLoaded codec ed jwks_json keys
unfolding parse_jwks BTreeMap.lookup
parse_jwks-IsLoaded codec ed jwks_json keys h =
    let (doc, parsed, h1) = ok_or-bind _ _ _ h in
    let (arr, has_keys, h2) = ok_or-bind _ _ _ h1 in
    let (same, filled) = nonempty-eq-ok codec ed (collect_keys codec ed arr []) h2 in
    let lookups = λ (kid : Text).
      ap (BTreeMap.lookup kid) (sym same) ∙ lookup-collect_keys codec ed arr kid [] in
    record {
      document = doc;
      parsed = parsed;
      listed = arr;
      has_keys = has_keys;
      found = lookups;
      described =
          λ kid key e. not_before (last_key_sound codec ed arr kid none (sym (lookups kid) ∙ e));
      some_key = filled;
    }
