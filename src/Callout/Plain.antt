-- ===== src/Callout/Plain.antt =====
-- The claims that the responder signs are plain values: they print, and parse back.
use pg_ck.Prelude.{List, [], ◌∷◌, Option, none, some}
use pg_ck.Prelude.Int.{ℤ}
use pg_ck.Prelude.Result.{Result, ok, err}
use pg_ck.Text.{Text, codes}
use pg_ck.Json.{array, of_i64, object_of, strings}
use pg_ck.Json.Plain.{of_i64-IsPlain, strings-ArePlain, object_of-IsPlain, with_field-IsPlain}
use pg_ck.Libraries.{Codec, Nkeys, Digests, IsPlain}
use pg_ck.Callout.Grants.{UserPermissions}
use pg_ck.Callout.Mint.{
  user_nats, user_entries, response_entries, user_claims, response_nats, response_claims, pub_perm,
  allow,
}

module _ (codec : Codec) (nkeys : Nkeys) (digests : Digests) where
  open nkeys use {KeyPair}

  allow-IsPlain : (ss : List Text) → IsPlain (allow codec nkeys digests ss)
  allow-IsPlain ss =
      object_of-IsPlain ((codes "allow", array (strings ss)) ∷ [])
        (IsPlain.array (strings-ArePlain ss), tt)

  pub_perm-IsPlain : (ss : List Text) → IsPlain (pub_perm codec nkeys digests ss)
  pub_perm-IsPlain [] =
      object_of-IsPlain ((codes "deny", array (strings (codes ">" ∷ []))) ∷ [])
        (IsPlain.array (strings-ArePlain (codes ">" ∷ [])), tt)
  pub_perm-IsPlain (s ∷ ss) = allow-IsPlain (s ∷ ss)

  user_nats-IsPlain : (perms : UserPermissions) → IsPlain (user_nats codec nkeys digests perms)
  user_nats-IsPlain perms = object_of-IsPlain _ (
    pub_perm-IsPlain perms.pub_allow,
    (
      allow-IsPlain perms.sub_allow,
      (
        IsPlain.neg_int 0,
        (IsPlain.neg_int 0, (IsPlain.neg_int 0, (IsPlain.string _, (IsPlain.pos_int 2, tt)))),
      ),
    ),
  )

  user_entries-IsPlain :
      (user_nkey name : Text) (perms : UserPermissions) (account : KeyPair) (iat : ℤ)
      → IsPlain (object_of (user_entries codec nkeys digests user_nkey name perms account iat))
  user_entries-IsPlain user_nkey name perms account iat =
      object_of-IsPlain (user_entries codec nkeys digests user_nkey name perms account iat) (
        of_i64-IsPlain iat,
        (
          IsPlain.string _,
          (IsPlain.string _, (IsPlain.string _, (IsPlain.string _, (user_nats-IsPlain perms, tt)))),
        ),
      )

  pub user_claims-IsPlain :
      (user_nkey name : Text) (perms : UserPermissions) (account : KeyPair) (iat : ℤ)
      (exp : Option ℤ)
      → IsPlain (user_claims codec nkeys digests user_nkey name perms account iat exp)
  unfolding user_claims
  user_claims-IsPlain user_nkey name perms account iat none =
      user_entries-IsPlain user_nkey name perms account iat
  user_claims-IsPlain user_nkey name perms account iat (some exp) =
      with_field-IsPlain (codes "exp") (of_i64 exp) _ (of_i64-IsPlain exp)
        (user_entries-IsPlain user_nkey name perms account iat)

  response_nats-IsPlain : (r : Result Text Text) → IsPlain (response_nats codec nkeys digests r)
  response_nats-IsPlain (ok jwt) =
      object_of-IsPlain _ (IsPlain.string _, (IsPlain.string _, (IsPlain.pos_int 2, tt)))
  response_nats-IsPlain (err reason) =
      object_of-IsPlain _ (IsPlain.string _, (IsPlain.string _, (IsPlain.pos_int 2, tt)))

  pub response_claims-IsPlain :
      (user_nkey server_id : Text) (account : KeyPair) (r : Result Text Text) (iat : ℤ)
      → IsPlain (response_claims codec nkeys digests user_nkey server_id account r iat)
  unfolding response_claims
  response_claims-IsPlain user_nkey server_id account r iat =
      object_of-IsPlain (response_entries codec nkeys digests user_nkey server_id account r iat) (
        of_i64-IsPlain iat,
        (IsPlain.string _, (IsPlain.string _, (IsPlain.string _, (response_nats-IsPlain r, tt)))),
      )
