-- ===== src/Callout/Request.antt =====
-- src/auth_callout.rs: reading an authorization request, and the account's seed.
use mathlib.Core.Option
use pg_ck.Prelude.{List, [], ◌∷◌, Option, none, some, if◌then◌else◌, ◌>>=◌}
use pg_ck.Text.{Text, codes, split, trim, starts_with, is_filled}
use pg_ck.Json.{get, as_str}
use pg_ck.Json.{Value}
use pg_ck.Libraries.{Codec, Nkeys}
use pg_ck.Policy.{keep_if}

pub record AuthRequest : Type 0 where
  pub user_nkey : Text
  pub server_id : Text
  pub auth_token : Option Text

abbrev second : List Text → Option Text
second (h ∷ claims ∷ rest) = some claims
second _ = none

abbrev unwrap_text : Option Text → Text
unwrap_text none = []
unwrap_text (some s) = s

abbrev path : Text → Text → Value → Option Text
path outer inner v = Option.bind (Option.bind (get outer v) (get inner)) as_str

module _ (codec : Codec) where
  unfoldable pub decode_claims : Text → Option Value
  unfolding split
  decode_claims jwt = do
    claims_b64 ← second (split b'.' jwt)
    bytes ← codec.decode claims_b64
    codec.from_slice bytes

  unfoldable pub parse_auth_request : Text → Option AuthRequest
  parse_auth_request request_jwt = do
    claims ← decode_claims request_jwt
    nats ← get (codes "nats") claims
    nkey ← get (codes "user_nkey") nats
    user_nkey ← as_str nkey
    some (record {
      user_nkey = user_nkey;
      server_id = unwrap_text (path (codes "server_id") (codes "id") nats);
      auth_token = keep_if is_filled (path (codes "connect_opts") (codes "auth_token") nats);
    })

module _ (nkeys : Nkeys) where
  open nkeys use {KeyPair, from_seed, public_key, sign}

  abbrev if_account : KeyPair → Option KeyPair
  if_account kp = if starts_with (codes "A") (public_key kp) then some kp else none

  unfoldable pub parse_account_seed : Text → Option KeyPair
  unfolding trim
  parse_account_seed seed = Option.bind (from_seed (trim seed)) if_account
