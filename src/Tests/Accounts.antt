-- ===== src/Tests/Accounts.antt =====
-- One identity from its token to the governed write, and the relay's subscriptions.
use pg_ck.Prelude.{◌≡◌, refl, true, false, List, [], ◌∷◌, none, some, arith}
use pg_ck.Prelude.Int.{pos}
use pg_ck.Text.{Text, codes}
use pg_ck.Jwt.{callout_identity, verified}
use pg_ck.Policy.{Gucs}
use pg_ck.Policy.Roster.{Update, refresh}
use pg_ck.Callout.Grants.{permissions_for}
use pg_ck.Callout.Scope.{permitted}
use pg_ck.Relay.{route_inbound}
use pg_ck.Relay.Subscribed.{deliveries, routable, deliveries-routable, IsFilled}
use pg_ck.Identity.{granted_kernels, IsAccountable, dispatch-IsAccountable}
use pg_ck.Tests.Toys.{codec, ed}
use pg_ck.Tests.Admission.{token, config}
use pg_ck.Tests.Traffic.{spi, spi_laws, nothing_set, action, subject, relayed, done, fresh}

abbrev gucs : Gucs
gucs = record {
  nats_url = none;
  nats_js_stream = none;
  nats_account_seed = none;
  oidc_jwks = none;
  oidc_issuer = none;
  oidc_audience = none;
  worker_database = none;
  admit_anonymous = false;
  kernels = some (codes "ck");
}

abbrev updates : List Update
updates = refresh gucs ∷ []

granted : granted_kernels updates ≡ codes "ck" ∷ []
unfolding pg_ck.Policy.callout_policy pg_ck.Policy.refresh_callout_policy
granted = refl

admitted :
    callout_identity codec ed (some token) (some config) (pos 1000)
    ≡ verified (codes "al.ice") (pos 5000)
unfolding callout_identity pg_ck.Tests.Toys.print pg_ck.Jwt.verify_config pg_ck.Jwt.verify_jwt
    pg_ck.Text.split mathlib.Core.Option.bind pg_ck.Json.get pg_ck.Text.text_eq pg_ck.Json.as_str
    pg_ck.BTreeMap.lookup pg_ck.Jwt.verify_eddsa pg_ck.Text.Utf8.encode pg_ck.Json.as_i64
    pg_ck.Prelude.Int.wrap_i64
admitted = refl

alice_permitted :
    permitted
      (permissions_for (verified (codes "al.ice") (pos 5000)) (codes "ck" ∷ [])).pub_allow
      subject
    ≡ true
unfolding permissions_for pg_ck.Nats.Router.matches pg_ck.Text.split
    pg_ck.Callout.Grants.input_subject pg_ck.Text.text_eq pg_ck.Callout.Grants.subject_token
alice_permitted = refl

allowed :
    permitted
      (permissions_for
        (callout_identity codec ed (some token) (some config) (pos 1000))
        (granted_kernels updates)).pub_allow
      subject
    ≡ true
allowed = rw (admitted, granted) alice_permitted

dispatch-IsAccountable_example :
    IsAccountable codec ed spi spi_laws
      (some token)
      (some config)
      (pos 1000)
      (granted_kernels updates)
      action
      (codes "{}")
      (some (codes "al-ice"))
dispatch-IsAccountable_example =
    dispatch-IsAccountable codec ed spi spi_laws updates (some token) (some config) (pos 1000)
      subject (codes "{}") none action nothing_set (some (codes "al-ice")) allowed relayed fresh
      done

filled : IsFilled subject
unfolding pg_ck.Text.split
filled = ground arith

deliveries-routable_example : deliveries subject ≡ routable (route_inbound subject)
deliveries-routable_example = deliveries-routable subject filled
