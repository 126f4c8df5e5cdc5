-- ===== src/Tests/Broker.antt =====
-- The broker's subjects: parsing, matching, routing, the policy's kernels and the grants.
use pg_ck.Prelude.{
  inl, inr, List, ◌≡◌, ◌≢◌, ◌↔◌, ◌⊎◌, refl, true, false, [], ◌∷◌, ◌++◌, none, some, arith, All, Any,
}
use pg_ck.Prelude.Int.{ℤ, pos}
use pg_ck.Text.{Text, codes, Lacks, split}
use pg_ck.Jwt.{verified, anonymous}
use pg_ck.Nats.Parser.{ClientMsg, publish, parse_line}
use pg_ck.Nats.Parser.Render.{control_line, head_only, parse_line-control_line}
use pg_ck.Nats.Parser.Sound.{IsWellFormed, parse_line-IsWellFormed}
use pg_ck.Nats.Router.{Router, new, add, matches, matching}
use pg_ck.Nats.Router.Matching.{Matches, matches_iff}
use pg_ck.Nats.Router.Laws.{
  IsValid, Hears, new-IsValid, add-IsValid, matching_iff, matching-add, matching-unsubscribe,
}
use pg_ck.Nats.Router.Laws
use pg_ck.Relay.{RoutedInbound, route_inbound}
use pg_ck.Relay.Routes.{IsRouted, inbound_subject, route_inbound_iff}
use pg_ck.Policy
use pg_ck.Policy.{
  Gucs, callout_policy, refresh_callout_policy, set_ledger_kernels, configured_kernels,
  clean_kernels,
}
use pg_ck.Policy.Roster.{
  IsKernelName, Has, refresh, read_ledger, run, run-All_names, refresh_callout_policy_iff,
  clean_kernels-All, IsAmong, entries,
}
use pg_ck.Callout.Grants.{subject_token, permissions_for, is_token_char}
use pg_ck.Callout.Token.{subject_token_collides}
use pg_ck.Callout.Patterns.{Under, input_tokens, event_tokens}
use pg_ck.Callout.Scope.{
  permitted, Readable, verified_publish_iff, verified_read_iff, anonymous_scope_iff,
  verified_routes_as_itself,
}

abbrev subject : Text
subject = codes "input.kernel.ck.id.al-ice.action.task.create"

abbrev action : RoutedInbound
action = record {
  kernel = codes "ck";
  identity = some (codes "al-ice");
  verb = codes "task.create";
  result_subject = codes "result.kernel.ck.task.create";
}

abbrev message : ClientMsg
message = publish (codes "a.b") (some (codes "_INBOX.7")) 5 (codes "hello")

parse_line-control_line_example : parse_line (control_line message) ≡ some (head_only message)
unfolding pg_ck.Text.is_whitespace
parse_line-control_line_example = parse_line-control_line message (
  (refl, (refl, (refl, (refl, tt)))),
  (refl, (refl, (refl, (refl, (refl, (refl, (refl, (refl, (refl, tt))))))))),
  omega arith,
)

parsed : parse_line (codes "pub a.b 5") ≡ some (publish (codes "a.b") none 5 [])
unfolding parse_line pg_ck.Text.split_whitespace pg_ck.Text.text_eq pg_ck.Text.to_ascii_uppercase
    pg_ck.Text.Decimal.parse_u64
parsed = refl

parse_line-IsWellFormed_example : IsWellFormed (publish (codes "a.b") none 5 [])
parse_line-IsWellFormed_example = parse_line-IsWellFormed (codes "pub a.b 5") parsed

matches_iff_example :
    (matches (codes "input.*.id.>") subject ≡ true)
    ↔ Matches (split b'.' (codes "input.*.id.>")) (split b'.' subject)
matches_iff_example = matches_iff (codes "input.*.id.>") subject

abbrev one : Router
one = add new (codes "1") (codes "input.>")

one-IsValid : IsValid one
one-IsValid = add-IsValid new (codes "1") (codes "input.>") new-IsValid

matching_iff_example : Laws.Has (codes "1") (matching one subject) ↔ Hears one (codes "1") subject
matching_iff_example = matching_iff one (codes "1") subject one-IsValid

matching-add_example :
    (Laws.Has (codes "2") (matching (add one (codes "2") (codes "*")) subject)
      ↔ (matches (codes "*") subject ≡ true))
    × ((j : Text)
        → j ≢ codes "2"
        → Laws.Has j (matching (add one (codes "2") (codes "*")) subject)
          ↔ Laws.Has j (matching one subject))
matching-add_example = matching-add one (codes "2") (codes "*") subject one-IsValid

route_inbound_iff_example :
    (route_inbound subject ≡ some action) ↔ (IsRouted action × (subject ≡ inbound_subject action))
route_inbound_iff_example = route_inbound_iff subject action

abbrev gucs : Gucs
gucs = record {
  nats_url = none;
  nats_js_stream = none;
  nats_account_seed = none;
  oidc_jwks = none;
  oidc_issuer = none;
  oidc_audience = none;
  worker_database = none;
  admit_anonymous = false;
  kernels = some (codes "ck, de.mo,bad name");
}

run-All_names_example :
    All IsKernelName
      (callout_policy (run Policy.initial (read_ledger (codes "dict" ∷ []) ∷ refresh gucs ∷ []))).1
run-All_names_example = run-All_names (read_ledger (codes "dict" ∷ []) ∷ refresh gucs ∷ [])

refresh_callout_policy_iff_example :
    ((callout_policy
        (refresh_callout_policy gucs (set_ledger_kernels (codes "dict" ∷ []) Policy.initial))).0
      ≡ false)
    × (Has
          (codes "dict")
          (callout_policy
            (refresh_callout_policy gucs (set_ledger_kernels (codes "dict" ∷ []) Policy.initial))).1
        ↔ (IsAmong (codes "dict") (entries gucs.kernels)
            ⊎ IsAmong (codes "dict") (codes "dict" ∷ [])))
refresh_callout_policy_iff_example =
    refresh_callout_policy_iff gucs (codes "dict" ∷ []) Policy.initial (codes "dict")

names : All IsKernelName (codes "ck" ∷ [])
unfolding clean_kernels
names = clean_kernels-All (codes "ck" ∷ [])

subject_token_collides_example :
    (subject_token (codes "al" ++ b'.' ∷ codes "ice")
      ≡ subject_token (codes "al" ++ b'-' ∷ codes "ice"))
    × ((exp : ℤ) (kernels : List Text)
        → permissions_for (verified (codes "al" ++ b'.' ∷ codes "ice") exp) kernels
          ≡ permissions_for (verified (codes "al" ++ b'-' ∷ codes "ice") exp) kernels)
subject_token_collides_example =
    subject_token_collides (codes "al") (codes "ice") b'.' b'-' (inl (λ h. omega (arith, h)))
      (inr refl)

verified_publish_iff_example :
    (permitted
        (permissions_for (verified (codes "al.ice") (pos 5000)) (codes "ck" ∷ [])).pub_allow
        subject
      ≡ true)
    ↔ Any (λ k. Under (input_tokens k (subject_token (codes "al.ice"))) subject) (codes "ck" ∷ [])
verified_publish_iff_example =
    verified_publish_iff (codes "al.ice") (pos 5000) (codes "ck" ∷ []) subject names

verified_read_iff_example :
    (permitted
        (permissions_for (verified (codes "al.ice") (pos 5000)) (codes "ck" ∷ [])).sub_allow
        (codes "_INBOX.7")
      ≡ true)
    ↔ Readable (codes "ck" ∷ []) (codes "_INBOX.7")
verified_read_iff_example =
    verified_read_iff (codes "al.ice") (pos 5000) (codes "ck" ∷ []) (codes "_INBOX.7") names

anonymous_scope_iff_example :
    (permitted (permissions_for anonymous (codes "ck" ∷ [])).pub_allow subject ≡ false)
    × ((permitted (permissions_for anonymous (codes "ck" ∷ [])).sub_allow subject ≡ true)
        ↔ Any (λ k. Under (event_tokens k) subject) (codes "ck" ∷ []))
anonymous_scope_iff_example = anonymous_scope_iff (codes "ck" ∷ []) subject names

allowed :
    permitted
      (permissions_for (verified (codes "al.ice") (pos 5000)) (codes "ck" ∷ [])).pub_allow
      subject
    ≡ true
unfolding permissions_for matches split pg_ck.Callout.Grants.input_subject pg_ck.Text.text_eq
    subject_token
allowed = refl

routes : route_inbound subject ≡ some action
unfolding route_inbound pg_ck.Text.strip_prefix pg_ck.Text.split_once
routes = refl

verified_routes_as_itself_example :
    (some (codes "al-ice") ≡ some (subject_token (codes "al.ice")))
    × Has (codes "ck") (codes "ck" ∷ [])
    × (permitted
          (permissions_for (verified (codes "al.ice") (pos 5000)) (codes "ck" ∷ [])).sub_allow
          (codes "result.kernel.ck.task.create")
        ≡ true)
verified_routes_as_itself_example =
    verified_routes_as_itself (codes "al.ice") (pos 5000) (codes "ck" ∷ []) subject action names
      allowed routes
