-- ===== src/Relay.antt =====
-- The inbound half of src/nats_client.rs: routing a subject to a dispatch, correlation headers, the
-- credentials of the broker's URL and the delays between connection attempts.
pub mod Routes
pub mod Retry
pub mod Subscribed
use mathlib.Core.Option
use pg_ck.Prelude.{
  ℕ, zero, suc, ◌+◌, ◌*◌, Bool, true, false, ◌&&◌, List, [], ◌∷◌, ◌++◌, Option, none, some,
  if◌then◌else◌, ◌>>=◌, ltb,
}
use pg_ck.Text.{Text, codes, text_eq, strip_prefix, split_once, is_nil}

pub record RoutedInbound : Type 0 where
  pub kernel : Text
  pub identity : Option Text
  pub verb : Text
  pub result_subject : Text

-- `RELAY_IN_PREFIX` and `RELAY_OUT_PREFIX` of `relay_subject`.
unfoldable pub relay_subject : Text → Option Text
unfolding strip_prefix
relay_subject inbound =
    Option.map (λ verb. codes "event.kernel.pgCK." ++ verb)
      (strip_prefix (codes "input.kernel.pgCK.action.") inbound)

-- `id.<sub>.action.<verb>`, behind the `id.`.
abbrev scoped_tail : Text × Text → Option (Option Text × Text)
scoped_tail (sub, tail) =
    if is_nil sub
    then none
    else Option.map (λ verb. (some sub, verb)) (strip_prefix (codes "action.") tail)

unfoldable pub scoped_verb : Text → Option (Option Text × Text)
scoped_verb scoped = do parts ← split_once b'.' scoped; scoped_tail parts

abbrev plain_verb : Text → Option (Option Text × Text)
plain_verb after = Option.map (λ verb. (none, verb)) (strip_prefix (codes "action.") after)

-- The two forms of what follows the kernel's token.
unfoldable pub identity_and_verb : Text → Option (Option Text × Text)
unfolding scoped_verb
identity_and_verb after = elim (strip_prefix (codes "id.") after) [
  | some scoped ↦ scoped_verb scoped
  | none ↦ plain_verb after
]

abbrev pub reply_to : Text → Text → Text
reply_to kernel verb = codes "result.kernel." ++ (kernel ++ b'.' ∷ verb)

abbrev pub routed : Text → Option Text × Text → Option RoutedInbound
routed kernel (identity, verb) =
    if is_nil verb
    then none
    else some (record {
      kernel = kernel;
      identity = identity;
      verb = verb;
      result_subject = reply_to kernel verb;
    })

abbrev route_after : Text × Text → Option RoutedInbound
route_after (kernel, after) =
    if is_nil kernel then none else (identity_and_verb after >>= routed kernel)

unfoldable pub route_inbound : Text → Option RoutedInbound
unfolding identity_and_verb
route_inbound subject = do
  rest ← strip_prefix (codes "input.kernel.") subject
  parts ← split_once b'.' rest
  route_after parts

-- The two patterns that the relay subscribes to.
abbrev pub relay_in_subject : Text
relay_in_subject = codes "input.kernel.*.action.>"

abbrev pub relay_id_subject : Text
relay_id_subject = codes "input.kernel.*.id.*.action.>"

abbrev pub with_header : Text → Option Text → List (Text × Text) → List (Text × Text)
with_header key none out = out
with_header key (some v) out = out ++ (key, v) ∷ []

-- `HeaderMap::get`, and the two headers that a reply echoes.
module _ (get : Text → Option Text) where
  abbrev echo : Text → List (Text × Text) → List (Text × Text)
  echo key out = with_header key (get key) out

  unfoldable pub trace_headers : List (Text × Text)
  trace_headers = echo (codes "Ck-Seq") (echo (codes "Trace-Id") [])

-- `ServerAddr`: its `username` and `password`, if the URL parses.
module _ (parse : Text → Option (Option Text × Option Text)) where
  abbrev user_and_password : Option Text × Option Text → Option (Text × Text)
  user_and_password (some user, some pass) = if is_nil user then none else some (user, pass)
  user_and_password (_, _) = none

  unfoldable pub url_credentials : Text → Option (Text × Text)
  url_credentials url = do addr ← parse url; user_and_password addr

-- `delay = (delay * 2).min(15s)`, from one second on: the delay before attempt `n + 1`.
abbrev next_delay : ℕ → ℕ
next_delay d = if ltb 15 (d * 2) then 15 else d * 2

unfoldable pub delay_after : ℕ → ℕ
delay_after zero = 1
delay_after (suc n) = next_delay (delay_after n)

-- The loop of `connect_with_retry` against a broker that answers attempt `n` or not: the delays slept
-- before the client is connected. The fuel bounds the attempts.
unfoldable pub connect_from : ℕ → (ℕ → Bool) → ℕ → ℕ → List ℕ → Option (List ℕ)
connect_from zero answers n delay slept = none
connect_from (suc fuel) answers n delay slept =
    let again = connect_from fuel answers (suc n) (next_delay delay) (slept ++ delay ∷ []) in
    if answers n then some slept else again

unfoldable pub connect_with_retry : ℕ → (ℕ → Bool) → Option (List ℕ)
unfolding connect_from
connect_with_retry fuel answers = connect_from fuel answers 0 1 []
