-- ===== src/Nats/Router.antt =====
-- src/nats/router.rs: the subscriptions of one connection, and subject matching.
pub mod Matching
pub mod Laws
pub mod Open
pub mod Slots
use pg_ck.Prelude.{
  ℕ, ◌+◌, ◌-◌, Bool, true, false, ◌&&◌, List, [], ◌∷◌, Option, none, some, ltb, ◌==◌, if◌then◌else◌,
  length, get_elem?,
}
use pg_ck.Text.{Text, codes, text_eq, split}
use pg_ck.BTreeMap
use pg_ck.BTreeMap.{insert, remove}

pub record Router : Type 0 where
  pub subscriptions : List (Text × Text)

unfoldable pub new : Router
new = record { subscriptions = [] }

unfoldable pub add : Router → Text → Text → Router
add r sid pattern = record r { subscriptions = insert sid pattern r.subscriptions }

unfoldable pub unsubscribe : Router → Text → Router
unsubscribe r sid = record r { subscriptions = remove sid r.subscriptions }

abbrev some_eq : Option Text → Text → Bool
some_eq none literal = false
some_eq (some token) literal = text_eq token literal

-- The loop of `matches` over the tokens of the pattern; `pattern_len` is the number of all of them.
unfoldable pub match_tokens : ℕ → List Text → ℕ → List Text → ℕ → Bool
match_tokens pattern_len [] pattern_index subject subject_index = subject_index == length subject
match_tokens pattern_len (token ∷ pattern) pattern_index subject subject_index =
    let next = match_tokens pattern_len pattern (pattern_index + 1) subject (subject_index + 1) in
    if text_eq token (codes ">")
    then (pattern_index == pattern_len - 1) && ltb subject_index (length subject)
    else if text_eq token (codes "*")
    then (if ltb subject_index (length subject) then next else false)
    else if some_eq (get_elem? subject subject_index) token
    then next
    else false

unfoldable pub matches : Text → Text → Bool
unfolding match_tokens
matches pattern subject =
    match_tokens (length (split b'.' pattern)) (split b'.' pattern) 0 (split b'.' subject) 0

-- `filter_map(|(sid, pattern)| matches(pattern, subject).then(|| sid.clone()))`
unfoldable pub matching_sids : Text → List (Text × Text) → List Text
matching_sids subject [] = []
matching_sids subject ((sid, pattern) ∷ rest) =
    let sids = matching_sids subject rest in if matches pattern subject then sid ∷ sids else sids

unfoldable pub matching : Router → Text → List Text
unfolding matching_sids
matching r subject = matching_sids subject r.subscriptions
