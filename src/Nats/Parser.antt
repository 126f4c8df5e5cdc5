-- ===== src/Nats/Parser.antt =====
-- src/nats/parser.rs: the control lines that a client sends.
pub mod Render
pub mod Sound
use pg_ck.Prelude.{
  ℕ, Bool, true, false, ◌&&◌, List, [], ◌∷◌, Option, none, some, if◌then◌else◌, ◌>>=◌,
}
use pg_ck.Text.{
  Text, codes, text_eq, is_nil, trim_start, trim, split_whitespace, to_ascii_uppercase,
  is_whitespace,
}
use pg_ck.Text.Decimal.{parse_u64}

pub data ClientMsg : Type 0 where
  connect : Text → ClientMsg
  ping pong : ClientMsg
  -- subject, queue, sid
  sub : Text → Option Text → Text → ClientMsg
  -- sid, max
  unsub : Text → Option ℕ → ClientMsg
  -- subject, reply, payload_len, payload
  publish : Text → Option Text → ℕ → List ℕ → ClientMsg

-- `trimmed[verb_end..]`, with `verb_end` the first white space.
unfoldable pub from_space : Text → Option Text
from_space [] = none
from_space (c ∷ s) = if is_whitespace c then some (c ∷ s) else from_space s

abbrev connect_with : Text → Option ClientMsg
connect_with [] = none
connect_with (c ∷ s) = some (connect (c ∷ s))

unfoldable pub parse_connect : Text → Option ClientMsg
unfolding from_space
parse_connect line = do remainder ← from_space (trim_start line); connect_with (trim remainder)

unfoldable pub parse_sub : List Text → Option ClientMsg
parse_sub (subject ∷ sid ∷ []) = some (sub subject none sid)
parse_sub (subject ∷ queue ∷ sid ∷ []) = some (sub subject (some queue) sid)
parse_sub _ = none

unfoldable pub parse_unsub : List Text → Option ClientMsg
parse_unsub (sid ∷ []) = some (unsub sid none)
parse_unsub (sid ∷ max ∷ []) = do n ← parse_u64 max; some (unsub sid (some n))
parse_unsub _ = none

unfoldable pub parse_pub : List Text → Option ClientMsg
parse_pub (subject ∷ payload_len ∷ []) = do
  n ← parse_u64 payload_len
  some (publish subject none n [])
parse_pub (subject ∷ reply ∷ payload_len ∷ []) = do
  n ← parse_u64 payload_len
  some (publish subject (some reply) n [])
parse_pub _ = none

-- The arms of the `match`, with their guards, on the verb in upper case.
unfoldable pub parse_verb : Text → List Text → Text → Option ClientMsg
unfolding parse_sub parse_unsub parse_pub
parse_verb verb args line =
    if text_eq verb (codes "PING") && is_nil args
    then some ping
    else if text_eq verb (codes "PONG") && is_nil args
    then some pong
    else if text_eq verb (codes "CONNECT")
    then parse_connect line
    else if text_eq verb (codes "SUB")
    then parse_sub args
    else if text_eq verb (codes "UNSUB")
    then parse_unsub args
    else if text_eq verb (codes "PUB")
    then parse_pub args
    else none

unfoldable pub parse_words : List Text → Text → Option ClientMsg
unfolding parse_verb
parse_words [] line = none
parse_words (verb ∷ args) line = parse_verb (to_ascii_uppercase verb) args line

unfoldable pub parse_line : Text → Option ClientMsg
unfolding parse_words
parse_line line = parse_words (split_whitespace line) line
