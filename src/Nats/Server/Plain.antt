-- ===== src/Nats/Server/Plain.antt =====
-- What reaches a client can be told to it: the texts are words that UTF-8 can carry.
use mathlib.Core.Option.{some-injective, none-ne-some}
use pg_ck.Prelude.{
  ℕ, ◌≤◌, ◌≡◌, refl, subst, inl, inr, List, [], ◌∷◌, Option, none, some, All, All-append, Given,
  length, map, arith, Bool-cases,
}
use pg_ck.Prelude.Result.{ok, >>=-eq-ok, ok_or-bind, ok_injective}
use pg_ck.Text.{Text, text_eq, text_eq_iff, split_whitespace}
use pg_ck.Text.Scalars.{IsPlainWord, decode-All, trim_end_by_keeps, split_whitespace-IsPlainWord}
use pg_ck.Text.Utf8.{Bytes, IsScalar, decode}
use pg_ck.Nats.Parser.{ClientMsg, connect, ping, pong, sub, unsub, publish, parse_line}
use pg_ck.Nats.Parser.Render.{head_only}
use pg_ck.Nats.Parser.Sound.{IsFormed, parse_words_sound}
use pg_ck.Prelude.{Ensures-some}
use pg_ck.Nats.Router.Laws.{Has}
use pg_ck.Nats.Server.{
  IoError, max_payload, read_until, decode_control_line, read_payload, with_payload,
  read_line_message, read_client_message, is_line_end, Delivery,
}
use pg_ck.Nats.Server.Framing.{IsSized}
use pg_ck.Nats.Server.Bounds.{read_client_message-IsRead}
use pg_ck.Nats.Server.Messages.{IsTellable}
use pg_ck.Nats.Server.Session.{
  delivered, Session, Input, says, hears, begun, said, at_sid, Step, on_said, on_heard, Run, stop,
  more,
}

-- A message as the parser gives it, with its payload within the limit.
abbrev pub IsPlainMessage : ClientMsg → Type 0
IsPlainMessage m = IsFormed IsPlainWord (head_only m) × IsSized m

parse_line-IsFormed :
    (line : Text) {m : ClientMsg}
    → All IsScalar line
    → parse_line line ≡ some m
    → IsFormed IsPlainWord m
unfolding parse_line
parse_line-IsFormed line scalars e =
    Ensures-some
      (parse_words_sound IsPlainWord (split_whitespace line) line
        (split_whitespace-IsPlainWord line scalars))
      e

decode_control_line-All :
    (bytes : Bytes) (text : Text) → decode_control_line bytes ≡ ok text → All IsScalar text
unfolding decode_control_line
decode_control_line-All bytes text e =
    let (line, decoded, trimmed) = ok_or-bind IoError.not_utf8 (decode bytes) _ e in
    subst (All IsScalar) (ok_injective trimmed)
      (trim_end_by_keeps IsScalar is_line_end line (decode-All bytes line decoded))

with_payload-IsFormed :
    (message m : ClientMsg) (bs left : Bytes)
    → IsFormed IsPlainWord message
    → with_payload message bs ≡ ok (some (m, left))
    → IsFormed IsPlainWord (head_only m)
with_payload-IsFormed (publish subject reply n payload) m bs left (s, r, small, _) e =
    let (read, _, same) = >>=-eq-ok (read_payload n bs) _ e in
    subst (λ (p : ClientMsg × Bytes). IsFormed IsPlainWord (head_only p.0))
      (some-injective _ _ (ok_injective same)) (s, r, small, refl)
with_payload-IsFormed (connect options) m bs left h e =
    subst (λ (p : ClientMsg × Bytes). IsFormed IsPlainWord (head_only p.0))
      (some-injective _ _ (ok_injective e)) h
with_payload-IsFormed ping m bs left h e =
    subst (λ (p : ClientMsg × Bytes). IsFormed IsPlainWord (head_only p.0))
      (some-injective _ _ (ok_injective e)) h
with_payload-IsFormed pong m bs left h e =
    subst (λ (p : ClientMsg × Bytes). IsFormed IsPlainWord (head_only p.0))
      (some-injective _ _ (ok_injective e)) h
with_payload-IsFormed (sub subject queue sid) m bs left h e =
    subst (λ (p : ClientMsg × Bytes). IsFormed IsPlainWord (head_only p.0))
      (some-injective _ _ (ok_injective e)) h
with_payload-IsFormed (unsub sid none) m bs left h e =
    subst (λ (p : ClientMsg × Bytes). IsFormed IsPlainWord (head_only p.0))
      (some-injective _ _ (ok_injective e)) h
with_payload-IsFormed (unsub sid (some max)) m bs left h e =
    subst (λ (p : ClientMsg × Bytes). IsFormed IsPlainWord (head_only p.0))
      (some-injective _ _ (ok_injective e)) h

read_line_message-IsFormed :
    (line rest : Bytes) (m : ClientMsg) (left : Bytes)
    → read_line_message line rest ≡ ok (some (m, left))
    → IsFormed IsPlainWord (head_only m)
unfolding read_line_message
read_line_message-IsFormed [] rest m left e = absurd (ground arith)
read_line_message-IsFormed (b ∷ line) rest m left e =
    let (text, decoded, e1) = >>=-eq-ok (decode_control_line (b ∷ line)) _ e in
    let (message, parsed, e2) = ok_or-bind _ _ _ e1 in
    with_payload-IsFormed message m rest left
      (parse_line-IsFormed text (decode_control_line-All (b ∷ line) text decoded) parsed) e2

pub read_client_message-IsPlainMessage :
    (bs : Bytes) (m : ClientMsg) (rest : Bytes)
    → read_client_message bs ≡ ok (some (m, rest))
    → IsPlainMessage m
unfolding read_client_message
read_client_message-IsPlainMessage bs m rest e =
    let (_, sized, _) = read_client_message-IsRead bs m rest e in
    (read_line_message-IsFormed (read_until bs).0 (read_until bs).1 m rest e, sized)

abbrev pub IsPlainDelivery : Delivery → Type 0
IsPlainDelivery d =
    IsPlainWord d.subject × Given IsPlainWord d.reply × (length d.payload ≤ max_payload)

abbrev pub IsPlainInput : Input → Type 0
IsPlainInput (says m) = IsPlainMessage m
IsPlainInput (hears d) = IsPlainDelivery d

pub record IsPlainSession (s : Session) : Type 0 where
  pub sids : (sid pattern : Text) → s.subscribed sid ≡ some pattern → IsPlainWord sid
  pub told : All IsTellable s.notices
  pub published : All IsPlainDelivery s.published

begun-IsPlainSession : IsPlainSession begun
begun-IsPlainSession = record {
  sids = λ sid p e. absurd (none-ne-some _ e);
  told = tt;
  published = tt;
}

at_sid-plain :
    (sid : Text) (pattern : Option Text) (s : Session) (j p : Text)
    → IsPlainWord sid
    → IsPlainSession s
    → at_sid sid pattern s.subscribed j ≡ some p
    → IsPlainWord j
at_sid-plain sid pattern s j p word h e = elim (Bool-cases (text_eq sid j)) [
  | inl same ↦ subst IsPlainWord ((text_eq_iff sid j).0 same) word
  | inr other ↦ h.sids j p (rw other at e)
]

unsub-word : (sid : Text) (max : Option ℕ) → IsFormed IsPlainWord (unsub sid max) → IsPlainWord sid
unsub-word sid none h = h
unsub-word sid (some max) (h, _) = h

said-IsPlainSession :
    (m : ClientMsg) (s : Session) → IsPlainMessage m → IsPlainSession s → IsPlainSession (said m s)
said-IsPlainSession (connect options) s m h = h
said-IsPlainSession pong s m h = h
said-IsPlainSession ping s m h = record {
  sids = h.sids;
  told = All-append IsTellable s.notices _ h.told (tt, tt);
  published = h.published;
}
said-IsPlainSession (sub subject queue sid) s ((_, _, word), _) h = record {
  sids = λ j p e. at_sid-plain sid (some subject) s j p word h e;
  told = h.told;
  published = h.published;
}
said-IsPlainSession (unsub sid max) s (formed, _) h = record {
  sids = λ j p e. at_sid-plain sid none s j p (unsub-word sid max formed) h e;
  told = h.told;
  published = h.published;
}
said-IsPlainSession (publish subject reply n payload) s ((word, answer, _, _), (e, small)) h =
    record {
      sids = h.sids;
      told = h.told;
      published =
          All-append IsPlainDelivery s.published _ h.published
            ((word, answer, omega (arith, e)), tt);
    }

-- One notice for each sid, all of which are subscribed.
delivered-IsTellable :
    (d : Delivery) (sids : List Text)
    → IsPlainDelivery d
    → ((sid : Text) → Has sid sids → IsPlainWord sid)
    → All IsTellable (map (delivered d) sids)
delivered-IsTellable d [] plain words = tt
delivered-IsTellable d (sid ∷ sids) (word, answer, small) words = (
  (word, words sid (inl refl), answer, omega arith),
  delivered-IsTellable d sids (word, answer, small) (λ j has. words j (inr has)),
)

step-IsPlainSession :
    (i : Input) (s t : Session) → IsPlainInput i → Step s i t → IsPlainSession s → IsPlainSession t
step-IsPlainSession _ s _ plain (on_said m) h = said-IsPlainSession m s plain h
step-IsPlainSession _ s _ plain (on_heard d sids audience) h = record {
  sids = h.sids;
  told = All-append IsTellable s.notices _ h.told (
      delivered-IsTellable d sids plain
        λ sid has. let (p, found, _) = (audience.hear sid).0 has in h.sids sid p found);
  published = h.published;
}

pub Run-IsPlainSession :
    (is : List Input) (s t : Session)
    → All IsPlainInput is
    → Run s is t
    → IsPlainSession s
    → IsPlainSession t
Run-IsPlainSession [] s _ plain stop h = h
Run-IsPlainSession (i ∷ is) s u (first, later) (more {t = t} moved rest) h =
    Run-IsPlainSession is t u later rest (step-IsPlainSession i s t first moved h)

pub begun-Run-IsPlainSession :
    (is : List Input) (t : Session) → All IsPlainInput is → Run begun is t → IsPlainSession t
begun-Run-IsPlainSession is t plain ran =
    Run-IsPlainSession is begun t plain ran begun-IsPlainSession
