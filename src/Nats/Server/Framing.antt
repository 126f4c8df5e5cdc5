-- ===== src/Nats/Server/Framing.antt =====
-- Reading a frame back from the stream, and what a read message can be.
use mathlib.Core.List.{cons-ne-nil}
use pg_ck.Prelude.{
  ℕ, ◌≤◌, ◌≡◌, ◌≢◌, ◌∙◌, refl, sym, ap, true, false, [], ◌∷◌, ◌++◌, some, arith, if◌then◌else◌, ltb,
  ◌==◌, length, length-append, take-append, drop-append, append_assoc, All, All-append, subst,
  Bool-cases, inl, inr,
}
use pg_ck.Prelude.Result.{ok}
use pg_ck.Text.{Text, Lacks, text_eq, trim_end_by_tail}
use pg_ck.Text.Utf8.{Bytes, encode, encode_char, IsScalar, decode-encode, encode-Lacks}
use pg_ck.Nats.Parser.{ClientMsg, connect, ping, pong, sub, unsub, publish, parse_line}
use pg_ck.Nats.Parser.Render.{control_line, head_only, IsSendable, parse_line-control_line}
use pg_ck.Nats.Server.{
  max_payload, read_until, read_exact, decode_control_line, read_payload, with_payload,
  read_line_message, read_client_message, is_line_end,
}

pub read_until_line :
    (line rest : Bytes) → Lacks 10 line → read_until (line ++ 10 ∷ rest) ≡ (line ++ 10 ∷ [], rest)
unfolding read_until
read_until_line [] rest h = refl
read_until_line (b ∷ line) rest (h, hs) =
    let later = read_until_line line rest hs in
    elim (Bool-cases (b == 10)) [ inl e ↦ absurd (ground arith) | inr e ↦ rw (e, later) refl ]

encode-append : (s t : Text) → encode (s ++ t) ≡ encode s ++ encode t
unfolding encode
encode-append [] t = refl
encode-append (c ∷ s) t =
    ap (λ (bs : Bytes). encode_char c ++ bs) (encode-append s t)
    ∙ sym (append_assoc (encode_char c) (encode s) (encode t))

-- A control line's text, on one line.
pub record IsLine (s : Text) : Type 0 where
  pub scalars : All IsScalar s
  pub no_feed : Lacks 10 s
  pub no_return : Lacks 13 s

kept_char : (c : ℕ) → c ≢ 10 → c ≢ 13 → is_line_end c ≡ false
kept_char c h k = ground arith

kept : (s : Text) → Lacks 10 s → Lacks 13 s → All (λ c. is_line_end c ≡ false) s
kept [] h k = tt
kept (c ∷ s) (h, hs) (k, ks) = (kept_char c h k, kept s hs ks)

pub decode_control_line-encode :
    (s : Text) → IsLine s → decode_control_line (encode (s ++ 13 ∷ 10 ∷ [])) ≡ ok s
unfolding decode_control_line
decode_control_line-encode s h =
    rw
      (
        decode-encode (s ++ 13 ∷ 10 ∷ [])
            (All-append IsScalar s (13 ∷ 10 ∷ []) h.scalars (omega arith, (omega arith, tt))),
        trim_end_by_tail is_line_end s (13 ∷ 10 ∷ []) (kept s h.no_feed h.no_return)
            (refl, (refl, tt)),
      )
      refl

-- The bytes that a client sends for a message: the control line, and for a PUB the payload.
abbrev pub body : ClientMsg → Bytes
body (publish subject reply payload_len payload) = payload ++ 13 ∷ 10 ∷ []
body _ = []

abbrev pub frame : ClientMsg → Bytes
frame m = encode (control_line m ++ 13 ∷ 10 ∷ []) ++ body m

-- The announced length is the payload's, within the limit.
abbrev pub IsSized : ClientMsg → Type 0
IsSized (publish subject reply payload_len payload) =
    (payload_len ≡ length payload) × (payload_len ≤ max_payload)
IsSized _ = Unit

read_exact-append :
    (payload rest : Bytes) (n : ℕ)
    → n ≡ length payload
    → read_exact n (payload ++ rest) ≡ ok (payload, rest)
unfolding read_exact
read_exact-append payload rest n e =
    rw (e, length-append payload rest, take-append payload rest, drop-append payload rest)
      (ground arith)

read_payload-append :
    (payload rest : Bytes) (n : ℕ)
    → n ≡ length payload
    → n ≤ max_payload
    → read_payload n (payload ++ 13 ∷ 10 ∷ rest) ≡ ok (payload, rest)
unfolding read_payload text_eq
read_payload-append payload rest n e small =
    let within : (if ltb max_payload n then false else true) ≡ true = ground arith in
    rw
      (
        within,
        read_exact-append payload (13 ∷ 10 ∷ rest) n e,
        read_exact-append (13 ∷ 10 ∷ []) rest 2 refl,
      )
      refl

with_payload-body :
    (m : ClientMsg) (rest : Bytes)
    → IsSized m
    → with_payload (head_only m) (body m ++ rest) ≡ ok (some (m, rest))
with_payload-body (connect options) rest h = refl
with_payload-body ping rest h = refl
with_payload-body pong rest h = refl
with_payload-body (sub subject queue sid) rest h = refl
with_payload-body (unsub sid max) rest h = refl
with_payload-body (publish subject reply n payload) rest (e, small) =
    rw (append_assoc payload (13 ∷ 10 ∷ []) rest, read_payload-append payload rest n e small) refl

line_message :
    (line : Bytes) (s : Text) (m : ClientMsg) (rest : Bytes)
    → line ≢ []
    → decode_control_line line ≡ ok s
    → parse_line s ≡ some (head_only m)
    → read_line_message line rest ≡ with_payload (head_only m) rest
unfolding read_line_message
line_message [] s m rest filled e parsed = absurd (filled refl)
line_message (b ∷ line) s m rest filled e parsed = rw (e, parsed) refl

pub feed_ends :
    (s : Text)
    → IsLine s
    → (line : Bytes) × (encode (s ++ 13 ∷ 10 ∷ []) ≡ line ++ 10 ∷ []) × Lacks 10 line
unfolding encode
feed_ends s h = (
  encode s ++ 13 ∷ [],
  encode-append s (13 ∷ 10 ∷ []) ∙ sym (append_assoc (encode s) (13 ∷ []) (10 ∷ [])),
  All-append (λ c. c ≢ 10) (encode s) (13 ∷ []) (encode-Lacks 10 s (omega arith) h.no_feed)
      ((λ e. absurd (omega arith)), tt),
)

ends-ne-nil : (bs : Bytes) (b : ℕ) → bs ++ b ∷ [] ≢ []
ends-ne-nil [] b = cons-ne-nil b []
ends-ne-nil (c ∷ bs) b = cons-ne-nil c (bs ++ b ∷ [])

-- A message that can be sent, with its line on one line and a payload of the announced length up to
-- 1 MiB, is read back from its frame, and the bytes behind the frame are left for the next read.
pub read_client_message-frame :
    (m : ClientMsg) (rest : Bytes)
    → IsSendable m
    → IsLine (control_line m)
    → IsSized m
    → read_client_message (frame m ++ rest) ≡ ok (some (m, rest))
unfolding read_client_message
read_client_message-frame m rest sendable line sized =
    let (bytes, ends, no_feed) = feed_ends (control_line m) line in
    let split_line : read_until (frame m ++ rest)
        ≡ (encode (control_line m ++ 13 ∷ 10 ∷ []), body m ++ rest) =
      ap read_until (
        append_assoc (encode (control_line m ++ 13 ∷ 10 ∷ [])) (body m) rest
        ∙ ap (λ (bs : Bytes). bs ++ (body m ++ rest)) ends
        ∙ append_assoc bytes (10 ∷ []) (body m ++ rest))
      ∙ read_until_line bytes (body m ++ rest) no_feed
      ∙ ap (λ (bs : Bytes). (bs, body m ++ rest)) (sym ends) in
    rw split_line (
      line_message (encode (control_line m ++ 13 ∷ 10 ∷ [])) (control_line m) m (body m ++ rest)
        (subst (λ (bs : Bytes). bs ≢ []) (sym ends) (ends-ne-nil bytes 10))
        (decode_control_line-encode (control_line m) line) (parse_line-control_line m sendable)
      ∙ with_payload-body m rest sized)
