-- ===== src/Nats/Server/Messages.antt =====
-- What a client reads back of the bytes that the server writes.
use pg_ck.Prelude.{
  Given, ℕ, zero, suc, ◌≤◌, ◌≡◌, ◌≢◌, ◌∙◌, refl, sym, ap, List, [], ◌∷◌, ◌++◌, Option, none, some,
  if◌then◌else◌, ◌>>=◌, All, All-append, All-map, append_assoc, append-nil, length, take, drop,
  take-append, drop-append, arith, true,
}
use pg_ck.Prelude.Result.{to_option}
use pg_ck.Text.{Text, codes, text_eq, join, Lacks, split_whitespace, is_whitespace}
use pg_ck.Text.Words.{IsWord, HasNoSpace, split_whitespace-join, HasNoSpace-digits}
use pg_ck.Text.Decimal.{
  to_decimal, parse_u64, u64_max, parse_u64-to_decimal, to_decimal-IsDigit, to_decimal-cons,
  IsDigit,
}
use pg_ck.Text.Scalars.{IsPlainWord}
use pg_ck.Text.Utf8.{Bytes, encode, IsScalar}
use pg_ck.Nats.Server.{write_msg, read_until, decode_control_line}
use pg_ck.Nats.Server.Framing.{IsLine, read_until_line, decode_control_line-encode, feed_ends}
use pg_ck.Nats.Server.Session.{Notice, ponged, delivered}
use pg_ck.Nats.Server.Session.Refines.{render, notice_bytes}

-- A client of the protocol: one line, its words, and for MSG as many bytes as the last word says, with
-- two more behind them.
abbrev payload_of : Text → Option Text → Text → Bytes → Option ℕ → Option (Notice × Bytes)
payload_of subject reply sid rest none = none
payload_of subject reply sid rest (some n) = some (
  delivered (record { subject = subject; reply = reply; payload = take n rest }) sid,
  drop 2 (drop n rest),
)

abbrev notice_of : List Text → Bytes → Option (Notice × Bytes)
notice_of (verb ∷ []) rest = if text_eq verb (codes "PONG") then some (ponged, rest) else none
notice_of (verb ∷ subject ∷ sid ∷ len ∷ []) rest =
    if text_eq verb (codes "MSG") then payload_of subject none sid rest (parse_u64 len) else none
notice_of (verb ∷ subject ∷ sid ∷ reply ∷ len ∷ []) rest =
    if text_eq verb (codes "MSG")
    then payload_of subject (some reply) sid rest (parse_u64 len)
    else none
notice_of _ rest = none

abbrev notice_in : Bytes × Bytes → Option (Notice × Bytes)
notice_in (line, rest) = do
  text ← to_option (decode_control_line line)
  notice_of (split_whitespace text) rest

read_notice : Bytes → Option (Notice × Bytes)
unfolding text_eq
read_notice bs = notice_in (read_until bs)

-- So many notices, and the bytes behind them.
pub read_notices : ℕ → Bytes → Option (List Notice × Bytes)
read_notices zero bs = some ([], bs)
read_notices (suc n) bs = do
  first ← read_notice bs
  later ← read_notices n first.1
  some (first.0 ∷ later.0, later.1)

-- The texts of a delivery are words, and its length is written in 64 bits.
abbrev pub IsTellable : Notice → Type 0
IsTellable ponged = Unit
IsTellable (delivered d sid) =
    IsPlainWord d.subject
    × IsPlainWord sid
    × Given IsPlainWord d.reply
    × (length d.payload ≤ u64_max)

spaceless : (s : Text) (c : ℕ) → is_whitespace c ≡ true → HasNoSpace s → Lacks c s
spaceless [] c h _ = tt
spaceless (x ∷ s) c h (e, es) = ((λ same. absurd (cc (same, h, e))), spaceless s c h es)

word-IsLine : (w : Text) → IsPlainWord w → IsLine w
unfolding is_whitespace
word-IsLine w ((_, plain), scalars) = record {
  scalars = scalars;
  no_feed = spaceless w 10 refl plain;
  no_return = spaceless w 13 refl plain;
}

IsLine-space : (w t : Text) → IsLine w → IsLine t → IsLine (w ++ b' ' ∷ t)
IsLine-space w t h k = record {
  scalars = All-append IsScalar w (b' ' ∷ t) h.scalars (omega arith, k.scalars);
  no_feed =
      All-append (λ c. c ≢ 10) w (b' ' ∷ t) h.no_feed ((λ e. absurd (omega arith)), k.no_feed);
  no_return =
      All-append (λ c. c ≢ 13) w (b' ' ∷ t) h.no_return ((λ e. absurd (omega arith)), k.no_return);
}

join-IsLine : (w : Text) (ws : List Text) → All IsPlainWord (w ∷ ws) → IsLine (join b' ' (w ∷ ws))
unfolding join
join-IsLine w [] (h, _) = word-IsLine w h
join-IsLine w (v ∷ ws) (h, hs) =
    IsLine-space w (join b' ' (v ∷ ws)) (word-IsLine w h) (join-IsLine v ws hs)

digit-scalars : (s : Text) → All IsDigit s → All IsScalar s
digit-scalars [] h = tt
digit-scalars (c ∷ s) (h, hs) = (omega arith, digit-scalars s hs)

decimal-IsPlainWord : (n : ℕ) → IsPlainWord (to_decimal n)
decimal-IsPlainWord n =
    let (c, s, e) = to_decimal-cons n in
    (
      (rw e refl, HasNoSpace-digits (to_decimal n) (to_decimal-IsDigit n)),
      digit-scalars (to_decimal n) (to_decimal-IsDigit n),
    )

-- A line of words is read back as its words.
read_line :
    (w : Text) (ws : List Text) (rest : Bytes)
    → All IsPlainWord (w ∷ ws)
    → read_notice (encode (join b' ' (w ∷ ws) ++ 13 ∷ 10 ∷ []) ++ rest) ≡ notice_of (w ∷ ws) rest
unfolding read_notice
read_line w ws rest plain =
    let line = join-IsLine w ws plain in
    let (bytes, ends, no_feed) = feed_ends (join b' ' (w ∷ ws)) line in
    let cut : read_until (encode (join b' ' (w ∷ ws) ++ 13 ∷ 10 ∷ []) ++ rest)
        ≡ (encode (join b' ' (w ∷ ws) ++ 13 ∷ 10 ∷ []), rest) =
      ap read_until (ap (λ (bs : Bytes). bs ++ rest) ends ∙ append_assoc bytes (10 ∷ []) rest)
      ∙ read_until_line bytes rest no_feed
      ∙ ap (λ (bs : Bytes). (bs, rest)) (sym ends) in
    rw
      (
        cut,
        decode_control_line-encode (join b' ' (w ∷ ws)) line,
        split_whitespace-join w ws (All-map IsPlainWord IsWord (w ∷ ws) (λ x (h, _). h) plain),
      )
      refl

abbrev msg_words : Text → Text → Option Text → ℕ → List Text
msg_words subject sid none n = codes "MSG" ∷ subject ∷ sid ∷ to_decimal n ∷ []
msg_words subject sid (some reply) n = codes "MSG" ∷ subject ∷ sid ∷ reply ∷ to_decimal n ∷ []

abbrev header : Text → Text → Option Text → ℕ → Bytes
header subject sid reply n = encode (join b' ' (msg_words subject sid reply n) ++ 13 ∷ 10 ∷ [])

-- A word, a space and the rest, with the line's end in the rest.
spaced : (w t u e : Text) → t ++ e ≡ u → (w ++ b' ' ∷ t) ++ e ≡ w ++ b' ' ∷ u
spaced w t u e h = append_assoc w (b' ' ∷ t) e ∙ ap (λ (l : Text). w ++ b' ' ∷ l) h

write_msg-join :
    (subject sid : Text) (reply : Option Text) (payload : Bytes)
    → write_msg (record { subject = subject; reply = reply; payload = payload }) sid
      ≡ header subject sid reply (length payload) ++ (payload ++ 13 ∷ 10 ∷ [])
unfolding write_msg join
write_msg-join subject sid none payload =
    ap (λ (t : Text). encode t ++ (payload ++ 13 ∷ 10 ∷ []))
      (sym (
        ap (λ (t : Text). codes "MSG" ++ b' ' ∷ t)
          (spaced subject _ _ _ (spaced sid _ _ (13 ∷ 10 ∷ []) refl))))
write_msg-join subject sid (some reply) payload =
    ap (λ (t : Text). encode t ++ (payload ++ 13 ∷ 10 ∷ []))
      (sym (
        ap (λ (t : Text). codes "MSG" ++ b' ' ∷ t)
          (spaced subject _ _ _
            (spaced sid _ _ _ (spaced reply (to_decimal (length payload)) _ (13 ∷ 10 ∷ []) refl)))))

pong_line : IsPlainWord (codes "PONG")
unfolding is_whitespace
pong_line = ground arith

msg_line : IsPlainWord (codes "MSG")
unfolding is_whitespace
msg_line = ground arith

payload_of-append :
    (subject sid : Text) (reply : Option Text) (payload rest : Bytes)
    → length payload ≤ u64_max
    → payload_of subject reply sid
        (payload ++ 13 ∷ 10 ∷ rest)
        (parse_u64 (to_decimal (length payload)))
      ≡ some (delivered (record { subject = subject; reply = reply; payload = payload }) sid, rest)
payload_of-append subject sid reply payload rest small =
    rw
      (
        parse_u64-to_decimal (length payload) small,
        take-append payload (13 ∷ 10 ∷ rest),
        drop-append payload (13 ∷ 10 ∷ rest),
      )
      refl

-- The line and the payload of a delivery.
read_msg :
    (subject sid : Text) (reply : Option Text) (payload rest : Bytes)
    → IsTellable (delivered (record { subject = subject; reply = reply; payload = payload }) sid)
    → read_notice
        (write_msg (record { subject = subject; reply = reply; payload = payload }) sid ++ rest)
      ≡ some (delivered (record { subject = subject; reply = reply; payload = payload }) sid, rest)
unfolding text_eq
read_msg subject sid reply payload rest (plain, named, answer, small) =
    ap read_notice (
      ap (λ (bs : Bytes). bs ++ rest) (write_msg-join subject sid reply payload)
      ∙ append_assoc (header subject sid reply (length payload)) (payload ++ 13 ∷ 10 ∷ []) rest
      ∙ ap (λ (bs : Bytes). header subject sid reply (length payload) ++ bs)
          (append_assoc payload (13 ∷ 10 ∷ []) rest))
    ∙ worded reply answer
  where
    worded :
        (o : Option Text)
        → Given IsPlainWord o
        → read_notice (header subject sid o (length payload) ++ (payload ++ 13 ∷ 10 ∷ rest))
          ≡ some (delivered (record { subject = subject; reply = o; payload = payload }) sid, rest)
    worded none _ =
        read_line (codes "MSG") (subject ∷ sid ∷ to_decimal (length payload) ∷ [])
          (payload ++ 13 ∷ 10 ∷ rest)
          (msg_line, (plain, (named, (decimal-IsPlainWord (length payload), tt))))
        ∙ payload_of-append subject sid none payload rest small
    worded (some r) told =
        read_line (codes "MSG") (subject ∷ sid ∷ r ∷ to_decimal (length payload) ∷ [])
          (payload ++ 13 ∷ 10 ∷ rest)
          (msg_line, (plain, (named, (told, (decimal-IsPlainWord (length payload), tt)))))
        ∙ payload_of-append subject sid (some r) payload rest small

read_pong : (rest : Bytes) → read_notice (codes "PONG" ++ 13 ∷ 10 ∷ rest) ≡ some (ponged, rest)
unfolding encode join text_eq
read_pong rest = read_line (codes "PONG") [] rest (pong_line, tt)

notice_back :
    (n : Notice) (rest : Bytes)
    → IsTellable n
    → read_notice (render (n ∷ []) ++ rest) ≡ some (n, rest)
notice_back ponged rest _ = read_pong rest
notice_back (delivered d sid) rest h =
    ap (λ (bs : Bytes). read_notice (bs ++ rest)) (append-nil (write_msg d sid))
    ∙ read_msg d.subject sid d.reply d.payload rest h

-- What a session has told its client, PONG and MSG in any order, is read back from the bytes that the
-- server writes for it, one after the other and with the bytes behind them left, if the subjects,
-- sids and reply subjects are words and the payloads' lengths fit 64 bits.
pub read_notices-render :
    (ns : List Notice) (rest : Bytes)
    → All IsTellable ns
    → read_notices (length ns) (render ns ++ rest) ≡ some (ns, rest)
unfolding read_notices
read_notices-render [] rest _ = refl
read_notices-render (n ∷ ns) rest (h, hs) =
    let first : read_notice (render (n ∷ ns) ++ rest) ≡ some (n, render ns ++ rest) =
      ap read_notice (
        ap (λ (bs : Bytes). (bs ++ render ns) ++ rest) (sym (append-nil (notice_bytes n)))
        ∙ append_assoc (render (n ∷ [])) (render ns) rest)
      ∙ notice_back n (render ns ++ rest) h in
    rw (first, read_notices-render ns rest hs) refl
