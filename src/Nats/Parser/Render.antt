-- ===== src/Nats/Parser/Render.antt =====
-- The control lines of the protocol, written by an independent printer, and the parser on them.
use pg_ck.Prelude.{
  ℕ, ◌≤◌, ◌≡◌, refl, ap, ◌∙◌, List, [], ◌∷◌, ◌++◌, Option, none, some, arith, All, ◌≢◌, Given,
}
use pg_ck.Text.{
  Text, codes, text_eq, trim, split_whitespace, to_ascii_uppercase, is_whitespace, join,
}
use pg_ck.Text.Decimal.{
  to_decimal, u64_max, parse_u64-to_decimal, to_decimal-IsDigit, to_decimal-cons,
}
use pg_ck.Text.Words.{IsWord, HasNoSpace-digits, split_whitespace-join, split_whitespace-word}
use pg_ck.Nats.Parser.{
  ClientMsg, connect, ping, pong, sub, unsub, publish, connect_with, parse_connect, parse_words,
  parse_line, parse_sub, parse_unsub, parse_pub,
}

-- The words of a message; the payload follows the line and is no part of it.
abbrev pub words : ClientMsg → List Text
words (connect options) = codes "CONNECT" ∷ options ∷ []
words ping = codes "PING" ∷ []
words pong = codes "PONG" ∷ []
words (sub subject none sid) = codes "SUB" ∷ subject ∷ sid ∷ []
words (sub subject (some queue) sid) = codes "SUB" ∷ subject ∷ queue ∷ sid ∷ []
words (unsub sid none) = codes "UNSUB" ∷ sid ∷ []
words (unsub sid (some max)) = codes "UNSUB" ∷ sid ∷ to_decimal max ∷ []
words (publish subject none len payload) = codes "PUB" ∷ subject ∷ to_decimal len ∷ []
words (publish subject (some reply) len payload) =
    codes "PUB" ∷ subject ∷ reply ∷ to_decimal len ∷ []

unfoldable pub control_line : ClientMsg → Text
control_line m = join b' ' (words m)

-- What the line alone says: the payload is read behind it.
abbrev pub head_only : ClientMsg → ClientMsg
head_only (publish subject reply len payload) = publish subject reply len []
head_only m = m

abbrev pub IsOptionalWord : Option Text → Type 0
IsOptionalWord = Given IsWord

-- Messages that a client can write on one line: the options of CONNECT are trimmed and not empty,
-- all other texts are words, and the numbers fit 64 bits.
abbrev pub IsSendable : ClientMsg → Type 0
IsSendable (connect options) = (trim options ≡ options) × (options ≢ [])
IsSendable ping = Unit
IsSendable pong = Unit
IsSendable (sub subject queue sid) = IsWord subject × IsOptionalWord queue × IsWord sid
IsSendable (unsub sid none) = IsWord sid
IsSendable (unsub sid (some max)) = IsWord sid × (max ≤ u64_max)
IsSendable (publish subject reply len payload) =
    IsWord subject × IsOptionalWord reply × (len ≤ u64_max)

to_decimal-IsWord : (n : ℕ) → IsWord (to_decimal n)
to_decimal-IsWord n =
    let (c, s, e) = to_decimal-cons n in
    (rw e refl, HasNoSpace-digits (to_decimal n) (to_decimal-IsDigit n))

verb-IsWord :
    IsWord (codes "PING")
    × IsWord (codes "PONG")
    × IsWord (codes "SUB")
    × IsWord (codes "UNSUB")
    × IsWord (codes "PUB")
    × IsWord (codes "CONNECT")
unfolding is_whitespace
verb-IsWord = ground arith

-- A line of words is parsed by its words.
parse_line_of_words :
    (w : Text) (ws : List Text)
    → All IsWord (w ∷ ws)
    → parse_line (join b' ' (w ∷ ws)) ≡ parse_words (w ∷ ws) (join b' ' (w ∷ ws))
unfolding parse_line
parse_line_of_words w ws h =
    ap (λ l. parse_words l (join b' ' (w ∷ ws))) (split_whitespace-join w ws h)

parse_unsub_max :
    (sid : Text) (n : ℕ)
    → n ≤ u64_max
    → parse_unsub (sid ∷ to_decimal n ∷ []) ≡ some (unsub sid (some n))
unfolding parse_unsub
parse_unsub_max sid n h = rw (parse_u64-to_decimal n h)

parse_pub_plain :
    (s : Text) (n : ℕ)
    → n ≤ u64_max
    → parse_pub (s ∷ to_decimal n ∷ []) ≡ some (publish s none n [])
unfolding parse_pub
parse_pub_plain s n h = rw (parse_u64-to_decimal n h)

parse_pub_reply :
    (s r : Text) (n : ℕ)
    → n ≤ u64_max
    → parse_pub (s ∷ r ∷ to_decimal n ∷ []) ≡ some (publish s (some r) n [])
unfolding parse_pub
parse_pub_reply s r n h = rw (parse_u64-to_decimal n h)

-- The options come after the first space of the line.
parse_connect_line :
    (options : Text)
    → trim options ≡ options
    → options ≢ []
    → parse_connect (codes "CONNECT" ++ b' ' ∷ options) ≡ some (connect options)
unfolding parse_connect trim
parse_connect_line [] h k = absurd (k refl)
parse_connect_line (c ∷ options) h k = ap connect_with h

-- The arm that a verb in upper case takes.
verb_rules :
    (args : List Text) (line : Text)
    → (parse_words (codes "SUB" ∷ args) line ≡ parse_sub args)
      × (parse_words (codes "UNSUB" ∷ args) line ≡ parse_unsub args)
      × (parse_words (codes "PUB" ∷ args) line ≡ parse_pub args)
      × (parse_words (codes "CONNECT" ∷ args) line ≡ parse_connect line)
unfolding parse_words to_ascii_uppercase text_eq parse_sub parse_unsub parse_pub
verb_rules args line = (refl, refl, refl, refl)

-- Every message that a client can write on one line is read back from that line; the payload of a
-- PUB is left for the caller to read.
pub parse_line-control_line :
    (m : ClientMsg) → IsSendable m → parse_line (control_line m) ≡ some (head_only m)
unfolding control_line parse_sub parse_words join parse_line split_whitespace
parse_line-control_line (connect options) (trimmed, filled) =
    ap (λ l. parse_words l (control_line (connect options)))
      (split_whitespace-word (codes "CONNECT") options verb-IsWord.5)
    ∙ (verb_rules (split_whitespace options) _).3
    ∙ parse_connect_line options trimmed filled
parse_line-control_line ping h =
    parse_line_of_words (codes "PING") [] (verb-IsWord.0, tt)
    ∙ unfold parse_words to_ascii_uppercase text_eq in refl
parse_line-control_line pong h =
    parse_line_of_words (codes "PONG") [] (verb-IsWord.1, tt)
    ∙ unfold parse_words to_ascii_uppercase text_eq in refl
parse_line-control_line (sub subject none sid) (hs, _, hi) =
    parse_line_of_words (codes "SUB") (subject ∷ sid ∷ []) (verb-IsWord.2, (hs, (hi, tt)))
    ∙ (verb_rules (subject ∷ sid ∷ []) _).0
parse_line-control_line (sub subject (some queue) sid) (hs, hq, hi) =
    parse_line_of_words (codes "SUB") (subject ∷ queue ∷ sid ∷ [])
      (verb-IsWord.2, (hs, (hq, (hi, tt))))
    ∙ (verb_rules (subject ∷ queue ∷ sid ∷ []) _).0
parse_line-control_line (unsub sid none) h =
    parse_line_of_words (codes "UNSUB") (sid ∷ []) (verb-IsWord.3, (h, tt))
    ∙ (verb_rules (sid ∷ []) _).1
    ∙ unfold parse_unsub in refl
parse_line-control_line (unsub sid (some max)) (h, fits) =
    parse_line_of_words (codes "UNSUB") (sid ∷ to_decimal max ∷ [])
      (verb-IsWord.3, (h, (to_decimal-IsWord max, tt)))
    ∙ (verb_rules (sid ∷ to_decimal max ∷ []) _).1
    ∙ parse_unsub_max sid max fits
parse_line-control_line (publish subject none len payload) (hs, _, fits) =
    parse_line_of_words (codes "PUB") (subject ∷ to_decimal len ∷ [])
      (verb-IsWord.4, (hs, (to_decimal-IsWord len, tt)))
    ∙ (verb_rules (subject ∷ to_decimal len ∷ []) _).2
    ∙ parse_pub_plain subject len fits
parse_line-control_line (publish subject (some reply) len payload) (hs, hr, fits) =
    parse_line_of_words (codes "PUB") (subject ∷ reply ∷ to_decimal len ∷ [])
      (verb-IsWord.4, (hs, (hr, (to_decimal-IsWord len, tt))))
    ∙ (verb_rules (subject ∷ reply ∷ to_decimal len ∷ []) _).2
    ∙ parse_pub_reply subject reply len fits
