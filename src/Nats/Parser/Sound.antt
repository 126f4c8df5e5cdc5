-- ===== src/Nats/Parser/Sound.antt =====
-- What every parsed control line guarantees to the server.
use mathlib.Core.List.{cons-ne-nil}
use pg_ck.Prelude.{
  ◌≤◌, ◌≡◌, refl, ◌&&◌, List, [], ◌∷◌, none, some, All, ◌≢◌, Ensures, nothing, holds, Ensures-some,
  Ensures-bind, Bool-cases, inl, inr, Given,
}
use pg_ck.Text.{
  Text, codes, text_eq, is_nil, trim_start, trim, split_whitespace, to_ascii_uppercase,
}
use pg_ck.Text.Decimal.{parse_u64, u64_max, parse_u64-le}
use pg_ck.Text.Words.{IsWord, split_whitespace-IsWord}
use pg_ck.Nats.Parser.{
  ClientMsg, connect, ping, pong, sub, unsub, publish, from_space, connect_with, parse_connect,
  parse_words, parse_verb, parse_line, parse_sub, parse_unsub, parse_pub,
}

-- The texts of a message satisfy `P`, its numbers fit 64 bits, the options of CONNECT are not
-- empty, and no payload is attached yet.
abbrev pub IsFormed : (Text → Type 0) → ClientMsg → Type 0
IsFormed P (connect options) = options ≢ []
IsFormed P ping = Unit
IsFormed P pong = Unit
IsFormed P (sub subject queue sid) = P subject × Given P queue × P sid
IsFormed P (unsub sid none) = P sid
IsFormed P (unsub sid (some max)) = P sid × (max ≤ u64_max)
IsFormed P (publish subject reply len payload) =
    P subject × Given P reply × (len ≤ u64_max) × (payload ≡ [])

abbrev pub IsWellFormed : ClientMsg → Type 0
IsWellFormed = IsFormed IsWord

module _ (P : Text → Type 0) where
  connect_with_sound : (s : Text) → Ensures (IsFormed P) (connect_with s)
  connect_with_sound [] = nothing
  connect_with_sound (c ∷ s) = holds (cons-ne-nil c s)

  parse_connect_sound : (line : Text) → Ensures (IsFormed P) (parse_connect line)
  unfolding parse_connect
  parse_connect_sound line =
      Ensures-bind (from_space (trim_start line)) (λ r _. connect_with_sound (trim r))

  parse_sub_sound : (args : List Text) → All P args → Ensures (IsFormed P) (parse_sub args)
  unfolding parse_sub
  parse_sub_sound (s ∷ i ∷ []) (hs, (hi, _)) = holds (hs, tt, hi)
  parse_sub_sound (s ∷ q ∷ i ∷ []) (hs, (hq, (hi, _))) = holds (hs, hq, hi)
  parse_sub_sound _ h = nothing

  parse_unsub_sound : (args : List Text) → All P args → Ensures (IsFormed P) (parse_unsub args)
  unfolding parse_unsub
  parse_unsub_sound (i ∷ []) (hi, _) = holds hi
  parse_unsub_sound (i ∷ max ∷ []) (hi, _) =
      Ensures-bind (parse_u64 max) (λ n e. holds (hi, parse_u64-le max e))
  parse_unsub_sound _ h = nothing

  parse_pub_sound : (args : List Text) → All P args → Ensures (IsFormed P) (parse_pub args)
  unfolding parse_pub
  parse_pub_sound (s ∷ len ∷ []) (hs, _) =
      Ensures-bind (parse_u64 len) (λ n e. holds (hs, tt, parse_u64-le len e, refl))
  parse_pub_sound (s ∷ r ∷ len ∷ []) (hs, (hr, _)) =
      Ensures-bind (parse_u64 len) (λ n e. holds (hs, hr, parse_u64-le len e, refl))
  parse_pub_sound _ h = nothing

  parse_verb_sound :
      (verb : Text) (args : List Text) (line : Text)
      → All P args
      → Ensures (IsFormed P) (parse_verb verb args line)
  unfolding parse_verb
  parse_verb_sound verb args line h =
      elim (Bool-cases (text_eq verb (codes "PING") && is_nil args)) [
        | inl e ↦ rw e (holds tt)
        | inr e ↦ rw e (elim (Bool-cases (text_eq verb (codes "PONG") && is_nil args)) [
          | inl e ↦ rw e (holds tt)
          | inr e ↦ rw e (elim (Bool-cases (text_eq verb (codes "CONNECT"))) [
            | inl e ↦ rw e (parse_connect_sound line)
            | inr e ↦ rw e (elim (Bool-cases (text_eq verb (codes "SUB"))) [
              | inl e ↦ rw e (parse_sub_sound args h)
              | inr e ↦ rw e (elim (Bool-cases (text_eq verb (codes "UNSUB"))) [
                | inl e ↦ rw e (parse_unsub_sound args h)
                | inr e ↦ rw e (elim (Bool-cases (text_eq verb (codes "PUB"))) [
                  | inl e ↦ rw e (parse_pub_sound args h)
                  | inr e ↦ rw e nothing
                ])
              ])
            ])
          ])
        ])
      ]

  pub parse_words_sound :
      (words : List Text) (line : Text)
      → All P words
      → Ensures (IsFormed P) (parse_words words line)
  unfolding parse_words
  parse_words_sound [] line h = nothing
  parse_words_sound (verb ∷ args) line (_, h) =
      parse_verb_sound (to_ascii_uppercase verb) args line h

-- Whatever the line, a message that is parsed from it is well formed: no subject, queue, sid or reply
-- is empty or holds white space, and no number leaves the 64 bits.
pub parse_line-IsWellFormed :
    (line : Text) {m : ClientMsg} → parse_line line ≡ some m → IsWellFormed m
unfolding parse_line
parse_line-IsWellFormed line e =
    Ensures-some
      (parse_words_sound IsWord (split_whitespace line) line (split_whitespace-IsWord line)) e
