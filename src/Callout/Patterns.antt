-- ===== src/Callout/Patterns.antt =====
-- Which subjects the patterns of the grants match: those of events, results, inputs and the inbox.
use pg_ck.Prelude.{
  ◌≡◌, ◌≢◌, ◌↔◌, inl, inr, refl, subst, true, false, List, [], ◌∷◌, arith, All, any, Bool-cases,
  ◌==◌, ℕ,
}
use pg_ck.Text.{Text, codes, Lacks, text_eq, text_eq_iff}
use pg_ck.Policy.Roster.{IsKernelName}
use pg_ck.Nats.Router.{matches}
use pg_ck.Nats.Router.Open.{prefixed, IsLiteral, matches_open_iff}
use pg_ck.Callout.Grants.{subject_token, event_subject, result_subject, input_subject}
use pg_ck.Callout.Token.{subject_token-IsTokenChar, Lacks-token}

-- The subject starts with the tokens and has a token more.
abbrev pub Under : List Text → Text → Type 0
Under ps subject = (rest : Text) × (subject ≡ prefixed ps rest)

kernel-IsLiteral : (k : Text) → IsKernelName k → IsLiteral k
kernel-IsLiteral k h = (avoid b'>' h.restless, avoid b'*' h.starless, h.dotless)
  where
    avoid : (b : ℕ) → Lacks b k → k ≢ b ∷ []
    avoid b lacks same = (subst (Lacks b) same lacks).0 refl

token-IsLiteral : (sub : Text) → IsLiteral (subject_token sub)
token-IsLiteral sub =
    let (filled, clean, dotless, _) = subject_token-IsTokenChar sub in
    (
      (λ e.
          absurd ((subst (Lacks b'>') e (Lacks-token b'>' refl (subject_token sub) clean)).0 refl)),
      (λ e.
          absurd ((subst (Lacks b'*') e (Lacks-token b'*' refl (subject_token sub) clean)).0 refl)),
      dotless,
    )

abbrev pub event_tokens : Text → List Text
event_tokens k = codes "event" ∷ codes "kernel" ∷ k ∷ []

abbrev pub result_tokens : Text → List Text
result_tokens k = codes "result" ∷ codes "kernel" ∷ k ∷ []

abbrev pub input_tokens : Text → Text → List Text
input_tokens k token = codes "input" ∷ codes "kernel" ∷ k ∷ codes "id" ∷ token ∷ codes "action" ∷ []

pub Lacks-any : (b : ℕ) (s : Text) → any (λ c. c == b) s ≡ false → Lacks b s
Lacks-any b [] h = tt
Lacks-any b (c ∷ s) h = elim (Bool-cases (c == b)) [
  | inl e ↦ absurd (cc (rw e at h))
  | inr e ↦ ((λ same. absurd (ground arith)), Lacks-any b s (rw e at h))
]

word :
    (s : Text)
    → text_eq s (codes ">") ≡ false
    → text_eq s (codes "*") ≡ false
    → any (λ c. c == b'.') s ≡ false
    → IsLiteral s
word s rest star dotless = (
  (λ e. cc ((text_eq_iff s (codes ">")).1 e, rest)),
  (λ e. cc ((text_eq_iff s (codes "*")).1 e, star)),
  Lacks-any b'.' s dotless,
)

event_literals : (k : Text) → IsKernelName k → All IsLiteral (event_tokens k)
unfolding text_eq
event_literals k h = (word _ refl refl refl, (word _ refl refl refl, (kernel-IsLiteral k h, tt)))

result_literals : (k : Text) → IsKernelName k → All IsLiteral (result_tokens k)
unfolding text_eq
result_literals k h = (word _ refl refl refl, (word _ refl refl refl, (kernel-IsLiteral k h, tt)))

input_literals :
    (k sub : Text) → IsKernelName k → All IsLiteral (input_tokens k (subject_token sub))
unfolding text_eq
input_literals k sub h = (
  word _ refl refl refl,
  (
    word _ refl refl refl,
    (
      kernel-IsLiteral k h,
      (word _ refl refl refl, (token-IsLiteral sub, (word _ refl refl refl, tt))),
    ),
  ),
)

inbox_literals : All IsLiteral (codes "_INBOX" ∷ [])
unfolding text_eq
inbox_literals = (word _ refl refl refl, tt)

pub event_iff :
    (k subject : Text)
    → IsKernelName k
    → (matches (event_subject k) subject ≡ true) ↔ Under (event_tokens k) subject
unfolding event_subject
event_iff k subject h = matches_open_iff (event_tokens k) subject (event_literals k h)

pub result_iff :
    (k subject : Text)
    → IsKernelName k
    → (matches (result_subject k) subject ≡ true) ↔ Under (result_tokens k) subject
unfolding result_subject
result_iff k subject h = matches_open_iff (result_tokens k) subject (result_literals k h)

pub input_iff :
    (k sub subject : Text)
    → IsKernelName k
    → (matches (input_subject k (subject_token sub)) subject ≡ true)
      ↔ Under (input_tokens k (subject_token sub)) subject
unfolding input_subject
input_iff k sub subject h =
    matches_open_iff (input_tokens k (subject_token sub)) subject (input_literals k sub h)

pub inbox_iff :
    (subject : Text)
    → (matches (codes "_INBOX.>") subject ≡ true) ↔ Under (codes "_INBOX" ∷ []) subject
inbox_iff subject = matches_open_iff (codes "_INBOX" ∷ []) subject inbox_literals
