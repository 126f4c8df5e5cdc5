-- ===== src/Callout/Grants.antt =====
-- src/auth_callout.rs: the permissions of an admission (`permissions_for`, `subject_token`).
use pg_ck.Prelude.{ℕ, Bool, ◌&&◌, ◌||◌, List, [], ◌∷◌, ◌++◌, map, leb, ◌==◌, if◌then◌else◌}
use pg_ck.Text.{Text, codes, is_nil}
use pg_ck.Jwt.{Admission, verified, anonymous}

unfoldable pub event_subject : Text → Text
event_subject k = codes "event.kernel." ++ (k ++ codes ".>")

unfoldable pub result_subject : Text → Text
result_subject k = codes "result.kernel." ++ (k ++ codes ".>")

unfoldable pub input_subject : Text → Text → Text
input_subject k sub_token =
    codes "input.kernel." ++ (k ++ (codes ".id." ++ (sub_token ++ codes ".action.>")))

pub record UserPermissions : Type 0 where
  pub pub_allow : List Text
  pub sub_allow : List Text

abbrev between : ℕ → ℕ → ℕ → Bool
between lo hi c = leb lo c && leb c hi

-- `c.is_ascii_alphanumeric() || c == '_' || c == '-'`
abbrev pub is_token_char : ℕ → Bool
is_token_char c =
    between b'0' b'9' c || between b'A' b'Z' c || between b'a' b'z' c || c == b'_' || c == b'-'

abbrev pub token_char : ℕ → ℕ
token_char c = if is_token_char c then c else b'-'

abbrev pub or_dash : Text → Text
or_dash t = if is_nil t then codes "-" else t

unfoldable pub subject_token : Text → Text
subject_token sub = or_dash (map token_char sub)

-- What a verified connection reads: the loop over the kernels, and its inbox.
unfoldable pub verified_sub_allow : List Text → List Text
verified_sub_allow [] = codes "_INBOX.>" ∷ []
verified_sub_allow (k ∷ kernels) = event_subject k ∷ result_subject k ∷ verified_sub_allow kernels

unfoldable pub permissions_for : Admission → List Text → UserPermissions
unfolding verified_sub_allow
permissions_for (verified sub exp) kernels = record {
  pub_allow = map (λ k. input_subject k (subject_token sub)) kernels;
  sub_allow = verified_sub_allow kernels;
}
permissions_for anonymous kernels = record { pub_allow = []; sub_allow = map event_subject kernels }
