-- ===== src/Outbox.antt =====
-- src/publish_drain.rs: the drain of `ckp.outbox`. What the query returns is an argument.
pub mod Delivers
use pg_ck.Prelude.{ℕ, ◌+◌, List, [], ◌∷◌, ◌++◌, Option, none, some, length}
use pg_ck.Prelude.Int.{ℤ, pos, negsuc}
use pg_ck.Prelude.Result.{Result, ok, err}
use pg_ck.Text.{Text, codes}
use pg_ck.Text.Utf8.{Bytes}
use pg_ck.Text.Decimal.{to_decimal}
use pg_ck.Json
use pg_ck.Json.{Value, Fields, as_str, as_object}
use pg_ck.Client.{Client, Headers, publish, publish_js}

-- A row of the query, whose columns can be NULL.
pub record Row : Type 0 where
  pub ledger_seq : Option ℤ
  pub subject : Option Text
  pub payload : Option Bytes
  pub headers : Option Value

pub record DrainedRow : Type 0 where
  pub ledger_seq : ℤ
  pub subject : Text
  pub payload : Bytes
  pub headers : Value

abbrev pub complete : Option ℤ → Option Text → Option Bytes → Option Value → Option DrainedRow
complete (some ls) (some s) (some p) (some h) =
    some (record { ledger_seq = ls; subject = s; payload = p; headers = h })
complete _ _ _ _ = none

abbrev pub onto : {A : Type 0} → Option A → List A → List A
onto none xs = xs
onto (some x) xs = x ∷ xs

unfoldable pub drained_rows : List Row → List DrainedRow
drained_rows [] = []
drained_rows (r ∷ rows) =
    onto (complete r.ledger_seq r.subject r.payload r.headers) (drained_rows rows)

abbrev text_pair : Text → Option Text → Option (Text × Text)
text_pair k none = none
text_pair k (some v) = some (k, v)

unfoldable pub header_pairs : Fields → Headers
unfolding as_str
header_pairs Json.end = []
header_pairs (Json.field k v fs) = onto (text_pair k (as_str v)) (header_pairs fs)

abbrev pairs_of : Option Fields → Headers
pairs_of none = []
pairs_of (some fs) = header_pairs fs

unfoldable pub json_to_header_pairs : Value → Headers
unfolding header_pairs as_object
json_to_header_pairs v = pairs_of (as_object v)

-- `i64::to_string`
abbrev pub decimal_i64 : ℤ → Text
decimal_i64 (pos n) = to_decimal n
decimal_i64 (negsuc n) = b'-' ∷ to_decimal (n + 1)

-- A failed enqueue is logged, and the client stays as it is.
abbrev pub or_keep : Client → Result Text Client → Client
or_keep c (ok d) = d
or_keep c (err _) = c

abbrev pub js_headers : DrainedRow → Headers
js_headers r =
    json_to_header_pairs r.headers ++ (codes "Nats-Msg-Id", decimal_i64 r.ledger_seq) ∷ []

abbrev pub publish_stream_row : Option Text → DrainedRow → Client → Client
publish_stream_row none r c = c
publish_stream_row (some _) r c = or_keep c (publish_js r.subject r.payload (js_headers r) c)

-- One round of the loop.
unfoldable pub publish_row : Option Text → DrainedRow → Client → Client
unfolding publish publish_js json_to_header_pairs
publish_row js_stream r c =
    publish_stream_row js_stream r
      (or_keep c (publish r.subject r.payload (json_to_header_pairs r.headers) c))

unfoldable pub publish_rows : Option Text → List DrainedRow → Client → Client
unfolding publish_row
publish_rows js_stream [] c = c
publish_rows js_stream (r ∷ rows) c = publish_rows js_stream rows (publish_row js_stream r c)

-- The count that is returned, and the client afterwards.
unfoldable pub drain_once : Result Text (List Row) → Option Text → Client → ℕ × Client
unfolding drained_rows publish_rows
drain_once (err _) js_stream c = (0, c)
drain_once (ok rows) js_stream c =
    (length (drained_rows rows), publish_rows js_stream (drained_rows rows) c)
