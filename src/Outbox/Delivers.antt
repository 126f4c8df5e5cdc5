-- ===== src/Outbox/Delivers.antt =====
-- What reaches the broker of the rows that were drained.
use pg_ck.Prelude.{
  ℕ, suc, ◌+◌, ◌≢◌, ◌⊎◌, inl, inr, subst, arith, ◌≡◌, refl, ◌∙◌, sym, ap, List, [], ◌∷◌, ◌++◌,
  Option, none, some, length, append_assoc,
}
use pg_ck.Prelude.Result.{Result, ok}
use pg_ck.Text.{Text, codes}
use pg_ck.Text.Utf8.{Bytes}
use pg_ck.Text.Decimal.{to_decimal}
use pg_ck.Prelude.Int.{ℤ, pos, negsuc}
use pg_ck.Json
use pg_ck.Json.{Value, Fields, as_str, as_object}
use pg_ck.Client.{
  Headers, IsRunning, Client, Cmd, publish_core, publish_stream, publish, publish_js, execute,
  run_client_thread,
}
use pg_ck.Client.{pushed}
use pg_ck.Client.Sent.{
  pushed_all, send-ok, pushed-IsRunning, pushed_all-IsRunning, pushed_all-queue, pushed_all-append,
}
use pg_ck.Outbox.{
  or_keep, publish_stream_row, Row, DrainedRow, complete, onto, drained_rows, header_pairs,
  decimal_i64, json_to_header_pairs, js_headers, publish_row, publish_rows, drain_once,
}

-- The text headers of a `headers` value: one for each entry of an object that holds a text, in the
-- order of the keys, and none for any other value.
pub data AreTexts : Fields → Headers → Type 0 where
  no_more : AreTexts Json.end []
  text :
      (k s : Text) {fs : Fields} {headers : Headers}
      → AreTexts fs headers
      → AreTexts (Json.field k (Json.string s) fs) ((k, s) ∷ headers)
  passed :
      (k : Text) (v : Value) {fs : Fields} {headers : Headers}
      → ((s : Text) → v ≢ Json.string s)
      → AreTexts fs headers
      → AreTexts (Json.field k v fs) headers

abbrev pub AreHeaders : Value → Headers → Type 0
AreHeaders (Json.object fs) headers = AreTexts fs headers
AreHeaders _ headers = headers ≡ []

-- `7` or `-7`, say.
abbrev pub IsNumeral : ℤ → Text → Type 0
IsNumeral (pos n) s = s ≡ to_decimal n
IsNumeral (negsuc n) s = s ≡ b'-' ∷ to_decimal (n + 1)

-- On the stream if one is configured now, for the drain, and was when the publisher's thread began.
abbrev pub on_stream : Option Text → Option Text → Text → Bytes → Headers → Text → List Cmd
on_stream (some now) (some first) subject payload headers id =
    publish_stream subject payload (headers ++ (codes "Nats-Msg-Id", id) ∷ []) ∷ []
on_stream _ _ subject payload headers id = []

-- A row with no column NULL, and what its columns mean.
pub record IsWhole (r : Row) (subject : Text) (payload : Bytes) (headers : Headers) (id : Text)
    : Type 0 where
  pub seq : ℤ
  pub value : Value
  pub has_seq : r.ledger_seq ≡ some seq
  pub has_subject : r.subject ≡ some subject
  pub has_payload : r.payload ≡ some payload
  pub has_headers : r.headers ≡ some value
  pub texts : AreHeaders value headers
  pub numeral : IsNumeral seq id

abbrev pub HasNull : Row → Type 0
HasNull r = (r.ledger_seq ≡ none) ⊎ (r.subject ≡ none) ⊎ (r.payload ≡ none) ⊎ (r.headers ≡ none)

-- What the broker gets of these rows, and how many of them are whole.
pub data Published (now first : Option Text) : List Row → ℕ → List Cmd → Type 0 where
  nothing : Published now first [] 0 []
  skipped :
      (r : Row) {rows : List Row} {n : ℕ} {cmds : List Cmd}
      → HasNull r
      → Published now first rows n cmds
      → Published now first (r ∷ rows) n cmds
  live :
      (r : Row) (subject : Text) (payload : Bytes) (headers : Headers) (id : Text) {rows : List Row}
      {n : ℕ} {cmds : List Cmd}
      → IsWhole r subject payload headers id
      → Published now first rows n cmds
      → Published now first (r ∷ rows) (suc n) (
          publish_core subject payload headers ∷ on_stream now first subject payload headers id
          ++ cmds)

header_pairs-AreTexts : (fs : Fields) → AreTexts fs (header_pairs fs)
unfolding header_pairs as_str
header_pairs-AreTexts Json.end = no_more
header_pairs-AreTexts (Json.field k (Json.string s) fs) = text k s (header_pairs-AreTexts fs)
header_pairs-AreTexts (Json.field k v fs) =
    passed k v (λ s e. absurd (ground (arith, e))) (header_pairs-AreTexts fs)

json_to_header_pairs-AreHeaders : (v : Value) → AreHeaders v (json_to_header_pairs v)
unfolding json_to_header_pairs as_object
json_to_header_pairs-AreHeaders (Json.object fs) = header_pairs-AreTexts fs
json_to_header_pairs-AreHeaders _ = refl

decimal_i64-IsNumeral : (a : ℤ) → IsNumeral a (decimal_i64 a)
decimal_i64-IsNumeral (pos n) = refl
decimal_i64-IsNumeral (negsuc n) = refl

-- The commands that one row gives.
abbrev queued : Option Text → DrainedRow → List Cmd
queued none r = publish_core r.subject r.payload (json_to_header_pairs r.headers) ∷ []
queued (some _) r =
    publish_core r.subject r.payload (json_to_header_pairs r.headers)
    ∷ publish_stream r.subject r.payload (js_headers r)
    ∷ []

abbrev all_queued : Option Text → List DrainedRow → List Cmd
all_queued now [] = []
all_queued now (r ∷ rows) = queued now r ++ all_queued now rows

publish_row-pushed :
    (now : Option Text) (r : DrainedRow) (c : Client)
    → IsRunning c
    → publish_row now r c ≡ pushed_all (queued now r) c
unfolding publish_row publish publish_js
publish_row-pushed none r c h = ap (or_keep c) (send-ok _ _ c h)
publish_row-pushed (some js) r c h =
    let core = publish_core r.subject r.payload (json_to_header_pairs r.headers) in
    ap (λ (x : Result Text Client). publish_stream_row (some js) r (or_keep c x))
      (send-ok _ core c h)
    ∙ ap (or_keep (pushed core c)) (send-ok _ _ (pushed core c) (pushed-IsRunning core c h))

publish_rows-pushed :
    (now : Option Text) (rows : List DrainedRow) (c : Client)
    → IsRunning c
    → publish_rows now rows c ≡ pushed_all (all_queued now rows) c
unfolding publish_rows
publish_rows-pushed now [] c h = refl
publish_rows-pushed now (r ∷ rows) c h =
    ap (publish_rows now rows) (publish_row-pushed now r c h)
    ∙ publish_rows-pushed now rows (pushed_all (queued now r) c)
        (pushed_all-IsRunning (queued now r) c h)
    ∙ sym (pushed_all-append (queued now r) (all_queued now rows) c)

pub run_client_thread-append :
    (js : Option Text) (xs ys : List Cmd)
    → run_client_thread js (xs ++ ys) ≡ run_client_thread js xs ++ run_client_thread js ys
unfolding run_client_thread
run_client_thread-append js [] ys = refl
run_client_thread-append js (x ∷ xs) ys =
    ap (λ (l : List Cmd). execute js x ++ l) (run_client_thread-append js xs ys)
    ∙ sym (append_assoc (execute js x) (run_client_thread js xs) (run_client_thread js ys))

-- What the thread hands on of one row.
run_client_thread-queued :
    (now first : Option Text) (r : DrainedRow)
    → run_client_thread first (queued now r)
      ≡ publish_core r.subject r.payload (json_to_header_pairs r.headers)
        ∷ on_stream now first r.subject r.payload
            (json_to_header_pairs r.headers)
            (decimal_i64 r.ledger_seq)
unfolding run_client_thread execute
run_client_thread-queued none first r = refl
run_client_thread-queued (some now) none r = refl
run_client_thread-queued (some now) (some first) r = refl

-- The row that is drained, and the rest.
Published-whole :
    (now first : Option Text) (r : DrainedRow) (row : Row) {rows : List Row} {n : ℕ}
    (later : List Cmd)
    → row.ledger_seq ≡ some r.ledger_seq
    → row.subject ≡ some r.subject
    → row.payload ≡ some r.payload
    → row.headers ≡ some r.headers
    → Published now first rows n (run_client_thread first later)
    → Published now first (row ∷ rows) (suc n) (run_client_thread first (queued now r ++ later))
Published-whole now first r row later seq subject payload headers rest =
    subst (Published now first (row ∷ _) _)
      (sym (
        run_client_thread-append first (queued now r) later
        ∙ ap (λ (l : List Cmd). l ++ run_client_thread first later)
            (run_client_thread-queued now first r)))
      (live row r.subject r.payload (json_to_header_pairs r.headers) (decimal_i64 r.ledger_seq)
        (record {
          seq = r.ledger_seq;
          value = r.headers;
          has_seq = seq;
          has_subject = subject;
          has_payload = payload;
          has_headers = headers;
          texts = json_to_header_pairs-AreHeaders r.headers;
          numeral = decimal_i64-IsNumeral r.ledger_seq;
        })
        rest)

row-Published :
    (now first : Option Text) (row : Row) (rows : List Row) (seq : Option ℤ) (subject : Option Text)
    (payload : Option Bytes) (headers : Option Value)
    → row.ledger_seq ≡ seq
    → row.subject ≡ subject
    → row.payload ≡ payload
    → row.headers ≡ headers
    → Published now first rows
        (length (drained_rows rows))
        (run_client_thread first (all_queued now (drained_rows rows)))
    → Published now first
        (row ∷ rows)
        (length (onto (complete seq subject payload headers) (drained_rows rows)))
        (run_client_thread first
          (all_queued now (onto (complete seq subject payload headers) (drained_rows rows))))
row-Published now first row rows (some ls) (some s) (some p) (some h) e1 e2 e3 e4 rest =
    Published-whole now first (record { ledger_seq = ls; subject = s; payload = p; headers = h })
      row _ e1 e2 e3 e4 rest
row-Published now first row rows none _ _ _ e1 e2 e3 e4 rest = skipped row (inl e1) rest
row-Published now first row rows (some _) none _ _ e1 e2 e3 e4 rest =
    skipped row (inr (inl e2)) rest
row-Published now first row rows (some _) (some _) none _ e1 e2 e3 e4 rest =
    skipped row (inr (inr (inl e3))) rest
row-Published now first row rows (some _) (some _) (some _) none e1 e2 e3 e4 rest =
    skipped row (inr (inr (inr e4))) rest

drained_rows-Published :
    (now first : Option Text) (rows : List Row)
    → Published now first rows
        (length (drained_rows rows))
        (run_client_thread first (all_queued now (drained_rows rows)))
unfolding drained_rows run_client_thread
drained_rows-Published now first [] = nothing
drained_rows-Published now first (row ∷ rows) =
    row-Published now first row rows row.ledger_seq row.subject row.payload row.headers refl refl
      refl refl (drained_rows-Published now first rows)

-- With a client that runs, a drain whose query succeeds counts the rows with no column NULL, and the
-- client's thread then publishes, behind the commands that waited, each of these rows once and in the
-- order of the query: live with its text headers, and, exactly if a stream is configured now and was
-- when the thread began, then also on the stream, with its text headers and `Nats-Msg-Id` set to the
-- row's ledger sequence in decimal.
pub drain_once-messages :
    (rows : List Row) (now first : Option Text) (c : Client)
    → IsRunning c
    → (cmds : List Cmd) × Published now first rows (drain_once (ok rows) now c).0 cmds
      × (run_client_thread first (drain_once (ok rows) now c).1.queue
          ≡ run_client_thread first c.queue ++ cmds)
unfolding drain_once
drain_once-messages rows now first c h = (
  run_client_thread first (all_queued now (drained_rows rows)),
  drained_rows-Published now first rows,
  ap (λ (d : Client). run_client_thread first d.queue)
        (publish_rows-pushed now (drained_rows rows) c h)
      ∙ ap (run_client_thread first) (pushed_all-queue (all_queued now (drained_rows rows)) c)
      ∙ run_client_thread-append first c.queue (all_queued now (drained_rows rows)),
)
