-- ===== src/Drains.antt =====
-- src/materialize_drain.rs and src/orbit_drain.rs: the two drains that one SQL function each carries out.
-- What the query returns is an argument: an error, or the rows with their one column.
use pg_ck.Prelude.{ℕ, ◌+◌, ◌-◌, ◌^◌, List, [], ◌∷◌, Option, none, some}
use pg_ck.Prelude.Int.{ℤ, pos, negsuc}
use pg_ck.Prelude.Result.{Result, ok, err}
use pg_ck.Text.{Text}

-- `v.unwrap_or(0)`
abbrev or_zero : Option ℤ → ℤ
or_zero none = pos 0
or_zero (some v) = v

-- The loop over the rows: the last one counts.
unfoldable pub last_count : List (Option ℤ) → ℤ → ℤ
last_count [] n = n
last_count (v ∷ rows) n = last_count rows (or_zero v)

-- `n as usize`, with 64 bits.
abbrev pub as_usize : ℤ → ℕ
as_usize (pos n) = n
as_usize (negsuc n) = 2 ^ 64 - (n + 1)

unfoldable pub materialize_drain_once : Result Text (List (Option ℤ)) → ℕ
unfolding last_count
materialize_drain_once (ok rows) = as_usize (last_count rows (pos 0))
materialize_drain_once (err _) = 0

unfoldable pub orbit_drain_once : Result Text (List (Option ℤ)) → ℕ
unfolding last_count
orbit_drain_once (ok rows) = as_usize (last_count rows (pos 0))
orbit_drain_once (err _) = 0
