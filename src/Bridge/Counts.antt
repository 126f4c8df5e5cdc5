-- ===== src/Bridge/Counts.antt =====
-- Counting what a worker has done.
use pg_ck.Prelude.{ℕ, suc, ◌+◌, ◌≡◌, List, [], ◌∷◌, ◌++◌, arith}
use pg_ck.Worker.{
  Effect, relay_started, publisher_started, server_spawned, inbound_drained, outbox_drained,
  materialized, orbited,
}

-- How often the embedded server was spawned.
abbrev pub servers : List Effect → ℕ
servers [] = 0
servers (server_spawned ∷ es) = suc (servers es)
servers (relay_started _ _ ∷ es) = servers es
servers (publisher_started _ _ ∷ es) = servers es
servers (inbound_drained ∷ es) = servers es
servers (outbox_drained ∷ es) = servers es
servers (materialized ∷ es) = servers es
servers (orbited ∷ es) = servers es

-- How often the worker turned to the outside broker: connections and the queues behind them.
abbrev pub dialled : List Effect → ℕ
dialled [] = 0
dialled (relay_started _ _ ∷ es) = suc (dialled es)
dialled (publisher_started _ _ ∷ es) = suc (dialled es)
dialled (inbound_drained ∷ es) = suc (dialled es)
dialled (outbox_drained ∷ es) = suc (dialled es)
dialled (server_spawned ∷ es) = dialled es
dialled (materialized ∷ es) = dialled es
dialled (orbited ∷ es) = dialled es

pub servers-append : (xs ys : List Effect) → servers (xs ++ ys) ≡ servers xs + servers ys
servers-append [] ys = omega arith
servers-append (server_spawned ∷ xs) ys = omega (arith, servers-append xs ys)
servers-append (relay_started _ _ ∷ xs) ys = servers-append xs ys
servers-append (publisher_started _ _ ∷ xs) ys = servers-append xs ys
servers-append (inbound_drained ∷ xs) ys = servers-append xs ys
servers-append (outbox_drained ∷ xs) ys = servers-append xs ys
servers-append (materialized ∷ xs) ys = servers-append xs ys
servers-append (orbited ∷ xs) ys = servers-append xs ys

pub dialled-append : (xs ys : List Effect) → dialled (xs ++ ys) ≡ dialled xs + dialled ys
dialled-append [] ys = omega arith
dialled-append (relay_started _ _ ∷ xs) ys = omega (arith, dialled-append xs ys)
dialled-append (publisher_started _ _ ∷ xs) ys = omega (arith, dialled-append xs ys)
dialled-append (inbound_drained ∷ xs) ys = omega (arith, dialled-append xs ys)
dialled-append (outbox_drained ∷ xs) ys = omega (arith, dialled-append xs ys)
dialled-append (server_spawned ∷ xs) ys = dialled-append xs ys
dialled-append (materialized ∷ xs) ys = dialled-append xs ys
dialled-append (orbited ∷ xs) ys = dialled-append xs ys
