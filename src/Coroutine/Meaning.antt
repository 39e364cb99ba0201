-- ===== src/Coroutine/Meaning.antt =====
-- What the bodies of Base/AwaitTask.h mean as plain functions: a `co_await` is a call.
use bugat.Common.{ℕ, ◌+◌, Option, none, some, List, [], ◌∷◌, ◌++◌}
use bugat.Coroutine.{Body, returns, notes, yields, awaits, awaits_void}

-- What the call returns.
unfoldable pub value : Body → ℕ
value (returns v) = v
value (notes n b) = value b
value (yields s b) = value b
value (awaits x b k) = value (k (value b))
value (awaits_void x b rest) = value rest

-- A coroutine without an executor runs on that of its caller.
abbrev pub runs_on : ℕ → Option ℕ → ℕ
runs_on e none = e
runs_on e (some x) = x

-- The work in its order, and the executor that each piece is done on.
unfoldable pub trace : ℕ → Body → List (ℕ × ℕ)
trace e (returns v) = []
trace e (notes n b) = (e, n) ∷ trace e b
trace e (yields s b) = trace s b
trace e (awaits x b k) = trace (runs_on e x) b ++ trace e (k (value b))
trace e (awaits_void x b rest) = trace (runs_on e x) b ++ trace e rest

abbrev pub start_cost : Option ℕ → ℕ
start_cost none = 0
start_cost (some x) = 1

-- How many tasks resume the coroutine or one that it awaits, behind the first.
unfoldable pub cost : Body → ℕ
cost (returns v) = 0
cost (notes n b) = cost b
cost (yields s b) = 1 + cost b
cost (awaits x b k) = start_cost x + cost b + (1 + cost (k (value b)))
cost (awaits_void x b rest) = start_cost x + cost b + (1 + cost rest)
