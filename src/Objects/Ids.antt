-- ===== src/Objects/Ids.antt =====
-- The order of the ids of Base/ObjectId.h.
use bugat.Common.{ℕ, ◌+◌, ◌≤◌, ◌≡◌, true, not, List, [], ◌∷◌, if◌then◌else◌}
use bugat.Objects.{ObjectId, new_id, eq_id, lt_id, ne_id, gt_id}

-- Exactly one of `<`, `==` and `>` holds of two ids, and `!=` is the negation of `==`.
abbrev pub Trichotomy : ObjectId → ObjectId → Type 0
Trichotomy a b =
    ((if lt_id a b then 1 else 0) + (if eq_id a b then 1 else 0) + (if gt_id a b then 1 else 0) ≡ 1)
    × (ne_id a b ≡ not (eq_id a b))
    × (gt_id a b ≡ lt_id b a)

-- The ids that are made at these times, from a global count on.
abbrev pub make_ids : List ℕ → ℕ → List ObjectId
make_ids [] global_count = []
make_ids (now ∷ times) global_count =
    let (id, next_count) = new_id now global_count in id ∷ make_ids times next_count

-- Each is smaller than all that follow.
abbrev pub BelowAll : ObjectId → List ObjectId → Type 0
BelowAll a [] = Unit
BelowAll a (b ∷ bs) = (lt_id a b ≡ true) × BelowAll a bs

abbrev pub Increasing : List ObjectId → Type 0
Increasing [] = Unit
Increasing (a ∷ ids) = BelowAll a ids × Increasing ids

abbrev pub NotBefore : ℕ → List ℕ → Type 0
NotBefore now [] = Unit
NotBefore now (t ∷ times) = (now ≤ t) × NotBefore t times
