-- ===== src/Objects/Tests.antt =====
-- Runs of Base/ObjectId.h and Base/ObjectManager.h.
use bugat.Common.{ℕ, ◌%◌, ◌≡◌, some, none, true, false, List, [], ◌∷◌, arith}
use bugat.Objects.Manager.{ask_all-answers}
use bugat.Objects.{ObjectId, Request, added, deleted, found, ask_all, new_agents}

abbrev early_id : ObjectId
early_id = record { timestamp = 5; count = 9 }

abbrev late_id : ObjectId
late_id = record { timestamp = 6; count = 0 }

-- Keys 1 and 4 have the same agent of three.
abbrev requests : List Request
requests =
    Request.add 1 100
    ∷ Request.add 4 400
    ∷ Request.add 1 101
    ∷ Request.find 1
    ∷ Request.del 1
    ∷ Request.find 1
    ∷ Request.find 4
    ∷ []

abbrev modulo : ℕ → ℕ → ℕ
modulo key count = key % count

ask_all-answers_example :
    ask_all modulo 3 requests (new_agents 3)
    ≡ some (
        added true
        ∷ added true
        ∷ added false
        ∷ found (some 100)
        ∷ deleted
        ∷ found none
        ∷ found (some 400)
        ∷ [])
ask_all-answers_example = ask_all-answers modulo 3 requests (λ key. omega arith)
