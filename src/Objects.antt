-- ===== src/Objects.antt =====
-- Base/ObjectId.h and Base/ObjectManager.h: ids that are ordered by time and count, and objects
-- in maps that are selected by a hash. An object is a number, and a key is compared by `==`.
pub mod Ids
pub mod Manager
mod Tests
use bugat.Common.{
  ℕ, zero, suc, ◌+◌, ◌%◌, ◌^◌, Bool, true, false, not, ◌&&◌, ◌||◌, Option, none, some, List, [],
  ◌∷◌, ltb, ◌==◌, get_elem?, replicate, if◌then◌else◌,
}

pub record ObjectId : Type 0 where
  pub timestamp : ℕ
  pub count : ℕ

-- `ObjectId()`, at a time and with the global count, which it increments.
abbrev pub new_id : ℕ → ℕ → ObjectId × ℕ
new_id now_sec global_count =
    (record { timestamp = now_sec; count = global_count }, (global_count + 1) % 2 ^ 64)

abbrev pub eq_id : ObjectId → ObjectId → Bool
eq_id a b = (a.timestamp == b.timestamp) && (a.count == b.count)

abbrev pub lt_id : ObjectId → ObjectId → Bool
lt_id a b =
    if not (a.timestamp == b.timestamp) then ltb a.timestamp b.timestamp else ltb a.count b.count

abbrev pub ne_id : ObjectId → ObjectId → Bool
ne_id a b = not (a.timestamp == b.timestamp) || not (a.count == b.count)

abbrev pub gt_id : ObjectId → ObjectId → Bool
gt_id a b =
    if not (a.timestamp == b.timestamp) then ltb b.timestamp a.timestamp else ltb b.count a.count

-- The `std::map` of an `ObjectAgent`, as the list of its entries.
pub record Entry : Type 0 where
  pub key : ℕ
  pub object : ℕ

unfoldable pub find_entry : ℕ → List Entry → Option ℕ
find_entry key [] = none
find_entry key (e ∷ es) =
    let rest = find_entry key es in if e.key == key then some e.object else rest

unfoldable pub erase : ℕ → List Entry → List Entry
erase key [] = []
erase key (e ∷ es) = let rest = erase key es in if e.key == key then rest else e ∷ rest

-- `ObjectAgent::Add`: `emplace` leaves an entry that is there.
unfoldable pub agent_add : ℕ → ℕ → List Entry → List Entry × Bool
agent_add key object es = elim (find_entry key es) [
  | none ↦ (record { key = key; object = object } ∷ es, true)
  | some found ↦ (es, false)
]

-- What a caller sees of `Add`, `Del` and `Find`.
pub data Answer : Type 0 where
  added : Bool → Answer
  deleted : Answer
  found : Option ℕ → Answer

pub data Request : Type 0 where
  add : (key object : ℕ) → Request
  del : (key : ℕ) → Request
  find : (key : ℕ) → Request

abbrev pub key_of : Request → ℕ
key_of (add key object) = key
key_of (del key) = key
key_of (find key) = key

unfoldable pub ask_agent : Request → List Entry → List Entry × Answer
ask_agent (add key object) es = let (es', result) = agent_add key object es in (es', added result)
ask_agent (del key) es = (erase key es, deleted)
ask_agent (find key) es = (es, found (find_entry key es))

abbrev pub put_agent : List (List Entry) → ℕ → List Entry → List (List Entry)
put_agent [] i es = []
put_agent (a ∷ as') zero es = es ∷ as'
put_agent (a ∷ as') (suc i) es = a ∷ put_agent as' i es

module _ (hash : ℕ → ℕ → ℕ) (agent_count : ℕ) where
  -- `GetAgent(key)` and the call; `none` where the hash is out of range.
  unfoldable pub ask : Request → List (List Entry) → Option (List (List Entry) × Answer)
  ask r agents =
      let idx = hash (key_of r) agent_count in
      elim (get_elem? agents idx) [
        | none ↦ none
        | some es ↦ let (es', answer) = ask_agent r es in some (put_agent agents idx es', answer)
      ]

  unfoldable pub ask_all : List Request → List (List Entry) → Option (List Answer)
  ask_all [] agents = some []
  ask_all (r ∷ rs) agents = elim (ask r agents) [
    | none ↦ none
    | some (agents', answer) ↦ elim (ask_all rs agents') [
      | none ↦ none
      | some answers ↦ some (answer ∷ answers)
    ]
  ]

abbrev pub new_agents : ℕ → List (List Entry)
new_agents agent_count = replicate agent_count []
