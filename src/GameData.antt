-- ===== src/GameData.antt =====
-- GameServer/GameData: the tables that the server reads from its JSON files, and the references
-- from their entries to the states. The JSON library, the reading of a file and the standard
-- library's `get_time` are the parameter `Json`; an int is the number of its 32-bit pattern, and
-- nothing here depends on the order of the keys of a map.
pub mod Table
pub mod Read
mod Links
pub mod Load
mod Tests
use Prim.Native.String.{String}
use bugat.Common.{ℕ, Bool, Option, none, some, List, [], ◌∷◌, map}
use bugat.GameData.Table.{Index, or_else, find, put}

-- `none` is an exception of the library: the text is no JSON, or the field is missing or is of
-- another type. `elements` is what a loop over the value runs over.
pub record Json : Type 1 where
  pub Value : Type 0
  pub Real : Type 0
  pub Text : Type 0
  pub Tm : Type 0
  pub parse : Text → Option Value
  pub at : Value → String → Option Value
  pub elements : Value → List Value
  pub get_int : Value → Option ℕ
  pub get_real : Value → Option Real
  pub get_text : Value → Option Text
  pub get_ints : Value → Option (List ℕ)
  pub get_bools : Value → Option (List Bool)
  pub get_texts : Value → Option (List Text)
  pub get_reals : Value → Option (List Real)
  pub get_time : Text → Tm

pub record Vec3 (Real : Type 0) : Type 0 where
  pub x : Real
  pub y : Real
  pub z : Real

-- A pointer to a state is its place among the states that were made, or null.
pub record State : Type 0 where
  pub id : ℕ
  pub kind : ℕ
  pub amount : ℕ

pub record Event (Tm : Type 0) : Type 0 where
  pub id : ℕ
  pub time : Tm
  pub amount : ℕ

pub record MonsterState : Type 0 where
  pub id : ℕ
  pub params : List (ℕ × Option ℕ)

pub record SpawnData (Text Real : Type 0) : Type 0 where
  pub id : ℕ
  pub name : Text
  pub pos : Vec3 Real
  pub states : List (ℕ × Option ℕ)
  pub switches : List Bool
  pub childs : List Text
  pub reals : List Real

-- `dataObj.Params[id] = nullptr` for every id
unfoldable pub null_refs : List ℕ → List (ℕ × Option ℕ) → List (ℕ × Option ℕ)
null_refs [] refs = refs
null_refs (id ∷ ids) refs = null_refs ids (put id none refs)

-- `value2 = find->second` for every reference whose state is there
abbrev pub link_ref : Index → ℕ × Option ℕ → ℕ × Option ℕ
link_ref states (id, p) = (id, or_else (find id states) p)

abbrev pub link_refs : Index → List (ℕ × Option ℕ) → List (ℕ × Option ℕ)
link_refs states refs = map (link_ref states) refs

abbrev pub link_params : Index → MonsterState → MonsterState
link_params states m = record m { params = link_refs states m.params }

abbrev pub link_states : {Text Real : Type 0} → Index → SpawnData Text Real → SpawnData Text Real
link_states states s = record s { states = link_refs states s.states }
