-- ===== src/GameData/Tests.antt =====
-- Files of GameServer/GameData with two states of one id, and a reference to a state that is not
-- there.
use Prim.Native.String.{String}
use text.Mathlib.Text.{◌==◌}
use bugat.Common.{ℕ, zero, suc, ◌≡◌, refl, Option, none, some, List, [], ◌∷◌, if◌then◌else◌, ltb}
use bugat.GameData.{Json, null_refs}
use bugat.GameData.Links.{new_data, read_files}
use bugat.GameData.Load.{Answers, load-Answers}
use bugat.GameData.Read.{load}
use bugat.GameData.Table.{
  put, map_option, object_at, find, emplace, insert_all, update_at, update_all, load_items,
}

-- A value of the files: an entry with its id and the ids that it refers to, or a part of one.
data Doc : Type 0 where
  file : ℕ → Doc
  num : ℕ → Doc
  nums : List ℕ → Doc
  row : ℕ → List ℕ → Doc

unfoldable field : Doc → String → Option Doc
field (row i ids) key =
    if key == "ID" then some (num i) else if key == "Params" then some (nums ids) else some (num 7)
field d key = none

abbrev rows : Doc → List Doc
rows (file zero) = row 4 [] ∷ row 5 [] ∷ row 4 [] ∷ []
rows (file (suc n)) = row 1 (5 ∷ 9 ∷ []) ∷ []
rows d = []

-- A text is the number of its file; only the spawns are no JSON.
abbrev docs : Json
docs = record {
  Value = Doc;
  Real = ℕ;
  Text = ℕ;
  Tm = ℕ;
  parse = λ t. if ltb t 2 then some (file t) else none;
  at = field;
  elements = rows;
  get_int = λ d. elim d [ file t ↦ none | num n ↦ some n | nums ids ↦ none | row i ids ↦ none ];
  get_real = λ d. none;
  get_text = λ d. none;
  get_ints = λ d. elim d [ file t ↦ none | num n ↦ none | nums ids ↦ some ids | row i ids ↦ none ];
  get_bools = λ d. none;
  get_texts = λ d. none;
  get_reals = λ d. none;
  get_time = λ t. t;
}

abbrev files : String → Option ℕ
files name =
    if name == "/State.json" then some 0 else if name == "/MonsterState.json" then some 1 else none

-- The reference to 5 leads to the second state that was made, and that to 9 stays null.
monster_loaded :
    map_option (λ d. object_at d.made_monsters d.monsters 1) (load docs files (new_data docs))
    ≡ some (some (record { id = 1; params = (5, some 1) ∷ (9, none) ∷ [] }))
unfolding load_items find emplace insert_all update_at update_all null_refs put field
monster_loaded = refl

load-Answers_example : Answers docs (load docs files (new_data docs)) (read_files docs files)
load-Answers_example = load-Answers docs files
