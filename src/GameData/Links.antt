-- ===== src/GameData/Links.antt =====
-- What `StaticData::Load` of GameServer/GameData loads.
use Prim.Native.String.{String}
use bugat.Common.{ℕ, ◌≡◌, refl, ap, ap₂, ◌∙◌, Option, none, some, List, [], ◌∷◌, map, get_elem?}
use bugat.GameData.Read.{
  StaticData, state_from_json, event_from_json, monster_from_json, spawn_from_json,
}
use bugat.GameData.Table.First.{
  first, first_at, add_all, read_items, find-add_all, find-insert_all, get-first_at,
}
use bugat.GameData.Table.Update.{object_at-update_all}
use bugat.GameData.Table.{
  ◌>>=◌, map_option, or_else, find, insert_all, update_all, Index, object_at,
}
use bugat.GameData.{Json, State, Event, MonsterState, SpawnData, link_ref, link_refs}

-- The entries of the four files, in their order.
pub record Files (J : Json) : Type 0 where
  pub events : List (Event J.Tm)
  pub spawns : List (SpawnData J.Text J.Real)
  pub monsters : List MonsterState
  pub states : List State

abbrev pub new_data : (J : Json) → StaticData J
new_data J = record {
  made_events = [];
  made_spawns = [];
  made_monsters = [];
  made_states = [];
  events = [];
  spawns = [];
  monsters = [];
  states = [];
}

-- A reference leads to the first state with its id; without one it stays as it was read.
abbrev pub point : List State → ℕ × Option ℕ → ℕ × Option ℕ
point ts (id, p) = (id, or_else (first_at (λ t. t.id) id 0 ts) p)

abbrev pub point_spawn :
    {Text Real : Type 0} → List State → SpawnData Text Real → SpawnData Text Real
point_spawn ts s = record s { states = map (point ts) s.states }

abbrev pub point_monster : List State → MonsterState → MonsterState
point_monster ts m = record m { params = map (point ts) m.params }

link_ref-point :
    (ts : List State) (x : ℕ × Option ℕ) → link_ref (add_all (λ t. t.id) ts 0 []) x ≡ point ts x
unfolding find
link_ref-point ts (id, p) = ap (λ o. (id, or_else o p)) (find-add_all (λ t. t.id) id ts 0 [])

pub link_refs-point :
    (ts : List State) (xs : List (ℕ × Option ℕ))
    → link_refs (add_all (λ t. t.id) ts 0 []) xs ≡ map (point ts) xs
link_refs-point ts [] = refl
link_refs-point ts (x ∷ xs) = ap₂ ◌∷◌ (link_ref-point ts x) (link_refs-point ts xs)

or_else_twice : (o p : Option ℕ) → or_else o (or_else o p) ≡ or_else o p
or_else_twice none p = refl
or_else_twice (some q) p = refl

link_twice : (m : Index) (x : ℕ × Option ℕ) → link_ref m (link_ref m x) ≡ link_ref m x
link_twice m (id, p) = ap (λ o. (id, o)) (or_else_twice (find id m) p)

pub links_twice :
    (m : Index) (xs : List (ℕ × Option ℕ)) → link_refs m (link_refs m xs) ≡ link_refs m xs
links_twice m [] = refl
links_twice m (x ∷ xs) = ap₂ ◌∷◌ (link_twice m x) (links_twice m xs)

-- The map of the items, once they are inserted into an empty one.
pub table_find :
    {A : Type 0} (id_of : A → ℕ) (k : ℕ) (xs : List A)
    → find k (insert_all (add_all id_of xs 0 []) []) ≡ first_at id_of k 0 xs
unfolding find
table_find id_of k xs = find-insert_all k (add_all id_of xs 0 []) [] ∙ find-add_all id_of k xs 0 []

pub table_object :
    {A : Type 0} (id_of : A → ℕ) (k : ℕ) (xs : List A)
    → object_at xs (insert_all (add_all id_of xs 0 []) []) k ≡ first id_of k xs
table_object id_of k xs =
    ap (λ o. o >>= λ p. get_elem? xs p) (table_find id_of k xs) ∙ get-first_at id_of k [] xs

pub table_update :
    {A : Type 0} (id_of : A → ℕ) (f : A → A)
    → ((x : A) → f (f x) ≡ f x)
    → (k : ℕ) (xs : List A)
    → object_at (update_all f (add_all id_of xs 0 []) xs) (insert_all (add_all id_of xs 0 []) []) k
      ≡ map_option f (first id_of k xs)
unfolding find
table_update id_of f idem k xs =
    let m = add_all id_of xs 0 [] in
    ap (λ o. o >>= λ p. get_elem? (update_all f m xs) p) (find-insert_all k m [])
    ∙ (object_at-update_all f idem k m xs
        ∙ (ap (λ o. map_option f (o >>= λ p. get_elem? xs p)) (find-add_all id_of k xs 0 [])
            ∙ ap (map_option f) (get-first_at id_of k [] xs)))

-- What one file holds.
abbrev pub read_text :
    {A : Type 0} (J : Json) → (J.Value → Option A) → Option J.Text → Option (List A)
read_text J from none = some []
read_text J from (some text) = J.parse text >>= λ j. read_items from (J.elements j)

-- The four files are read, or an entry of one of them cannot be.
abbrev pub read_files : (J : Json) → (String → Option J.Text) → Option (Files J)
read_files J files = do
  es ← read_text J (event_from_json J) (files "/Event.json")
  ss ← read_text J (spawn_from_json J) (files "/SpawnData.json")
  ms ← read_text J (monster_from_json J) (files "/MonsterState.json")
  ts ← read_text J (state_from_json J) (files "/State.json")
  some (record { events = es; spawns = ss; monsters = ms; states = ts })
