-- ===== src/GameData/Load.antt =====
-- `StaticData::Load` of GameServer/GameData against the files that it reads.
use Prim.Native.String.{String}
use bugat.Common.{ℕ, ◌≡◌, refl, sym, ap, subst, ap₂, ◌∙◌, Option, none, some, List, [], append-nil}
use bugat.GameData.Links.{
  Files, new_data, point_spawn, point_monster, link_refs-point, links_twice, table_find,
  table_object, table_update, read_text, read_files,
}
use bugat.GameData.Read.{
  StaticData, state_from_json, event_from_json, monster_from_json, spawn_from_json, load_text,
  load_monsters, load_states, finish, load,
}
use bugat.GameData.Table.First.{first, first_at, add_all, read_items, loaded, load_items-read_items}
use bugat.GameData.Table.{◌>>=◌, map_option, find, Index, load_items, object_at}
use bugat.GameData.{Json, MonsterState, SpawnData, link_params, link_states}

load_parsed :
    {V A : Type 0} (from : V → Option A) (id_of : A → ℕ) (o : Option V) (elements : V → List V)
    (made : List A) (m : Index)
    → (o >>= λ j. load_items from id_of (elements j) made m)
      ≡ map_option (loaded id_of made m) (o >>= λ j. read_items from (elements j))
load_parsed from id_of none elements made m = refl
load_parsed from id_of (some j) elements made m =
    load_items-read_items id_of from (elements j) made m

load_text-read_text :
    {A : Type 0} (J : Json) (from : J.Value → Option A) (id_of : A → ℕ) (o : Option J.Text)
    (made : List A) (m : Index)
    → load_text J from id_of o made m ≡ map_option (loaded id_of made m) (read_text J from o)
unfolding add_all
load_text-read_text J from id_of none made m = ap (λ ys. some (ys, m)) (sym (append-nil made))
load_text-read_text J from id_of (some text) made m =
    load_parsed from id_of (J.parse text) J.elements made m

-- The maps of the files, with their links.
abbrev made_of : (J : Json) → (String → Option J.Text) → StaticData J → Files J → StaticData J
made_of J files d f =
    finish J files d (loaded (λ e. e.id) d.made_events [] f.events)
      (loaded (λ s. s.id) d.made_spawns [] f.spawns)
      (loaded (λ m. m.id) d.made_monsters [] f.monsters)
      (loaded (λ t. t.id) d.made_states [] f.states)

abbrev four :
    {A B C D R : Type 0}
    → Option A
    → Option B
    → Option C
    → Option D
    → (A → B → C → D → R)
    → Option R
four a b c d f = do x ← a; y ← b; z ← c; u ← d; some (f x y z u)

four-map :
    {A B C D A' B' C' D' R : Type 0} (f : A' → B' → C' → D' → R) (g : A → A') (h : B → B')
    (k : C → C') (l : D → D') (a : Option A) (b : Option B) (c : Option C) (d : Option D)
    → four (map_option g a) (map_option h b) (map_option k c) (map_option l d) f
      ≡ four a b c d (λ x y z u. f (g x) (h y) (k z) (l u))
four-map f g h k l none b c d = refl
four-map f g h k l (some x) none c d = refl
four-map f g h k l (some x) (some y) none d = refl
four-map f g h k l (some x) (some y) (some z) none = refl
four-map f g h k l (some x) (some y) (some z) (some u) = refl

map_option-four :
    {A B C D Q R : Type 0} (m : Q → R) (f : A → B → C → D → Q) (a : Option A) (b : Option B)
    (c : Option C) (d : Option D)
    → four a b c d (λ x y z u. m (f x y z u)) ≡ map_option m (four a b c d f)
map_option-four m f none b c d = refl
map_option-four m f (some x) none c d = refl
map_option-four m f (some x) (some y) none d = refl
map_option-four m f (some x) (some y) (some z) none = refl
map_option-four m f (some x) (some y) (some z) (some u) = refl

load-read_files :
    (J : Json) (files : String → Option J.Text) (d : StaticData J)
    → load J files d ≡ map_option (made_of J files d) (read_files J files)
load-read_files J files d =
    let fin = finish J files d in
    let e =
      load_text-read_text J (event_from_json J) (λ e. e.id) (files "/Event.json") d.made_events
        [] in
    let s =
      load_text-read_text J (spawn_from_json J) (λ s. s.id) (files "/SpawnData.json") d.made_spawns
        [] in
    let m =
      load_text-read_text J (monster_from_json J) (λ m. m.id) (files "/MonsterState.json")
        d.made_monsters [] in
    let t =
      load_text-read_text J (state_from_json J) (λ t. t.id) (files "/State.json") d.made_states
        [] in
    let es = read_text J (event_from_json J) (files "/Event.json") in
    let ss = read_text J (spawn_from_json J) (files "/SpawnData.json") in
    let ms = read_text J (monster_from_json J) (files "/MonsterState.json") in
    let ts = read_text J (state_from_json J) (files "/State.json") in
    let at_e = loaded (λ e. e.id) d.made_events [] in
    let at_s = loaded (λ s. s.id) d.made_spawns [] in
    let at_m = loaded (λ m. m.id) d.made_monsters [] in
    let at_t = loaded (λ t. t.id) d.made_states [] in
    ap₂
      (λ a b.
        four a b (load_monsters J files d.made_monsters []) (load_states J files d.made_states [])
          fin)
      e s
    ∙ (ap₂ (λ a b. four (map_option at_e es) (map_option at_s ss) a b fin) m t
        ∙ (four-map fin at_e at_s at_m at_t es ss ms ts
            ∙ map_option-four (made_of J files d)
                (λ x y z u. record { events = x; spawns = y; monsters = z; states = u }) es ss ms
                ts))

-- What the maps hold when the files hold `f`.
pub record Holds (J : Json) (f : Files J) (d : StaticData J) : Type 0 where
  pub events : (k : ℕ) → object_at d.made_events d.events k ≡ first (λ e. e.id) k f.events
  pub states : (k : ℕ) → object_at d.made_states d.states k ≡ first (λ t. t.id) k f.states
  pub places : (k : ℕ) → find k d.states ≡ first_at (λ t. t.id) k 0 f.states
  pub spawns :
      (k : ℕ)
      → object_at d.made_spawns d.spawns k
        ≡ map_option (point_spawn f.states) (first (λ s. s.id) k f.spawns)
  pub monsters :
      (k : ℕ)
      → object_at d.made_monsters d.monsters k
        ≡ map_option (point_monster f.states) (first (λ m. m.id) k f.monsters)

abbrev spawn_with : {T R : Type 0} → SpawnData T R → List (ℕ × Option ℕ) → SpawnData T R
spawn_with s refs = record s { states = refs }

abbrev monster_with : MonsterState → List (ℕ × Option ℕ) → MonsterState
monster_with m refs = record m { params = refs }

map_option_same :
    {A B : Type 0} (f g : A → B)
    → ((a : A) → f a ≡ g a)
    → (o : Option A) → map_option f o ≡ map_option g o
map_option_same f g same none = refl
map_option_same f g same (some a) = ap some (same a)

made_of-Holds :
    (J : Json) (files : String → Option J.Text) (f : Files J)
    → Holds J f (made_of J files (new_data J) f)
made_of-Holds J files f = record {
  events = λ k. table_object (λ e. e.id) k f.events;
  states = λ k. table_object (λ t. t.id) k f.states;
  places = λ k. table_find (λ t. t.id) k f.states;
  spawns = λ k.
      table_update (λ s. s.id) (link_states (add_all (λ t. t.id) f.states 0 []))
        (λ s. ap (spawn_with s) (links_twice (add_all (λ t. t.id) f.states 0 []) s.states)) k
        f.spawns
      ∙ map_option_same (link_states (add_all (λ t. t.id) f.states 0 [])) (point_spawn f.states)
          (λ s. ap (spawn_with s) (link_refs-point f.states s.states))
          (first (λ s. s.id) k f.spawns);
  monsters = λ k.
      table_update (λ m. m.id) (link_params (add_all (λ t. t.id) f.states 0 []))
        (λ m. ap (monster_with m) (links_twice (add_all (λ t. t.id) f.states 0 []) m.params)) k
        f.monsters
      ∙ map_option_same (link_params (add_all (λ t. t.id) f.states 0 [])) (point_monster f.states)
          (λ m. ap (monster_with m) (link_refs-point f.states m.params))
          (first (λ m. m.id) k f.monsters);
}

pub data Answers (J : Json) : Option (StaticData J) → Option (Files J) → Type 0 where
  both_fail : Answers J none none
  both_hold : (d : StaticData J) (f : Files J) → Holds J f d → Answers J (some d) (some f)

made_of-Answers :
    (J : Json) (files : String → Option J.Text) (o : Option (Files J))
    → Answers J (map_option (made_of J files (new_data J)) o) o
made_of-Answers J files none = both_fail
made_of-Answers J files (some f) =
    both_hold (made_of J files (new_data J) f) f (made_of-Holds J files f)

-- The first load throws exactly when a file that is there is no JSON or an entry of it lacks a
-- field. Otherwise every id has in its map the first entry of the file with that id, or none; and
-- every reference of a spawn or a monster leads to the object that the map of the states has for
-- that id, and stays null if there is none. A file that is not there is empty.
pub load-Answers :
    (J : Json) (files : String → Option J.Text)
    → Answers J (load J files (new_data J)) (read_files J files)
load-Answers J files =
    subst (λ o. Answers J o (read_files J files)) (sym (load-read_files J files (new_data J)))
      (made_of-Answers J files (read_files J files))
