-- ===== src/GameData/Read.antt =====
-- `from_json` and `Load` of the classes in GameServer/GameData.
use Prim.Native.String.{String}
use bugat.Common.{ℕ, Option, none, some, List, []}
use bugat.GameData.Table.{◌>>=◌, Index, insert_all, update_all, load_items}
use bugat.GameData.{
  Json, Vec3, State, Event, MonsterState, SpawnData, null_refs, link_params, link_states,
}

-- The maps of `StaticData`, with the objects that were made for them.
pub record StaticData (J : Json) : Type 0 where
  pub made_events : List (Event J.Tm)
  pub made_spawns : List (SpawnData J.Text J.Real)
  pub made_monsters : List MonsterState
  pub made_states : List State
  pub events : Index
  pub spawns : Index
  pub monsters : Index
  pub states : Index

module _ (J : Json) where
  abbrev pub vec3_from_json : J.Value → Option (Vec3 J.Real)
  vec3_from_json j = do
    x ← J.at j "x" >>= J.get_real
    y ← J.at j "y" >>= J.get_real
    z ← J.at j "z" >>= J.get_real
    some (record { x = x; y = y; z = z })

  abbrev pub state_from_json : J.Value → Option State
  state_from_json j = do
    id ← J.at j "ID" >>= J.get_int
    kind ← J.at j "Type" >>= J.get_int
    amount ← J.at j "Value" >>= J.get_int
    some (record { id = id; kind = kind; amount = amount })

  abbrev pub event_from_json : J.Value → Option (Event J.Tm)
  event_from_json j = do
    id ← J.at j "ID" >>= J.get_int
    date ← J.at j "time" >>= J.get_text
    amount ← J.at j "value" >>= J.get_int
    some (record { id = id; time = J.get_time date; amount = amount })

  abbrev pub monster_from_json : J.Value → Option MonsterState
  monster_from_json j = do
    id ← J.at j "ID" >>= J.get_int
    ids ← J.at j "Params" >>= J.get_ints
    some (record { id = id; params = null_refs ids [] })

  abbrev pub spawn_from_json : J.Value → Option (SpawnData J.Text J.Real)
  spawn_from_json j = do
    id ← J.at j "ID" >>= J.get_int
    name ← J.at j "Name" >>= J.get_text
    pos ← J.at j "Pos" >>= vec3_from_json
    ids ← J.at j "State" >>= J.get_ints
    switches ← J.at j "Switch" >>= J.get_bools
    childs ← J.at j "Childs" >>= J.get_texts
    reals ← J.at j "Values" >>= J.get_reals
    some (record {
      id = id;
      name = name;
      pos = pos;
      states = null_refs ids [];
      switches = switches;
      childs = childs;
      reals = reals;
    })

  -- A file that cannot be opened leaves the map as it is.
  abbrev pub load_text :
      {A : Type 0}
      → (J.Value → Option A)
      → (A → ℕ)
      → Option J.Text
      → List A
      → Index
      → Option (List A × Index)
  load_text from id_of none made data_map = some (made, data_map)
  load_text from id_of (some text) made data_map =
      J.parse text >>= λ j. load_items from id_of (J.elements j) made data_map

  module _ (files : String → Option J.Text) where
    abbrev pub load_events : List (Event J.Tm) → Index → Option (List (Event J.Tm) × Index)
    load_events = load_text event_from_json (λ e. e.id) (files "/Event.json")

    abbrev pub load_spawns :
        List (SpawnData J.Text J.Real) → Index → Option (List (SpawnData J.Text J.Real) × Index)
    load_spawns = load_text spawn_from_json (λ s. s.id) (files "/SpawnData.json")

    abbrev pub load_monsters : List MonsterState → Index → Option (List MonsterState × Index)
    load_monsters = load_text monster_from_json (λ m. m.id) (files "/MonsterState.json")

    abbrev pub load_states : List State → Index → Option (List State × Index)
    load_states = load_text state_from_json (λ s. s.id) (files "/State.json")

    -- The links and the insertions, behind the four files.
    abbrev pub finish :
        StaticData J
        → List (Event J.Tm) × Index
        → List (SpawnData J.Text J.Real) × Index
        → List MonsterState × Index
        → List State × Index
        → StaticData J
    finish d (es, e) (ss, s) (ms, m) (ts, t) = record {
      made_events = es;
      made_spawns = update_all (link_states t) s ss;
      made_monsters = update_all (link_params t) m ms;
      made_states = ts;
      events = insert_all e d.events;
      spawns = insert_all s d.spawns;
      monsters = insert_all m d.monsters;
      states = insert_all t d.states;
    }

    -- `StaticData::Load`
    abbrev pub load : StaticData J → Option (StaticData J)
    load d = do
      e ← load_events d.made_events []
      s ← load_spawns d.made_spawns []
      m ← load_monsters d.made_monsters []
      t ← load_states d.made_states []
      some (finish d e s m t)
