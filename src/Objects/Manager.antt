-- ===== src/Objects/Manager.antt =====
-- The maps of Base/ObjectManager.h behave as one map.
use bugat.Common.{
  ℕ, zero, suc, ◌<◌, ◌≡◌, refl, sym, ap, ◌∙◌, Bool, true, false, Option, none, some, List, [], ◌∷◌,
  ◌==◌, get_elem?, if◌then◌else◌, Bool-cases, inl, inr, ==_iff, arith,
}
use bugat.Objects.{
  Entry, find_entry, erase, agent_add, Answer, added, deleted, found, Request, add, del, find,
  key_of, ask_agent, put_agent, ask, ask_all, new_agents,
}

-- One map, from keys to objects, and what it answers.
abbrev pub Map : Type 0
Map = ℕ → Option ℕ

abbrev pub put_map : Map → ℕ → Option ℕ → Map
put_map map key v k = if key == k then v else map k

abbrev pub ask_map : Request → Map → Map × Answer
ask_map (add key object) map = elim (map key) [
  | none ↦ (put_map map key (some object), added true)
  | some v ↦ (map, added false)
]
ask_map (del key) map = (put_map map key none, deleted)
ask_map (find key) map = (map, found (map key))

abbrev pub answers : List Request → Map → List Answer
answers [] map = []
answers (r ∷ rs) map = let (map', answer) = ask_map r map in answer ∷ answers rs map'

-- Where an agent answers as the map does for a key, it does so after a request.
find_entry-erase :
    (key k : ℕ) (es : List Entry)
    → find_entry k (erase key es) ≡ (if key == k then none else find_entry k es)
unfolding find_entry erase
find_entry-erase key k [] = ground arith
find_entry-erase key k (e ∷ es) = ground (arith, find_entry-erase key k es)

ask_agent-find :
    (r : Request) (k : ℕ) (es : List Entry) (map : Map)
    → find_entry (key_of r) es ≡ map (key_of r)
    → find_entry k es ≡ map k
    → find_entry k (ask_agent r es).0 ≡ (ask_map r map).0 k
unfolding ask_agent agent_add find_entry
ask_agent-find (add key object) k es map own h = ground arith
ask_agent-find (del key) k es map own h = ground (arith, find_entry-erase key k es)
ask_agent-find (find key) k es map own h = h

ask_agent-answer :
    (r : Request) (es : List Entry) (map : Map)
    → find_entry (key_of r) es ≡ map (key_of r)
    → (ask_agent r es).1 ≡ (ask_map r map).1
unfolding ask_agent agent_add
ask_agent-answer (add key object) es map own = ground arith
ask_agent-answer (del key) es map own = refl
ask_agent-answer (find key) es map own = ap found own

put_agent-same :
    (agents : List (List Entry)) (i : ℕ) (old es : List Entry)
    → get_elem? agents i ≡ some old
    → get_elem? (put_agent agents i es) i ≡ some es
put_agent-same [] i old es e = absurd (none≢some e)
  where
    none≢some : ◌≡◌ {A = Option (List Entry)} none (some old) → ⊥
    none≢some h = cc
put_agent-same (a ∷ agents) zero old es e = refl
put_agent-same (a ∷ agents) (suc i) old es e = put_agent-same agents i old es e

put_agent-other :
    (agents : List (List Entry)) (i j : ℕ) (es : List Entry)
    → (i == j) ≡ false
    → get_elem? (put_agent agents i es) j ≡ get_elem? agents j
put_agent-other [] i j es h = refl
put_agent-other (a ∷ agents) zero zero es h = absurd (true≢false h)
  where
    true≢false : ◌≡◌ {A = Bool} true false → ⊥
    true≢false e = cc
put_agent-other (a ∷ agents) zero (suc j) es h = refl
put_agent-other (a ∷ agents) (suc i) zero es h = refl
put_agent-other (a ∷ agents) (suc i) (suc j) es h = put_agent-other agents i j es (ground arith)

-- A request leaves the other keys of the map.
ask_map-other :
    (r : Request) (k : ℕ) (map : Map) → (key_of r == k) ≡ false → (ask_map r map).0 k ≡ map k
ask_map-other (add key object) k map h = ground arith
ask_map-other (del key) k map h = ground arith
ask_map-other (find key) k map h = refl

module _ (hash : ℕ → ℕ → ℕ) (n : ℕ) where
  -- The agent of a key knows of it what the map does.
  abbrev Agree : List (List Entry) → Map → Type 0
  Agree agents map =
      (k : ℕ)
      → (es : List Entry) × (get_elem? agents (hash k n) ≡ some es) × (find_entry k es ≡ map k)

  -- The agents and the answer after a request.
  ask-some :
      (r : Request) (agents : List (List Entry)) (es : List Entry)
      → get_elem? agents (hash (key_of r) n) ≡ some es
      → ask hash n r agents
        ≡ some (put_agent agents (hash (key_of r) n) (ask_agent r es).0, (ask_agent r es).1)
  unfolding ask
  ask-some r agents es e = ground arith

  ask-Agree :
      (r : Request) (agents : List (List Entry)) (map : Map) (es : List Entry)
      → get_elem? agents (hash (key_of r) n) ≡ some es
      → find_entry (key_of r) es ≡ map (key_of r)
      → Agree agents map
      → Agree (put_agent agents (hash (key_of r) n) (ask_agent r es).0) (ask_map r map).0
  ask-Agree r agents map es e own agree k = elim (Bool-cases (hash (key_of r) n == hash k n)) [
    | inl same ↦ (
      (ask_agent r es).0,
      ap (get_elem? (put_agent agents (hash (key_of r) n) (ask_agent r es).0)) (sym (hashes same))
          ∙ put_agent-same agents (hash (key_of r) n) es (ask_agent r es).0 e,
      ask_agent-find r k es map own (here_too same),
    )
    | inr apart ↦ (
      (agree k).0,
      put_agent-other agents (hash (key_of r) n) (hash k n) (ask_agent r es).0 apart ∙ (agree k).1,
      (agree k).2 ∙ sym (ask_map-other r k map (keys apart)),
    )
  ]
    where
      hashes : (hash (key_of r) n == hash k n) ≡ true → hash (key_of r) n ≡ hash k n
      hashes same = (==_iff (hash (key_of r) n) (hash k n)).0 same

      some_eq : {a b : List Entry} → some a ≡ some b → a ≡ b
      some_eq h = cc

      here_too : (hash (key_of r) n == hash k n) ≡ true → find_entry k es ≡ map k
      here_too same =
          ap (find_entry k) (some_eq (sym e ∙ ap (get_elem? agents) (hashes same) ∙ (agree k).1))
          ∙ (agree k).2

      keys : (hash (key_of r) n == hash k n) ≡ false → (key_of r == k) ≡ false
      keys apart = ground arith

  agents-answers :
      (rs : List Request) (agents : List (List Entry)) (map : Map)
      → Agree agents map
      → ask_all hash n rs agents ≡ some (answers rs map)
  unfolding ask_all
  agents-answers [] agents map agree = refl
  agents-answers (r ∷ rs) agents map agree =
      let (es, e, own) = agree (key_of r) in
      let now = ask-some r agents es e in
      let later = agents-answers rs _ _ (ask-Agree r agents map es e own agree) in
      let same = ask_agent-answer r es map own in ground arith

replicate-get : (n i : ℕ) → i < n → get_elem? (new_agents n) i ≡ some []
replicate-get zero i h = absurd (omega arith)
replicate-get (suc n) zero h = refl
replicate-get (suc n) (suc i) h = replicate-get n i (omega arith)

-- For every sequence of `Add`, `Del` and `Find`, the agents of a manager give the answers that one
-- map gives, and no request goes out of the array, if the hash stays below the number of agents.
pub ask_all-answers :
    (hash : ℕ → ℕ → ℕ) (agent_count : ℕ) (rs : List Request)
    → ((key : ℕ) → hash key agent_count < agent_count)
    → ask_all hash agent_count rs (new_agents agent_count) ≡ some (answers rs (λ _. none))
unfolding find_entry
ask_all-answers hash n rs in_range =
    agents-answers hash n rs (new_agents n) (λ _. none)
      (λ k. ([], replicate-get n (hash k n) (in_range k), refl))
