-- ===== src/GameData/Table.antt =====
-- The maps of GameServer/GameData from ids to objects, and the loops that fill and change them.
-- A pointer is the place of its object among those that were made.
pub mod First
pub mod Update
use bugat.Common.{
  ℕ, zero, suc, ◌+◌, Option, none, some, List, [], ◌∷◌, ◌++◌, length, get_elem?, ◌==◌,
  if◌then◌else◌,
}

infixl 5 ◌>>=◌
abbrev pub ◌>>=◌ {ℓ κ} : {A : Type ℓ} {B : Type κ} → Option A → (A → Option B) → Option B
◌>>=◌ none f = none
◌>>=◌ (some a) f = f a

abbrev pub or_else {ℓ} : {A : Type ℓ} → Option A → Option A → Option A
or_else none q = q
or_else (some a) q = some a

abbrev pub map_option : {A B : Type 0} → (A → B) → Option A → Option B
map_option f none = none
map_option f (some a) = some (f a)

module _ {A : Type 0} where
  unfoldable pub find : ℕ → List (ℕ × A) → Option A
  find k [] = none
  find k ((j, a) ∷ m) = let rest = find k m in if j == k then some a else rest

  -- An entry that is there stays.
  unfoldable pub emplace : ℕ → A → List (ℕ × A) → List (ℕ × A)
  emplace k a [] = (k, a) ∷ []
  emplace k a ((j, b) ∷ m) =
      let rest = emplace k a m in if j == k then (j, b) ∷ m else (j, b) ∷ rest

  -- `map[k] = a`
  unfoldable pub put : ℕ → A → List (ℕ × A) → List (ℕ × A)
  put k a [] = (k, a) ∷ []
  put k a ((j, b) ∷ m) = let rest = put k a m in if j == k then (k, a) ∷ m else (j, b) ∷ rest

  -- `insert` of all entries of another map
  unfoldable pub insert_all : List (ℕ × A) → List (ℕ × A) → List (ℕ × A)
  insert_all [] m = m
  insert_all ((k, a) ∷ l) m = insert_all l (emplace k a m)

  unfoldable pub update_at : ℕ → (A → A) → List A → List A
  update_at i f [] = []
  update_at zero f (x ∷ xs) = f x ∷ xs
  update_at (suc i) f (x ∷ xs) = x ∷ update_at i f xs

abbrev pub Index : Type 0
Index = List (ℕ × ℕ)

-- A change of every object that a map points to.
unfoldable pub update_all : {A : Type 0} → (A → A) → Index → List A → List A
update_all f [] xs = xs
update_all f ((k, p) ∷ m) xs = update_all f m (update_at p f xs)

-- `data.emplace(item.ID, new T(item))` for all values; the first that cannot be read ends it.
module _ {V A : Type 0} (from : V → Option A) (id_of : A → ℕ) where
  unfoldable pub load_items : List V → List A → Index → Option (List A × Index)
  load_items [] made data_map = some (made, data_map)
  load_items (j ∷ js) made data_map = from j >>= λ item.
      load_items js (made ++ item ∷ []) (emplace (id_of item) (length made) data_map)

-- The object of an id.
abbrev pub object_at : {A : Type 0} → List A → Index → ℕ → Option A
object_at made m k = find k m >>= λ p. get_elem? made p
