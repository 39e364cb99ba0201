-- ===== src/GameData/Table/Update.antt =====
-- What `LinkState` and `LinkParams` of GameServer/GameData change.
use bugat.Common.{
  ℕ, zero, suc, ◌≡◌, refl, ap, ◌∙◌, Bool, true, false, ◌||◌, Option, none, some, List, [], ◌∷◌,
  get_elem?, ◌==◌, if◌then◌else◌, arith,
}
use bugat.GameData.Table.{◌>>=◌, map_option, find, update_at, Index, update_all, object_at}

-- Whether a map points to a place.
unfoldable pub points_to : Index → ℕ → Bool
points_to [] p = false
points_to ((k, q) ∷ m) p = (q == p) || points_to m p

find-points_to : (k p : ℕ) (m : Index) → find k m ≡ some p → points_to m p ≡ true
unfolding find points_to
find-points_to k p [] e = absurd (cc e)
find-points_to k p ((j, q) ∷ m) e = ground (arith, find-points_to k p m)

if_same : {A : Type 0} (b : Bool) → ◌≡◌ {A = Option A} none (if b then none else none)
if_same true = refl
if_same false = refl

module _ {A : Type 0} (f : A → A) where
  once_more :
      ((x : A) → f (f x) ≡ f x) → (o : Option A) → map_option f (map_option f o) ≡ map_option f o
  once_more idem none = refl
  once_more idem (some x) = ap some (idem x)

  twice :
      (b c : Bool) (o : Option A)
      → map_option f (map_option f o) ≡ map_option f o
      → (let q = if b then map_option f o else o in if c then map_option f q else q)
        ≡ (if b || c then map_option f o else o)
  twice true true o e = e
  twice true false o e = refl
  twice false true o e = refl
  twice false false o e = refl

  get-update_at :
      (i p : ℕ) (xs : List A)
      → get_elem? (update_at p f xs) i
        ≡ (if p == i then map_option f (get_elem? xs i) else get_elem? xs i)
  unfolding update_at
  get-update_at i p [] = if_same (p == i)
  get-update_at zero zero (x ∷ xs) = refl
  get-update_at (suc i) zero (x ∷ xs) = ground arith
  get-update_at zero (suc p) (x ∷ xs) = ground arith
  get-update_at (suc i) (suc p) (x ∷ xs) = ground (arith, get-update_at i p xs)

  -- A change that may be made twice.
  get-update_all :
      ((x : A) → f (f x) ≡ f x)
      → (m : Index) (i : ℕ) (xs : List A)
      → get_elem? (update_all f m xs) i
        ≡ (if points_to m i then map_option f (get_elem? xs i) else get_elem? xs i)
  unfolding update_all points_to
  get-update_all idem [] i xs = refl
  get-update_all idem ((k, p) ∷ m) i xs =
      get-update_all idem m i (update_at p f xs)
      ∙ (ap (λ o. if points_to m i then map_option f o else o) (get-update_at i p xs)
          ∙ twice (p == i) (points_to m i) (get_elem? xs i) (once_more idem (get_elem? xs i)))

  change_found :
      ((x : A) → f (f x) ≡ f x)
      → (k : ℕ) (m : Index) (xs : List A) (o : Option ℕ) → find k m ≡ o
      → (o >>= λ p. get_elem? (update_all f m xs) p) ≡ map_option f (o >>= λ p. get_elem? xs p)
  change_found idem k m xs none e = refl
  change_found idem k m xs (some p) e =
      get-update_all idem m p xs
      ∙ ap (λ b. if b then map_option f (get_elem? xs p) else get_elem? xs p)
          (find-points_to k p m e)

  -- The object of an id that the map has is changed.
  pub object_at-update_all :
      ((x : A) → f (f x) ≡ f x)
      → (k : ℕ) (m : Index) (xs : List A)
      → object_at (update_all f m xs) m k ≡ map_option f (object_at xs m k)
  object_at-update_all idem k m xs = change_found idem k m xs (find k m) refl
