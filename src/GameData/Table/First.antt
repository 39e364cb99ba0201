-- ===== src/GameData/Table/First.antt =====
-- What the maps of GameServer/GameData hold, by the lists that they were made from.
use bugat.Common.{
  ℕ, ◌+◌, ◌≡◌, refl, sym, ap, ap₂, ◌∙◌, Bool, true, false, Option, none, some, List, [], ◌∷◌, ◌++◌,
  append_assoc, append-nil, length, length-append, get_elem?, ◌==◌, if◌then◌else◌, arith,
}
use bugat.GameData.Table.{◌>>=◌, map_option, or_else, find, emplace, insert_all, Index, load_items}

or_else-none : {A : Type 0} (p : Option A) → or_else p none ≡ p
or_else-none none = refl
or_else-none (some a) = refl

or_else_assoc : {A : Type 0} (p q r : Option A) → or_else (or_else p q) r ≡ or_else p (or_else q r)
or_else_assoc none q r = refl
or_else_assoc (some a) q r = refl

module _ {A : Type 0} where
  pub find-emplace :
      (j k : ℕ) (a : A) (m : List (ℕ × A))
      → find j (emplace k a m) ≡ or_else (find j m) (if k == j then some a else none)
  unfolding find emplace
  find-emplace j k a [] = refl
  find-emplace j k a ((i, b) ∷ m) = ground (arith, find-emplace j k a m)

  pub find-insert_all :
      (k : ℕ) (l m : List (ℕ × A)) → find k (insert_all l m) ≡ or_else (find k m) (find k l)
  unfolding find insert_all
  find-insert_all k [] m = sym (or_else-none (find k m))
  find-insert_all k ((j, a) ∷ l) m =
      ground (arith, find-insert_all k l (emplace j a m), find-emplace k j a m)

get_elem?-append_at :
    {A : Type 0} (xs : List A) (x : A) (ys : List A) → get_elem? (xs ++ x ∷ ys) (length xs) ≡ some x
get_elem?-append_at [] x ys = refl
get_elem?-append_at (y ∷ xs) x ys = get_elem?-append_at xs x ys

if_bind :
    {A : Type 0} (b : Bool) (p : ℕ) (o : Option ℕ) (g : ℕ → Option A) (x : A) (r : Option A)
    → g p ≡ some x
    → (o >>= g) ≡ r
    → ((if b then some p else o) >>= g) ≡ (if b then some x else r)
if_bind true p o g x r now later = now
if_bind false p o g x r now later = later

-- The loop reads all values, or none of them.
unfoldable pub read_items : {V A : Type 0} → (V → Option A) → List V → Option (List A)
read_items from [] = some []
read_items from (j ∷ js) = from j >>= λ item. read_items from js >>= λ items. some (item ∷ items)

-- The first item of an id, and its place.
module _ {A : Type 0} (id_of : A → ℕ) where
  unfoldable pub first : ℕ → List A → Option A
  first k [] = none
  first k (x ∷ xs) = let rest = first k xs in if id_of x == k then some x else rest

  unfoldable pub first_at : ℕ → ℕ → List A → Option ℕ
  first_at k base [] = none
  first_at k base (x ∷ xs) =
      let rest = first_at k (base + 1) xs in if id_of x == k then some base else rest

  -- The map that the loop makes of the items.
  unfoldable pub add_all : List A → ℕ → Index → Index
  add_all [] base m = m
  add_all (x ∷ xs) base m = add_all xs (base + 1) (emplace (id_of x) base m)

  pub find-add_all :
      (k : ℕ) (xs : List A) (base : ℕ) (m : Index)
      → find k (add_all xs base m) ≡ or_else (find k m) (first_at k base xs)
  unfolding add_all first_at
  find-add_all k [] base m = sym (or_else-none (find k m))
  find-add_all k (x ∷ xs) base m = ground (
    arith,
    find-add_all k xs (base + 1) (emplace (id_of x) base m),
    find-emplace k (id_of x) base m,
  )

  pub get-first_at :
      (k : ℕ) (made xs : List A)
      → (first_at k (length made) xs >>= λ p. get_elem? (made ++ xs) p) ≡ first k xs
  unfolding first first_at
  get-first_at k made [] = refl
  get-first_at k made (x ∷ xs) =
      let next : length (made ++ x ∷ []) ≡ length made + 1 =
        omega (arith, length-append made (x ∷ [])) in
      let later =
        sym (
          ap₂ (λ n ys. first_at k n xs >>= λ p. get_elem? ys p) next
            (append_assoc made (x ∷ []) xs))
        ∙ get-first_at k (made ++ x ∷ []) xs in
      if_bind (id_of x == k) (length made) (first_at k (length made + 1) xs)
        (λ p. get_elem? (made ++ x ∷ xs) p) x (first k xs) (get_elem?-append_at made x xs) later

  abbrev pub loaded : List A → Index → List A → List A × Index
  loaded made m items = (made ++ items, add_all items (length made) m)

  -- One value more has been read before the others.
  one_more :
      (made : List A) (m : Index) (x : A) (r : Option (List A))
      → map_option (loaded (made ++ x ∷ []) (emplace (id_of x) (length made) m)) r
        ≡ map_option (loaded made m) (r >>= λ xs. some (x ∷ xs))
  unfolding add_all
  one_more made m x none = refl
  one_more made m x (some xs) =
      let next : length (made ++ x ∷ []) ≡ length made + 1 =
        omega (arith, length-append made (x ∷ [])) in
      ap₂ (λ ys n. some (ys, add_all xs n (emplace (id_of x) (length made) m)))
        (append_assoc made (x ∷ []) xs) next

  read_on :
      (o : Option A) (r : Option (List A)) (made : List A) (m : Index)
      (load : A → Option (List A × Index))
      → ((x : A)
          → load x ≡ map_option (loaded (made ++ x ∷ []) (emplace (id_of x) (length made) m)) r)
      → (o >>= load) ≡ map_option (loaded made m) (o >>= λ x. r >>= λ xs. some (x ∷ xs))
  read_on none r made m load ih = refl
  read_on (some x) r made m load ih = ih x ∙ one_more made m x r

  pub load_items-read_items :
      {V : Type 0} (from : V → Option A) (js : List V) (made : List A) (m : Index)
      → load_items from id_of js made m ≡ map_option (loaded made m) (read_items from js)
  unfolding load_items read_items add_all
  load_items-read_items from [] made m = ap (λ ys. some (ys, m)) (sym (append-nil made))
  load_items-read_items from (j ∷ js) made m =
      read_on (from j) (read_items from js) made m
        (λ item.
          load_items from id_of js (made ++ item ∷ []) (emplace (id_of item) (length made) m))
        (λ item.
          load_items-read_items from js (made ++ item ∷ []) (emplace (id_of item) (length made) m))
