-- ===== src/SharedPtr/Counts.antt =====
-- The count of an object of Core/memory/TSharedPtr.h is the number of its pointers, and the object
-- is destroyed once, when the last of them goes.
use bugat.Common.{
  ℕ, ◌+◌, ◌^◌, ◌≤◌, ◌<◌, ◌≡◌, refl, sym, ap, subst, ◌∙◌, Bool, true, false, Option, none, some,
  List, [], ◌∷◌, ◌++◌, arith, length, ◌==◌, if_cases,
}
use bugat.SharedPtr.Slots.{
  points, refs, refs-nil, refs-append, refs-put_ptr, refs-le, refs-ptr_at, length-put_ptr,
  ptr_at-put_ptr, ptr_at-put_ptr_self,
}
use bugat.SharedPtr.{
  Obj, World, ptr_at, put_ptr, eq_ptr, add_ref_count, sub_ref_count, reset, construct,
  move_construct, copy_assign, move_assign, start,
}

-- What holds of an object that has `n` pointers.
pub record IsCounted (v : Obj) (n : ℕ) : Type 0 where
  pub count : v.ref_count ≡ n
  pub once : v.freed ≤ 1
  pub alive : 0 < n → v.freed ≡ 0
  pub last : v.owned ≡ true → n ≡ 0 → v.freed ≡ 1
  pub unowned : v.owned ≡ false → (n ≡ 0) × (v.freed ≡ 0)

abbrev pub Counted : World → Type 0
Counted w = (o : ℕ) → IsCounted (w.obj o) (refs o w.ptrs)

-- A pointer that may be handed to a constructor: null, or an object that is not destroyed.
abbrev pub IsLive : World → Option ℕ → Type 0
IsLive w none = Unit
IsLive w (some o) = (w.obj o).freed ≡ 0

pub start-Counted : Counted start
unfolding start
start-Counted o = record {
  count = sym (refs-nil o);
  once = omega arith;
  alive = λ h. refl;
  last = λ e. absurd (false≢true e);
  unowned = λ _. (refs-nil o, refl);
}
  where
    false≢true : ◌≡◌ {A = Bool} false true → ⊥
    false≢true e = cc

-- One more pointer at `p`.
add-IsCounted :
    (w : World) (p : Option ℕ) (o n : ℕ)
    → IsLive w p
    → n + points o p < 2 ^ 32
    → IsCounted (w.obj o) n
    → IsCounted ((add_ref_count p w).obj o) (n + points o p)
unfolding add_ref_count
add-IsCounted w none o n live small c = ground arith
add-IsCounted w (some a) o n live small c = ground arith

-- One pointer fewer at `a`.
sub-IsCounted :
    (w : World) (a o n n' : ℕ)
    → n < 2 ^ 32
    → n' + points o (some a) ≡ n
    → IsCounted (w.obj o) n
    → IsCounted ((sub_ref_count a w).obj o) n'
unfolding sub_ref_count
sub-IsCounted w a o n n' small e c = ground arith

pub add-ptrs : (w : World) (p : Option ℕ) → (add_ref_count p w).ptrs ≡ w.ptrs
unfolding add_ref_count
add-ptrs w none = refl
add-ptrs w (some a) = refl

-- What `Reset` of the variable `i` does: the other variables stay, and every count is right.
pub record IsReset (w : World) (i : ℕ) (w' : World) : Type 0 where
  pub counted : Counted w'
  pub cleared : ptr_at w'.ptrs i ≡ none
  pub size : length w'.ptrs ≡ length w.ptrs
  pub others : (j : ℕ) → (i ≡ j → ⊥) → ptr_at w'.ptrs j ≡ ptr_at w.ptrs j

reset_null : (w : World) (i : ℕ) → ptr_at w.ptrs i ≡ none → reset i w ≡ w
unfolding reset
reset_null w i e = ground arith

reset_at :
    (w : World) (i a : ℕ)
    → ptr_at w.ptrs i ≡ some a
    → reset i w ≡ record (sub_ref_count a w) { ptrs = put_ptr w.ptrs i none }
unfolding reset sub_ref_count
reset_at w i a e = ground arith

reset_from :
    (w : World) (i : ℕ) (p : Option ℕ)
    → ptr_at w.ptrs i ≡ p
    → i < length w.ptrs
    → length w.ptrs < 2 ^ 32
    → Counted w
    → IsReset w i (reset i w)
reset_from w i none e lt small c =
    subst (IsReset w i) (sym (reset_null w i e))
      (record { counted = c; cleared = e; size = refl; others = λ j h. refl })
reset_from w i (some a) e lt small c = subst (IsReset w i) (sym (reset_at w i a e)) (record {
  counted = λ o.
      sub-IsCounted w a o (refs o w.ptrs) _ (omega (arith, refs-le o w.ptrs))
        (ap (λ p. refs o (put_ptr w.ptrs i none) + points o p) (sym e)
          ∙ refs-put_ptr o w.ptrs i none lt
          ∙ zero_more (refs o w.ptrs))
        (c o);
  cleared = ptr_at-put_ptr_self w.ptrs i none lt;
  size = length-put_ptr w.ptrs i none;
  others = λ j h. ptr_at-put_ptr w.ptrs i j none h;
})
  where
    zero_more : (n : ℕ) → n + 0 ≡ n
    zero_more n = omega arith

pub reset-IsReset :
    (w : World) (i : ℕ)
    → i < length w.ptrs
    → length w.ptrs < 2 ^ 32
    → Counted w
    → IsReset w i (reset i w)
reset-IsReset w i = reset_from w i (ptr_at w.ptrs i) refl

-- A pointer that stands in a variable is live.
pub ptr_at-IsLive :
    (w : World) (j : ℕ) (p : Option ℕ) → ptr_at w.ptrs j ≡ p → Counted w → IsLive w p
ptr_at-IsLive w j none e c = tt
ptr_at-IsLive w j (some a) e c = (c a).alive (ground (arith, refs-ptr_at a w.ptrs j))

pub construct-Counted :
    (p : Option ℕ) (w : World)
    → IsLive w p
    → length w.ptrs + 1 < 2 ^ 32
    → Counted w
    → Counted (construct p w)
unfolding construct
construct-Counted p w live small c o =
    subst (IsCounted ((add_ref_count p (record w { ptrs = w.ptrs ++ p ∷ [] })).obj o))
      (sym (ap (refs o) (add-ptrs _ p) ∙ refs-append o w.ptrs p))
      (add-IsCounted (record w { ptrs = w.ptrs ++ p ∷ [] }) p o (refs o w.ptrs) (live' p live)
        (bound p) (c o))
  where
    live' : (p : Option ℕ) → IsLive w p → IsLive (record w { ptrs = w.ptrs ++ p ∷ [] }) p
    live' none h = tt
    live' (some a) h = h

    bound : (p : Option ℕ) → refs o w.ptrs + points o p < 2 ^ 32
    bound none = omega (arith, refs-le o w.ptrs)
    bound (some a) = ground (arith, refs-le o w.ptrs)

-- A null variable is made to point at a live object.
attach-Counted :
    (p : Option ℕ) (w : World) (i : ℕ)
    → IsLive w p
    → ptr_at w.ptrs i ≡ none
    → i < length w.ptrs
    → length w.ptrs + 1 < 2 ^ 32
    → Counted w
    → Counted (add_ref_count p (record w { ptrs = put_ptr w.ptrs i p }))
attach-Counted p w i live empty lt small c o =
    subst (IsCounted ((add_ref_count p (record w { ptrs = put_ptr w.ptrs i p })).obj o))
      (sym (ap (refs o) (add-ptrs _ p) ∙ more))
      (add-IsCounted (record w { ptrs = put_ptr w.ptrs i p }) p o (refs o w.ptrs) (live' p live)
        (bound p) (c o))
  where
    live' : (q : Option ℕ) → IsLive w q → IsLive (record w { ptrs = put_ptr w.ptrs i p }) q
    live' none h = tt
    live' (some a) h = h

    bound : (p : Option ℕ) → refs o w.ptrs + points o p < 2 ^ 32
    bound none = omega (arith, refs-le o w.ptrs)
    bound (some a) = ground (arith, refs-le o w.ptrs)

    more : refs o (put_ptr w.ptrs i p) ≡ refs o w.ptrs + points o p
    more = ground (arith, refs-put_ptr o w.ptrs i p lt)

pub copy_assign-Counted :
    (w : World) (i j : ℕ)
    → i < length w.ptrs
    → length w.ptrs + 1 < 2 ^ 32
    → Counted w
    → Counted (copy_assign i j w)
unfolding copy_assign
copy_assign-Counted w i j lt small c =
    if_cases Counted (i == j) w _ (λ _. c)
      λ _.
        if_cases Counted (eq_ptr (ptr_at w.ptrs i) (ptr_at w.ptrs j)) w _ (λ _. c)
          λ _.
            let r = reset-IsReset w i lt (omega arith) c in
            attach-Counted (ptr_at (reset i w).ptrs j) (reset i w) i
              (ptr_at-IsLive (reset i w) j _ refl r.counted) r.cleared (omega (arith, r.size))
              (omega (arith, r.size)) r.counted

-- Moving a pointer changes no count.
refs-move :
    (o : ℕ) (ps : List (Option ℕ)) (i j : ℕ)
    → (i ≡ j → ⊥)
    → i < length ps
    → j < length ps
    → ptr_at ps i ≡ none
    → refs o (put_ptr (put_ptr ps i (ptr_at ps j)) j none) ≡ refs o ps
refs-move o ps i j ne lt lt' e = ground (
  arith,
  refs-put_ptr o ps i (ptr_at ps j) lt,
  refs-put_ptr o (put_ptr ps i (ptr_at ps j)) j none
      (omega (arith, length-put_ptr ps i (ptr_at ps j))),
  ptr_at-put_ptr ps i j (ptr_at ps j) ne,
)

pub move_assign-Counted :
    (w : World) (i j : ℕ)
    → i < length w.ptrs
    → j < length w.ptrs
    → length w.ptrs < 2 ^ 32
    → Counted w
    → Counted (move_assign i j w)
unfolding move_assign
move_assign-Counted w i j lt lt' small c =
    if_cases Counted (i == j) w _ (λ _. c)
      λ ne.
        let r = reset-IsReset w i lt small c in
        λ o.
          subst (IsCounted ((reset i w).obj o))
            (sym (
              refs-move o (reset i w).ptrs i j (λ e. differ ne e) (omega (arith, r.size))
                (omega (arith, r.size)) r.cleared))
            (r.counted o)
  where
    differ : (i == j) ≡ false → i ≡ j → ⊥
    differ ne e = ground arith

pub move_construct-Counted :
    (w : World) (j : ℕ) → j < length w.ptrs → Counted w → Counted (move_construct j w)
unfolding move_construct
move_construct-Counted w j lt c o =
    subst (IsCounted (w.obj o))
      (ground (
        arith,
        refs-append o (put_ptr w.ptrs j none) (ptr_at w.ptrs j),
        refs-put_ptr o w.ptrs j none lt,
      ))
      (c o)
