-- ===== src/SharedPtr/Owners.antt =====
-- Any use of the pointers of Core/memory/TSharedPtr.h, operation after operation.
use bugat.Common.{
  ℕ, ◌+◌, ◌^◌, ◌≤◌, ◌<◌, ◌≡◌, refl, ap, ◌∙◌, Bool, Option, none, some, List, [], ◌∷◌, arith, length,
  length-append, if_cases, ◌==◌,
}
use bugat.SharedPtr.Slots.{length-put_ptr}
use bugat.SharedPtr.Counts.{
  Counted, IsLive, start-Counted, construct-Counted, copy_assign-Counted, move_assign-Counted,
  move_construct-Counted, ptr_at-IsLive, add-ptrs, reset-IsReset,
}
use bugat.SharedPtr.{
  World, ptr_at, put_ptr, eq_ptr, reset, construct, construct_deleter, copy_construct,
  move_construct, static_pointer_cast, copy_assign, move_assign, Op, op_construct,
  op_construct_deleter, op_copy_construct, op_move_construct, op_cast, op_reset, op_copy_assign,
  op_move_assign, apply, apply_all, start, sub_ref_count,
}

-- An operation is on variables that exist, and a constructor is given a live object.
abbrev pub Valid : World → Op → Type 0
Valid w (op_construct p) = IsLive w p
Valid w (op_construct_deleter p given) = IsLive w p
Valid w (op_copy_construct j) = j < length w.ptrs
Valid w (op_move_construct j) = j < length w.ptrs
Valid w (op_cast j) = j < length w.ptrs
Valid w (op_reset i) = i < length w.ptrs
Valid w (op_copy_assign i j) = (i < length w.ptrs) × (j < length w.ptrs)
Valid w (op_move_assign i j) = (i < length w.ptrs) × (j < length w.ptrs)

abbrev pub AllValid : World → List Op → Type 0
AllValid w [] = Unit
AllValid w (op ∷ ops) = Valid w op × AllValid (apply op w) ops

-- A deleter changes no count.
construct_deleter-Counted :
    (p : Option ℕ) (given : Bool) (w : World)
    → IsLive w p
    → length w.ptrs + 1 < 2 ^ 32
    → Counted w
    → Counted (construct_deleter p given w)
unfolding construct_deleter
construct_deleter-Counted none given w live small c = construct-Counted none w live small c
construct_deleter-Counted (some a) given w live small c =
    let c' = construct-Counted (some a) w live small c in
    if_cases Counted given _ (construct (some a) w) (λ _ o. ground (arith, c' o, c' a)) λ _. c'

construct-size : (p : Option ℕ) (w : World) → length (construct p w).ptrs ≡ length w.ptrs + 1
unfolding construct
construct-size p w = ap length (add-ptrs _ p) ∙ length-append w.ptrs (p ∷ [])

reset-size : (w : World) (i : ℕ) → length (reset i w).ptrs ≡ length w.ptrs
unfolding reset sub_ref_count
reset-size w i = ground (arith, length-put_ptr w.ptrs i none)

-- An operation makes one variable at most.
apply-size : (op : Op) (w : World) → length (apply op w).ptrs ≤ length w.ptrs + 1
unfolding apply construct_deleter copy_construct move_construct static_pointer_cast copy_assign
    move_assign
apply-size (op_construct p) w = omega (arith, construct-size p w)
apply-size (op_construct_deleter none given) w = omega (arith, construct-size none w)
apply-size (op_construct_deleter (some a) given) w = ground (arith, construct-size (some a) w)
apply-size (op_copy_construct j) w = omega (arith, construct-size (ptr_at w.ptrs j) w)
apply-size (op_move_construct j) w = omega (
  arith,
  length-append (put_ptr w.ptrs j none) (ptr_at w.ptrs j ∷ []),
  length-put_ptr w.ptrs j none,
)
apply-size (op_cast j) w = omega (arith, construct-size (ptr_at w.ptrs j) w)
apply-size (op_reset i) w = omega (arith, reset-size w i)
apply-size (op_copy_assign i j) w =
    if_cases (λ v. length v.ptrs ≤ length w.ptrs + 1) (i == j) w _ (λ _. omega arith)
      λ _.
        if_cases (λ v. length v.ptrs ≤ length w.ptrs + 1)
          (eq_ptr (ptr_at w.ptrs i) (ptr_at w.ptrs j)) w _ (λ _. omega arith)
          λ _. omega (
            arith,
            reset-size w i,
            length-put_ptr (reset i w).ptrs i (ptr_at (reset i w).ptrs j),
            ap length (
                add-ptrs
                  (record (reset i w) {
                    ptrs = put_ptr (reset i w).ptrs i (ptr_at (reset i w).ptrs j);
                  })
                  (ptr_at (reset i w).ptrs j)),
          )
apply-size (op_move_assign i j) w =
    if_cases (λ v. length v.ptrs ≤ length w.ptrs + 1) (i == j) w _ (λ _. omega arith)
      λ _. omega (
        arith,
        reset-size w i,
        length-put_ptr (reset i w).ptrs i (ptr_at (reset i w).ptrs j),
        length-put_ptr (put_ptr (reset i w).ptrs i (ptr_at (reset i w).ptrs j)) j none,
      )

-- Every operation keeps the counts right.
apply-Counted :
    (op : Op) (w : World)
    → Valid w op
    → length w.ptrs + 1 < 2 ^ 32
    → Counted w
    → Counted (apply op w)
unfolding apply copy_construct static_pointer_cast
apply-Counted (op_construct p) w v small c = construct-Counted p w v small c
apply-Counted (op_construct_deleter p given) w v small c =
    construct_deleter-Counted p given w v small c
apply-Counted (op_copy_construct j) w v small c =
    construct-Counted (ptr_at w.ptrs j) w (ptr_at-IsLive w j _ refl c) small c
apply-Counted (op_move_construct j) w v small c = move_construct-Counted w j v c
apply-Counted (op_cast j) w v small c =
    construct-Counted (ptr_at w.ptrs j) w (ptr_at-IsLive w j _ refl c) small c
apply-Counted (op_reset i) w v small c = (reset-IsReset w i v (omega arith) c).counted
apply-Counted (op_copy_assign i j) w v small c = copy_assign-Counted w i j v.0 small c
apply-Counted (op_move_assign i j) w v small c = move_assign-Counted w i j v.0 v.1 (omega arith) c

all_along :
    (ops : List Op) (w : World)
    → AllValid w ops
    → length w.ptrs + length ops < 2 ^ 32
    → Counted w
    → Counted (apply_all ops w)
unfolding apply_all
all_along [] w v small c = c
all_along (op ∷ ops) w v small c =
    all_along ops (apply op w) v.1 (omega (arith, apply-size op w))
      (apply-Counted op w v.0 (omega arith) c)

-- After any valid operations on pointers, fewer than 2 ^ 32, the count of every object is the
-- number of the variables that point at it; an object with a pointer is not destroyed, one that
-- had pointers and has none left was destroyed exactly once, and no other was.
pub apply_all-Counted :
    (ops : List Op) → AllValid start ops → length ops < 2 ^ 32 → Counted (apply_all ops start)
unfolding start
apply_all-Counted ops v small = all_along ops start v (omega arith) start-Counted
