-- ===== src/SharedPtr.antt =====
-- Core/memory/TSharedPtr.h: intrusive reference counts. An object is a number, and a pointer
-- variable is a place in a list; each operation of `TSharedPtr` is a function on the world.
pub mod Slots
pub mod Counts
pub mod Owners
mod Tests
use bugat.Common.{
  ℕ, zero, suc, ◌+◌, ◌-◌, ◌%◌, ◌^◌, ◌<◌, ◌≡◌, Bool, true, false, Option, none, some, List, [], ◌∷◌,
  ◌++◌, length, ◌==◌, if◌then◌else◌,
}

-- What `RefCountable` keeps, the count as the pattern of its `int`. `freed` records how often the
-- object was destroyed, by its deleter or by `delete`, and `owned` whether it ever had a pointer.
pub record Obj : Type 0 where
  pub ref_count : ℕ
  pub deleter : Bool
  pub freed : ℕ
  pub owned : Bool

pub record World : Type 0 where
  pub obj : ℕ → Obj
  pub ptrs : List (Option ℕ)

-- `_ptr` of the variable at a place.
abbrev pub ptr_at : List (Option ℕ) → ℕ → Option ℕ
ptr_at [] i = none
ptr_at (p ∷ ps) zero = p
ptr_at (p ∷ ps) (suc i) = ptr_at ps i

abbrev pub put_ptr : List (Option ℕ) → ℕ → Option ℕ → List (Option ℕ)
put_ptr [] i q = []
put_ptr (p ∷ ps) zero q = q ∷ ps
put_ptr (p ∷ ps) (suc i) q = p ∷ put_ptr ps i q

abbrev pub eq_ptr : Option ℕ → Option ℕ → Bool
eq_ptr none none = true
eq_ptr none (some b) = false
eq_ptr (some a) none = false
eq_ptr (some a) (some b) = a == b

abbrev pub put_obj : (ℕ → Obj) → ℕ → Obj → ℕ → Obj
put_obj objs o v k = if o == k then v else objs k

-- `if (_ptr) __add_ref_count()(_ptr)`
pub add_ref_count : Option ℕ → World → World
add_ref_count none w = w
add_ref_count (some o) w = record w {
  obj =
      put_obj w.obj o
        (record (w.obj o) { ref_count = ((w.obj o).ref_count + 1) % 2 ^ 32; owned = true });
}

-- `__sub_ref_count`, and the destruction where it returns 1: by the deleter, which is then
-- deleted itself, or by `delete`.
pub sub_ref_count : ℕ → World → World
sub_ref_count o w =
    let c = (w.obj o).ref_count in
    let less = record (w.obj o) { ref_count = (c + 2 ^ 32 - 1) % 2 ^ 32 } in
    record w {
      obj =
          put_obj w.obj o
            (if c == 1 then record less { freed = less.freed + 1; deleter = false } else less);
    }

-- `Reset`, which the destructor and the assignment of `nullptr` are.
pub reset : ℕ → World → World
reset i w = elim (ptr_at w.ptrs i) [
  | none ↦ w
  | some o ↦ let w' = sub_ref_count o w in record w' { ptrs = put_ptr w'.ptrs i none }
]

-- The constructors make a new variable: from a pointer, by copying, by moving. A cast by
-- `StaticPointerCast` constructs from the pointer of another variable.
pub construct : Option ℕ → World → World
construct p w = add_ref_count p (record w { ptrs = w.ptrs ++ p ∷ [] })

pub construct_deleter : Option ℕ → Bool → World → World
construct_deleter none given w = construct none w
construct_deleter (some o) given w =
    let w' = construct (some o) w in
    if given
    then record w' { obj = put_obj w'.obj o (record (w'.obj o) { deleter = true }) }
    else w'

pub copy_construct : ℕ → World → World
copy_construct j w = construct (ptr_at w.ptrs j) w

pub move_construct : ℕ → World → World
move_construct j w = record w { ptrs = put_ptr w.ptrs j none ++ ptr_at w.ptrs j ∷ [] }

pub static_pointer_cast : ℕ → World → World
static_pointer_cast j w = construct (ptr_at w.ptrs j) w

-- `operator=(const TSharedPtr&)`: the pointer of the other variable is read after the reset.
pub copy_assign : ℕ → ℕ → World → World
copy_assign i j w =
    if i == j
    then w
    else if eq_ptr (ptr_at w.ptrs i) (ptr_at w.ptrs j)
    then w
    else let w' = reset i w in
      let p = ptr_at w'.ptrs j in add_ref_count p (record w' { ptrs = put_ptr w'.ptrs i p })

-- `operator=(TSharedPtr&&)`
pub move_assign : ℕ → ℕ → World → World
move_assign i j w =
    if i == j
    then w
    else let w' = reset i w in
      record w' { ptrs = put_ptr (put_ptr w'.ptrs i (ptr_at w'.ptrs j)) j none }

-- What a program does with its pointers.
pub data Op : Type 0 where
  op_construct : Option ℕ → Op
  op_construct_deleter : Option ℕ → Bool → Op
  op_copy_construct op_move_construct op_cast op_reset : ℕ → Op
  op_copy_assign op_move_assign : ℕ → ℕ → Op

pub apply : Op → World → World
apply (op_construct p) w = construct p w
apply (op_construct_deleter p given) w = construct_deleter p given w
apply (op_copy_construct j) w = copy_construct j w
apply (op_move_construct j) w = move_construct j w
apply (op_cast j) w = static_pointer_cast j w
apply (op_reset i) w = reset i w
apply (op_copy_assign i j) w = copy_assign i j w
apply (op_move_assign i j) w = move_assign i j w

pub apply_all : List Op → World → World
apply_all [] w = w
apply_all (op ∷ ops) w = apply_all ops (apply op w)

-- Every object is new, and there are no pointers.
pub start : World
start = record {
  obj = λ _. record { ref_count = 0; deleter = false; freed = 0; owned = false };
  ptrs = [];
}
