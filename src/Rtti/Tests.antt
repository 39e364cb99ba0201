-- ===== src/Rtti/Tests.antt =====
-- Three classes, each the base class of the next, and the tests of Core/RTTI.h.
use bugat.Common.{◌≡◌, ◌↔◌, true, some}
use bugat.Rtti.Ancestors.{Ancestor, is_a_iff}
use bugat.Rtti.{TypeInfo, root, derived, is_a, cast}

abbrev object : TypeInfo
object = root 0

abbrev actor : TypeInfo
actor = derived 1 object

abbrev player : TypeInfo
player = derived 2 actor

is_a_iff_example :
    ((is_a object player ≡ true) ↔ Ancestor 0 player)
    × ((cast object player 64 ≡ some 64) ↔ Ancestor 0 player)
is_a_iff_example = is_a_iff object player 64
