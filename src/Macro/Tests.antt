-- ===== src/Macro/Tests.antt =====
-- Two parameters declared by Base/Macro.h.
use bugat.Common.{ℕ, ◌≡◌, refl, some, none, List, [], ◌∷◌}
use bugat.Macro.Pairs.{wanted, param_pasers_declare}
use bugat.Macro.{
  by_ref, by_copy, by_value, by_const_ref, parse_pairs, ref_param_paser, copy_param_paser,
  value_param_paser, const_ref_param_paser,
}

abbrev args : List ℕ
args = 1 ∷ 11 ∷ 2 ∷ 12 ∷ []

two_refs : ref_param_paser args ≡ some (by_ref 1 11 ∷ by_ref 2 12 ∷ [])
unfolding parse_pairs
two_refs = refl

odd_number : ref_param_paser (1 ∷ 11 ∷ 2 ∷ []) ≡ none
unfolding parse_pairs
odd_number = refl

param_pasers_declare_example :
    (ref_param_paser args ≡ wanted by_ref args)
    × (copy_param_paser args ≡ wanted by_copy args)
    × (value_param_paser args ≡ wanted (λ type name. by_value name) args)
    × (const_ref_param_paser args ≡ wanted by_const_ref args)
param_pasers_declare_example = param_pasers_declare args
