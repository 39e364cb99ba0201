-- ===== src/Macro.antt =====
-- The parameter lists of Base/Macro.h: macros that turn `type, name, type, name, ...` into the
-- parameters of a function. An argument of a macro is a number; what the preprocessor puts out is
-- a list of declarations.
pub mod Pairs
mod Tests
use bugat.Common.{ℕ, zero, suc, Option, none, some, List, [], ◌∷◌, ◌++◌, map, get_elem?}

-- What a macro of the family makes of a pair: `type& name`, `type name`, `name` or
-- `const type& name`.
pub data Declared : Type 0 where
  by_ref : (type name : ℕ) → Declared
  by_copy : (type name : ℕ) → Declared
  by_value : (name : ℕ) → Declared
  by_const_ref : (type name : ℕ) → Declared

-- The names that stand behind the arguments: of the parser of so many pairs, and of an error.
pub data Name : Type 0 where
  parse : ℕ → Name
  error : ℕ → Name

abbrev pub names : List Name
names =
    parse 10
    ∷ error 10
    ∷ parse 9
    ∷ error 9
    ∷ parse 8
    ∷ error 8
    ∷ parse 7
    ∷ error 7
    ∷ parse 6
    ∷ error 6
    ∷ parse 5
    ∷ error 5
    ∷ parse 4
    ∷ error 4
    ∷ parse 3
    ∷ error 3
    ∷ parse 2
    ∷ error 2
    ∷ parse 1
    ∷ parse 0
    ∷ []

-- What stands in an argument list: an argument, the empty one that a call without arguments has,
-- or a name.
pub data Token : Type 0 where
  argument : ℕ → Token
  blank : Token
  named : Name → Token

abbrev pub tokens : List ℕ → List Token
tokens [] = blank ∷ []
tokens (a ∷ as') = map argument (a ∷ as')

-- `GET_MACRO`, which picks what stands behind twenty others.
abbrev pub get_macro : List Token → Option Token
get_macro ts = get_elem? ts 20

abbrev pub more : Declared → Option (List Declared) → Option (List Declared)
more d none = none
more d (some ds) = some (d ∷ ds)

module _ (pair : ℕ → ℕ → Declared) where
  -- The parser of `k` pairs; a call with another number of arguments is an error.
  unfoldable pub parse_pairs : ℕ → List ℕ → Option (List Declared)
  parse_pairs zero [] = some []
  parse_pairs zero (a ∷ as') = none
  parse_pairs (suc k) [] = none
  parse_pairs (suc k) (t ∷ []) = none
  parse_pairs (suc k) (t ∷ n ∷ rest) = more (pair t n) (parse_pairs k rest)

  -- A name that is not that of a parser, as an error is, is no macro.
  abbrev pub call_macro : Option Token → List ℕ → Option (List Declared)
  call_macro (some (named (parse k))) args = parse_pairs k args
  call_macro (some (named (error k))) args = none
  call_macro (some (argument a)) args = none
  call_macro (some blank) args = none
  call_macro none args = none

  abbrev pub param_paser : List ℕ → Option (List Declared)
  param_paser args = call_macro (get_macro (tokens args ++ map named names)) args

-- The four families
abbrev pub ref_param_paser : List ℕ → Option (List Declared)
ref_param_paser = param_paser by_ref

abbrev pub copy_param_paser : List ℕ → Option (List Declared)
copy_param_paser = param_paser by_copy

abbrev pub value_param_paser : List ℕ → Option (List Declared)
value_param_paser = param_paser (λ type name. by_value name)

abbrev pub const_ref_param_paser : List ℕ → Option (List Declared)
const_ref_param_paser = param_paser by_const_ref
