-- ===== src/Store/Tree.antt =====
-- dm_target_implementation/PCLINUX/dm_target_dataManagement/src/DM_DAT1_ParameterData.c: the list of all
-- parameters.
pub mod Put
pub mod Instances
pub mod Create
pub mod Delete
mod Tests
use tr069agent.Prelude.{
  ℕ, zero, suc, ◌+◌, Bool, true, false, ◌||◌, Option, none, some, List, [], ◌∷◌, ◌++◌, ltb, ◌==◌,
  if◌then◌else◌, Bytes, str_eq, length, drop,
}
use tr069agent.Prelude.Int.{ℤ, pos_part, neg_part, sub_ℕ}
use tr069agent.Common.Number.{uint_to_string}
use tr069agent.Parameter.Struct.{Parameter}
use tr069agent.Parameter.Name.{starts_with}
use tr069agent.Parameter.Make.{new_instance_parameter}

-- With the flag `_dataChanged` of dm_engine/src/DM_ENG_Parameter.c.
pub record Tree : Type 0 where
  pub parameters : List Parameter
  pub nb_parameters : ℤ
  pub data_changed : Bool

abbrev pub max_line_len : ℕ
max_line_len = 800

unfoldable pub find_parameter : List Parameter → Bytes → Option Parameter
unfolding str_eq
find_parameter [] name = none
find_parameter (p ∷ ps) name =
    let rest = find_parameter ps name in if str_eq name p.name then some p else rest

unfoldable pub get_parameter : Tree → Option Bytes → Option Parameter
unfolding find_parameter
get_parameter t none = none
get_parameter t (some name) = find_parameter t.parameters name

-- The list with the parameter put in the place of the first one of its name, or behind all.
unfoldable pub put_in : List Parameter → Parameter → List Parameter
unfolding str_eq
put_in [] param = param ∷ []
put_in (p ∷ ps) param =
    let rest = put_in ps param in if str_eq param.name p.name then param ∷ ps else p ∷ rest

unfoldable pub has_name : List Parameter → Bytes → Bool
unfolding str_eq
has_name [] name = false
has_name (p ∷ ps) name = str_eq name p.name || has_name ps name

-- `n + k` and `n - k`, as an `int` that is small.
unfoldable pub count_up : ℤ → ℕ → ℤ
count_up n k = sub_ℕ (pos_part n + k) (neg_part n)

unfoldable pub count_down : ℤ → ℕ → ℤ
count_down n k = sub_ℕ (pos_part n) (neg_part n + k)

unfoldable pub put_parameter : Tree → Parameter → Tree
unfolding put_in has_name count_up
put_parameter t param = record t {
  parameters = put_in t.parameters param;
  nb_parameters =
      if has_name t.parameters param.name then t.nb_parameters else count_up t.nb_parameters 1;
}

unfoldable pub add_parameter : Tree → Parameter → Tree
unfolding count_up
add_parameter t param = record {
  parameters = t.parameters ++ param ∷ [];
  nb_parameters = count_up t.nb_parameters 1;
  data_changed = true;
}

-- The name in `_line`; `none` is a write behind the buffer.
unfoldable pub instance_name : Bytes → ℕ → Bytes → Option Bytes
unfolding uint_to_string
instance_name object n rest =
    if ltb (length object + length (uint_to_string n) + length rest) max_line_len
    then some (object ++ uint_to_string n ++ rest)
    else none

-- What follows the name of the object in the name of one of its prototypes, with the dot.
unfoldable pub prototype_rest : Bytes → Bytes → Option Bytes
prototype_rest [] [] = none
prototype_rest [] (c ∷ cs) = if c == b'.' then some (c ∷ cs) else none
prototype_rest (o ∷ os) [] = none
prototype_rest (o ∷ os) (c ∷ cs) = let rest = prototype_rest os cs in if o == c then rest else none

unfoldable pub put_instance : Tree → Bytes → ℕ → Parameter → Option Tree
unfolding prototype_rest instance_name put_parameter new_instance_parameter
put_instance t object n prm = elim (prototype_rest object prm.name) [
  | none ↦ some t
  | some rest ↦ elim (instance_name object n rest) [
    | none ↦ none
    | some name ↦ some (put_parameter t (new_instance_parameter name prm))
  ]
]

-- The loop from the parameter at index `k` of the list, which grows on the way.
unfoldable pub create_from : ℕ → ℕ → Tree → Bytes → ℕ → Option Tree
unfolding put_instance
create_from zero k t object n = none
create_from (suc fuel) k t object n = elim (drop k t.parameters) [
  | [] ↦ some t
  | prm ∷ _ ↦ elim (put_instance t object n prm) [
    | none ↦ none
    | some t' ↦ create_from fuel (suc k) t' object n
  ]
]

-- Fuel: a round for each parameter there is, and one for each that may be added.
unfoldable pub create_instance : Tree → Parameter → ℕ → Option Tree
unfolding instance_name put_parameter new_instance_parameter create_from
create_instance t param n = elim (instance_name param.name n (b'.' ∷ [])) [
  | none ↦ none
  | some name ↦
      let t' = put_parameter t (new_instance_parameter name param) in
      elim (create_from (suc (length t'.parameters + length t'.parameters)) 0 t' param.name n) [
        | none ↦ none
        | some t'' ↦ some (record t'' { data_changed = true })
      ]
]

-- The parameters that are left, and how many were taken out.
unfoldable pub without_prefix : List Parameter → Bytes → List Parameter × ℕ
unfolding starts_with
without_prefix [] object = ([], 0)
without_prefix (p ∷ ps) object =
    let (kept, n) = without_prefix ps object in
    if starts_with object p.name then (kept, suc n) else (p ∷ kept, n)

unfoldable pub delete_object : Tree → Bytes → Tree
unfolding without_prefix count_down
delete_object t object =
    let (kept, n) = without_prefix t.parameters object in
    if n == 0 then record t { parameters = kept } else record {
      parameters = kept;
      nb_parameters = count_down t.nb_parameters n;
      data_changed = true;
    }
