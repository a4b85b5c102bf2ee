-- ===== src/Store/Tree/Delete.antt =====
-- `DM_ENG_ParameterData_deleteObject`: what is left.
use tr069agent.Prelude.{
  ℕ, ◌+◌, none, List, [], ◌∷◌, ◌≡◌, refl, ap, sym, ◌∙◌, if◌then◌else◌, ◌==◌, Bytes, str_eq,
  str_eq_iff, length, arith, Bool-cases, inl, inr,
}
use tr069agent.Prelude.Int.{pos}
use tr069agent.Parameter.Struct.{Parameter}
use tr069agent.Parameter.Name.{starts_with}
use tr069agent.Store.Tree.{Tree, find_parameter, count_down, without_prefix, delete_object}
use tr069agent.Store.Tree.Put.{IsCounted}

without_prefix-length :
    (ps : List Parameter) (object : Bytes)
    → length (without_prefix ps object).0 + (without_prefix ps object).1 ≡ length ps
unfolding without_prefix
without_prefix-length [] object = refl
without_prefix-length (p ∷ ps) object = ground (arith, without_prefix-length ps object)

pub find_parameter-without_prefix :
    (ps : List Parameter) (object name : Bytes)
    → find_parameter (without_prefix ps object).0 name
      ≡ (if starts_with object name then none else find_parameter ps name)
unfolding find_parameter without_prefix
find_parameter-without_prefix [] object name = ground arith
find_parameter-without_prefix (p ∷ ps) object name =
    let ih = find_parameter-without_prefix ps object name in
    elim (Bool-cases (str_eq name p.name)) [
      | inl eq ↦
          let same : starts_with object p.name ≡ starts_with object name =
            ap (starts_with object) (sym ((str_eq_iff name p.name).0 eq)) in
          rw same (ground (arith, ih, eq))
      | inr ne ↦ ground (arith, ih, ne)
    ]

count_down-pos : (a b : ℕ) → count_down (pos (a + b)) b ≡ pos a
unfolding count_down
count_down-pos a b = ground arith

delete_object-IsCounted :
    (t : Tree) (object : Bytes) → IsCounted t → IsCounted (delete_object t object)
unfolding delete_object
delete_object-IsCounted t object h =
    let size = without_prefix-length t.parameters object in
    elim (Bool-cases ((without_prefix t.parameters object).1 == 0)) [
      | inl z ↦ rw z (h ∙ ap pos (ground (arith, size)))
      | inr nz ↦
          rw (nz, h)
            (ap (λ n. count_down (pos n) (without_prefix t.parameters object).1) (sym size)
              ∙ count_down-pos (length (without_prefix t.parameters object).0)
                  (without_prefix t.parameters object).1)
    ]

pub delete_object-parameters :
    (t : Tree) (object : Bytes)
    → (delete_object t object).parameters ≡ (without_prefix t.parameters object).0
unfolding delete_object
delete_object-parameters t object = ground arith

-- A deletion takes every parameter whose name starts with the name of the object out of the list, leaves
-- every other name with the parameter that it had, and keeps the count equal to the length of the list.
pub find_parameter-delete_object :
    (t : Tree) (object name : Bytes)
    → IsCounted t
    → (find_parameter (delete_object t object).parameters name
        ≡ (if starts_with object name then none else find_parameter t.parameters name))
      × IsCounted (delete_object t object)
find_parameter-delete_object t object name h = (
  ap (λ ps. find_parameter ps name) (delete_object-parameters t object)
      ∙ find_parameter-without_prefix t.parameters object name,
  delete_object-IsCounted t object h,
)
