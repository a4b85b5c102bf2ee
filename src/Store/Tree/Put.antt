-- ===== src/Store/Tree/Put.antt =====
-- Putting a parameter in the list: the list as a table by name, and its length.
use tr069agent.Prelude.{
  ℕ, suc, false, some, List, [], ◌∷◌, ◌≡◌, refl, ap, sym, ◌∙◌, if◌then◌else◌, Bytes, str_eq,
  str_eq_iff, length, length-append, arith, Bool-cases, inl, inr,
}
use tr069agent.Prelude.Int.{pos}
use tr069agent.Parameter.Struct.{Parameter}
use tr069agent.Store.Tree.{
  Tree, find_parameter, put_in, has_name, count_up, put_parameter, add_parameter,
}

pub str_eq_sym : (a b : Bytes) → str_eq a b ≡ str_eq b a
str_eq_sym a b = ground (arith, str_eq_iff a b, str_eq_iff b a)

pub find_parameter-put_in :
    (ps : List Parameter) (q : Parameter) (name : Bytes)
    → find_parameter (put_in ps q) name
      ≡ (if str_eq name q.name then some q else find_parameter ps name)
unfolding find_parameter put_in
find_parameter-put_in [] q name = refl
find_parameter-put_in (p ∷ ps) q name = elim (Bool-cases (str_eq q.name p.name)) [
  | inl eq ↦
      let same : str_eq name q.name ≡ str_eq name p.name =
        ap (str_eq name) ((str_eq_iff q.name p.name).0 eq) in
      rw eq (ground (arith, same))
  | inr ne ↦ elim (Bool-cases (str_eq name p.name)) [
    | inl eq ↦
        let other : str_eq name q.name ≡ false =
          ap (λ s. str_eq s q.name) ((str_eq_iff name p.name).0 eq)
          ∙ str_eq_sym p.name q.name
          ∙ ne in
        rw (ne, eq, other) refl
    | inr ne' ↦ rw (ne, ne') (find_parameter-put_in ps q name)
  ]
]

pub length-put_in :
    (ps : List Parameter) (q : Parameter)
    → length (put_in ps q) ≡ (if has_name ps q.name then length ps else suc (length ps))
unfolding put_in has_name
length-put_in [] q = refl
length-put_in (p ∷ ps) q = ground (arith, length-put_in ps q)

count_up-pos : (n : ℕ) → count_up (pos n) 1 ≡ pos (suc n)
unfolding count_up
count_up-pos n = ground arith

-- The count of the parameters is the length of the list.
abbrev pub IsCounted : Tree → Type 0
IsCounted t = t.nb_parameters ≡ pos (length t.parameters)

pub put_parameter-IsCounted :
    (t : Tree) (q : Parameter) → IsCounted t → IsCounted (put_parameter t q)
unfolding put_parameter
put_parameter-IsCounted t q h = elim (Bool-cases (has_name t.parameters q.name)) [
  | inl eq ↦ rw (eq, h) (ap pos (sym (length-put_in t.parameters q ∙ rw eq refl)))
  | inr ne ↦
      rw (ne, h)
        (count_up-pos (length t.parameters)
          ∙ ap pos (sym (length-put_in t.parameters q ∙ rw ne refl)))
]

pub add_parameter-IsCounted :
    (t : Tree) (q : Parameter) → IsCounted t → IsCounted (add_parameter t q)
unfolding add_parameter
add_parameter-IsCounted t q h = rw h (
    count_up-pos (length t.parameters)
    ∙ ap pos (omega (arith, length-append t.parameters (q ∷ []))))
