-- ===== src/Store/Tree/Instances.antt =====
-- The parameters of a new instance, and what putting one of them in the list changes.
use tr069agent.Prelude.{
  ℕ, zero, suc, ◌+◌, ◌≤◌, ◌<◌, Option, none, some, List, [], ◌∷◌, ◌++◌, ◌≡◌, ◌⊎◌, refl, ap, sym,
  ◌∙◌, if◌then◌else◌, lt→ltb, Bytes, str_eq, str_eq_iff, length, length-append, is_digit, drop, All,
  arith, Bool-cases, Option-cases, inl, inr,
}
use tr069agent.Common.Number.{uint_to_string}
use tr069agent.Common.Number.RoundTrip.{StartsDigit}
use tr069agent.Parameter.Struct.{Parameter}
use tr069agent.Parameter.Make.{new_instance_parameter}
use tr069agent.Store.Tree.{
  Tree, max_line_len, find_parameter, put_in, put_parameter, instance_name, prototype_rest,
  put_instance,
}
use tr069agent.Store.Tree.Put.{find_parameter-put_in, length-put_in}

-- The new parameters, one for each parameter of the list that is a prototype of the object.
abbrev pub instances : Bytes → ℕ → List Parameter → List Parameter
instances object n [] = []
instances object n (p ∷ ps) = elim (prototype_rest object p.name) [
  | none ↦ instances object n ps
  | some rest ↦
      new_instance_parameter (object ++ uint_to_string n ++ rest) p ∷ instances object n ps
]

abbrev pub puts : List Parameter → List Parameter → List Parameter
puts ps [] = ps
puts ps (q ∷ qs) = puts (put_in ps q) qs

-- The last parameter of a name, or else the one given.
abbrev pub find_last : List Parameter → Bytes → Option Parameter → Option Parameter
find_last [] name old = old
find_last (q ∷ qs) name old = find_last qs name (if str_eq name q.name then some q else old)

abbrev pub FitLine : List Parameter → Type 0
FitLine = All (λ q. length q.name < max_line_len)

pub find_parameter-puts :
    (qs ps : List Parameter) (name : Bytes)
    → find_parameter (puts ps qs) name ≡ find_last qs name (find_parameter ps name)
find_parameter-puts [] ps name = refl
find_parameter-puts (q ∷ qs) ps name =
    find_parameter-puts qs (put_in ps q) name
    ∙ ap (find_last qs name) (find_parameter-put_in ps q name)

-- A new name is no name of a prototype: a digit follows the object's.
pub prototype_rest-digits :
    (object s r : Bytes) → StartsDigit s → prototype_rest object (object ++ s ++ r) ≡ none
unfolding prototype_rest is_digit
prototype_rest-digits [] [] r h = absurd h
prototype_rest-digits [] (c ∷ s) r h = ground arith
prototype_rest-digits (o ∷ os) s r h = ground (arith, prototype_rest-digits os s r h)

pub instances-none :
    (object : Bytes) (n : ℕ) (p : Parameter) (ps : List Parameter)
    → prototype_rest object p.name ≡ none
    → instances object n (p ∷ ps) ≡ instances object n ps
instances-none object n p ps e = rw (instances, e) refl

pub instances-some :
    (object : Bytes) (n : ℕ) (p : Parameter) (ps : List Parameter) (r : Bytes)
    → prototype_rest object p.name ≡ some r
    → instances object n (p ∷ ps)
      ≡ new_instance_parameter (object ++ uint_to_string n ++ r) p ∷ instances object n ps
instances-some object n p ps r e = rw (instances, e) refl

pub instances-put_in :
    (object : Bytes) (n k : ℕ) (ps : List Parameter) (q : Parameter)
    → prototype_rest object q.name ≡ none
    → instances object n (drop k (put_in ps q)) ≡ instances object n (drop k ps)
unfolding put_in
instances-put_in object n zero [] q h = rw (instances, h) refl
instances-put_in object n (suc zero) [] q h = refl
instances-put_in object n (suc (suc k)) [] q h = refl
instances-put_in object n zero (p ∷ ps) q h = elim (Bool-cases (str_eq q.name p.name)) [
  | inl eq ↦
      let h' : prototype_rest object p.name ≡ none =
        ap (prototype_rest object) (sym ((str_eq_iff q.name p.name).0 eq)) ∙ h in
      rw eq (instances-none object n q ps h ∙ sym (instances-none object n p ps h'))
  | inr ne ↦ elim (Option-cases (prototype_rest object p.name)) [
    | inl e ↦ rw ne (
        instances-none object n p (put_in ps q) e
        ∙ instances-put_in object n zero ps q h
        ∙ sym (instances-none object n p ps e))
    | inr (r, e) ↦ rw ne (
        instances-some object n p (put_in ps q) r e
        ∙ ap (λ l. new_instance_parameter (object ++ uint_to_string n ++ r) p ∷ l)
            (instances-put_in object n zero ps q h)
        ∙ sym (instances-some object n p ps r e))
  ]
]
instances-put_in object n (suc k) (p ∷ ps) q h = elim (Bool-cases (str_eq q.name p.name)) [
  | inl eq ↦ rw eq refl
  | inr ne ↦ rw ne (instances-put_in object n k ps q h)
]

pub length-drop-put_in :
    (k : ℕ) (ps : List Parameter) (q : Parameter)
    → length (drop k (put_in ps q)) ≤ suc (length (drop k ps))
unfolding put_in
length-drop-put_in zero ps q = ground (arith, length-put_in ps q)
length-drop-put_in (suc zero) [] q = omega arith
length-drop-put_in (suc (suc k)) [] q = omega arith
length-drop-put_in (suc k) (p ∷ ps) q = elim (Bool-cases (str_eq q.name p.name)) [
  | inl eq ↦ rw eq (omega arith)
  | inr ne ↦ rw ne (length-drop-put_in k ps q)
]

pub drop-suc :
    (k : ℕ) (ps rest : List Parameter) (p : Parameter)
    → drop k ps ≡ p ∷ rest
    → drop (suc k) ps ≡ rest
drop-suc zero [] rest p e = absurd (ground arith)
drop-suc zero (x ∷ ps) rest p e = ground (arith, e)
drop-suc (suc k) [] rest p e = absurd (ground arith)
drop-suc (suc k) (x ∷ ps) rest p e = drop-suc k ps rest p e

pub List-cases :
    (l : List Parameter) → (l ≡ []) ⊎ ((p : Parameter) × (rest : List Parameter) × (l ≡ p ∷ rest))
List-cases [] = inl refl
List-cases (p ∷ rest) = inr (p, rest, refl)

-- A parameter of the list is no prototype, or the parameter of its instance is put in.
pub put_instance-none :
    (t : Tree) (object : Bytes) (n : ℕ) (p : Parameter)
    → prototype_rest object p.name ≡ none
    → put_instance t object n p ≡ some t
unfolding put_instance
put_instance-none t object n p e = rw (put_instance, e) refl

pub instance_name_fits :
    (object : Bytes) (n : ℕ) (r : Bytes)
    → length (object ++ uint_to_string n ++ r) < max_line_len
    → instance_name object n r ≡ some (object ++ uint_to_string n ++ r)
unfolding instance_name
instance_name_fits object n r lt =
    let size : length (object ++ uint_to_string n ++ r)
        ≡ length object + length (uint_to_string n) + length r =
      omega (
        arith,
        length-append (object ++ uint_to_string n) r,
        length-append object (uint_to_string n),
      ) in
    rw
      (lt→ltb (length object + length (uint_to_string n) + length r) max_line_len
        (omega (arith, lt, size)))
      refl

pub put_instance-some :
    (t : Tree) (object : Bytes) (n : ℕ) (p : Parameter) (r : Bytes)
    → prototype_rest object p.name ≡ some r
    → length (object ++ uint_to_string n ++ r) < max_line_len
    → put_instance t object n p
      ≡ some (put_parameter t (new_instance_parameter (object ++ uint_to_string n ++ r) p))
unfolding put_instance
put_instance-some t object n p r e lt = rw (put_instance, e, instance_name_fits object n r lt) refl
