-- ===== src/Store/Tree/Create.antt =====
-- `DM_ENG_ParameterData_createInstance`: the parameters of a new instance.
use tr069agent.Prelude.{
  ℕ, zero, suc, ◌+◌, ◌≤◌, ◌<◌, true, Option, some, List, [], ◌∷◌, ◌++◌, ◌≡◌, refl, ap, sym, ◌∙◌,
  subst, Bytes, length, drop, arith, Option-cases, inl, inr,
}
use tr069agent.Common.Number.{uint_to_string}
use tr069agent.Common.Number.RoundTrip.{uint_to_string-StartsDigit}
use tr069agent.Parameter.Struct.{Parameter}
use tr069agent.Parameter.Make.{new_instance_parameter}
use tr069agent.Store.Tree.{
  Tree, max_line_len, find_parameter, put_in, put_parameter, prototype_rest, put_instance,
  create_from, create_instance,
}
use tr069agent.Store.Tree.Put.{IsCounted, put_parameter-IsCounted}
use tr069agent.Store.Tree.Instances.{
  instances, puts, find_last, FitLine, find_parameter-puts, prototype_rest-digits, instances-none,
  instances-some, instances-put_in, length-drop-put_in, drop-suc, List-cases, put_instance-none,
  instance_name_fits, put_instance-some,
}

create_from_end :
    (fuel k : ℕ) (t : Tree) (object : Bytes) (n : ℕ)
    → drop k t.parameters ≡ []
    → create_from (suc fuel) k t object n ≡ some t
unfolding create_from
create_from_end fuel k t object n e = rw (create_from, e) refl

create_from_step :
    (fuel k : ℕ) (t t' : Tree) (object : Bytes) (n : ℕ) (p : Parameter) (rest : List Parameter)
    → drop k t.parameters ≡ p ∷ rest
    → put_instance t object n p ≡ some t'
    → create_from (suc fuel) k t object n ≡ create_from fuel (suc k) t' object n
unfolding create_from
create_from_step fuel k t t' object n p rest e f = rw (create_from, e, f) refl

abbrev Created : Tree → List Parameter → Option Tree → Type 0
Created t qs r = (t' : Tree) × (r ≡ some t') × (t'.parameters ≡ puts t.parameters qs) × IsCounted t'

create_from-Created :
    (fuel k : ℕ) (t : Tree) (object : Bytes) (n : ℕ)
    → length (drop k t.parameters) + length (instances object n (drop k t.parameters)) < fuel
    → FitLine (instances object n (drop k t.parameters))
    → IsCounted t
    → Created t (instances object n (drop k t.parameters)) (create_from fuel k t object n)
unfolding put_parameter new_instance_parameter
create_from-Created zero k t object n lt fit h = absurd (omega (arith, lt))
create_from-Created (suc fuel) k t object n lt fit h = elim (List-cases (drop k t.parameters)) [
  | inl e ↦ (t, create_from_end fuel k t object n e, rw e refl, h)
  | inr (p, rest, e) ↦
      let size = ap (λ l. length l) e in
      let next = drop-suc k t.parameters rest p e in
      elim (Option-cases (prototype_rest object p.name)) [
        | inl skip ↦
            let same =
              ap (instances object n) e
              ∙ instances-none object n p rest skip
              ∙ sym (ap (instances object n) next) in
            let (t', f, g, c) =
              create_from-Created fuel (suc k) t object n
                (omega (arith, lt, size, ap (λ l. length l) same, ap (λ l. length l) next))
                (subst FitLine same fit) h in
            (
              t',
              create_from_step fuel k t t object n p rest e (put_instance-none t object n p skip)
                  ∙ f,
              g ∙ ap (puts t.parameters) (sym same),
              c,
            )
        | inr (r, found) ↦
            let q : Parameter = new_instance_parameter (object ++ uint_to_string n ++ r) p in
            let all = ap (instances object n) e ∙ instances-some object n p rest r found in
            let fit' = subst FitLine all fit in
            let same : instances object n (drop (suc k) (put_parameter t q).parameters)
                ≡ instances object n rest =
              instances-put_in object n (suc k) t.parameters q
                (prototype_rest-digits object (uint_to_string n) r (uint_to_string-StartsDigit n))
              ∙ ap (instances object n) next in
            let (t', f, g, c) =
              create_from-Created fuel (suc k) (put_parameter t q) object n
                (omega (
                  arith,
                  lt,
                  size,
                  ap (λ l. length l) same,
                  ap (λ l. length l) all,
                  ap (λ l. length l) next,
                  length-drop-put_in (suc k) t.parameters q,
                ))
                (subst FitLine (sym same) fit'.1) (put_parameter-IsCounted t q h) in
            (
              t',
              create_from_step fuel k t (put_parameter t q) object n p rest e
                    (put_instance-some t object n p r found fit'.0)
                  ∙ f,
              g ∙ ap (puts (put_in t.parameters q)) same ∙ sym (ap (puts t.parameters) all),
              c,
            )
      ]
]

abbrev pub first_instance : Parameter → ℕ → Parameter
first_instance param n = new_instance_parameter (param.name ++ uint_to_string n ++ b'.' ∷ []) param

-- The parameter of the instance itself, and those below it.
abbrev pub new_instances : Tree → Parameter → ℕ → List Parameter
new_instances t param n = first_instance param n ∷ instances param.name n t.parameters

create_instance_between :
    (t t' : Tree) (param : Parameter) (n : ℕ)
    → length (param.name ++ uint_to_string n ++ b'.' ∷ []) < max_line_len
    → (let base = put_parameter t (first_instance param n) in
        create_from (suc (length base.parameters + length base.parameters)) 0 base param.name n)
      ≡ some t'
    → create_instance t param n ≡ some (record t' { data_changed = true })
unfolding create_instance
create_instance_between t t' param n lt e =
    rw (create_instance, instance_name_fits param.name n (b'.' ∷ []) lt, e) refl

length-instances :
    (object : Bytes) (n : ℕ) (ps : List Parameter) → length (instances object n ps) ≤ length ps
length-instances object n [] = omega arith
length-instances object n (p ∷ ps) = elim (Option-cases (prototype_rest object p.name)) [
  | inl e ↦
      omega
        (arith, length-instances object n ps, ap (λ l. length l) (instances-none object n p ps e))
  | inr (r, e) ↦
      omega
        (arith, length-instances object n ps, ap (λ l. length l) (instances-some object n p ps r e))
]

-- The creation of an instance ends, and each name then has the parameter that is copied for it from
-- the object or from one of its prototypes, the last one if there are several, and else the one that
-- it had; the count stays equal to the length of the list, and the data are marked as changed. The names
-- of the new parameters are taken to fit in the buffer of 800 bytes.
pub find_parameter-create_instance :
    (t : Tree) (param : Parameter) (n : ℕ) (name : Bytes)
    → FitLine (new_instances t param n)
    → IsCounted t
    → (t' : Tree) × (create_instance t param n ≡ some t')
      × (find_parameter t'.parameters name
          ≡ find_last (new_instances t param n) name (find_parameter t.parameters name))
      × IsCounted t'
      × (t'.data_changed ≡ true)
unfolding put_parameter new_instance_parameter
find_parameter-create_instance t param n name fit h =
    let q = first_instance param n in
    let base = put_parameter t q in
    let same : instances param.name n (drop 0 base.parameters)
        ≡ instances param.name n t.parameters =
      instances-put_in param.name n 0 t.parameters q (
        prototype_rest-digits param.name (uint_to_string n) (b'.' ∷ [])
          (uint_to_string-StartsDigit n)) in
    let (t', f, g, c) =
      create_from-Created (suc (length base.parameters + length base.parameters)) 0 base param.name
        n (omega (arith, length-instances param.name n base.parameters))
        (subst FitLine (sym same) fit.1) (put_parameter-IsCounted t q h) in
    (
      record t' { data_changed = true },
      create_instance_between t t' param n fit.0 f,
      ap (λ ps. find_parameter ps name) (g ∙ ap (puts base.parameters) same)
          ∙ find_parameter-puts (new_instances t param n) t.parameters name,
      c,
      refl,
    )
