-- ===== src/Access/Objects/Numbers.antt =====
-- `addObject`: the numbers of the instances.
use tr069agent.Prelude.{
  ℕ, zero, suc, ◌+◌, ◌^◌, ◌<◌, ◌≡◌, refl, sym, ap, ◌∙◌, Bool, false, ◌&&◌, leb, some, List, [], ◌∷◌,
  ◌++◌, drop, length, length-append, Bytes, str_eq, str_eq_iff, arith, Bool-cases, Option-cases,
  inl, inr,
}
use tr069agent.Prelude.Int.{ℤ, pos}
use tr069agent.Common.Number.{uint_to_string}
use tr069agent.Common.Number.RoundTrip.{StartsDigit, uint_to_string-StartsDigit}
use tr069agent.Parameter.Struct.{Parameter, Engine, StorageMode, dm_only, same_storage, save}
use tr069agent.Parameter.Name.{is_node}
use tr069agent.Parameter.Check.{to_uint}
use tr069agent.Parameter.Make.{new_instance_parameter}
use tr069agent.Parameter.Value.{commit, committed, update_value}
use tr069agent.Store.Tree.{
  Tree, find_parameter, put_parameter, prototype_rest, instance_name, put_instance, create_from,
  create_instance,
}
use tr069agent.Store.Tree.Instances.{List-cases}
use tr069agent.Store.Tree.Put.{find_parameter-put_in}
use tr069agent.Access.{Manager, Platform, find, change, engine_at}
use tr069agent.Access.Lookup.{find-name, find-change_same}
use tr069agent.Access.Set.{applied_status}
use tr069agent.Access.Objects.{
  Added, add_object, add_fault, numbered, dropped, raise, inserted, insert_instance,
  relocate_instances, relocate_all, relocation, int_max_ℕ,
}

-- A name with a number behind it is longer.
longer-str_eq :
    (object rest : Bytes) (n : ℕ) → str_eq object (object ++ uint_to_string n ++ rest) ≡ false
longer-str_eq object rest n =
    elim (Bool-cases (str_eq object (object ++ uint_to_string n ++ rest))) [
      | inr other ↦ other
      | inl eq ↦
          let same = (str_eq_iff object (object ++ uint_to_string n ++ rest)).0 eq in
          let long : 0 < length (uint_to_string n) =
            digits_long (uint_to_string n) (uint_to_string-StartsDigit n) in
          absurd (
            omega (
              arith,
              long,
              ap (λ (s : Bytes). length s) same,
              length-append (object ++ uint_to_string n) rest,
              length-append object (uint_to_string n),
            ))
    ]
  where
    digits_long : (s : Bytes) → StartsDigit s → 0 < length s
    digits_long [] h = absurd h
    digits_long (c ∷ s) h = omega arith

put_parameter-find :
    (t : Tree) (q : Parameter) (name : Bytes)
    → str_eq name q.name ≡ false
    → find_parameter (put_parameter t q).parameters name ≡ find_parameter t.parameters name
unfolding put_parameter
put_parameter-find t q name ne = find_parameter-put_in t.parameters q name ∙ rw ne refl

put_instance-find :
    (t t' : Tree) (object : Bytes) (n : ℕ) (prm : Parameter)
    → put_instance t object n prm ≡ some t'
    → find_parameter t'.parameters object ≡ find_parameter t.parameters object
unfolding put_instance instance_name new_instance_parameter
put_instance-find t t' object n prm e = elim (Option-cases (prototype_rest object prm.name)) [
  | inl skip ↦
      let same : t ≡ t' = ground (arith, e, skip) in
      ap (λ (x : Tree). find_parameter x.parameters object) (sym same)
  | inr (rest, found) ↦ elim (Option-cases (instance_name object n rest)) [
    | inl long ↦ absurd (ground (arith, e, found, long))
    | inr (name, fits) ↦
        let named : object ++ uint_to_string n ++ rest ≡ name = ground (arith, fits) in
        let q : Parameter = new_instance_parameter name prm in
        let same : put_parameter t q ≡ t' = ground (arith, e, found, fits) in
        let other : str_eq object name ≡ false =
          ap (str_eq object) (sym named) ∙ longer-str_eq object rest n in
        ap (λ (x : Tree). find_parameter x.parameters object) (sym same)
        ∙ put_parameter-find t q object other
  ]
]

create_from-find :
    (fuel k : ℕ) (t t' : Tree) (object : Bytes) (n : ℕ)
    → create_from fuel k t object n ≡ some t'
    → find_parameter t'.parameters object ≡ find_parameter t.parameters object
unfolding create_from
create_from-find zero k t t' object n e = absurd (ground (arith, e))
create_from-find (suc fuel) k t t' object n e = elim (List-cases (drop k t.parameters)) [
  | inl end ↦
      let same : t ≡ t' = ground (arith, e, end) in
      ap (λ (x : Tree). find_parameter x.parameters object) (sym same)
  | inr (prm, rest, next) ↦ elim (Option-cases (put_instance t object n prm)) [
    | inl long ↦ absurd (ground (arith, e, next, long))
    | inr (t₁, put) ↦
        create_from-find fuel (suc k) t₁ t' object n (ground (arith, e, next, put))
        ∙ put_instance-find t t₁ object n prm put
  ]
]

-- The parameter of the object is not touched when an instance is created.
create_instance-find :
    (t t' : Tree) (p : Parameter) (n : ℕ)
    → create_instance t p n ≡ some t'
    → find_parameter t'.parameters p.name ≡ find_parameter t.parameters p.name
unfolding create_instance instance_name new_instance_parameter
create_instance-find t t' p n e = elim (Option-cases (instance_name p.name n (b'.' ∷ []))) [
  | inl long ↦ absurd (ground (arith, e, long))
  | inr (name, fits) ↦
      let q : Parameter = new_instance_parameter name p in
      let base = put_parameter t q in
      let fuel = suc (length base.parameters + length base.parameters) in
      let named : p.name ++ uint_to_string n ++ b'.' ∷ [] ≡ name = ground (arith, fits) in
      let other : str_eq p.name name ≡ false =
        ap (str_eq p.name) (sym named) ∙ longer-str_eq p.name (b'.' ∷ []) n in
      elim (Option-cases (create_from fuel 0 base p.name n)) [
        | inl stop ↦ absurd (ground (arith, e, fits, stop))
        | inr (t₁, created) ↦
            let same : t'.parameters ≡ t₁.parameters = ground (arith, e, fits, created) in
            ap (λ ps. find_parameter ps p.name) same
            ∙ create_from-find fuel 0 base t₁ p.name n created
            ∙ put_parameter-find t q p.name other
      ]
]

-- The number and the mode stay when definitions are relocated.
abbrev IsNumbered : ℤ → StorageMode → Parameter → Type 0
IsNumbered n mode p = (p.min_value ≡ n) × (p.storage_mode ≡ mode)

relocate_all-find :
    (skip : ℕ) (object instance name : Bytes) (saved : Bool) (ps : List Parameter) (p : Parameter)
    → find_parameter ps name ≡ some p
    → (q : Parameter) × (find_parameter (relocate_all skip object instance saved ps).0 name
        ≡ some q)
      × IsNumbered p.min_value p.storage_mode q
unfolding relocate_all find_parameter
relocate_all-find skip object instance name saved [] p h = absurd (ground (arith, h))
relocate_all-find skip object instance name saved (x ∷ ps) p h =
    elim (Option-cases (relocation skip object instance x)) [
      | inl stay ↦
          rw (relocate_all, stay)
            (elim (Bool-cases (str_eq name x.name)) [
              | inl eq ↦
                  let same : x ≡ p = ground (arith, h, eq) in
                  (x, rw eq refl, (ap (λ y. y.min_value) same, ap (λ y. y.storage_mode) same))
              | inr ne ↦
                  let (q, found, kept) =
                    relocate_all-find skip object instance name saved ps p
                      (ground (arith, h, ne)) in
                  (q, rw ne found, kept)
            ])
      | inr (d, moved) ↦
          rw (relocate_all, moved)
            (elim (Bool-cases (str_eq name x.name)) [
              | inl eq ↦
                  let same : x ≡ p = ground (arith, h, eq) in
                  (
                    record x { definition = some d },
                    rw eq refl,
                    (ap (λ y. y.min_value) same, ap (λ y. y.storage_mode) same),
                  )
              | inr ne ↦
                  let (q, found, kept) =
                    relocate_all-find skip object instance name saved ps p
                      (ground (arith, h, ne)) in
                  (q, rw ne found, kept)
            ])
    ]

numbered-name : (pf : Platform) (e : Engine) → (numbered pf e).param.name ≡ e.param.name
unfolding numbered commit committed save
numbered-name pf e = refl

dropped-name : (pf : Platform) (e : Engine) → (dropped pf e).param.name ≡ e.param.name
unfolding dropped update_value commit committed save
dropped-name pf e = refl

dropped-IsNumbered :
    (pf : Platform) (e : Engine)
    → IsNumbered e.param.min_value e.param.storage_mode (dropped pf e).param
unfolding dropped update_value commit committed save
dropped-IsNumbered pf e = (refl, refl)

insert_instance-find :
    (pf : Platform) (m m' : Manager) (object : Bytes) (n : ℕ) (p : Parameter)
    → find m object ≡ some p
    → insert_instance pf m object n ≡ some m'
    → (q : Parameter) × (find m' object ≡ some q) × IsNumbered p.min_value p.storage_mode q
unfolding insert_instance relocate_instances find engine_at
insert_instance-find pf m m' object n p found e =
    let m₁ = change m object (dropped pf) in
    let p₁ : Parameter = (dropped pf (engine_at m p)).param in
    let there : find m₁ object ≡ some p₁ =
      find-change_same m object p (dropped pf) (dropped-name pf) found in
    let named = find-name m₁ object p₁ there in
    elim (Option-cases (create_instance m₁.tree p₁ n)) [
      | inl long ↦ absurd (ground (arith, e, there, long))
      | inr (t, created) ↦
          let m₂ : Manager = record m₁ { tree = relocate_instances pf t object n } in
          let last : m₂ ≡ m' = ground (arith, e, there, created) in
          let kept : find_parameter t.parameters object ≡ some p₁ =
            ap (find_parameter t.parameters) (sym named)
            ∙ create_instance-find m₁.tree t p₁ n created
            ∙ ap (find m₁) named
            ∙ there in
          let skip = length pf.names.prefix in
          let (q, at, same) =
            relocate_all-find skip (drop skip object)
              (drop skip object ++ uint_to_string n ++ b'.' ∷ []) object t.data_changed t.parameters
              p₁ kept in
          let start = dropped-IsNumbered pf (engine_at m p) in
          (
            q,
            ap (λ (x : Manager). find x object) (sym last) ∙ at,
            (same.0 ∙ start.0, same.1 ∙ start.1),
          )
    ]

numbered-IsNumbered :
    (pf : Platform) (e : Engine)
    → IsNumbered (raise e.param.min_value) e.param.storage_mode (numbered pf e).param
unfolding numbered commit committed save
numbered-IsNumbered pf e = (refl, refl)

raise-pos : (k : ℕ) → raise (pos k) ≡ pos (suc k)
unfolding raise
raise-pos k = ground arith

to_uint-small : (n : ℕ) → n < 2 ^ 31 → to_uint (pos n) ≡ n
unfolding to_uint
to_uint-small n h = omega (arith, h)

room-lt : (k : ℕ) → leb int_max_ℕ (to_uint (pos k)) ≡ false → k < 2 ^ 31 → suc k < 2 ^ 31
unfolding to_uint
room-lt k room int = ground (arith, room, int)

-- An object whose instances the engine numbers itself has the last number as its minimum. Where an
-- instance is added without a fault, it gets the next number, which is at most 2147483647 and which the
-- object then has as its last one: the next instance gets a number that is greater by one.
pub add_object_numbers :
    (pf : Platform) (m : Manager) (entity k : ℕ) (object : Bytes) (p : Parameter) (a : Added)
    → find m object ≡ some p
    → p.storage_mode ≡ dm_only
    → p.min_value ≡ pos k
    → k < 2 ^ 31
    → add_object pf m entity object ≡ some a
    → a.code ≡ 0
    → (a.number ≡ some (suc k))
      × (suc k < 2 ^ 31)
      × ((q : Parameter) × (find a.manager object ≡ some q)
          × (q.storage_mode ≡ dm_only)
          × (q.min_value ≡ pos (suc k)))
unfolding add_object inserted add_fault same_storage to_uint engine_at
add_object_numbers pf m entity k object p a found mode last int e ok =
    let n = to_uint (raise p.min_value) in
    let m₁ = change m object (numbered pf) in
    let p₁ : Parameter = (numbered pf (engine_at m p)).param in
    let there : find m₁ object ≡ some p₁ =
      find-change_same m object p (numbered pf) (numbered-name pf) found in
    let start = numbered-IsNumbered pf (engine_at m p) in
    let next : raise p.min_value ≡ pos (suc k) = ap raise last ∙ raise-pos k in
    elim (Bool-cases (is_node p.name && p.writable)) [
      | inr bad ↦ absurd (ground (arith, e, ok, found, bad))
      | inl good ↦ elim (Bool-cases (leb int_max_ℕ (to_uint p.min_value))) [
        | inl full ↦ absurd (ground (arith, e, ok, found, good, full, mode))
        | inr room ↦
            let small : suc k < 2 ^ 31 =
              room-lt k (ap (λ (x : ℤ). leb int_max_ℕ (to_uint x)) (sym last) ∙ room) int in
            elim (Option-cases (insert_instance pf m₁ object n)) [
              | inl long ↦ absurd (ground (arith, e, found, good, room, mode, long))
              | inr (m₂, done) ↦
                  let answer : a ≡ record {
                    code = 0;
                    number = some n;
                    status = applied_status p;
                    manager = m₂;
                  } =
                    ground (arith, e, found, good, room, mode, done) in
                  let (q, at, same) = insert_instance-find pf m₁ m₂ object n p₁ there done in
                  (
                    ap (λ (x : Added). x.number) answer
                        ∙ ap some (ap to_uint next ∙ to_uint-small (suc k) small),
                    small,
                    (
                      q,
                      ap (λ (x : Added). find x.manager object) answer ∙ at,
                      same.1 ∙ start.1 ∙ mode,
                      same.0 ∙ start.0 ∙ next,
                    ),
                  )
            ]
      ]
    ]
