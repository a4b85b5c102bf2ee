-- ===== src/Access/Lookup.antt =====
-- What a change of one parameter leaves of the others, in the list of the parameters.
use tr069agent.Prelude.{
  ◌≡◌, refl, sym, ◌∙◌, ap, subst, false, some, List, [], ◌∷◌, if◌then◌else◌, Bytes, str_eq,
  str_eq_iff, str_eq_refl, arith, Bool-cases, Option-cases, inl, inr,
}
use tr069agent.Parameter.Struct.{Parameter, Engine}
use tr069agent.Store.Tree.{find_parameter}
use tr069agent.Store.Tree.Put.{find_parameter-put_in}
use tr069agent.Access.{Manager, find, engine_at, replace, change}

find_parameter-name :
    (ps : List Parameter) (name : Bytes) (p : Parameter)
    → find_parameter ps name ≡ some p
    → p.name ≡ name
unfolding find_parameter
find_parameter-name [] name p h = absurd (ground arith)
find_parameter-name (q ∷ ps) name p h = elim (Bool-cases (str_eq name q.name)) [
  | inl eq ↦
      let same : q ≡ p = ground (arith, eq, h) in
      sym ((str_eq_iff name q.name).0 eq ∙ ap (λ x. x.name) same)
  | inr ne ↦ find_parameter-name ps name p (ground (arith, ne, h))
]

pub find-name : (m : Manager) (name : Bytes) (p : Parameter) → find m name ≡ some p → p.name ≡ name
unfolding find
find-name m name p h = find_parameter-name m.tree.parameters name p h

pub find-replace :
    (m : Manager) (e : Engine) (name : Bytes)
    → find (replace m e) name ≡ (if str_eq name e.param.name then some e.param else find m name)
unfolding find replace
find-replace m e name = find_parameter-put_in m.tree.parameters e.param name

-- What holds of the parameter of a name, if there is one.
abbrev pub At {κ} : (Parameter → Type κ) → Manager → Bytes → Type κ
At P m name = (p : Parameter) → find m name ≡ some p → P p

module _ {κ} (P : Parameter → Type κ) where
  -- The parameter found at `n` is replaced.
  pub replace-At :
      (m : Manager) (n name : Bytes) (p : Parameter) (e : Engine)
      → find m n ≡ some p
      → e.param.name ≡ p.name
      → (P p → P e.param)
      → At P m name
      → At P (replace m e) name
  replace-At m n name p e f same keep h q g = elim (Bool-cases (str_eq name e.param.name)) [
    | inl eq ↦
        let named : name ≡ n = (str_eq_iff name e.param.name).0 eq ∙ same ∙ find-name m n p f in
        let found : find m name ≡ some p = ap (find m) named ∙ f in
        let is : e.param ≡ q = ground (arith, eq, g, find-replace m e name) in
        subst P is (keep (h p found))
    | inr ne ↦ h q (ground (arith, ne, g, find-replace m e name))
  ]

  pub change-At :
      (m : Manager) (n name : Bytes) (f : Engine → Engine)
      → ((e : Engine) → (f e).param.name ≡ e.param.name)
      → ((e : Engine) → P e.param → P (f e).param)
      → At P m name
      → At P (change m n f) name
  unfolding change engine_at
  change-At m n name f same keep h = elim (Option-cases (find m n)) [
    | inl e ↦ rw (change, e) h
    | inr (p, e) ↦
        rw (change, e)
          (replace-At m n name p (f (engine_at m p)) e (same (engine_at m p)) (keep (engine_at m p))
            h)
  ]

pub find-change_other :
    (m : Manager) (n name : Bytes) (f : Engine → Engine)
    → ((e : Engine) → (f e).param.name ≡ e.param.name)
    → str_eq name n ≡ false
    → find (change m n f) name ≡ find m name
unfolding change engine_at
find-change_other m n name f same ne = elim (Option-cases (find m n)) [
  | inl e ↦ rw (change, e) refl
  | inr (p, e) ↦
      let at : (f (engine_at m p)).param.name ≡ n = same (engine_at m p) ∙ find-name m n p e in
      rw (change, e) (find-replace m (f (engine_at m p)) name ∙ rw (at, ne) refl)
]

pub find-change_same :
    (m : Manager) (n : Bytes) (p : Parameter) (f : Engine → Engine)
    → ((e : Engine) → (f e).param.name ≡ e.param.name)
    → find m n ≡ some p
    → find (change m n f) n ≡ some (f (engine_at m p)).param
unfolding change engine_at
find-change_same m n p f same e =
    let at : (f (engine_at m p)).param.name ≡ n = same (engine_at m p) ∙ find-name m n p e in
    rw (change, e) (find-replace m (f (engine_at m p)) n ∙ rw (at, str_eq_refl n) refl)
