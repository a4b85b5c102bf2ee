-- ===== src/Rpc/Rollback.antt =====
-- `DM_ENG_SetParameterAttributes` with a fault: the attributes are the previous ones.
use tr069agent.Prelude.{
  ℕ, ◌==◌, ◌≡◌, ◌≢◌, ◌⊎◌, refl, sym, ap, ◌∙◌, subst, ◌||◌, true, false, Option, some, List, [], ◌∷◌,
  ◌++◌, Bytes, str_eq, str_eq_iff, arith, Bool-cases, Option-cases, inl, inr, All, All-append,
}
use tr069agent.Parameter.Struct.{Parameter, Engine, NotificationMode}
use tr069agent.Parameter.Value.{set_attributes}
use tr069agent.Access.{Manager, Platform, entity_acs, find, engine_at, replace, is_hidden}
use tr069agent.Parameter.Name.{has_two_dots}
use tr069agent.Access.Lookup.{find-name, find-replace}
use tr069agent.Access.Restored.{Leaves}
use tr069agent.Rpc.Read.{ParameterAttributes, attributes_of, is_path}
use tr069agent.Rpc.Attributes.{
  Request, mode_of, set_single, set_loaded, request_one, request_all, restore,
  set_parameter_attributes,
}
use tr069agent.Rpc.Restore.{
  Backed, Has, IsLike, IsRestorable, is_backed, set_attributes-IsLike, set_attributes-name,
  restore-Has,
}

-- No request has the name.
abbrev pub IsFreeOf : Bytes → List Request → Type 0
IsFreeOf name = All (λ r. str_eq name r.name ≡ false)

abbrev pub IsOnce : Bytes → List Request → Type 0
IsOnce name [] = Unit
IsOnce name (r ∷ rs) =
    ((str_eq name r.name ≡ true) × IsFreeOf name rs)
    ⊎ ((str_eq name r.name ≡ false) × IsOnce name rs)

-- Each request is for a single parameter.
abbrev pub AreSingle : List Request → Type 0
AreSingle = All (λ r. is_path r.name ≡ false)

-- What a request for a single parameter does: nothing, or a change behind the load.
abbrev IsDoneBy : Platform → Manager → Request → ℕ × List ParameterAttributes × Manager → Type 0
IsDoneBy pf m r result =
    (m₁ : Manager) × ((m₁ ≡ m) ⊎ (m₁ ≡ (pf.load m r.name false).1))
    × ((result.1 ≡ []) × (result.2 ≡ m₁)
        ⊎ ((n : NotificationMode) × (p : Parameter) × (find m₁ r.name ≡ some p)
            × (result ≡ set_single m₁ n r.access_list p)))

set_loaded-single :
    (m : Manager) (n : NotificationMode) (l : Option (List Bytes)) (name : Bytes)
    → is_path name ≡ false
    → (((set_loaded m n l name).1 ≡ []) × ((set_loaded m n l name).2 ≡ m))
      ⊎ ((p : Parameter) × (find m name ≡ some p) × (set_loaded m n l name ≡ set_single m n l p))
unfolding set_loaded
set_loaded-single m n l [] single = absurd (ground (arith, single))
set_loaded-single m n l (c ∷ cs) single = elim (Option-cases (find m (c ∷ cs))) [
  | inl missing ↦ inl (ground (arith, missing), ground (arith, missing))
  | inr (p, found) ↦ elim (Bool-cases (has_two_dots (c ∷ cs) || is_hidden p)) [
    | inl bad ↦ inl (ground (arith, found, bad), ground (arith, found, bad))
    | inr fine ↦ inr (p, found, ground (arith, found, fine, single))
  ]
]

request_one-IsDoneBy :
    (pf : Platform) (m : Manager) (r : Request)
    → is_path r.name ≡ false
    → IsDoneBy pf m r (request_one pf m r)
unfolding request_one
request_one-IsDoneBy pf m r single =
    let m₁ = (pf.load m r.name false).1 in
    let code = (pf.load m r.name false).0 in
    elim (Option-cases (mode_of r.notification)) [
      | inl bad ↦ (m, inl refl, inl (ground (arith, bad), ground (arith, bad)))
      | inr (n, good) ↦ elim (Bool-cases (code == 0)) [
        | inr bad ↦ (m₁, inr refl, inl (ground (arith, good, bad), ground (arith, good, bad)))
        | inl ok ↦
            let same : request_one pf m r ≡ set_loaded m₁ n r.access_list r.name =
              ground (arith, good, ok) in
            elim (set_loaded-single m₁ n r.access_list r.name single) [
              | inl (a, b) ↦ (m₁, inr refl, inl (ap (λ x. x.1) same ∙ a, ap (λ x. x.2) same ∙ b))
              | inr (p, found, is) ↦ (m₁, inr refl, inr (n, p, found, same ∙ is))
            ]
      ]
    ]

done_by-find :
    (pf : Platform) (m m₁ : Manager) (r : Request) (name : Bytes)
    → Leaves pf name
    → (m₁ ≡ m) ⊎ (m₁ ≡ (pf.load m r.name false).1)
    → find m₁ name ≡ find m name
done_by-find pf m m₁ r name leaves (inl e) = ap (λ y. find y name) e
done_by-find pf m m₁ r name leaves (inr e) = ap (λ y. find y name) e ∙ leaves.1 m r.name false

abbrev Unbacked : Bytes → ParameterAttributes → Type 0
Unbacked name a = str_eq name a.name ≡ false

-- A request for another name.
request_one-other :
    (pf : Platform) (m : Manager) (r : Request) (name : Bytes)
    → Leaves pf name
    → is_path r.name ≡ false
    → str_eq name r.name ≡ false
    → (find (request_one pf m r).2 name ≡ find m name) × All (Unbacked name) (request_one pf m r).1
unfolding set_single attributes_of engine_at
request_one-other pf m r name leaves single ne =
    let (m₁, load, done) = request_one-IsDoneBy pf m r single in
    let kept = done_by-find pf m m₁ r name leaves load in
    elim done [
      | inl (backs, same) ↦
          (ap (λ y. find y name) same ∙ kept, subst (All (Unbacked name)) (sym backs) tt)
      | inr (n, p, found, is) ↦
          let e : Engine = (set_attributes (engine_at m₁ p) n r.access_list).1 in
          let named : p.name ≡ r.name = find-name m₁ r.name p found in
          let other : str_eq name p.name ≡ false = ap (str_eq name) named ∙ ne in
          let other' : str_eq name e.param.name ≡ false =
            ap (str_eq name) (set_attributes-name (engine_at m₁ p) n r.access_list) ∙ other in
          let put : find (replace m₁ e) name ≡ find m₁ name =
            find-replace m₁ e name ∙ rw other' refl in
          (
            ap (λ x. find x.2 name) is ∙ put ∙ kept,
            subst (All (Unbacked name)) (sym (ap (λ x. x.1) is)) (other, tt),
          )
    ]

-- The request for this name.
request_one-Has :
    (pf : Platform) (m : Manager) (r : Request) (name : Bytes) (p₀ : Parameter)
    → Leaves pf name
    → is_path r.name ≡ false
    → str_eq name r.name ≡ true
    → find m name ≡ some p₀
    → Has (request_one pf m r).2 name p₀ (request_one pf m r).1
      × All (Backed name p₀) (request_one pf m r).1
unfolding set_single attributes_of engine_at
request_one-Has pf m r name p₀ leaves single eq there =
    let (m₁, load, done) = request_one-IsDoneBy pf m r single in
    let kept = done_by-find pf m m₁ r name leaves load ∙ there in
    elim done [
      | inl (backs, same) ↦
          (inl (ap (λ y. find y name) same ∙ kept), subst (All (Backed name p₀)) (sym backs) tt)
      | inr (n, p, found, is) ↦
          let both : some p ≡ some p₀ =
            sym found ∙ ap (find m₁) (sym ((str_eq_iff name r.name).0 eq)) ∙ kept in
          let same : p ≡ p₀ = ground (arith, both) in
          let e : Engine = (set_attributes (engine_at m₁ p) n r.access_list).1 in
          let named : p.name ≡ r.name = find-name m₁ r.name p found in
          let hit : str_eq name p.name ≡ true = ap (str_eq name) named ∙ eq in
          let hit' : str_eq name e.param.name ≡ true =
            ap (str_eq name) (set_attributes-name (engine_at m₁ p) n r.access_list) ∙ hit in
          let put : find (replace m₁ e) name ≡ some e.param =
            find-replace m₁ e name ∙ rw hit' refl in
          let like : IsLike p₀ p = (p₀.notification, p₀.access_list, same) in
          let backed : is_backed name (request_one pf m r).1 ≡ true =
            ap (λ x. is_backed name x.1) is ∙ rw hit refl in
          (
            inr (
              backed,
              (
                e.param,
                ap (λ x. find x.2 name) is ∙ put,
                set_attributes-IsLike p₀ (engine_at m₁ p) n r.access_list like,
              ),
            ),
            subst (All (Backed name p₀)) (sym (ap (λ x. x.1) is)) (λ h. ap attributes_of same, tt),
          )
    ]

request_all-other :
    (pf : Platform) (m : Manager) (rs : List Request) (name : Bytes)
    → Leaves pf name
    → AreSingle rs
    → IsFreeOf name rs
    → (find (request_all pf m rs).2 name ≡ find m name)
      × All (Unbacked name) (request_all pf m rs).1
unfolding request_all
request_all-other pf m [] name leaves single free = (refl, tt)
request_all-other pf m (r ∷ rs) name leaves single free =
    let one = request_one-other pf m r name leaves single.0 free.0 in
    let m₁ = (request_one pf m r).2 in
    let rest = request_all-other pf m₁ rs name leaves single.1 free.1 in
    elim (Bool-cases ((request_one pf m r).0 == 0)) [
      | inr bad ↦ rw (request_all, bad) one
      | inl ok ↦
          rw (request_all, ok)
            (
              rest.0 ∙ one.0,
              All-append (Unbacked name) (request_one pf m r).1 (request_all pf m₁ rs).1 one.1
                  rest.1,
            )
    ]

is_backed-append :
    (name : Bytes) (xs ys : List ParameterAttributes)
    → is_backed name (xs ++ ys) ≡ (is_backed name xs || is_backed name ys)
is_backed-append name [] ys = refl
is_backed-append name (x ∷ xs) ys = ground (arith, is_backed-append name xs ys)

Unbacked-Backed :
    (name : Bytes) (p₀ : Parameter) (xs : List ParameterAttributes)
    → All (Unbacked name) xs
    → All (Backed name p₀) xs
Unbacked-Backed name p₀ [] h = tt
Unbacked-Backed name p₀ (x ∷ xs) h =
    (λ e. absurd (ground (arith, e, h.0)), Unbacked-Backed name p₀ xs h.1)

request_all-Has :
    (pf : Platform) (m : Manager) (rs : List Request) (name : Bytes) (p₀ : Parameter)
    → Leaves pf name
    → AreSingle rs
    → IsOnce name rs
    → find m name ≡ some p₀
    → Has (request_all pf m rs).2 name p₀ (request_all pf m rs).1
      × All (Backed name p₀) (request_all pf m rs).1
unfolding request_all
request_all-Has pf m [] name p₀ leaves single once there = (inl there, tt)
request_all-Has pf m (r ∷ rs) name p₀ leaves single once there =
    let m₁ = (request_one pf m r).2 in
    let xs = (request_one pf m r).1 in
    let ys = (request_all pf m₁ rs).1 in
    let ok = Bool-cases ((request_one pf m r).0 == 0) in
    elim once [
      | inl (eq, free) ↦
          let (has, own) = request_one-Has pf m r name p₀ leaves single.0 eq there in
          let (kept, none') = request_all-other pf m₁ rs name leaves single.1 free in
          elim ok [
            | inr bad ↦ rw (request_all, bad) (has, own)
            | inl fine ↦
                rw (request_all, fine)
                  (
                    elim has [
                      | inl e ↦ inl (kept ∙ e)
                      | inr (backed, (q, e, like)) ↦
                          inr (
                            ground (arith, backed, is_backed-append name xs ys),
                            (q, kept ∙ e, like),
                          )
                    ],
                    All-append (Backed name p₀) xs ys own (Unbacked-Backed name p₀ ys none'),
                  )
          ]
      | inr (ne, later) ↦
          let (kept, none') = request_one-other pf m r name leaves single.0 ne in
          let (has, own) = request_all-Has pf m₁ rs name p₀ leaves single.1 later (kept ∙ there) in
          elim ok [
            | inr bad ↦ rw (request_all, bad) (inl (kept ∙ there), Unbacked-Backed name p₀ xs none')
            | inl fine ↦
                rw (request_all, fine)
                  (
                    elim has [
                      | inl e ↦ inl e
                      | inr (backed, more) ↦
                          inr (ground (arith, backed, is_backed-append name xs ys), more)
                    ],
                    All-append (Backed name p₀) xs ys (Unbacked-Backed name p₀ xs none') own,
                  )
          ]
    ]

-- When the answer to a request of attributes is a fault, a parameter that stands in it at most once is
-- the one it was, with all its fields. The requests are for single parameters, loads leave the
-- parameter as it is, and its attributes are ones that may be set: a mode that is not refused, and a
-- list.
pub set_parameter_attributes-IsRestorable :
    (pf : Platform) (m m' : Manager) (entity code : ℕ) (rs : List Request) (name : Bytes)
    (p₀ : Parameter)
    → Leaves pf name
    → AreSingle rs
    → IsOnce name rs
    → IsRestorable p₀
    → find m name ≡ some p₀
    → set_parameter_attributes pf m entity rs ≡ some (code, m')
    → code ≢ 0
    → find m' name ≡ some p₀
unfolding set_parameter_attributes
set_parameter_attributes-IsRestorable pf m m' entity code rs name p₀ leaves single once able there e
      fault =
    let m₁ = (request_all pf m rs).2 in
    let backs = (request_all pf m rs).1 in
    elim (Bool-cases (entity == entity_acs)) [
      | inr other ↦
          let same : m ≡ m' = ground (arith, e, other) in ap (λ y. find y name) (sym same) ∙ there
      | inl acs ↦ elim (Bool-cases ((request_all pf m rs).0 == 0)) [
        | inl ok ↦ absurd (ground (arith, e, acs, ok, fault))
        | inr bad ↦ elim (Option-cases (restore m₁ backs)) [
          | inl crash ↦ absurd (ground (arith, e, acs, bad, crash))
          | inr (m₂, done) ↦
              let same : m₂ ≡ m' = ground (arith, e, acs, bad, done) in
              let (has, own) = request_all-Has pf m rs name p₀ leaves single once there in
              ap (λ y. find y name) (sym same) ∙ restore-Has m₁ m₂ name p₀ backs able own has done
        ]
      ]
    ]
