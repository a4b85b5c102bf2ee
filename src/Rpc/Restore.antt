-- ===== src/Rpc/Restore.antt =====
-- `DM_ENG_SetParameterAttributes`: attributes that are set back from their backups.
use tr069agent.Prelude.{
  ◌≡◌, ◌≢◌, ◌⊎◌, refl, sym, ap, ◌∙◌, subst, ◌&&◌, ◌||◌, Bool, true, false, Option, none, some, List,
  [], ◌∷◌, Bytes, str_eq, str_eq_iff, arith, Bool-cases, Option-cases, inl, inr, All,
}
use tr069agent.Parameter.Struct.{
  Parameter, Engine, NotificationMode, off, passive, active, unspecified, is_active, save,
}
use tr069agent.Parameter.Value.{set_attributes, with_notification, with_access_list}
use tr069agent.Access.{Manager, find, engine_at, replace}
use tr069agent.Access.Lookup.{find-name, find-replace}
use tr069agent.Rpc.Read.{ParameterAttributes, attributes_of}
use tr069agent.Rpc.Attributes.{restore}

-- The parameter with any attributes.
abbrev pub IsLike : Parameter → Parameter → Type 0
IsLike p₀ p =
    (n : NotificationMode) × (l : Option (List Bytes)) × (p
      ≡ record p₀ { notification = n; access_list = l })

-- The present attributes may be set: there is a mode and a list, and the mode is not refused.
abbrev pub IsRestorable : Parameter → Type 0
IsRestorable p =
    (p.notification ≢ unspecified)
    × ((l : List Bytes) × (p.access_list ≡ some l))
    × ((is_active p.notification && p.active_notification_denied) ≡ false)

abbrev pub Backed : Bytes → Parameter → ParameterAttributes → Type 0
Backed name p₀ a = str_eq name a.name ≡ true → a ≡ attributes_of p₀

with_notification-IsLike :
    (p₀ p : Parameter) (n : NotificationMode) → IsLike p₀ p → IsLike p₀ (with_notification p n)
unfolding with_notification
with_notification-IsLike p₀ p unspecified (m, k, eq) = (m, k, eq)
with_notification-IsLike p₀ p off (m, k, eq) =
    (off, k, ap (λ (q : Parameter). record q { notification = off }) eq)
with_notification-IsLike p₀ p passive (m, k, eq) =
    (passive, k, ap (λ (q : Parameter). record q { notification = passive }) eq)
with_notification-IsLike p₀ p active (m, k, eq) =
    (active, k, ap (λ (q : Parameter). record q { notification = active }) eq)

with_access_list-IsLike :
    (p₀ p : Parameter) (l : Option (List Bytes)) → IsLike p₀ p → IsLike p₀ (with_access_list p l)
unfolding with_access_list
with_access_list-IsLike p₀ p none (m, k, eq) = (m, k, eq)
with_access_list-IsLike p₀ p (some l) (m, k, eq) =
    (m, some l, ap (λ (q : Parameter). record q { access_list = some l }) eq)

pub set_attributes-IsLike :
    (p₀ : Parameter) (e : Engine) (n : NotificationMode) (l : Option (List Bytes))
    → IsLike p₀ e.param
    → IsLike p₀ (set_attributes e n l).1.param
unfolding set_attributes save
set_attributes-IsLike p₀ e n l h =
    elim (Bool-cases (is_active n && e.param.active_notification_denied)) [
      | inl denied ↦ rw (set_attributes, denied) h
      | inr fine ↦
          rw (set_attributes, fine)
            (with_access_list-IsLike p₀ (with_notification e.param n) l
              (with_notification-IsLike p₀ e.param n h))
    ]

pub set_attributes-name :
    (e : Engine) (n : NotificationMode) (l : Option (List Bytes))
    → (set_attributes e n l).1.param.name ≡ e.param.name
set_attributes-name e n l =
    let (m, k, eq) =
      set_attributes-IsLike e.param e n l (e.param.notification, e.param.access_list, refl) in
    ap (λ p. p.name) eq

with_own-attributes :
    (p₀ p : Parameter) (n : NotificationMode) (l : List Bytes)
    → IsLike p₀ p
    → n ≡ p₀.notification
    → n ≢ unspecified
    → p₀.access_list ≡ some l
    → with_access_list (with_notification p n) (some l) ≡ p₀
unfolding with_notification with_access_list
with_own-attributes p₀ p unspecified l (m, k, eq) same set own = absurd (set refl)
with_own-attributes p₀ p off l (m, k, eq) same set own =
    ap (λ (q : Parameter). record q { notification = off; access_list = some l }) eq
    ∙ rw (same, sym own) refl
with_own-attributes p₀ p passive l (m, k, eq) same set own =
    ap (λ (q : Parameter). record q { notification = passive; access_list = some l }) eq
    ∙ rw (same, sym own) refl
with_own-attributes p₀ p active l (m, k, eq) same set own =
    ap (λ (q : Parameter). record q { notification = active; access_list = some l }) eq
    ∙ rw (same, sym own) refl

-- Setting the attributes of `p₀` gives it back.
set_attributes-own :
    (p₀ : Parameter) (e : Engine)
    → IsRestorable p₀
    → IsLike p₀ e.param
    → (set_attributes e p₀.notification p₀.access_list).1.param ≡ p₀
unfolding set_attributes save
set_attributes-own p₀ e (set, (l, own), free) like =
    let (m, k, eq) = like in
    let denied : (is_active p₀.notification && e.param.active_notification_denied) ≡ false =
      ap (λ (q : Parameter). is_active p₀.notification && q.active_notification_denied) eq ∙ free in
    rw (set_attributes, denied, own)
      (with_own-attributes p₀ e.param p₀.notification l like refl set own
        ∙ ap (λ (x : Option (List Bytes)). record p₀ { access_list = x }) own)

abbrev pub is_backed : Bytes → List ParameterAttributes → Bool
is_backed name [] = false
is_backed name (a ∷ rest) = str_eq name a.name || is_backed name rest

-- It is the parameter it was, or one with other attributes that have a backup.
abbrev pub Has : Manager → Bytes → Parameter → List ParameterAttributes → Type 0
Has m name p₀ backs =
    (find m name ≡ some p₀)
    ⊎ ((is_backed name backs ≡ true) × ((p : Parameter) × (find m name ≡ some p) × IsLike p₀ p))

Has-IsLike :
    (m : Manager) (name : Bytes) (p₀ : Parameter) (backs : List ParameterAttributes)
    → Has m name p₀ backs
    → (p : Parameter) × (find m name ≡ some p) × IsLike p₀ p
Has-IsLike m name p₀ backs (inl e) = (p₀, e, (p₀.notification, p₀.access_list, refl))
Has-IsLike m name p₀ backs (inr (_, r)) = r

pub restore-Has :
    (m m' : Manager) (name : Bytes) (p₀ : Parameter) (backs : List ParameterAttributes)
    → IsRestorable p₀
    → All (Backed name p₀) backs
    → Has m name p₀ backs
    → restore m backs ≡ some m'
    → find m' name ≡ some p₀
unfolding restore engine_at attributes_of
restore-Has m m' name p₀ [] able own (inl e) r =
    let same : m ≡ m' = ground (arith, r) in ap (λ y. find y name) (sym same) ∙ e
restore-Has m m' name p₀ [] able own (inr (backed, _)) r = absurd (ground (arith, backed))
restore-Has m m' name p₀ (a ∷ rest) able own h r = elim (Option-cases (find m a.name)) [
  | inl missing ↦ absurd (ground (arith, r, missing))
  | inr (p, found) ↦
      let e : Engine = (set_attributes (engine_at m p) a.notification a.access_list).1 in
      let m₁ = replace m e in
      let at = set_attributes-name (engine_at m p) a.notification a.access_list in
      let named : e.param.name ≡ a.name = at ∙ find-name m a.name p found in
      let put = find-replace m e name in
      let next : restore m₁ rest ≡ some m' = ground (arith, r, found) in
      elim (Bool-cases (str_eq name a.name)) [
        | inl eq ↦
            let (q, there, like) = Has-IsLike m name p₀ (a ∷ rest) h in
            let same : p ≡ q =
              let both : some p ≡ some q =
                sym found ∙ ap (find m) (sym ((str_eq_iff name a.name).0 eq)) ∙ there in
              ground (arith, both) in
            let is : a ≡ attributes_of p₀ = own.0 eq in
            let back : e.param ≡ p₀ =
              ap
                (λ (x : ParameterAttributes).
                  (set_attributes (engine_at m p) x.notification x.access_list).1.param)
                is
              ∙ set_attributes-own p₀ (engine_at m p) able (subst (IsLike p₀) (sym same) like) in
            let hit : str_eq name e.param.name ≡ true = ap (str_eq name) named ∙ eq in
            let now : find m₁ name ≡ some p₀ = put ∙ rw (hit, back) refl in
            restore-Has m₁ m' name p₀ rest able own.1 (inl now) next
        | inr ne ↦
            let miss : str_eq name e.param.name ≡ false = ap (str_eq name) named ∙ ne in
            let kept : find m₁ name ≡ find m name = put ∙ rw miss refl in
            restore-Has m₁ m' name p₀ rest able own.1
              (elim h [
                | inl e ↦ inl (kept ∙ e)
                | inr (backed, (q, there, like)) ↦
                    inr (ground (arith, backed, ne), (q, kept ∙ there, like))
              ])
              next
      ]
]
