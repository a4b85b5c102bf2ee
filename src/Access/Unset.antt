-- ===== src/Access/Unset.antt =====
-- `unsetParameter` and `commitParameter`: what they keep, and that no change is pending behind them.
use tr069agent.Prelude.{
  ℕ, zero, suc, ◌≡◌, refl, sym, ◌∙◌, subst, ap, false, Option, none, some, if◌then◌else◌, Bytes,
  arith, Option-cases, Bool-cases, inl, inr, str_eq_refl,
}
use tr069agent.Parameter.Struct.{Parameter, Engine, save}
use tr069agent.Parameter.Name.{is_node}
use tr069agent.Parameter.Value.{cancel_change, commit, committed}
use tr069agent.Access.{Manager, Platform, find, engine_at, replace, next_name}
use tr069agent.Access.Commit.{unset_parameter, commit_parameter, after_commit}
use tr069agent.Access.Lookup.{At, find-name, find-replace, replace-At}
use tr069agent.Access.Restored.{HasValue}

-- No change is requested.
abbrev pub IsSettled : Parameter → Type 0
IsSettled p = p.state.change_requested ≡ false

pub cancel_change-name : (e : Engine) → (cancel_change e).1.param.name ≡ e.param.name
unfolding cancel_change save
cancel_change-name e = ground arith

pub cancel_change-IsSettled : (e : Engine) → IsSettled (cancel_change e).1.param
unfolding cancel_change save
cancel_change-IsSettled e = ground arith

pub cancel_change-HasValue :
    (p₀ : Parameter) (e : Engine) → HasValue p₀ e.param → HasValue p₀ (cancel_change e).1.param
unfolding cancel_change save
cancel_change-HasValue p₀ e (mode, inl (free, same)) =
    rw (cancel_change, free) (mode, inl (refl, same))
cancel_change-HasValue p₀ e (mode, inr (pending, back)) =
    rw (cancel_change, pending) (mode, inl (refl, back))

replace-IsSettled :
    (m : Manager) (n : Bytes) (p : Parameter) (e : Engine)
    → find m n ≡ some p
    → e.param.name ≡ p.name
    → IsSettled e.param
    → At IsSettled (replace m e) n
replace-IsSettled m n p e found same settled q g =
    let at : e.param.name ≡ n = same ∙ find-name m n p found in
    let is : some e.param ≡ some q = sym (find-replace m e n ∙ rw (at, str_eq_refl n) refl) ∙ g in
    ground (arith, is, settled)

module _ {κ} (P : Parameter → Type κ) where
  -- What the cancellation of a change keeps, the whole chain of cancellations keeps.
  pub unset_parameter-At :
      (pf : Platform) (fuel : ℕ) (m m' : Manager) (n name : Bytes)
      → ((e : Engine) → P e.param → P (cancel_change e).1.param)
      → unset_parameter pf fuel m n ≡ some m'
      → At P m name
      → At P m' name
  unfolding unset_parameter engine_at
  unset_parameter-At pf zero m m' n name keep r h = absurd (ground arith)
  unset_parameter-At pf (suc fuel) m m' n name keep r h = elim (Option-cases (find m n)) [
    | inl missing ↦
        let same : m ≡ m' = ground (arith, missing, r) in
        subst (λ (x : Manager). At P x name) same h
    | inr (p, found) ↦ elim (Bool-cases (is_node p.name)) [
      | inl node ↦
          let same : m ≡ m' = ground (arith, found, node, r) in
          subst (λ (x : Manager). At P x name) same h
      | inr leaf ↦
          let e : Engine = engine_at m p in
          let next : Option Bytes = if (cancel_change e).0 then next_name pf p else none in
          let kept =
            replace-At P m n name p (cancel_change e).1 found (cancel_change-name e) (keep e) h in
          elim (Option-cases next) [
            | inl stop ↦
                let same : replace m (cancel_change e).1 ≡ m' =
                  ground (arith, found, leaf, r, stop) in
                subst (λ (x : Manager). At P x name) same kept
            | inr (n', go) ↦
                unset_parameter-At pf fuel (replace m (cancel_change e).1) m' n' name keep
                  (ground (arith, found, leaf, r, go)) kept
          ]
    ]
  ]

-- Behind it, no change of the parameter is pending.
pub unset_parameter-IsSettled :
    (pf : Platform) (fuel : ℕ) (m m' : Manager) (n : Bytes)
    → is_node n ≡ false
    → unset_parameter pf fuel m n ≡ some m'
    → At IsSettled m' n
unfolding unset_parameter engine_at
unset_parameter-IsSettled pf zero m m' n leaf r = absurd (ground arith)
unset_parameter-IsSettled pf (suc fuel) m m' n leaf r = elim (Option-cases (find m n)) [
  | inl missing ↦
      let same : m ≡ m' = ground (arith, missing, r) in
      λ q g. absurd (ground (arith, missing, g, same))
  | inr (p, found) ↦
      let leaf' : is_node p.name ≡ false = ap is_node (find-name m n p found) ∙ leaf in
      let e : Engine = engine_at m p in
      let next : Option Bytes = if (cancel_change e).0 then next_name pf p else none in
      let settled =
        replace-IsSettled m n p (cancel_change e).1 found (cancel_change-name e)
          (cancel_change-IsSettled e) in
      elim (Option-cases next) [
        | inl stop ↦
            let same : replace m (cancel_change e).1 ≡ m' = ground (arith, found, leaf', r, stop) in
            subst (λ (x : Manager). At IsSettled x n) same settled
        | inr (n', go) ↦
            unset_parameter-At IsSettled pf fuel (replace m (cancel_change e).1) m' n' n
              (λ e h. cancel_change-IsSettled e) (ground (arith, found, leaf', r, go)) settled
      ]
]

after_commit-find :
    (pf : Platform) (m m' : Manager) (p : Parameter) (name : Bytes)
    → after_commit pf m p ≡ some m'
    → find m' name ≡ find m name
unfolding after_commit find
after_commit-find pf m m' p name e = ground (arith, e)

pub commit-name :
    (device_status : Bytes) (e : Engine) → (commit device_status e).param.name ≡ e.param.name
unfolding commit committed
commit-name s e = refl

pub commit-IsSettled :
    (device_status : Bytes) (e : Engine) → IsSettled (commit device_status e).param
unfolding commit committed
commit-IsSettled s e = refl

module _ {κ} (P : Parameter → Type κ) where
  pub commit_parameter-At :
      (pf : Platform) (fuel : ℕ) (m m' : Manager) (n name : Bytes)
      → ((e : Engine) → P e.param → P (commit pf.names.device_status e).param)
      → commit_parameter pf fuel m n ≡ some m'
      → At P m name
      → At P m' name
  unfolding commit_parameter engine_at
  commit_parameter-At pf zero m m' n name keep r h = absurd (ground arith)
  commit_parameter-At pf (suc fuel) m m' n name keep r h = elim (Option-cases (find m n)) [
    | inl missing ↦
        let same : m ≡ m' = ground (arith, missing, r) in
        subst (λ (x : Manager). At P x name) same h
    | inr (p, found) ↦ elim (Bool-cases (is_node p.name)) [
      | inl node ↦
          let same : m ≡ m' = ground (arith, found, node, r) in
          subst (λ (x : Manager). At P x name) same h
      | inr leaf ↦
          let e : Engine = commit pf.names.device_status (engine_at m p) in
          elim (Option-cases (after_commit pf (replace m e) e.param)) [
            | inl crash ↦ absurd (ground (arith, found, leaf, r, crash))
            | inr (done, after) ↦
                let kept : At P done name = λ q g.
                  replace-At P m n name p e found
                    (commit-name pf.names.device_status (engine_at m p)) (keep (engine_at m p)) h q
                    (sym (after_commit-find pf (replace m e) done e.param name after) ∙ g) in
                elim (Option-cases (next_name pf p)) [
                  | inl stop ↦
                      let same : done ≡ m' = ground (arith, found, leaf, r, after, stop) in
                      subst (λ (x : Manager). At P x name) same kept
                  | inr (n', go) ↦
                      commit_parameter-At pf fuel done m' n' name keep
                        (ground (arith, found, leaf, r, after, go)) kept
                ]
          ]
    ]
  ]

pub commit_parameter-IsSettled :
    (pf : Platform) (fuel : ℕ) (m m' : Manager) (n : Bytes)
    → is_node n ≡ false
    → commit_parameter pf fuel m n ≡ some m'
    → At IsSettled m' n
unfolding commit_parameter engine_at
commit_parameter-IsSettled pf zero m m' n leaf r = absurd (ground arith)
commit_parameter-IsSettled pf (suc fuel) m m' n leaf r = elim (Option-cases (find m n)) [
  | inl missing ↦
      let same : m ≡ m' = ground (arith, missing, r) in
      λ q g. absurd (ground (arith, missing, g, same))
  | inr (p, found) ↦
      let leaf' : is_node p.name ≡ false = ap is_node (find-name m n p found) ∙ leaf in
      let e : Engine = commit pf.names.device_status (engine_at m p) in
      elim (Option-cases (after_commit pf (replace m e) e.param)) [
        | inl crash ↦ absurd (ground (arith, found, leaf', r, crash))
        | inr (done, after) ↦
            let settled : At IsSettled done n = λ q g.
              replace-IsSettled m n p e found (commit-name pf.names.device_status (engine_at m p))
                (commit-IsSettled pf.names.device_status (engine_at m p)) q
                (sym (after_commit-find pf (replace m e) done e.param n after) ∙ g) in
            elim (Option-cases (next_name pf p)) [
              | inl stop ↦
                  let same : done ≡ m' = ground (arith, found, leaf', r, after, stop) in
                  subst (λ (x : Manager). At IsSettled x n) same settled
              | inr (n', go) ↦
                  commit_parameter-At IsSettled pf fuel done m' n' n
                    (λ e h. commit-IsSettled pf.names.device_status e)
                    (ground (arith, found, leaf', r, after, go)) settled
            ]
      ]
]
