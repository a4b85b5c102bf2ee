-- ===== src/Parameter/Name/Instance.antt =====
-- The names of object instances.
use mathlib.Core.List.{reverse, reverse-append, reverse-cons, reverse-reverse}
use tr069agent.Prelude.{
  ℕ, true, [], ◌∷◌, ◌++◌, ◌==◌, ◌≡◌, ◌≢◌, refl, sym, subst, ap, ◌∙◌, Bytes, arith, is_digit,
  length-append, All-append, ◌↔◌, All, Bool-cases, inl, inr, append_assoc,
}
use tr069agent.Parameter.Name.{is_node_instance, node_instance_at, node_instance_loop}

abbrev pub IsDigits : Bytes → Type 0
IsDigits = All (λ c. is_digit c ≡ true)

-- Backwards: digits, at least one, then a dot, and something more.
node_instance_loop-IsDigits :
    (s : Bytes)
    → node_instance_loop s ≡ true
    → (c : ℕ) × (digits base : Bytes) × (s ≡ c ∷ (digits ++ b'.' ∷ base))
      × IsDigits (c ∷ digits)
      × (base ≢ [])
unfolding node_instance_loop
node_instance_loop-IsDigits [] h = absurd (ground arith)
node_instance_loop-IsDigits (c ∷ []) h = absurd (ground arith)
node_instance_loop-IsDigits (c ∷ d ∷ cs) h = elim (Bool-cases (d == b'.')) [
  | inl dot ↦ (c, [], cs, ground arith, (ground arith, tt), λ e. ground arith)
  | inr other ↦
      let (c', digits, base, e, ds, ne) = node_instance_loop-IsDigits (d ∷ cs) (ground arith) in
      (c, c' ∷ digits, base, ap (λ r. c ∷ r) e, (ground arith, ds), ne)
]

digits-node_instance_loop :
    (c : ℕ) (digits base : Bytes)
    → IsDigits (c ∷ digits)
    → base ≢ []
    → node_instance_loop (c ∷ (digits ++ b'.' ∷ base)) ≡ true
unfolding node_instance_loop
digits-node_instance_loop c [] [] ds ne = absurd (ne refl)
digits-node_instance_loop c [] (b ∷ base) ds ne = rw (ds.0) (ground arith)
digits-node_instance_loop c (d ∷ digits) base ds ne =
    ground
      (arith, digits-node_instance_loop d digits base ds.1 ne, length-append digits (b'.' ∷ base))

IsDigits-reverse : (s : Bytes) → IsDigits s → IsDigits (reverse s)
IsDigits-reverse [] h = tt
IsDigits-reverse (c ∷ s) h =
    subst IsDigits (sym (reverse-cons c s))
      (All-append (λ c. is_digit c ≡ true) (reverse s) (c ∷ []) (IsDigits-reverse s h.1) (h.0, tt))

reverse_ne_nil : (s : Bytes) → s ≢ [] → reverse s ≢ []
reverse_ne_nil s ne e = ne (sym (reverse-reverse s) ∙ ap reverse e)

reverse-instance :
    (digits base : Bytes)
    → reverse (b'.' ∷ (digits ++ b'.' ∷ base))
      ≡ reverse base ++ b'.' ∷ (reverse digits ++ b'.' ∷ [])
reverse-instance digits base =
    rw
      (
        reverse-cons b'.' (digits ++ b'.' ∷ base),
        reverse-append digits (b'.' ∷ base),
        reverse-cons b'.' base,
      )
      (append_assoc (reverse base ++ b'.' ∷ []) (reverse digits) (b'.' ∷ [])
        ∙ append_assoc (reverse base) (b'.' ∷ []) (reverse digits ++ b'.' ∷ []))

digits-node_instance_at :
    (digits base : Bytes)
    → IsDigits digits
    → digits ≢ []
    → base ≢ []
    → node_instance_at (b'.' ∷ (digits ++ b'.' ∷ base)) ≡ true
unfolding node_instance_at
digits-node_instance_at [] base ds ne nb = absurd (ne refl)
digits-node_instance_at (c ∷ digits) base ds ne nb = digits-node_instance_loop c digits base ds nb

-- The name of an object instance: something, a dot, digits and a dot.
abbrev pub IsInstance : Bytes → Type 0
IsInstance name =
    (base digits : Bytes) × (name ≡ base ++ b'.' ∷ (digits ++ b'.' ∷ []))
    × IsDigits digits
    × (digits ≢ [])
    × (base ≢ [])

node_instance_at-IsInstance : (s : Bytes) → node_instance_at s ≡ true → IsInstance (reverse s)
unfolding node_instance_at
node_instance_at-IsInstance [] h = absurd (ground arith)
node_instance_at-IsInstance (c ∷ s) h =
    let (d, digits, base, e, ds, ne) = node_instance_loop-IsDigits s (ground arith) in
    let dot : c ≡ b'.' = ground arith in
    (
      reverse base,
      reverse (d ∷ digits),
      rw (dot, e) (reverse-instance (d ∷ digits) base),
      IsDigits-reverse (d ∷ digits) ds,
      reverse_ne_nil (d ∷ digits) (λ q. ground arith),
      reverse_ne_nil base ne,
    )

IsInstance-reverse :
    (base digits : Bytes)
    → reverse (base ++ b'.' ∷ (digits ++ b'.' ∷ []))
      ≡ b'.' ∷ (reverse digits ++ b'.' ∷ reverse base)
IsInstance-reverse base digits =
    ap reverse {x = base ++ b'.' ∷ (digits ++ b'.' ∷ [])} (
      sym (
        reverse-instance (reverse digits) (reverse base)
        ∙ rw (reverse-reverse digits, reverse-reverse base) refl))
    ∙ reverse-reverse (b'.' ∷ (reverse digits ++ b'.' ∷ reverse base))

-- A name is taken for that of an object instance exactly if it is of the form `Xxx.999.`, where Xxx
-- is not empty and 999 stands for one digit at least.
pub is_node_instance_iff : (name : Bytes) → (is_node_instance name ≡ true) ↔ IsInstance name
unfolding is_node_instance
is_node_instance_iff name = (
  λ h. subst IsInstance (reverse-reverse name) (node_instance_at-IsInstance (reverse name) h),
  λ (base, digits, e, ds, nd, nb).
      rw (e, IsInstance-reverse base digits)
        (digits-node_instance_at (reverse digits) (reverse base) (IsDigits-reverse digits ds)
          (reverse_ne_nil digits nd) (reverse_ne_nil base nb)),
)
