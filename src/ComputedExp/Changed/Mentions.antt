-- ===== src/ComputedExp/Changed/Mentions.antt =====
-- The flags of an expression are those of the parameters it names.
use tr069agent.Prelude.{
  ◌≡◌, refl, Bool, true, false, ◌||◌, Option, none, some, List, [], ◌∷◌, ◌++◌, arith, if◌then◌else◌,
  Bytes, codes, str_eq, Bool-cases, inl, inr,
}
use tr069agent.ComputedExp.Exp.{
  Exp, list, guard, cons, concat, logic, cmp, calc, sign, negation, ident, call,
}
use tr069agent.ComputedExp.Value.{Env, attribute_name}
use tr069agent.ComputedExp.Changed.{
  Changes, ValueChanged, is_predefined_function, parameter_changes, attribute_changes, both_changes,
  guard_changes, is_changed,
}

abbrev as_list : Option Bytes → List Bytes
as_list none = []
as_list (some name) = name ∷ []

-- The parameters that an expression names: its identifiers, those of the arguments of Class and
-- DiffTime, and the attribute that any other call stands for; not those of a guard's condition.
abbrev pub mentions : Exp → List Bytes
mentions (list l r) = mentions l ++ mentions r
mentions (cons l r) = mentions l ++ mentions r
mentions (concat l r) = mentions l ++ mentions r
mentions (logic op l r) = mentions l ++ mentions r
mentions (cmp op l r) = mentions l ++ mentions r
mentions (calc op l r) = mentions l ++ mentions r
mentions (sign op e) = mentions e
mentions (negation e) = mentions e
mentions (ident s) = s ∷ []
mentions (call g (list a b)) =
    if str_eq g (codes "Class") || str_eq g (codes "DiffTime")
    then mentions a ++ mentions b
    else as_list (attribute_name a g)
mentions (call g a) =
    if str_eq g (codes "DiffTime") then mentions a else as_list (attribute_name a g)
mentions (guard g e) = mentions e
mentions _ = []

-- No call of DiffTime, and none of Class with a single argument.
abbrev pub HasNoDates : Exp → Type 0
HasNoDates (list l r) = HasNoDates l × HasNoDates r
HasNoDates (cons l r) = HasNoDates l × HasNoDates r
HasNoDates (concat l r) = HasNoDates l × HasNoDates r
HasNoDates (logic op l r) = HasNoDates l × HasNoDates r
HasNoDates (cmp op l r) = HasNoDates l × HasNoDates r
HasNoDates (calc op l r) = HasNoDates l × HasNoDates r
HasNoDates (sign op e) = HasNoDates e
HasNoDates (negation e) = HasNoDates e
HasNoDates (call g (list a b)) = (str_eq g (codes "DiffTime") ≡ false) × HasNoDates a × HasNoDates b
HasNoDates (call g a) = (str_eq g (codes "DiffTime") ≡ false) × (str_eq g (codes "Class") ≡ false)
HasNoDates (guard g e) = HasNoDates e
HasNoDates _ = Unit {0}

-- Whether a test holds of a parameter of the list.
abbrev pub some_of : (Bytes → Bool) → List Bytes → Bool
some_of p [] = false
some_of p (name ∷ names) = p name || some_of p names

some_of-append :
    (p : Bytes → Bool) (xs ys : List Bytes) → some_of p (xs ++ ys) ≡ (some_of p xs || some_of p ys)
some_of-append p [] ys = refl
some_of-append p (x ∷ xs) ys = ground (arith, some_of-append p xs ys)

-- The flags are known, and are those of the parameters `names`.
abbrev Exact : ValueChanged → List Bytes → Changes → Type 0
Exact f names c =
    c.known ≡ true
    → (c.changed ≡ some_of (λ n. (f n).0) names) × (c.pushed ≡ some_of (λ n. (f n).1) names)

both_changes-Exact :
    (f : ValueChanged) (xs ys : List Bytes) (l r : Changes)
    → Exact f xs l
    → Exact f ys r
    → Exact f (xs ++ ys) (both_changes l r)
unfolding both_changes
both_changes-Exact f xs ys l r h k =
    ground (arith, some_of-append (λ n. (f n).0) xs ys, some_of-append (λ n. (f n).1) xs ys)

attribute-Exact :
    (f : ValueChanged) (arg : Exp) (g : Bytes)
    → Exact f (as_list (attribute_name arg g)) (attribute_changes f arg g)
unfolding attribute_changes parameter_changes
attribute-Exact f arg g = ground arith

parameter-Exact : (f : ValueChanged) (s : Bytes) → Exact f (s ∷ []) (parameter_changes f s)
unfolding parameter_changes
parameter-Exact f s = ground arith

guard-Exact :
    (f : ValueChanged) (o : Option Bool) (names : List Bytes) (c : Changes)
    → Exact f names c
    → Exact f names (guard_changes o c)
unfolding guard_changes
guard-Exact f (some true) names c h = h
guard-Exact f _ names c h = λ e. cc

pair_call-Exact :
    (f : ValueChanged) (g : Bytes) (xs ys : List Bytes) (l r : Changes)
    → str_eq g (codes "DiffTime") ≡ false
    → Exact f xs l
    → Exact f ys r
    → Exact f
        (if str_eq g (codes "Class") || str_eq g (codes "DiffTime") then xs else ys)
        (if is_predefined_function g then l else r)
unfolding is_predefined_function
pair_call-Exact f g xs ys l r no_date h k =
    rw no_date (elim (Bool-cases (str_eq g (codes "Class"))) [ inl y ↦ rw y h | inr n ↦ rw n k ])

single_call-Exact :
    (f : ValueChanged) (g : Bytes) (xs ys : List Bytes) (l r : Changes)
    → str_eq g (codes "DiffTime") ≡ false
    → str_eq g (codes "Class") ≡ false
    → Exact f ys r
    → Exact f
        (if str_eq g (codes "DiffTime") then xs else ys)
        (if is_predefined_function g then l else r)
unfolding is_predefined_function
single_call-Exact f g xs ys l r no_date no_class k = rw (no_date, no_class) k

is_changed-Exact :
    (f : ValueChanged) (env : Env) (e : Exp)
    → HasNoDates e
    → Exact f (mentions e) (is_changed f env e)
unfolding is_changed
is_changed-Exact f env (list l r) h =
    both_changes-Exact f _ _ _ _ (is_changed-Exact f env l h.0) (is_changed-Exact f env r h.1)
is_changed-Exact f env (cons l r) h =
    both_changes-Exact f _ _ _ _ (is_changed-Exact f env l h.0) (is_changed-Exact f env r h.1)
is_changed-Exact f env (concat l r) h =
    both_changes-Exact f _ _ _ _ (is_changed-Exact f env l h.0) (is_changed-Exact f env r h.1)
is_changed-Exact f env (logic op l r) h =
    both_changes-Exact f _ _ _ _ (is_changed-Exact f env l h.0) (is_changed-Exact f env r h.1)
is_changed-Exact f env (cmp op l r) h =
    both_changes-Exact f _ _ _ _ (is_changed-Exact f env l h.0) (is_changed-Exact f env r h.1)
is_changed-Exact f env (calc op l r) h =
    both_changes-Exact f _ _ _ _ (is_changed-Exact f env l h.0) (is_changed-Exact f env r h.1)
is_changed-Exact f env (sign op e) h = is_changed-Exact f env e h
is_changed-Exact f env (negation e) h = is_changed-Exact f env e h
is_changed-Exact f env (ident s) h = parameter-Exact f s
is_changed-Exact f env (call g (list a b)) h =
    pair_call-Exact f g _ _ _ _ h.0
      (both_changes-Exact f _ _ _ _ (is_changed-Exact f env a h.1) (is_changed-Exact f env b h.2))
      (attribute-Exact f a g)
is_changed-Exact f env (call g a) h = single_call-Exact f g _ _ _ _ h.0 h.1 (attribute-Exact f a g)
is_changed-Exact f env (guard g e) h = guard-Exact f _ _ _ (is_changed-Exact f env e h)
is_changed-Exact f env _ h = λ e. (refl, refl)

-- In an expression without DiffTime and without Class of a single argument: where the function answers,
-- the expression has changed exactly if one of the parameters that it names has, and was pushed exactly
-- if one of them was; although the right side of an operator is not asked once both flags are set. It
-- names its identifiers, those of the arguments of Class, and the attribute that any other call stands
-- for; the condition of a guard is left aside.
pub is_changed-mentions :
    (f : ValueChanged) (env : Env) (e : Exp)
    → HasNoDates e
    → (is_changed f env e).known ≡ true
    → ((is_changed f env e).changed ≡ some_of (λ n. (f n).0) (mentions e))
      × ((is_changed f env e).pushed ≡ some_of (λ n. (f n).1) (mentions e))
is_changed-mentions f env e h = is_changed-Exact f env e h
