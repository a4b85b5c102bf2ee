-- ===== src/ComputedExp/Parse/Termination.antt =====
-- The parser ends: every call either goes down one level of precedence, or behind a token.
use tr069agent.Prelude.{
  ℕ, suc, zero, ◌+◌, ◌*◌, ◌<◌, ◌≤◌, ◌≡◌, ◌≢◌, Option, none, some, List, [], ◌∷◌, Bytes, codes,
  str_eq, length, arith, Bool-cases, inl, inr,
}
use tr069agent.ComputedExp.Exp.{Exp, Op, SignOp, call, ident, negation, sign}
use tr069agent.ComputedExp.Level.{
  next_is, concat_at, or_at, and_at, cond_at, sum_at, prod_at, attach, Prim, open_paren, bang,
  sign_of, atom, name, other, prim_of,
}
use tr069agent.ComputedExp.Parse.{
  Parsed, ok, failed, crash, out_of_fuel, ◌>>=◌, close, parse_list, parse_guard, parse_cons,
  parse_concat, parse_or, parse_and, parse_cond, parse_sum, parse_prod, parse_prim, accept,
  parse_tokens,
}

-- The parser has not run out of fuel, and has left `m` tokens at most.
abbrev Ends : ℕ → Parsed → Type 0
Ends m (ok p) = length p.1 ≤ m
Ends m failed = Unit {0}
Ends m crash = Unit {0}
Ends m out_of_fuel = ⊥

Ends->>= :
    (m : ℕ) (p : Parsed) (f : Exp × List Bytes → Parsed)
    → Ends m p
    → ((q : Exp × List Bytes) → length q.1 ≤ m → Ends m (f q))
    → Ends m (p >>= f)
Ends->>= m (ok q) f h k = k q h
Ends->>= m failed f h k = tt
Ends->>= m crash f h k = tt
Ends->>= m out_of_fuel f h k = h

Ends-mono : (m n : ℕ) (p : Parsed) → m ≤ n → Ends m p → Ends n p
Ends-mono m n (ok q) h e = omega arith
Ends-mono m n failed h e = tt
Ends-mono m n crash h e = tt
Ends-mono m n out_of_fuel h e = e

Ends-close : (m : ℕ) (e : Exp) (ts : List Bytes) → length ts ≤ m → Ends m (close e ts)
unfolding close
Ends-close m e [] h = tt
Ends-close m e (tok ∷ ts) h = elim (Bool-cases (str_eq tok (codes ")"))) [
  | inl y ↦ rw y (omega arith)
  | inr n ↦ rw n tt
]

-- What follows the operator, or the separator, that was asked for is shorter.
abbrev Shorter : List Bytes → Option (List Bytes) → Type 0
Shorter ts none = Unit {0}
Shorter ts (some rest) = suc (length rest) ≡ length ts

abbrev ShorterOp : List Bytes → Option (Op × List Bytes) → Type 0
ShorterOp ts none = Unit {0}
ShorterOp ts (some p) = suc (length p.1) ≡ length ts

next_is-Shorter : (s : Bytes) (ts : List Bytes) → Shorter ts (next_is s ts)
unfolding next_is
next_is-Shorter s [] = tt
next_is-Shorter s (tok ∷ ts) = ground arith

concat_at-ShorterOp : (ts : List Bytes) → ShorterOp ts (concat_at ts)
unfolding concat_at
concat_at-ShorterOp [] = tt
concat_at-ShorterOp (tok ∷ ts) = ground arith

or_at-ShorterOp : (ts : List Bytes) → ShorterOp ts (or_at ts)
unfolding or_at
or_at-ShorterOp [] = tt
or_at-ShorterOp (tok ∷ ts) = ground arith

and_at-ShorterOp : (ts : List Bytes) → ShorterOp ts (and_at ts)
unfolding and_at
and_at-ShorterOp [] = tt
and_at-ShorterOp (tok ∷ ts) = ground arith

cond_at-ShorterOp : (ts : List Bytes) → ShorterOp ts (cond_at ts)
unfolding cond_at
cond_at-ShorterOp [] = tt
cond_at-ShorterOp (tok ∷ ts) = ground arith

sum_at-ShorterOp : (ts : List Bytes) → ShorterOp ts (sum_at ts)
unfolding sum_at
sum_at-ShorterOp [] = tt
sum_at-ShorterOp (tok ∷ ts) = ground arith

prod_at-ShorterOp : (ts : List Bytes) → ShorterOp ts (prod_at ts)
unfolding prod_at
prod_at-ShorterOp [] = tt
prod_at-ShorterOp (tok ∷ ts) = ground arith

-- The end of a level: no operator, or the rest of the level behind it.
Ends-tail :
    (m : ℕ) (x : Exp) (rest : List Bytes) (o : Option (List Bytes)) (k : List Bytes → Parsed)
    → length rest ≤ m
    → Shorter rest o
    → ((q : List Bytes) → length q < m → Ends m (k q))
    → Ends m (elim o [ none ↦ ok (x, rest) | some q ↦ k q ])
Ends-tail m x rest none k h s go = h
Ends-tail m x rest (some q) k h s go = go q (omega arith)

Ends-op_tail :
    (m : ℕ) (x : Exp) (rest : List Bytes) (o : Option (Op × List Bytes))
    (k : Op → List Bytes → Parsed)
    → length rest ≤ m
    → ShorterOp rest o
    → ((op : Op) (q : List Bytes) → length q < m → Ends m (k op q))
    → Ends m (elim o [ none ↦ ok (x, rest) | some (op, q) ↦ k op q ])
Ends-op_tail m x rest none k h s go = h
Ends-op_tail m x rest (some p) k h s go = go p.0 p.1 (omega arith)

Ends-map :
    (m n : ℕ) (p : Parsed) (f : Exp → Exp) → m ≤ n → Ends m p → Ends n (p >>= λ q. ok (f q.0, q.1))
Ends-map m n (ok q) f h e = omega arith
Ends-map m n failed f h e = tt
Ends-map m n crash f h e = tt
Ends-map m n out_of_fuel f h e = e

Ends-closed :
    (m n : ℕ) (p : Parsed) (f : Exp → Exp)
    → m ≤ n
    → Ends m p
    → Ends n (p >>= λ q. close (f q.0) q.1)
Ends-closed m n (ok q) f h e = Ends-close n (f q.0) q.1 (omega arith)
Ends-closed m n failed f h e = tt
Ends-closed m n crash f h e = tt
Ends-closed m n out_of_fuel f h e = e

Ends-prim :
    (m : ℕ) (q : Prim) (a b : Parsed) (c : SignOp → Parsed) (d : Exp → Parsed) (e f : Parsed)
    → Ends m a
    → Ends m b
    → ((op : SignOp) → Ends m (c op))
    → ((x : Exp) → Ends m (d x))
    → Ends m e
    → Ends m f
    → Ends m (elim q [
      | open_paren ↦ a
      | bang ↦ b
      | sign_of op ↦ c op
      | atom x ↦ d x
      | name ↦ e
      | other ↦ f
    ])
Ends-prim m open_paren a b c d e f ha hb hc hd he hf = ha
Ends-prim m bang a b c d e f ha hb hc hd he hf = hb
Ends-prim m (sign_of op) a b c d e f ha hb hc hd he hf = hc op
Ends-prim m (atom x) a b c d e f ha hb hc hd he hf = hd x
Ends-prim m name a b c d e f ha hb hc hd he hf = he
Ends-prim m other a b c d e f ha hb hc hd he hf = hf

accept-ne-out_of_fuel : (m : ℕ) (p : Parsed) → Ends m p → accept p ≢ out_of_fuel
unfolding accept
accept-ne-out_of_fuel m (ok (e, [])) h k = cc
accept-ne-out_of_fuel m (ok (e, tok ∷ ts)) h k = cc
accept-ne-out_of_fuel m failed h k = cc
accept-ne-out_of_fuel m crash h k = cc
accept-ne-out_of_fuel m out_of_fuel h k = h

mutual
  unfolding parse_list parse_guard parse_cons parse_concat parse_or parse_and parse_cond parse_sum
      parse_prod parse_prim

  parse_list-Ends :
      (n : ℕ) (ts : List Bytes) → 10 * length ts + 9 < n → Ends (length ts) (parse_list n ts)
  parse_list-Ends zero ts h = absurd (omega arith)
  parse_list-Ends (suc n) ts h =
      Ends->>= (length ts) _ _ (parse_guard-Ends n ts (omega arith)) λ p e.
        Ends-tail (length ts) p.0 p.1 (next_is (codes ",") p.1) _ e
          (next_is-Shorter (codes ",") p.1)
          λ q l.
            Ends-map (length q) (length ts) _ _ (omega arith) (parse_list-Ends n q (omega arith))

  parse_guard-Ends :
      (n : ℕ) (ts : List Bytes) → 10 * length ts + 8 < n → Ends (length ts) (parse_guard n ts)
  parse_guard-Ends zero ts h = absurd (omega arith)
  parse_guard-Ends (suc n) ts h =
      Ends->>= (length ts) _ _ (parse_cons-Ends n ts (omega arith)) λ p e.
        Ends-tail (length ts) p.0 p.1 (next_is (codes "?") p.1) _ e
          (next_is-Shorter (codes "?") p.1)
          λ q l.
            Ends-map (length q) (length ts) _ _ (omega arith) (parse_guard-Ends n q (omega arith))

  parse_cons-Ends :
      (n : ℕ) (ts : List Bytes) → 10 * length ts + 7 < n → Ends (length ts) (parse_cons n ts)
  parse_cons-Ends zero ts h = absurd (omega arith)
  parse_cons-Ends (suc n) ts h =
      Ends->>= (length ts) _ _ (parse_concat-Ends n none ts (omega arith)) λ p e.
        Ends-tail (length ts) p.0 p.1 (next_is (codes ":") p.1) _ e
          (next_is-Shorter (codes ":") p.1)
          λ q l.
            Ends-map (length q) (length ts) _ _ (omega arith) (parse_cons-Ends n q (omega arith))

  parse_concat-Ends :
      (n : ℕ) (left : Option (Op × Exp)) (ts : List Bytes)
      → 10 * length ts + 6 < n
      → Ends (length ts) (parse_concat n left ts)
  parse_concat-Ends zero left ts h = absurd (omega arith)
  parse_concat-Ends (suc n) left ts h =
      Ends->>= (length ts) _ _ (parse_or-Ends n none ts (omega arith)) λ p e.
        Ends-op_tail (length ts) (attach left p.0) p.1 (concat_at p.1) _ e (concat_at-ShorterOp p.1)
          λ op q l.
            Ends-mono (length q) (length ts) _ (omega arith)
              (parse_concat-Ends n (some (op, attach left p.0)) q (omega arith))

  parse_or-Ends :
      (n : ℕ) (left : Option (Op × Exp)) (ts : List Bytes)
      → 10 * length ts + 5 < n
      → Ends (length ts) (parse_or n left ts)
  parse_or-Ends zero left ts h = absurd (omega arith)
  parse_or-Ends (suc n) left ts h =
      Ends->>= (length ts) _ _ (parse_and-Ends n none ts (omega arith)) λ p e.
        Ends-op_tail (length ts) (attach left p.0) p.1 (or_at p.1) _ e (or_at-ShorterOp p.1)
          λ op q l.
            Ends-mono (length q) (length ts) _ (omega arith)
              (parse_or-Ends n (some (op, attach left p.0)) q (omega arith))

  parse_and-Ends :
      (n : ℕ) (left : Option (Op × Exp)) (ts : List Bytes)
      → 10 * length ts + 4 < n
      → Ends (length ts) (parse_and n left ts)
  parse_and-Ends zero left ts h = absurd (omega arith)
  parse_and-Ends (suc n) left ts h =
      Ends->>= (length ts) _ _ (parse_cond-Ends n none ts (omega arith)) λ p e.
        Ends-op_tail (length ts) (attach left p.0) p.1 (and_at p.1) _ e (and_at-ShorterOp p.1)
          λ op q l.
            Ends-mono (length q) (length ts) _ (omega arith)
              (parse_and-Ends n (some (op, attach left p.0)) q (omega arith))

  parse_cond-Ends :
      (n : ℕ) (left : Option (Op × Exp)) (ts : List Bytes)
      → 10 * length ts + 3 < n
      → Ends (length ts) (parse_cond n left ts)
  parse_cond-Ends zero left ts h = absurd (omega arith)
  parse_cond-Ends (suc n) left ts h =
      Ends->>= (length ts) _ _ (parse_sum-Ends n none ts (omega arith)) λ p e.
        Ends-op_tail (length ts) (attach left p.0) p.1 (cond_at p.1) _ e (cond_at-ShorterOp p.1)
          λ op q l.
            Ends-mono (length q) (length ts) _ (omega arith)
              (parse_cond-Ends n (some (op, attach left p.0)) q (omega arith))

  parse_sum-Ends :
      (n : ℕ) (left : Option (Op × Exp)) (ts : List Bytes)
      → 10 * length ts + 2 < n
      → Ends (length ts) (parse_sum n left ts)
  parse_sum-Ends zero left ts h = absurd (omega arith)
  parse_sum-Ends (suc n) left ts h =
      Ends->>= (length ts) _ _ (parse_prod-Ends n none ts (omega arith)) λ p e.
        Ends-op_tail (length ts) (attach left p.0) p.1 (sum_at p.1) _ e (sum_at-ShorterOp p.1)
          λ op q l.
            Ends-mono (length q) (length ts) _ (omega arith)
              (parse_sum-Ends n (some (op, attach left p.0)) q (omega arith))

  parse_prod-Ends :
      (n : ℕ) (left : Option (Op × Exp)) (ts : List Bytes)
      → 10 * length ts + 1 < n
      → Ends (length ts) (parse_prod n left ts)
  parse_prod-Ends zero left ts h = absurd (omega arith)
  parse_prod-Ends (suc n) left ts h =
      Ends->>= (length ts) _ _ (parse_prim-Ends n ts (omega arith)) λ p e.
        Ends-op_tail (length ts) (attach left p.0) p.1 (prod_at p.1) _ e (prod_at-ShorterOp p.1)
          λ op q l.
            Ends-mono (length q) (length ts) _ (omega arith)
              (parse_prod-Ends n (some (op, attach left p.0)) q (omega arith))

  parse_prim-Ends :
      (n : ℕ) (ts : List Bytes) → 10 * length ts < n → Ends (length ts) (parse_prim n ts)
  parse_prim-Ends zero ts h = absurd (omega arith)
  parse_prim-Ends (suc n) [] h = omega arith
  parse_prim-Ends (suc n) (tok ∷ ts) h =
      Ends-prim (suc (length ts)) (prim_of tok) _ _ _ _ _ _
        (Ends-closed (length ts) _ _ (λ e. e) (omega arith) (parse_list-Ends n ts (omega arith)))
        (Ends-map (length ts) _ _ negation (omega arith) (parse_prim-Ends n ts (omega arith)))
        (λ op.
          Ends-map (length ts) _ _ (sign op) (omega arith) (parse_prim-Ends n ts (omega arith)))
        (λ e. omega arith)
        (Ends-tail (suc (length ts)) (ident tok) ts (next_is (codes "(") ts) _ (omega arith)
          (next_is-Shorter (codes "(") ts)
          λ q l.
            Ends-closed (length q) _ _ (call tok) (omega arith) (parse_list-Ends n q (omega arith)))
        (omega arith)

-- Some number of steps is always enough: the fuel of `parse_tokens` never runs out.
pub parse_tokens-ne-out_of_fuel : (ts : List Bytes) → parse_tokens ts ≢ out_of_fuel
unfolding parse_tokens
parse_tokens-ne-out_of_fuel ts e =
    accept-ne-out_of_fuel _ _ (parse_list-Ends (10 * length ts + 10) ts (omega arith)) e
