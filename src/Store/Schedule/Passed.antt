-- ===== src/Store/Schedule/Passed.antt =====
-- The loop of `DM_ENG_ParameterData_addScheduledInformCommand` over the earlier Informs.
use tr069agent.Prelude.{
  ℕ, zero, suc, ◌<◌, Bool, true, false, some, List, [], ◌∷◌, ◌++◌, ◌≡◌, refl, ap, ◌∙◌,
  if◌then◌else◌, Bytes, length, leb, All, map, arith, append_assoc, append-nil, Bool-cases, inl,
  inr,
}
use tr069agent.Prelude.Int.{pos, leb_ℤ}
use tr069agent.Common.Number.{int_to_string}
use tr069agent.Common.Number.RoundTrip.{StartsDigit}
use tr069agent.Common.CommaList.{build_comma_separated_list}
use tr069agent.Store.Struct.{Control}
use tr069agent.Store.Schedule.{pass_earlier}
use tr069agent.Store.Schedule.Packed.{
  Inform, IsInform, time_text, key_text, packed, get_time-packed, get_key-packed, next-packed,
}

-- The Informs that are not later than a time, at the start of the list, and the others.
abbrev pub earlier : ℕ → List Inform → List Inform
earlier t [] = []
earlier t (p ∷ xs) = if leb p.0 t then p ∷ earlier t xs else []

abbrev pub later : ℕ → List Inform → List Inform
later t [] = []
later t (p ∷ xs) = if leb p.0 t then later t xs else p ∷ xs

-- The new Inform goes behind those that are not later.
abbrev pub insert_inform : Inform → List Inform → List Inform
insert_inform q [] = q ∷ []
insert_inform q (p ∷ xs) = if leb p.0 q.0 then p ∷ insert_inform q xs else q ∷ p ∷ xs

-- Each item with a comma behind it.
abbrev pub commas : List Bytes → Bytes
commas [] = []
commas (x ∷ xs) = x ++ b',' ∷ commas xs

pub leb_ℤ-pos : (m n : ℕ) → leb_ℤ (pos m) (pos n) ≡ leb m n
leb_ℤ-pos m n = ground arith

pub pass_earlier_step :
    (fuel t n : ℕ) (k : Bytes) (c : Control) (xs : List Inform) (b : Bool) (times keys : Bytes)
    → All IsInform ((suc n, k) ∷ xs)
    → leb (suc n) t ≡ true
    → pass_earlier (suc fuel) (pos t) (packed c ((suc n, k) ∷ xs) b) times keys
      ≡ pass_earlier fuel
          (pos t)
          (packed c xs true)
          (times ++ (time_text (suc n, k) ++ b',' ∷ []))
          (keys ++ (k ++ b',' ∷ []))
unfolding pass_earlier
pass_earlier_step fuel t n k c xs b times keys h le =
    rw
      (
        pass_earlier,
        get_time-packed c ((suc n, k) ∷ xs) b h,
        leb_ℤ-pos (suc n) t,
        le,
        get_key-packed c ((suc n, k) ∷ xs) b h,
        next-packed c (suc n, k) xs b h.0,
      )
      (ap
        (λ v.
          pass_earlier fuel (pos t) (packed c xs true) (times ++ (int_to_string v ++ b',' ∷ []))
            (keys ++ (k ++ b',' ∷ [])))
        (get_time-packed c ((suc n, k) ∷ xs) b h))

pub pass_earlier_end :
    (fuel t n : ℕ) (k : Bytes) (c : Control) (xs : List Inform) (b : Bool) (times keys : Bytes)
    → All IsInform ((suc n, k) ∷ xs)
    → leb (suc n) t ≡ false
    → pass_earlier (suc fuel) (pos t) (packed c ((suc n, k) ∷ xs) b) times keys
      ≡ some (packed c ((suc n, k) ∷ xs) b, times, keys)
unfolding pass_earlier
pass_earlier_end fuel t n k c xs b times keys h gt =
    rw (pass_earlier, get_time-packed c ((suc n, k) ∷ xs) b h, leb_ℤ-pos (suc n) t, gt) refl

pub commas_step :
    (s x : Bytes) (xs : List Bytes) → (s ++ (x ++ b',' ∷ [])) ++ commas xs ≡ s ++ commas (x ∷ xs)
commas_step s x xs =
    append_assoc s (x ++ b',' ∷ []) (commas xs)
    ∙ ap (λ r. s ++ r) (append_assoc x (b',' ∷ []) (commas xs))

pub length-StartsDigit : (s : Bytes) → StartsDigit s → 0 < length s
length-StartsDigit [] h = absurd h
length-StartsDigit (c ∷ s) h = omega arith

pub pass_earlier-packed :
    (fuel t : ℕ) (c : Control) (xs : List Inform) (b : Bool) (times keys : Bytes)
    → All IsInform xs
    → length xs < fuel
    → (b' : Bool) × (pass_earlier fuel (pos t) (packed c xs b) times keys
        ≡ some (
          packed c (later t xs) b',
          times ++ commas (map time_text (earlier t xs)),
          keys ++ commas (map key_text (earlier t xs)),
        ))
unfolding pass_earlier build_comma_separated_list
pass_earlier-packed zero t c xs b times keys h lt = absurd (omega arith)
pass_earlier-packed (suc fuel) t c [] b times keys h lt =
    (b, rw (pass_earlier, append-nil times, append-nil keys) refl)
pass_earlier-packed (suc fuel) t c ((suc n, k) ∷ xs) b times keys h lt =
    elim (Bool-cases (leb (suc n) t)) [
      | inl le ↦
          let (b', e) =
            pass_earlier-packed fuel t c xs true (times ++ (time_text (suc n, k) ++ b',' ∷ []))
              (keys ++ (k ++ b',' ∷ [])) h.1 (omega arith) in
          (
            b',
            pass_earlier_step fuel t n k c xs b times keys h le
                ∙ e
                ∙ rw
                    (
                      le,
                      commas_step times (time_text (suc n, k)) (map time_text (earlier t xs)),
                      commas_step keys k (map key_text (earlier t xs)),
                    )
                    refl,
          )
      | inr gt ↦ (
        b,
        pass_earlier_end fuel t n k c xs b times keys h gt
            ∙ rw (gt, append-nil times, append-nil keys) refl,
      )
    ]
pass_earlier-packed (suc fuel) t c ((zero, k) ∷ xs) b times keys h lt =
    absurd (omega (arith, h.0.0))
