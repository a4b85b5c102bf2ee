-- ===== src/Store/Schedule/Insert.antt =====
-- `DM_ENG_ParameterData_addScheduledInformCommand` inserts into the list of the scheduled Informs.
use tr069agent.Prelude.{
  ℕ, zero, suc, ◌≤◌, ◌<◌, Bool, true, false, none, some, List, [], ◌∷◌, ◌++◌, ◌≡◌, refl, ap, sym,
  ◌∙◌, Bytes, length, length-append, leb, All, map, arith, append_assoc, append-nil, Bool-cases,
  inl, inr,
}
use tr069agent.Prelude.Int.{ℤ, pos, is_zero}
use tr069agent.Common.Number.{int_to_string}
use tr069agent.Common.Number.RoundTrip.{uint_to_string-StartsDigit}
use tr069agent.Common.CommaList.{build_comma_separated_list, join_rest}
use tr069agent.Store.Struct.{Control}
use tr069agent.Store.Schedule.{
  get_scheduled_inform_time, pass_earlier, append_rest, close_lists, with_schedule,
  insert_scheduled, add_scheduled_inform_command,
}
use tr069agent.Store.Schedule.Packed.{
  Inform, IsInform, time_text, key_text, packed, get_time-packed,
}
use tr069agent.Store.Schedule.Passed.{
  earlier, later, insert_inform, commas, length-StartsDigit, pass_earlier-packed,
}

close_lists_rest :
    (c : Control) (t : ℕ) (key times keys : Bytes) {r r' : Bytes}
    → is_zero (get_scheduled_inform_time c) ≡ false
    → c.scheduled_inform_time ≡ some r
    → c.scheduled_inform_command_key ≡ some r'
    → close_lists (pos t) key (c, times, keys)
      ≡ some ((times ++ int_to_string (pos t)) ++ b',' ∷ r, (keys ++ key) ++ b',' ∷ r')
unfolding close_lists append_rest
close_lists_rest c t key times keys z e e' = rw (z, e, e') refl

close_lists_end :
    (c : Control) (t : ℕ) (key times keys : Bytes)
    → is_zero (get_scheduled_inform_time c) ≡ true
    → close_lists (pos t) key (c, times, keys) ≡ some (times ++ int_to_string (pos t), keys ++ key)
unfolding close_lists
close_lists_end c t key times keys z = rw z refl

-- What follows the new Inform in the two texts.
close_lists-packed :
    (c : Control) (t : ℕ) (k : Bytes) (xs : List Inform) (b : Bool) (times keys : Bytes)
    → All IsInform xs
    → close_lists (pos t) k (packed c xs b, times, keys)
      ≡ some (
        (times ++ int_to_string (pos t)) ++ join_rest (map time_text xs),
        (keys ++ k) ++ join_rest (map key_text xs),
      )
unfolding build_comma_separated_list join_rest
close_lists-packed c t k [] b times keys h =
    close_lists_end (packed c [] b) t k times keys (ap is_zero (get_time-packed c [] b tt))
    ∙ rw (append-nil (times ++ int_to_string (pos t)), append-nil (keys ++ k)) refl
close_lists-packed c t k ((zero, k') ∷ xs) b times keys h = absurd (omega (arith, h.0.0))
close_lists-packed c t k ((suc n, k') ∷ xs) b times keys h =
    close_lists_rest (packed c ((suc n, k') ∷ xs) b) t k times keys
      (ap is_zero (get_time-packed c ((suc n, k') ∷ xs) b h)) refl refl

around : (f : Inform → Bytes) (q : Inform) (xs : List Inform) → Bytes
around f q xs = (commas (map f (earlier q.0 xs)) ++ f q) ++ join_rest (map f (later q.0 xs))

around_earlier :
    (f : Inform → Bytes) (q p : Inform) (xs : List Inform)
    → leb p.0 q.0 ≡ true
    → around f q (p ∷ xs) ≡ f p ++ b',' ∷ around f q xs
unfolding around
around_earlier f q p xs le = rw le (
    ap (λ r. r ++ join_rest (map f (later q.0 xs)))
      (append_assoc (f p) (b',' ∷ commas (map f (earlier q.0 xs))) (f q))
    ∙ append_assoc (f p) (b',' ∷ (commas (map f (earlier q.0 xs)) ++ f q))
        (join_rest (map f (later q.0 xs))))

insert_inform_earlier :
    (q p : Inform) (xs : List Inform)
    → leb p.0 q.0 ≡ true
    → insert_inform q (p ∷ xs) ≡ p ∷ insert_inform q xs
insert_inform_earlier q p xs le = rw le refl

join_rest-insert_inform :
    (f : Inform → Bytes) (q : Inform) (xs : List Inform)
    → join_rest (map f (insert_inform q xs)) ≡ b',' ∷ around f q xs
unfolding join_rest around
join_rest-insert_inform f q [] = refl
join_rest-insert_inform f q (p ∷ xs) = elim (Bool-cases (leb p.0 q.0)) [
  | inl le ↦
      ap (λ l. join_rest (map f l)) (insert_inform_earlier q p xs le)
      ∙ ap (λ r. b',' ∷ r)
          (ap (λ r. f p ++ r) (join_rest-insert_inform f q xs) ∙ sym (around_earlier f q p xs le))
  | inr gt ↦ rw gt refl
]

-- The list with the new Inform, as the two parts with the Inform between.
build-insert_inform :
    (f : Inform → Bytes) (q : Inform) (xs : List Inform)
    → build_comma_separated_list (map f (insert_inform q xs)) ≡ some (around f q xs)
unfolding build_comma_separated_list join_rest around
build-insert_inform f q [] = refl
build-insert_inform f q (p ∷ xs) = elim (Bool-cases (leb p.0 q.0)) [
  | inl le ↦
      ap (λ l. build_comma_separated_list (map f l)) (insert_inform_earlier q p xs le)
      ∙ ap some
          (ap (λ r. f p ++ r) (join_rest-insert_inform f q xs) ∙ sym (around_earlier f q p xs le))
  | inr gt ↦ rw gt refl
]

-- Fuel: every item has a character, and a comma between two.
pub length-join_rest : (xs : List Inform) → length xs ≤ length (join_rest (map time_text xs))
unfolding join_rest
length-join_rest [] = omega arith
length-join_rest (p ∷ xs) =
    omega (arith, length-join_rest xs, length-append (time_text p) (join_rest (map time_text xs)))

pub length-time_text : (p : Inform) → 0 < length (time_text p)
unfolding int_to_string
length-time_text p = length-StartsDigit _ (uint_to_string-StartsDigit p.0)

first_inform :
    (c : Control) (q : Inform) (b : Bool)
    → insert_scheduled (packed c [] b) (pos q.0) q.1 none none ≡ some (packed c (q ∷ []) true)
unfolding insert_scheduled with_schedule build_comma_separated_list join_rest
first_inform c q b = rw (append-nil (time_text q), append-nil q.1) refl

with_schedule-packed :
    (c : Control) (q : Inform) (xs : List Inform) (b : Bool)
    → some (with_schedule (packed c xs b) (around time_text q xs) (around key_text q xs))
      ≡ some (packed c (insert_inform q xs) true)
unfolding with_schedule
with_schedule-packed c q xs b =
    ap some (sym (rw (build-insert_inform time_text q xs, build-insert_inform key_text q xs) refl))

insert_scheduled_between :
    (c : Control) (time : ℤ) (key times keys : Bytes) {passed : Control × Bytes × Bytes}
    {t k : Bytes}
    → pass_earlier (suc (length times)) time c [] [] ≡ some passed
    → close_lists time key passed ≡ some (t, k)
    → insert_scheduled c time key (some times) (some keys) ≡ some (with_schedule c t k)
unfolding insert_scheduled
insert_scheduled_between c time key times keys e f = rw (e, f) refl

pub later-IsInform : (t : ℕ) (xs : List Inform) → All IsInform xs → All IsInform (later t xs)
later-IsInform t [] h = tt
later-IsInform t (p ∷ xs) h = ground (arith, later-IsInform t xs h.1)

insert_scheduled-packed :
    (c : Control) (q p : Inform) (xs : List Inform) (b : Bool)
    → All IsInform (p ∷ xs)
    → insert_scheduled
        (packed c (p ∷ xs) b)
        (pos q.0)
        q.1
        (some (time_text p ++ join_rest (map time_text xs)))
        (some (key_text p ++ join_rest (map key_text xs)))
      ≡ some (
          with_schedule
            (packed c (p ∷ xs) b)
            (around time_text q (p ∷ xs))
            (around key_text q (p ∷ xs)))
unfolding around
insert_scheduled-packed c q p xs b hs =
    let (b', passed) =
      pass_earlier-packed (suc (length (time_text p ++ join_rest (map time_text xs)))) q.0 c
        (p ∷ xs) b [] [] hs
        (omega (
          arith,
          length-join_rest xs,
          length-append (time_text p) (join_rest (map time_text xs)),
          length-time_text p,
        )) in
    insert_scheduled_between (packed c (p ∷ xs) b) (pos q.0) q.1 _ _ passed
      (close_lists-packed c q.0 q.1 (later q.0 (p ∷ xs)) b' _ _ (later-IsInform q.0 (p ∷ xs) hs))

-- The state of the code after a call of `DM_ENG_ParameterData_addScheduledInformCommand`.
pub add-packed :
    (c : Control) (q : Inform) (xs : List Inform) (b : Bool)
    → IsInform q
    → All IsInform xs
    → add_scheduled_inform_command (packed c xs b) (pos q.0) (some q.1)
      ≡ some (packed c (insert_inform q xs) true)
unfolding add_scheduled_inform_command build_comma_separated_list
add-packed c (zero, k) xs b h hs = absurd (omega (arith, h.0))
add-packed c (suc t, k) [] b h hs = first_inform c (suc t, k) b
add-packed c (suc t, k) (p ∷ xs) b h hs =
    insert_scheduled-packed c (suc t, k) p xs b hs ∙ with_schedule-packed c (suc t, k) (p ∷ xs) b
