-- ===== src/Manager/Due.antt =====
-- The scheduled Informs that are due become events.
use tr069agent.Prelude.{
  ℕ, zero, suc, ◌<◌, Bool, true, false, not, ◌&&◌, Option, none, some, List, [], ◌∷◌, ◌≡◌, refl, ap,
  ◌∙◌, leb, Bytes, length, length-append, map, str_eq, All, arith, Bool-cases, inl, inr,
}
use tr069agent.Prelude.Int.{pos, leb_ℤ, is_zero}
use tr069agent.Common.CommaList.{build_comma_separated_list, join_rest, has_item}
use tr069agent.Event.{
  EventCode, constant, new_event, event_codes, event_scheduled, event_m_schedule_inform,
}
use tr069agent.Store.Struct.{Control}
use tr069agent.Store.Schedule.{
  get_scheduled_inform_time, get_scheduled_inform_command_key, next_scheduled_inform_command,
}
use tr069agent.Store.Schedule.Packed.{
  Inform, IsInform, packed, head_time, time_text, get_time-packed, get_key-packed, next-packed,
}
use tr069agent.Store.Schedule.Passed.{earlier, later, leb_ℤ-pos}
use tr069agent.Store.Schedule.Insert.{length-join_rest, later-IsInform}
use tr069agent.Store.Events.{is_in_events, has_event, add_event}
use tr069agent.Store.Events.Once.{has_event-append, is_event-new_event}
use tr069agent.Manager.{add_if_absent, deliver_scheduled, add_scheduled, scheduled_fuel}

-- The events of one scheduled Inform, and of several.
abbrev pub deliver_key : Control → Inform → Control
deliver_key c p =
    add_event (add_if_absent c event_scheduled) (constant event_m_schedule_inform) (some p.1)

abbrev pub deliver_all : Control → List Inform → Control
deliver_all c [] = c
deliver_all c (p ∷ ps) = deliver_all (deliver_key c p) ps

add_event-packed :
    (c : Control) (xs : List Inform) (b : Bool) (ec : EventCode) (ck : Option Bytes)
    → (b' : Bool) × (add_event (packed c xs b) ec ck ≡ packed (add_event c ec ck) xs b')
unfolding add_event
add_event-packed c xs b ec ck = elim (Bool-cases (has_event c.events ec ck)) [
  | inl eq ↦ (b, rw eq refl)
  | inr ne ↦ (true, rw ne refl)
]

add_if_absent-packed :
    (c : Control) (xs : List Inform) (b : Bool) (ec : Bytes)
    → (b' : Bool) × (add_if_absent (packed c xs b) ec ≡ packed (add_if_absent c ec) xs b')
unfolding add_if_absent is_in_events
add_if_absent-packed c xs b ec = elim (Bool-cases (is_in_events c ec)) [
  | inl eq ↦ (b, rw eq refl)
  | inr ne ↦ let (b', e) = add_event-packed c xs b (constant ec) none in (b', rw ne e)
]

deliver-packed :
    (c : Control) (p : Inform) (xs : List Inform) (b : Bool)
    → All IsInform (p ∷ xs)
    → deliver_scheduled (packed c (p ∷ xs) b) ≡ packed (deliver_key c p) xs true
unfolding deliver_scheduled
deliver-packed c p xs b h =
    let (b1, e1) = add_if_absent-packed c (p ∷ xs) b event_scheduled in
    let c1 = add_if_absent c event_scheduled in
    let (b2, e2) = add_event-packed c1 (p ∷ xs) b1 (constant event_m_schedule_inform) (some p.1) in
    ap
      (λ s.
        next_scheduled_inform_command
          (add_event s (constant event_m_schedule_inform) (get_scheduled_inform_command_key s)))
      e1
    ∙ ap
        (λ k.
          next_scheduled_inform_command
            (add_event (packed c1 (p ∷ xs) b1) (constant event_m_schedule_inform) k))
        (get_key-packed c1 (p ∷ xs) b1 h)
    ∙ ap next_scheduled_inform_command e2
    ∙ next-packed (deliver_key c p) p xs b2 h.0

add_scheduled_step :
    (fuel now n : ℕ) (k : Bytes) (c : Control) (xs : List Inform) (b : Bool)
    → All IsInform ((suc n, k) ∷ xs)
    → leb (suc n) now ≡ true
    → add_scheduled (suc fuel) now (packed c ((suc n, k) ∷ xs) b)
      ≡ add_scheduled fuel now (packed (deliver_key c (suc n, k)) xs true)
unfolding add_scheduled
add_scheduled_step fuel now n k c xs b h le =
    rw (add_scheduled, get_time-packed c ((suc n, k) ∷ xs) b h, leb_ℤ-pos (suc n) now, le)
      (ap (add_scheduled fuel now) (deliver-packed c (suc n, k) xs b h))

add_scheduled_end :
    (fuel now n : ℕ) (k : Bytes) (c : Control) (xs : List Inform) (b : Bool)
    → All IsInform ((suc n, k) ∷ xs)
    → leb (suc n) now ≡ false
    → add_scheduled (suc fuel) now (packed c ((suc n, k) ∷ xs) b)
      ≡ some (packed c ((suc n, k) ∷ xs) b)
unfolding add_scheduled
add_scheduled_end fuel now n k c xs b h gt =
    rw (add_scheduled, get_time-packed c ((suc n, k) ∷ xs) b h, leb_ℤ-pos (suc n) now, gt) refl

add_scheduled-packed :
    (fuel now : ℕ) (c : Control) (xs : List Inform) (b : Bool)
    → All IsInform xs
    → length xs < fuel
    → (b' : Bool) × (add_scheduled fuel now (packed c xs b)
        ≡ some (packed (deliver_all c (earlier now xs)) (later now xs) b'))
unfolding add_scheduled build_comma_separated_list
add_scheduled-packed zero now c xs b h lt = absurd (omega (arith, lt))
add_scheduled-packed (suc fuel) now c [] b h lt = (b, refl)
add_scheduled-packed (suc fuel) now c ((zero, k) ∷ xs) b h lt = absurd (omega (arith, h.0.0))
add_scheduled-packed (suc fuel) now c ((suc n, k) ∷ xs) b h lt =
    elim (Bool-cases (leb (suc n) now)) [
      | inl le ↦
          let (b', e) =
            add_scheduled-packed fuel now (deliver_key c (suc n, k)) xs true h.1
              (omega (arith, lt)) in
          (b', add_scheduled_step fuel now n k c xs b h le ∙ rw le e)
      | inr gt ↦ (b, add_scheduled_end fuel now n k c xs b h gt ∙ rw gt refl)
    ]

has_event-add_event :
    (c : Control) (ec ec' : EventCode) (ck ck' : Option Bytes)
    → has_event c.events ec ck ≡ true
    → has_event (add_event c ec' ck').events ec ck ≡ true
unfolding add_event
has_event-add_event c ec ec' ck ck' h = elim (Bool-cases (has_event c.events ec' ck')) [
  | inl eq ↦ rw eq h
  | inr ne ↦ rw ne (has_event-append c.events (new_event ec' ck') ec ck ∙ rw h refl)
]

has_event-deliver_key :
    (c : Control) (p : Inform) (ec : EventCode) (ck : Option Bytes)
    → has_event c.events ec ck ≡ true
    → has_event (deliver_key c p).events ec ck ≡ true
unfolding add_if_absent
has_event-deliver_key c p ec ck h = elim (Bool-cases (is_in_events c event_scheduled)) [
  | inl eq ↦ rw eq (has_event-add_event c ec (constant event_m_schedule_inform) ck (some p.1) h)
  | inr ne ↦ rw ne (
      has_event-add_event (add_event c (constant event_scheduled) none) ec
        (constant event_m_schedule_inform) ck (some p.1)
        (has_event-add_event c ec (constant event_scheduled) ck none h))
]

has_event-deliver_all :
    (c : Control) (ps : List Inform) (ec : EventCode) (ck : Option Bytes)
    → has_event c.events ec ck ≡ true
    → has_event (deliver_all c ps).events ec ck ≡ true
has_event-deliver_all c [] ec ck h = h
has_event-deliver_all c (p ∷ ps) ec ck h =
    has_event-deliver_all (deliver_key c p) ps ec ck (has_event-deliver_key c p ec ck h)

-- An event that is added is there.
pub has_event-added :
    (c : Control) (s : Bytes) (ck : Option Bytes)
    → has_item event_codes s ≡ true
    → has_event (add_event c (constant s) ck).events (constant s) ck ≡ true
unfolding add_event
has_event-added c s ck h = elim (Bool-cases (has_event c.events (constant s) ck)) [
  | inl eq ↦ rw eq eq
  | inr ne ↦ rw ne (
      has_event-append c.events (new_event (constant s) ck) (constant s) ck
      ∙ rw (ne, is_event-new_event s ck h) refl)
]

m_schedule_inform_code : has_item event_codes event_m_schedule_inform ≡ true
unfolding has_item str_eq
m_schedule_inform_code = refl

abbrev pub IsDelivered : Control → Inform → Type 0
IsDelivered c p = has_event c.events (constant event_m_schedule_inform) (some p.1) ≡ true

deliver_all-IsDelivered : (c : Control) (ps : List Inform) → All (IsDelivered (deliver_all c ps)) ps
deliver_all-IsDelivered c [] = tt
deliver_all-IsDelivered c (p ∷ ps) = (
  has_event-deliver_all (deliver_key c p) ps (constant event_m_schedule_inform) (some p.1) (
      has_event-added (add_if_absent c event_scheduled) event_m_schedule_inform (some p.1)
        m_schedule_inform_code),
  deliver_all-IsDelivered (deliver_key c p) ps,
)

-- No scheduled Inform is due.
abbrev pub IsIdle : ℕ → Control → Type 0
IsIdle now c =
    not (is_zero (get_scheduled_inform_time c)) && leb_ℤ (get_scheduled_inform_time c) (pos now)
    ≡ false

later-first :
    (now : ℕ) (xs : List Inform)
    → not (is_zero (head_time (later now xs))) && leb_ℤ (head_time (later now xs)) (pos now) ≡ false
later-first now [] = refl
later-first now (p ∷ xs) = elim (Bool-cases (leb p.0 now)) [
  | inl le ↦ rw le (later-first now xs)
  | inr gt ↦ rw gt (ground (arith, gt))
]

scheduled_fuel-packed :
    (c : Control) (xs : List Inform) (b : Bool) → length xs < scheduled_fuel (packed c xs b)
unfolding scheduled_fuel build_comma_separated_list
scheduled_fuel-packed c [] b = omega arith
scheduled_fuel-packed c (p ∷ xs) b =
    omega (arith, length-join_rest xs, length-append (time_text p) (join_rest (map time_text xs)))

-- When the events are managed, the loop over the scheduled Informs ends, whatever Informs stand in the
-- data, with positive times and keys without comma: each Inform from the first on that is not later than
-- the present time has become an event with its command key, and the first Inform left, if there is one,
-- is not due.
pub add_scheduled-IsDelivered :
    (now : ℕ) (c : Control) (xs : List Inform) (b : Bool)
    → All IsInform xs
    → (s : Control) × (add_scheduled (scheduled_fuel (packed c xs b)) now (packed c xs b) ≡ some s)
      × All (IsDelivered s) (earlier now xs)
      × IsIdle now s
add_scheduled-IsDelivered now c xs b h =
    let (b', e) =
      add_scheduled-packed (scheduled_fuel (packed c xs b)) now c xs b h
        (scheduled_fuel-packed c xs b) in
    let s = packed (deliver_all c (earlier now xs)) (later now xs) b' in
    (
      s,
      e,
      deliver_all-IsDelivered c (earlier now xs),
      ap (λ t. not (is_zero t) && leb_ℤ t (pos now))
            (get_time-packed (deliver_all c (earlier now xs)) (later now xs) b'
              (later-IsInform now xs h))
          ∙ later-first now xs,
    )
