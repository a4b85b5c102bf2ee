-- ===== src/Store/Events/Reported.antt =====
-- The event codes in the list as a set.
use tr069agent.Prelude.{
  Bool, true, false, not, ◌&&◌, ◌||◌, Option, List, [], ◌∷◌, ◌++◌, ◌≡◌, refl, ap, ◌∙◌, sym, subst,
  Bytes, str_eq, str_eq_iff, All, All-append, arith, Bool-cases, inl, inr,
}
use tr069agent.Event.{
  EventCode, constant, other, code_text, same_code, Event, new_event, intern_event_code,
}
use tr069agent.Store.Struct.{Control}
use tr069agent.Store.Events.{
  has_event_code, is_in_events, is_event, has_event, add_event, without_code, delete_event,
  delete_all_events,
}
use tr069agent.Store.Events.Once.{
  EventCall, add, delete, delete_all, run_call, run_calls, IsInterned,
}

-- One of the constants of the standard codes.
abbrev pub IsCode : EventCode → Type 0
IsCode ec = (intern_event_code (code_text ec) ≡ ec) × (ec ≡ constant (code_text ec))

abbrev pub DeletesCode : EventCall → Type 0
DeletesCode (delete ec) = IsCode ec
DeletesCode _ = Unit {0}

abbrev pub AllInterned : Control → Type 0
AllInterned c = All (λ e. IsInterned e.event_code) c.events

-- Whether a code is in the set after a call.
abbrev pub reported : EventCall → Bytes → Bool → Bool
reported (add ec ck) s b = b || str_eq (code_text ec) s
reported (delete ec) s b = b && not (str_eq (code_text ec) s)
reported delete_all s b = false

abbrev pub reported_after : List EventCall → Bytes → Bool → Bool
reported_after [] s b = b
reported_after (call ∷ calls) s b = reported_after calls s (reported call s b)

code_text-intern : (s : Bytes) → code_text (intern_event_code s) ≡ s
unfolding intern_event_code code_text
code_text-intern s = ground arith

IsInterned-new_event :
    (ec : EventCode) (ck : Option Bytes) → IsInterned (new_event ec ck).event_code
unfolding new_event
IsInterned-new_event ec ck = ap intern_event_code (code_text-intern (code_text ec))

has_event_code-append :
    (es : List Event) (e : Event) (s : Bytes)
    → has_event_code (es ++ e ∷ []) s ≡ has_event_code es s || str_eq (code_text e.event_code) s
unfolding has_event_code
has_event_code-append [] e s = ground arith
has_event_code-append (x ∷ es) e s = ground (arith, has_event_code-append es e s)

same_code-text : (a b : EventCode) → same_code a b ≡ true → code_text a ≡ code_text b
unfolding same_code code_text
same_code-text (constant a) (constant b) h = (str_eq_iff a b).0 h
same_code-text (constant a) (other b) h = ground arith
same_code-text (other a) (constant b) h = ground arith
same_code-text (other a) (other b) h = ground arith

-- An event that is there is there with its code.
has_event-has_event_code :
    (es : List Event) (ec : EventCode) (ck : Option Bytes)
    → has_event es ec ck ≡ true
    → has_event_code es (code_text ec) ≡ true
unfolding has_event has_event_code is_event
has_event-has_event_code [] ec ck h = h
has_event-has_event_code (e ∷ es) ec ck h = elim (Bool-cases (same_code e.event_code ec)) [
  | inl eq ↦
      rw
        ((str_eq_iff (code_text e.event_code) (code_text ec)).1 (same_code-text e.event_code ec eq))
        refl
  | inr ne ↦ ground (arith, has_event-has_event_code es ec ck)
]

reported_add :
    (es : List Event) (ec : EventCode) (ck : Option Bytes) (s : Bytes)
    → has_event es ec ck ≡ true
    → has_event_code es s ≡ has_event_code es s || str_eq (code_text ec) s
reported_add es ec ck s h = elim (Bool-cases (str_eq (code_text ec) s)) [
  | inl eq ↦
      let there : has_event_code es s ≡ true =
        subst (λ t. has_event_code es t ≡ true) ((str_eq_iff (code_text ec) s).0 eq)
          (has_event-has_event_code es ec ck h) in
      rw there refl
  | inr ne ↦ ground arith
]

same_code-constant :
    (a : EventCode) (s : Bytes)
    → IsInterned a
    → IsInterned (constant s)
    → same_code a (constant s) ≡ str_eq (code_text a) s
unfolding same_code code_text intern_event_code
same_code-constant (constant a) s h k = refl
same_code-constant (other a) s h k = elim (Bool-cases (str_eq a s)) [
  | inl eq ↦ ground (arith, h, k, (str_eq_iff a s).0 eq)
  | inr ne ↦ sym ne
]

str_eq_clash : (a b s : Bytes) → str_eq a b ≡ false → str_eq a s ≡ true → str_eq b s ≡ false
str_eq_clash a b s ne h =
    ap (str_eq b) (sym ((str_eq_iff a s).0 h)) ∙ ground (arith, str_eq_iff b a, str_eq_iff a b)

has_event_code-without_code :
    (es : List Event) (del : Bytes) (s : Bytes)
    → IsInterned (constant del)
    → All (λ e. IsInterned e.event_code) es
    → has_event_code (without_code es (constant del)).0 s
      ≡ has_event_code es s && not (str_eq del s)
unfolding has_event_code without_code
has_event_code-without_code [] del s k h = refl
has_event_code-without_code (e ∷ es) del s k h =
    let ih = has_event_code-without_code es del s k h.1 in
    let same = same_code-constant e.event_code del h.0 k in
    elim (Bool-cases (same_code e.event_code (constant del))) [
      | inl eq ↦
          let x : str_eq (code_text e.event_code) s ≡ str_eq del s =
            ap (λ t. str_eq t s) ((str_eq_iff (code_text e.event_code) del).0 (sym same ∙ eq)) in
          rw eq (ground (arith, ih, x))
      | inr ne ↦
          rw ne (ground (arith, ih, str_eq_clash (code_text e.event_code) del s (sym same ∙ ne)))
    ]

reported_call :
    (call : EventCall) (c : Control) (s : Bytes)
    → DeletesCode call
    → AllInterned c
    → is_in_events (run_call c call) s ≡ reported call s (is_in_events c s)
unfolding is_in_events add_event delete_event delete_all_events has_event_code new_event
reported_call (add ec ck) c s d h = elim (Bool-cases (has_event c.events ec ck)) [
  | inl eq ↦ rw eq (reported_add c.events ec ck s eq)
  | inr fresh ↦ rw fresh (
      has_event_code-append c.events (new_event ec ck) s
      ∙ ap (λ t. has_event_code c.events s || str_eq t s) (code_text-intern (code_text ec)))
]
reported_call (delete (constant del)) c s d h = has_event_code-without_code c.events del s d.0 h
reported_call (delete (other del)) c s d h = absurd (ground (arith, d.1))
reported_call delete_all c s d h = refl

AllInterned-without_code :
    (es : List Event) (del : EventCode)
    → All (λ e. IsInterned e.event_code) es
    → All (λ e. IsInterned e.event_code) (without_code es del).0
unfolding without_code
AllInterned-without_code [] del h = tt
AllInterned-without_code (e ∷ es) del h = elim (Bool-cases (same_code e.event_code del)) [
  | inl eq ↦ rw eq (AllInterned-without_code es del h.1)
  | inr ne ↦ rw ne (h.0, AllInterned-without_code es del h.1)
]

AllInterned-run_call :
    (call : EventCall) (c : Control) → AllInterned c → AllInterned (run_call c call)
unfolding add_event delete_event delete_all_events new_event
AllInterned-run_call (add ec ck) c h = elim (Bool-cases (has_event c.events ec ck)) [
  | inl eq ↦ rw eq h
  | inr fresh ↦ rw fresh (
      All-append (λ e. IsInterned e.event_code) c.events (new_event ec ck ∷ []) h
        (IsInterned-new_event ec ck, tt))
]
AllInterned-run_call (delete ec) c h = AllInterned-without_code c.events ec h
AllInterned-run_call delete_all c h = tt

-- After any calls a code is in the list exactly if it is in the set of codes that the calls describe:
-- one that is added comes in, whatever its command key, one that is deleted goes with all its keys.
-- The codes deleted are constants of the standard codes, and at the start every standard code in the
-- list is its constant.
pub is_in_events-run_calls :
    (calls : List EventCall) (c : Control) (s : Bytes)
    → All DeletesCode calls
    → AllInterned c
    → is_in_events (run_calls calls c) s ≡ reported_after calls s (is_in_events c s)
is_in_events-run_calls [] c s d h = refl
is_in_events-run_calls (call ∷ calls) c s d h =
    is_in_events-run_calls calls (run_call c call) s d.1 (AllInterned-run_call call c h)
    ∙ ap (reported_after calls s) (reported_call call c s d.0 h)
