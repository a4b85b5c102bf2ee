-- ===== src/Store/Events/Once.antt =====
-- Which events are in the list after any calls.
use tr069agent.Prelude.{
  true, false, ◌||◌, Option, none, some, List, [], ◌∷◌, ◌++◌, ◌≡◌, refl, ap, ◌∙◌, Bytes, str_eq_iff,
  All, arith, Bool-cases, inl, inr, str_eq_refl, ◌&&◌,
}
use tr069agent.Common.CommaList.{has_item}
use tr069agent.Event.{
  event_codes, EventCode, constant, other, code_text, same_code, Event, new_event, same_key,
  intern_event_code,
}
use tr069agent.Store.Struct.{Control}
use tr069agent.Store.Events.{
  is_event, has_event, add_event, without_code, delete_event, delete_all_events,
}

-- A call of the functions on the events: with one of the constant codes, or with another text.
pub data EventCall : Type 0 where
  add : EventCode → Option Bytes → EventCall
  delete : EventCode → EventCall
  delete_all : EventCall

abbrev pub run_call : Control → EventCall → Control
run_call c (add ec ck) = add_event c ec ck
run_call c (delete ec) = delete_event c ec
run_call c delete_all = delete_all_events c

abbrev pub run_calls : List EventCall → Control → Control
run_calls [] c = c
run_calls (call ∷ calls) c = run_calls calls (run_call c call)

-- The pointer is a constant whenever its text is that of a constant.
abbrev pub IsInterned : EventCode → Type 0
IsInterned ec = intern_event_code (code_text ec) ≡ ec

-- No two events have the same constant as their code and the same key.
abbrev pub HasNoRepeat : List Event → Type 0
HasNoRepeat [] = Unit {0}
HasNoRepeat (e ∷ es) = (has_event es e.event_code e.command_key ≡ false) × HasNoRepeat es

same_code_sym : (a b : EventCode) → same_code a b ≡ same_code b a
unfolding same_code
same_code_sym (constant a) (constant b) = ground (arith, str_eq_iff a b, str_eq_iff b a)
same_code_sym (constant a) (other b) = refl
same_code_sym (other a) (constant b) = refl
same_code_sym (other a) (other b) = refl

same_key_sym : (a b : Option Bytes) → same_key a b ≡ same_key b a
unfolding same_key
same_key_sym none none = refl
same_key_sym none (some b) = refl
same_key_sym (some a) none = refl
same_key_sym (some a) (some b) = ground (arith, str_eq_iff a b, str_eq_iff b a)

is_event_sym :
    (e e' : Event)
    → is_event e.event_code e.command_key e' ≡ is_event e'.event_code e'.command_key e
unfolding is_event
is_event_sym e e' =
    rw (same_code_sym e.event_code e'.event_code, same_key_sym e.command_key e'.command_key) refl

pub has_event-append :
    (es : List Event) (e : Event) (ec : EventCode) (ck : Option Bytes)
    → has_event (es ++ e ∷ []) ec ck ≡ has_event es ec ck || is_event ec ck e
unfolding has_event
has_event-append [] e ec ck = ground arith
has_event-append (x ∷ es) e ec ck = ground (arith, has_event-append es e ec ck)

HasNoRepeat-append :
    (es : List Event) (e : Event)
    → HasNoRepeat es
    → has_event es e.event_code e.command_key ≡ false
    → HasNoRepeat (es ++ e ∷ [])
unfolding has_event
HasNoRepeat-append [] e h fresh = (refl, tt)
HasNoRepeat-append (x ∷ es) e h fresh = (
  ground (arith, has_event-append es e x.event_code x.command_key, is_event_sym x e, h.0),
  HasNoRepeat-append es e h.1 (ground arith),
)

has_event-without_code :
    (es : List Event) (del ec : EventCode) (ck : Option Bytes)
    → has_event es ec ck ≡ false
    → has_event (without_code es del).0 ec ck ≡ false
unfolding has_event without_code
has_event-without_code [] del ec ck h = h
has_event-without_code (e ∷ es) del ec ck h = ground (arith, has_event-without_code es del ec ck)

HasNoRepeat-without_code :
    (es : List Event) (del : EventCode) → HasNoRepeat es → HasNoRepeat (without_code es del).0
unfolding without_code
HasNoRepeat-without_code [] del h = tt
HasNoRepeat-without_code (e ∷ es) del h = elim (Bool-cases (same_code e.event_code del)) [
  | inl eq ↦ rw eq (HasNoRepeat-without_code es del h.1)
  | inr ne ↦ rw ne (
    has_event-without_code es del e.event_code e.command_key h.0,
    HasNoRepeat-without_code es del h.1,
  )
]

-- The new event's own code is not there either.
has_event-new_event :
    (es : List Event) (ec : EventCode) (ck : Option Bytes)
    → IsInterned ec
    → has_event es ec ck ≡ false
    → has_event es (new_event ec ck).event_code ck ≡ false
unfolding new_event
has_event-new_event es ec ck h e = ap (λ x. has_event es x ck) h ∙ e

same_key_refl : (ck : Option Bytes) → same_key ck ck ≡ true
unfolding same_key
same_key_refl none = refl
same_key_refl (some k) = str_eq_refl k

pub intern-constant : (s : Bytes) → has_item event_codes s ≡ true → intern_event_code s ≡ constant s
unfolding intern_event_code
intern-constant s h = rw h refl

pub is_event-new_event :
    (s : Bytes) (ck : Option Bytes)
    → has_item event_codes s ≡ true
    → is_event (constant s) ck (new_event (constant s) ck) ≡ true
unfolding is_event new_event same_code code_text
is_event-new_event s ck h =
    ap (λ e. same_code e (constant s) && same_key ck ck) (intern-constant s h)
    ∙ rw (str_eq_refl s, same_key_refl ck) refl

abbrev pub AddsInterned : EventCall → Type 0
AddsInterned (add ec ck) = IsInterned ec
AddsInterned _ = Unit {0}

run_call-HasNoRepeat :
    (call : EventCall) (c : Control)
    → AddsInterned call
    → HasNoRepeat c.events
    → HasNoRepeat (run_call c call).events
unfolding add_event delete_event delete_all_events new_event
run_call-HasNoRepeat (add ec ck) c i h = elim (Bool-cases (has_event c.events ec ck)) [
  | inl eq ↦ rw eq h
  | inr fresh ↦
      rw fresh (
        HasNoRepeat-append c.events (new_event ec ck) h
          (has_event-new_event c.events ec ck i fresh))
]
run_call-HasNoRepeat (delete ec) c i h = HasNoRepeat-without_code c.events ec h
run_call-HasNoRepeat delete_all c i h = tt

-- No two events with the same constant as code and the same command key ever stand in the list, if it
-- is so at the start and events are added with the constants of the standard codes or with texts that
-- are none of those.
pub run_calls-HasNoRepeat :
    (calls : List EventCall) (c : Control)
    → All AddsInterned calls
    → HasNoRepeat c.events
    → HasNoRepeat (run_calls calls c).events
run_calls-HasNoRepeat [] c i h = h
run_calls-HasNoRepeat (call ∷ calls) c i h =
    run_calls-HasNoRepeat calls (run_call c call) i.1 (run_call-HasNoRepeat call c i.0 h)
