-- ===== src/Store/EventLine/RoundTrip.antt =====
-- The events in the text of a line are read from it.
use tr069agent.Prelude.{
  ℕ, zero, suc, ◌≤◌, ◌<◌, false, Option, none, some, List, [], ◌∷◌, ◌++◌, ◌≡◌, ◌≢◌, refl, ap, ◌∙◌,
  ◌==◌, Bytes, length, length-append, append-nil, append_assoc, All, arith,
}
use tr069agent.Event.{Event, other, code_text, new_event}
use tr069agent.Store.Line.{in_line}
use tr069agent.Store.Line.Fields.{IsPlain, IsField}
use tr069agent.Store.Events.Once.{IsInterned}
use tr069agent.Store.EventLine.{
  ends_token, token, token_value, next_token, read_events, set_events, key_or_null_code, event_text,
  more_events, write_events,
}

ends_token-IsPlain : (c : ℕ) → IsPlain c → ends_token c ≡ false
unfolding ends_token
ends_token-IsPlain c h = rw (ends_token, h.0) (ground (arith, h.1, h.2))

pub token-IsField : (x t : Bytes) → IsField x → token (x ++ b';' ∷ t) ≡ (x, t)
unfolding token ends_token
token-IsField [] t h = refl
token-IsField (c ∷ x) t h = rw (ends_token-IsPlain c h.0, token-IsField x t h.1) refl

pub token-last : (x : Bytes) → IsField x → token x ≡ (x, [])
unfolding token ends_token
token-last [] h = refl
token-last (c ∷ x) h = rw (token, ends_token-IsPlain c h.0, token-last x h.1) refl

-- A text that is not read as NULL.
abbrev pub IsToken : Bytes → Type 0
IsToken [] = Unit {0}
IsToken (c ∷ cs) = ((c == b'_') ≡ false) × IsField (c ∷ cs)

abbrev pub IsKey : Option Bytes → Type 0
IsKey none = Unit {0}
IsKey (some k) = IsToken k

-- An event that the line can hold; its code is a constant where it is one of the standard codes.
abbrev pub IsWritten : Event → Type 0
IsWritten e =
    (code_text e.event_code ≢ [])
    × IsToken (code_text e.event_code)
    × IsKey e.command_key
    × IsInterned e.event_code

pub IsToken-IsField : (s : Bytes) → IsToken s → IsField s
IsToken-IsField [] h = tt
IsToken-IsField (c ∷ cs) h = h.1

pub token_value-IsToken : (s : Bytes) → IsToken s → token_value s ≡ some s
unfolding token_value
token_value-IsToken [] h = refl
token_value-IsToken (c ∷ cs) h = rw h.0 refl

pub key-IsField : (k : Option Bytes) → IsKey k → IsField (key_or_null_code k)
unfolding key_or_null_code
key-IsField none h = ((refl, omega arith, omega arith), tt)
key-IsField (some k) h = IsToken-IsField k h

pub token_value-key : (k : Option Bytes) → IsKey k → token_value (key_or_null_code k) ≡ k
unfolding key_or_null_code token_value
token_value-key none h = refl
token_value-key (some k) h = token_value-IsToken k h

-- What is left behind an event.
abbrev pub rest_of : List Event → Bytes
rest_of [] = []
rest_of (e ∷ es) = event_text e ++ more_events es

next_token-code :
    (e : Event) (t : Bytes)
    → IsWritten e
    → next_token (event_text e ++ t)
      ≡ (some (code_text e.event_code), key_or_null_code e.command_key ++ t)
unfolding next_token event_text
next_token-code e t (full, code, key, interned) =
    let x = code_text e.event_code in
    let k = key_or_null_code e.command_key in
    ap next_token (append_assoc x (b';' ∷ k) t)
    ∙ rw (next_token, token-IsField x (k ++ t) (IsToken-IsField x code), token_value-IsToken x code)
        refl

next_token-key :
    (e : Event) (es : List Event)
    → IsWritten e
    → next_token (key_or_null_code e.command_key ++ more_events es) ≡ (e.command_key, rest_of es)
unfolding next_token more_events
next_token-key e [] (full, code, key, interned) =
    let k = key_or_null_code e.command_key in
    ap next_token (append-nil k)
    ∙ rw
        (
          next_token,
          token-last k (key-IsField e.command_key key),
          token_value-key e.command_key key,
        )
        refl
next_token-key e (e' ∷ es) (full, code, key, interned) =
    let k = key_or_null_code e.command_key in
    rw
      (
        next_token,
        token-IsField k (rest_of (e' ∷ es)) (key-IsField e.command_key key),
        token_value-key e.command_key key,
      )
      refl

new_event-written :
    (e : Event) → IsWritten e → new_event (other (code_text e.event_code)) e.command_key ≡ e
unfolding new_event code_text
new_event-written e h = rw h.3 refl

read_step :
    (fuel : ℕ) (s s1 s2 x : Bytes) (key : Option Bytes)
    → x ≢ []
    → next_token s ≡ (some x, s1)
    → next_token s1 ≡ (key, s2)
    → read_events (suc fuel) s ≡ new_event (other x) key ∷ read_events fuel s2
unfolding read_events
read_step fuel s s1 s2 [] key full e f = absurd (full refl)
read_step fuel s s1 s2 (c ∷ cs) key full e f =
    rw (read_events, ap (λ r. r.0) e, ap (λ r. r.1) e, ap (λ r. r.0) f, ap (λ r. r.1) f) refl

read_events-rest_of :
    (fuel : ℕ) (es : List Event)
    → All IsWritten es
    → length es ≤ fuel
    → read_events fuel (rest_of es) ≡ es
unfolding read_events next_token token token_value
read_events-rest_of zero [] h le = refl
read_events-rest_of zero (e ∷ es) h le = absurd (omega (arith, le))
read_events-rest_of (suc fuel) [] h le = refl
read_events-rest_of (suc fuel) (e ∷ es) h le =
    read_step fuel (rest_of (e ∷ es)) (key_or_null_code e.command_key ++ more_events es)
      (rest_of es) (code_text e.event_code) e.command_key h.0.0
      (next_token-code e (more_events es) h.0) (next_token-key e es h.0)
    ∙ ap (λ x. x ∷ read_events fuel (rest_of es)) (new_event-written e h.0)
    ∙ ap (λ l. e ∷ l) (read_events-rest_of fuel es h.1 (omega (arith, le)))

length-more_events : (es : List Event) → length es ≤ length (more_events es)
unfolding more_events
length-more_events [] = omega arith
length-more_events (e ∷ es) =
    omega (arith, length-more_events es, length-append (event_text e) (more_events es))

length-event_text : (e : Event) → 0 < length (event_text e)
unfolding event_text
length-event_text e =
    omega (arith, length-append (code_text e.event_code) (b';' ∷ key_or_null_code e.command_key))

length-rest_of : (es : List Event) → length es ≤ length (rest_of es)
length-rest_of [] = omega arith
length-rest_of (e ∷ es) = omega (
  arith,
  length-more_events es,
  length-event_text e,
  length-append (event_text e) (more_events es),
)

pub write_events-rest_of : (es : List Event) → write_events es ≡ in_line (rest_of es)
unfolding write_events
write_events-rest_of [] = refl
write_events-rest_of (e ∷ es) = refl

pub set_events-rest_of : (es : List Event) → All IsWritten es → set_events (some (rest_of es)) ≡ es
unfolding set_events
set_events-rest_of es h = read_events-rest_of (length (rest_of es)) es h (length-rest_of es)
