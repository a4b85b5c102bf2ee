-- ===== src/Store/EventLine.antt =====
-- dm_target_implementation/PCLINUX/dm_target_dataManagement/src/DM_DAT1_ParameterData.c: the line of the
-- events in the file of the control data.
pub mod RoundTrip
use tr069agent.Prelude.{
  ℕ, zero, suc, Bool, true, false, ◌||◌, Option, none, some, List, [], ◌∷◌, ◌++◌, ltb, leb, ◌==◌,
  if◌then◌else◌, Bytes, codes, length,
}
use tr069agent.Event.{Event, other, code_text, new_event}
use tr069agent.Store.Line.{in_line}

-- A token ends at a semicolon, or at a character below a space as a signed `char`.
unfoldable pub ends_token : ℕ → Bool
ends_token c = c == b';' || (ltb c b' ' || leb 128 c)

-- The token, and what follows it.
unfoldable pub token : Bytes → Bytes × Bytes
unfolding ends_token
token [] = ([], [])
token (c ∷ cs) = let (t, rest) = token cs in if ends_token c then ([], cs) else (c ∷ t, rest)

-- A token that starts with the character of `NULL_CODE` is NULL.
unfoldable pub token_value : Bytes → Option Bytes
token_value [] = some []
token_value (c ∷ cs) = if c == b'_' then none else some (c ∷ cs)

unfoldable pub next_token : Bytes → Option Bytes × Bytes
unfolding token token_value
next_token s = let (t, rest) = token s in (token_value t, rest)

-- The fuel is the length of the line: every round takes a character of a code.
unfoldable pub read_events : ℕ → Bytes → List Event
unfolding next_token new_event
read_events zero s = []
read_events (suc fuel) s =
    let (code, s1) = next_token s in
    elim code [
      | none ↦ []
      | some [] ↦ []
      | some (c ∷ cs) ↦
          (let (key, s2) = next_token s1 in new_event (other (c ∷ cs)) key ∷ read_events fuel s2)
    ]

-- The list of events was empty before.
unfoldable pub set_events : Option Bytes → List Event
unfolding read_events
set_events none = []
set_events (some line) = read_events (length line) line

unfoldable pub key_or_null_code : Option Bytes → Bytes
key_or_null_code none = codes "_"
key_or_null_code (some k) = k

unfoldable pub event_text : Event → Bytes
unfolding code_text key_or_null_code
event_text e = code_text e.event_code ++ b';' ∷ key_or_null_code e.command_key

unfoldable pub more_events : List Event → Bytes
unfolding event_text
more_events [] = []
more_events (e ∷ es) = b';' ∷ (event_text e ++ more_events es)

-- `none` is a write behind `_line`.
unfoldable pub write_events : List Event → Option Bytes
unfolding in_line event_text more_events
write_events [] = in_line []
write_events (e ∷ es) = in_line (event_text e ++ more_events es)
