-- ===== src/Store/ControlLine.antt =====
-- dm_target_implementation/PCLINUX/dm_target_dataManagement/src/DM_DAT1_ParameterData.c: the first two lines
-- of the file of the control data, which have the events and what is neither event nor request.
pub mod RoundTrip
use tr069agent.Prelude.{
  ℕ, zero, suc, ◌+◌, ◌-◌, ◌%◌, ◌^◌, Option, none, some, ◌>>=◌, List, [], ◌∷◌, ◌++◌, ltb, ◌==◌,
  if◌then◌else◌, Bytes,
}
use tr069agent.Prelude.Int.{ℤ, pos, negsuc, leb_ℤ}
use tr069agent.Common.Number.{Strtol, strtol, int_to_string, long_min, long_max}
use tr069agent.Event.{Event}
use tr069agent.Store.Struct.{Control}
use tr069agent.Store.Line.{in_line, readln}
use tr069agent.Store.EventLine.{next_token, set_events, key_or_null_code, write_events}

-- The static variables of the second line; `retryCount` is an int.
pub record OtherData : Type 0 where
  pub periodic_inform_time : ℤ
  pub scheduled_inform_time : Option Bytes
  pub scheduled_inform_command_key : Option Bytes
  pub reboot_command_key : Option Bytes
  pub retry_count : ℤ

abbrev pub other_data : Control → OtherData
other_data c = record {
  periodic_inform_time = c.periodic_inform_time;
  scheduled_inform_time = c.scheduled_inform_time;
  scheduled_inform_command_key = c.scheduled_inform_command_key;
  reboot_command_key = c.reboot_command_key;
  retry_count = pos c.retry_count;
}

unfoldable pub others_text : OtherData → Bytes
unfolding int_to_string key_or_null_code
others_text o =
    int_to_string o.periodic_inform_time
    ++ b';'
      ∷ (key_or_null_code o.scheduled_inform_time
          ++ b';'
            ∷ (key_or_null_code o.scheduled_inform_command_key
                ++ b';'
                  ∷ (key_or_null_code o.reboot_command_key ++ b';' ∷ int_to_string o.retry_count)))

-- The two lines; `none` is a write behind `_line`.
unfoldable pub write_head : List Event → OtherData → Option Bytes
unfolding write_events in_line others_text
write_head es o = do
  events_line ← write_events es
  others_line ← in_line (others_text o)
  some (events_line ++ b'\n' ∷ (others_line ++ b'\n' ∷ []))

-- fgets: at most `n` characters, up to the end of the line, and what follows them.
unfoldable pub take_line : ℕ → Bytes → Bytes × Bytes
take_line zero s = ([], s)
take_line (suc n) [] = ([], [])
take_line (suc n) (c ∷ cs) =
    let (line, rest) = take_line n cs in if c == b'\n' then (c ∷ [], cs) else (c ∷ line, rest)

-- `_readln` on what is left of the file: fgets reads one character less than MAX_LINE_LEN.
unfoldable pub next_line : Bytes → Option Bytes × Bytes
unfolding take_line readln
next_line [] = (none, [])
next_line (c ∷ cs) = let (line, rest) = take_line 799 (c ∷ cs) in (readln line, rest)

-- `atol` stops at the bounds of a long; `atoi` cuts its result off to 32 bits.
unfoldable pub atol : Bytes → ℤ
unfolding strtol
atol s =
    let r = strtol s in
    if r.range_error then (if leb_ℤ r.val (pos 0) then long_min else long_max) else r.val

unfoldable pub to_int32 : ℤ → ℤ
to_int32 (pos n) = let r = n % 2 ^ 32 in if ltb r (2 ^ 31) then pos r else negsuc (2 ^ 32 - 1 - r)
to_int32 (negsuc n) =
    let r = n % 2 ^ 32 in if ltb r (2 ^ 31) then negsuc r else pos (2 ^ 32 - 1 - r)

unfoldable pub atoi_or_zero : Option Bytes → ℤ
unfolding atol to_int32
atoi_or_zero none = pos 0
atoi_or_zero (some s) = to_int32 (atol s)

-- The data before, if there is no line; `none` is `atol` on NULL.
unfoldable pub set_others_data : OtherData → Option Bytes → Option OtherData
unfolding next_token atol atoi_or_zero
set_others_data o none = some o
set_others_data o (some line) =
    let (time, s0) = next_token line in
    let (scheduled, s1) = next_token s0 in
    let (scheduled_key, s2) = next_token s1 in
    let (reboot_key, s3) = next_token s2 in
    let (count, s4) = next_token s3 in
    elim time [
      | none ↦ none
      | some t ↦ some (record {
        periodic_inform_time = atol t;
        scheduled_inform_time = scheduled;
        scheduled_inform_command_key = scheduled_key;
        reboot_command_key = reboot_key;
        retry_count = atoi_or_zero count;
      })
    ]

-- The first two reads of `_readDmControl`, where the CRC of the file is right and the events were released
-- before: the events and the other data, and what is left of the file.
unfoldable pub read_head : OtherData → Bytes → Option (List Event × OtherData × Bytes)
unfolding next_line set_events set_others_data
read_head o file =
    let (events_line, s0) = next_line file in
    let (others_line, s1) = next_line s0 in
    elim (set_others_data o others_line) [
      | none ↦ none
      | some o' ↦ some (set_events events_line, o', s1)
    ]
