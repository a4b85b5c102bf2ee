-- ===== src/Store/Schedule/Refinement.antt =====
-- The scheduled Informs behave as a list sorted by time, whatever calls are made.
use tr069agent.Prelude.{
  Bool, true, Option, some, ◌>>=◌, List, [], ◌∷◌, ◌≡◌, refl, ap, ◌∙◌, leb, All, Bool-cases, inl,
  inr,
}
use tr069agent.Prelude.Int.{pos}
use tr069agent.Common.CommaList.{build_comma_separated_list}
use tr069agent.Store.Struct.{Control}
use tr069agent.Store.Schedule.{
  get_scheduled_inform_time, get_scheduled_inform_command_key, next_scheduled_inform_command,
  is_null_text, add_scheduled_inform_command,
}
use tr069agent.Store.Schedule.Packed.{
  Inform, IsInform, packed, head_time, head_key, later_informs, get_time-packed, get_key-packed,
  next-packed,
}
use tr069agent.Store.Schedule.Passed.{insert_inform}
use tr069agent.Store.Schedule.Insert.{add-packed}

-- A call: a new Inform is scheduled, or the first one is dropped.
pub data Command : Type 0 where
  schedule : Inform → Command
  drop_first : Command

abbrev pub IsCommand : Command → Type 0
IsCommand (schedule q) = IsInform q
IsCommand drop_first = Unit {0}

-- The calls on the data of the code.
abbrev pub run_commands : List Command → Control → Option Control
run_commands [] c = some c
run_commands (schedule q ∷ cmds) c =
    add_scheduled_inform_command c (pos q.0) (some q.1) >>= λ c'. run_commands cmds c'
run_commands (drop_first ∷ cmds) c = run_commands cmds (next_scheduled_inform_command c)

-- The same calls on a list.
abbrev pub replay : List Command → List Inform → List Inform
replay [] xs = xs
replay (schedule q ∷ cmds) xs = replay cmds (insert_inform q xs)
replay (drop_first ∷ cmds) xs = replay cmds (later_informs xs)

insert_inform-IsInform :
    (q : Inform) (xs : List Inform)
    → IsInform q
    → All IsInform xs
    → All IsInform (insert_inform q xs)
insert_inform-IsInform q [] h hs = (h, tt)
insert_inform-IsInform q (p ∷ xs) h hs = elim (Bool-cases (leb p.0 q.0)) [
  | inl le ↦ rw le (hs.0, insert_inform-IsInform q xs h hs.1)
  | inr gt ↦ rw gt (h, hs)
]

next_empty :
    (c : Control) (b : Bool) → next_scheduled_inform_command (packed c [] b) ≡ packed c [] b
unfolding next_scheduled_inform_command is_null_text build_comma_separated_list
next_empty c b = refl

run_commands-packed :
    (cmds : List Command) (c : Control) (xs : List Inform) (b : Bool)
    → All IsCommand cmds
    → All IsInform xs
    → (b' : Bool) × (run_commands cmds (packed c xs b) ≡ some (packed c (replay cmds xs) b'))
      × All IsInform (replay cmds xs)
run_commands-packed [] c xs b h hs = (b, refl, hs)
run_commands-packed (schedule q ∷ cmds) c xs b h hs =
    let (b', e, valid) =
      run_commands-packed cmds c (insert_inform q xs) true h.1
        (insert_inform-IsInform q xs h.0 hs) in
    (b', ap (λ r. r >>= λ c'. run_commands cmds c') (add-packed c q xs b h.0 hs) ∙ e, valid)
run_commands-packed (drop_first ∷ cmds) c [] b h hs =
    let (b', e, valid) = run_commands-packed cmds c [] b h.1 hs in
    (b', ap (run_commands cmds) (next_empty c b) ∙ e, valid)
run_commands-packed (drop_first ∷ cmds) c (p ∷ xs) b h hs =
    let (b', e, valid) = run_commands-packed cmds c xs true h.1 hs.1 in
    (b', ap (run_commands cmds) (next-packed c p xs b hs.0) ∙ e, valid)

-- Whatever scheduled Informs are added, with positive times and keys without comma, and taken off,
-- the code does not crash, and its data are those of the list that the same calls give when a new
-- Inform goes behind those that are not later; the time and the key that it answers are those of the
-- first Inform of that list, and 0 and NULL if there is none.
pub run_commands_refines :
    (cmds : List Command) (c : Control) (b : Bool)
    → All IsCommand cmds
    → let informs = replay cmds [] in
      (s : Control) × (b' : Bool) × (run_commands cmds (packed c [] b) ≡ some s)
      × (s ≡ packed c informs b')
      × (get_scheduled_inform_time s ≡ head_time informs)
      × (get_scheduled_inform_command_key s ≡ head_key informs)
run_commands_refines cmds c b h =
    let (b', e, valid) = run_commands-packed cmds c [] b h tt in
    (
      packed c (replay cmds []) b',
      b',
      e,
      refl,
      get_time-packed c (replay cmds []) b' valid,
      get_key-packed c (replay cmds []) b' valid,
    )
