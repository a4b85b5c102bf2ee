-- ===== src/Scheduler/Session.antt =====
-- dm_engine/src/DM_ENG_InformMessageScheduler.c: the session with the ACS, and the next attempt if it fails.
pub mod Delay
use tr069agent.Prelude.{
  ℕ, zero, suc, ◌+◌, ◌*◌, Bool, true, false, not, ◌&&◌, ◌||◌, Option, none, some, List, [], ◌∷◌,
  ◌++◌, ltb, ◌==◌, if◌then◌else◌, Bytes, codes, str_eq, cut_at, length,
}
use tr069agent.Event.{
  Event, EventCode, constant, new_event, event_bootstrap, event_boot, event_m_reboot,
  event_value_change, event_connection_request, event_diagnostics_complete, event_transfer_complete,
  event_autonomous_transfer_complete, event_request_download,
}
use tr069agent.Store.Events.{has_event}
use tr069agent.Manager.{
  clear_events, inc_retry_count, remove_transfer_result, remove_download_request,
  get_transfer_result,
}
use tr069agent.Store.Struct.{Control}
use tr069agent.Parameter.Struct.{Parameter, NotificationMode, is_active, text_at}
use tr069agent.Scheduler.{
  Scheduler, NotificationStatus, completed, session_opening, session_opened, cancelled,
}

abbrev pub initial_retry_delay : ℕ
initial_retry_delay = 5

abbrev pub max_retry_delay : ℕ
max_retry_delay = 2560

unfoldable pub next_retry_delay : ℕ → ℕ
next_retry_delay d =
    if d == 0 then initial_retry_delay else if ltb d max_retry_delay then d * 2 else d

unfoldable pub is_completed : NotificationStatus → Bool
is_completed completed = true
is_completed _ = false

-- The end of a session in `run`: the events are cleared, or the session is tried again later. The last
-- result tells whether the states of the parameters are reset.
unfoldable pub end_session : Scheduler → Control → Scheduler × Control × Bool
unfolding next_retry_delay is_completed clear_events inc_retry_count
end_session s c =
    if is_completed s.status
    then (let (c', reset) = clear_events c in (record s { retry_delay = 0 }, c', reset))
    else if s.alive
    then (
      record s { retry_delay = next_retry_delay s.retry_delay; retry_on = true },
      inc_retry_count c,
      false,
    )
    else (s, c, false)

-- What has been sent is dropped from the data when the ACS has it.
unfoldable pub release_sent : Scheduler → Control → Scheduler × Control
unfolding remove_transfer_result remove_download_request
release_sent s c =
    if not (s.transfer_id_sending == 0)
    then (record s { transfer_id_sending = 0 }, remove_transfer_result c s.transfer_id_sending)
    else if s.request_download_sending
    then (record s { request_download_sending = false }, remove_download_request c)
    else (s, c)

-- The session is open from the first answer of the ACS on.
unfoldable pub open_session : Scheduler → Control → Scheduler × Control × Bool
unfolding clear_events
open_session s c = elim s.status [
  | session_opening ↦
      (let (c', reset) = clear_events c in (record s { status = session_opened }, c', reset))
  | session_opened ↦ (s, c, false)
  | completed ↦ (s, c, false)
  | cancelled ↦ (s, c, false)
]

unfoldable pub is_opened : NotificationStatus → Bool
is_opened session_opened = true
is_opened _ = false

-- The answer, the state, the data, and whether the states of the parameters are reset.
unfoldable pub is_session_opened : Bool → Scheduler → Control → Bool × Scheduler × Control × Bool
unfolding open_session release_sent is_opened
is_session_opened opening_ok s c =
    let (s1, c1, reset) = if opening_ok then open_session s c else (s, c, false) in
    let (s2, c2) = if is_opened s1.status && opening_ok then release_sent s1 c1 else (s1, c1) in
    (is_opened s2.status, s2, c2, reset)

unfoldable pub session_closed : Bool → Scheduler → Control → Scheduler × Control × Bool
unfolding is_session_opened
session_closed success s c =
    let (_, s', c', reset) = if success then is_session_opened true s c else (false, s, c, false) in
    (
      record s' {
        status = if success then completed else cancelled;
        transfer_id_sending = 0;
        request_download_sending = false;
      },
      c',
      reset,
    )

-- The ACS has nothing to wait for: no transfer result and no download request is left.
unfoldable pub is_ready_to_close : Scheduler → Control → Bool
unfolding get_transfer_result
is_ready_to_close s c =
    (s.transfer_id_sending == 0 && not s.request_download_sending)
    && (elim (get_transfer_result c.transfer_requests) [ none ↦ true | some tr ↦ false ]
        && (elim c.download_requests [ [] ↦ true | dr ∷ _ ↦ false ]))

-- When a session is tried again, from the time that is planned next.
unfoldable pub retry_time : ℕ → ℕ → ℕ → ℕ
retry_time now next delay =
    if ltb next (now + initial_retry_delay)
    then now + initial_retry_delay
    else if ltb (now + delay) next
    then now + delay
    else next
