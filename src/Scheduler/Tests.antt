-- ===== src/Scheduler/Tests.antt =====
-- Boots and failed sessions on concrete data.
use tr069agent.Prelude.{true, false, none, [], ◌≡◌}
use tr069agent.Store.Struct.{no_control}
use tr069agent.Scheduler.{Scheduler, down, completed}
use tr069agent.Scheduler.Session.{end_session}
use tr069agent.Scheduler.Session.Delay.{fail_times, delay_after, retry_delay-fail_times}

abbrev after_reboot : Scheduler
after_reboot = record {
  last_status = down;
  alive = true;
  retry_on = false;
  retry_delay = 0;
  pending_events = [];
  status = completed;
  transfer_id_sending = 0;
  request_download_sending = false;
  reboot_command_key = none;
}

retry_delay-fail_times_example :
    (fail_times 12
      (end_session (record after_reboot { status = completed }) no_control).0
      no_control).retry_delay
    ≡ delay_after 11
retry_delay-fail_times_example = retry_delay-fail_times 11 after_reboot no_control
