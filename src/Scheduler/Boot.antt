-- ===== src/Scheduler/Boot.antt =====
-- The events of a boot.
use tr069agent.Prelude.{
  ℕ, zero, suc, ◌≤◌, ◌<◌, Bool, true, false, Option, none, some, List, [], ◌∷◌, ◌++◌, ◌≡◌, refl, ap,
  sym, subst, ◌∙◌, if◌then◌else◌, Bytes, length, length-append, append-nil, str_eq, All, arith,
  Bool-cases, inl, inr,
}
use tr069agent.Common.CommaList.{build_comma_separated_list, join_rest, has_item}
use tr069agent.Common.CommaList.RoundTrip.{NoComma}
use tr069agent.Event.{
  EventCode, constant, new_event, event_codes, event_bootstrap, event_boot, event_m_reboot,
  intern_event_code, code_text,
}
use tr069agent.Store.Events.{has_event, is_event}
use tr069agent.Store.Events.Once.{has_event-append, is_event-new_event, intern-constant}
use tr069agent.Store.Schedule.Packed.{cut_at-NoComma, cut_at-first}
use tr069agent.Scheduler.{Scheduler, add_pending_event, reboot_events, with_reboot_keys, boot_event}

-- An event that waits for the next session.
abbrev pub IsPending : Scheduler → Bytes → Option Bytes → Type 0
IsPending s ec ck = has_event s.pending_events (constant ec) ck ≡ true

IsPending-add :
    (s : Scheduler) (ec : Bytes) (ck ck' : Option Bytes) (ec' : EventCode)
    → IsPending s ec ck
    → IsPending (add_pending_event ec' ck' s) ec ck
unfolding add_pending_event new_event
IsPending-add s ec ck ck' ec' h =
    elim (Bool-cases (has_event s.pending_events (intern_event_code (code_text ec')) ck')) [
      | inl eq ↦ rw eq h
      | inr ne ↦
          rw ne (has_event-append s.pending_events (new_event ec' ck') (constant ec) ck ∙ rw h refl)
    ]

IsPending-added :
    (s : Scheduler) (ec : Bytes) (ck : Option Bytes)
    → has_item event_codes ec ≡ true
    → IsPending (add_pending_event (constant ec) ck s) ec ck
unfolding add_pending_event new_event code_text
IsPending-added s ec ck h = elim (Bool-cases (has_event s.pending_events (constant ec) ck)) [
  | inl eq ↦ rw (intern-constant ec h, eq) eq
  | inr ne ↦
      rw (intern-constant ec h, ne)
        (has_event-append s.pending_events (record { event_code = constant ec; command_key = ck })
            (constant ec) ck
          ∙ rw
              (
                ne,
                ap (λ x. is_event (constant ec) ck (record { event_code = x; command_key = ck }))
                      (sym (intern-constant ec h))
                    ∙ is_event-new_event ec ck h,
              )
              refl)
]

-- The reboot events of a list of command keys.
abbrev pub add_reboots : List Bytes → Scheduler → Scheduler
add_reboots [] s = s
add_reboots (k ∷ ks) s = add_reboots ks (add_pending_event (constant event_m_reboot) (some k) s)

reboot_events-join_rest :
    (fuel : ℕ) (x : Bytes) (xs : List Bytes) (s : Scheduler)
    → All NoComma (x ∷ xs)
    → length xs < fuel
    → reboot_events fuel (x ++ join_rest xs) s ≡ add_reboots (x ∷ xs) s
unfolding reboot_events join_rest
reboot_events-join_rest zero x xs s h lt = absurd (omega (arith, lt))
reboot_events-join_rest (suc fuel) x [] s h lt =
    ap (λ t. reboot_events (suc fuel) t s) (append-nil x)
    ∙ rw (reboot_events, cut_at-NoComma x h.0) refl
reboot_events-join_rest (suc fuel) x (y ∷ ys) s h lt =
    rw (reboot_events, cut_at-first x (y ++ join_rest ys) h.0)
      (reboot_events-join_rest fuel y ys (add_pending_event (constant event_m_reboot) (some x) s)
        h.1 (omega (arith, lt)))

add_reboots-IsPending :
    (ks : List Bytes) (s : Scheduler) (ec : Bytes) (ck : Option Bytes)
    → IsPending s ec ck
    → IsPending (add_reboots ks s) ec ck
add_reboots-IsPending [] s ec ck h = h
add_reboots-IsPending (k ∷ ks) s ec ck h =
    add_reboots-IsPending ks (add_pending_event (constant event_m_reboot) (some k) s) ec ck
      (IsPending-add s ec ck (some k) (constant event_m_reboot) h)

boot_codes : (has_item event_codes event_boot ≡ true) × (has_item event_codes event_m_reboot ≡ true)
unfolding has_item str_eq
boot_codes = (refl, refl)

add_reboots-All :
    (ks : List Bytes) (s : Scheduler)
    → All (λ k. IsPending (add_reboots ks s) event_m_reboot (some k)) ks
add_reboots-All [] s = tt
add_reboots-All (k ∷ ks) s = (
  add_reboots-IsPending ks (add_pending_event (constant event_m_reboot) (some k) s) event_m_reboot
      (some k) (IsPending-added s event_m_reboot (some k) boot_codes.1),
  add_reboots-All ks (add_pending_event (constant event_m_reboot) (some k) s),
)

length-join_rest : (xs : List Bytes) → length xs ≤ length (join_rest xs)
unfolding join_rest
length-join_rest [] = omega arith
length-join_rest (x ∷ xs) = omega (arith, length-join_rest xs, length-append x (join_rest xs))

abbrev before_reboots : Bool → Scheduler → Scheduler
before_reboots factory_reset s =
    add_pending_event (constant event_boot) none
      (if factory_reset then add_pending_event (constant event_bootstrap) none s else s)

reboot_key-add :
    (ec : EventCode) (ck : Option Bytes) (s : Scheduler)
    → (add_pending_event ec ck s).reboot_command_key ≡ s.reboot_command_key
unfolding add_pending_event
reboot_key-add ec ck s = ground arith

reboot_key-before :
    (f : Bool) (s : Scheduler) → (before_reboots f s).reboot_command_key ≡ s.reboot_command_key
reboot_key-before true s =
    reboot_key-add (constant event_boot) none (add_pending_event (constant event_bootstrap) none s)
    ∙ reboot_key-add (constant event_bootstrap) none s
reboot_key-before false s = reboot_key-add (constant event_boot) none s

abbrev without_key : Scheduler → Scheduler
without_key r = record r { reboot_command_key = none }

with_reboot_keys-list :
    (x : Bytes) (xs : List Bytes) (s : Scheduler)
    → All NoComma (x ∷ xs)
    → with_reboot_keys (build_comma_separated_list (x ∷ xs)) s
      ≡ record (add_reboots (x ∷ xs) s) { reboot_command_key = none }
unfolding with_reboot_keys build_comma_separated_list
with_reboot_keys-list x xs s h = ap without_key (
    reboot_events-join_rest (suc (length (x ++ join_rest xs))) x xs s h
      (omega (arith, length-join_rest xs, length-append x (join_rest xs))))

-- After a boot, an event for the boot waits and, if the reboot command keys are a list of keys without
-- comma, an event for each of them; the keys themselves are gone.
pub boot_event-IsPending :
    (factory_reset : Bool) (x : Bytes) (xs : List Bytes) (s : Scheduler)
    → All NoComma (x ∷ xs)
    → s.reboot_command_key ≡ build_comma_separated_list (x ∷ xs)
    → let s' = boot_event factory_reset s in
      IsPending s' event_boot none
      × All (λ k. IsPending s' event_m_reboot (some k)) (x ∷ xs)
      × (s'.reboot_command_key ≡ none)
unfolding boot_event
boot_event-IsPending factory_reset x xs s h e =
    let b = before_reboots factory_reset s in
    let whole : boot_event factory_reset s
        ≡ record (add_reboots (x ∷ xs) b) { reboot_command_key = none } =
      ap (λ k. with_reboot_keys k b) (reboot_key-before factory_reset s ∙ e)
      ∙ with_reboot_keys-list x xs b h in
    subst
      (λ r.
        IsPending r event_boot none
        × All (λ k. IsPending r event_m_reboot (some k)) (x ∷ xs)
        × (r.reboot_command_key ≡ none))
      (sym whole)
      (
        add_reboots-IsPending (x ∷ xs) b event_boot none (
            IsPending-added
              (if factory_reset then add_pending_event (constant event_bootstrap) none s else s)
              event_boot none boot_codes.0),
        add_reboots-All (x ∷ xs) b,
        refl,
      )
