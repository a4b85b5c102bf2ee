-- ===== src/Store/Transfers/Order.antt =====
-- The order of the transfers that wait, and their numbers.
use tr069agent.Prelude.{
  ℕ, suc, ◌+◌, ◌≤◌, ◌<◌, ◌^◌, List, [], ◌∷◌, ◌≡◌, ◌≢◌, ap, sym, ◌∙◌, subst, ◌==◌, All, arith,
  Bool-cases, inl, inr,
}
use tr069agent.Prelude.Int.{ℤ, leb_ℤ, ◌≤ℤ◌}
use tr069agent.Transfer.{TransferRequest, insert_request, update_transfer_request}
use tr069agent.Transfer.Order.{IsSorted, insert_request-IsSorted}
use tr069agent.Store.Struct.{Control}
use tr069agent.Store.Transfers.{next_id, insert_transfer_request}
use tr069agent.Store.Transfers.Calls.{
  QueueCall, insert, remove, update, run_call, run_calls, without_id, changed_at, queue,
  queue_remove, queue_update,
}

abbrev pub insertions : List QueueCall → ℕ
insertions [] = 0
insertions (insert tr ∷ calls) = suc (insertions calls)
insertions (_ ∷ calls) = insertions calls

abbrev pub HasOtherId : ℕ → List TransferRequest → Type 0
HasOtherId id = All (λ tr. tr.transfer_id ≢ id)

abbrev pub HasDistinctIds : List TransferRequest → Type 0
HasDistinctIds [] = Unit {0}
HasDistinctIds (tr ∷ trs) = HasOtherId tr.transfer_id trs × HasDistinctIds trs

-- The queue is sorted by time; the numbers are distinct, and none is above the last one given.
abbrev pub IsQueue : List TransferRequest × ℕ → Type 0
IsQueue q = IsSorted q.0 × HasDistinctIds q.0 × All (λ tr. tr.transfer_id ≤ q.1) q.0

module _ {κ} (P : TransferRequest → Type κ) where
  insert_request-All :
      (trs : List TransferRequest) (tr : TransferRequest)
      → P tr
      → All P trs
      → All P (insert_request trs tr)
  unfolding insert_request
  insert_request-All [] tr h hs = (h, tt)
  insert_request-All (x ∷ trs) tr h hs =
      elim (Bool-cases (leb_ℤ x.transfer_time tr.transfer_time)) [
        | inl le ↦ rw le (hs.0, insert_request-All trs tr h hs.1)
        | inr gt ↦ rw gt (h, hs)
      ]

  without_id-All : (id : ℕ) (trs : List TransferRequest) → All P trs → All P (without_id id trs)
  without_id-All id [] hs = tt
  without_id-All id (x ∷ trs) hs = elim (Bool-cases (x.transfer_id == id)) [
    | inl eq ↦ rw eq hs.1
    | inr ne ↦ rw ne (hs.0, without_id-All id trs hs.1)
  ]

  changed_at-All :
      (f : TransferRequest → TransferRequest) (id : ℕ) (trs : List TransferRequest)
      → ((tr : TransferRequest) → P tr → P (f tr))
      → All P trs
      → All P (changed_at f id trs)
  changed_at-All f id [] k hs = tt
  changed_at-All f id (x ∷ trs) k hs = elim (Bool-cases (x.transfer_id == id)) [
    | inl eq ↦ rw eq (k x hs.0, hs.1)
    | inr ne ↦ rw ne (hs.0, changed_at-All f id trs k hs.1)
  ]

insert_request-HasDistinctIds :
    (trs : List TransferRequest) (tr : TransferRequest)
    → HasOtherId tr.transfer_id trs
    → HasDistinctIds trs
    → HasDistinctIds (insert_request trs tr)
unfolding insert_request
insert_request-HasDistinctIds [] tr h hs = (tt, tt)
insert_request-HasDistinctIds (x ∷ trs) tr h hs =
    elim (Bool-cases (leb_ℤ x.transfer_time tr.transfer_time)) [
      | inl le ↦ rw le (
        insert_request-All (λ y. y.transfer_id ≢ x.transfer_id) trs tr (λ e. h.0 (sym e)) hs.0,
        insert_request-HasDistinctIds trs tr h.1 hs.1,
      )
      | inr gt ↦ rw gt (h, hs)
    ]

without_id-IsQueue :
    (id last : ℕ) (trs : List TransferRequest)
    → IsQueue (trs, last)
    → IsQueue (without_id id trs, last)
without_id-IsQueue id last [] h = h
without_id-IsQueue id last (x ∷ trs) (sorted, distinct, bounded) =
    elim (Bool-cases (x.transfer_id == id)) [
      | inl eq ↦ rw eq (sorted.1, distinct.1, bounded.1)
      | inr ne ↦
          let ih = without_id-IsQueue id last trs (sorted.1, distinct.1, bounded.1) in
          rw ne (
            (without_id-All (λ tr. x.transfer_time ≤ℤ tr.transfer_time) id trs sorted.0, ih.0),
            (without_id-All (λ tr. tr.transfer_id ≢ x.transfer_id) id trs distinct.0, ih.1),
            (bounded.0, ih.2),
          )
    ]

changed_at-IsQueue :
    (id last : ℕ) (state : ℤ) (code : ℕ) (start comp : ℤ) (trs : List TransferRequest)
    → IsQueue (trs, last)
    → IsQueue (changed_at (λ tr. update_transfer_request tr state code start comp) id trs, last)
unfolding update_transfer_request
changed_at-IsQueue id last state code start comp [] h = h
changed_at-IsQueue id last state code start comp (x ∷ trs) (sorted, distinct, bounded) =
    let f : TransferRequest → TransferRequest =
      λ tr. update_transfer_request tr state code start comp in
    let ih =
      changed_at-IsQueue id last state code start comp trs (sorted.1, distinct.1, bounded.1) in
    elim (Bool-cases (x.transfer_id == id)) [
      | inl eq ↦ rw eq (sorted, distinct, bounded)
      | inr ne ↦ rw ne (
        (
          changed_at-All (λ tr. x.transfer_time ≤ℤ tr.transfer_time) f id trs (λ tr h. h) sorted.0,
          ih.0,
        ),
        (
          changed_at-All (λ tr. tr.transfer_id ≢ x.transfer_id) f id trs (λ tr h. h) distinct.0,
          ih.1,
        ),
        (bounded.0, ih.2),
      )
    ]

pub HasOtherId-above :
    (last id : ℕ) (trs : List TransferRequest)
    → last < id
    → All (λ tr. tr.transfer_id ≤ last) trs
    → HasOtherId id trs × All (λ tr. tr.transfer_id ≤ id) trs
HasOtherId-above last id [] lt h = (tt, tt)
HasOtherId-above last id (x ∷ trs) lt h =
    let ih = HasOtherId-above last id trs lt h.1 in
    ((λ e. omega (arith, e, h.0), ih.0), (omega (arith, h.0), ih.1))

pub next_id-suc : (n : ℕ) → suc n < 2 ^ 32 → next_id n ≡ suc n
unfolding next_id
next_id-suc n h = omega arith

insert-IsQueue :
    (last : ℕ) (trs : List TransferRequest) (tr : TransferRequest)
    → suc last < 2 ^ 32
    → IsQueue (trs, last)
    → IsQueue (insert_request trs (record tr { transfer_id = next_id last }), next_id last)
insert-IsQueue last trs tr lt (sorted, distinct, bounded) =
    let (fresh, bounded') =
      HasOtherId-above last (next_id last) trs (omega (arith, next_id-suc last lt)) bounded in
    let tr' : TransferRequest = record tr { transfer_id = next_id last } in
    (
      insert_request-IsSorted trs tr' sorted,
      insert_request-HasDistinctIds trs tr' fresh distinct,
      insert_request-All (λ y. y.transfer_id ≤ next_id last) trs tr' (omega arith) bounded',
    )

pub run_call-IsQueue :
    (call : QueueCall) (c : Control)
    → c.last_transfer_id + insertions (call ∷ []) < 2 ^ 32
    → IsQueue (queue c)
    → IsQueue (queue (run_call c call))
unfolding insert_transfer_request
run_call-IsQueue (insert tr) c lt h =
    insert-IsQueue c.last_transfer_id c.transfer_requests tr (omega (arith, lt)) h
run_call-IsQueue (remove id) c lt h =
    subst IsQueue (sym (queue_remove c id))
      (without_id-IsQueue id c.last_transfer_id c.transfer_requests h)
run_call-IsQueue (update id state code start comp) c lt h =
    subst IsQueue (sym (queue_update c id state code start comp))
      (changed_at-IsQueue id c.last_transfer_id state code start comp c.transfer_requests h)

pub last_id-run_call :
    (call : QueueCall) (c : Control)
    → c.last_transfer_id + insertions (call ∷ []) < 2 ^ 32
    → (run_call c call).last_transfer_id ≡ c.last_transfer_id + insertions (call ∷ [])
unfolding insert_transfer_request
last_id-run_call (insert tr) c lt =
    omega (arith, next_id-suc c.last_transfer_id (omega (arith, lt)))
last_id-run_call (remove id) c lt = ap (λ q. q.1) (queue_remove c id) ∙ omega arith
last_id-run_call (update id state code start comp) c lt =
    ap (λ q. q.1) (queue_update c id state code start comp) ∙ omega arith

pub insertions_step :
    (call : QueueCall) (calls : List QueueCall)
    → insertions (call ∷ calls) ≡ insertions (call ∷ []) + insertions calls
insertions_step (insert tr) calls = omega arith
insertions_step (remove id) calls = omega arith
insertions_step (update id state code start comp) calls = omega arith

-- Whatever calls are made on the queue, it stays sorted by the time of the transfers, and no two
-- requests have the same number, as long as the numbers given stay below 2 ^ 32.
pub run_calls-IsQueue :
    (calls : List QueueCall) (c : Control)
    → c.last_transfer_id + insertions calls < 2 ^ 32
    → IsQueue (queue c)
    → IsQueue (queue (run_calls calls c))
run_calls-IsQueue [] c lt h = h
run_calls-IsQueue (call ∷ calls) c lt h =
    let step = insertions_step call calls in
    let room : c.last_transfer_id + insertions (call ∷ []) < 2 ^ 32 = omega (arith, lt, step) in
    run_calls-IsQueue calls (run_call c call)
      (omega (arith, lt, step, last_id-run_call call c room)) (run_call-IsQueue call c room h)
