-- ===== src/Store/Transfers/Table.antt =====
-- The queue of transfers as a table of requests by number.
use tr069agent.Prelude.{
  ℕ, suc, ◌+◌, ◌<◌, ◌^◌, Option, none, some, List, [], ◌∷◌, ◌≡◌, refl, ap, ◌∙◌, if◌then◌else◌, ◌==◌,
  ==_iff, arith, Bool-cases, inl, inr,
}
use tr069agent.Prelude.Int.{ℤ, leb_ℤ}
use tr069agent.Transfer.{TransferRequest, insert_request, update_transfer_request}
use tr069agent.Store.Struct.{Control}
use tr069agent.Store.Transfers.{next_id, insert_transfer_request}
use tr069agent.Store.Transfers.Calls.{
  QueueCall, insert, remove, update, run_call, run_calls, without_id, changed_at, queue,
  queue_remove, queue_update,
}
use tr069agent.Store.Transfers.Order.{
  IsQueue, HasOtherId, HasDistinctIds, insertions, insertions_step, run_call-IsQueue,
  last_id-run_call, next_id-suc, HasOtherId-above,
}

-- The request of a number.
abbrev pub find_request : List TransferRequest → ℕ → Option TransferRequest
find_request [] i = none
find_request (tr ∷ trs) i = if tr.transfer_id == i then some tr else find_request trs i

abbrev map_some :
    (TransferRequest → TransferRequest) → Option TransferRequest → Option TransferRequest
map_some f none = none
map_some f (some tr) = some (f tr)

-- What a call does to the entry at `i` of the table, when the last number given is `last`.
abbrev pub table_call : QueueCall → ℕ → ℕ → Option TransferRequest → Option TransferRequest
table_call (insert tr) last i entry =
    if suc last == i then some (record tr { transfer_id = suc last }) else entry
table_call (remove id) last i entry = if id == i then none else entry
table_call (update id state code start comp) last i entry =
    if id == i
    then map_some (λ tr. update_transfer_request tr state code start comp) entry
    else entry

abbrev pub table_calls : List QueueCall → ℕ → ℕ → Option TransferRequest → Option TransferRequest
table_calls [] last i entry = entry
table_calls (call ∷ calls) last i entry =
    table_calls calls (last + insertions (call ∷ [])) i (table_call call last i entry)

find_request-HasOtherId :
    (trs : List TransferRequest) (i : ℕ) → HasOtherId i trs → find_request trs i ≡ none
find_request-HasOtherId [] i h = refl
find_request-HasOtherId (tr ∷ trs) i h = elim (Bool-cases (tr.transfer_id == i)) [
  | inl eq ↦ absurd (h.0 ((==_iff tr.transfer_id i).0 eq))
  | inr ne ↦ rw ne (find_request-HasOtherId trs i h.1)
]

find_request-insert :
    (trs : List TransferRequest) (tr : TransferRequest) (i : ℕ)
    → HasOtherId tr.transfer_id trs
    → find_request (insert_request trs tr) i
      ≡ (if tr.transfer_id == i then some tr else find_request trs i)
unfolding insert_request
find_request-insert [] tr i h = refl
find_request-insert (x ∷ trs) tr i h = elim (Bool-cases (leb_ℤ x.transfer_time tr.transfer_time)) [
  | inl le ↦ rw le (ground (arith, find_request-insert trs tr i h.1, h.0))
  | inr gt ↦ rw gt refl
]

find_request-without_id :
    (trs : List TransferRequest) (id i : ℕ)
    → HasDistinctIds trs
    → find_request (without_id id trs) i ≡ (if id == i then none else find_request trs i)
find_request-without_id [] id i h = ground arith
find_request-without_id (x ∷ trs) id i h = elim (Bool-cases (x.transfer_id == id)) [
  | inl eq ↦ rw eq (ground (arith, find_request-HasOtherId trs x.transfer_id h.0))
  | inr ne ↦ rw ne (ground (arith, find_request-without_id trs id i h.1))
]

find_request-changed_at :
    (trs : List TransferRequest) (id i : ℕ) (state : ℤ) (code : ℕ) (start comp : ℤ)
    → find_request (changed_at (λ tr. update_transfer_request tr state code start comp) id trs) i
      ≡ (if id == i
          then map_some
              (λ tr. update_transfer_request tr state code start comp)
              (find_request trs i)
          else find_request trs i)
unfolding update_transfer_request
find_request-changed_at [] id i state code start comp = ground arith
find_request-changed_at (x ∷ trs) id i state code start comp =
    elim (Bool-cases (x.transfer_id == id)) [
      | inl eq ↦ rw eq (ground arith)
      | inr ne ↦ rw ne (ground (arith, find_request-changed_at trs id i state code start comp))
    ]

find_request-run_call :
    (call : QueueCall) (c : Control) (i : ℕ)
    → c.last_transfer_id + insertions (call ∷ []) < 2 ^ 32
    → IsQueue (queue c)
    → find_request (run_call c call).transfer_requests i
      ≡ table_call call c.last_transfer_id i (find_request c.transfer_requests i)
unfolding insert_transfer_request
find_request-run_call (insert tr) c i lt h =
    let id = next_id-suc c.last_transfer_id (omega (arith, lt)) in
    find_request-insert c.transfer_requests (record tr { transfer_id = next_id c.last_transfer_id })
      i
      (HasOtherId-above c.last_transfer_id (next_id c.last_transfer_id) c.transfer_requests
        (omega (arith, id)) h.2).0
    ∙ ap
        (λ n.
          if n == i
          then some (record tr { transfer_id = n })
          else find_request c.transfer_requests i)
        id
find_request-run_call (remove id) c i lt h =
    ap (λ q. find_request q.0 i) (queue_remove c id)
    ∙ find_request-without_id c.transfer_requests id i h.1
find_request-run_call (update id state code start comp) c i lt h =
    ap (λ q. find_request q.0 i) (queue_update c id state code start comp)
    ∙ find_request-changed_at c.transfer_requests id i state code start comp

-- After any calls, the request found under a number in the queue is the one that a table by number
-- has after the same calls: an insertion fills the entry of the next number, a removal clears an
-- entry, and an update changes it if there is one. The queue at the start is sorted and has distinct
-- numbers, none above the last one given, and the numbers given stay below 2 ^ 32.
pub find_request-run_calls :
    (calls : List QueueCall) (c : Control) (i : ℕ)
    → c.last_transfer_id + insertions calls < 2 ^ 32
    → IsQueue (queue c)
    → find_request (run_calls calls c).transfer_requests i
      ≡ table_calls calls c.last_transfer_id i (find_request c.transfer_requests i)
find_request-run_calls [] c i lt h = refl
find_request-run_calls (call ∷ calls) c i lt h =
    let step = insertions_step call calls in
    let room : c.last_transfer_id + insertions (call ∷ []) < 2 ^ 32 = omega (arith, lt, step) in
    let last = last_id-run_call call c room in
    find_request-run_calls calls (run_call c call) i (omega (arith, lt, step, last))
      (run_call-IsQueue call c room h)
    ∙ ap (λ n. table_calls calls n i (find_request (run_call c call).transfer_requests i)) last
    ∙ ap (table_calls calls (c.last_transfer_id + insertions (call ∷ [])) i)
        (find_request-run_call call c i room h)
