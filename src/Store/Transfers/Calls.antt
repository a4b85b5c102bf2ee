-- ===== src/Store/Transfers/Calls.antt =====
-- What the calls on the queue do to the list of the requests.
use tr069agent.Prelude.{
  ℕ, Option, none, some, List, [], ◌∷◌, ◌≡◌, refl, ap, sym, ◌∙◌, if◌then◌else◌, ◌==◌, Bool-cases,
  Option-cases, inl, inr,
}
use tr069agent.Prelude.Int.{ℤ}
use tr069agent.Transfer.{TransferRequest, update_transfer_request}
use tr069agent.Store.Struct.{Control}
use tr069agent.Store.Transfers.{
  insert_transfer_request, remove_request, with_requests, remove_transfer_request, change_request,
  update_request,
}

-- A call of the functions on the queue.
pub data QueueCall : Type 0 where
  insert : TransferRequest → QueueCall
  remove : ℕ → QueueCall
  update : ℕ → ℤ → ℕ → ℤ → ℤ → QueueCall

abbrev pub run_call : Control → QueueCall → Control
run_call c (insert tr) = insert_transfer_request c tr
run_call c (remove id) = remove_transfer_request c id
run_call c (update id state code start comp) = (update_request c id state code start comp).0

abbrev pub run_calls : List QueueCall → Control → Control
run_calls [] c = c
run_calls (call ∷ calls) c = run_calls calls (run_call c call)

-- The list without the first request of a number, and with that request changed.
abbrev pub without_id : ℕ → List TransferRequest → List TransferRequest
without_id id [] = []
without_id id (tr ∷ trs) = if tr.transfer_id == id then trs else tr ∷ without_id id trs

abbrev pub changed_at :
    (TransferRequest → TransferRequest) → ℕ → List TransferRequest → List TransferRequest
changed_at f id [] = []
changed_at f id (tr ∷ trs) = if tr.transfer_id == id then f tr ∷ trs else tr ∷ changed_at f id trs

abbrev list_or : List TransferRequest → Option (List TransferRequest) → List TransferRequest
list_or trs none = trs
list_or trs (some kept) = kept

abbrev changed_or :
    List TransferRequest → Option (List TransferRequest × TransferRequest) → List TransferRequest
changed_or trs none = trs
changed_or trs (some (trs', tr)) = trs'

remove_request-without_id :
    (trs : List TransferRequest) (id : ℕ) → list_or trs (remove_request trs id) ≡ without_id id trs
unfolding remove_request
remove_request-without_id [] id = refl
remove_request-without_id (tr ∷ trs) id = elim (Bool-cases (tr.transfer_id == id)) [
  | inl eq ↦ rw eq refl
  | inr ne ↦ elim (Option-cases (remove_request trs id)) [
    | inl e ↦
        rw (ne, e) (ap (λ l. tr ∷ l) (ap (list_or trs) (sym e) ∙ remove_request-without_id trs id))
    | inr (kept, e) ↦
        rw (ne, e) (ap (λ l. tr ∷ l) (ap (list_or trs) (sym e) ∙ remove_request-without_id trs id))
  ]
]

change_request-changed_at :
    (f : TransferRequest → TransferRequest) (trs : List TransferRequest) (id : ℕ)
    → changed_or trs (change_request f trs id) ≡ changed_at f id trs
unfolding change_request
change_request-changed_at f [] id = refl
change_request-changed_at f (tr ∷ trs) id = elim (Bool-cases (tr.transfer_id == id)) [
  | inl eq ↦ rw eq refl
  | inr ne ↦ elim (Option-cases (change_request f trs id)) [
    | inl e ↦
        rw (ne, e)
          (ap (λ l. tr ∷ l) (ap (changed_or trs) (sym e) ∙ change_request-changed_at f trs id))
    | inr (found, e) ↦
        rw (ne, e)
          (ap (λ l. tr ∷ l) (ap (changed_or trs) (sym e) ∙ change_request-changed_at f trs id))
  ]
]

-- The requests and the last number after a call.
abbrev pub queue : Control → List TransferRequest × ℕ
queue c = (c.transfer_requests, c.last_transfer_id)

pub queue_remove :
    (c : Control) (id : ℕ)
    → queue (run_call c (remove id)) ≡ (without_id id c.transfer_requests, c.last_transfer_id)
unfolding remove_transfer_request with_requests
queue_remove c id = elim (Option-cases (remove_request c.transfer_requests id)) [
  | inl e ↦ rw e (
      ap (λ l. (l, c.last_transfer_id))
        (ap (list_or c.transfer_requests) (sym e)
          ∙ remove_request-without_id c.transfer_requests id))
  | inr (kept, e) ↦ rw e (
      ap (λ l. (l, c.last_transfer_id))
        (ap (list_or c.transfer_requests) (sym e)
          ∙ remove_request-without_id c.transfer_requests id))
]

pub queue_update :
    (c : Control) (id : ℕ) (state : ℤ) (code : ℕ) (start comp : ℤ)
    → queue (run_call c (update id state code start comp)) ≡ (
      changed_at (λ tr. update_transfer_request tr state code start comp) id c.transfer_requests,
      c.last_transfer_id,
    )
unfolding update_request with_requests
queue_update c id state code start comp =
    let found =
      change_request-changed_at (λ tr. update_transfer_request tr state code start comp)
        c.transfer_requests id in
    elim (Option-cases (
      change_request (λ tr. update_transfer_request tr state code start comp) c.transfer_requests
        id)) [
          | inl e ↦
              rw (run_call, update_request, e)
                (ap (λ l. (l, c.last_transfer_id))
                  (ap (changed_or c.transfer_requests) (sym e) ∙ found))
          | inr (r, e) ↦
              rw (run_call, update_request, e)
                (ap (λ l. (l, c.last_transfer_id))
                  (ap (changed_or c.transfer_requests) (sym e) ∙ found))
        ]
