-- ===== src/Transfer/Order.antt =====
-- The order of the queue of transfers.
use tr069agent.Prelude.{List, [], ◌∷◌, ◌++◌, ◌≡◌, ◌↔◌, refl, ap, All, arith, Bool-cases, inl, inr}
use tr069agent.Prelude.Int.{ℤ, leb_ℤ, ◌≤ℤ◌}
use tr069agent.Transfer.{TransferRequest, insert_request, add_transfer_request}

-- No request of the list is earlier than the time.
abbrev pub NoneBefore : ℤ → List TransferRequest → Type 0
NoneBefore t = All (λ d. t ≤ℤ d.transfer_time)

abbrev pub IsSorted : List TransferRequest → Type 0
IsSorted [] = Unit {0}
IsSorted (dr ∷ drs) = NoneBefore dr.transfer_time drs × IsSorted drs

le_trans : (a b c : ℤ) → a ≤ℤ b → b ≤ℤ c → a ≤ℤ c
le_trans a b c h k = omega arith

pub NoneBefore-earlier :
    (a b : ℤ) (drs : List TransferRequest) → a ≤ℤ b → NoneBefore b drs → NoneBefore a drs
NoneBefore-earlier a b [] h k = tt
NoneBefore-earlier a b (dr ∷ drs) h k =
    (le_trans a b dr.transfer_time h k.0, NoneBefore-earlier a b drs h k.1)

insert_request-NoneBefore :
    (t : ℤ) (drs : List TransferRequest) (new_dr : TransferRequest)
    → NoneBefore t (insert_request drs new_dr) ↔ (t ≤ℤ new_dr.transfer_time × NoneBefore t drs)
unfolding insert_request
insert_request-NoneBefore t [] new_dr = (λ h. h, λ h. h)
insert_request-NoneBefore t (dr ∷ drs) new_dr =
    let ih = insert_request-NoneBefore t drs new_dr in
    elim (Bool-cases (leb_ℤ dr.transfer_time new_dr.transfer_time)) [
      | inl le ↦ rw le (λ h. ((ih.0 h.1).0, (h.0, (ih.0 h.1).1)), λ h. (h.1.0, ih.1 (h.0, h.1.1)))
      | inr gt ↦ rw gt (λ h. h, λ h. h)
    ]

pub insert_request-IsSorted :
    (drs : List TransferRequest) (new_dr : TransferRequest)
    → IsSorted drs
    → IsSorted (insert_request drs new_dr)
unfolding insert_request
insert_request-IsSorted [] new_dr h = (tt, tt)
insert_request-IsSorted (dr ∷ drs) new_dr h =
    elim (Bool-cases (leb_ℤ dr.transfer_time new_dr.transfer_time)) [
      | inl le ↦ rw le (
        (insert_request-NoneBefore dr.transfer_time drs new_dr).1 (ground arith, h.0),
        insert_request-IsSorted drs new_dr h.1,
      )
      | inr gt ↦
          let later : new_dr.transfer_time ≤ℤ dr.transfer_time = ground arith in
          rw gt ((later, NoneBefore-earlier new_dr.transfer_time dr.transfer_time drs later h.0), h)
    ]

-- A queue that is not empty and sorted by time stays so exactly if the new request is not earlier than the first.
pub add_transfer_request-IsSorted :
    (dr : TransferRequest) (drs : List TransferRequest) (new_dr : TransferRequest)
    → IsSorted (dr ∷ drs)
    → IsSorted (add_transfer_request (dr ∷ drs) new_dr) ↔ (dr.transfer_time ≤ℤ new_dr.transfer_time)
unfolding add_transfer_request
add_transfer_request-IsSorted dr drs new_dr h = (
  λ s. ((insert_request-NoneBefore dr.transfer_time drs new_dr).0 s.0).0,
  λ le. (
    (insert_request-NoneBefore dr.transfer_time drs new_dr).1 (le, h.0),
    insert_request-IsSorted drs new_dr h.1,
  ),
)

insert_request-between :
    (drs : List TransferRequest) (new_dr : TransferRequest)
    → (before after : List TransferRequest) × (drs ≡ before ++ after)
      × (insert_request drs new_dr ≡ before ++ new_dr ∷ after)
unfolding insert_request
insert_request-between [] new_dr = ([], [], refl, refl)
insert_request-between (dr ∷ drs) new_dr =
    elim (Bool-cases (leb_ℤ dr.transfer_time new_dr.transfer_time)) [
      | inl le ↦
          let (before, after, e, f) = insert_request-between drs new_dr in
          (dr ∷ before, after, ap (λ r. dr ∷ r) e, rw le (ap (λ r. dr ∷ r) f))
      | inr gt ↦ ([], dr ∷ drs, refl, rw gt refl)
    ]

-- Adding a request loses none of the queue and keeps their order: it puts the new one at some place.
pub add_transfer_request-between :
    (drs : List TransferRequest) (new_dr : TransferRequest)
    → (before after : List TransferRequest) × (drs ≡ before ++ after)
      × (add_transfer_request drs new_dr ≡ before ++ new_dr ∷ after)
unfolding add_transfer_request
add_transfer_request-between [] new_dr = ([], [], refl, refl)
add_transfer_request-between (dr ∷ drs) new_dr =
    let (before, after, e, f) = insert_request-between drs new_dr in
    (dr ∷ before, after, ap (λ r. dr ∷ r) e, ap (λ r. dr ∷ r) f)
