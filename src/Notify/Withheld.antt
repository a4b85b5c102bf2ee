-- ===== src/Notify/Withheld.antt =====
-- What an Inform does not give to an entity.
use mathlib.Core.List.{Memᴰ}
use tr069agent.Prelude.{
  ltb, length, Bool, true, false, not, ◌||◌, Option, none, some, List, [], ◌∷◌, ◌≡◌, refl,
  if◌then◌else◌, str_eq, str_eq_iff, ◌⊎◌, inl, inr, Bool-cases, All, arith,
}
use tr069agent.Event.{Event}
use tr069agent.Scheduler.{NotificationStatus}
use tr069agent.Notify.{
  ParameterValue, Listener, Mandatory, Informed, find_value, is_listed, differs, verdict_of,
  news_of, noted, inform_sent, inform_unsent, without_value_change, inform_news, inform_known,
  inform_listener, is_value_change,
}

-- The entity knows this value of the parameter.
abbrev pub IsKnown : List ParameterValue → ParameterValue → Type 0
IsKnown known v =
    (k : ParameterValue) × (find_value known v.name ≡ some k) × (differs v.value k.value ≡ false)

abbrev IsTold : List ParameterValue → List ParameterValue → ParameterValue → Type 0
IsTold known given v = Memᴰ v given ⊎ IsKnown known v

IsTold-more :
    (known given : List ParameterValue) (w : ParameterValue) (vs : List ParameterValue)
    → All (IsTold known given) vs
    → All (IsTold known (w ∷ given)) vs
IsTold-more known given w [] h = tt
IsTold-more known given w (v ∷ vs) h = (
  elim h.0 [ inl there ↦ inl (Memᴰ.tail there) | inr k ↦ inr k ],
  IsTold-more known given w vs h.1,
)

verdict_of-given :
    (m : Mandatory) (known : List ParameterValue) (change : Bool) (v : ParameterValue)
    → (o : Option ParameterValue) → find_value known v.name ≡ o
    → ((verdict_of m change v o).given ≡ true)
      ⊎ (((verdict_of m change v o).given ≡ false) × IsKnown known v)
unfolding verdict_of
verdict_of-given m known change v none e = inl refl
verdict_of-given m known change v (some k) e = elim (Bool-cases (is_listed m.names v.name)) [
  | inl y ↦ inl (rw y refl)
  | inr n ↦ elim (Bool-cases (differs v.value k.value)) [
    | inl d ↦ inl (rw n d)
    | inr s ↦ inr (rw n s, (k, e, s))
  ]
]

IsTold-step :
    (known given : List ParameterValue) (v : ParameterValue) (vs : List ParameterValue)
    → (b : Bool) → (b ≡ true) ⊎ ((b ≡ false) × IsKnown known v)
    → All (IsTold known given) vs
    → All (IsTold known (if b then v ∷ given else given)) (v ∷ vs)
IsTold-step known given v vs true h ih = (inl (Memᴰ.head refl), IsTold-more known given v vs ih)
IsTold-step known given v vs false (inl e) ih = ground (arith, e)
IsTold-step known given v vs false (inr (e, k)) ih = (inr k, ih)

news_of-IsTold :
    (m : Mandatory) (known : List ParameterValue) (change : Bool) (vs : List ParameterValue)
    → All (IsTold known (news_of m known change vs).values) vs
unfolding news_of
news_of-IsTold m known change [] = tt
news_of-IsTold m known change (v ∷ vs) =
    let d = verdict_of m change v (find_value known v.name) in
    IsTold-step known (news_of m known d.change vs).values v vs d.given
      (verdict_of-given m known change v (find_value known v.name) refl)
      (news_of-IsTold m known d.change vs)

-- Without a change the value is known, or the parameter is the one of the key.
abbrev pub IsSame : Mandatory → List ParameterValue → ParameterValue → Type 0
IsSame m known v = IsKnown known v ⊎ (v.name ≡ m.parameter_key)

verdict_of-IsSame :
    (m : Mandatory) (known : List ParameterValue) (change : Bool) (v : ParameterValue)
    → (o : Option ParameterValue) → find_value known v.name ≡ o
    → (verdict_of m change v o).change ≡ false
    → (change ≡ false) × IsSame m known v
unfolding verdict_of
verdict_of-IsSame m known change v none e quiet = ground (arith, quiet)
verdict_of-IsSame m known change v (some k) e quiet = elim (Bool-cases (differs v.value k.value)) [
  | inl d ↦ elim (Bool-cases (str_eq v.name m.parameter_key)) [
    | inl y ↦ (ground (arith, quiet, d, y), inr ((str_eq_iff v.name m.parameter_key).0 y))
    | inr n ↦ ground (arith, quiet, d, n)
  ]
  | inr s ↦ (ground (arith, quiet, s), inl (k, e, s))
]

news_of-change :
    (m : Mandatory) (known : List ParameterValue) (change : Bool) (vs : List ParameterValue)
    → (news_of m known change vs).change ≡ false
    → (change ≡ false) × All (IsSame m known) vs
unfolding news_of
news_of-change m known change [] quiet = (quiet, tt)
news_of-change m known change (v ∷ vs) quiet =
    let d = verdict_of m change v (find_value known v.name) in
    let ih = news_of-change m known d.change vs quiet in
    let step = verdict_of-IsSame m known change v (find_value known v.name) refl ih.0 in
    (step.0, (step.1, ih.1))

-- The values that are sent.
abbrev pub given_values : Informed → List ParameterValue
given_values i = elim i.sent [ none ↦ [] | some (events, vs) ↦ vs ]

-- The value is given or known, or nothing is sent and the parameter is the one of the key.
abbrev pub IsReported : Mandatory → List ParameterValue → Informed → ParameterValue → Type 0
IsReported m known i v =
    Memᴰ v (given_values i) ⊎ (IsKnown known v ⊎ ((i.sent ≡ none) × (v.name ≡ m.parameter_key)))

IsTold-IsReported :
    (known : List ParameterValue) (m : Mandatory) (i : Informed) (vs : List ParameterValue)
    → All (IsTold known (given_values i)) vs
    → All (IsReported m known i) vs
IsTold-IsReported known m i [] h = tt
IsTold-IsReported known m i (v ∷ vs) h =
    (elim h.0 [ inl there ↦ inl there | inr k ↦ inr (inl k) ], IsTold-IsReported known m i vs h.1)

IsSame-IsReported :
    (known : List ParameterValue) (m : Mandatory) (i : Informed) (vs : List ParameterValue)
    → i.sent ≡ none
    → All (IsSame m known) vs
    → All (IsReported m known i) vs
IsSame-IsReported known m i [] e h = tt
IsSame-IsReported known m i (v ∷ vs) e h = (
  elim h.0 [ inl k ↦ inr (inl k) | inr key ↦ inr (inr (e, key)) ],
  IsSame-IsReported known m i vs e h.1,
)

IsTold-subset :
    (known : List ParameterValue) (given : List ParameterValue) (vs : List ParameterValue)
    → ((v : ParameterValue) → Memᴰ v vs → Memᴰ v given)
    → All (IsTold known given) vs
IsTold-subset known given [] h = tt
IsTold-subset known given (v ∷ vs) h =
    (inl (h v (Memᴰ.head refl)), IsTold-subset known given vs (λ w there. h w (Memᴰ.tail there)))

IsTold-self : (known : List ParameterValue) (vs : List ParameterValue) → All (IsTold known vs) vs
IsTold-self known vs = IsTold-subset known vs vs (λ v there. there)

by_test {ℓ κ} :
    {A : Type ℓ} (P : A → Type κ) (b : Bool) (x y : A)
    → ((b ≡ true) → P x)
    → ((b ≡ false) → P y)
    → P (if b then x else y)
by_test P true x y on off = on refl
by_test P false x y on off = off refl

inform_news-IsReported :
    (m : Mandatory) (e : Event) (es : List Event) (vs : List ParameterValue) (l : Listener)
    (send : List Event → List ParameterValue → NotificationStatus)
    → All (IsReported m l.known_parameters (inform_news m e es vs l send)) vs
unfolding inform_news inform_sent inform_unsent
inform_news-IsReported m e es vs l send =
    let known = l.known_parameters in
    let n = news_of m known false vs in
    let events = if n.change then e ∷ es else without_value_change (e ∷ es) in
    let sent = inform_sent (noted m n l) send events n.values in
    let unsent = inform_unsent (noted m n l) in
    by_test (λ i. All (IsReported m known i) vs)
      ((n.change || ltb 0 (length es)) || not (is_value_change e)) sent unsent
      (λ y. IsTold-IsReported known m sent vs (news_of-IsTold m known false vs))
      (λ quiet.
        IsSame-IsReported known m unsent vs refl
          (news_of-change m known false vs (ground (arith, quiet))).1)

listener_cases :
    (m : Mandatory) (e : Event) (es : List Event) (vs : List ParameterValue) (l : Listener)
    (send : List Event → List ParameterValue → NotificationStatus)
    → (known : List ParameterValue)
    → All (IsReported m l.known_parameters (inform_known m e es vs l send known)) vs
unfolding inform_known
listener_cases m e es vs l send [] =
    IsTold-IsReported l.known_parameters m (inform_known m e es vs l send []) vs
      (IsTold-self l.known_parameters vs)
listener_cases m e es vs l send (k ∷ known) = inform_news-IsReported m e es vs l send

-- An Inform leaves no news out: each value that it is to give is given to the entity, or the entity
-- knows this value already, or nothing is sent and the parameter is the one of the parameter key.
pub inform_listener-IsReported :
    (m : Mandatory) (e : Event) (es : List Event) (vs : List ParameterValue) (l : Listener)
    (send : List Event → List ParameterValue → NotificationStatus)
    → All (IsReported m l.known_parameters (inform_listener m e es vs l send)) vs
unfolding inform_listener
inform_listener-IsReported m e es vs l send = listener_cases m e es vs l send l.known_parameters
