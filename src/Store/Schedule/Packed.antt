-- ===== src/Store/Schedule/Packed.antt =====
-- The two texts of the scheduled Informs as one list.
use tr069agent.Prelude.{
  ℕ, ◌<◌, ◌^◌, Bool, true, Option, none, some, List, [], ◌∷◌, ◌++◌, ◌≡◌, refl, ap, ◌∙◌, Bytes,
  cut_at, All, map, arith, append-nil,
}
use tr069agent.Prelude.Int.{ℤ, pos}
use tr069agent.Common.Number.{strtol, int_to_string}
use tr069agent.Common.Number.RoundTrip.{uint_to_string-IsDecimal, IsDecimal}
use tr069agent.Common.Number.Signed.{strtol-int_to_string}
use tr069agent.Common.CommaList.{build_comma_separated_list, join_rest}
use tr069agent.Common.CommaList.RoundTrip.{NoComma}
use tr069agent.Store.Struct.{Control}
use tr069agent.Store.Schedule.{
  first_item, rest_items, scheduled_time, scheduled_key, get_scheduled_inform_time,
  get_scheduled_inform_command_key, next_scheduled_inform_command, is_null_text,
}

-- A scheduled Inform: its time and its command key.
abbrev pub Inform : Type 0
Inform = ℕ × Bytes

abbrev pub IsInform : Inform → Type 0
IsInform p = (0 < p.0) × (p.0 < 2 ^ 63) × NoComma p.1

abbrev pub time_text : Inform → Bytes
time_text p = int_to_string (pos p.0)

abbrev pub key_text : Inform → Bytes
key_text p = p.1

-- The data that hold a list of Informs: the other data are those of `c`.
abbrev pub packed : Control → List Inform → Bool → Control
packed c xs changed = record c {
  scheduled_inform_time = build_comma_separated_list (map time_text xs);
  scheduled_inform_command_key = build_comma_separated_list (map key_text xs);
  control_data_changed = changed;
}

pub cut_at-NoComma : (s : Bytes) → NoComma s → cut_at b',' s ≡ none
unfolding cut_at
cut_at-NoComma [] h = refl
cut_at-NoComma (c ∷ s) h = rw (h.0, cut_at-NoComma s h.1) refl

pub cut_at-first : (s t : Bytes) → NoComma s → cut_at b',' (s ++ b',' ∷ t) ≡ some (s, t)
unfolding cut_at
cut_at-first [] t h = refl
cut_at-first (c ∷ s) t h = rw (h.0, cut_at-first s t h.1) refl

pub first_item-join_rest :
    (x : Bytes) (xs : List Bytes) → NoComma x → first_item (x ++ join_rest xs) ≡ x
unfolding first_item join_rest
first_item-join_rest x [] h = rw (first_item, append-nil x, cut_at-NoComma x h) (append-nil x)
first_item-join_rest x (y ∷ ys) h = rw (first_item, cut_at-first x (y ++ join_rest ys) h) refl

pub rest_items-join_rest :
    (x : Bytes) (xs : List Bytes)
    → NoComma x
    → rest_items (some (x ++ join_rest xs)) ≡ build_comma_separated_list xs
unfolding rest_items join_rest build_comma_separated_list
rest_items-join_rest x [] h =
    ap (λ s. rest_items (some s)) (append-nil x) ∙ rw (rest_items, cut_at-NoComma x h) refl
rest_items-join_rest x (y ∷ ys) h = rw (rest_items, cut_at-first x (y ++ join_rest ys) h) refl

IsDecimal-NoComma : (s : Bytes) → IsDecimal s → NoComma s
IsDecimal-NoComma [] h = tt
IsDecimal-NoComma (c ∷ s) h = (ground arith, IsDecimal-NoComma s h.1)

pub time_text-NoComma : (p : Inform) → NoComma (time_text p)
unfolding int_to_string
time_text-NoComma p = IsDecimal-NoComma _ (uint_to_string-IsDecimal p.0)

abbrev pub head_time : List Inform → ℤ
head_time [] = pos 0
head_time (p ∷ xs) = pos p.0

abbrev pub head_key : List Inform → Option Bytes
head_key [] = none
head_key (p ∷ xs) = some p.1

abbrev pub later_informs : List Inform → List Inform
later_informs [] = []
later_informs (p ∷ xs) = xs

pub get_time-packed :
    (c : Control) (xs : List Inform) (b : Bool)
    → All IsInform xs
    → get_scheduled_inform_time (packed c xs b) ≡ head_time xs
unfolding get_scheduled_inform_time scheduled_time build_comma_separated_list
get_time-packed c [] b h = refl
get_time-packed c (p ∷ xs) b h =
    ap (λ s. (strtol s).val)
      (first_item-join_rest (time_text p) (map time_text xs) (time_text-NoComma p))
    ∙ ap (λ r. r.val) (strtol-int_to_string (pos p.0) (omega arith) (omega (arith, h.0.1)))

pub get_key-packed :
    (c : Control) (xs : List Inform) (b : Bool)
    → All IsInform xs
    → get_scheduled_inform_command_key (packed c xs b) ≡ head_key xs
unfolding get_scheduled_inform_command_key scheduled_key build_comma_separated_list
get_key-packed c [] b h = refl
get_key-packed c (p ∷ xs) b h = rw (first_item-join_rest (key_text p) (map key_text xs) h.0.2) refl

pub next-packed :
    (c : Control) (p : Inform) (xs : List Inform) (b : Bool)
    → IsInform p
    → next_scheduled_inform_command (packed c (p ∷ xs) b) ≡ packed c xs true
unfolding next_scheduled_inform_command is_null_text build_comma_separated_list
next-packed c p xs b h =
    rw
      (
        rest_items-join_rest (time_text p) (map time_text xs) (time_text-NoComma p),
        rest_items-join_rest (key_text p) (map key_text xs) h.2,
      )
      refl
