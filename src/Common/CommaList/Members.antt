-- ===== src/Common/CommaList/Members.antt =====
-- Membership after an item is added or deleted.
use tr069agent.Prelude.{
  true, false, ◌||◌, Option, none, some, List, [], ◌∷◌, ◌++◌, ◌≡◌, ◌≢◌, ◌⊎◌, refl, ap, ◌∙◌, inl,
  inr, ◌==◌, arith, Bytes, All, Bool-cases, str_eq, str_eq_iff,
}
use tr069agent.Common.CommaList.RoundTrip.{
  IsClean, split_from_comma, split_from_clean, split-build_comma_separated_list,
  split_list-join_rest,
}
use tr069agent.Common.CommaList.{
  Scan, scan_start, scan_char, split_from, split_list, split_comma_separated_list,
  build_comma_separated_list, has_item, remove_item, join_rest, belongs_to_comma_separated_list,
  add_to_comma_separated_list, delete_from_comma_separated_list,
}

split_from_added :
    (csl ch : Bytes) (s : Scan)
    → IsClean ch
    → split_from s (csl ++ b',' ∷ ch) ≡ split_from s csl ++ ch ∷ []
unfolding split_from
split_from_added [] ch s h = split_from_comma s ch ∙ ap (◌∷◌ s.item) (split_from_clean ch h)
split_from_added (c ∷ csl) ch s h = elim (Bool-cases (c == b',')) [
  | inl comma ↦ rw (comma, split_from) (ap (◌∷◌ s.item) (split_from_added csl ch scan_start h))
  | inr other ↦ rw (other, split_from) (split_from_added csl ch (scan_char s c) h)
]

has_item-append :
    (xs : List Bytes) (ch other : Bytes)
    → has_item (xs ++ ch ∷ []) other ≡ (has_item xs other || str_eq ch other)
unfolding has_item
has_item-append [] ch other = ground arith
has_item-append (x ∷ xs) ch other = ground (arith, has_item-append xs ch other)

split_list_added :
    (csl ch : Bytes) → IsClean ch → split_list (csl ++ b',' ∷ ch) ≡ split_list csl ++ ch ∷ []
split_list_added csl ch h = unfold split_list in split_from_added csl ch scan_start h

has_item_old :
    (xs : List Bytes) (ch other : Bytes)
    → has_item xs ch ≡ true
    → has_item xs other ≡ (has_item xs other || str_eq ch other)
has_item_old xs ch other h = elim (Bool-cases (str_eq ch other)) [
  | inl same ↦
      let found : has_item xs other ≡ true = rw ((str_eq_iff ch other).0 same) at h in rw found
  | inr distinct ↦ rw distinct (ground arith)
]

-- Adding a clean item to a list makes it a member, and changes no other membership.
pub belongs-add_to_comma_separated_list :
    (csl ch other : Bytes)
    → IsClean ch
    → belongs_to_comma_separated_list
        (add_to_comma_separated_list (some csl) (some ch))
        (some other)
      ≡ (belongs_to_comma_separated_list (some csl) (some other) || str_eq ch other)
unfolding add_to_comma_separated_list belongs_to_comma_separated_list
belongs-add_to_comma_separated_list csl ch other h =
    elim (Bool-cases (has_item (split_list csl) ch)) [
      | inl old ↦ rw old (has_item_old _ ch other old)
      | inr new ↦
          rw new (rw (split_list_added csl ch h) (has_item-append (split_list csl) ch other))
    ]

remove_item-IsClean :
    (xs : List Bytes) (ch : Bytes) → All IsClean xs → All IsClean (remove_item xs ch)
unfolding remove_item
remove_item-IsClean [] ch h = tt
remove_item-IsClean (x ∷ xs) ch h = ground (arith, remove_item-IsClean xs ch h.1)

-- The items around the first one that is equal to `ch`, and the list without that one.
abbrev pub IsFirst : Bytes → List Bytes → List Bytes → List Bytes → Type 0
IsFirst ch xs before behind = (xs ≡ before ++ ch ∷ behind) × All (λ item. item ≢ ch) before

remove_item-IsFirst :
    (xs : List Bytes) (ch : Bytes)
    → ((has_item xs ch ≡ true)
        × (before : List Bytes) × (behind : List Bytes) × IsFirst ch xs before behind
        × (remove_item xs ch ≡ before ++ behind))
      ⊎ ((has_item xs ch ≡ false) × All (λ item. item ≢ ch) xs)
unfolding has_item remove_item
remove_item-IsFirst [] ch = inr (refl, tt)
remove_item-IsFirst (x ∷ xs) ch = elim (Bool-cases (str_eq x ch)) [
  | inl same ↦
      let e : x ≡ ch = (str_eq_iff x ch).0 same in
      inl (ground (arith, same), [], xs, (ap (λ y. y ∷ xs) e, tt), ground (arith, same))
  | inr other ↦
      let ne : x ≢ ch = λ e. ground (arith, other, (str_eq_iff x ch).1 e) in
      elim (remove_item-IsFirst xs ch) [
        | inl (member, before, behind, (whole, none_before), left) ↦ inl (
          ground (arith, other, member),
          x ∷ before,
          behind,
          (ap (◌∷◌ x) whole, (ne, none_before)),
          ground (arith, other, left),
        )
        | inr (member, none_there) ↦ inr (ground (arith, other, member), (ne, none_there))
      ]
]

abbrev pub non_empty : List Bytes → Option (List Bytes)
non_empty [] = none
non_empty (x ∷ xs) = some (x ∷ xs)

split-build :
    (xs : List Bytes)
    → All IsClean xs
    → split_comma_separated_list (build_comma_separated_list xs) ≡ non_empty xs
split-build [] h = unfold split_comma_separated_list build_comma_separated_list in refl
split-build (x ∷ xs) h = split-build_comma_separated_list x xs h

-- On a list built from clean items, deleting an item answers in one of two ways. It tells that the item
-- is there: then what is left splits into the items before the first one that is equal to it and those
-- behind, and is NULL if there are none. Or it tells that it is not: then no item is equal to it, and
-- the list splits into its items as before.
pub split-delete_from_comma_separated_list :
    (x : Bytes) (xs : List Bytes) (ch : Bytes)
    → All IsClean (x ∷ xs)
    → let (found, left) =
        delete_from_comma_separated_list (build_comma_separated_list (x ∷ xs)) (some ch) in
      ((found ≡ true)
        × (before : List Bytes) × (behind : List Bytes) × IsFirst ch (x ∷ xs) before behind
        × (split_comma_separated_list left ≡ non_empty (before ++ behind)))
      ⊎ ((found ≡ false)
          × All (λ item. item ≢ ch) (x ∷ xs)
          × (split_comma_separated_list left ≡ some (x ∷ xs)))
unfolding delete_from_comma_separated_list build_comma_separated_list split_comma_separated_list
split-delete_from_comma_separated_list x xs ch h =
    let items : split_list (x ++ join_rest xs) ≡ x ∷ xs = split_list-join_rest x xs h in
    elim (remove_item-IsFirst (x ∷ xs) ch) [
      | inl (member, before, behind, is_first, left) ↦
          rw (items, member)
            (inl (
              refl,
              before,
              behind,
              is_first,
              split-build _ (remove_item-IsClean (x ∷ xs) ch h) ∙ ap non_empty left,
            ))
      | inr (other, absent) ↦ rw (items, other) (inr (refl, absent, ap some items))
    ]
