-- ===== src/Common/CommaList/RoundTrip.antt =====
-- Splitting a list that was built from clean items gives these items.
use mathlib.Core.Path.{ap₂}
use tr069agent.Prelude.{
  ℕ, true, false, some, List, [], ◌∷◌, ◌++◌, ◌≡◌, ◌≢◌, refl, sym, ap, ◌∙◌, inl, inr, ◌==◌, Bytes,
  All, append_assoc, append-nil, Bool-cases,
}
use tr069agent.Common.CommaList.{
  Scan, scan_start, scan_char, split_from, split_list, split_comma_separated_list, join_rest,
  build_comma_separated_list,
}

-- No comma, and no space at either end: the first character is no space, and the text does not end
-- in one.
abbrev pub NoComma : Bytes → Type 0
NoComma = All (λ c. (c == b',') ≡ false)

abbrev pub EndsClean : Bytes → Type 0
EndsClean [] = Unit {0}
EndsClean (c ∷ []) = (c == b' ') ≡ false
EndsClean (c ∷ d ∷ cs) = EndsClean (d ∷ cs)

abbrev pub StartsClean : Bytes → Type 0
StartsClean [] = Unit {0}
StartsClean (c ∷ cs) = (c == b' ') ≡ false

pub record IsClean (s : Bytes) : Type 0 where
  pub no_comma : NoComma s
  pub starts : StartsClean s
  pub ends : EndsClean s

-- The scan of a text without comma, inside an item.
pub scan_text : Scan → Bytes → Scan
scan_text s [] = s
scan_text s (c ∷ cs) = scan_text (scan_char s c) cs

pub split_from-append :
    (t : Bytes) (s : Scan) (rest : Bytes)
    → NoComma t
    → split_from s (t ++ rest) ≡ split_from (scan_text s t) rest
unfolding split_from scan_text
split_from-append [] s rest h = refl
split_from-append (c ∷ t) s rest h = rw (h.0) (split_from-append t (scan_char s c) rest h.1)

scan_text-cons : (s : Scan) (c : ℕ) (t : Bytes) → scan_text s (c ∷ t) ≡ scan_text (scan_char s c) t
unfolding scan_text
scan_text-cons s c t = refl

abbrev inside : Bytes → Bytes → Scan
inside item pending = record { skipping = false; item = item; pending = pending }

scan_char_space :
    (i p : Bytes) (c : ℕ) → (c == b' ') ≡ true → scan_char (inside i p) c ≡ inside i (p ++ c ∷ [])
unfolding scan_char
scan_char_space i p c h = rw h

scan_char_other :
    (s : Scan) (c : ℕ)
    → (c == b' ') ≡ false
    → scan_char s c ≡ inside (s.item ++ s.pending ++ c ∷ []) []
unfolding scan_char
scan_char_other s c h = rw h

-- Inside an item nothing is lost: the item with the spaces behind it is the text read.
scan_text-inside :
    (t i p : Bytes) → EndsClean t → t ≢ [] → scan_text (inside i p) t ≡ inside (i ++ (p ++ t)) []
scan_text-inside [] i p e ne = absurd (ne refl)
scan_text-inside (c ∷ []) i p e ne =
    scan_text-cons _ c []
    ∙ rw (scan_char_other (inside i p) c e) (unfold scan_text in simp append_assoc)
scan_text-inside (c ∷ d ∷ t) i p e ne = elim (Bool-cases (c == b' ')) [
  | inl space ↦
      scan_text-cons _ c (d ∷ t)
      ∙ ap (λ q. scan_text q (d ∷ t)) (scan_char_space i p c space)
      ∙ scan_text-inside (d ∷ t) i (p ++ c ∷ []) e (λ x. cc)
      ∙ simp append_assoc
  | inr other ↦
      scan_text-cons _ c (d ∷ t)
      ∙ ap (λ q. scan_text q (d ∷ t)) (scan_char_other (inside i p) c other)
      ∙ scan_text-inside (d ∷ t) (i ++ p ++ c ∷ []) [] e (λ x. cc)
      ∙ simp append_assoc
]

-- Scanning a clean text from the start of an item gives this text.
pub scan_text_clean : (t : Bytes) → IsClean t → (scan_text scan_start t).item ≡ t
scan_text_clean [] h = unfold scan_text in refl
scan_text_clean (c ∷ []) h =
    ap (λ s. s.item)
      (scan_text-cons _ c [] ∙ ap (λ q. scan_text q []) (scan_char_other scan_start c (h.starts)))
    ∙ unfold scan_text in refl
scan_text_clean (c ∷ d ∷ t) h =
    ap (λ s. s.item)
      (scan_text-cons _ c (d ∷ t)
        ∙ ap (λ q. scan_text q (d ∷ t)) (scan_char_other scan_start c (h.starts))
        ∙ scan_text-inside (d ∷ t) (c ∷ []) [] h.ends (λ x. cc))

pub split_from_end : (s : Scan) → split_from s [] ≡ s.item ∷ []
unfolding split_from
split_from_end s = refl

pub split_from_comma :
    (s : Scan) (rest : Bytes) → split_from s (b',' ∷ rest) ≡ s.item ∷ split_from scan_start rest
unfolding split_from
split_from_comma s rest = refl

-- A clean text at the end is the last item.
pub split_from_clean : (x : Bytes) → IsClean x → split_from scan_start x ≡ x ∷ []
split_from_clean x h =
    ap (split_from scan_start) (sym (append-nil x))
    ∙ split_from-append x scan_start [] (h.no_comma)
    ∙ split_from_end _
    ∙ ap (λ i. i ∷ []) (scan_text_clean x h)

split_from-join_rest :
    (x : Bytes) (xs : List Bytes)
    → IsClean x
    → All IsClean xs
    → split_from scan_start (x ++ join_rest xs) ≡ x ∷ xs
unfolding join_rest
split_from-join_rest x [] h k = rw append-nil (split_from_clean x h)
split_from-join_rest x (y ∷ ys) h k =
    split_from-append x scan_start (join_rest (y ∷ ys)) (h.no_comma)
    ∙ split_from_comma _ _
    ∙ ap₂ ◌∷◌ (scan_text_clean x h) (split_from-join_rest y ys k.0 k.1)

pub split_list-join_rest :
    (x : Bytes) (xs : List Bytes) → All IsClean (x ∷ xs) → split_list (x ++ join_rest xs) ≡ x ∷ xs
unfolding split_list
split_list-join_rest x xs h = split_from-join_rest x xs h.0 h.1

-- A list built from items without a comma and without a space at either end, at least one, splits into these items, in order.
pub split-build_comma_separated_list :
    (x : Bytes) (xs : List Bytes)
    → All IsClean (x ∷ xs)
    → split_comma_separated_list (build_comma_separated_list (x ∷ xs)) ≡ some (x ∷ xs)
split-build_comma_separated_list x xs h =
    unfold split_comma_separated_list build_comma_separated_list in
    ap some (split_list-join_rest x xs h)
