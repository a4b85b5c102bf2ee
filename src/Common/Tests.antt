-- ===== src/Common/Tests.antt =====
-- The functions of dm_engine/src/DM_ENG_Common.c on concrete inputs.
use tr069agent.Prelude.{
  ◌≡◌, ◌≢◌, ◌⊎◌, refl, true, false, none, some, List, [], ◌∷◌, ◌++◌, All, ◌&&◌, if◌then◌else◌,
  Bytes, codes, is_space, contains, arith,
}
use tr069agent.Prelude.Int.{pos, leb_ℤ}
use tr069agent.Common.Number.{
  string_to_uint, string_to_int, int_to_string, string_to_bool, int_min, int_max,
}
use tr069agent.Common.Number.Signed.{string_to_int-int_to_string}
use tr069agent.Common.CommaList.{
  split_comma_separated_list, build_comma_separated_list, delete_from_comma_separated_list,
}
use tr069agent.Common.CommaList.RoundTrip.{IsClean}
use tr069agent.Common.CommaList.Members.{IsFirst, non_empty, split-delete_from_comma_separated_list}
use tr069agent.Common.Escape.{
  encode_value, decode_value, coded, is_special, encode_loop, encode_char, count_special,
  sprintf_hex, hex_char, coded_text,
}
use tr069agent.Common.Buffer.{write_at, write_front, read_string}
use tr069agent.Common.Escape.Decode.{kept, decode-encode_value}

uint_texts :
    (string_to_uint (some (codes " 42 ")) ≡ some 42)
    × (string_to_uint (some (codes "-1")) ≡ none)
    × (string_to_uint (some (codes "4294967296")) ≡ none)
unfolding string_to_uint is_space
uint_texts = (refl, refl, refl)

bool_texts :
    (string_to_bool (some (codes " TRUE")) ≡ some true)
    × (string_to_bool (some (codes "0 ")) ≡ some false)
    × (string_to_bool (some (codes "yes")) ≡ none)
unfolding string_to_bool is_space
bool_texts = (refl, refl, refl)

split_text :
    split_comma_separated_list (some (codes " a, b c ,,d"))
    ≡ some (codes "a" ∷ codes "b c" ∷ [] ∷ codes "d" ∷ [])
unfolding split_comma_separated_list
split_text = refl

encode_text : encode_value (some (codes "50%;<")) ≡ coded (codes "50%25%3B%3C")
unfolding encode_value encode_loop encode_char count_special is_special sprintf_hex hex_char
    coded_text write_at write_front read_string contains
encode_text = refl

string_to_int-int_to_string_example : string_to_int (some (int_to_string (pos 2147483648))) ≡ (
    if leb_ℤ int_min (pos 2147483648) && leb_ℤ (pos 2147483648) int_max
    then some (pos 2147483648)
    else none)
string_to_int-int_to_string_example =
    string_to_int-int_to_string (pos 2147483648) (omega arith) (omega arith)

a-IsClean : IsClean (codes "a b")
a-IsClean = record { no_comma = (refl, (refl, (refl, tt))); starts = refl; ends = refl }

c-IsClean : IsClean (codes "c")
c-IsClean = record { no_comma = (refl, tt); starts = refl; ends = refl }

split-delete_from_comma_separated_list_example :
    let items = codes "a b" ∷ codes "c" ∷ codes "c" ∷ [] in
    let (found, left) =
      delete_from_comma_separated_list (build_comma_separated_list items) (some (codes "c")) in
    ((found ≡ true)
      × (before : List Bytes) × (behind : List Bytes) × IsFirst (codes "c") items before behind
      × (split_comma_separated_list left ≡ non_empty (before ++ behind)))
    ⊎ ((found ≡ false)
        × All (λ item. item ≢ codes "c") items
        × (split_comma_separated_list left ≡ some items))
split-delete_from_comma_separated_list_example =
    split-delete_from_comma_separated_list (codes "a b") (codes "c" ∷ codes "c" ∷ []) (codes "c")
      (a-IsClean, (c-IsClean, (c-IsClean, tt)))

decode-encode_value_example :
    (t : Bytes) × (kept (codes "50%") (encode_value (some (codes "50%"))) ≡ some t)
    × (kept t (decode_value (some t)) ≡ some (codes "50%"))
decode-encode_value_example = decode-encode_value (codes "50%") (omega arith)
