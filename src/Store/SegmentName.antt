-- ===== src/Store/SegmentName.antt =====
-- nomt/src/seglog/segment_filename.rs: the names of the files of segments. A string is the list of its
-- bytes.
pub mod RoundTrip
use nomt.Base.{
  ℕ, zero, suc, ◌+◌, ◌-◌, ◌*◌, ◌/◌, ◌%◌, ◌^◌, Bool, not, ◌&&◌, List, [], ◌∷◌, ◌++◌, Bytes, nat_eq,
  list_eq, ◌==◌, if◌then◌else◌, ltb, leb, length, take, drop, replicate, Option, none, some, Result,
  ok, err, and_then, ok_or,
}

-- The errors by their messages; `panicked` is the failed assertion.
pub data NameError : Type 0 where
  panicked : NameError
  missing_prefix : NameError
  missing_suffix : NameError
  missing_dot : NameError
  not_ten_digits : NameError
  failed_to_parse : NameError

-- ".log"
abbrev pub suffix : Bytes
suffix = 46 ∷ 108 ∷ 111 ∷ 103 ∷ []

-- The digits of a number with at most `fuel` of them.
unfoldable pub decimal : ℕ → ℕ → Bytes
decimal zero n = []
decimal (suc fuel) n =
    let higher = decimal fuel (n / 10) in
    if ltb n 10 then (48 + n) ∷ [] else higher ++ (48 + n % 10) ∷ []

-- `{:0>10}`, for any width
unfoldable pub pad_left : ℕ → Bytes → Bytes
pad_left width digits = replicate (width - length digits) 48 ++ digits

unfoldable pub format : Bytes → ℕ → Bytes
unfolding decimal pad_left
format prefix segment_id = prefix ++ (46 ∷ (pad_left 10 (decimal 10 segment_id) ++ suffix))

unfoldable pub strip_prefix : Bytes → Bytes → Option Bytes
strip_prefix [] s = some s
strip_prefix (p ∷ ps) [] = none
strip_prefix (p ∷ ps) (c ∷ s) = let rest = strip_prefix ps s in if p == c then rest else none

unfoldable pub strip_suffix : Bytes → Bytes → Option Bytes
strip_suffix end s =
    let n = length s - length end in
    if ltb (length s) (length end) then none else if drop n s == end then some (take n s) else none

-- The digits of `str::parse`, each added with a check of overflow.
unfoldable pub parse_digits : ℕ → Bytes → Result NameError ℕ
parse_digits acc [] = ok acc
parse_digits acc (c ∷ s) =
    let next = acc * 10 + (c - 48) in
    let rest = parse_digits next s in
    if leb 48 c && leb c 57
    then if leb (2 ^ 32) next then err failed_to_parse else rest
    else err failed_to_parse

-- `str::parse::<u32>`, which takes a sign before the digits.
unfoldable pub parse_u32 : Bytes → Result NameError ℕ
unfolding parse_digits
parse_u32 [] = err failed_to_parse
parse_u32 (c ∷ []) = parse_digits 0 (c ∷ [])
parse_u32 (c ∷ (d ∷ s)) = if c == 43 then parse_digits 0 (d ∷ s) else parse_digits 0 (c ∷ (d ∷ s))

unfoldable pub parse : Bytes → Bytes → Result NameError ℕ
unfolding strip_prefix strip_suffix parse_u32
parse prefix filename =
    if prefix == []
    then err panicked
    else and_then (ok_or (strip_prefix prefix filename) missing_prefix) (λ without_prefix.
      and_then (ok_or (strip_suffix suffix without_prefix) missing_suffix) λ without_suffix.
        and_then (ok_or (strip_prefix (46 ∷ []) without_suffix) missing_dot) λ segment_id_str.
          if not (length segment_id_str == 10)
          then err not_ten_digits
          else parse_u32 segment_id_str)
