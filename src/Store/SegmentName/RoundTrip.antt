-- ===== src/Store/SegmentName/RoundTrip.antt =====
-- Names of segments are read back (nomt/src/seglog/segment_filename.rs).
use nomt.Base.{
  ℕ, zero, suc, ◌+◌, ◌-◌, ◌*◌, ◌/◌, ◌%◌, ◌^◌, ◌≤◌, ◌<◌, ◌≡◌, ◌≢◌, refl, ap, ap₂, ◌∙◌, sym, true,
  false, not, [], ◌∷◌, ◌++◌, Bytes, nat_eq, list_eq, nat_beq, ◌==◌, ==_refl, list_beq, ne→==-false,
  ne→nat_beq, if◌then◌else◌, leb, length, length-append, take-append, drop-append_past, replicate,
  Option, some, Result, ok, err, and_then, ok_or, arith, inl, inr, lt_or_ge, lt→ltb, le→ltb-false,
  le→leb,
}
use mathlib.Core.List.{append_assoc, append-nil}
use nomt.Store.SegmentName.{
  NameError, missing_suffix, missing_dot, not_ten_digits, suffix, decimal, pad_left, format,
  strip_prefix, strip_suffix, parse_digits, parse_u32, parse,
}

-- A number of at most k digits, and its k digits.
abbrev Fits : ℕ → ℕ → Type 0
Fits zero n = n ≡ 0
Fits (suc k) n = Fits k (n / 10)

abbrev digits : ℕ → ℕ → Bytes
digits zero n = []
digits (suc k) n = digits k (n / 10) ++ (48 + n % 10) ∷ []

replicate-end : (k : ℕ) → ◌≡◌ {A = Bytes} (replicate k 48 ++ (48 ∷ [])) (48 ∷ replicate k 48)
replicate-end zero = refl
replicate-end (suc k) = ap (λ t. 48 ∷ t) (replicate-end k)

digits-zero : (k : ℕ) → digits k 0 ≡ replicate k 48
digits-zero zero = refl
digits-zero (suc k) = ap (λ t. t ++ 48 ∷ []) (digits-zero k) ∙ replicate-end k

length-digits : (k n : ℕ) → length (digits k n) ≡ k
length-digits zero n = refl
length-digits (suc k) n =
    omega
      (arith, length-append {0} (digits k (n / 10)) ((48 + n % 10) ∷ []), length-digits k (n / 10))

pad_left-decimal :
    (k fuel n : ℕ)
    → Fits (suc k) n
    → k < fuel
    → pad_left (suc k) (decimal fuel n) ≡ digits (suc k) n
unfolding pad_left decimal
pad_left-decimal k zero n f h = absurd (omega arith)
pad_left-decimal zero (suc fuel) n f h =
    rw (lt→ltb n 10 (omega (arith, f))) (ap (λ t. (48 + t) ∷ []) (omega (arith, f)))
pad_left-decimal (suc k) (suc fuel) n f h = elim (lt_or_ge n 10) [
  | inl small ↦
      let last : n % 10 ≡ n = omega arith in
      let none_left : n / 10 ≡ 0 = omega arith in
      let width : suc (suc k) - 1 ≡ suc k = omega arith in
      rw (lt→ltb n 10 small) (
        ap (λ w. replicate w 48 ++ (48 + n) ∷ []) width
        ∙ ap₂ (λ x y. x ++ (48 + y) ∷ [])
            (sym (digits-zero (suc k)) ∙ ap (digits (suc k)) (sym none_left)) (sym last))
  | inr large ↦
      let higher = decimal fuel (n / 10) in
      let count = length-append {0} higher ((48 + n % 10) ∷ []) in
      let less : suc (suc k) - length (higher ++ (48 + n % 10) ∷ []) ≡ suc k - length higher =
        omega (arith, count) in
      rw (le→ltb-false n 10 large) (
        ap (λ t. replicate t 48 ++ (higher ++ (48 + n % 10) ∷ [])) less
        ∙ sym (append_assoc (replicate (suc k - length higher) 48) higher ((48 + n % 10) ∷ []))
        ∙ ap (λ t. t ++ (48 + n % 10) ∷ []) (pad_left-decimal k fuel (n / 10) f (omega arith)))
]

-- The digits, read from the highest on.
parse_digits-digits :
    (k n : ℕ) (s : Bytes)
    → Fits k n
    → n < 2 ^ 32
    → parse_digits 0 (digits k n ++ s) ≡ parse_digits n s
unfolding parse_digits
parse_digits-digits zero n s f small = ap (λ t. parse_digits t s) (sym f)
parse_digits-digits (suc k) n s f small =
    let d = 48 + n % 10 in
    let next : n / 10 * 10 + (d - 48) ≡ n = omega arith in
    let above : leb 48 d ≡ true = le→leb 48 d (omega arith) in
    let below : leb d 57 ≡ true = le→leb d 57 (omega arith) in
    let fits : leb (2 ^ 32) n ≡ false = ground arith in
    ap (parse_digits 0) (append_assoc (digits k (n / 10)) (d ∷ []) s)
    ∙ parse_digits-digits k (n / 10) (d ∷ s) f (omega arith)
    ∙ rw (above, below, next, fits) refl

digits-head : (k n : ℕ) → (c : ℕ) × (s : Bytes) × (digits (suc k) n ≡ c ∷ s) × (48 ≤ c)
digits-head zero n = (48 + n % 10, [], refl, omega arith)
digits-head (suc k) n =
    let (c, s, e, h) = digits-head k (n / 10) in
    (c, s ++ (48 + n % 10) ∷ [], ap (λ t. t ++ (48 + n % 10) ∷ []) e, h)

-- A string that begins with no sign is read by its digits.
parse_u32-unsigned : (c : ℕ) (s : Bytes) → 48 ≤ c → parse_u32 (c ∷ s) ≡ parse_digits 0 (c ∷ s)
unfolding parse_u32
parse_u32-unsigned c [] h = refl
parse_u32-unsigned c (d ∷ s) h = rw (ne→nat_beq c 43 (λ e. absurd (omega (arith, e, h)))) refl

parse_u32-digits : (k n : ℕ) → Fits (suc k) n → n < 2 ^ 32 → parse_u32 (digits (suc k) n) ≡ ok n
unfolding parse_digits
parse_u32-digits k n f small =
    let (c, s, e, h) = digits-head k n in
    ap parse_u32 e
    ∙ parse_u32-unsigned c s h
    ∙ ap (parse_digits 0) (sym e ∙ sym (append-nil (digits (suc k) n)))
    ∙ parse_digits-digits (suc k) n [] f small

strip_prefix-append : (ps s : Bytes) → strip_prefix ps (ps ++ s) ≡ some s
unfolding strip_prefix
strip_prefix-append [] s = refl
strip_prefix-append (p ∷ ps) s =
    let same : nat_beq p p ≡ true = ==_refl p in rw same (strip_prefix-append ps s)

strip_suffix-append : (s end : Bytes) → strip_suffix end (s ++ end) ≡ some s
unfolding strip_suffix
strip_suffix-append s end =
    let size = length-append {0} s end in
    let n : length (s ++ end) - length end ≡ length s = omega (arith, size) in
    let test : list_beq nat_beq end end ≡ true = ==_refl end in
    rw
      (
        le→ltb-false (length (s ++ end)) (length end) (omega (arith, size)),
        n,
        drop-append_past (length s) s end refl,
        test,
        take-append s end,
      )
      refl

u32-Fits : (n : ℕ) → n < 2 ^ 32 → Fits 10 n
u32-Fits n h = omega arith

-- The number behind the dot, and the name behind its prefix.
number_of : Option Bytes → Result NameError ℕ
number_of o = and_then (ok_or o missing_dot) λ segment_id_str.
    if not (length segment_id_str == 10) then err not_ten_digits else parse_u32 segment_id_str

before_suffix : Option Bytes → Result NameError ℕ
before_suffix o =
    and_then (ok_or o missing_suffix)
      λ without_suffix. number_of (strip_prefix (46 ∷ []) without_suffix)

parse_rest-digits :
    (segment_id : ℕ)
    → segment_id < 2 ^ 32
    → before_suffix (strip_suffix suffix (46 ∷ (digits 10 segment_id ++ suffix))) ≡ ok segment_id
unfolding before_suffix number_of and_then
parse_rest-digits segment_id small =
    let number = digits 10 segment_id in
    let ten : nat_beq (length number) 10 ≡ true =
      ap (λ k. nat_beq k 10) (length-digits 10 segment_id) in
    let cut : strip_suffix suffix (46 ∷ (number ++ suffix)) ≡ some (46 ∷ number) =
      strip_suffix-append (46 ∷ number) suffix in
    let after_dot : strip_prefix (46 ∷ []) (46 ∷ number) ≡ some number =
      strip_prefix-append (46 ∷ []) number in
    ap before_suffix cut
    ∙ ap number_of after_dot
    ∙ ap (λ test. if not test then err not_ten_digits else parse_u32 number) ten
    ∙ parse_u32-digits 9 segment_id (u32-Fits segment_id small) small

-- The name of a segment with a prefix that is not empty is read back with that prefix, whatever
-- bytes the prefix has.
pub parse-format :
    (prefix : Bytes) (segment_id : ℕ)
    → prefix ≢ []
    → segment_id < 2 ^ 32
    → parse prefix (format prefix segment_id) ≡ ok segment_id
unfolding parse format and_then before_suffix number_of
parse-format prefix segment_id filled small =
    let padded = pad_left-decimal 9 10 segment_id (u32-Fits segment_id small) (omega arith) in
    let test : list_beq nat_beq prefix [] ≡ false = ne→==-false prefix [] filled in
    rw (test, padded, strip_prefix-append prefix (46 ∷ (digits 10 segment_id ++ suffix)))
      (parse_rest-digits segment_id small)
