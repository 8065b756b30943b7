-- ===== src/Store/Examples/SegmentName.antt =====
-- Tests of the names of segments (nomt/src/seglog/segment_filename.rs), and an instance of their theorem.
use nomt.Base.{
  ◌≡◌, refl, [], ◌∷◌, ◌++◌, Bytes, ok, err, arith, list_eq, nat_eq, and_then, replicate,
}
use nomt.Store.SegmentName.{
  not_ten_digits, missing_dot, suffix, decimal, pad_left, format, strip_prefix, strip_suffix,
  parse_digits, parse_u32, parse,
}
use nomt.Store.SegmentName.RoundTrip.{parse-format}

-- "log"
abbrev prefix : Bytes
prefix = 108 ∷ 111 ∷ 103 ∷ []

formatted : format prefix 42 ≡ prefix ++ (46 ∷ (replicate 8 48 ++ (52 ∷ 50 ∷ [])) ++ suffix)
unfolding format decimal pad_left
formatted = refl

-- A sign is taken for one of the ten digits.
sign_parsed : parse prefix (prefix ++ (46 ∷ (43 ∷ replicate 8 48 ++ (50 ∷ [])) ++ suffix)) ≡ ok 2
unfolding parse strip_prefix strip_suffix parse_u32 parse_digits and_then
sign_parsed = refl

nine_digits : parse prefix (prefix ++ (46 ∷ replicate 9 48 ++ suffix)) ≡ err not_ten_digits
unfolding parse strip_prefix strip_suffix parse_u32 parse_digits and_then
nine_digits = refl

no_dot : parse prefix (prefix ++ (replicate 10 48 ++ suffix)) ≡ err missing_dot
unfolding parse strip_prefix strip_suffix parse_u32 parse_digits and_then
no_dot = refl

parse-format_example : parse prefix (format prefix 4294967295) ≡ ok 4294967295
parse-format_example = parse-format prefix 4294967295 (λ e. cc) (omega arith)
