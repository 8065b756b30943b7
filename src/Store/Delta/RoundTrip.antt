-- ===== src/Store/Delta/RoundTrip.antt =====
-- A delta is read back from its bytes (nomt/src/rollback/delta.rs).
use nomt.Base.{
  ◌↔◌, ◌⊎◌, inl, inr, ℕ, suc, ◌^◌, ◌<◌, ◌≡◌, refl, sym, ap, ap₂, ◌∙◌, false, List, [], ◌∷◌, ◌++◌,
  if◌then◌else◌, Bytes, to_le_bytes, from_le_bytes, length-to_le_bytes, from_le_bytes-to_le_bytes,
  le→ltb-false, length, length-append, take, drop, take-append, drop-append_past, Option, none,
  some, ok, err, and_then, arith,
}
use mathlib.Core.List.{append_assoc, append-nil}
use mathlib.Core.Path.{subst}
use nomt.Store.Delta.{
  unexpected_eof, Key, Priors, Delta, to_erase, to_reinstate, write_keys, write_values, encode,
  read_exact, has_key, erase_loop, reinstate_loop, decode,
}

read_exact-append : (n : ℕ) (xs ys : Bytes) → length xs ≡ n → read_exact n (xs ++ ys) ≡ ok (xs, ys)
unfolding read_exact
read_exact-append n xs ys e =
    let size = length-append {0} xs ys in
    ap (λ b. if b then err unexpected_eof else ok (take n (xs ++ ys), drop n (xs ++ ys)))
      (le→ltb-false (length (xs ++ ys)) n (omega arith))
    ∙ ap₂ (λ t d. ok (t, d)) (ap (λ m. take m (xs ++ ys)) (sym e) ∙ take-append xs ys)
        (drop-append_past n xs ys e)

abbrev erased_entries : List Key → Priors
erased_entries [] = []
erased_entries (key ∷ keys) = (key, none) ∷ erased_entries keys

abbrev reinstated_entries : List (Key × Bytes) → Priors
reinstated_entries [] = []
reinstated_entries ((key, value) ∷ entries) = (key, some value) ∷ reinstated_entries entries

-- Keys of 32 bytes, none of which occurs before or twice, and values that a `u32` can measure.
abbrev IsFresh : Priors → Priors → Type 0
IsFresh before [] = Unit
IsFresh before ((key, none) ∷ entries) =
    (length key ≡ 32) × (has_key key before ≡ false) × IsFresh (before ++ (key, none) ∷ []) entries
IsFresh before ((key, some value) ∷ entries) =
    (length key ≡ 32)
    × (length value < 2 ^ 32)
    × (has_key key before ≡ false)
    × IsFresh (before ++ (key, some value) ∷ []) entries

append_one :
    (xs : Priors) (p : Key × Option Bytes) (ys : Priors) → (xs ++ p ∷ []) ++ ys ≡ xs ++ p ∷ ys
append_one [] p ys = refl
append_one (x ∷ xs) p ys = ap (λ t. x ∷ t) (append_one xs p ys)

erase_loop-suc :
    (n : ℕ) (key : Key) (rest : Bytes) (before : Priors)
    → length key ≡ 32
    → has_key key before ≡ false
    → erase_loop (suc n) (key ++ rest) before ≡ erase_loop n rest (before ++ (key, none) ∷ [])
unfolding erase_loop and_then
erase_loop-suc n key rest before size new = rw (read_exact-append 32 key rest size, new) refl

erase_loop_lem :
    (keys : List Key) (before after : Priors) (rest : Bytes)
    → IsFresh before (erased_entries keys ++ after)
    → (erase_loop (length keys) (write_keys keys ++ rest) before
        ≡ ok (before ++ erased_entries keys, rest))
      × IsFresh (before ++ erased_entries keys) after
unfolding write_keys
erase_loop_lem [] before after rest fresh = (
  unfold erase_loop in ap (λ l. ok (l, rest)) (sym (append-nil before)),
  subst (λ l. IsFresh l after) (sym (append-nil before)) fresh,
)
erase_loop_lem (key ∷ keys) before after rest (size, new, fresh) =
    let (read, left) = erase_loop_lem keys (before ++ (key, none) ∷ []) after rest fresh in
    let join = append_one before (key, none) (erased_entries keys) in
    (
      ap (λ bytes. erase_loop (suc (length keys)) bytes before)
            (append_assoc key (write_keys keys) rest)
          ∙ erase_loop-suc (length keys) key (write_keys keys ++ rest) before size new
          ∙ read
          ∙ ap (λ l. ok (l, rest)) join,
      subst (λ l. IsFresh l after) join left,
    )

reinstate_loop-suc :
    (n : ℕ) (key : Key) (value rest : Bytes) (before : Priors)
    → length key ≡ 32
    → length value < 2 ^ 32
    → has_key key before ≡ false
    → reinstate_loop (suc n) (key ++ (to_le_bytes 4 (length value) ++ (value ++ rest))) before
      ≡ reinstate_loop n rest (before ++ (key, some value) ∷ [])
unfolding reinstate_loop and_then
reinstate_loop-suc n key value rest before size small new =
    rw
      (
        read_exact-append 32 key (to_le_bytes 4 (length value) ++ (value ++ rest)) size,
        read_exact-append 4 (to_le_bytes 4 (length value)) (value ++ rest)
            (length-to_le_bytes 4 (length value)),
        read_exact-append (from_le_bytes (to_le_bytes 4 (length value))) value rest
            (sym (from_le_bytes-to_le_bytes 4 (length value) small)),
        new,
      )
      refl

reinstate_loop_lem :
    (entries : List (Key × Bytes)) (before : Priors) (rest : Bytes)
    → IsFresh before (reinstated_entries entries)
    → reinstate_loop (length entries) (write_values entries ++ rest) before
      ≡ ok (before ++ reinstated_entries entries, rest)
unfolding write_values
reinstate_loop_lem [] before rest fresh =
    unfold reinstate_loop in ap (λ l. ok (l, rest)) (sym (append-nil before))
reinstate_loop_lem ((key, value) ∷ entries) before rest (size, small, new, fresh) =
    let tail : Bytes = write_values entries in
    let split : (key ++ (to_le_bytes 4 (length value) ++ (value ++ tail))) ++ rest
        ≡ key ++ (to_le_bytes 4 (length value) ++ (value ++ (tail ++ rest))) =
      append_assoc key (to_le_bytes 4 (length value) ++ (value ++ tail)) rest
      ∙ ap (λ t. key ++ t)
          (append_assoc (to_le_bytes 4 (length value)) (value ++ tail) rest
            ∙ ap (λ t. to_le_bytes 4 (length value) ++ t) (append_assoc value tail rest)) in
    ap (λ bytes. reinstate_loop (suc (length entries)) bytes before) split
    ∙ reinstate_loop-suc (length entries) key value (tail ++ rest) before size small new
    ∙ reinstate_loop_lem entries (before ++ (key, some value) ∷ []) rest fresh
    ∙ ap (λ l. ok (l, rest)) (append_one before (key, some value) (reinstated_entries entries))

-- The entries in the order of their bytes: those to erase first.
abbrev pub written_entries : Priors → Priors
written_entries priors =
    erased_entries (to_erase priors) ++ reinstated_entries (to_reinstate priors)

-- The hypotheses of a delta: distinct keys of 32 bytes, values that a `u32` can measure, and no
-- more entries than that.
pub record IsDelta (d : Delta) : Type 0 where
  pub fresh : IsFresh [] (written_entries d.priors)
  pub erase_word : length (to_erase d.priors) < 2 ^ 32
  pub reinstate_word : length (to_reinstate d.priors) < 2 ^ 32

decoded :
    (d : Delta) (rest : Bytes)
    → IsDelta d
    → decode (encode d ++ rest) ≡ ok (record { priors = written_entries d.priors }, rest)
unfolding decode encode and_then
decoded d rest valid =
    let erased : List Key = to_erase d.priors in
    let values : List (Key × Bytes) = to_reinstate d.priors in
    let tail : Bytes = to_le_bytes 4 (length values) ++ (write_values values ++ rest) in
    let split : (to_le_bytes 4 (length erased)
            ++ (write_keys erased ++ (to_le_bytes 4 (length values) ++ write_values values)))
          ++ rest
        ≡ to_le_bytes 4 (length erased) ++ (write_keys erased ++ tail) =
      append_assoc (to_le_bytes 4 (length erased))
        (write_keys erased ++ (to_le_bytes 4 (length values) ++ write_values values)) rest
      ∙ ap (λ t. to_le_bytes 4 (length erased) ++ t)
          (append_assoc (write_keys erased) (to_le_bytes 4 (length values) ++ write_values values)
              rest
            ∙ ap (λ t. write_keys erased ++ t)
                (append_assoc (to_le_bytes 4 (length values)) (write_values values) rest)) in
    let (erases, left) = erase_loop_lem erased [] (reinstated_entries values) tail valid.fresh in
    rw
      (
        split,
        read_exact-append 4 (to_le_bytes 4 (length erased)) (write_keys erased ++ tail)
            (length-to_le_bytes 4 (length erased)),
        from_le_bytes-to_le_bytes 4 (length erased) valid.erase_word,
        erases,
        read_exact-append 4 (to_le_bytes 4 (length values)) (write_values values ++ rest)
            (length-to_le_bytes 4 (length values)),
        from_le_bytes-to_le_bytes 4 (length values) valid.reinstate_word,
        reinstate_loop_lem values (erased_entries erased) rest left,
      )
      refl

-- The list has the entry.
abbrev pub HasEntry : Key → Option Bytes → Priors → Type 0
HasEntry k v [] = ⊥
HasEntry k v ((j, w) ∷ priors) = ((k ≡ j) × (v ≡ w)) ⊎ HasEntry k v priors

module _ (k : Key) (v : Option Bytes) where
  HasEntry-middle :
      (xs ys : Priors) (j : Key) (w : Option Bytes)
      → HasEntry k v (xs ++ (j, w) ∷ ys) ↔ (((k ≡ j) × (v ≡ w)) ⊎ HasEntry k v (xs ++ ys))
  HasEntry-middle [] ys j w = (λ m. m, λ m. m)
  HasEntry-middle ((i, u) ∷ xs) ys j w =
      let (to, from) = HasEntry-middle xs ys j w in
      (
        λ m. elim m [
          | inl first ↦ inr (inl first)
          | inr later ↦ elim (to later) [ inl here ↦ inl here | inr other ↦ inr (inr other) ]
        ],
        λ m. elim m [
          | inl here ↦ inr (from (inl here))
          | inr other ↦ elim other [ inl first ↦ inl first | inr later ↦ inr (from (inr later)) ]
        ],
      )

  HasEntry-written_entries :
      (priors : Priors) → HasEntry k v (written_entries priors) ↔ HasEntry k v priors
  unfolding to_erase to_reinstate
  HasEntry-written_entries [] = (λ m. m, λ m. m)
  HasEntry-written_entries ((j, none) ∷ priors) =
      let (to, from) = HasEntry-written_entries priors in
      (
        λ m. elim m [ inl here ↦ inl here | inr later ↦ inr (to later) ],
        λ m. elim m [ inl here ↦ inl here | inr later ↦ inr (from later) ],
      )
  HasEntry-written_entries ((j, some w) ∷ priors) =
      let (to, from) = HasEntry-written_entries priors in
      let (out, into) =
        HasEntry-middle (erased_entries (to_erase priors))
          (reinstated_entries (to_reinstate priors)) j (some w) in
      (
        λ m. elim (out m) [ inl here ↦ inl here | inr later ↦ inr (to later) ],
        λ m. into (elim m [ inl here ↦ inl here | inr later ↦ inr (from later) ]),
      )

-- A delta is read back from its bytes with the same entries, and the reader stands behind them.
pub decode-encode :
    (d : Delta) (rest : Bytes) (k : Key) (v : Option Bytes)
    → IsDelta d
    → (d' : Delta) × (decode (encode d ++ rest) ≡ ok (d', rest))
      × (HasEntry k v d'.priors ↔ HasEntry k v d.priors)
decode-encode d rest k v valid = (
  record { priors = written_entries d.priors },
  decoded d rest valid,
  HasEntry-written_entries k v d.priors,
)
