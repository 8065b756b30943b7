-- ===== src/Store/Delta.antt =====
-- nomt/src/rollback/delta.rs: what undoes a commit, and its bytes. The `HashMap` of prior values is
-- the list of its entries, in the order in which it is iterated.
pub mod RoundTrip
use nomt.Base.{
  ℕ, zero, suc, ◌+◌, Bool, true, false, ◌||◌, List, [], ◌∷◌, ◌++◌, Bytes, to_le_bytes,
  from_le_bytes, nat_eq, list_eq, ◌==◌, if◌then◌else◌, ltb, length, take, drop, Option, none, some,
  Result, ok, err, and_then,
}

abbrev pub Key : Type 0
Key = Bytes

abbrev pub Priors : Type 0
Priors = List (Key × Option Bytes)

pub record Delta : Type 0 where
  pub priors : Priors

unfoldable pub to_erase : Priors → List Key
to_erase [] = []
to_erase ((key, none) ∷ priors) = key ∷ to_erase priors
to_erase ((key, some value) ∷ priors) = to_erase priors

unfoldable pub to_reinstate : Priors → List (Key × Bytes)
to_reinstate [] = []
to_reinstate ((key, none) ∷ priors) = to_reinstate priors
to_reinstate ((key, some value) ∷ priors) = (key, value) ∷ to_reinstate priors

unfoldable pub write_keys : List Key → Bytes
write_keys [] = []
write_keys (key ∷ keys) = key ++ write_keys keys

unfoldable pub write_values : List (Key × Bytes) → Bytes
write_values [] = []
write_values ((key, value) ∷ entries) =
    key ++ (to_le_bytes 4 (length value) ++ (value ++ write_values entries))

unfoldable pub encode : Delta → Bytes
encode d =
    let erased = to_erase d.priors in
    let reinstated = to_reinstate d.priors in
    to_le_bytes 4 (length erased)
    ++ (write_keys erased ++ (to_le_bytes 4 (length reinstated) ++ write_values reinstated))

pub data DeltaError : Type 0 where
  unexpected_eof : DeltaError
  duplicate_erase duplicate_reinstate : Key → DeltaError

-- `read_exact`: the bytes read, and those that are left.
unfoldable pub read_exact : ℕ → Bytes → Result DeltaError (Bytes × Bytes)
read_exact n reader =
    if ltb (length reader) n then err unexpected_eof else ok (take n reader, drop n reader)

-- Whether `insert` finds the key in the map.
unfoldable pub has_key : Key → Priors → Bool
has_key key [] = false
has_key key ((k, v) ∷ priors) = (k == key) || has_key key priors

unfoldable pub erase_loop : ℕ → Bytes → Priors → Result DeltaError (Priors × Bytes)
erase_loop zero reader priors = ok (priors, reader)
erase_loop (suc n) reader priors = and_then (read_exact 32 reader) λ r.
    let next = erase_loop n r.1 (priors ++ (r.0, none) ∷ []) in
    if has_key r.0 priors then err (duplicate_erase r.0) else next

unfoldable pub reinstate_loop : ℕ → Bytes → Priors → Result DeltaError (Priors × Bytes)
reinstate_loop zero reader priors = ok (priors, reader)
reinstate_loop (suc n) reader priors = and_then (read_exact 32 reader) λ r.
    and_then (read_exact 4 r.1) λ size. and_then (read_exact (from_le_bytes size.0) size.1) λ value.
      let next = reinstate_loop n value.1 (priors ++ (r.0, some value.0) ∷ []) in
      if has_key r.0 priors then err (duplicate_reinstate r.0) else next

-- The delta, and the bytes that are left in the reader.
unfoldable pub decode : Bytes → Result DeltaError (Delta × Bytes)
decode reader = and_then (read_exact 4 reader) λ erase_len.
    and_then (erase_loop (from_le_bytes erase_len.0) erase_len.1 []) λ erased.
      and_then (read_exact 4 erased.1) λ reinstate_len.
        and_then (reinstate_loop (from_le_bytes reinstate_len.0) reinstate_len.1 erased.0)
          λ done. ok (record { priors = done.0 }, done.1)
