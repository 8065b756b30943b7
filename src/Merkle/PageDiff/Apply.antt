-- ===== src/Merkle/PageDiff/Apply.antt =====
-- Unpacking the nodes that a diff packs (nomt/src/page_diff.rs).
use nomt.Base.{
  ℕ, suc, ◌+◌, ◌-◌, ◌*◌, ◌≤◌, ◌≡◌, inl, inr, refl, sym, ap, ◌∙◌, Bool, true, false, List, [], ◌∷◌,
  ◌++◌, Bits, Bytes, slice, copy_at, nat_eq, if◌then◌else◌, length, drop, get_or,
  get_or-append_left, get_or-append_right, some, arith, length-append, length-take, length-drop,
  lt_or_ge, le→ltb-false, nat_beq_iff,
}
use mathlib.Core.Option
use mathlib.Core.Path.{subst}
use nomt.Merkle.PageDiff.{
  Node, PageDiff, changed, count, iter_ones, ones, cleared, read_node, read_nodes,
  pack_changed_nodes, unpack_loop, unpack_changed_nodes,
}
use nomt.Merkle.PageDiff.Nodes.{
  set_bits, ones-eq-set_bits, count_ones-eq-length, set_bits-append, set_bits-shift, pick,
  pick-below, pick-at, pick-above, pick-end, read_node_in, length-copied, read_node-copied_same,
  read_node-copied_other,
}

-- The pages agree with `src` at the set bits from `k` on, and with `dst` elsewhere.
record Repacked (k : ℕ) (bs : Bits) (src dst : Bytes) : Type 0 where
  nodes : List Node
  out : Bytes
  packed : read_nodes src (set_bits k bs) ≡ some nodes
  unpacked : unpack_loop (set_bits k bs) nodes dst ≡ some out
  counted : length nodes ≡ length (set_bits k bs)
  kept : length out ≡ length dst
  picked : (j : ℕ) → read_node out j ≡ pick k bs j (read_node src j) (read_node dst j)

module _ (k : ℕ) (bs : Bits) (src dst : Bytes) where
  skip_bit : Repacked (suc k) bs src dst → Repacked k (false ∷ bs) src dst
  unfolding set_bits
  skip_bit r = record {
    nodes = r.nodes;
    out = r.out;
    packed = r.packed;
    unpacked = r.unpacked;
    counted = r.counted;
    kept = r.kept;
    picked = λ j. r.picked j ∙ elim (lt_or_ge k j) [
      | inl above ↦ sym (pick-above k false bs j (read_node src j) (read_node dst j) above)
      | inr upto ↦
          pick-below (suc k) bs j (read_node src j) (read_node dst j) (omega arith)
          ∙ elim (lt_or_ge j k) [
            | inl below ↦
                sym (pick-below k (false ∷ bs) j (read_node src j) (read_node dst j) below)
            | inr same ↦
                let e : k ≡ j = omega arith in
                subst
                  (λ i. read_node dst i ≡ pick k (false ∷ bs) i (read_node src i) (read_node dst i))
                  e (sym (pick-at k false bs (read_node src k) (read_node dst k)))
          ]
    ];
  }

  take_bit :
      (node : Node)
      → length node ≡ 32
      → read_node src k ≡ some node
      → k * 32 + 32 ≤ length dst
      → Repacked (suc k) bs src (copy_at (k * 32) node dst)
      → Repacked k (true ∷ bs) src dst
  unfolding set_bits read_nodes unpack_loop Option.bind
  take_bit node size here fits r =
      let same = read_node-copied_same k node dst size fits in
      record {
        nodes = node ∷ r.nodes;
        out = r.out;
        packed = rw (here, r.packed) refl;
        unpacked = rw (le→ltb-false (length dst) (k * 32 + 32) fits) r.unpacked;
        counted = ap suc r.counted;
        kept = r.kept ∙ length-copied k node dst size fits;
        picked = λ j. r.picked j ∙ elim (lt_or_ge k j) [
          | inl above ↦
              ap (pick (suc k) bs j (read_node src j))
                (read_node-copied_other k node dst size fits j (omega arith))
              ∙ sym (pick-above k true bs j (read_node src j) (read_node dst j) above)
          | inr upto ↦
              pick-below (suc k) bs j (read_node src j) (read_node (copy_at (k * 32) node dst) j)
                (omega arith)
              ∙ elim (lt_or_ge j k) [
                | inl below ↦
                    read_node-copied_other k node dst size fits j (omega arith)
                    ∙ sym (pick-below k (true ∷ bs) j (read_node src j) (read_node dst j) below)
                | inr at ↦
                    let e : k ≡ j = omega arith in
                    subst
                      (λ i.
                        read_node (copy_at (k * 32) node dst) i
                        ≡ pick k (true ∷ bs) i (read_node src i) (read_node dst i))
                      e
                      (same
                        ∙ sym here
                        ∙ sym (pick-at k true bs (read_node src k) (read_node dst k)))
              ]
        ];
      }

repacked :
    (k : ℕ) (bs : Bits) (src dst : Bytes)
    → (k + length bs) * 32 ≤ length src
    → (k + length bs) * 32 ≤ length dst
    → Repacked k bs src dst
unfolding set_bits read_nodes unpack_loop
repacked k [] src dst h l = record {
  nodes = [];
  out = dst;
  packed = refl;
  unpacked = refl;
  counted = refl;
  kept = refl;
  picked = λ j. sym (pick-end k j (read_node src j) (read_node dst j));
}
repacked k (false ∷ bs) src dst h l =
    skip_bit k bs src dst (repacked (suc k) bs src dst (omega arith) (omega arith))
repacked k (true ∷ bs) src dst h l =
    let node : Node = slice (k * 32) (k * 32 + 32) src in
    let size : length node ≡ 32 = omega (
      arith,
      length-take {0} (k * 32 + 32 - k * 32) (drop (k * 32) src),
      length-drop {0} (k * 32) src,
    ) in
    take_bit k bs src dst node size (read_node_in src k (omega arith)) (omega arith) (
      repacked (suc k) bs src (copy_at (k * 32) node dst) (omega arith)
        (omega (arith, length-copied k node dst size (omega arith))))

-- Two words.
pub record IsDiff (d : PageDiff) : Type 0 where
  pub low_word : length d.low ≡ 64
  pub high_word : length d.high ≡ 64

module _ (d : PageDiff) (valid : IsDiff d) where
  iter_ones-eq-set_bits : cleared d ≡ false → iter_ones d ≡ some (set_bits 0 (d.low ++ d.high))
  unfolding iter_ones
  iter_ones-eq-set_bits unclear =
      let lows : ones 64 d.low ≡ set_bits 0 d.low =
        ones-eq-set_bits 64 0 d.low (omega (arith, valid.low_word))
          (omega (arith, valid.low_word)) in
      let highs : ones 64 d.high ≡ set_bits 0 d.high =
        ones-eq-set_bits 64 0 d.high (omega (arith, valid.high_word))
          (omega (arith, valid.high_word)) in
      rw (unclear, lows, highs)
        (ap (λ t. some (set_bits 0 d.low ++ t))
            (set_bits-shift 64 0 d.high
              ∙ ap (λ n. set_bits n d.high) (omega (arith, valid.low_word)))
          ∙ ap some (sym (set_bits-append 0 d.low d.high)))

  count-eq-length : count d ≡ length (set_bits 0 (d.low ++ d.high))
  unfolding count
  count-eq-length = omega (
    arith,
    count_ones-eq-length 0 d.low,
    count_ones-eq-length (0 + length d.low) d.high,
    ap length (set_bits-append 0 d.low d.high),
    length-append {0} (set_bits 0 d.low) (set_bits (0 + length d.low) d.high),
  )

  changed-bit : (j : ℕ) (b : Bool) → changed d j ≡ some b → get_or (d.low ++ d.high) j false ≡ b
  unfolding changed
  changed-bit j b e =
      let back : j - length d.low ≡ j - 64 = omega (arith, valid.low_word) in
      ground (
        arith,
        valid.low_word,
        get_or-append_left j d.low d.high false,
        get_or-append_right j (j - length d.low) d.low d.high false,
        ap (λ i. get_or d.high i false) back,
      )

  unpacks :
      (nodes : List Node) (out dst : Bytes)
      → cleared d ≡ false
      → length nodes ≡ length (set_bits 0 (d.low ++ d.high))
      → unpack_loop (set_bits 0 (d.low ++ d.high)) nodes dst ≡ some out
      → unpack_changed_nodes d nodes dst ≡ some out
  unfolding unpack_changed_nodes Option.bind
  unpacks nodes out dst unclear size e =
      rw
        (
          (nat_beq_iff (count d) (length nodes)).1 (count-eq-length ∙ sym size),
          iter_ones-eq-set_bits unclear,
        )
        e

-- For a diff that is not cleared, packing the changed nodes of one page and unpacking them into
-- another succeeds, and makes the second agree with the first at the changed nodes and stay as
-- it was at the others.
pub unpack_changed_nodes-pack_changed_nodes :
    (d : PageDiff) (src dst : Bytes) (slot_index : ℕ) (b : Bool)
    → IsDiff d
    → cleared d ≡ false
    → length src ≡ 4096
    → length dst ≡ 4096
    → changed d slot_index ≡ some b
    → (nodes : List Node) × (out : Bytes) × (pack_changed_nodes d src ≡ some nodes)
      × (unpack_changed_nodes d nodes dst ≡ some out)
      × (length out ≡ 4096)
      × (read_node out slot_index
          ≡ (if b then read_node src slot_index else read_node dst slot_index))
unfolding pack_changed_nodes Option.bind
unpack_changed_nodes-pack_changed_nodes d src dst j b valid unclear hs hd bit =
    let fits : (0 + length (d.low ++ d.high)) * 32 ≤ 4096 =
      omega (arith, length-append {0} d.low d.high, valid.low_word, valid.high_word) in
    let r = repacked 0 (d.low ++ d.high) src dst (omega arith) (omega arith) in
    let whole : j - 0 ≡ j = omega arith in
    (
      r.nodes,
      r.out,
      rw (iter_ones-eq-set_bits d valid unclear) r.packed,
      unpacks d valid r.nodes r.out dst unclear r.counted r.unpacked,
      r.kept ∙ hd,
      r.picked j ∙ rw (le→ltb-false j 0 (omega arith), whole, changed-bit d valid j b bit) refl,
    )
