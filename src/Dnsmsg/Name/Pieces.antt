-- ===== src/Dnsmsg/Name/Pieces.antt =====
-- The wire form of labels: what the loop of encodeName writes and the loop of readName reads.
use dns_resolver.Dnsmsg.Wire.Names.{wire_length}
use dns_resolver.Text.Split.{NoDot, NoDot-has_dot}
use dns_resolver.Dnsmsg.Wire.{
  index, slice, read_piece, piece_at, stop, label, top_bits, name_loop, resume,
}
use dns_resolver.Dnsmsg.Name.{encode_labels, bad_length, max_name_length}
use dns_resolver.Prelude.{
  List, Bytes, ◌∷◌, ◌<◌, ◌≡◌, All, ℕ, length, ok, drop, ◌++◌, ◌≤◌, Result, ◌+◌, get_elem?-drop,
  ◌>>=◌, false, arith, drop-add_of_drop, length-drop, [], leb, ap, true, ◌==◌, length-append, ◌-◌,
  ltb, take-append, refl, Option, err, suc, Bool-cases, append-nil, inl, ◌∙◌, inr, append_assoc,
  zero,
}

-- The wire form of a list of labels.
abbrev pub wire : List Bytes → Bytes
wire [] = 0 ∷ []
wire (l ∷ ls) = length l ∷ (l ++ wire ls)

abbrev pub Encodable : Bytes → Type 0
Encodable l = (0 < length l) × (length l ≤ 63)

-- The loop of encodeName accepts exactly the lists of labels of 1 to 63 bytes, and writes their
-- wire form.
pub encode_labels_inv :
    (ls : List Bytes) (w : Bytes) → encode_labels ls ≡ ok w → All Encodable ls × (w ≡ wire ls)
unfolding encode_labels
encode_labels_inv [] w h = (tt, cc)
encode_labels_inv (l ∷ ls) w h = elim (Bool-cases (bad_length l)) [
  | inl e ↦ absurd (ground arith)
  | inr e ↦ go (encode_labels_inv ls) (encode_labels ls) refl (rw e at h)
]
  where
    go :
        ((k : Bytes) → encode_labels ls ≡ ok k → All Encodable ls × (k ≡ wire ls))
        → (r : Result Bytes) → encode_labels ls ≡ r
        → (r >>= λ rest. ok (length l ∷ (l ++ rest))) ≡ ok w
        → All Encodable (l ∷ ls) × (w ≡ wire (l ∷ ls))
    go ih (ok rest) e h' =
        let (good, eq) = ih rest e in (((ground arith, ground arith), good), ground (arith, eq))
    go ih (err x) e h' = absurd (cc)

pub encode_labels-wire : (ls : List Bytes) → All Encodable ls → encode_labels ls ≡ ok (wire ls)
unfolding encode_labels
encode_labels-wire [] h = refl
encode_labels-wire (l ∷ ls) h =
    let good : bad_length l ≡ false = ground arith in rw (good, encode_labels-wire ls h.1)

length_of_drop :
    (buf : Bytes) (pos x : ℕ) (s : Bytes) → drop pos buf ≡ x ∷ s → pos + length (x ∷ s) ≡ length buf
length_of_drop buf pos x s h = omega (arith, length-drop pos buf, ap length h)

module _ (buf : Bytes) (pos : ℕ) where
  index_at : (x : ℕ) (s : Bytes) → drop pos buf ≡ x ∷ s → index buf pos ≡ ok x
  unfolding index
  index_at x s h = rw (get_elem?-drop buf pos x s h, index)

  slice_at :
      (x : ℕ) (l s : Bytes)
      → drop pos buf ≡ x ∷ (l ++ s)
      → slice buf (pos + 1) (pos + 1 + length l) ≡ ok l
  unfolding slice
  slice_at x l s h =
      let behind : drop (pos + 1) buf ≡ l ++ s = drop-add_of_drop buf (x ∷ []) (l ++ s) pos h in
      let size = length_of_drop buf pos x (l ++ s) h in
      let p : leb (pos + 1) (pos + 1 + length l) ≡ true = ground arith in
      let q : leb (pos + 1 + length l) (length buf) ≡ true =
        ground (arith, size, length-append l s) in
      let n : pos + 1 + length l - (pos + 1) ≡ length l = omega arith in
      rw (p, q, behind, n, take-append l s)

  pub read_piece_stop : (s : Bytes) → drop pos buf ≡ 0 ∷ s → read_piece buf pos ≡ ok stop
  unfolding read_piece piece_at
  read_piece_stop s h =
      let inside : leb (length buf) pos ≡ false = ground (arith, length_of_drop buf pos 0 s h) in
      rw (inside, index_at 0 s h)

  pub read_piece_label :
      (l s : Bytes)
      → Encodable l
      → drop pos buf ≡ length l ∷ (l ++ s)
      → read_piece buf pos ≡ ok (label l)
  unfolding read_piece piece_at
  read_piece_label l s good h =
      let size = length_of_drop buf pos (length l) (l ++ s) h in
      let inside : leb (length buf) pos ≡ false = ground (arith, size) in
      let positive : (length l == 0) ≡ false = ground arith in
      let plain : top_bits (length l) ≡ 0 = omega arith in
      let fits : ltb (length buf) (pos + 1 + length l) ≡ false =
        ground (arith, size, length-append l s) in
      rw (inside, index_at (length l) (l ++ s) h, positive, plain, fits, slice_at (length l) l s h)

-- The loop of readName over the wire form of labels: what it has read, then these labels.
pub name_loop-wire :
    (fuel : ℕ) (buf rest : Bytes) (pos : ℕ) (after : Option ℕ) (jumps len : ℕ)
    (done ls : List Bytes)
    → length ls < fuel
    → drop pos buf ≡ wire ls ++ rest
    → All Encodable ls
    → All NoDot ls
    → len + wire_length ls ≤ 255
    → name_loop fuel buf pos after jumps len done
      ≡ ok (done ++ ls, resume after (pos + length (wire ls)))
unfolding name_loop
name_loop-wire zero buf rest pos after jumps len done ls f at_pos good nd fits =
    absurd (omega arith)
name_loop-wire (suc fuel) buf rest pos after jumps len done [] f at_pos good nd fits =
    rw (read_piece_stop buf pos rest at_pos, append-nil)
name_loop-wire (suc fuel) buf rest pos after jumps len done (l ∷ ls) f at_pos good nd fits =
    let at_label : drop pos buf ≡ length l ∷ (l ++ (wire ls ++ rest)) =
      at_pos ∙ ap (◌∷◌ (length l)) (append_assoc l (wire ls) rest) in
    let behind : drop (pos + 1 + length l) buf ≡ wire ls ++ rest =
      ap (λ k. drop k buf) (omega arith)
      ∙ drop-add_of_drop buf (length l ∷ l) (wire ls ++ rest) pos at_label in
    let short : ltb max_name_length (len + length l + 1) ≡ false = ground arith in
    let size : pos + 1 + length l + length (wire ls) ≡ pos + length (wire (l ∷ ls)) =
      omega (arith, length-append l (wire ls)) in
    rw (
      read_piece_label buf pos l (wire ls ++ rest) good.0 at_label,
      short,
      NoDot-has_dot l nd.0,
      name_loop-wire fuel buf rest (pos + 1 + length l) after jumps (len + length l + 1)
          (done ++ (l ∷ [])) ls (omega arith) behind good.1 nd.1 (omega arith),
      size,
      append_assoc done (l ∷ []) ls,
    )
