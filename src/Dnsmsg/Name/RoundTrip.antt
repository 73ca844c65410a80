-- ===== src/Dnsmsg/Name/RoundTrip.antt =====
-- encodeName of dnsmsg/name.go and then readName of dnsmsg/decode.go.
use dns_resolver.Dnsmsg.Name.Pieces.{
  Encodable, name_loop-wire, wire, encode_labels_inv, read_piece_label,
}
use dns_resolver.Text.{join, labels_of, dot, eqb, trim_dot, split}
use dns_resolver.Dnsmsg.Wire.Names.{wire_length}
use dns_resolver.Text.Split.{
  NoDot, NoDot-has_dot, split-NoDot, eqb_iff, eqb_refl, split-ne-nil, join-split,
}
use dns_resolver.Dnsmsg.Wire.{name_loop, name_of, read_name, name_fuel}
use dns_resolver.Dnsmsg.Name.{max_name_length, encode_name}
use dns_resolver.Prelude.{
  List, Bytes, ◌∷◌, ◌<◌, ◌≡◌, All, ℕ, length, ok, drop, ◌++◌, ◌≤◌, ◌+◌, arith, drop-add_of_drop, [],
  ap, length-append, ltb, refl, Option, err, suc, Bool-cases, inl, ◌∙◌, inr, append_assoc, zero,
  ◌≢◌, drop-append, name_too_long, none,
}

-- The labels of a name with its final dot cut off.
pub length-join : (l : Bytes) (ls : List Bytes) → length (join (l ∷ ls)) + 1 ≡ wire_length (l ∷ ls)
unfolding join
length-join l [] = omega arith
length-join l (k ∷ ls) = omega (arith, length-append l (dot ∷ join (k ∷ ls)), length-join k ls)

length-labels : (ls : List Bytes) → All Encodable ls → length ls + length ls ≤ wire_length ls
length-labels [] h = omega arith
length-labels (l ∷ ls) h = omega (arith, length-labels ls h.1)

-- A name that encodeName accepts is the wire form of its labels.
pub encode_name-wire :
    (name w : Bytes)
    → encode_name name ≡ ok w
    → All Encodable (labels_of name) × (w ≡ wire (labels_of name)) × All NoDot (labels_of name)
unfolding encode_name labels_of
encode_name-wire name w h = elim (Bool-cases (ltb max_name_length (length name))) [
  | inl e ↦ absurd (ground arith)
  | inr e ↦ elim (Bool-cases (eqb (trim_dot name) [])) [
    | inl f ↦ rw f (tt, ground arith, tt)
    | inr f ↦
        let (good, eq) = encode_labels_inv (split (trim_dot name)) w (ground arith) in
        rw f (good, eq, split-NoDot (trim_dot name))
  ]
]

-- The dotted name that a reader gives back: without the final dot, and "." for the root.
unfoldable pub canonical : Bytes → Bytes
unfolding name_of labels_of
canonical name = name_of (labels_of name)

wire_length-labels_of :
    (name : Bytes) → trim_dot name ≢ [] → wire_length (labels_of name) ≡ length (trim_dot name) + 1
unfolding labels_of
wire_length-labels_of name h = elim (Bool-cases (eqb (trim_dot name) [])) [
  | inl f ↦ absurd (h ((eqb_iff (trim_dot name) []).0 f))
  | inr f ↦
      rw f (go (split (trim_dot name)) (split-ne-nil (trim_dot name)) (join-split (trim_dot name)))
]
  where
    go :
        (ls : List Bytes)
        → ls ≢ []
        → join ls ≡ trim_dot name
        → wire_length ls ≡ length (trim_dot name) + 1
    go [] ne e = absurd (ne refl)
    go (l ∷ ls) ne e = omega (arith, length-join l ls, ap length e)

wire_length-le : (name : Bytes) → length (trim_dot name) ≤ 254 → wire_length (labels_of name) ≤ 255
unfolding labels_of
wire_length-le name h = elim (Bool-cases (eqb (trim_dot name) [])) [
  | inl f ↦ rw f (omega arith)
  | inr f ↦
      let ne : trim_dot name ≢ [] = λ e. ground (arith, eqb_refl (trim_dot name), e) in
      omega (arith, wire_length-labels_of name ne)
]

-- The buffer behind the text in front of a name.
at_name : (before w after : Bytes) → drop (length before) (before ++ (w ++ after)) ≡ w ++ after
at_name before w after = drop-append before (w ++ after)

-- A name of at most 254 bytes (its final dot not counted) that encodeName accepts is read back by
-- readName at whatever place of a message it stands, up to the final dot, and the offset is then
-- behind it.
pub read_name-encode_name :
    (name w before after : Bytes)
    → encode_name name ≡ ok w
    → length (trim_dot name) ≤ 254
    → read_name (before ++ (w ++ after)) (length before)
      ≡ ok (canonical name, length before + length w)
unfolding read_name canonical
read_name-encode_name name w before after h le =
    let (good, eq, nd) = encode_name-wire name w h in
    let ls = labels_of name in
    let size = wire_length-le name le in
    let read =
      name_loop-wire name_fuel (before ++ (w ++ after)) after (length before) none 0 0 [] ls
        (omega (arith, length-labels ls good, size))
        (at_name before w after ∙ ap (λ v. v ++ after) eq) good nd (omega (arith, size)) in
    rw (read, eq)

name_loop-too_long :
    (fuel : ℕ) (buf rest : Bytes) (pos : ℕ) (after : Option ℕ) (jumps len : ℕ)
    (done ls : List Bytes)
    → length ls < fuel
    → drop pos buf ≡ wire ls ++ rest
    → All Encodable ls
    → All NoDot ls
    → len ≤ 255
    → 255 < len + wire_length ls
    → name_loop fuel buf pos after jumps len done ≡ err name_too_long
unfolding name_loop
name_loop-too_long zero buf rest pos after jumps len done ls f at_pos good nd le long =
    absurd (omega arith)
name_loop-too_long (suc fuel) buf rest pos after jumps len done [] f at_pos good nd le long =
    absurd (omega arith)
name_loop-too_long (suc fuel) buf rest pos after jumps len done (l ∷ ls) f at_pos good nd le long =
    let at_label : drop pos buf ≡ length l ∷ (l ++ (wire ls ++ rest)) =
      at_pos ∙ ap (◌∷◌ (length l)) (append_assoc l (wire ls) rest) in
    let behind : drop (pos + 1 + length l) buf ≡ wire ls ++ rest =
      ap (λ k. drop k buf) (omega arith)
      ∙ drop-add_of_drop buf (length l ∷ l) (wire ls ++ rest) pos at_label in
    elim (Bool-cases (ltb max_name_length (len + length l + 1))) [
      | inl e ↦ rw (read_piece_label buf pos l (wire ls ++ rest) good.0 at_label, e)
      | inr e ↦
          rw (read_piece_label buf pos l (wire ls ++ rest) good.0 at_label, e, NoDot-has_dot l nd.0)
            (name_loop-too_long fuel buf rest (pos + 1 + length l) after jumps (len + length l + 1)
              (done ++ (l ∷ [])) ls (omega arith) behind good.1 nd.1 (ground arith) (omega arith))
    ]

-- A name of exactly 255 bytes, its final dot not counted, that encodeName accepts is one that
-- readName refuses: the limit of 255 counts the dots on one side and a length byte for every label
-- on the other.
pub read_name-encode_name_too_long :
    (name w before after : Bytes)
    → encode_name name ≡ ok w
    → length (trim_dot name) ≡ 255
    → read_name (before ++ (w ++ after)) (length before) ≡ err name_too_long
unfolding read_name
read_name-encode_name_too_long name w before after h long =
    let (good, eq, nd) = encode_name-wire name w h in
    let ls = labels_of name in
    let ne : trim_dot name ≢ [] = λ e. absurd (omega (arith, ap length e)) in
    let size = wire_length-labels_of name ne in
    let read =
      name_loop-too_long name_fuel (before ++ (w ++ after)) after (length before) none 0 0 [] ls
        (omega (arith, length-labels ls good, size))
        (at_name before w after ∙ ap (λ v. v ++ after) eq) good nd (omega arith)
        (omega (arith, size)) in
    rw read
