-- ===== src/Dnsmsg/Wire/Safety.antt =====
-- The primitive readers of dnsmsg/decode.go, for any bytes.
use dns_resolver.Prelude.{
  ℕ, ◌+◌, ◌-◌, ◌≤◌, ◌<◌, ◌≡◌, refl, sym, ap, ◌∙◌, inl, inr, true, some, arith, Bytes, ltb, leb,
  ◌==◌, if◌then◌else◌, Bool-cases, length, get_elem?, drop, length-take_of_le, length-drop,
  get_elem?-is_some, Result, Ensures, Ensures-bind, err, returns, fails, underrun,
}
use dns_resolver.Dnsmsg.Wire.{
  Decoder, index, slice, read_uint8, big_endian_16, read_uint16, big_endian_32, read_uint32,
  read_bytes, top_bits, Piece, read_piece, piece_at,
}
use dns_resolver.Dnsmsg.Wire.{
  stop, pointer, label, Decoder, index, slice, read_uint8, big_endian_16, read_uint16,
  big_endian_32, read_uint32, read_bytes, top_bits, Piece, piece_at, read_piece,
}

-- `m` reads at least `k` bytes of any buffer, ends in the buffer, and its value satisfies `P`.
pub record Reads {A : Type 0} (k : ℕ) (P : A → Type 0) (m : Decoder A) : Type 0 where
  pub at :
      (buf : Bytes) (off : ℕ)
      → off ≤ length buf
      → Ensures (λ r. (off + k ≤ r.1) × (r.1 ≤ length buf) × P r.0) (m buf off)

abbrev pub Any : {A : Type 0} → A → Type 0
Any _ = Unit

pub index-Ensures :
    (buf : Bytes) (i : ℕ) → i < length buf → Ensures (λ b. get_elem? buf i ≡ some b) (index buf i)
unfolding index
index-Ensures buf i h = let (x, e) = get_elem?-is_some buf i h in rw (e, index) (returns refl)

pub slice-Ensures :
    (buf : Bytes) (i j : ℕ)
    → i ≤ j
    → j ≤ length buf
    → Ensures (λ l. length l ≡ j - i) (slice buf i j)
unfolding slice
slice-Ensures buf i j h k =
    let p : leb i j ≡ true = ground arith in
    let q : leb j (length buf) ≡ true = ground arith in
    rw (p, q) (returns (length-take_of_le (j - i) (drop i buf) (omega (arith, length-drop i buf))))

pub big_endian_16-Ensures :
    (buf : Bytes) (i : ℕ) → i + 2 ≤ length buf → Ensures Any (big_endian_16 buf i)
unfolding big_endian_16
big_endian_16-Ensures buf i h =
    Ensures-bind _ (index-Ensures buf i (omega arith))
      λ hi _. Ensures-bind _ (index-Ensures buf (i + 1) (omega arith)) λ lo _. returns tt

pub big_endian_32-Ensures :
    (buf : Bytes) (i : ℕ) → i + 4 ≤ length buf → Ensures Any (big_endian_32 buf i)
unfolding big_endian_32
big_endian_32-Ensures buf i h =
    Ensures-bind _ (big_endian_16-Ensures buf i (omega arith))
      λ hi _. Ensures-bind _ (big_endian_16-Ensures buf (i + 2) (omega arith)) λ lo _. returns tt

-- The test for an underrun in front of a read of `k` bytes.
checked :
    {A : Type 0} {P : A → Type 0} (buf : Bytes) (off k : ℕ) (r : Result A)
    → (off + k ≤ length buf → Ensures P r)
    → Ensures P (if ltb (length buf) (off + k) then err underrun else r)
checked buf off k r h = elim (Bool-cases (ltb (length buf) (off + k))) [
  | inl e ↦ rw e (fails refl)
  | inr e ↦ rw e (h (ground arith))
]

pub read_uint8-Reads : Reads 1 Any read_uint8
unfolding read_uint8
read_uint8-Reads = record {
  at = λ buf off h. checked buf off 1 _ λ fits.
      Ensures-bind _ (index-Ensures buf off (omega arith))
        λ v _. returns (omega arith, omega arith, tt);
}

pub read_uint16-Reads : Reads 2 Any read_uint16
unfolding read_uint16
read_uint16-Reads = record {
  at = λ buf off h. checked buf off 2 _ λ fits.
      Ensures-bind _ (big_endian_16-Ensures buf off fits) λ v _. returns (omega arith, fits, tt);
}

pub read_uint32-Reads : Reads 4 Any read_uint32
unfolding read_uint32
read_uint32-Reads = record {
  at = λ buf off h. checked buf off 4 _ λ fits.
      Ensures-bind _ (big_endian_32-Ensures buf off fits) λ v _. returns (omega arith, fits, tt);
}

pub read_bytes-Reads : (n : ℕ) → Reads n (λ l. length l ≡ n) (read_bytes n)
unfolding read_bytes
read_bytes-Reads n = record {
  at = λ buf off h. checked buf off n _ λ fits.
      Ensures-bind _ (slice-Ensures buf off (off + n) (omega arith) fits)
        λ v e. returns (omega arith, fits, omega (arith, e));
}

-- What a piece at a position says of the buffer.
abbrev pub Fits : Bytes → ℕ → Piece → Type 0
Fits buf pos stop = pos + 1 ≤ length buf
Fits buf pos (pointer target) = pos + 2 ≤ length buf
Fits buf pos (label l) =
    (pos + 1 + length l ≤ length buf)
    × (get_elem? buf pos ≡ some (length l))
    × (0 < length l)
    × (top_bits (length l) ≡ 0)

piece_at-Fits :
    (buf : Bytes) (pos n : ℕ)
    → get_elem? buf pos ≡ some n
    → pos < length buf
    → Ensures (Fits buf pos) (piece_at buf pos n)
unfolding piece_at
piece_at-Fits buf pos n at_pos inside = elim (Bool-cases (n == 0)) [
  | inl e ↦ rw e (returns (omega arith))
  | inr positive ↦ elim (Bool-cases (top_bits n == 3)) [
    | inl e ↦
        rw (positive, e)
          (checked buf pos 2 _
            λ fits. Ensures-bind _ (big_endian_16-Ensures buf pos fits) λ v _. returns fits)
    | inr e ↦ elim (Bool-cases (top_bits n == 0)) [
      | inr f ↦ rw (positive, e, f) (fails refl)
      | inl f ↦
          rw (positive, e, f)
            (checked buf (pos + 1) n _ λ fits.
              Ensures-bind _ (slice-Ensures buf (pos + 1) (pos + 1 + n) (omega arith) fits) λ l h.
                let same : length l ≡ n = omega (arith, h) in
                returns (
                  omega (arith, same),
                  at_pos ∙ ap some (sym same),
                  ground (arith, same),
                  ground (arith, same),
                ))
    ]
  ]
]

pub read_piece-Fits : (buf : Bytes) (pos : ℕ) → Ensures (Fits buf pos) (read_piece buf pos)
unfolding read_piece
read_piece-Fits buf pos = elim (Bool-cases (leb (length buf) pos)) [
  | inl e ↦ rw e (fails refl)
  | inr e ↦
      let inside : pos < length buf = ground arith in
      rw e (
        Ensures-bind _ (index-Ensures buf pos inside)
          λ n at_pos. piece_at-Fits buf pos n at_pos inside)
]
