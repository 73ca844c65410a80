-- ===== src/Dnsmsg/Wire.antt =====
-- The primitives of the decoder in dnsmsg/decode.go. A reader takes the whole buffer and the
-- offset `d.off`, and returns what it read with the new offset; after an error Go drops the
-- decoder, so no offset comes with one. An access out of range is `err panic`, as in Go.
pub mod Safety
pub mod Names
use dns_resolver.Prelude.{
  ℕ, zero, suc, ◌+◌, ◌-◌, ◌*◌, ◌/◌, ◌%◌, ◌^◌, ◌≤◌, ◌<◌, min, max, ◌≡◌, refl, sym, ap, subst, ◌∙◌,
  ◌≢◌, ◌↔◌, ◌⊎◌, inl, inr, Bool, true, false, not, ◌&&◌, ◌||◌, Option, none, some, List, [], ◌∷◌,
  ◌++◌, map, append_assoc, append-nil, arith, Bytes, All, All-append, ltb, leb, ◌==◌, if◌then◌else◌,
  ltb→lt, lt→ltb, leb→le, ==_iff, tests, Bool-cases, Option-cases, length, get_elem?, set, take,
  drop, length-append, length-take-le, length-take_of_le, length-drop, drop-append, take-append,
  drop-drop, drop-add_of_drop, get_elem?-drop, get_elem?-is_some, Error, is_fault, Result, ◌>>=◌,
  ◌>>◌, guard, Ensures, Ensures-ok, Ensures-err, Ensures-map, Ensures-bind, ok, err, returns, fails,
  underrun, too_many_jumps, bad_label, name_too_long, label_with_dot, bad_rdlength, no_address,
  no_soa, short_rdata, no_denial, unsupported_denial, bad_rrset, bad_signature,
  unsupported_algorithm, mismatch, panic, out_of_fuel,
}
use dns_resolver.Text.{dot, join, has_dot}
use dns_resolver.Dnsmsg.Name.{max_name_length}

abbrev pub Decoder : Type 0 → Type 0
Decoder A = Bytes → ℕ → Result (A × ℕ)

-- buf[i]
unfoldable pub index : Bytes → ℕ → Result ℕ
index buf i = elim (get_elem? buf i) [ none ↦ err panic | some b ↦ ok b ]

-- buf[i:j]
unfoldable pub slice : Bytes → ℕ → ℕ → Result Bytes
slice buf i j =
    if leb i j
    then (if leb j (length buf) then ok (take (j - i) (drop i buf)) else err panic)
    else err panic

unfoldable pub read_uint8 : Decoder ℕ
unfolding index
read_uint8 buf off =
    if ltb (length buf) (off + 1) then err underrun else do v ← index buf off; ok (v, off + 1)

-- binary.BigEndian.Uint16(buf[off:off+2])
unfoldable pub big_endian_16 : Bytes → ℕ → Result ℕ
unfolding index
big_endian_16 buf off = do hi ← index buf off; lo ← index buf (off + 1); ok (hi * 256 + lo)

unfoldable pub read_uint16 : Decoder ℕ
unfolding big_endian_16
read_uint16 buf off =
    if ltb (length buf) (off + 2)
    then err underrun
    else do v ← big_endian_16 buf off; ok (v, off + 2)

-- binary.BigEndian.Uint32(buf[off:off+4])
unfoldable pub big_endian_32 : Bytes → ℕ → Result ℕ
unfolding big_endian_16
big_endian_32 buf off = do
  hi ← big_endian_16 buf off
  lo ← big_endian_16 buf (off + 2)
  ok (hi * 65536 + lo)

unfoldable pub read_uint32 : Decoder ℕ
unfolding big_endian_32
read_uint32 buf off =
    if ltb (length buf) (off + 4)
    then err underrun
    else do v ← big_endian_32 buf off; ok (v, off + 4)

unfoldable pub read_bytes : ℕ → Decoder Bytes
unfolding slice
read_bytes n buf off =
    if ltb (length buf) (off + n)
    then err underrun
    else do v ← slice buf off (off + n); ok (v, off + n)

abbrev pub max_compression_pointer_jumps : ℕ
max_compression_pointer_jumps = 20

-- The two top bits of a byte, `length & 0xC0`, shifted down.
abbrev pub top_bits : ℕ → ℕ
top_bits b = (b / 64) % 4

-- What stands at one position of a name: its end, a compression pointer, or a label.
pub data Piece : Type 0 where
  stop : Piece
  pointer : ℕ → Piece
  label : Bytes → Piece

-- The piece that the length byte `n` at `pos` starts.
unfoldable pub piece_at : Bytes → ℕ → ℕ → Result Piece
unfolding slice big_endian_16
piece_at buf pos n =
    if n == 0
    then ok stop
    else if top_bits n == 3
    then if ltb (length buf) (pos + 2)
      then err underrun
      else (do v ← big_endian_16 buf pos; ok (pointer (v % 0x4000)))
    else if not (top_bits n == 0)
    then err bad_label
    else if ltb (length buf) (pos + 1 + n)
    then err underrun
    else (do l ← slice buf (pos + 1) (pos + 1 + n); ok (label l))

-- One round of the loop of readName, up to the tests that depend on the rounds before.
unfoldable pub read_piece : Bytes → ℕ → Result Piece
unfolding index piece_at
read_piece buf pos =
    if leb (length buf) pos then err underrun else (do n ← index buf pos; piece_at buf pos n)

-- `d.off` is set at the first jump; without one it is set where the name ends.
abbrev pub resume : Option ℕ → ℕ → ℕ
resume none here = here
resume (some off) here = off

-- The loop of readName. `after` is `d.off` if a jump has set it.
unfoldable pub name_loop :
    ℕ
    → Bytes
    → (pos : ℕ) (after : Option ℕ) (jumps name_len : ℕ) → List Bytes
    → Result (List Bytes × ℕ)
unfolding read_piece has_dot
name_loop zero buf pos after jumps name_len labels = err out_of_fuel
name_loop (suc fuel) buf pos after jumps name_len labels = do
  p ← read_piece buf pos
  elim p [
    | stop ↦ ok (labels, resume after (pos + 1))
    | pointer target ↦
        let rest =
          name_loop fuel buf target (some (resume after (pos + 2))) (jumps + 1) name_len labels in
        if ltb max_compression_pointer_jumps (jumps + 1) then err too_many_jumps else rest
    | label l ↦
        let rest =
          name_loop fuel buf (pos + 1 + length l) after jumps (name_len + length l + 1)
            (labels ++ (l ∷ [])) in
        if ltb max_name_length (name_len + length l + 1)
        then err name_too_long
        else if has_dot l
        then err label_with_dot
        else rest
  ]

-- 20 jumps, and labels that take at least two of 255 bytes each.
abbrev pub name_fuel : ℕ
name_fuel = 276

-- len(labels) == 0 stands for the root.
unfoldable pub name_of : List Bytes → Bytes
unfolding join
name_of [] = dot ∷ []
name_of (l ∷ ls) = join (l ∷ ls)

unfoldable pub read_name : Decoder Bytes
unfolding name_loop name_of
read_name buf off = do
  (labels, off') ← name_loop name_fuel buf off none 0 0 []
  ok (name_of labels, off')
