-- ===== src/Dnsmsg/Wire/Names.antt =====
-- readName of dnsmsg/decode.go, for any bytes.
use dns_resolver.Prelude.{
  ℕ, zero, suc, ◌+◌, ◌-◌, ◌≤◌, ◌<◌, ◌≡◌, refl, subst, inl, inr, false, Option, none, some, List, [],
  ◌∷◌, ◌++◌, arith, Bytes, All, All-append, ltb, Bool-cases, length, get_elem?, Ensures,
  Ensures-bind, returns, fails,
}
use dns_resolver.Text.{has_dot}
use dns_resolver.Text.Split.{IsLabel, has_dot-NoDot}
use dns_resolver.Dnsmsg.{IsU8}
use dns_resolver.Dnsmsg.Wire.{top_bits, resume, name_loop, name_fuel, name_of, read_name}
use dns_resolver.Dnsmsg.Wire.Safety.{Reads, read_piece-Fits}
use dns_resolver.Dnsmsg.Wire.{
  stop, pointer, label, top_bits, resume, name_loop, name_fuel, name_of, read_name,
}

-- The bytes that labels take in a name, each with its length byte.
abbrev pub wire_length : List Bytes → ℕ
wire_length [] = 0
wire_length (l ∷ ls) = length l + 1 + wire_length ls

pub wire_length-append :
    (ls ks : List Bytes) → wire_length (ls ++ ks) ≡ wire_length ls + wire_length ks
wire_length-append [] ks = omega arith
wire_length-append (l ∷ ls) ks = omega (arith, wire_length-append ls ks)

abbrev pub IsShort : Bytes → Type 0
IsShort l = length l ≤ 63

pub get_elem?-All :
    (P : ℕ → Type 0) (buf : Bytes) (i b : ℕ) → All P buf → get_elem? buf i ≡ some b → P b
get_elem?-All P [] i b h e = absurd (cc)
get_elem?-All P (x ∷ buf) zero b h e = subst P (cc) h.0
get_elem?-All P (x ∷ buf) (suc i) b h e = get_elem?-All P buf i b h.1 e

-- What the loop returns: an offset behind the start, and labels that a name can be made of.
abbrev pub LoopPost : Bytes → ℕ → List Bytes × ℕ → Type 0
LoopPost buf low r =
    (low ≤ r.1)
    × (r.1 ≤ length buf)
    × All IsLabel r.0
    × (wire_length r.0 ≤ 255)
    × (All IsU8 buf → All IsShort r.0)

pub IsLabel-of_piece : (l : Bytes) → 0 < length l → has_dot l ≡ false → IsLabel l
IsLabel-of_piece [] h nd = absurd (omega arith)
IsLabel-of_piece (c ∷ l) h nd = (λ e. cc, has_dot-NoDot (c ∷ l) nd)

short_piece : (n : ℕ) → n < 256 → top_bits n ≡ 0 → n ≤ 63
short_piece n h t = omega arith

-- The rounds left suffice: every round uses up a jump or two bytes of the name's length.
pub name_loop-Ensures :
    (fuel : ℕ) (buf : Bytes) (pos : ℕ) (after : Option ℕ) (jumps name_len : ℕ) (labels : List Bytes)
    (low : ℕ)
    → (20 - jumps) + (255 - name_len) < fuel
    → jumps ≤ 20
    → name_len ≤ 255
    → low ≤ resume after (pos + 1)
    → resume after 0 ≤ length buf
    → All IsLabel labels
    → wire_length labels ≡ name_len
    → (All IsU8 buf → All IsShort labels)
    → Ensures (LoopPost buf low) (name_loop fuel buf pos after jumps name_len labels)
unfolding name_loop
name_loop-Ensures zero buf pos after jumps name_len labels low enough j n l a hs w short =
    absurd (omega arith)
name_loop-Ensures (suc fuel) buf pos after jumps name_len labels low enough j n l a hs w short =
    Ensures-bind _ (read_piece-Fits buf pos) (elim [
      | stop ↦ λ fits. returns (l, ground arith, hs, omega arith, short)
      | pointer target ↦ λ fits. elim (Bool-cases (ltb 20 (jumps + 1))) [
        | inl e ↦ rw e (fails refl)
        | inr e ↦ rw e (
            name_loop-Ensures fuel buf target (some (resume after (pos + 2))) (jumps + 1) name_len
              labels low (ground arith) (ground arith) n (ground arith) (ground arith) hs w short)
      ]
      | label k ↦ λ fits. elim (Bool-cases (ltb 255 (name_len + length k + 1))) [
        | inl e ↦ rw e (fails refl)
        | inr e ↦ elim (Bool-cases (has_dot k)) [
          | inl f ↦ rw (e, f) (fails refl)
          | inr f ↦
              rw (e, f)
                (name_loop-Ensures fuel buf (pos + 1 + length k) after jumps
                  (name_len + length k + 1) (labels ++ (k ∷ [])) low (ground arith) j (ground arith)
                  (ground arith) a
                  (All-append IsLabel labels (k ∷ []) hs (IsLabel-of_piece k fits.2 f, tt))
                  (omega (arith, wire_length-append labels (k ∷ []), w))
                  (λ bytes. All-append IsShort labels (k ∷ []) (short bytes) (
                    short_piece (length k) (get_elem?-All IsU8 buf pos (length k) bytes fits.1)
                        fits.3,
                    tt,
                  )))
        ]
      ]
    ])

name_of-Reads :
    (buf : Bytes) (off : ℕ)
    → off ≤ length buf
    → Ensures (LoopPost buf (off + 1)) (name_loop name_fuel buf off none 0 0 [])
name_of-Reads buf off h =
    name_loop-Ensures name_fuel buf off none 0 0 [] (off + 1) (omega arith) (omega arith)
      (omega arith) (omega arith) (omega arith) tt refl (λ _. tt)

-- A name that was read: the root, or labels that can be told apart at the dots between them.
pub IsName : Bytes → Type 0
IsName name =
    (labels : List Bytes) × (name ≡ name_of labels)
    × All IsLabel labels
    × (wire_length labels ≤ 255)

-- readName, whatever bytes it is given: it ends, it never panics, it takes at least one byte of
-- the buffer, and what it returns is a name.
pub read_name-Reads : Reads 1 IsName read_name
unfolding read_name IsName
read_name-Reads = record {
  at = λ buf off h.
      Ensures-bind _ (name_of-Reads buf off h)
        λ r post. returns (post.0, post.1, (r.0, refl, post.2, post.3));
}
