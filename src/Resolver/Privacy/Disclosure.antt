-- ===== src/Resolver/Privacy/Disclosure.antt =====
-- minimizedQName and randomizeCase of resolver/privacy.go: what is left of a name.
use dns_resolver.Dnsmsg.Wire.{index}
use dns_resolver.Text.Split.{IsLabel, labels_of-join}
use dns_resolver.Resolver.Privacy.{
  random_bit, randomize_loop, randomize_case, minimized_qname, count_letters, is_ascii_letter,
}
use dns_resolver.Prelude.{
  Bytes, ℕ, map, List, ◌≡◌, ◌<◌, ◌+◌, Option, true, arith, ◌*◌, ◌≤◌, some, ◌++◌, length, ◌∷◌,
  Yields, ok, All, Bool, Bool-cases, get_elem?-is_some, if◌then◌else◌, ◌==◌, ap, ◌/◌, inl, ◌∙◌, ◌^◌,
  suc, inr, length-append, ◌%◌, Yields-bind, Option-cases, leb, [], refl, false, ◌-◌, drop-append,
}
use dns_resolver.Text.{lower_byte, upper_byte, labels_of}

lower-upper : (b : ℕ) → is_ascii_letter b ≡ true → lower_byte (upper_byte b) ≡ lower_byte b
unfolding lower_byte upper_byte is_ascii_letter
lower-upper b h = ground arith

lower-lower : (b : ℕ) → lower_byte (lower_byte b) ≡ lower_byte b
unfolding lower_byte
lower-lower b = ground arith

-- The same text but for the case of its ASCII letters.
abbrev pub SameLetters : Bytes → Bytes → Type 0
SameLetters name w = map lower_byte w ≡ map lower_byte name

random_bit-Yields :
    (bits : Bytes) (n : ℕ) → n < 8 * length bits → Yields {A = Bool} (λ _. Unit) (random_bit bits n)
unfolding random_bit
random_bit-Yields bits n h =
    let (b, e) = get_elem?-is_some bits (n / 8) (omega arith) in
    ((b / 2 ^ (n % 8)) % 2 == 1, rw (e, index) refl, tt)

randomize_loop-Yields :
    (bits : Bytes) (n : ℕ) (s : Bytes)
    → n + count_letters s ≤ 8 * length bits
    → Yields (SameLetters s) (randomize_loop bits n s)
unfolding randomize_loop count_letters
randomize_loop-Yields bits n [] h = ([], refl, refl)
randomize_loop-Yields bits n (c ∷ s) h = elim (Bool-cases (is_ascii_letter c)) [
  | inl letter ↦
      let room : n + suc (count_letters s) ≤ 8 * length bits = ground (arith, letter) in
      rw letter (
        Yields-bind _ (random_bit-Yields bits n (omega (arith, room))) λ up _.
          Yields-bind _ (randomize_loop-Yields bits (suc n) s (omega (arith, room))) λ rest same.
            ((if up then upper_byte c else lower_byte c) ∷ rest, refl, cons up rest letter same))
  | inr other ↦ rw other (
      Yields-bind _ (randomize_loop-Yields bits n s (ground (arith, other)))
        λ rest same. (c ∷ rest, refl, ap (◌∷◌ (lower_byte c)) same))
]
  where
    cons :
        (up : Bool) (rest : Bytes)
        → is_ascii_letter c ≡ true
        → SameLetters s rest
        → SameLetters (c ∷ s) ((if up then upper_byte c else lower_byte c) ∷ rest)
    cons true rest letter same = rw (lower-upper c letter, same) refl
    cons false rest letter same = rw (lower-lower c, same) refl

-- If the source of randomness fails or fills all the bytes it is given, randomizeCase returns a
-- name (it never reads a bit past the ones it drew) that is the given one up to the case of its
-- ASCII letters.
pub randomize_case-SameLetters :
    (random : ℕ → Option Bytes) (name : Bytes)
    → ((k : ℕ) (bits : Bytes) → random k ≡ some bits → length bits ≡ k)
    → (w : Bytes) × (randomize_case random name ≡ ok w) × SameLetters name w
unfolding randomize_case
randomize_case-SameLetters random name filled = elim (Bool-cases (count_letters name == 0)) [
  | inl z ↦ rw z (name, refl, refl)
  | inr nz ↦ elim (Option-cases (random ((count_letters name + 7) / 8))) [
    | inl failed ↦ rw (nz, failed) (name, refl, refl)
    | inr (bits, drawn) ↦
        let size = filled ((count_letters name + 7) / 8) bits drawn in
        rw (nz, drawn) (randomize_loop-Yields bits 0 name (omega (arith, size)))
  ]
]

-- For a name with one label more than the zone has behind the labels `unsaid`, the labels from
-- there on not empty and without dots: the name that is sent has just those labels, and none of
-- the unsaid ones.
pub minimized_qname-labels_of :
    (qname zone : Bytes) (unsaid : List Bytes) (l : Bytes) (ls : List Bytes)
    → labels_of qname ≡ unsaid ++ (l ∷ ls)
    → length ls ≡ length (labels_of zone)
    → All IsLabel (l ∷ ls)
    → labels_of (minimized_qname qname zone) ≡ l ∷ ls
unfolding minimized_qname
minimized_qname-labels_of qname zone unsaid l ls split size good =
    let counted = ap length split ∙ length-append unsaid (l ∷ ls) in
    let deeper : leb (length (labels_of qname)) (length (labels_of zone)) ≡ false =
      ground (arith, counted) in
    let skipped : length (labels_of qname) - length (labels_of zone) - 1 ≡ length unsaid =
      omega (arith, counted) in
    rw (deeper, skipped, split, drop-append unsaid (l ∷ ls)) (labels_of-join (l ∷ ls) good)
