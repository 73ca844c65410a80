-- ===== src/Denial/Safety.antt =====
-- TypeInBitmap of dnsmsg/dnssec.go and the searches of dnssec/nsec3.go: their outcomes.
use dns_resolver.Dnsmsg.{type_soa, type_ds, type_cname, type_ns}
use dns_resolver.Dnsmsg.Wire.Safety.{Any, index-Ensures, slice-Ensures}
use dns_resolver.Text.{Unicode, eqb, labels_of, join}
use dns_resolver.Denial.Hashed.{
  canonical_labels, Digest, hash_name, find_match, find_cover, encloser_loop, find_encloser,
  canonical_name, Nsec3Record, covers_hash, nsec3_hash_sha1, max_nsec3_iterations,
}
use dns_resolver.Denial.Claims.{denies_ds, denies_type, require}
use dns_resolver.Prelude.{
  Bool, Option, Bytes, ℕ, Ensures, List, length, Bool-cases, ◌<◌, suc, guard, Ensures-bind, returns,
  ltb, arith, no_denial, fails, not, ◌∷◌, ◌/◌, inl, true, some, ◌==◌, Result, inr, false, none,
  ◌||◌, ltb→lt, ◌≤◌, refl, ◌&&◌, [], ok, ◌+◌, ◌%◌, zero,
}
use dns_resolver.Dnsmsg.Dnssec.{window_bit, bitmap_loop, type_in_bitmap, Nsec3}

window_bit-Ensures : (bitmap : Bytes) (k : ℕ) → Ensures Any (window_bit bitmap k)
unfolding window_bit
window_bit-Ensures bitmap k = elim (Bool-cases (ltb (k / 8) (length bitmap))) [
  | inl inside ↦
      rw inside
        (Ensures-bind _ (index-Ensures bitmap (k / 8) (ltb→lt _ _ inside)) λ b _. returns tt)
  | inr beyond ↦ rw beyond (returns tt)
]

-- Every round takes the two bytes in front of a window, at least.
bitmap_loop-Ensures :
    (fuel : ℕ) (buf : Bytes) (t : ℕ) → length buf < fuel → Ensures Any (bitmap_loop fuel buf t)
unfolding bitmap_loop
bitmap_loop-Ensures zero buf t enough = absurd (omega arith)
bitmap_loop-Ensures (suc fuel) buf t enough = elim (Bool-cases (ltb (length buf) 2)) [
  | inl short ↦ rw short (returns tt)
  | inr long ↦
      let size : 2 ≤ length buf = ground arith in
      rw long (
        Ensures-bind _ (index-Ensures buf 0 (omega (arith, size))) λ w _.
          Ensures-bind _ (index-Ensures buf 1 (omega (arith, size))) λ n _.
            elim (Bool-cases (ltb (length buf) (2 + n))) [
              | inl cut ↦ rw cut (returns tt)
              | inr whole ↦
                  let fits : 2 + n ≤ length buf = ground arith in
                  rw whole (
                    Ensures-bind _ (slice-Ensures buf 2 (2 + n) (omega arith) fits) λ bitmap _.
                      Ensures-bind _ (slice-Ensures buf (2 + n) (length buf) fits (omega arith))
                        λ rest left. elim (Bool-cases (w == t / 256)) [
                          | inl this ↦ rw this (window_bit-Ensures bitmap (t % 256))
                          | inr other ↦
                              rw other (bitmap_loop-Ensures fuel rest t (omega (arith, left, fits)))
                        ])
            ])
]

-- TypeInBitmap of any bytes: the rounds are enough, and no index is out of range.
pub type_in_bitmap-Ensures : (buf : Bytes) (t : ℕ) → Ensures Any (type_in_bitmap buf t)
unfolding type_in_bitmap
type_in_bitmap-Ensures buf t = bitmap_loop-Ensures (suc (length buf)) buf t (omega arith)

pub denied : (b : Bool) → Ensures Any (guard b no_denial)
denied true = returns tt
denied false = fails refl

pub require-Ensures : {A : Type 0} (o : Option A) → Ensures Any (require o)
require-Ensures none = fails refl
require-Ensures (some a) = returns tt

pub denies_ds-Ensures : (bitmap : Bytes) → Ensures Any (denies_ds bitmap)
unfolding denies_ds
denies_ds-Ensures bitmap = Ensures-bind _ (type_in_bitmap-Ensures bitmap type_soa) λ soa _.
    Ensures-bind _ (denied (not soa))
      λ _ _. Ensures-bind _ (type_in_bitmap-Ensures bitmap type_ds) λ ds _. denied (not ds)

pub denies_type-Ensures : (bitmap : Bytes) (qtype : ℕ) → Ensures Any (denies_type bitmap qtype)
unfolding denies_type
denies_type-Ensures bitmap qtype = Ensures-bind _ (type_in_bitmap-Ensures bitmap qtype) λ listed _.
    Ensures-bind _ (denied (not listed)) λ _ _.
      Ensures-bind _ (type_in_bitmap-Ensures bitmap type_cname) λ cname _.
        Ensures-bind _ (denied (not cname)) λ _ _.
          Ensures-bind _ (type_in_bitmap-Ensures bitmap type_ns) λ ns _.
            Ensures-bind _ (type_in_bitmap-Ensures bitmap type_soa)
              λ soa _. denied (not ((not (qtype == type_ds) && ns) && not soa))

pub canonical_labels-Ensures : (ls : List Bytes) → Ensures Any (canonical_labels ls)
unfolding canonical_labels
canonical_labels-Ensures [] = returns tt
canonical_labels-Ensures (l ∷ ls) = elim (Bool-cases ((length l == 0) || ltb 63 (length l))) [
  | inl bad ↦ rw bad (fails refl)
  | inr good ↦ rw good (Ensures-bind _ (canonical_labels-Ensures ls) λ rest _. returns tt)
]

module _ ⦃u : Unicode⦄ ⦃g : Digest⦄ where
  hash_name-Ensures : (n : Nsec3) (name : Bytes) → Ensures Any (hash_name n name)
  unfolding hash_name canonical_name
  hash_name-Ensures n name = elim (Bool-cases (n.algorithm == nsec3_hash_sha1)) [
    | inr unknown ↦ rw unknown (fails refl)
    | inl sha ↦ elim (Bool-cases (ltb max_nsec3_iterations n.iterations)) [
      | inl many ↦ rw (sha, many) (fails refl)
      | inr few ↦
          rw (sha, few)
            (Ensures-bind _ (canonical_labels-Ensures (labels_of name)) λ wire _. returns tt)
    ]
  ]

  pub find_match-Ensures : (ns : List Nsec3Record) (name : Bytes) → Ensures Any (find_match ns name)
  unfolding find_match
  find_match-Ensures [] name = returns tt
  find_match-Ensures (n ∷ ns) name = Ensures-bind _ (hash_name-Ensures n.rr name) λ hash _.
      elim (Bool-cases (eqb hash n.owner)) [
        | inl hit ↦ rw hit (returns tt)
        | inr miss ↦ rw miss (find_match-Ensures ns name)
      ]

  pub find_cover-Ensures : (ns : List Nsec3Record) (name : Bytes) → Ensures Any (find_cover ns name)
  unfolding find_cover
  find_cover-Ensures [] name = returns tt
  find_cover-Ensures (n ∷ ns) name = Ensures-bind _ (hash_name-Ensures n.rr name) λ hash _.
      elim (Bool-cases (covers_hash n hash)) [
        | inl hit ↦ rw hit (returns tt)
        | inr miss ↦ rw miss (find_cover-Ensures ns name)
      ]

  encloser_loop-Ensures :
      (ns : List Nsec3Record) (k : ℕ) (ls : List Bytes) → Ensures Any (encloser_loop ns k ls)
  unfolding encloser_loop
  encloser_loop-Ensures ns k [] = fails refl
  encloser_loop-Ensures ns k (l ∷ ls) = elim (Bool-cases (ltb (length ls) k)) [
    | inl out ↦ rw out (fails refl)
    | inr inside ↦ rw inside (
        Ensures-bind _ (find_match-Ensures ns (join ls))
          λ match _. matched match (encloser_loop-Ensures ns k ls))
  ]
    where
      matched :
          {r : Result (Bytes × Bytes)} (o : Option Nsec3Record)
          → Ensures Any r
          → Ensures Any (elim o [ none ↦ r | some _ ↦ ok (join ls, join (l ∷ ls)) ])
      matched none h = h
      matched (some n) h = returns tt

  pub find_encloser-Ensures :
      (ns : List Nsec3Record) (name zone : Bytes) → Ensures Any (find_encloser ns name zone)
  unfolding find_encloser
  find_encloser-Ensures ns name zone =
      elim (Bool-cases (ltb (length (labels_of name)) (length (labels_of zone)))) [
        | inl outside ↦ rw outside (fails refl)
        | inr inside ↦
            rw inside (encloser_loop-Ensures ns (length (labels_of zone)) (labels_of name))
      ]
