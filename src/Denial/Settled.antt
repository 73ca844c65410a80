-- ===== src/Denial/Settled.antt =====
-- The errors of dnssec/denial.go and dnssec/nsec3.go that say that a form is not known.
use dns_resolver.Denial.Claims.{denies_ds, require}
use dns_resolver.Denial.Hashed.{canonical_labels}
use dns_resolver.Dnsmsg.Dnssec.{type_in_bitmap, bitmap_loop, window_bit}
use dns_resolver.Dnsmsg.Wire.{index, slice}
use dns_resolver.Dnsmsg.{type_ds, type_soa}
use dns_resolver.Prelude.{
  Bytes, List, Option, Result, ◌≡◌, ok, some, none, true, false, refl, [], ◌∷◌, ◌>>=◌, err, Error,
  Bool, ℕ, suc, length, ◌==◌, no_denial, unsupported_denial, if◌then◌else◌, guard, panic, leb, ltb,
  not, ◌||◌, unsupported_algorithm, get_elem?, ◌+◌, ◌/◌, ◌%◌, zero,
}

abbrev pub is_unknown_form : Error → Bool
is_unknown_form unsupported_denial = true
is_unknown_form unsupported_algorithm = true
is_unknown_form _ = false

-- A result that is an error for an unknown form only if `Q`.
pub data Settles (Q : Type 0) {A : Type 0} : Result A → Type 0 where
  returned : {a : A} → Settles Q (ok a)
  decided : {e : Error} → is_unknown_form e ≡ false → Settles Q (err e)
  foreign : {e : Error} → Q → Settles Q (err e)

module _ {Q : Type 0} where
  pub Settles-bind :
      {A B : Type 0} {m : Result A} (f : A → Result B)
      → Settles Q m
      → ((a : A) → Settles Q (f a))
      → Settles Q (m >>= f)
  Settles-bind f (returned {a}) k = k a
  Settles-bind f (decided h) k = decided h
  Settles-bind f (foreign q) k = foreign q

  pub Settles-if :
      {A : Type 0} (b : Bool) (x y : Result A)
      → Settles Q x
      → Settles Q y
      → Settles Q (if b then x else y)
  Settles-if true x y h k = h
  Settles-if false x y h k = k

  pub Settles-guard : (b : Bool) → Settles Q (guard b no_denial)
  Settles-guard true = returned
  Settles-guard false = decided refl

  pub Settles-require : {A : Type 0} (o : Option A) → Settles Q (require o)
  Settles-require none = decided refl
  Settles-require (some a) = returned

  index-Settles : (buf : Bytes) (i : ℕ) → Settles Q (index buf i)
  unfolding index
  index-Settles buf i = by_byte (get_elem? buf i)
    where
      by_byte : (o : Option ℕ) → Settles Q {A = ℕ} (elim o [ none ↦ err panic | some b ↦ ok b ])
      by_byte none = decided refl
      by_byte (some b) = returned

  slice-Settles : (buf : Bytes) (i j : ℕ) → Settles Q (slice buf i j)
  unfolding slice
  slice-Settles buf i j =
      Settles-if (leb i j) _ _ (Settles-if (leb j (length buf)) _ _ returned (decided refl))
        (decided refl)

  bitmap_loop-Settles : (fuel : ℕ) (buf : Bytes) (t : ℕ) → Settles Q (bitmap_loop fuel buf t)
  unfolding bitmap_loop window_bit
  bitmap_loop-Settles zero buf t = decided refl
  bitmap_loop-Settles (suc fuel) buf t = Settles-if (ltb (length buf) 2) _ _ returned (
      Settles-bind _ (index-Settles buf 0) λ window. Settles-bind _ (index-Settles buf 1) λ n.
        Settles-if (ltb (length buf) (2 + n)) _ _ returned (
          Settles-bind _ (slice-Settles buf 2 (2 + n)) λ bitmap.
            Settles-bind _ (slice-Settles buf (2 + n) (length buf)) λ rest.
              Settles-if (window == t / 256) _ _
                (Settles-if (ltb ((t % 256) / 8) (length bitmap)) _ _
                  (Settles-bind _ (index-Settles bitmap ((t % 256) / 8)) λ b. returned) returned)
                (bitmap_loop-Settles fuel rest t)))

  pub denies_ds-Settles : (bitmap : Bytes) → Settles Q (denies_ds bitmap)
  unfolding denies_ds type_in_bitmap
  denies_ds-Settles bitmap =
      Settles-bind _ (bitmap_loop-Settles (suc (length bitmap)) bitmap type_soa) λ soa.
        Settles-bind _ (Settles-guard (not soa)) λ _.
          Settles-bind _ (bitmap_loop-Settles (suc (length bitmap)) bitmap type_ds)
            λ ds. Settles-guard (not ds)

  pub canonical_labels-Settles : (ls : List Bytes) → Settles Q (canonical_labels ls)
  unfolding canonical_labels
  canonical_labels-Settles [] = returned
  canonical_labels-Settles (l ∷ ls) =
      Settles-if ((length l == 0) || ltb 63 (length l)) _ _ (decided refl)
        (Settles-bind _ (canonical_labels-Settles ls) λ rest. returned)

pub Settles-unknown :
    {Q A : Type 0} {r : Result A} (e : Error)
    → Settles Q r
    → r ≡ err e
    → is_unknown_form e ≡ true
    → Q
Settles-unknown e returned h k = absurd (cc)
Settles-unknown e (decided {e = d} f) h k = let same : d ≡ e = cc in absurd (cc)
Settles-unknown e (foreign q) h k = q
