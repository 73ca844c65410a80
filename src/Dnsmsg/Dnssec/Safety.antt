-- ===== src/Dnsmsg/Dnssec/Safety.antt =====
-- The parsers of dnsmsg/dnssec.go, for any RDATA.
use dns_resolver.Dnsmsg.Wire.{top_bits}
use dns_resolver.Dnsmsg.Wire.Safety.{
  Any, big_endian_16-Ensures, index-Ensures, slice-Ensures, big_endian_32-Ensures,
}
use dns_resolver.Dnsmsg.Dnssec.{
  parse_dnskey, parse_ds, uncompressed_loop, read_uncompressed_name, parse_rrsig, parse_nsec,
  parse_nsec3, slice_from,
}
use dns_resolver.Prelude.{
  Bytes, ℕ, ◌≤◌, Error, Ensures, List, length, Result, ◌≡◌, is_fault, short_rdata, ◌<◌,
  Ensures-bind, ◌-◌, false, ◌+◌, suc, returns, if◌then◌else◌, arith, [], ltb, Bool-cases, err, leb,
  inl, refl, fails, inr, ◌==◌, underrun, ◌++◌, ◌∷◌, zero,
}

slice_from-Ensures :
    (raw : Bytes) (i : ℕ)
    → i ≤ length raw
    → Ensures (λ l. length l ≡ length raw - i) (slice_from raw i)
slice_from-Ensures raw i h = slice-Ensures raw i (length raw) h (omega arith)

-- The test `len(raw) < n` in front of a parser.
at_least :
    {A : Type 0} {P : A → Type 0} (n k : ℕ) (e : Error) (r : Result A)
    → is_fault e ≡ false
    → (k ≤ n → Ensures P r)
    → Ensures P (if ltb n k then err e else r)
at_least n k e r f h = elim (Bool-cases (ltb n k)) [
  | inl short ↦ rw short (fails f)
  | inr long ↦ rw long (h (ground arith))
]

parse_dnskey-Ensures : (raw : Bytes) → Ensures Any (parse_dnskey raw)
unfolding parse_dnskey
parse_dnskey-Ensures raw = at_least (length raw) 4 short_rdata _ refl λ size.
    Ensures-bind _ (big_endian_16-Ensures raw 0 (omega arith)) λ flags _.
      Ensures-bind _ (index-Ensures raw 2 (omega arith)) λ protocol _.
        Ensures-bind _ (index-Ensures raw 3 (omega arith))
          λ algorithm _. Ensures-bind _ (slice_from-Ensures raw 4 size) λ key _. returns tt

parse_ds-Ensures : (raw : Bytes) → Ensures Any (parse_ds raw)
unfolding parse_ds
parse_ds-Ensures raw = at_least (length raw) 4 short_rdata _ refl λ size.
    Ensures-bind _ (big_endian_16-Ensures raw 0 (omega arith)) λ tag _.
      Ensures-bind _ (index-Ensures raw 2 (omega arith)) λ algorithm _.
        Ensures-bind _ (index-Ensures raw 3 (omega arith))
          λ digest_type _. Ensures-bind _ (slice_from-Ensures raw 4 size) λ digest _. returns tt

uncompressed_loop-Ensures :
    (fuel : ℕ) (buf : Bytes) (off : ℕ) (labels : List Bytes)
    → length buf < fuel + off
    → off ≤ length buf
    → Ensures (λ r. r.1 ≤ length buf) (uncompressed_loop fuel buf off labels)
unfolding uncompressed_loop
uncompressed_loop-Ensures zero buf off labels enough inside = absurd (omega arith)
uncompressed_loop-Ensures (suc fuel) buf off labels enough inside =
    elim (Bool-cases (leb (length buf) off)) [
      | inl e ↦ rw e (fails refl)
      | inr e ↦ rw e (
          Ensures-bind _ (index-Ensures buf off (ground arith)) λ n _. elim (Bool-cases (n == 0)) [
            | inl z ↦ rw z (returns (ground arith))
            | inr z ↦ elim (Bool-cases (top_bits n == 0)) [
              | inr f ↦ rw (z, f) (fails refl)
              | inl f ↦
                  rw (z, f)
                    (at_least (length buf) (off + 1 + n) underrun _ refl λ fits.
                      Ensures-bind _ (slice-Ensures buf (off + 1) (off + 1 + n) (omega arith) fits)
                        λ l _.
                          uncompressed_loop-Ensures fuel buf (off + 1 + n) (labels ++ (l ∷ []))
                            (omega arith) fits)
            ]
          ])
    ]

pub read_uncompressed_name-Ensures :
    (buf : Bytes) → Ensures (λ r. r.1 ≤ length buf) (read_uncompressed_name buf)
unfolding read_uncompressed_name
read_uncompressed_name-Ensures buf =
    Ensures-bind _
      (uncompressed_loop-Ensures (suc (length buf)) buf 0 [] (omega arith) (omega arith))
      λ r h. returns h

parse_rrsig-Ensures : (raw : Bytes) → Ensures Any (parse_rrsig raw)
unfolding parse_rrsig
parse_rrsig-Ensures raw = at_least (length raw) 18 short_rdata _ refl λ size.
    Ensures-bind _ (big_endian_16-Ensures raw 0 (omega arith)) λ covered _.
      Ensures-bind _ (index-Ensures raw 2 (omega arith)) λ algorithm _.
        Ensures-bind _ (index-Ensures raw 3 (omega arith)) λ labels _.
          Ensures-bind _ (big_endian_32-Ensures raw 4 (omega arith)) λ ttl _.
            Ensures-bind _ (big_endian_32-Ensures raw 8 (omega arith)) λ expiration _.
              Ensures-bind _ (big_endian_32-Ensures raw 12 (omega arith)) λ inception _.
                Ensures-bind _ (big_endian_16-Ensures raw 16 (omega arith)) λ tag _.
                  Ensures-bind _ (slice_from-Ensures raw 18 size) λ rest left.
                    Ensures-bind _ (read_uncompressed_name-Ensures rest) λ r h.
                      Ensures-bind _ (slice_from-Ensures raw (18 + r.1) (omega (arith, left, h)))
                        λ signature _. returns tt

parse_nsec-Ensures : (raw : Bytes) → Ensures Any (parse_nsec raw)
unfolding parse_nsec
parse_nsec-Ensures raw =
    Ensures-bind _ (read_uncompressed_name-Ensures raw)
      λ r h. Ensures-bind _ (slice_from-Ensures raw r.1 h) λ bitmap _. returns tt

parse_nsec3-Ensures : (raw : Bytes) → Ensures Any (parse_nsec3 raw)
unfolding parse_nsec3
parse_nsec3-Ensures raw = at_least (length raw) 5 short_rdata _ refl λ size.
    Ensures-bind _ (index-Ensures raw 0 (omega arith)) λ algorithm _.
      Ensures-bind _ (index-Ensures raw 1 (omega arith)) λ flags _.
        Ensures-bind _ (big_endian_16-Ensures raw 2 (omega arith)) λ iterations _.
          Ensures-bind _ (index-Ensures raw 4 (omega arith)) λ salt_len _.
            at_least (length raw) (5 + salt_len + 1) short_rdata _ refl λ salted.
              Ensures-bind _ (slice-Ensures raw 5 (5 + salt_len) (omega arith) (omega arith))
                λ salt _.
                  Ensures-bind _ (slice_from-Ensures raw (5 + salt_len) (omega arith)) λ rest left.
                    Ensures-bind _ (index-Ensures rest 0 (omega (arith, left))) λ hash_len _.
                      at_least (length rest) (1 + hash_len) short_rdata _ refl λ hashed.
                        Ensures-bind _ (slice-Ensures rest 1 (1 + hash_len) (omega arith) hashed)
                          λ next _.
                            Ensures-bind _ (slice_from-Ensures rest (1 + hash_len) hashed)
                              λ bitmap _. returns tt

-- Whatever the RDATA, none of the five parsers panics or fails to end: an error is one of their
-- own.
pub parsers_safe :
    (raw : Bytes)
    → Ensures Any (parse_dnskey raw)
      × Ensures Any (parse_ds raw)
      × Ensures Any (parse_rrsig raw)
      × Ensures Any (parse_nsec raw)
      × Ensures Any (parse_nsec3 raw)
parsers_safe raw = (
  parse_dnskey-Ensures raw,
  parse_ds-Ensures raw,
  parse_rrsig-Ensures raw,
  parse_nsec-Ensures raw,
  parse_nsec3-Ensures raw,
)
