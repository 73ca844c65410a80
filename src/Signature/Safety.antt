-- ===== src/Signature/Safety.antt =====
-- dnssec/verify.go for any records, keys and signatures: the outcomes.
use dns_resolver.Denial.Safety.{canonical_labels-Ensures}
use dns_resolver.Dnsmsg.Wire.{top_bits}
use dns_resolver.Dnsmsg.Wire.Safety.{Any, slice-Ensures, index-Ensures}
use dns_resolver.Dnsmsg.Dnssec.{Rrsig, Dnskey, Ds, key_tag, is_zone_key}
use dns_resolver.Text.{Unicode, labels_of, join, is_subdomain_or_equal}
use dns_resolver.Dnsmsg.{
  Soa, Rr, type_a, type_aaaa, type_ns, type_cname, type_soa, type_mx, type_ptr,
}
use dns_resolver.Signature.Checks.{
  Crypto, verify_rsa, verify_ecdsa, verify_signature, verify_ds, exponent_place, Curve, ds_digest,
  verify_rrset, Hash, check_validity_period, coordinate_size, crypto256, crypto512, p256, p384,
  crypto384, serial_before, number_from, is_one_set,
}
use dns_resolver.Denial.Hashed.{canonical_name}
use dns_resolver.Signature.{
  lowercase_loop, lowercase_wire_name, canonical_soa, canonical_mx, canonical_rdata,
  canonical_rdatas, signed_data, signed_owner_name, address,
}
use dns_resolver.Prelude.{
  Bool, Option, Error, Result, ℕ, Bytes, List, is_fault, Ensures, length, ◌≡◌, ◌<◌, false,
  if◌then◌else◌, arith, suc, fails, ltb, ◌==◌, returns, Ensures-bind, err, true, guard, ◌∷◌, some,
  ◌≤◌, not, refl, none, [], ◌*◌, ◌||◌, drop, leb, length-drop, ◌+◌, zero, bad_signature, ◌>>◌, ◌-◌,
  ◌%◌, ◌&&◌, bad_rrset, ◌^◌,
}

-- A test in front of the work.
unless :
    {A : Type 0} (b : Bool) (e : Error) (r : Result A)
    → is_fault e ≡ false
    → (b ≡ false → Ensures Any r)
    → Ensures Any (if b then err e else r)
unless true e r f h = fails f
unless false e r f h = h refl

choose :
    {A : Type 0} (b : Bool) (r s : Result A)
    → Ensures Any r
    → Ensures Any s
    → Ensures Any (if b then r else s)
choose true r s p q = p
choose false r s p q = q

guard-Ensures : (b : Bool) (e : Error) → is_fault e ≡ false → Ensures Any (guard b e)
guard-Ensures true e f = returns tt
guard-Ensures false e f = fails f

-- A guard in front of the work.
checked :
    {A : Type 0} (b : Bool) (e : Error) (r : Result A)
    → is_fault e ≡ false
    → Ensures Any r
    → Ensures Any (guard b e >> r)
checked true e r f h = h
checked false e r f h = fails f

lowercase_loop-Ensures :
    (fuel : ℕ) (buf : Bytes) → length buf < fuel → Ensures Any (lowercase_loop fuel buf)
unfolding lowercase_loop
lowercase_loop-Ensures zero buf h = absurd (omega arith)
lowercase_loop-Ensures (suc fuel) [] h = fails refl
lowercase_loop-Ensures (suc fuel) (n ∷ rest) h = choose (n == 0) _ _ (returns tt) (
    unless (not (top_bits n == 0) || ltb (length rest) n) _ _ refl λ _.
      Ensures-bind _ (lowercase_loop-Ensures fuel (drop n rest) (omega (arith, length-drop n rest)))
        λ tail _. returns tt)

lowercase_wire_name-Ensures : (buf : Bytes) → Ensures Any (lowercase_wire_name buf)
unfolding lowercase_wire_name
lowercase_wire_name-Ensures buf = lowercase_loop-Ensures (suc (length buf)) buf (omega arith)

canonical_name-Ensures : (name : Bytes) → Ensures Any (canonical_name name)
unfolding canonical_name
canonical_name-Ensures name = canonical_labels-Ensures (labels_of name)

address-Ensures : (o : Option Bytes) → Ensures Any (address o)
address-Ensures none = fails refl
address-Ensures (some ip) = returns tt

canonical_soa-Ensures : (o : Option Soa) → Ensures Any (canonical_soa o)
unfolding canonical_soa
canonical_soa-Ensures none = fails refl
canonical_soa-Ensures (some soa) =
    Ensures-bind _ (canonical_name-Ensures soa.mname)
      λ m _. Ensures-bind _ (canonical_name-Ensures soa.rname) λ r _. returns tt

canonical_mx-Ensures : (raw : Bytes) → Ensures Any (canonical_mx raw)
unfolding canonical_mx
canonical_mx-Ensures raw = unless (ltb (length raw) 2) _ _ refl λ long.
    let size : 2 ≤ length raw = ground arith in
    Ensures-bind _ (slice-Ensures raw 2 (length raw) size (omega arith)) λ rest _.
      Ensures-bind _ (lowercase_wire_name-Ensures rest)
        λ name _. Ensures-bind _ (slice-Ensures raw 0 2 (omega arith) size) λ p _. returns tt

canonical_rdata-Ensures : (rr : Rr) → Ensures Any (canonical_rdata rr)
unfolding canonical_rdata
canonical_rdata-Ensures rr = choose (rr.type == type_a) _ _ (address-Ensures _) (
    choose (rr.type == type_aaaa) _ _ (address-Ensures _) (
      choose (rr.type == type_ns) _ _ (canonical_name-Ensures rr.ns) (
        choose (rr.type == type_cname) _ _ (canonical_name-Ensures rr.cname) (
          choose (rr.type == type_soa) _ _ (canonical_soa-Ensures rr.soa) (
            choose (rr.type == type_mx) _ _ (canonical_mx-Ensures rr.raw) (
              choose (rr.type == type_ptr) _ _ (lowercase_wire_name-Ensures rr.raw)
                (returns {a = rr.raw} tt)))))))

canonical_rdatas-Ensures : (rrs : List Rr) → Ensures Any (canonical_rdatas rrs)
unfolding canonical_rdatas
canonical_rdatas-Ensures [] = returns tt
canonical_rdatas-Ensures (rr ∷ rrs) =
    Ensures-bind _ (canonical_rdata-Ensures rr)
      λ x _. Ensures-bind _ (canonical_rdatas-Ensures rrs) λ xs _. returns tt

signed_data-Ensures :
    (owner : Bytes) (rrs : List Rr) (sig : Rrsig) → Ensures Any (signed_data owner rrs sig)
unfolding signed_data signed_owner_name
signed_data-Ensures owner rrs sig = Ensures-bind _ (canonical_name-Ensures sig.signer_name) λ s _.
    Ensures-bind _
      (unless (ltb (length (labels_of owner)) sig.labels) _ _ refl λ _. canonical_name-Ensures (
        if ltb sig.labels (length (labels_of owner))
        then join ((b'*' ∷ []) ∷ drop (length (labels_of owner) - sig.labels) (labels_of owner))
        else owner))
      λ o _. Ensures-bind _ (canonical_rdatas-Ensures rrs) λ xs _. returns tt

check_validity_period-Ensures :
    (sig : Rrsig) (now : ℕ) → Ensures Any (check_validity_period sig now)
unfolding check_validity_period
check_validity_period-Ensures sig now =
    checked (not (serial_before (now % 2 ^ 32) sig.inception)) bad_signature _ refl
      (guard-Ensures _ bad_signature refl)

module _ ⦃c : Crypto⦄ where
  verify_rsa-Ensures :
      (key message sig : Bytes) (h : Hash) → Ensures Any (verify_rsa key message sig h)
  unfolding verify_rsa exponent_place
  verify_rsa-Ensures key message sig h = unless (ltb (length key) 3) _ _ refl λ long.
      let size : 3 ≤ length key = ground arith in
      Ensures-bind {P = Any} _
        (Ensures-bind _ (index-Ensures key 0 (omega (arith, size))) λ first _.
          Ensures-bind _ (index-Ensures key 1 (omega (arith, size))) λ high _.
            Ensures-bind _ (index-Ensures key 2 (omega (arith, size))) λ low _. returns tt)
        λ place _. unless ((place.0 == 0) || leb (length key) (place.1 + place.0)) _ _ refl λ fits.
          let inside : place.1 + place.0 ≤ length key = ground arith in
          Ensures-bind _ (slice-Ensures key (place.1 + place.0) (length key) inside (omega arith))
            λ modulus _.
              Ensures-bind _ (slice-Ensures key place.1 (place.1 + place.0) (omega arith) inside)
                λ exponent _.
                  let n = number_from 0 modulus in
                  let e = number_from 0 exponent % 2 ^ 64 in
                  checked (not ((e == 0) || (n == 0))) bad_signature _ refl
                    (guard-Ensures _ bad_signature refl)

  verify_ecdsa-Ensures :
      (curve : Curve) (key message sig : Bytes) (h : Hash)
      → Ensures Any (verify_ecdsa curve key message sig h)
  unfolding verify_ecdsa
  verify_ecdsa-Ensures curve key message sig h =
      let size = coordinate_size curve in
      unless (not (length key == 2 * size) || not (length sig == 2 * size)) _ _ refl λ fits.
        let k : size ≤ length key = ground arith in
        let s : size ≤ length sig = ground arith in
        Ensures-bind _ (slice-Ensures key 0 size (omega arith) k) λ x _.
          Ensures-bind _ (slice-Ensures key size (length key) k (omega arith)) λ y _.
            checked _ _ _ refl (
              Ensures-bind _ (slice-Ensures sig 0 size (omega arith) s) λ p _.
                Ensures-bind _ (slice-Ensures sig size (length sig) s (omega arith))
                  λ q _. guard-Ensures _ _ refl)

  verify_signature-Ensures :
      (algorithm : ℕ) (key message sig : Bytes)
      → Ensures Any (verify_signature algorithm key message sig)
  unfolding verify_signature
  verify_signature-Ensures algorithm key message sig =
      choose (algorithm == 8) _ _ (verify_rsa-Ensures key message sig crypto256) (
        choose (algorithm == 10) _ _ (verify_rsa-Ensures key message sig crypto512) (
          choose (algorithm == 13) _ _ (verify_ecdsa-Ensures p256 key message sig crypto256) (
            choose (algorithm == 14) _ _ (verify_ecdsa-Ensures p384 key message sig crypto384)
              (choose (algorithm == 15) _ _ (guard-Ensures _ _ refl) (fails refl)))))

  verify_ds-Ensures :
      (owner : Bytes) (key : Dnskey) (ds : Ds) → Ensures Any (verify_ds owner key ds)
  unfolding verify_ds ds_digest
  verify_ds-Ensures owner key ds =
      checked ((ds.key_tag == key_tag key) && (ds.algorithm == key.algorithm)) bad_signature _ refl
        (Ensures-bind _ (canonical_name-Ensures owner) λ name _.
          Ensures-bind {P = Any} _
            (choose (ds.digest_type == 2) _ _ (returns tt)
              (choose (ds.digest_type == 4) _ _ (returns tt) (fails refl)))
            λ digest _. guard-Ensures _ _ refl)

  module _ ⦃u : Unicode⦄ where
    verify_rrset-Ensures :
        (rrset : List Rr) (sig : Rrsig) (key : Dnskey) (now : ℕ)
        → Ensures Any (verify_rrset rrset sig key now)
    unfolding verify_rrset
    verify_rrset-Ensures [] sig key now = fails refl
    verify_rrset-Ensures (rr ∷ rrs) sig key now =
        checked (is_one_set sig.type_covered rr.name (rr ∷ rrs)) bad_rrset _ refl (
          checked (sig.algorithm == key.algorithm) bad_signature _ refl (
            checked (sig.key_tag == key_tag key) bad_signature _ refl (
              checked (is_zone_key key) bad_signature _ refl (
                checked (is_subdomain_or_equal rr.name sig.signer_name) bad_signature _ refl (
                  Ensures-bind _ (check_validity_period-Ensures sig now) λ _ _.
                    Ensures-bind _ (signed_data-Ensures rr.name (rr ∷ rrs) sig) λ signed _.
                      verify_signature-Ensures sig.algorithm key.public_key signed
                        sig.signature)))))

    -- Whatever the records, the signature, the key, the DS and the time, neither VerifyRRSet nor
    -- VerifyDS panics or fails to end: they accept, or refuse with an error of their own.
    pub verification_safe :
        (rrset : List Rr) (sig : Rrsig) (key : Dnskey) (now : ℕ) (owner : Bytes) (ds : Ds)
        → Ensures Any (verify_rrset rrset sig key now) × Ensures Any (verify_ds owner key ds)
    verification_safe rrset sig key now owner ds =
        (verify_rrset-Ensures rrset sig key now, verify_ds-Ensures owner key ds)
