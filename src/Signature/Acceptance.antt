-- ===== src/Signature/Acceptance.antt =====
-- What VerifyRRSet and VerifyDS of dnssec/verify.go accept.
use dns_resolver.Signature.Period.{validity_iff}
use dns_resolver.Signature.{signed_data}
use dns_resolver.Dnsmsg.Dnssec.{Rrsig, Dnskey, key_tag, is_zone_key}
use dns_resolver.Dnsmsg.{Rr}
use dns_resolver.Prelude.{
  List, ℕ, Bytes, ◌≡◌, ◌∷◌, true, ok, All, ◌↔◌, after_guard, arith, ◌%◌, after_step, [], ◌^◌,
  ==_iff, refl, false, then_guard, subst, then_step, sym,
}
use dns_resolver.Text.{Unicode, equal_name, is_subdomain_or_equal}
use dns_resolver.Signature.Checks.{
  Crypto, is_one_set, verify_rrset, serial_before, verify_signature,
}

-- Everything that is asked of a set, a signature, a key and the time.
module _ ⦃c : Crypto⦄ ⦃u : Unicode⦄ where
  pub record IsSigned (owner : Bytes) (rrset : List Rr) (sig : Rrsig) (key : Dnskey) (now : ℕ)
      : Type 0 where
    pub one_set : All (λ rr. (rr.type ≡ sig.type_covered) × (equal_name rr.name owner ≡ true)) rrset
    pub same_algorithm : sig.algorithm ≡ key.algorithm
    pub same_tag : sig.key_tag ≡ key_tag key
    pub zone_key : is_zone_key key ≡ true
    pub authoritative : is_subdomain_or_equal owner sig.signer_name ≡ true
    pub begun : serial_before (now % 2 ^ 32) sig.inception ≡ false
    pub not_over : serial_before sig.expiration (now % 2 ^ 32) ≡ false
    pub signed : Bytes
    pub signed_is : signed_data owner rrset sig ≡ ok signed
    pub verified : verify_signature sig.algorithm key.public_key signed sig.signature ≡ ok tt

  one_set-All :
      (type : ℕ) (owner : Bytes) (rrs : List Rr)
      → (is_one_set type owner rrs ≡ true)
        ↔ All (λ rr. (rr.type ≡ type) × (equal_name rr.name owner ≡ true)) rrs
  unfolding is_one_set
  one_set-All type owner [] = (λ h. tt, λ h. refl)
  one_set-All type owner (rr ∷ rrs) =
      let ih = one_set-All type owner rrs in (λ h. ground (arith, ih), λ h. ground (arith, ih))

  accepted :
      (rr : Rr) (rrs : List Rr) (sig : Rrsig) (key : Dnskey) (now : ℕ)
      → IsSigned rr.name (rr ∷ rrs) sig key now
      → verify_rrset (rr ∷ rrs) sig key now ≡ ok tt
  unfolding verify_rrset
  accepted rr rrs sig key now s =
      then_guard _ _ _ ((one_set-All sig.type_covered rr.name (rr ∷ rrs)).1 s.one_set) (
        then_guard _ _ _ ((==_iff _ _).1 s.same_algorithm) (
          then_guard _ _ _ ((==_iff _ _).1 s.same_tag) (
            then_guard _ _ _ s.zone_key (
              then_guard _ _ _ s.authoritative (
                then_step _ _ ((validity_iff sig now).1 (s.begun, s.not_over))
                  (then_step _ _ s.signed_is s.verified))))))

  -- VerifyRRSet accepts a set, a signature and a key at a time just when the records are one set of
  -- the type and the name that the signature covers, the signature has the key's algorithm and tag,
  -- the key is a zone key, the signer is the owner's zone or above it, the time is within the
  -- period of validity, and the signature verifies over the canonical bytes of the set.
  pub verify_rrset_iff :
      (rrset : List Rr) (sig : Rrsig) (key : Dnskey) (now : ℕ)
      → (verify_rrset rrset sig key now ≡ ok tt)
        ↔ ((rr : Rr) × (rest : List Rr) × (rrset ≡ rr ∷ rest) × IsSigned rr.name rrset sig key now)
  unfolding verify_rrset
  verify_rrset_iff [] sig key now = (λ h. absurd (cc), λ s. let (rr, rest, e, n) = s in absurd (cc))
  verify_rrset_iff (rr ∷ rrs) sig key now = (
    λ h.
        let (one, h1) = after_guard _ _ _ h in
        let (algorithm, h2) = after_guard _ _ _ h1 in
        let (tag, h3) = after_guard _ _ _ h2 in
        let (zone, h4) = after_guard _ _ _ h3 in
        let (above, h5) = after_guard _ _ _ h4 in
        let (_, valid, h6) = after_step _ _ h5 in
        let (signed, is, h7) = after_step _ _ h6 in
        let (begun, not_over) = (validity_iff sig now).0 valid in
        (
          rr,
          rrs,
          refl,
          record {
            one_set = (one_set-All sig.type_covered rr.name (rr ∷ rrs)).0 one;
            same_algorithm = (==_iff _ _).0 algorithm;
            same_tag = (==_iff _ _).0 tag;
            zone_key = zone;
            authoritative = above;
            begun = begun;
            not_over = not_over;
            signed = signed;
            signed_is = is;
            verified = h7;
          },
        ),
    λ r.
        let (first, rest, e, s) = r in
        let same : rr ≡ first = cc in
        accepted rr rrs sig key now
          (subst (λ x. IsSigned x.name (rr ∷ rrs) sig key now) (sym same) s),
  )
