-- ===== src/Tests/Signatures.antt =====
-- A key, a set of records and their signature, with a toy in the place of the cryptography: a digest
-- is the front of what it is made of, and so is a signature.
use dns_resolver.Signature.Coverage.{signed_data_iff}
use dns_resolver.Signature.Period.{check_validity_period_iff}
use dns_resolver.Signature.Safety.{verification_safe}
use dns_resolver.Signature.Acceptance.{IsSigned, verify_rrset_iff}
use dns_resolver.Dnsmsg.Wire.Safety.{Any}
use dns_resolver.Dnsmsg.{Rr, type_a, zero_rr}
use dns_resolver.Signature.{canonical_rdatas, signature_fields, signed_data, signed_records}
use dns_resolver.Signature.Checks.{verify_rrset, check_validity_period, Crypto, verify_ds}
use dns_resolver.Dnsmsg.Dnssec.{Dnskey, Rrsig}
use dns_resolver.Prelude.{
  Bytes, List, Ensures, ◌∷◌, ◌≡◌, take, [], ok, err, ◌↔◌, false, refl, bad_signature, ◌≤◌, ◌++◌,
  Member, true, arith,
}
use dns_resolver.Text.{eqb, Unicode, dot}

instance unfoldable pub front : Crypto
unfolding eqb
front = record {
  sum = λ h m. take 4 m;
  rsa_verifies = λ m e h d s. false;
  on_curve = λ k x y. true;
  ecdsa_verifies = λ k x y d r s. false;
  ed25519_verifies = λ k m s. eqb s (take 3 m);
}

instance unfoldable pub ascii_only : Unicode
ascii_only = record { lower = λ s. s; upper = λ s. s; equal_fold = λ s t. eqb s t }

abbrev pub zeros : Bytes
zeros =
    0 ∷ 0 ∷ 0 ∷ 0 ∷ 0 ∷ 0 ∷ 0 ∷ 0 ∷ 0 ∷ 0 ∷ 0 ∷ 0 ∷ 0 ∷ 0 ∷ 0 ∷ 0 ∷ 0 ∷ 0 ∷ 0 ∷ 0 ∷ 0 ∷ 0 ∷ 0 ∷ 0
    ∷ 0 ∷ 0 ∷ 0 ∷ 0 ∷ 0 ∷ 0 ∷ 0 ∷ 0 ∷ []

abbrev pub zone_key : Dnskey
zone_key = record { flags = 256; protocol = 3; algorithm = 15; public_key = zeros }

abbrev at_z : Bytes
at_z = b'z' ∷ []

abbrev host : Bytes → Rr
host ip = record zero_rr { name = at_z; type = type_a; class = 1; a = ip }

abbrev two_hosts : List Rr
two_hosts = host (10 ∷ 0 ∷ 0 ∷ 2 ∷ []) ∷ host (10 ∷ 0 ∷ 0 ∷ 1 ∷ []) ∷ []

abbrev three_hosts : List Rr
three_hosts = host (10 ∷ 0 ∷ 0 ∷ 1 ∷ []) ∷ two_hosts

abbrev signature : Rrsig
signature = record {
  type_covered = type_a;
  algorithm = 15;
  labels = 1;
  original_ttl = 300;
  expiration = 100;
  inception = 0;
  key_tag = 1039;
  signer_name = dot ∷ [];
  signature = 0 ∷ 1 ∷ 15 ∷ [];
}

accepted : verify_rrset two_hosts signature zone_key 50 ≡ ok tt
unfolding verify_rrset front
accepted = refl

outdated : verify_rrset two_hosts signature zone_key 101 ≡ err bad_signature
unfolding verify_rrset front
outdated = refl

verify_rrset_iff_example : (verify_rrset two_hosts signature zone_key 50 ≡ ok tt) ↔ (
    (rr : Rr) × (rest : List Rr) × (two_hosts ≡ rr ∷ rest)
    × IsSigned rr.name two_hosts signature zone_key 50)
verify_rrset_iff_example = verify_rrset_iff two_hosts signature zone_key 50

verification_safe_example :
    Ensures Any (verify_rrset three_hosts signature zone_key 50)
    × Ensures Any (
        verify_ds at_z zone_key
          (record { key_tag = 1039; algorithm = 15; digest_type = 9; digest = [] }))
verification_safe_example = verification_safe three_hosts signature zone_key 50 at_z _

check_validity_period_iff_example :
    (check_validity_period signature 4294967300 ≡ ok tt)
    ↔ ((4294967296 ≤ 4294967300) × (4294967300 ≤ 4294967396))
check_validity_period_iff_example =
    check_validity_period_iff signature 4294967300 4294967296 4294967396 refl refl (omega arith)
      (omega arith) (omega arith) (omega arith)

abbrev addresses : List Bytes
addresses = (10 ∷ 0 ∷ 0 ∷ 2 ∷ []) ∷ (10 ∷ 0 ∷ 0 ∷ 1 ∷ []) ∷ []

abbrev signed_bytes : Bytes
signed_bytes =
    signature_fields signature (0 ∷ [])
    ++ signed_records (1 ∷ b'z' ∷ 0 ∷ []) signature
        ((10 ∷ 0 ∷ 0 ∷ 1 ∷ []) ∷ (10 ∷ 0 ∷ 0 ∷ 2 ∷ []) ∷ [])

signed_data_iff_example :
    (signed_bytes ≡ signed_bytes)
    ↔ ((z : Bytes) → Member z addresses ↔ Member z ((10 ∷ 0 ∷ 0 ∷ 1 ∷ []) ∷ addresses))
unfolding canonical_rdatas signed_data
signed_data_iff_example =
    signed_data_iff at_z signature two_hosts three_hosts addresses
      ((10 ∷ 0 ∷ 0 ∷ 1 ∷ []) ∷ addresses) signed_bytes signed_bytes refl refl
      (omega arith, (omega arith, tt)) (omega arith, (omega arith, (omega arith, tt))) refl refl
