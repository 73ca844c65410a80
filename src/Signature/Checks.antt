-- ===== src/Signature/Checks.antt =====
-- VerifyRRSet and VerifyDS of dnssec/verify.go. The cryptography is not read here: it is the
-- functions of the instance `Crypto`. A number of big.Int is a natural number.
use dns_resolver.Signature.{signed_data}
use dns_resolver.Dnsmsg.{Rr}
use dns_resolver.Denial.Hashed.{canonical_name}
use dns_resolver.Text.{Unicode, equal_name, is_subdomain_or_equal, eqb}
use dns_resolver.Dnsmsg.Wire.{index, slice}
use dns_resolver.Dnsmsg.Dnssec.{Rrsig, key_tag, is_zone_key, key_rdata, Dnskey, Ds}
use dns_resolver.Prelude.{
  Bytes, ℕ, Bool, ◌∷◌, Result, ◌*◌, not, ◌>>◌, ◌>>=◌, if◌then◌else◌, List, ◌+◌, ◌==◌, guard, ok,
  ltb, length, [], ◌&&◌, ◌%◌, err, ◌||◌, true, ◌^◌, bad_signature, unsupported_algorithm, bad_rrset,
  ◌-◌, leb, ◌++◌,
}

pub data Curve : Type 0 where
  p256 p384 : Curve

pub data Hash : Type 0 where
  crypto256 crypto384 crypto512 : Hash

-- sha256.Sum256, sha512.Sum384 and sha512.Sum512; rsa.VerifyPKCS1v15 of a modulus and the 64 bits of
-- an exponent; IsOnCurve and ecdsa.Verify; ed25519.Verify.
pub record Crypto : Type 0 where
  pub sum : Hash → Bytes → Bytes
  pub rsa_verifies : (modulus exponent : ℕ) → Hash → (digest sig : Bytes) → Bool
  pub on_curve : Curve → (x y : ℕ) → Bool
  pub ecdsa_verifies : Curve → (x y : ℕ) → (digest : Bytes) → (r s : ℕ) → Bool
  pub ed25519_verifies : (key message sig : Bytes) → Bool

-- big.Int.SetBytes
unfoldable pub number_from : ℕ → Bytes → ℕ
number_from acc [] = acc
number_from acc (b ∷ bs) = number_from (acc * 256 + b) bs

-- serialBefore, with the subtraction of uint32
unfoldable pub serial_before : ℕ → ℕ → Bool
serial_before a b = not (a == b) && ltb ((b + 2 ^ 32 - a) % 2 ^ 32) (2 ^ 31)

-- checkValidityPeriod, at this Unix time
unfoldable pub check_validity_period : Rrsig → ℕ → Result (Unit {0})
unfolding serial_before
check_validity_period sig now = do
  guard (not (serial_before (now % 2 ^ 32) sig.inception)) bad_signature
  guard (not (serial_before sig.expiration (now % 2 ^ 32))) bad_signature

-- (BitSize + 7) / 8
abbrev pub coordinate_size : Curve → ℕ
coordinate_size p256 = 32
coordinate_size p384 = 48

-- The exponent's length in an RSA key, and where the exponent stands.
unfoldable pub exponent_place : Bytes → Result (ℕ × ℕ)
unfolding index
exponent_place key = do
  first ← index key 0
  high ← index key 1
  low ← index key 2
  ok (if first == 0 then (high * 256 + low, 3) else (first, 1))

module _ ⦃c : Crypto⦄ where
  unfoldable pub verify_rsa : Bytes → Bytes → Bytes → Hash → Result (Unit {0})
  unfolding exponent_place slice number_from
  verify_rsa key message sig h = if ltb (length key) 3 then err bad_signature else do
    (exp_len, offset) ← exponent_place key
    if (exp_len == 0) || leb (length key) (offset + exp_len) then err bad_signature else do
      modulus ← slice key (offset + exp_len) (length key)
      exponent ← slice key offset (offset + exp_len)
      let n = number_from 0 modulus
      let e = number_from 0 exponent % 2 ^ 64
      guard (not ((e == 0) || (n == 0))) bad_signature
      guard (c.rsa_verifies n e h (c.sum h message) sig) bad_signature

  unfoldable pub verify_ecdsa : Curve → Bytes → Bytes → Bytes → Hash → Result (Unit {0})
  unfolding slice number_from
  verify_ecdsa curve key message sig h =
      let size = coordinate_size curve in
      if not (length key == 2 * size) || not (length sig == 2 * size) then err bad_signature else do
        x ← slice key 0 size
        y ← slice key size (length key)
        guard (c.on_curve curve (number_from 0 x) (number_from 0 y)) bad_signature
        r ← slice sig 0 size
        s ← slice sig size (length sig)
        guard
            (c.ecdsa_verifies curve (number_from 0 x) (number_from 0 y) (c.sum h message)
              (number_from 0 r) (number_from 0 s))
            bad_signature

  -- verifySignature
  unfoldable pub verify_signature : ℕ → Bytes → Bytes → Bytes → Result (Unit {0})
  unfolding verify_rsa verify_ecdsa
  verify_signature algorithm key message sig =
      if algorithm == 8
      then verify_rsa key message sig crypto256
      else if algorithm == 10
      then verify_rsa key message sig crypto512
      else if algorithm == 13
      then verify_ecdsa p256 key message sig crypto256
      else if algorithm == 14
      then verify_ecdsa p384 key message sig crypto384
      else if algorithm == 15
      then guard ((length key == 32) && c.ed25519_verifies key message sig) bad_signature
      else err unsupported_algorithm

  -- The digest of a DS, by its digest type.
  unfoldable pub ds_digest : ℕ → Bytes → Result Bytes
  ds_digest digest_type material =
      if digest_type == 2
      then ok (c.sum crypto256 material)
      else if digest_type == 4
      then ok (c.sum crypto384 material)
      else err unsupported_algorithm

  -- VerifyDS
  unfoldable pub verify_ds : Bytes → Dnskey → Ds → Result (Unit {0})
  unfolding key_tag canonical_name key_rdata ds_digest eqb
  verify_ds owner key ds = do
    guard ((ds.key_tag == key_tag key) && (ds.algorithm == key.algorithm)) bad_signature
    name ← canonical_name owner
    digest ← ds_digest ds.digest_type (name ++ key_rdata key)
    guard (eqb digest ds.digest) bad_signature

  module _ ⦃u : Unicode⦄ where
    -- The first loop of VerifyRRSet.
    unfoldable pub is_one_set : ℕ → Bytes → List Rr → Bool
    unfolding equal_name
    is_one_set type owner [] = true
    is_one_set type owner (rr ∷ rrs) =
        ((rr.type == type) && equal_name rr.name owner) && is_one_set type owner rrs

    -- VerifyRRSet, at this Unix time
    unfoldable pub verify_rrset : List Rr → Rrsig → Dnskey → ℕ → Result (Unit {0})
    unfolding is_one_set key_tag is_zone_key is_subdomain_or_equal check_validity_period signed_data
        verify_signature
    verify_rrset [] sig key now = err bad_rrset
    verify_rrset (rr ∷ rrs) sig key now = do
      guard (is_one_set sig.type_covered rr.name (rr ∷ rrs)) bad_rrset
      guard (sig.algorithm == key.algorithm) bad_signature
      guard (sig.key_tag == key_tag key) bad_signature
      guard (is_zone_key key) bad_signature
      guard (is_subdomain_or_equal rr.name sig.signer_name) bad_signature
      check_validity_period sig now
      signed ← signed_data rr.name (rr ∷ rrs) sig
      verify_signature sig.algorithm key.public_key signed sig.signature
