-- ===== src/Signature/Period.antt =====
-- serialBefore and checkValidityPeriod of dnssec/verify.go on times that do not fit in 32 bits.
use dns_resolver.Dnsmsg.Dnssec.{Rrsig}
use dns_resolver.Signature.Checks.{serial_before, check_validity_period}
use dns_resolver.Prelude.{
  ℕ, ◌<◌, ◌+◌, ◌≡◌, ◌%◌, true, ◌↔◌, Bool-cases, ◌==◌, inl, arith, inr, ok, ◌^◌, false, ◌≤◌, Bool,
  refl, guard, not, bad_signature, ◌>>◌,
}

-- Half a turn of the 32-bit clock.
abbrev pub half_turn : ℕ
half_turn = 2147483648

before_iff :
    (x y a b : ℕ)
    → x < y + half_turn
    → y < x + half_turn
    → a ≡ x % 4294967296
    → b ≡ y % 4294967296
    → (serial_before a b ≡ true) ↔ (x < y)
unfolding serial_before
before_iff x y a b near far ea eb = elim (Bool-cases (a == b)) [
  | inl same ↦ (λ h. absurd (ground arith), λ h. absurd (ground arith))
  | inr apart ↦ (λ h. ground arith, λ h. ground arith)
]

pub validity_iff :
    (sig : Rrsig) (now : ℕ)
    → (check_validity_period sig now ≡ ok tt) ↔ (
        (serial_before (now % 2 ^ 32) sig.inception ≡ false)
        × (serial_before sig.expiration (now % 2 ^ 32) ≡ false))
unfolding check_validity_period
validity_iff sig now =
    by_tests (serial_before (now % 2 ^ 32) sig.inception)
      (serial_before sig.expiration (now % 2 ^ 32))
  where
    by_tests :
        (b d : Bool)
        → (guard (not b) bad_signature >> guard (not d) bad_signature ≡ ok tt)
          ↔ ((b ≡ false) × (d ≡ false))
    by_tests true d = (λ h. absurd (cc), λ h. absurd (cc))
    by_tests false true = (λ h. absurd (cc), λ h. absurd (cc))
    by_tests false false = (λ h. (refl, refl), λ h. refl)

-- The period of validity is read with the clock of 2106 and after: for a time within 2^31 seconds of
-- the two ends, the RRSIG, which keeps 32 bits of each, is valid just when the time is not before
-- the one and not after the other.
pub check_validity_period_iff :
    (sig : Rrsig) (now start finish : ℕ)
    → sig.inception ≡ start % 2 ^ 32
    → sig.expiration ≡ finish % 2 ^ 32
    → now < start + half_turn
    → start < now + half_turn
    → now < finish + half_turn
    → finish < now + half_turn
    → (check_validity_period sig now ≡ ok tt) ↔ ((start ≤ now) × (now ≤ finish))
check_validity_period_iff sig now start finish es ef a b c d =
    let early = before_iff now start (now % 2 ^ 32) sig.inception a b refl es in
    let late = before_iff finish now sig.expiration (now % 2 ^ 32) d c ef refl in
    let (to, from) = validity_iff sig now in
    (
      λ h. let (p, q) = to h in (ground (arith, early), ground (arith, late)),
      λ h. let (p, q) = h in from (ground (arith, early), ground (arith, late)),
    )
