-- ===== src/Resolver/Validation/Attempts.antt =====
-- verifyRRSetWithKeys of resolver/validate.go: what stands behind a set that it accepts.
use dns_resolver.Dnsmsg.Dnssec.{Rrsig, Dnskey}
use dns_resolver.Dnsmsg.{Rr}
use dns_resolver.Prelude.{
  List, ℕ, Bool, Member, Error, suc, arith, ◌≤◌, ◌≡◌, ◌∷◌, ok, inr, Result-cases, inl, ◌<◌, ◌||◌,
  [], refl, Result, err, subst, bad_signature, false, true,
}
use dns_resolver.Resolver.Validation.{
  Upstream, try_keys, try_signatures, Attempt, accepted, unix, pending, is_unsupported, rrsigs_for,
  verify_with, settle,
}
use dns_resolver.Signature.Checks.{Crypto, verify_rrset}
use dns_resolver.Text.{Unicode}

module _ ⦃u : Unicode⦄ ⦃c : Crypto⦄ ⦃n : Upstream⦄ where
  -- One of the keys fits the signature at one of the readings from `tick` up to `next`.
  pub record FitsKey (rrset : List Rr) (sig : Rrsig) (keys : List Dnskey) (tick next : ℕ)
      : Type 0 where
    pub key : Dnskey
    pub time : ℕ
    pub known : Member key keys
    pub signed : verify_rrset rrset sig key (unix time) ≡ ok tt
    pub after : tick ≤ time
    pub before : time < next

  -- Where the loops over the keys, and over the signatures, may stand.
  data KeyOutcome (rrset : List Rr) (sig : Rrsig) (keys : List Dnskey) (tick : ℕ)
      : Attempt × ℕ → Type 0 where
    fits :
        {next : ℕ}
        → FitsKey rrset sig keys tick next
        → KeyOutcome rrset sig keys tick (accepted sig, next)
    waits :
        {f : Bool} {e : Error} {next : ℕ}
        → tick ≤ next
        → KeyOutcome rrset sig keys tick (pending f e, next)

  data SignatureOutcome (rrset : List Rr) (sigs : List Rrsig) (keys : List Dnskey) (tick : ℕ)
      : Attempt × ℕ → Type 0 where
    chosen :
        {s : Rrsig} {next : ℕ}
        → Member s sigs
        → FitsKey rrset s keys tick next
        → SignatureOutcome rrset sigs keys tick (accepted s, next)
    undecided :
        {f : Bool} {e : Error} {next : ℕ}
        → tick ≤ next
        → SignatureOutcome rrset sigs keys tick (pending f e, next)

  widened :
      {rrset : List Rr} {sig : Rrsig} {keys more : List Dnskey} {t tick next : ℕ}
      → tick ≤ t
      → ((k : Dnskey) → Member k keys → Member k more)
      → FitsKey rrset sig keys t next
      → FitsKey rrset sig more tick next
  widened le f h = record {
    key = h.key;
    time = h.time;
    known = f h.key h.known;
    signed = h.signed;
    after = omega (arith, le, h.after);
    before = h.before;
  }

  key_later :
      {rrset : List Rr} {sig : Rrsig} {keys : List Dnskey} {tick : ℕ} {p : Attempt × ℕ}
      (key : Dnskey)
      → KeyOutcome rrset sig keys (suc tick) p
      → KeyOutcome rrset sig (key ∷ keys) tick p
  key_later key (fits h) = fits (widened (omega arith) (λ k m. inr m) h)
  key_later key (waits le) = waits (omega (arith, le))

  try_keys_lem :
      (rrset : List Rr) (sig : Rrsig) (keys : List Dnskey) (f : Bool) (last : Error) (tick : ℕ)
      → KeyOutcome rrset sig keys tick (try_keys rrset sig keys f last tick)
  unfolding try_keys
  try_keys_lem rrset sig [] f last tick = waits (omega arith)
  try_keys_lem rrset sig (key ∷ keys) f last tick =
      elim (Result-cases (verify_rrset rrset sig key (unix tick))) [
        | inl (t, e) ↦
            rw (e, try_keys)
              (fits (record {
                key = key;
                time = tick;
                known = inl refl;
                signed = e;
                after = omega arith;
                before = omega arith;
              }))
        | inr (x, e) ↦
            rw (e, try_keys)
              (key_later key (try_keys_lem rrset sig keys (is_unsupported x || f) x (suc tick)))
      ]

  try_signatures_lem :
      (rrset : List Rr) (sigs : List Rrsig) (keys : List Dnskey) (f : Bool) (last : Error)
      (tick : ℕ)
      → SignatureOutcome rrset sigs keys tick (try_signatures rrset sigs keys f last tick)
  unfolding try_signatures
  try_signatures_lem rrset [] keys f last tick = undecided (omega arith)
  try_signatures_lem rrset (sig ∷ sigs) keys f last tick =
      by_keys (try_keys rrset sig keys f last tick) (try_keys_lem rrset sig keys f last tick)
        λ g e next. try_signatures_lem rrset sigs keys g e next
    where
      by_keys :
          (p : Attempt × ℕ)
          → KeyOutcome rrset sig keys tick p
          → ((g : Bool) (e : Error) (next : ℕ)
              → SignatureOutcome rrset sigs keys next (try_signatures rrset sigs keys g e next))
          → SignatureOutcome rrset (sig ∷ sigs) keys tick (elim p.0 [
            | accepted s ↦ (accepted s, p.1)
            | pending g e ↦ try_signatures rrset sigs keys g e p.1
          ])
      by_keys p (fits h) ih = chosen (inl refl) h
      by_keys p (waits {f = g} {e} {next} le) ih = later le (ih g e next)
        where
          later :
              {q : Attempt × ℕ} {t : ℕ}
              → tick ≤ t
              → SignatureOutcome rrset sigs keys t q
              → SignatureOutcome rrset (sig ∷ sigs) keys tick q
          later le (chosen m h) = chosen (inr m) (widened le (λ k i. i) h)
          later le (undecided h) = undecided (omega (arith, le, h))

  -- A signature of the section that covers the first record of the set, and that a key fits.
  pub record IsVerified (rrset section : List Rr) (keys : List Dnskey) (sig : Rrsig) (tick next : ℕ)
      : Type 0 where
    pub first :
        (rr : Rr) × (rest : List Rr) × (rrset ≡ rr ∷ rest)
        × Member sig (rrsigs_for section rr.name rr.type)
    pub fit : FitsKey rrset sig keys tick next

  -- Where verifyRRSetWithKeys may end.
  pub data VerifyOutcome (rrset section : List Rr) (keys : List Dnskey) (tick : ℕ)
      : Result Rrsig × ℕ → Type 0 where
    verified :
        {sig : Rrsig} {next : ℕ}
        → IsVerified rrset section keys sig tick next
        → VerifyOutcome rrset section keys tick (ok sig, next)
    refused :
        {e : Error} {next : ℕ} → tick ≤ next → VerifyOutcome rrset section keys tick (err e, next)

  pub verify_with-VerifyOutcome :
      (rrset section : List Rr) (keys : List Dnskey) (tick : ℕ)
      → VerifyOutcome rrset section keys tick (verify_with rrset section keys tick)
  unfolding verify_with settle
  verify_with-VerifyOutcome [] section keys tick = refused (omega arith)
  verify_with-VerifyOutcome (rr ∷ rrs) section [] tick = refused (omega arith)
  verify_with-VerifyOutcome (rr ∷ rrs) section (key ∷ keys) tick =
      by_sigs (rrsigs_for section rr.name rr.type) (λ s m. m)
    where
      settled :
          (sigs : List Rrsig) (p : Attempt × ℕ)
          → ((s : Rrsig) → Member s sigs → Member s (rrsigs_for section rr.name rr.type))
          → SignatureOutcome (rr ∷ rrs) sigs (key ∷ keys) tick p
          → VerifyOutcome (rr ∷ rrs) section (key ∷ keys) tick (settle p.0, p.1)
      settled sigs p here (chosen {s} m h) =
          verified (record { first = (rr, rrs, refl, here s m); fit = h })
      settled sigs p here (undecided {f = true} le) = refused le
      settled sigs p here (undecided {f = false} le) = refused le

      by_sigs :
          (sigs : List Rrsig)
          → ((s : Rrsig) → Member s sigs → Member s (rrsigs_for section rr.name rr.type))
          → VerifyOutcome (rr ∷ rrs) section (key ∷ keys) tick (elim sigs [
            | [] ↦ (err bad_signature, tick)
            | s ∷ ss ↦ (
              settle (try_signatures (rr ∷ rrs) (s ∷ ss) (key ∷ keys) false bad_signature tick).0,
              (try_signatures (rr ∷ rrs) (s ∷ ss) (key ∷ keys) false bad_signature tick).1,
            )
          ])
      by_sigs [] here = refused (omega arith)
      by_sigs (s ∷ ss) here =
          settled (s ∷ ss) _ here
            (try_signatures_lem (rr ∷ rrs) (s ∷ ss) (key ∷ keys) false bad_signature tick)

  -- A set that verifyRRSetWithKeys accepts is one for which VerifyRRSet accepts a signature of the
  -- section that covers its name and type and one of the keys, at a reading of the clock made for it.
  pub verify_with-IsVerified :
      (rrset section : List Rr) (keys : List Dnskey) (tick : ℕ) (sig : Rrsig)
      → (verify_with rrset section keys tick).0 ≡ ok sig
      → IsVerified rrset section keys sig tick (verify_with rrset section keys tick).1
  verify_with-IsVerified rrset section keys tick sig h =
      by_outcome (verify_with rrset section keys tick)
        (verify_with-VerifyOutcome rrset section keys tick) h
    where
      by_outcome :
          (p : Result Rrsig × ℕ)
          → VerifyOutcome rrset section keys tick p
          → p.0 ≡ ok sig
          → IsVerified rrset section keys sig tick p.1
      by_outcome p (verified {sig = s} {next} v) e =
          subst (λ x. IsVerified rrset section keys x tick next) (cc) v
      by_outcome p (refused le) e = absurd (cc)
