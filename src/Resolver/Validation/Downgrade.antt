-- ===== src/Resolver/Validation/Downgrade.antt =====
-- enterZone of resolver/validate.go: when the zones below a cut go unvalidated.
use dns_resolver.Denial.Undecided.{ForeignHash, prove_no_ds-ForeignHash}
use dns_resolver.Denial.NoDs.{DeniesDs, prove_no_ds-DeniesDs}
use dns_resolver.Resolver.Validation.Denials.{
  HoldsOrUndecided, IsSigned, judge-HoldsOrUndecided, verified_nsecs-IsSigned,
}
use dns_resolver.Denial.Claims.{prove_no_ds}
use dns_resolver.Dnsmsg.Dnssec.{Dnskey, Rrsig}
use dns_resolver.Dnsmsg.{Rr, type_ds}
use dns_resolver.Resolver.Validation.Chain.{
  child_state, enter_with, enter_zone, Settings, World, zone_keys, ds_of, wait,
}
use dns_resolver.Denial.Hashed.{Digest}
use dns_resolver.Signature.Checks.{Crypto}
use dns_resolver.Text.{Unicode}
use dns_resolver.Resolver.Validation.{
  judge, Upstream, SecState, check_denial, records_of_type, verified_nsecs, insecure, verify_with,
}
use dns_resolver.Prelude.{
  Result, ◌≡◌, Bool, ok, ◌⊎◌, inl, err, List, true, inr, arith, Bytes, false, refl, [], ◌∷◌, not, ℕ,
  ◌||◌, bogus, Result-cases, if◌then◌else◌, sym, subst, All, unsupported_denial,
  unsupported_algorithm,
}
use dns_resolver.Resolver.Validation.Attempts.{
  VerifyOutcome, IsVerified, verified, refused, verify_with-VerifyOutcome,
}

module _ ⦃u : Unicode⦄ ⦃c : Crypto⦄ ⦃n : Upstream⦄ ⦃g : Digest⦄ where
  -- The records deny a DS at the zone, or one of them is in a form that is not known.
  abbrev pub DeniesOrUnknown : List Rr → Bytes → Type 0
  DeniesOrUnknown nsecs zone = DeniesDs nsecs zone ⊎ ForeignHash nsecs

  -- No DS records, and denial records of the section for which that is so, each in a set that is
  -- signed with a key of the parent.
  abbrev pub DeniedDs : SecState → List Rr → Bytes → Type 0
  DeniedDs parent section zone =
      (records_of_type section type_ds zone ≡ [])
      × ((nsecs : List Rr) × All (IsSigned section parent.keys) nsecs × DeniesOrUnknown nsecs zone)

  holds-DeniesOrUnknown :
      (nsecs : List Rr) (zone : Bytes)
      → HoldsOrUndecided (prove_no_ds nsecs zone)
      → DeniesOrUnknown nsecs zone
  holds-DeniesOrUnknown nsecs zone (inl holds) = inl (prove_no_ds-DeniesDs nsecs zone holds)
  holds-DeniesOrUnknown nsecs zone (inr (inl denial)) =
      inr (prove_no_ds-ForeignHash nsecs zone unsupported_denial denial refl)
  holds-DeniesOrUnknown nsecs zone (inr (inr algorithm)) =
      inr (prove_no_ds-ForeignHash nsecs zone unsupported_algorithm algorithm refl)

  -- DS records that are signed, for which zoneKeys returns no keys.
  abbrev pub UnknownKeys : SecState → List Rr → Bytes → List Bytes → World → Type 0
  UnknownKeys parent section zone servers w =
      (sig : Rrsig) × (next : ℕ) × IsVerified (records_of_type section type_ds zone) section
        parent.keys sig w.tick next
      × ((zone_keys zone servers (ds_of (records_of_type section type_ds zone)) (wait w next)).0
          ≡ ok [])

  child_state-unknown :
      (keys : Result (List Dnskey)) (st : SecState)
      → child_state keys ≡ ok st
      → st.secure ≡ false
      → keys ≡ ok []
  unfolding child_state
  child_state-unknown (err e) st h f = absurd (cc)
  child_state-unknown (ok []) st h f = refl
  child_state-unknown (ok (key ∷ keys)) st h f = absurd (ground (arith, f))

  enter_with-downgrade :
      (r : Settings) (parent : SecState) (section : List Rr) (zone : Bytes) (servers : List Bytes)
      (dss : List Rr) (w : World) (st : SecState)
      → not r.validate || not parent.secure ≡ false
      → dss ≡ records_of_type section type_ds zone
      → (enter_with r parent section zone servers dss w).0 ≡ ok st
      → st.secure ≡ false
      → DeniedDs parent section zone ⊎ UnknownKeys parent section zone servers w
  unfolding enter_with check_denial
  enter_with-downgrade r parent section zone servers [] w st on e h f = inl (
    sym e,
    (
      (verified_nsecs section parent.keys w.tick).0,
      verified_nsecs-IsSigned section parent.keys w.tick,
      holds-DeniesOrUnknown (verified_nsecs section parent.keys w.tick).0 zone
          (by_judge (not r.validate || not parent.secure) on h),
    ),
  )
    where
      judged :
          (v : Result (Unit {0}))
          → elim (judge v) [ err x ↦ err bogus | ok b ↦ ok insecure ] ≡ ok st
          → HoldsOrUndecided v
      judged v k = elim (Result-cases (judge v)) [
        | inl (b, q) ↦ judge-HoldsOrUndecided v b q
        | inr (x, q) ↦ absurd (ground (arith, q))
      ]

      by_judge :
          (b : Bool)
          → b ≡ false
          → (let d : Result Bool × ℕ = if b then (ok false, w.tick) else (
            judge (prove_no_ds (verified_nsecs section parent.keys w.tick).0 zone),
            (verified_nsecs section parent.keys w.tick).1,
          ) in
              elim d.0 [ err x ↦ err bogus | ok p ↦ ok insecure ] ≡ ok st)
          → HoldsOrUndecided (prove_no_ds (verified_nsecs section parent.keys w.tick).0 zone)
      by_judge true q k = absurd (cc)
      by_judge false q k = judged (prove_no_ds (verified_nsecs section parent.keys w.tick).0 zone) k
  enter_with-downgrade r parent section zone servers (ds ∷ dss) w st on e h f = inr (
      by_set (verify_with (ds ∷ dss) section parent.keys w.tick)
        (verify_with-VerifyOutcome (ds ∷ dss) section parent.keys w.tick) h)
    where
      by_set :
          (p : Result Rrsig × ℕ)
          → VerifyOutcome (ds ∷ dss) section parent.keys w.tick p
          → (let q : Result SecState × World = elim p.0 [
            | err x ↦ (err bogus, wait w p.1)
            | ok sig ↦ (
              child_state (zone_keys zone servers (ds_of (ds ∷ dss)) (wait w p.1)).0,
              (zone_keys zone servers (ds_of (ds ∷ dss)) (wait w p.1)).1,
            )
          ] in
              q.0 ≡ ok st)
          → UnknownKeys parent section zone servers w
      by_set p (refused le) k = absurd (cc)
      by_set p (verified {sig} {next} v) k = (
        sig,
        next,
        subst (λ l. IsVerified l section parent.keys sig w.tick next) e v,
        subst (λ l. (zone_keys zone servers (ds_of l) (wait w next)).0 ≡ ok []) e
            (child_state-unknown _ st k f),
      )

  -- Taking DS records out of a response does not turn validation off. A resolver that validates, in
  -- a secure zone, takes a child for unsigned in two cases only. Either the response has no DS
  -- records, and there are NSEC or NSEC3 records of it, each in a set with a signature of the
  -- response that VerifyRRSet accepts under a key of the parent, that deny them (one is of the child
  -- and lists neither SOA nor DS, or has the child in its gap; with NSEC3, one is of the child's hash
  -- and lists neither, or has the hash in its gap and opts out), or of which one is an NSEC3 record
  -- with a hash that is not SHA-1 or with more than 100 iterations. Or the DS records are signed and
  -- zoneKeys returns no keys.
  pub enter_zone-downgrade :
      (r : Settings) (parent : SecState) (section : List Rr) (zone : Bytes) (servers : List Bytes)
      (w : World) (st : SecState)
      → r.validate ≡ true
      → parent.secure ≡ true
      → (enter_zone r parent section zone servers w).0 ≡ ok st
      → st.secure ≡ false
      → DeniedDs parent section zone ⊎ UnknownKeys parent section zone servers w
  unfolding enter_zone
  enter_zone-downgrade r parent section zone servers w st on secure h f =
      enter_with-downgrade r parent section zone servers _ w st (ground (arith, on, secure)) refl h
        f
