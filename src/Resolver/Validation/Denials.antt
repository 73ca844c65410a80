-- ===== src/Resolver/Validation/Denials.antt =====
-- verifiedNSECs and checkDenial of resolver/validate.go: the records that a proof may use.
use dns_resolver.GoMap.{count}
use dns_resolver.Cache.{Key, key_eq}
use dns_resolver.Dnsmsg.Dnssec.{Dnskey, Rrsig}
use dns_resolver.Dnsmsg.{Rr, type_nsec, type_nsec3}
use dns_resolver.Resolver.Validation.Attempts.{
  VerifyOutcome, IsVerified, verified, refused, verify_with-VerifyOutcome,
}
use dns_resolver.Resolver.Validation.{
  Upstream, judge, is_undecided, records_of_type, verified_nsecs, nsec_loop, verify_with,
}
use dns_resolver.Signature.Checks.{Crypto}
use dns_resolver.Text.{Unicode, normalize}
use dns_resolver.Prelude.{
  Result, ◌≡◌, Bool, ok, ◌⊎◌, inl, Error, err, Bool-cases, List, Bytes, ℕ, Member, All, inr,
  unsupported_denial, true, ap, ◌∷◌, not, [], unsupported_algorithm, arith, refl, ◌==◌, ◌++◌, ◌&&◌,
  All-append, ◌||◌, false, ==_iff,
}

-- The outcome of a proof that holds, or that is in a form or by an algorithm that is not known.
abbrev pub HoldsOrUndecided : Result (Unit {0}) → Type 0
HoldsOrUndecided v = (v ≡ ok tt) ⊎ ((v ≡ err unsupported_denial) ⊎ (v ≡ err unsupported_algorithm))

is_undecided-cases :
    (e : Error) → is_undecided e ≡ true → (e ≡ unsupported_denial) ⊎ (e ≡ unsupported_algorithm)
is_undecided-cases unsupported_denial h = inl refl
is_undecided-cases unsupported_algorithm h = inr refl
is_undecided-cases _ h = absurd (cc)

pub judge-HoldsOrUndecided :
    (v : Result (Unit {0})) (b : Bool) → judge v ≡ ok b → HoldsOrUndecided v
unfolding judge
judge-HoldsOrUndecided (ok t) b h = inl refl
judge-HoldsOrUndecided (err e) b h = elim (Bool-cases (is_undecided e)) [
  | inl u ↦ elim (is_undecided-cases e u) [
    | inl denial ↦ inr (inl (ap err denial))
    | inr algorithm ↦ inr (inr (ap err algorithm))
  ]
  | inr d ↦ absurd (ground arith)
]

All-of_members {κ} :
    {A : Type 0} (P : A → Type κ) (xs : List A) → ((x : A) → Member x xs → P x) → All P xs
All-of_members P [] h = tt
All-of_members P (x ∷ xs) h = (h x (inl refl), All-of_members P xs (λ y m. h y (inr m)))

module _ ⦃u : Unicode⦄ ⦃c : Crypto⦄ ⦃n : Upstream⦄ where
  -- The record is in a set of NSEC or NSEC3 records of the section that a signature of the section
  -- fits, made with one of the keys.
  pub record IsSigned (section : List Rr) (keys : List Dnskey) (rr : Rr) : Type 0 where
    pub owner : Bytes
    pub qtype : ℕ
    pub denial : (qtype ≡ type_nsec) ⊎ (qtype ≡ type_nsec3)
    pub member : Member rr (records_of_type section qtype owner)
    pub sig : Rrsig
    pub tick : ℕ
    pub next : ℕ
    pub verified : IsVerified (records_of_type section qtype owner) section keys sig tick next

  set-IsSigned :
      (section : List Rr) (keys : List Dnskey) (rr : Rr) (sig : Rrsig) (tick next : ℕ)
      → (rr.type ≡ type_nsec) ⊎ (rr.type ≡ type_nsec3)
      → IsVerified (records_of_type section rr.type rr.name) section keys sig tick next
      → All (IsSigned section keys) (records_of_type section rr.type rr.name)
  set-IsSigned section keys rr sig tick next denial v =
      All-of_members (IsSigned section keys) (records_of_type section rr.type rr.name) (λ x m.
        record {
          owner = rr.name;
          qtype = rr.type;
          denial = denial;
          member = m;
          sig = sig;
          tick = tick;
          next = next;
          verified = v;
        })

  denial_type :
      (qtype : ℕ) (met : Bool)
      → (not (qtype == type_nsec) && not (qtype == type_nsec3)) || met ≡ false
      → (qtype ≡ type_nsec) ⊎ (qtype ≡ type_nsec3)
  denial_type qtype met h = elim (Bool-cases (qtype == type_nsec)) [
    | inl nsec ↦ inl ((==_iff qtype type_nsec).0 nsec)
    | inr other ↦ elim (Bool-cases (qtype == type_nsec3)) [
      | inl nsec3 ↦ inr ((==_iff qtype type_nsec3).0 nsec3)
      | inr neither ↦ absurd (ground (arith, other, neither))
    ]
  ]

  nsec_loop-IsSigned :
      (section : List Rr) (keys : List Dnskey) (checked : List Key) (rrs : List Rr) (tick : ℕ)
      → All (IsSigned section keys) (nsec_loop section keys checked rrs tick).0
  unfolding nsec_loop
  nsec_loop-IsSigned section keys checked [] tick = tt
  nsec_loop-IsSigned section keys checked (rr ∷ rrs) tick =
      let k : Key = record { name = normalize rr.name; qtype = rr.type } in
      let p = verify_with (records_of_type section rr.type rr.name) section keys tick in
      let skips =
        (not (rr.type == type_nsec) && not (rr.type == type_nsec3)) || not (count k checked == 0) in
      let without = nsec_loop-IsSigned section keys checked rrs tick in
      let behind = nsec_loop-IsSigned section keys (k ∷ checked) rrs p.1 in
      elim (Bool-cases skips) [
        | inl skipped ↦ rw skipped without
        | inr met ↦ rw met (
            by_set k p
              (verify_with-VerifyOutcome (records_of_type section rr.type rr.name) section keys
                tick)
              (denial_type rr.type (not (count k checked == 0)) met) behind)
      ]
    where
      by_set :
          (k : Key) (p : Result Rrsig × ℕ)
          → VerifyOutcome (records_of_type section rr.type rr.name) section keys tick p
          → (rr.type ≡ type_nsec) ⊎ (rr.type ≡ type_nsec3)
          → All (IsSigned section keys) (nsec_loop section keys (k ∷ checked) rrs p.1).0
          → All (IsSigned section keys) (
              let r : List Rr × ℕ = elim p.0 [
                | err e ↦ nsec_loop section keys (k ∷ checked) rrs p.1
                | ok sig ↦ (
                  records_of_type section rr.type rr.name
                      ++ (nsec_loop section keys (k ∷ checked) rrs p.1).0,
                  (nsec_loop section keys (k ∷ checked) rrs p.1).1,
                )
              ] in
              r.0)
      by_set k p (refused le) denial behind = behind
      by_set k p (verified {sig} {next} v) denial behind =
          All-append (IsSigned section keys) (records_of_type section rr.type rr.name) _
            (set-IsSigned section keys rr sig tick next denial v) behind

  pub verified_nsecs-IsSigned :
      (section : List Rr) (keys : List Dnskey) (tick : ℕ)
      → All (IsSigned section keys) (verified_nsecs section keys tick).0
  unfolding verified_nsecs
  verified_nsecs-IsSigned section keys tick = nsec_loop-IsSigned section keys [] section tick
