-- ===== src/Resolver/Validation/Answers.antt =====
-- checkDenial and validateAnswer of resolver/validate.go: what an answer that is called secure has
-- behind it.
use dns_resolver.GoMap.{count}
use dns_resolver.Denial.Claims.{is_wildcard_expansion, prove_no_closer_match}
use dns_resolver.Dnsmsg.Dnssec.{Rrsig}
use dns_resolver.Dnsmsg.{Message, Rr}
use dns_resolver.Denial.Hashed.{Digest}
use dns_resolver.Signature.Checks.{Crypto}
use dns_resolver.Prelude.{
  Result, ◌≡◌, ok, true, List, Bool, err, arith, ℕ, if◌then◌else◌, bogus, false, Error, not, ◌||◌,
  ◌≢◌, refl, Bytes, Member, ◌∷◌, Bool-cases, inl, subst, sym, inr, ◌==◌, [],
}
use dns_resolver.Text.{Unicode, normalize}
use dns_resolver.Resolver.Validation.{
  judge, Upstream, SecState, check_denial, check_set, verified_nsecs, records_of_type,
  is_unsupported, verify_with, answer_loop,
}
use dns_resolver.Cache.{key_eq, Key, key_beq, key_beq_iff}
use dns_resolver.Resolver.Validation.Attempts.{
  VerifyOutcome, IsVerified, verified, refused, verify_with-VerifyOutcome,
}

judge-true : (r : Result (Unit {0})) → judge r ≡ ok true → r ≡ ok tt
unfolding judge
judge-true (ok t) h = refl
judge-true (err e) h = absurd (ground arith)

module _ ⦃u : Unicode⦄ ⦃c : Crypto⦄ ⦃n : Upstream⦄ where
  -- The proof holds of the records of the section that are verified as signed with the keys.
  abbrev pub Denied : SecState → List Rr → (List Rr → Result (Unit {0})) → Type 0
  Denied sec section prove = (tick : ℕ) × (prove (verified_nsecs section sec.keys tick).0 ≡ ok tt)

  check_denial-Denied :
      (validate : Bool) (sec : SecState) (section : List Rr) (prove : List Rr → Result (Unit {0}))
      (tick : ℕ)
      → (check_denial validate sec section prove tick).0 ≡ ok true
      → Denied sec section prove
  unfolding check_denial
  check_denial-Denied validate sec section prove tick h = by_test (not validate || not sec.secure) h
    where
      by_test :
          (b : Bool)
          → (let p : Result Bool × ℕ = if b then (ok false, tick) else (
            judge (prove (verified_nsecs section sec.keys tick).0),
            (verified_nsecs section sec.keys tick).1,
          ) in
              p.0 ≡ ok true)
          → Denied sec section prove
      by_test true k = absurd (cc)
      by_test false k = (tick, judge-true _ k)

  module _ ⦃g : Digest⦄ where
    abbrev no_closer : Bytes → List Rr → Result (Unit {0})
    no_closer name nsecs = prove_no_closer_match nsecs name

    -- The set of the record is verified, and where its signature was made for a wildcard, the
    -- authority section proves that nothing closer exists.
    pub record IsChecked (sec : SecState) (resp : Message) (records : List Rr) (rr : Rr)
        : Type 0 where
      pub sig : Rrsig
      pub tick : ℕ
      pub next : ℕ
      pub set_verified :
          IsVerified (records_of_type records rr.type rr.name) resp.answers sec.keys sig tick next
      pub wildcard :
          is_wildcard_expansion rr.name sig ≡ true → Denied sec resp.authorities (no_closer rr.name)

    check_set-IsChecked :
        (sec : SecState) (resp : Message) (records : List Rr) (rr : Rr) (tick : ℕ)
        → (check_set sec resp records rr tick).0 ≡ ok true
        → IsChecked sec resp records rr
    unfolding check_set
    check_set-IsChecked sec resp records rr tick h =
        by_set (verify_with (records_of_type records rr.type rr.name) resp.answers sec.keys tick)
          (verify_with-VerifyOutcome (records_of_type records rr.type rr.name) resp.answers sec.keys
            tick)
          h
      where
        denied_is :
            (d : Result Bool)
            → elim d [ err e ↦ err bogus | ok proven ↦ ok proven ] ≡ ok true
            → d ≡ ok true
        denied_is (err e) k = absurd (cc)
        denied_is (ok b) k = k

        unsettled : (e : Error) → (if is_unsupported e then ok false else err bogus) ≢ ok true
        unsettled e k = absurd (ground arith)

        by_wildcard :
            (sig : Rrsig) (next : ℕ) (b : Bool)
            → (let p : Result Bool × ℕ =
                  if b
                  then (
                    elim (check_denial true sec resp.authorities (no_closer rr.name) next).0 [
                      | err e ↦ err bogus
                      | ok proven ↦ ok proven
                    ],
                    (check_denial true sec resp.authorities (no_closer rr.name) next).1,
                  )
                  else (ok true, next) in
                p.0 ≡ ok true)
            → b ≡ true
            → Denied sec resp.authorities (no_closer rr.name)
        by_wildcard sig next true k e =
            check_denial-Denied true sec resp.authorities (no_closer rr.name) next (denied_is _ k)
        by_wildcard sig next false k e = absurd (cc)

        by_set :
            (p : Result Rrsig × ℕ)
            → VerifyOutcome (records_of_type records rr.type rr.name) resp.answers sec.keys tick p
            → (let q : Result Bool × ℕ = elim p.0 [
              | err e ↦ (if is_unsupported e then ok false else err bogus, p.1)
              | ok sig ↦
                  if is_wildcard_expansion rr.name sig
                  then (
                    elim (check_denial true sec resp.authorities (no_closer rr.name) p.1).0 [
                      | err e ↦ err bogus
                      | ok proven ↦ ok proven
                    ],
                    (check_denial true sec resp.authorities (no_closer rr.name) p.1).1,
                  )
                  else (ok true, p.1)
            ] in
                q.0 ≡ ok true)
            → IsChecked sec resp records rr
        by_set p (refused {e} {next} le) k = absurd (unsettled e k)
        by_set p (verified {sig} {next} v) k = record {
          sig = sig;
          tick = tick;
          next = next;
          set_verified = v;
          wildcard = by_wildcard sig next (is_wildcard_expansion rr.name sig) k;
        }

    -- A record of the answer with this name and type is checked.
    abbrev pub Covered : SecState → Message → List Rr → Key → Type 0
    Covered sec resp records k =
        (rr : Rr) × Member rr records
        × (normalize rr.name ≡ k.name)
        × (rr.type ≡ k.qtype)
        × IsChecked sec resp records rr

    abbrev pub key_of : Rr → Key
    key_of rr = record { name = normalize rr.name; qtype = rr.type }

    seen_also :
        (sec : SecState) (resp : Message) (records : List Rr) (seen : List Key) (k : Key)
        → ((j : Key) → count j seen ≢ 0 → Covered sec resp records j)
        → Covered sec resp records k
        → (j : Key) → count j (k ∷ seen) ≢ 0
        → Covered sec resp records j
    unfolding count key_eq
    seen_also sec resp records seen k f now j m = elim (Bool-cases (key_beq j k)) [
      | inl same ↦ subst (Covered sec resp records) (sym ((key_beq_iff j k).0 same)) now
      | inr other ↦ f j (λ z. m (rw other z))
    ]

    pub answer_loop-Covered :
        (sec : SecState) (resp : Message) (records : List Rr) (seen : List Key) (rrs : List Rr)
        (tick : ℕ)
        → ((rr : Rr) → Member rr rrs → Member rr records)
        → ((j : Key) → count j seen ≢ 0 → Covered sec resp records j)
        → (answer_loop sec resp records seen rrs tick).0 ≡ ok true
        → (rr : Rr) → Member rr rrs
        → Covered sec resp records (key_of rr)
    unfolding answer_loop
    answer_loop-Covered sec resp records seen [] tick here f h = λ x m. absurd m
    answer_loop-Covered sec resp records seen (rr ∷ rrs) tick here f h =
        by_seen (not (count (key_of rr) seen == 0)) refl
          (answer_loop-Covered sec resp records seen rrs tick (λ x m. here x (inr m)) f)
          (λ next k.
            answer_loop-Covered sec resp records (key_of rr ∷ seen) rrs next (λ x m. here x (inr m))
              (seen_also sec resp records seen (key_of rr) f k))
          h
      where
        front :
            Covered sec resp records (key_of rr)
            → ((x : Rr) → Member x rrs → Covered sec resp records (key_of x))
            → (x : Rr) → Member x (rr ∷ rrs)
            → Covered sec resp records (key_of x)
        front k rest x (inl e) = subst (λ y. Covered sec resp records (key_of y)) (sym e) k
        front k rest x (inr m) = rest x m

        by_check :
            (p : Result Bool × ℕ)
            → (p.0 ≡ ok true → Covered sec resp records (key_of rr))
            → ((next : ℕ)
                → Covered sec resp records (key_of rr)
                → (answer_loop sec resp records (key_of rr ∷ seen) rrs next).0 ≡ ok true
                → (x : Rr) → Member x rrs
                → Covered sec resp records (key_of x))
            → (let q : Result Bool × ℕ = elim p.0 [
              | err e ↦ (err e, p.1)
              | ok good ↦
                  if good
                  then answer_loop sec resp records (key_of rr ∷ seen) rrs p.1
                  else (ok false, p.1)
            ] in
                q.0 ≡ ok true)
            → (x : Rr) → Member x (rr ∷ rrs)
            → Covered sec resp records (key_of x)
        by_check (err e, next) k rest h = absurd (cc)
        by_check (ok false, next) k rest h = absurd (cc)
        by_check (ok true, next) k rest h = front (k refl) (rest next (k refl) h)

        by_seen :
            (b : Bool)
            → not (count (key_of rr) seen == 0) ≡ b
            → ((answer_loop sec resp records seen rrs tick).0 ≡ ok true
                → (x : Rr) → Member x rrs
                → Covered sec resp records (key_of x))
            → ((next : ℕ)
                → Covered sec resp records (key_of rr)
                → (answer_loop sec resp records (key_of rr ∷ seen) rrs next).0 ≡ ok true
                → (x : Rr) → Member x rrs
                → Covered sec resp records (key_of x))
            → (let q : Result Bool × ℕ =
                  if b
                  then answer_loop sec resp records seen rrs tick
                  else elim (check_set sec resp records rr tick).0 [
                    | err e ↦ (err e, (check_set sec resp records rr tick).1)
                    | ok good ↦
                        if good
                        then answer_loop sec resp records
                            (key_of rr ∷ seen)
                            rrs
                            (check_set sec resp records rr tick).1
                        else (ok false, (check_set sec resp records rr tick).1)
                  ] in
                q.0 ≡ ok true)
            → (x : Rr) → Member x (rr ∷ rrs)
            → Covered sec resp records (key_of x)
        by_seen true e skip go h = front (f (key_of rr) (ground arith)) (skip h)
        by_seen false e skip go h =
            by_check (check_set sec resp records rr tick)
              (λ good. (
                rr,
                here rr (inl refl),
                refl,
                refl,
                check_set-IsChecked sec resp records rr tick good,
              ))
              go h
