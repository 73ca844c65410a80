-- ===== src/Resolver/Validation.antt =====
-- resolver/validate.go: the signatures and proofs of one response. The clock is read once for every
-- signature and key that are tried; the readings are numbered, and the operations pass the number of
-- the next one on.
pub mod Chain
pub mod Attempts
pub mod Trust
pub mod Search
pub mod Keys
pub mod Descent
pub mod Cuts
pub mod Answers
pub mod Secure
pub mod Answering
pub mod Ending
pub mod Denials
pub mod Downgrade
use dns_resolver.Denial.Claims.{is_wildcard_expansion, prove_no_closer_match}
use dns_resolver.GoMap.{count}
use dns_resolver.Denial.Hashed.{Digest}
use dns_resolver.Signature.Checks.{Crypto, verify_rrset}
use dns_resolver.Dnsmsg.{Message, Rr, type_rrsig, class_in, type_nsec, type_nsec3}
use dns_resolver.Text.{
  Unicode, equal_name, is_proper_subdomain, is_subdomain_or_equal, eqb, normalize,
}
use dns_resolver.Dnsmsg.Dnssec.{Rrsig, as_rrsig, Dnskey}
use dns_resolver.Prelude.{
  ℕ, Error, List, Bool, Bytes, true, ◌/◌, Result, false, ◌∷◌, [], ok, unsupported_algorithm,
  unsupported_denial, if◌then◌else◌, suc, err, ◌==◌, not, none, ◌||◌, ◌&&◌, some, bad_rrset,
  bad_signature, bogus, ◌++◌,
}
use dns_resolver.Cache.{key_eq, min_ttl_from, second, Key}

-- What the resolver's own code stands on: `clock` is time.Now at each reading, in nanoseconds, and
-- `reply` is what queryServers returns when it is called for the servers, the name and the type;
-- the calls are numbered together with the readings.
pub record Upstream : Type 0 where
  pub clock : ℕ → ℕ
  pub reply : ℕ → List Bytes → Bytes → ℕ → Result Message

-- errors.Is(err, ErrUnsupportedAlgorithm)
abbrev pub is_unsupported : Error → Bool
is_unsupported unsupported_algorithm = true
is_unsupported _ = false

-- errors.Is(err, ErrUnsupportedDenial), or the same for ErrUnsupportedAlgorithm
abbrev pub is_undecided : Error → Bool
is_undecided unsupported_denial = true
is_undecided unsupported_algorithm = true
is_undecided _ = false

-- Where the loops over signatures and keys stand: one fitted, or none so far, with the flag
-- `unsupported` and the last error.
pub data Attempt : Type 0 where
  accepted : Rrsig → Attempt
  pending : Bool → Error → Attempt

-- What checkDenial makes of the outcome of a proof.
unfoldable pub judge : Result (Unit {0}) → Result Bool
judge (ok _) = ok true
judge (err e) = if is_undecided e then ok false else err e

-- secState
pub record SecState : Type 0 where
  pub secure : Bool
  pub keys : List Dnskey

abbrev pub insecure : SecState
insecure = record { secure = false; keys = [] }

-- minTTLOf
unfoldable pub min_ttl_of : List Rr → ℕ
unfolding min_ttl_from
min_ttl_of [] = 0
min_ttl_of (rr ∷ rrs) = min_ttl_from rr.ttl rrs

module _ ⦃u : Unicode⦄ where
  unfoldable pub records_of_type : List Rr → ℕ → Bytes → List Rr
  unfolding equal_name
  records_of_type [] qtype name = []
  records_of_type (rr ∷ rrs) qtype name =
      let rest = records_of_type rrs qtype name in
      if (rr.type == qtype) && ((rr.class == class_in) && equal_name rr.name name)
      then rr ∷ rest
      else rest

  unfoldable pub rrsigs_for : List Rr → Bytes → ℕ → List Rrsig
  unfolding equal_name as_rrsig
  rrsigs_for [] name qtype = []
  rrsigs_for (rr ∷ rrs) name qtype =
      let rest = rrsigs_for rrs name qtype in
      if not (rr.type == type_rrsig) || not (equal_name rr.name name)
      then rest
      else elim (as_rrsig rr) [
        | none ↦ rest
        | some sig ↦ if sig.type_covered == qtype then sig ∷ rest else rest
      ]

  -- One section in the loops of signerBelow; `[]` is no signer yet.
  unfoldable pub deepest_signer : Bytes → Bytes → Bytes → List Rr → Bytes
  unfolding as_rrsig is_proper_subdomain is_subdomain_or_equal eqb
  deepest_signer zone qname deepest [] = deepest
  deepest_signer zone qname deepest (rr ∷ rrs) = elim (as_rrsig rr) [
    | none ↦ deepest_signer zone qname deepest rrs
    | some sig ↦
        let fits =
          is_proper_subdomain sig.signer_name zone && is_subdomain_or_equal qname sig.signer_name in
        let deeper = eqb deepest [] || is_proper_subdomain sig.signer_name deepest in
        deepest_signer zone qname (if fits && deeper then sig.signer_name else deepest) rrs
  ]

  unfoldable pub signer_below : Message → Bytes → Bytes → Bytes
  unfolding deepest_signer
  signer_below resp zone qname =
      deepest_signer zone qname (deepest_signer zone qname [] resp.answers) resp.authorities

  module _ ⦃c : Crypto⦄ ⦃n : Upstream⦄ where
    -- r.now().Unix() at a reading
    abbrev pub unix : ℕ → ℕ
    unix tick = n.clock tick / second

    -- The loop over the keys.
    unfoldable pub try_keys : List Rr → Rrsig → List Dnskey → Bool → Error → ℕ → Attempt × ℕ
    unfolding verify_rrset
    try_keys rrset sig [] unsupported last tick = (pending unsupported last, tick)
    try_keys rrset sig (key ∷ keys) unsupported last tick =
        elim (verify_rrset rrset sig key (unix tick)) [
          | ok _ ↦ (accepted sig, suc tick)
          | err e ↦ try_keys rrset sig keys (is_unsupported e || unsupported) e (suc tick)
        ]

    -- The loop over the signatures.
    unfoldable pub try_signatures :
        List Rr → List Rrsig → List Dnskey → Bool → Error → ℕ → Attempt × ℕ
    unfolding try_keys
    try_signatures rrset [] keys unsupported last tick = (pending unsupported last, tick)
    try_signatures rrset (sig ∷ sigs) keys unsupported last tick =
        let (r, next) = try_keys rrset sig keys unsupported last tick in
        elim r [
          | accepted s ↦ (accepted s, next)
          | pending f e ↦ try_signatures rrset sigs keys f e next
        ]

    unfoldable pub settle : Attempt → Result Rrsig
    settle (accepted sig) = ok sig
    settle (pending true last) = err unsupported_algorithm
    settle (pending false last) = err last

    -- verifyRRSet and verifyRRSetWithKeys. The error before the loops is never returned: neither
    -- list is empty.
    unfoldable pub verify_with : List Rr → List Rr → List Dnskey → ℕ → Result Rrsig × ℕ
    unfolding rrsigs_for try_signatures settle
    verify_with [] section keys tick = (err bad_rrset, tick)
    verify_with (rr ∷ rrs) section [] tick = (err bad_signature, tick)
    verify_with (rr ∷ rrs) section (key ∷ keys) tick = elim (rrsigs_for section rr.name rr.type) [
      | [] ↦ (err bad_signature, tick)
      | sig ∷ sigs ↦
          let (r, next) =
            try_signatures (rr ∷ rrs) (sig ∷ sigs) (key ∷ keys) false bad_signature tick in
          (settle r, next)
    ]

    -- The loop of verifiedNSECs over what is left of the section; `checked` are the names and types
    -- it has met.
    unfoldable pub nsec_loop : List Rr → List Dnskey → List Key → List Rr → ℕ → List Rr × ℕ
    unfolding normalize count records_of_type verify_with
    nsec_loop section keys checked [] tick = ([], tick)
    nsec_loop section keys checked (rr ∷ rrs) tick =
        let k : Key = record { name = normalize rr.name; qtype = rr.type } in
        let rrset = records_of_type section rr.type rr.name in
        let (r, next) = verify_with rrset section keys tick in
        let skipped = nsec_loop section keys checked rrs tick in
        let (rest, end) = nsec_loop section keys (k ∷ checked) rrs next in
        if (not (rr.type == type_nsec) && not (rr.type == type_nsec3)) || not (count k checked == 0)
        then skipped
        else elim r [ err e ↦ (rest, end) | ok sig ↦ (rrset ++ rest, end) ]

    unfoldable pub verified_nsecs : List Rr → List Dnskey → ℕ → List Rr × ℕ
    unfolding nsec_loop
    verified_nsecs section keys tick = nsec_loop section keys [] section tick

    -- checkDenial of a resolver that validates or not
    unfoldable pub check_denial :
        Bool → SecState → List Rr → (List Rr → Result (Unit {0})) → ℕ → Result Bool × ℕ
    unfolding verified_nsecs judge
    check_denial validate sec section prove tick =
        if not validate || not sec.secure
        then (ok false, tick)
        else let (nsecs, next) = verified_nsecs section sec.keys tick in (judge (prove nsecs), next)

    module _ ⦃g : Digest⦄ where
      -- A round of validateAnswer for a set that is not checked yet: whether to go on, with the
      -- error in the place of ErrBogus.
      unfoldable pub check_set : SecState → Message → List Rr → Rr → ℕ → Result Bool × ℕ
      unfolding records_of_type verify_with is_wildcard_expansion check_denial prove_no_closer_match
      check_set sec resp records rr tick =
          let (r, next) =
            verify_with (records_of_type records rr.type rr.name) resp.answers sec.keys tick in
          elim r [
            | err e ↦ (if is_unsupported e then ok false else err bogus, next)
            | ok sig ↦
                if is_wildcard_expansion rr.name sig
                then (let (d, end) =
                      check_denial true sec resp.authorities
                        (λ nsecs. prove_no_closer_match nsecs rr.name) next in
                    (elim d [ err e ↦ err bogus | ok proven ↦ ok proven ], end))
                else (ok true, next)
          ]

      -- The loop of validateAnswer; `seen` are the names and types it has met.
      unfoldable pub answer_loop :
          SecState → Message → List Rr → List Key → List Rr → ℕ → Result Bool × ℕ
      unfolding normalize count check_set
      answer_loop sec resp records seen [] tick = (ok true, tick)
      answer_loop sec resp records seen (rr ∷ rrs) tick =
          let k : Key = record { name = normalize rr.name; qtype = rr.type } in
          let skipped = answer_loop sec resp records seen rrs tick in
          let (r, next) = check_set sec resp records rr tick in
          let rest = answer_loop sec resp records (k ∷ seen) rrs next in
          if not (count k seen == 0)
          then skipped
          else elim r [ err e ↦ (err e, next) | ok good ↦ if good then rest else (ok false, next) ]

      unfoldable pub validate_answer : Bool → SecState → Message → List Rr → ℕ → Result Bool × ℕ
      unfolding answer_loop
      validate_answer validate sec resp [] tick = (ok false, tick)
      validate_answer validate sec resp (rr ∷ rrs) tick =
          if not validate || not sec.secure
          then (ok false, tick)
          else answer_loop sec resp (rr ∷ rrs) [] (rr ∷ rrs) tick
