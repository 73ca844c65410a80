-- ===== src/Denial/Verdicts.antt =====
-- The four proofs of dnssec/denial.go: their outcomes.
use dns_resolver.Dnsmsg.Dnssec.{as_nsec3}
use dns_resolver.Denial.Safety.{
  require-Ensures, denies_ds-Ensures, type_in_bitmap-Ensures, denied, denies_type-Ensures,
}
use dns_resolver.Denial.HashedVerdicts.{
  prove_no_ds_nsec3-Ensures, prove_name_error_nsec3-Ensures, prove_no_data_nsec3-Ensures,
  prove_no_closer_match_nsec3-Ensures,
}
use dns_resolver.Dnsmsg.Wire.Safety.{Any}
use dns_resolver.Denial.{NsecRecord, find_covering, closest_encloser}
use dns_resolver.Dnsmsg.{Rr}
use dns_resolver.Prelude.{
  List, Result, Bytes, Ensures, Option, ℕ, returns, Option-cases, none, Ensures-bind, ◌∷◌, [], some,
  Bool, err, inl, if◌then◌else◌, no_denial, fails, ok, inr, ◌>>=◌, true, Bool-cases, refl, not,
  false, ◌&&◌,
}
use dns_resolver.Denial.Hashed.{Digest, Nsec3Record}
use dns_resolver.Denial.Claims.{
  nsec3_loop, collect_denial, some_lacks, prove_no_data_covered, prove_no_ds, prove_name_error,
  prove_no_data, prove_no_closer_match, Denial, find_owner, first_label, nsec_records, wildcard_of,
  parameters_differ,
}
use dns_resolver.Text.{Unicode, eqb, equal_name, is_proper_subdomain, trim_dot, after_dot, dot}

module _ ⦃u : Unicode⦄ where
  nsec3_loop-Ensures :
      (rrs : List Rr) (zone : Bytes) (out : List Nsec3Record)
      → Ensures Any (nsec3_loop zone out rrs)
  unfolding nsec3_loop
  nsec3_loop-Ensures [] zone out = returns tt
  nsec3_loop-Ensures (rr ∷ rrs) zone out = elim (Option-cases (as_nsec3 rr)) [
    | inl other ↦ rw (other, nsec3_loop) (nsec3_loop-Ensures rrs zone out)
    | inr (n, is_nsec3) ↦
        rw (is_nsec3, nsec3_loop)
          (refused (eqb (first_label (trim_dot rr.name)) []) (
            refused
              (not (eqb zone [])
                && not (
                    equal_name
                      (elim (after_dot (trim_dot rr.name)) [ none ↦ dot ∷ [] | some r ↦ r ]) zone))
              (refused (parameters_differ out n) (nsec3_loop-Ensures rrs _ _))))
  ]
    where
      refused :
          {r : Result (List Nsec3Record × Bytes)} (b : Bool)
          → Ensures Any r
          → Ensures Any (if b then err no_denial else r)
      refused true h = fails refl
      refused false h = h

  collect_denial-Ensures : (records : List Rr) → Ensures Any (collect_denial records)
  unfolding collect_denial
  collect_denial-Ensures records = by_nsec (nsec_records records)
    where
      some_nsec3 :
          (ns : List Nsec3Record) (zone : Bytes)
          → Ensures {A = Denial} Any (elim ns [
            | [] ↦ err no_denial
            | m ∷ ms ↦ ok (record { nsec = []; nsec3 = m ∷ ms; zone = zone })
          ])
      some_nsec3 [] zone = fails refl
      some_nsec3 (m ∷ ms) zone = returns tt

      by_nsec :
          (ns : List NsecRecord)
          → Ensures {A = Denial} Any (elim ns [
            | n ∷ ns ↦ ok (record { nsec = n ∷ ns; nsec3 = []; zone = [] })
            | [] ↦ do
              (nsec3s, zone) ← nsec3_loop [] [] records
              elim nsec3s [
                | [] ↦ err no_denial
                | m ∷ ms ↦ ok (record { nsec = []; nsec3 = m ∷ ms; zone = zone })
              ]
          ])
      by_nsec [] = Ensures-bind _ (nsec3_loop-Ensures records [] []) λ r _. some_nsec3 r.0 r.1
      by_nsec (n ∷ ns) = returns tt

module _ ⦃u : Unicode⦄ ⦃g : Digest⦄ where
  some_lacks-Ensures :
      (ns : List NsecRecord) (name : Bytes) (qtype : ℕ) → Ensures Any (some_lacks ns name qtype)
  unfolding some_lacks
  some_lacks-Ensures [] name qtype = returns tt
  some_lacks-Ensures (n ∷ ns) name qtype = elim (Bool-cases (equal_name n.owner name)) [
    | inr other ↦ rw other (some_lacks-Ensures ns name qtype)
    | inl own ↦ rw own (
        Ensures-bind _ (type_in_bitmap-Ensures n.rr.type_bitmap qtype)
          λ listed _. found listed (some_lacks-Ensures ns name qtype))
  ]
    where
      found : {r : Result Bool} (b : Bool) → Ensures Any r → Ensures Any (if b then r else ok true)
      found true h = h
      found false h = returns tt

  prove_no_data_covered-Ensures :
      (ns : List NsecRecord) (qname : Bytes) (qtype : ℕ)
      → Ensures Any (prove_no_data_covered ns qname qtype)
  unfolding prove_no_data_covered
  prove_no_data_covered-Ensures ns qname qtype = elim (Option-cases (find_covering ns qname)) [
    | inl miss ↦ rw (miss, prove_no_data_covered) (fails refl)
    | inr (c, hit) ↦ elim (Bool-cases (is_proper_subdomain c.rr.next_domain qname)) [
      | inl branch ↦ rw (hit, prove_no_data_covered, branch) (returns tt)
      | inr leaf ↦
          rw (hit, prove_no_data_covered, leaf)
            (Ensures-bind _ (some_lacks-Ensures ns (wildcard_of (closest_encloser c qname)) qtype)
              λ lacks _. denied lacks)
    ]
  ]

  -- A verdict is read in NSEC3 if there are such records, and else in NSEC.
  in_one_form :
      {r3 r : Result (Unit {0})} (ns : List Nsec3Record)
      → Ensures Any r3
      → Ensures Any r
      → Ensures Any (elim ns [ _ ∷ _ ↦ r3 | [] ↦ r ])
  in_one_form [] h3 h = h
  in_one_form (n ∷ ns) h3 h = h3

  -- The record that was looked for decides, or there is none.
  by_record :
      {r : Result (Unit {0})} {f : NsecRecord → Result (Unit {0})} (o : Option NsecRecord)
      → Ensures Any r
      → ((n : NsecRecord) → Ensures Any (f n))
      → Ensures Any (elim o [ none ↦ r | some n ↦ f n ])
  by_record none h k = h
  by_record (some n) h k = k n

  -- Whatever the records, the name and the type, ProveNoDS, ProveNameError, ProveNoData and
  -- ProveNoCloserMatch end in a verdict: none of them panics or runs out of rounds, with NSEC or
  -- with NSEC3.
  pub verdicts_safe :
      (records : List Rr) (name : Bytes) (qtype : ℕ)
      → Ensures Any (prove_no_ds records name)
        × Ensures Any (prove_name_error records name)
        × Ensures Any (prove_no_data records name qtype)
        × Ensures Any (prove_no_closer_match records name)
  unfolding prove_no_ds prove_name_error prove_no_data prove_no_closer_match
  verdicts_safe records name qtype = (
    Ensures-bind _ (collect_denial-Ensures records) λ d _.
        in_one_form d.nsec3 (prove_no_ds_nsec3-Ensures d.nsec3 name) (
          by_record (find_owner d.nsec name) (require-Ensures (find_covering d.nsec name))
            λ n. denies_ds-Ensures n.rr.type_bitmap),
    Ensures-bind _ (collect_denial-Ensures records) λ d _.
        in_one_form d.nsec3 (prove_name_error_nsec3-Ensures d.nsec3 name d.zone) (
          by_record (find_covering d.nsec name) (fails refl)
            λ n. require-Ensures (find_covering d.nsec (wildcard_of (closest_encloser n name)))),
    Ensures-bind _ (collect_denial-Ensures records) λ d _.
        in_one_form d.nsec3 (prove_no_data_nsec3-Ensures d.nsec3 name qtype d.zone) (
          by_record (find_owner d.nsec name) (prove_no_data_covered-Ensures d.nsec name qtype)
            λ n. denies_type-Ensures n.rr.type_bitmap qtype),
    Ensures-bind _ (collect_denial-Ensures records) λ d _.
        in_one_form d.nsec3 (prove_no_closer_match_nsec3-Ensures d.nsec3 name d.zone)
          (require-Ensures (find_covering d.nsec name)),
  )
