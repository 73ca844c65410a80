-- ===== src/Denial/Undecided.antt =====
-- ProveNoDS of dnssec/denial.go: when it does not know the form of the records.
use dns_resolver.Denial.Settled.{
  Settles, is_unknown_form, decided, foreign, returned, Settles-require, Settles-unknown,
  Settles-bind, Settles-guard, denies_ds-Settles, canonical_labels-Settles, Settles-if,
}
use dns_resolver.Denial.{NsecRecord, find_covering}
use dns_resolver.Denial.Claims.{
  denies_ds, nsec3_loop, prove_no_ds_nsec3, require, prove_no_ds, find_owner, collect_denial,
  nsec_records, first_label, parameters_differ,
}
use dns_resolver.Denial.Hashed.{
  Digest, Nsec3Record, canonical_name, covers_hash, find_cover, find_match, hash_name,
  max_nsec3_iterations, nsec3_hash_sha1,
}
use dns_resolver.Dnsmsg.Dnssec.{Nsec3, opt_out, as_nsec3}
use dns_resolver.Dnsmsg.{Rr}
use dns_resolver.Text.{Unicode, eqb, labels_of, trim_dot, after_dot, dot, to_upper, equal_name}
use dns_resolver.Prelude.{
  Bytes, List, Option, Result, ◌≡◌, ok, some, none, true, false, Member, inl, inr, Bool-cases,
  arith, refl, [], ◌∷◌, ◌>>=◌, err, Error, Bool, ◌≢◌, ◌==◌, no_denial, if◌then◌else◌, guard, ltb,
  not, ◌⊎◌, ◌<◌, Option-cases, Result-cases, ap, ◌∙◌, ◌++◌, ◌&&◌,
}

-- A hash that is not SHA-1, or more rounds of it than are allowed.
abbrev pub IsForeign : Nsec3 → Type 0
IsForeign n = (n.algorithm ≢ 1) ⊎ (100 < n.iterations)

abbrev SomeForeign : List Nsec3Record → Type 0
SomeForeign ns = (n : Nsec3Record) × Member n ns × IsForeign n.rr

one_more :
    (ns : List Nsec3Record) (m : Nsec3Record) {A : Type 0} {r : Result A}
    → Settles (SomeForeign ns) r
    → Settles (SomeForeign (m ∷ ns)) r
one_more ns m returned = returned
one_more ns m (decided h) = decided h
one_more ns m (foreign (n, k, f)) = foreign (n, inr k, f)

module _ ⦃u : Unicode⦄ ⦃g : Digest⦄ where
  hash_name-Settles :
      (n : Nsec3Record) (ns : List Nsec3Record) (name : Bytes)
      → Settles (SomeForeign (n ∷ ns)) (hash_name n.rr name)
  unfolding hash_name canonical_name
  hash_name-Settles n ns name = elim (Bool-cases (n.rr.algorithm == nsec3_hash_sha1)) [
    | inr other ↦ rw other (foreign (n, inl refl, inl (λ e. absurd (ground (arith, other, e)))))
    | inl sha ↦ elim (Bool-cases (ltb max_nsec3_iterations n.rr.iterations)) [
      | inl many ↦ rw (sha, many) (foreign (n, inl refl, inr (ground (arith, many))))
      | inr few ↦
          rw (sha, few)
            (Settles-bind _ (canonical_labels-Settles (labels_of name)) λ wire. returned)
    ]
  ]

  find_match-Settles :
      (ns : List Nsec3Record) (name : Bytes) → Settles (SomeForeign ns) (find_match ns name)
  unfolding find_match
  find_match-Settles [] name = returned
  find_match-Settles (n ∷ ns) name = Settles-bind _ (hash_name-Settles n ns name) λ hash.
      Settles-if (eqb hash n.owner) _ _ returned (one_more ns n (find_match-Settles ns name))

  find_cover-Settles :
      (ns : List Nsec3Record) (name : Bytes) → Settles (SomeForeign ns) (find_cover ns name)
  unfolding find_cover
  find_cover-Settles [] name = returned
  find_cover-Settles (n ∷ ns) name = Settles-bind _ (hash_name-Settles n ns name) λ hash.
      Settles-if (covers_hash n hash) _ _ returned (one_more ns n (find_cover-Settles ns name))

  prove_no_ds_nsec3-Settles :
      (ns : List Nsec3Record) (zone : Bytes) → Settles (SomeForeign ns) (prove_no_ds_nsec3 ns zone)
  unfolding prove_no_ds_nsec3
  prove_no_ds_nsec3-Settles ns zone =
      Settles-bind _ (find_match-Settles ns zone) λ match. by_match match
    where
      by_cover :
          (o : Option Nsec3Record)
          → Settles
              (SomeForeign ns)
              {A = Unit {0}}
              (elim o [ none ↦ err no_denial | some n ↦ guard (opt_out n.rr) no_denial ])
      by_cover none = decided refl
      by_cover (some n) = Settles-guard (opt_out n.rr)

      by_match :
          (o : Option Nsec3Record)
          → Settles (SomeForeign ns) {A = Unit {0}} (elim o [
            | some n ↦ denies_ds n.rr.type_bitmap
            | none ↦ find_cover ns zone >>= λ cover. elim cover [
              | none ↦ err no_denial
              | some n ↦ guard (opt_out n.rr) no_denial
            ]
          ])
      by_match (some n) = denies_ds-Settles n.rr.type_bitmap
      by_match none = Settles-bind _ (find_cover-Settles ns zone) λ cover. by_cover cover

  nsec3_loop-Settles :
      (zone : Bytes) (out : List Nsec3Record) (rrs : List Rr) → Settles ⊥ (nsec3_loop zone out rrs)
  unfolding nsec3_loop
  nsec3_loop-Settles zone out [] = returned
  nsec3_loop-Settles zone out (rr ∷ rrs) = elim (Option-cases (as_nsec3 rr)) [
    | inl other ↦ rw (other, nsec3_loop) (nsec3_loop-Settles zone out rrs)
    | inr (n, found) ↦
        let name = trim_dot rr.name in
        let label = first_label name in
        let rest : Bytes = elim (after_dot name) [ none ↦ dot ∷ [] | some r ↦ r ] in
        let more : List Nsec3Record = out ++ (record { owner = to_upper label; rr = n } ∷ []) in
        let looped = nsec3_loop-Settles (if eqb zone [] then rest else zone) more rrs in
        rw (found, nsec3_loop)
          (refused (eqb label []) (
            refused (not (eqb zone []) && not (equal_name rest zone))
              (refused (parameters_differ out n) looped)))
  ]
    where
      refused :
          {r : Result (List Nsec3Record × Bytes)} (b : Bool)
          → Settles ⊥ r
          → Settles ⊥ (if b then err no_denial else r)
      refused true h = decided refl
      refused false h = h

  nsec-Settles :
      (ns : List NsecRecord) (zone : Bytes)
      → Settles ⊥ {A = Unit {0}} (elim (find_owner ns zone) [
        | some n ↦ denies_ds n.rr.type_bitmap
        | none ↦ require (find_covering ns zone)
      ])
  nsec-Settles ns zone = by_owner (find_owner ns zone)
    where
      by_owner :
          (o : Option NsecRecord)
          → Settles ⊥ {A = Unit {0}} (elim o [
            | some n ↦ denies_ds n.rr.type_bitmap
            | none ↦ require (find_covering ns zone)
          ])
      by_owner none = Settles-require (find_covering ns zone)
      by_owner (some n) = denies_ds-Settles n.rr.type_bitmap

  -- One of the NSEC3 records has a hash that is not SHA-1, or too many rounds of it.
  abbrev pub ForeignHash : List Rr → Type 0
  ForeignHash records =
      (ns : List Nsec3Record) × (apex : Bytes) × (n : Nsec3Record) × (nsec3_loop [] [] records
        ≡ ok (ns, apex))
      × Member n ns
      × IsForeign n.rr

  -- ProveNoDS fails for an unknown form only over such a record.
  pub prove_no_ds-ForeignHash :
      (records : List Rr) (zone : Bytes) (e : Error)
      → prove_no_ds records zone ≡ err e
      → is_unknown_form e ≡ true
      → ForeignHash records
  unfolding prove_no_ds collect_denial
  prove_no_ds-ForeignHash records zone e h unknown = by_records (nsec_records records) refl
    where
      by_records : (ns : List NsecRecord) → nsec_records records ≡ ns → ForeignHash records
      by_records (n ∷ ns) found =
          absurd (Settles-unknown e (nsec-Settles (n ∷ ns) zone) (ground (arith, found)) unknown)
      by_records [] found = elim (Result-cases (nsec3_loop [] [] records)) [
        | inr (d, bad) ↦
            let same : d ≡ e = ground (arith, found, bad) in
            absurd (
              Settles-unknown d (nsec3_loop-Settles [] [] records) bad
                (ap is_unknown_form same ∙ unknown))
        | inl (([], apex), loop) ↦
            let same : no_denial ≡ e = ground (arith, found, loop) in absurd (cc)
        | inl ((n ∷ ns, apex), loop) ↦
            let (m, k, f) =
              Settles-unknown e (prove_no_ds_nsec3-Settles (n ∷ ns) zone)
                (ground (arith, found, loop)) unknown in
            (n ∷ ns, apex, m, loop, k, f)
      ]
