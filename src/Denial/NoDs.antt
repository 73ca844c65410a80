-- ===== src/Denial/NoDs.antt =====
-- ProveNoDS of dnssec/denial.go: what stands behind a proof that it accepts.
use dns_resolver.Denial.Claims.{
  collect_denial, denies_ds, find_owner, nsec_records, nsec3_loop, prove_no_ds, prove_no_ds_nsec3,
}
use dns_resolver.Denial.Hashed.{Digest, Nsec3Record, covers_hash, find_cover, find_match, hash_name}
use dns_resolver.Denial.{NsecRecord, covers, find_covering}
use dns_resolver.Dnsmsg.Dnssec.{opt_out, type_in_bitmap}
use dns_resolver.Dnsmsg.{Rr, type_ds, type_soa}
use dns_resolver.Text.Split.{eqb_iff}
use dns_resolver.Text.{Unicode, eqb, equal_name}
use dns_resolver.Prelude.{
  Bytes, List, ◌≡◌, ok, some, none, true, false, Member, inl, inr, Bool-cases, Option-cases,
  Result-cases, arith, refl, [], ◌∷◌, sym, subst, ◌∙◌, ap,
}

-- The bitmap lists neither SOA nor DS: not the apex of the child, and no DS.
abbrev pub ListsNeither : Bytes → Type 0
ListsNeither bitmap =
    (type_in_bitmap bitmap type_soa ≡ ok false) × (type_in_bitmap bitmap type_ds ≡ ok false)

denies_ds-ListsNeither : (bitmap : Bytes) → denies_ds bitmap ≡ ok tt → ListsNeither bitmap
unfolding denies_ds
denies_ds-ListsNeither bitmap h = elim (Result-cases (type_in_bitmap bitmap type_soa)) [
  | inr (e, soa) ↦ absurd (ground (arith, soa))
  | inl (false, soa) ↦ elim (Result-cases (type_in_bitmap bitmap type_ds)) [
    | inr (e, ds) ↦ absurd (ground (arith, soa, ds))
    | inl (false, ds) ↦ (soa, ds)
    | inl (true, ds) ↦ absurd (ground (arith, soa, ds))
  ]
  | inl (true, soa) ↦ absurd (ground (arith, soa))
]

module _ ⦃u : Unicode⦄ where
  find_owner-Member :
      (ns : List NsecRecord) (name : Bytes) (n : NsecRecord)
      → find_owner ns name ≡ some n
      → Member n ns × (equal_name n.owner name ≡ true)
  unfolding find_owner
  find_owner-Member [] name n h = absurd (cc)
  find_owner-Member (m ∷ ns) name n h = elim (Bool-cases (equal_name m.owner name)) [
    | inl hit ↦
        let same : m ≡ n = ground arith in
        (inl (sym same), subst (λ x. equal_name x.owner name ≡ true) same hit)
    | inr miss ↦ let (k, e) = find_owner-Member ns name n (ground arith) in (inr k, e)
  ]

  find_covering-Member :
      (ns : List NsecRecord) (name : Bytes) (n : NsecRecord)
      → find_covering ns name ≡ some n
      → Member n ns × (covers n name ≡ true)
  unfolding find_covering
  find_covering-Member [] name n h = absurd (cc)
  find_covering-Member (m ∷ ns) name n h = elim (Bool-cases (covers m name)) [
    | inl hit ↦
        let same : m ≡ n = ground arith in
        (inl (sym same), subst (λ x. covers x name ≡ true) same hit)
    | inr miss ↦ let (k, e) = find_covering-Member ns name n (ground arith) in (inr k, e)
  ]

  module _ ⦃g : Digest⦄ where
    find_match-Member :
        (ns : List Nsec3Record) (name : Bytes) (n : Nsec3Record)
        → find_match ns name ≡ ok (some n)
        → Member n ns × (hash_name n.rr name ≡ ok n.owner)
    unfolding find_match
    find_match-Member [] name n h = absurd (cc)
    find_match-Member (m ∷ ns) name n h = elim (Result-cases (hash_name m.rr name)) [
      | inr (e, bad) ↦ absurd (ground (arith, bad))
      | inl (hash, found) ↦ elim (Bool-cases (eqb hash m.owner)) [
        | inl hit ↦
            let same : m ≡ n = ground (arith, found) in
            (
              inl (sym same),
              subst (λ x. hash_name x.rr name ≡ ok x.owner) same
                  (found ∙ ap ok ((eqb_iff hash m.owner).0 hit)),
            )
        | inr miss ↦ let (k, e) = find_match-Member ns name n (ground (arith, found)) in (inr k, e)
      ]
    ]

    find_cover-Member :
        (ns : List Nsec3Record) (name : Bytes) (n : Nsec3Record)
        → find_cover ns name ≡ ok (some n)
        → Member n ns
          × ((hash : Bytes) × (hash_name n.rr name ≡ ok hash) × (covers_hash n hash ≡ true))
    unfolding find_cover
    find_cover-Member [] name n h = absurd (cc)
    find_cover-Member (m ∷ ns) name n h = elim (Result-cases (hash_name m.rr name)) [
      | inr (e, bad) ↦ absurd (ground (arith, bad))
      | inl (hash, found) ↦ elim (Bool-cases (covers_hash m hash)) [
        | inl hit ↦
            let same : m ≡ n = ground (arith, found) in
            (
              inl (sym same),
              subst (λ x. (k : Bytes) × (hash_name x.rr name ≡ ok k) × (covers_hash x k ≡ true))
                  same (hash, found, hit),
            )
        | inr miss ↦ let (k, e) = find_cover-Member ns name n (ground (arith, found)) in (inr k, e)
      ]
    ]

    -- Records that deny a DS at the zone: one of the name, or the gap of one, or one of its hash,
    -- or the opt-out gap of one.
    pub data DeniesDs (records : List Rr) (zone : Bytes) : Type 0 where
      at_name :
          (n : NsecRecord)
          → Member n (nsec_records records)
          → equal_name n.owner zone ≡ true
          → ListsNeither n.rr.type_bitmap
          → DeniesDs records zone
      in_gap :
          (n : NsecRecord)
          → Member n (nsec_records records)
          → covers n zone ≡ true
          → DeniesDs records zone
      at_hash :
          (ns : List Nsec3Record) (apex : Bytes) (n : Nsec3Record)
          → nsec3_loop [] [] records ≡ ok (ns, apex)
          → Member n ns
          → hash_name n.rr zone ≡ ok n.owner
          → ListsNeither n.rr.type_bitmap
          → DeniesDs records zone
      opted_out :
          (ns : List Nsec3Record) (apex : Bytes) (n : Nsec3Record) (hash : Bytes)
          → nsec3_loop [] [] records ≡ ok (ns, apex)
          → Member n ns
          → hash_name n.rr zone ≡ ok hash
          → covers_hash n hash ≡ true
          → opt_out n.rr ≡ true
          → DeniesDs records zone

    by_nsec :
        (records : List Rr) (zone : Bytes) (n : NsecRecord) (ns : List NsecRecord)
        → nsec_records records ≡ n ∷ ns
        → prove_no_ds records zone ≡ ok tt
        → DeniesDs records zone
    unfolding prove_no_ds collect_denial
    by_nsec records zone n ns found h = elim (Option-cases (find_owner (n ∷ ns) zone)) [
      | inr (m, own) ↦
          let (k, e) = find_owner-Member (n ∷ ns) zone m own in
          at_name m (subst (Member m) (sym found) k) e
            (denies_ds-ListsNeither m.rr.type_bitmap (ground (arith, found, own)))
      | inl other ↦ elim (Option-cases (find_covering (n ∷ ns) zone)) [
        | inl miss ↦ absurd (ground (arith, found, other, miss))
        | inr (m, gap) ↦
            let (k, e) = find_covering-Member (n ∷ ns) zone m gap in
            in_gap m (subst (Member m) (sym found) k) e
      ]
    ]

    by_nsec3 :
        (records : List Rr) (zone apex : Bytes) (ns : List Nsec3Record)
        → nsec3_loop [] [] records ≡ ok (ns, apex)
        → prove_no_ds_nsec3 ns zone ≡ ok tt
        → DeniesDs records zone
    unfolding prove_no_ds_nsec3
    by_nsec3 records zone apex ns found h = elim (Result-cases (find_match ns zone)) [
      | inr (e, bad) ↦ absurd (ground (arith, bad))
      | inl (some n, match) ↦
          let (k, e) = find_match-Member ns zone n match in
          at_hash ns apex n found k e
            (denies_ds-ListsNeither n.rr.type_bitmap (ground (arith, match)))
      | inl (none, match) ↦ elim (Result-cases (find_cover ns zone)) [
        | inr (e, bad) ↦ absurd (ground (arith, match, bad))
        | inl (none, cover) ↦ absurd (ground (arith, match, cover))
        | inl (some n, cover) ↦
            let (k, (hash, e, c)) = find_cover-Member ns zone n cover in
            opted_out ns apex n hash found k e c (ground (arith, match, cover))
      ]
    ]

    -- What ProveNoDS accepts are records that deny a DS.
    pub prove_no_ds-DeniesDs :
        (records : List Rr) (zone : Bytes)
        → prove_no_ds records zone ≡ ok tt
        → DeniesDs records zone
    prove_no_ds-DeniesDs records zone h = by_records (nsec_records records) refl
      where
        by_records : (ns : List NsecRecord) → nsec_records records ≡ ns → DeniesDs records zone
        by_records (n ∷ ns) found = by_nsec records zone n ns found h
        by_records [] found = elim (Result-cases (nsec3_loop [] [] records)) [
          | inr (e, bad) ↦ absurd (unfold prove_no_ds collect_denial in ground (arith, found, bad))
          | inl (([], apex), loop) ↦
              absurd (unfold prove_no_ds collect_denial in ground (arith, found, loop))
          | inl ((n ∷ ns, apex), loop) ↦
              by_nsec3 records zone apex (n ∷ ns) loop
                (unfold prove_no_ds collect_denial in ground (arith, found, loop))
        ]
