-- ===== src/Denial/Soundness.antt =====
-- ProveNameError and ProveNoCloserMatch of dnssec/denial.go, in a zone that signs with NSEC.
use dns_resolver.Denial.Enclosers.{IsClosestEncloser, closest_encloser-IsClosestEncloser}
use dns_resolver.Text.Split.{IsLabel}
use dns_resolver.Denial.Gaps.{Ascending, IsChained, Absent, covers-Absent}
use dns_resolver.Dnsmsg.{Rr}
use dns_resolver.Denial.Hashed.{Digest}
use dns_resolver.Denial.Claims.{
  collect_denial, require, prove_name_error, prove_no_closer_match, nsec_records, wildcard_of,
}
use dns_resolver.Denial.{find_covering, NsecRecord, covers, closest_encloser}
use dns_resolver.Prelude.{
  Option, List, ◌≡◌, Bytes, ok, All, ◌∷◌, some, [], none, refl, true, arith, Bool-cases, inl,
  Option-cases, ap, inr, sym, ◌∙◌, subst,
}
use dns_resolver.Text.{Unicode, labels_of, to_lower, dot}

module _ ⦃u : Unicode⦄ where
  find_covering-covers :
      (ns : List NsecRecord) (name : Bytes) (n : NsecRecord) (a : Bytes) (bs : List Bytes)
      → All (IsChained a bs) ns
      → find_covering ns name ≡ some n
      → (covers n name ≡ true) × IsChained a bs n
  unfolding find_covering
  find_covering-covers [] name n a bs h e = absurd (cc)
  find_covering-covers (m ∷ ms) name n a bs h e = elim (Bool-cases (covers m name)) [
    | inl hit ↦
        let same : m ≡ n = ground arith in
        (ap (λ x. covers x name) (sym same) ∙ hit, subst (IsChained a bs) same h.0)
    | inr miss ↦ find_covering-covers ms name n a bs h.1 (ground arith)
  ]

  -- A name that some record of the zone covers is not in the zone.
  find_covering-Absent :
      (ns : List NsecRecord) (name : Bytes) (n : NsecRecord) (a : Bytes) (bs : List Bytes)
      → Ascending a bs
      → All (IsChained a bs) ns
      → find_covering ns name ≡ some n
      → Absent name (a ∷ bs)
  find_covering-Absent ns name n a bs up h e =
      let (hit, chained) = find_covering-covers ns name n a bs h e in
      covers-Absent a bs n name up chained hit

  -- A response that carries NSEC records is judged by them alone.
  collect_denial-nsec :
      (records : List Rr) (n : NsecRecord) (ns : List NsecRecord)
      → nsec_records records ≡ n ∷ ns
      → collect_denial records ≡ ok (record { nsec = n ∷ ns; nsec3 = []; zone = [] })
  unfolding collect_denial
  collect_denial-nsec records n ns h = rw (h, collect_denial) refl

require-some : {A : Type 0} (o : Option A) → require o ≡ ok tt → (a : A) × (o ≡ some a)
require-some none h = absurd (cc)
require-some (some a) h = (a, refl)

module _ ⦃u : Unicode⦄ ⦃g : Digest⦄ where
  -- If the NSEC records of a response (there is one at least) all join a name of a zone to the
  -- next, or the last to the first, and ProveNameError accepts them for a name with no empty label,
  -- then the name is not in the zone, and neither is the wildcard at its closest encloser: the
  -- longest run of labels at the end of the name that a name of the zone ends in too.
  pub prove_name_error-Absent :
      (records : List Rr) (qname a : Bytes) (bs : List Bytes) (n : NsecRecord)
      (ns : List NsecRecord)
      → Ascending a bs
      → nsec_records records ≡ n ∷ ns
      → All (IsChained a bs) (n ∷ ns)
      → All IsLabel (labels_of (to_lower qname))
      → prove_name_error records qname ≡ ok tt
      → Absent qname (a ∷ bs)
        × ((e : Bytes) × IsClosestEncloser qname a bs e × Absent (b'*' ∷ dot ∷ e) (a ∷ bs))
  unfolding prove_name_error
  prove_name_error-Absent records qname a bs n ns up found chained good h =
      let collected = collect_denial-nsec records n ns found in
      elim (Option-cases (find_covering (n ∷ ns) qname)) [
        | inl miss ↦ absurd (ground (arith, collected))
        | inr (c, hit) ↦
            let wild : require (find_covering (n ∷ ns) (wildcard_of (closest_encloser c qname)))
                ≡ ok tt =
              ground (arith, collected) in
            let (w, hit') = require-some _ wild in
            let (covered, joined) = find_covering-covers (n ∷ ns) qname c a bs chained hit in
            (
              covers-Absent a bs c qname up joined covered,
              (
                closest_encloser c qname,
                closest_encloser-IsClosestEncloser a bs c qname up joined good covered,
                find_covering-Absent (n ∷ ns) (wildcard_of (closest_encloser c qname)) w a bs up
                    chained hit',
              ),
            )
      ]

  -- If the NSEC records of a response (there is one at least) all join a name of a zone to the
  -- next, or the last to the first, and ProveNoCloserMatch accepts them, then the name is not in
  -- the zone.
  pub prove_no_closer_match-Absent :
      (records : List Rr) (qname a : Bytes) (bs : List Bytes) (n : NsecRecord)
      (ns : List NsecRecord)
      → Ascending a bs
      → nsec_records records ≡ n ∷ ns
      → All (IsChained a bs) (n ∷ ns)
      → prove_no_closer_match records qname ≡ ok tt
      → Absent qname (a ∷ bs)
  unfolding prove_no_closer_match
  prove_no_closer_match-Absent records qname a bs n ns up found chained h =
      let collected = collect_denial-nsec records n ns found in
      let covered : require (find_covering (n ∷ ns) qname) ≡ ok tt = ground (arith, collected) in
      let (c, hit) = require-some (find_covering (n ∷ ns) qname) covered in
      find_covering-Absent (n ∷ ns) qname c a bs up chained hit
