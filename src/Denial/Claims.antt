-- ===== src/Denial/Claims.antt =====
-- What a response claims, and whether its denial records prove it: the functions of
-- dnssec/denial.go and the proofs of dnssec/nsec3.go. An error of Go is `err`, nil is `ok tt`.
use dns_resolver.Dnsmsg.{Rr, type_soa, type_ds, type_cname, type_ns}
use dns_resolver.Denial.{NsecRecord, find_covering, closest_encloser}
use dns_resolver.Denial.Hashed.{
  same_parameters, Nsec3Record, Digest, find_match, find_encloser, find_cover,
}
use dns_resolver.Dnsmsg.Dnssec.{as_nsec, type_in_bitmap, Rrsig, as_nsec3, Nsec3, opt_out}
use dns_resolver.Text.{
  labels_of, Unicode, equal_name, dot, trim_dot, after_dot, is_proper_subdomain, eqb, to_upper,
}
use dns_resolver.Prelude.{
  Bytes, List, Option, ◌∷◌, Result, ℕ, if◌then◌else◌, Bool, none, ok, ◌>>=◌, err, ◌==◌, ltb, some,
  false, [], ◌>>◌, no_denial, length, not, true, guard, ◌&&◌, ◌++◌,
}

-- "*." + s
abbrev pub wildcard_of : Bytes → Bytes
wildcard_of s = b'*' ∷ dot ∷ s

pub record Denial : Type 0 where
  pub nsec : List NsecRecord
  pub nsec3 : List Nsec3Record
  pub zone : Bytes

-- strings.Cut(s, "."), what stands before the dot
unfoldable pub first_label : Bytes → Bytes
first_label [] = []
first_label (c ∷ s) = if c == dot then [] else c ∷ first_label s

-- int(sig.Labels) < len(splitName(owner))
unfoldable pub is_wildcard_expansion : Bytes → Rrsig → Bool
unfolding labels_of
is_wildcard_expansion owner sig = ltb sig.labels (length (labels_of owner))

-- The first loop of collectDenial.
unfoldable pub nsec_records : List Rr → List NsecRecord
unfolding as_nsec
nsec_records [] = []
nsec_records (rr ∷ rrs) = elim (as_nsec rr) [
  | none ↦ nsec_records rrs
  | some n ↦ record { owner = rr.name; rr = n } ∷ nsec_records rrs
]

-- len(out) > 0 && !sameParameters(out[0].rr, n)
unfoldable pub parameters_differ : List Nsec3Record → Nsec3 → Bool
unfolding same_parameters
parameters_differ [] n = false
parameters_differ (m ∷ _) n = not (same_parameters m.rr n)

module _ ⦃u : Unicode⦄ where
  -- The loop of nsec3Records, with its variables `zone` and `out`.
  unfoldable pub nsec3_loop : Bytes → List Nsec3Record → List Rr → Result (List Nsec3Record × Bytes)
  unfolding as_nsec3 trim_dot first_label after_dot eqb equal_name parameters_differ to_upper
  nsec3_loop zone out [] = ok (out, zone)
  nsec3_loop zone out (rr ∷ rrs) =
      let name = trim_dot rr.name in
      let label = first_label name in
      let rest : Bytes = elim (after_dot name) [ none ↦ dot ∷ [] | some r ↦ r ] in
      let zone' = if eqb zone [] then rest else zone in
      elim (as_nsec3 rr) [
        | none ↦ nsec3_loop zone out rrs
        | some n ↦
            if eqb label []
            then err no_denial
            else if not (eqb zone []) && not (equal_name rest zone)
            then err no_denial
            else if parameters_differ out n
            then err no_denial
            else nsec3_loop zone' (out ++ (record { owner = to_upper label; rr = n } ∷ [])) rrs
      ]

  unfoldable pub collect_denial : List Rr → Result Denial
  unfolding nsec_records nsec3_loop
  collect_denial records = elim (nsec_records records) [
    | n ∷ ns ↦ ok (record { nsec = n ∷ ns; nsec3 = []; zone = [] })
    | [] ↦ do
      (nsec3s, zone) ← nsec3_loop [] [] records
      elim nsec3s [
        | [] ↦ err no_denial
        | m ∷ ms ↦ ok (record { nsec = []; nsec3 = m ∷ ms; zone = zone })
      ]
  ]

  -- The first NSEC record of the name.
  unfoldable pub find_owner : List NsecRecord → Bytes → Option NsecRecord
  unfolding equal_name
  find_owner [] name = none
  find_owner (n ∷ ns) name =
      let rest = find_owner ns name in if equal_name n.owner name then some n else rest

  -- Whether a record of the name lacks the type: the last loop of ProveNoData.
  unfoldable pub some_lacks : List NsecRecord → Bytes → ℕ → Result Bool
  unfolding equal_name type_in_bitmap
  some_lacks [] name qtype = ok false
  some_lacks (n ∷ ns) name qtype =
      let rest = some_lacks ns name qtype in
      if equal_name n.owner name
      then (do listed ← type_in_bitmap n.rr.type_bitmap qtype; if listed then rest else ok true)
      else rest

-- The tests of a record at the name itself, for a DS and for a type.
unfoldable pub denies_ds : Bytes → Result (Unit {0})
unfolding type_in_bitmap
denies_ds bitmap = do
  soa ← type_in_bitmap bitmap type_soa
  guard (not soa) no_denial
  ds ← type_in_bitmap bitmap type_ds
  guard (not ds) no_denial

unfoldable pub denies_type : Bytes → ℕ → Result (Unit {0})
unfolding type_in_bitmap
denies_type bitmap qtype = do
  listed ← type_in_bitmap bitmap qtype
  guard (not listed) no_denial
  cname ← type_in_bitmap bitmap type_cname
  guard (not cname) no_denial
  ns ← type_in_bitmap bitmap type_ns
  soa ← type_in_bitmap bitmap type_soa
  guard (not ((not (qtype == type_ds) && ns) && not soa)) no_denial

-- err, if there is no such record
abbrev pub require {ℓ} : {A : Type ℓ} → Option A → Result (Unit {0})
require none = err no_denial
require (some _) = ok tt

module _ ⦃u : Unicode⦄ ⦃g : Digest⦄ where
  unfoldable pub prove_no_ds_nsec3 : List Nsec3Record → Bytes → Result (Unit {0})
  unfolding find_match find_cover denies_ds opt_out
  prove_no_ds_nsec3 ns zone = do
    match ← find_match ns zone
    elim match [
      | some n ↦ denies_ds n.rr.type_bitmap
      | none ↦ do
        cover ← find_cover ns zone
        elim cover [ none ↦ err no_denial | some n ↦ guard (opt_out n.rr) no_denial ]
    ]

  unfoldable pub prove_name_error_nsec3 : List Nsec3Record → Bytes → Bytes → Result (Unit {0})
  unfolding find_encloser find_cover
  prove_name_error_nsec3 ns qname zone = do
    (encloser, next_closer) ← find_encloser ns qname zone
    cover ← find_cover ns next_closer
    require cover
    wildcard ← find_cover ns (wildcard_of encloser)
    require wildcard

  unfoldable pub prove_no_data_nsec3 : List Nsec3Record → Bytes → ℕ → Bytes → Result (Unit {0})
  unfolding find_match find_encloser find_cover denies_type opt_out type_in_bitmap
  prove_no_data_nsec3 ns qname qtype zone = do
    match ← find_match ns qname
    elim match [
      | some n ↦ denies_type n.rr.type_bitmap qtype
      | none ↦ do
        (encloser, next_closer) ← find_encloser ns qname zone
        cover ← find_cover ns next_closer
        elim cover [
          | none ↦ err no_denial
          | some c ↦ if (qtype == type_ds) && opt_out c.rr then ok tt else do
            wildcard ← find_match ns (wildcard_of encloser)
            elim wildcard [
              | none ↦ err no_denial
              | some w ↦ do
                listed ← type_in_bitmap w.rr.type_bitmap qtype
                guard (not listed) no_denial
            ]
        ]
    ]

  unfoldable pub prove_no_closer_match_nsec3 : List Nsec3Record → Bytes → Bytes → Result (Unit {0})
  unfolding find_encloser find_cover
  prove_no_closer_match_nsec3 ns qname zone = do
    (_, next_closer) ← find_encloser ns qname zone
    cover ← find_cover ns next_closer
    require cover

  -- ProveNoDS
  unfoldable pub prove_no_ds : List Rr → Bytes → Result (Unit {0})
  unfolding collect_denial prove_no_ds_nsec3 find_owner denies_ds find_covering
  prove_no_ds records zone = do
    d ← collect_denial records
    elim d.nsec3 [
      | _ ∷ _ ↦ prove_no_ds_nsec3 d.nsec3 zone
      | [] ↦ elim (find_owner d.nsec zone) [
        | some n ↦ denies_ds n.rr.type_bitmap
        | none ↦ require (find_covering d.nsec zone)
      ]
    ]

  -- ProveNameError
  unfoldable pub prove_name_error : List Rr → Bytes → Result (Unit {0})
  unfolding collect_denial prove_name_error_nsec3 find_covering closest_encloser
  prove_name_error records qname = do
    d ← collect_denial records
    elim d.nsec3 [
      | _ ∷ _ ↦ prove_name_error_nsec3 d.nsec3 qname d.zone
      | [] ↦ elim (find_covering d.nsec qname) [
        | none ↦ err no_denial
        | some n ↦ require (find_covering d.nsec (wildcard_of (closest_encloser n qname)))
      ]
    ]

  -- ProveNoData, for a name that no record is of
  unfoldable pub prove_no_data_covered : List NsecRecord → Bytes → ℕ → Result (Unit {0})
  unfolding find_covering is_proper_subdomain closest_encloser some_lacks
  prove_no_data_covered ns qname qtype = elim (find_covering ns qname) [
    | none ↦ err no_denial
    | some c ↦ if is_proper_subdomain c.rr.next_domain qname then ok tt else do
      lacks ← some_lacks ns (wildcard_of (closest_encloser c qname)) qtype
      guard lacks no_denial
  ]

  -- ProveNoData
  unfoldable pub prove_no_data : List Rr → Bytes → ℕ → Result (Unit {0})
  unfolding collect_denial prove_no_data_nsec3 find_owner denies_type prove_no_data_covered
  prove_no_data records qname qtype = do
    d ← collect_denial records
    elim d.nsec3 [
      | _ ∷ _ ↦ prove_no_data_nsec3 d.nsec3 qname qtype d.zone
      | [] ↦ elim (find_owner d.nsec qname) [
        | some n ↦ denies_type n.rr.type_bitmap qtype
        | none ↦ prove_no_data_covered d.nsec qname qtype
      ]
    ]

  -- ProveNoCloserMatch
  unfoldable pub prove_no_closer_match : List Rr → Bytes → Result (Unit {0})
  unfolding collect_denial prove_no_closer_match_nsec3 find_covering
  prove_no_closer_match records qname = do
    d ← collect_denial records
    elim d.nsec3 [
      | _ ∷ _ ↦ prove_no_closer_match_nsec3 d.nsec3 qname d.zone
      | [] ↦ require (find_covering d.nsec qname)
    ]
