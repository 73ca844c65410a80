-- ===== src/Denial/Suffixes.antt =====
-- commonSuffix and closestEncloser of dnssec/denial.go, on the labels of names.
use dns_resolver.Denial.Shared.{IsPrefix, shared-IsPrefix}
use dns_resolver.Denial.{NsecRecord, backwards, closest_encloser, common_suffix, path_of, shared}
use dns_resolver.Text.Split.{IsLabel, labels_of-join}
use dns_resolver.Text.{Unicode, join, labels_of, to_lower}
use dns_resolver.Prelude.{
  Bytes, List, ◌≡◌, [], ◌∷◌, ◌++◌, length, ◌≤◌, arith, refl, All, sym, ◌∙◌, length-append, ◌⊎◌,
  append-nil, ap, Bool-cases, append_assoc, subst, leb, inl, leb→le, inr, ℕ, if◌then◌else◌, ◌==◌,
  drop, ◌-◌, ==_iff, drop-append,
}

backwards-append : (xs ys : List Bytes) → backwards (xs ++ ys) ≡ backwards ys ++ backwards xs
unfolding backwards
backwards-append [] ys = sym (append-nil (backwards ys))
backwards-append (x ∷ xs) ys =
    ap (λ l. l ++ (x ∷ [])) (backwards-append xs ys)
    ∙ append_assoc (backwards ys) (backwards xs) (x ∷ [])

backwards-backwards : (xs : List Bytes) → backwards (backwards xs) ≡ xs
unfolding backwards
backwards-backwards [] = refl
backwards-backwards (x ∷ xs) =
    backwards-append (backwards xs) (x ∷ []) ∙ ap (◌∷◌ x) (backwards-backwards xs)

length-backwards : (xs : List Bytes) → length (backwards xs) ≡ length xs
unfolding backwards
length-backwards [] = refl
length-backwards (x ∷ xs) =
    omega (arith, length-append (backwards xs) (x ∷ []), length-backwards xs)

All-behind : (P : Bytes → Type 0) (xs ys : List Bytes) → All P (xs ++ ys) → All P ys
All-behind P [] ys h = h
All-behind P (x ∷ xs) ys h = All-behind P xs ys h.1

-- The last labels of a name, joined.
tail_of :
    (k : ℕ) (front back all : List Bytes)
    → all ≡ front ++ back
    → length back ≡ k
    → (if k == 0 then [] else join (drop (length all - k) all)) ≡ join back
unfolding join
tail_of k front back all e n = elim (Bool-cases (k == 0)) [
  | inl zero_labels ↦
      rw zero_labels (empty_back back (omega (arith, n, (==_iff k 0).0 zero_labels)))
  | inr some_labels ↦
      let at_back : length all - k ≡ length front =
        omega (arith, ap length e, length-append front back, n) in
      rw some_labels (
        ap join
          (ap (λ j. drop j all) at_back ∙ ap (drop (length front)) e ∙ drop-append front back))
]
  where
    empty_back : (l : List Bytes) → length l ≡ 0 → [] ≡ join l
    empty_back [] h = refl
    empty_back (x ∷ l) h = absurd (omega (arith, h))

module _ ⦃u : Unicode⦄ where
  -- A common suffix, as labels.
  abbrev IsSuffix : Bytes → Bytes → List Bytes → Type 0
  IsSuffix qname other p =
      (length p ≡ shared (path_of qname) (path_of other))
      × IsPrefix p (path_of qname)
      × IsPrefix p (path_of other)
      × (common_suffix qname other ≡ join (backwards p))
      × (length (labels_of (common_suffix qname other)) ≡ length p)

  common_suffix-IsSuffix :
      (qname other : Bytes)
      → All IsLabel (labels_of (to_lower qname))
      → (p : List Bytes) × IsSuffix qname other p
  common_suffix-IsSuffix qname other good =
      let (p, n, (r, eq), other_eq) = shared-IsPrefix (path_of qname) (path_of other) in
      let al = labels_of (to_lower qname) in
      let split : al ≡ backwards r ++ backwards p =
        unfold path_of in sym (backwards-backwards al) ∙ ap backwards eq ∙ backwards-append p r in
      let labels : All IsLabel (backwards p) =
        All-behind IsLabel (backwards r) (backwards p) (subst (All IsLabel) split good) in
      let named : common_suffix qname other ≡ join (backwards p) =
        unfold common_suffix path_of in
        tail_of (shared (path_of qname) (path_of other)) (backwards r) (backwards p) al split
          (length-backwards p ∙ n) in
      let count : length (labels_of (common_suffix qname other)) ≡ length p =
        ap (λ x. length (labels_of x)) named
        ∙ ap length (labels_of-join (backwards p) labels)
        ∙ length-backwards p in
      (p, (n, (r, eq), other_eq, named, count))

  pub closest_encloser-IsSuffix :
      (n : NsecRecord) (qname : Bytes)
      → All IsLabel (labels_of (to_lower qname))
      → (p : List Bytes) × (closest_encloser n qname ≡ join (backwards p))
        × IsPrefix p (path_of qname)
        × (IsPrefix p (path_of n.owner) ⊎ IsPrefix p (path_of n.rr.next_domain))
        × (shared (path_of qname) (path_of n.owner) ≤ length p)
        × (shared (path_of qname) (path_of n.rr.next_domain) ≤ length p)
  unfolding closest_encloser
  closest_encloser-IsSuffix n qname good =
      let (p, (sp, fp, op, np, cp)) = common_suffix-IsSuffix qname n.owner good in
      let (q, (sq, fq, oq, nq, cq)) = common_suffix-IsSuffix qname n.rr.next_domain good in
      elim (Bool-cases (
        leb (length (labels_of (common_suffix qname n.rr.next_domain)))
          (length (labels_of (common_suffix qname n.owner))))) [
            | inl deeper ↦ (
              p,
              rw deeper np,
              fp,
              inl op,
              omega (arith, sp),
              omega (arith, sp, sq, cp, cq, leb→le _ _ deeper),
            )
            | inr shorter ↦ (
              q,
              rw shorter nq,
              fq,
              inr oq,
              ground (arith, sp, sq, cp, cq, shorter),
              omega (arith, sq),
            )
          ]
