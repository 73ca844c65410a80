-- ===== src/Denial/Gaps.antt =====
-- covers of dnssec/denial.go, in a zone with its names in order.
use dns_resolver.Denial.Order.{compare_names-order, flip}
use dns_resolver.Denial.{compare_names, NsecRecord, is_less, covers}
use dns_resolver.Prelude.{
  Bytes, List, ◌∷◌, All, ◌≡◌, [], ◌≢◌, arith, ◌⊎◌, false, true, Bool-cases, inl, inr, subst,
}
use dns_resolver.Text.{Unicode}
use Prim.Native.Nat.{Ordering}

module _ ⦃u : Unicode⦄ where
  -- The names of a zone in canonical order, from the one after `a` on.
  abbrev pub Ascending : Bytes → List Bytes → Type 0
  Ascending a [] = Unit
  Ascending a (b ∷ bs) = (compare_names a b ≡ Ordering.lt) × Ascending b bs

  -- The last name of a zone whose first is `a`.
  unfoldable pub last_name : Bytes → List Bytes → Bytes
  last_name a [] = a
  last_name a (b ∷ bs) = last_name b bs

  -- The name is not one of these.
  abbrev pub Absent : Bytes → List Bytes → Type 0
  Absent name = All (λ z. compare_names name z ≢ Ordering.eq)

  pub less_trans :
      (a b c : Bytes)
      → compare_names a b ≡ Ordering.lt
      → compare_names b c ≡ Ordering.lt
      → compare_names a c ≡ Ordering.lt
  less_trans a b c = (compare_names-order a b c).2

  pub less_swap : (a b : Bytes) → compare_names b a ≡ flip (compare_names a b)
  less_swap a b = (compare_names-order a b a).1

  -- A name before the first of an ascending run is not in the run.
  Absent-before :
      (name a : Bytes) (bs : List Bytes)
      → compare_names name a ≡ Ordering.lt
      → Ascending a bs
      → Absent name (a ∷ bs)
  Absent-before name a [] h up = (λ e. absurd (ground arith), tt)
  Absent-before name a (b ∷ bs) h up =
      (λ e. absurd (ground arith), Absent-before name b bs (less_trans name a b h up.0) up.1)

  -- One name and the next of the zone `a ∷ bs`, round from the last to the first: the owner and the
  -- next name of the NSEC records of the zone.
  pub data Link : Bytes → List Bytes → Bytes → Bytes → Type 0 where
    here : {a b : Bytes} {bs : List Bytes} → Link a (b ∷ bs) a b
    there : {a b x y : Bytes} {bs : List Bytes} → Link b bs x y → Link a (b ∷ bs) x y

  abbrev pub IsChained : Bytes → List Bytes → NsecRecord → Type 0
  IsChained a bs n =
      Link a bs n.owner n.rr.next_domain ⊎ ((n.owner ≡ last_name a bs) × (n.rr.next_domain ≡ a))

  -- What comes behind a name of the run comes behind its first name.
  after-Link :
      (name : Bytes) {a x y : Bytes} {bs : List Bytes}
      → Link a bs x y
      → Ascending a bs
      → compare_names x name ≡ Ordering.lt
      → compare_names a name ≡ Ordering.lt
  after-Link name here up h = h
  after-Link name (there {a} {b} l) up h = less_trans a b name up.0 (after-Link name l up.1 h)

  pub Link-less :
      {a x y : Bytes} {bs : List Bytes}
      → Link a bs x y
      → Ascending a bs
      → compare_names x y ≡ Ordering.lt
  Link-less here up = up.0
  Link-less (there l) up = Link-less l up.1

  Absent-Link :
      (name : Bytes) {a x y : Bytes} {bs : List Bytes}
      → Link a bs x y
      → Ascending a bs
      → compare_names x name ≡ Ordering.lt
      → compare_names name y ≡ Ordering.lt
      → Absent name (a ∷ bs)
  Absent-Link name (here {a} {b} {bs}) up low high =
      (λ e. absurd (ground (arith, less_swap a name)), Absent-before name b bs high up.1)
  Absent-Link name (there {a} {b} l) up low high = (
    λ e.
        absurd
          (ground (arith, less_swap a name, less_trans a b name up.0 (after-Link name l up.1 low))),
    Absent-Link name l up.1 low high,
  )

  after_last :
      (name a : Bytes) (bs : List Bytes)
      → Ascending a bs
      → compare_names (last_name a bs) name ≡ Ordering.lt
      → (compare_names a name ≡ Ordering.lt) × Absent name (a ∷ bs)
  unfolding last_name
  after_last name a [] up h = (h, (λ e. absurd (ground (arith, less_swap a name)), tt))
  after_last name a (b ∷ bs) up h =
      let (low, gone) = after_last name b bs up.1 h in
      let first = less_trans a b name up.0 low in
      (first, (λ e. absurd (ground (arith, less_swap a name)), gone))

  -- The last name of a zone does not come before the first.
  pub last_not_less :
      (a : Bytes) (bs : List Bytes)
      → Ascending a bs
      → is_less (compare_names (last_name a bs) a) ≡ false
  unfolding last_name
  last_not_less a bs up = elim (Bool-cases (is_less (compare_names (last_name a bs) a))) [
    | inr not_less ↦ not_less
    | inl less ↦
        let (low, gone) = after_last a a bs up (ground arith) in
        absurd (ground (arith, less_swap a a))
  ]

  -- In a zone whose names ascend in canonical order, an NSEC record that joins a name of the zone
  -- to the next, or the last to the first, covers no name of the zone.
  pub covers-Absent :
      (a : Bytes) (bs : List Bytes) (n : NsecRecord) (name : Bytes)
      → Ascending a bs
      → IsChained a bs n
      → covers n name ≡ true
      → Absent name (a ∷ bs)
  unfolding covers
  covers-Absent a bs n name up (inl l) h =
      let gap = Link-less l up in
      Absent-Link name l up (ground (arith, less_swap name n.owner)) (ground arith)
  covers-Absent a bs n name up (inr (at_end, wraps)) h =
      let open_end : is_less (compare_names n.owner n.rr.next_domain) ≡ false =
        rw (at_end, wraps) (last_not_less a bs up) in
      elim (Bool-cases (is_less (compare_names name n.rr.next_domain))) [
        | inl low ↦ Absent-before name a bs (ground arith) up
        | inr high ↦
            let past : compare_names n.owner name ≡ Ordering.lt =
              ground (arith, less_swap name n.owner) in
            (after_last name a bs up
              (subst (λ x. compare_names x name ≡ Ordering.lt) at_end past)).1
      ]
