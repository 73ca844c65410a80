-- ===== src/Denial/Enclosers.antt =====
-- closestEncloser of dnssec/denial.go, in a zone with its names in order.
use dns_resolver.Denial.Suffixes.{closest_encloser-IsSuffix}
use dns_resolver.Denial.Order.{compare_names-order, lex-IsOrder, compare-IsOrder}
use dns_resolver.Denial.Gaps.{
  Ascending, last_name, Link, there, IsChained, here, Link-less, less_swap, last_not_less,
  less_trans,
}
use dns_resolver.Denial.Shared.{IsPrefix, IsPrefix-shared, shared-before, shared-after}
use dns_resolver.Denial.{
  NsecRecord, backwards, closest_encloser, path_of, shared, compare_names, covers, is_less, lex,
}
use Prim.Native.Nat.{compare, Ordering}
use dns_resolver.Text.Split.{IsLabel}
use dns_resolver.Text.{Unicode, join, labels_of, to_lower}
use dns_resolver.Prelude.{
  Bytes, List, ◌≡◌, [], ◌∷◌, length, ◌≤◌, arith, refl, Member, All, sym, ◌⊎◌, ap, Bool-cases, subst,
  inl, inr, ◌≢◌, true, false,
}

module _ ⦃u : Unicode⦄ where
  -- The name is the longest run of labels at the end of `qname` that a name of the zone `a ∷ bs`
  -- ends in too: `path` is its labels, from the top of the tree.
  pub record IsClosestEncloser (qname a : Bytes) (bs : List Bytes) (name : Bytes) : Type 0 where
    pub path : List Bytes
    pub is_name : name ≡ join (backwards path)
    pub above : IsPrefix path (path_of qname)
    pub of_zone : (z : Bytes) × Member z (a ∷ bs) × IsPrefix path (path_of z)
    pub closest :
        (z : Bytes) (longer : List Bytes)
        → Member z (a ∷ bs)
        → IsPrefix longer (path_of qname)
        → IsPrefix longer (path_of z)
        → length longer ≤ length path

  -- The one is the other, or comes before it.
  abbrev UpTo : Bytes → Bytes → Type 0
  UpTo x y = (x ≡ y) ⊎ (compare_names x y ≡ Ordering.lt)

  UpTo-not_behind : (x y : Bytes) → UpTo x y → compare_names x y ≢ Ordering.gt
  UpTo-not_behind x y (inl same) h =
      absurd (ground (arith, (compare_names-order x y x).0.1 (ap path_of same)))
  UpTo-not_behind x y (inr less) h = absurd (ground (arith, less))

  before_all : (a b z : Bytes) → compare_names a b ≡ Ordering.lt → UpTo b z → UpTo a z
  before_all a b z h (inl same) = inr (subst (λ x. compare_names a x ≡ Ordering.lt) same h)
  before_all a b z h (inr less) = inr (less_trans a b z h less)

  Link-Members :
      {a x y : Bytes} {bs : List Bytes} → Link a bs x y → Member x (a ∷ bs) × Member y (a ∷ bs)
  Link-Members here = (inl refl, inr (inl refl))
  Link-Members (there l) = let (m, k) = Link-Members l in (inr m, inr k)

  last_name-Member : (a : Bytes) (bs : List Bytes) → Member (last_name a bs) (a ∷ bs)
  unfolding last_name
  last_name-Member a [] = inl refl
  last_name-Member a (b ∷ bs) = inr (last_name-Member b bs)

  -- The first name of an ascending run comes first, and the last comes last.
  from_first :
      (a : Bytes) (bs : List Bytes) (z : Bytes) → Ascending a bs → Member z (a ∷ bs) → UpTo a z
  from_first a bs z up (inl same) = inl (sym same)
  from_first a [] z up (inr m) = absurd m
  from_first a (b ∷ bs) z up (inr m) = before_all a b z up.0 (from_first b bs z up.1 m)

  to_last :
      (a : Bytes) (bs : List Bytes) (z : Bytes)
      → Ascending a bs
      → Member z (a ∷ bs)
      → UpTo z (last_name a bs)
  unfolding last_name
  to_last a [] z up (inl same) = inl same
  to_last a [] z up (inr m) = absurd m
  to_last a (b ∷ bs) z up (inl same) =
      subst (λ x. UpTo x (last_name b bs)) (sym same)
        (before_all a b (last_name b bs) up.0 (to_last b bs b up.1 (inl refl)))
  to_last a (b ∷ bs) z up (inr m) = to_last b bs z up.1 m

  -- Around a link, a name comes up to its first end, or from its second on.
  Link-sides :
      {a x y : Bytes} {bs : List Bytes} (z : Bytes)
      → Link a bs x y
      → Ascending a bs
      → Member z (a ∷ bs)
      → UpTo z x ⊎ UpTo y z
  Link-sides z here up (inl same) = inl (inl same)
  Link-sides z (here {a} {b} {bs}) up (inr m) = inr (from_first b bs z up.1 m)
  Link-sides z (there {a} {b} {x} {y} {bs} l) up (inl same) = inl (
      subst (λ j. UpTo j x) (sym same)
        (before_all a b x up.0 (from_first b bs x up.1 (Link-Members l).0)))
  Link-sides z (there l) up (inr m) = Link-sides z l up.1 m

  -- What the zone's names share with a name in the gap of a record.
  abbrev Bounded : NsecRecord → Bytes → Bytes → Type 0
  Bounded n qname z =
      (shared (path_of qname) (path_of z) ≤ shared (path_of qname) (path_of n.owner))
      ⊎ (shared (path_of qname) (path_of z) ≤ shared (path_of qname) (path_of n.rr.next_domain))

  before-Bounded :
      (n : NsecRecord) (qname z : Bytes)
      → compare_names z n.owner ≢ Ordering.gt
      → compare_names n.owner qname ≡ Ordering.lt
      → Bounded n qname z
  unfolding compare_names
  before-Bounded n qname z h k = inl (
      shared-before (lex compare) (lex-IsOrder compare compare-IsOrder) (path_of qname)
        (path_of n.owner) (path_of z) h k)

  after-Bounded :
      (n : NsecRecord) (qname z : Bytes)
      → compare_names qname n.rr.next_domain ≡ Ordering.lt
      → compare_names n.rr.next_domain z ≢ Ordering.gt
      → Bounded n qname z
  unfolding compare_names
  after-Bounded n qname z h k = inr (
      shared-after (lex compare) (lex-IsOrder compare compare-IsOrder) (path_of qname)
        (path_of n.rr.next_domain) (path_of z) h k)

  covers-Bounded :
      (a : Bytes) (bs : List Bytes) (n : NsecRecord) (qname z : Bytes)
      → Ascending a bs
      → IsChained a bs n
      → covers n qname ≡ true
      → Member z (a ∷ bs)
      → Bounded n qname z
  unfolding covers
  covers-Bounded a bs n qname z up (inl l) h m =
      let gap = Link-less l up in
      elim (Link-sides z l up m) [
        | inl low ↦
            before-Bounded n qname z (UpTo-not_behind z n.owner low)
              (ground (arith, less_swap qname n.owner))
        | inr high ↦
            after-Bounded n qname z (ground arith) (UpTo-not_behind n.rr.next_domain z high)
      ]
  covers-Bounded a bs n qname z up (inr (at_end, wraps)) h m =
      let open_end : is_less (compare_names n.owner n.rr.next_domain) ≡ false =
        rw (at_end, wraps) (last_not_less a bs up) in
      elim (Bool-cases (is_less (compare_names qname n.rr.next_domain))) [
        | inl low ↦ after-Bounded n qname z (ground arith) (
            UpTo-not_behind n.rr.next_domain z
              (subst (λ x. UpTo x z) (sym wraps) (from_first a bs z up m)))
        | inr high ↦
            before-Bounded n qname z
              (UpTo-not_behind z n.owner (subst (UpTo z) (sym at_end) (to_last a bs z up m)))
              (ground (arith, less_swap qname n.owner))
      ]

  -- In a zone whose names ascend in canonical order, closestEncloser of an NSEC record that joins a
  -- name of the zone to the next, or the last to the first, and covers a name, is the closest
  -- encloser of the name.
  pub closest_encloser-IsClosestEncloser :
      (a : Bytes) (bs : List Bytes) (n : NsecRecord) (qname : Bytes)
      → Ascending a bs
      → IsChained a bs n
      → All IsLabel (labels_of (to_lower qname))
      → covers n qname ≡ true
      → IsClosestEncloser qname a bs (closest_encloser n qname)
  closest_encloser-IsClosestEncloser a bs n qname up chained good h =
      let (p, named, front, here_or, own, next) = closest_encloser-IsSuffix n qname good in
      record {
        path = p;
        is_name = named;
        above = front;
        of_zone = ends p chained here_or;
        closest = λ z longer m inside inz.
            let most = IsPrefix-shared longer (path_of qname) (path_of z) inside inz in
            elim (covers-Bounded a bs n qname z up chained h m) [
              | inl le ↦ omega (arith, most, le, own)
              | inr le ↦ omega (arith, most, le, next)
            ];
      }
    where
      ends :
          (p : List Bytes)
          → IsChained a bs n
          → IsPrefix p (path_of n.owner) ⊎ IsPrefix p (path_of n.rr.next_domain)
          → (z : Bytes) × Member z (a ∷ bs) × IsPrefix p (path_of z)
      ends p (inl l) (inl f) = (n.owner, (Link-Members l).0, f)
      ends p (inl l) (inr f) = (n.rr.next_domain, (Link-Members l).1, f)
      ends p (inr (e, w)) (inl f) =
          (n.owner, subst (λ x. Member x (a ∷ bs)) (sym e) (last_name-Member a bs), f)
      ends p (inr (e, w)) (inr f) = (n.rr.next_domain, inl w, f)
