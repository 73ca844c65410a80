-- ===== src/Denial.antt =====
-- The denial records of dnssec/denial.go: the canonical order of names, the gap of an NSEC record
-- and the searches for a record. The result of a comparison, an int whose sign is read in Go, is
-- an `Ordering`.
pub mod Order
pub mod Gaps
pub mod Hashed
pub mod Claims
pub mod Shared
pub mod Suffixes
pub mod Enclosers
pub mod Soundness
pub mod NoDs
pub mod Settled
pub mod Undecided
pub mod Safety
pub mod HashedVerdicts
pub mod Verdicts
use dns_resolver.Dnsmsg.Dnssec.{Nsec}
use dns_resolver.Text.{eqb, Unicode, labels_of, to_lower, join}
use dns_resolver.Prelude.{
  List, Bytes, ◌∷◌, ℕ, Bool, Option, ◌++◌, if◌then◌else◌, true, none, [], suc, false, ◌&&◌, leb,
  some, ◌==◌, ◌||◌, length, drop, ◌-◌, not,
}
use Prim.Native.Nat.{compare, Ordering}
use Prim.Native.Nat.Ordering.{lt, eq, gt}

-- strings.Compare, over any order of the elements.
unfoldable pub lex {ℓ} : {A : Type ℓ} → (A → A → Ordering) → List A → List A → Ordering
lex cmp [] [] = Ordering.eq
lex cmp [] (_ ∷ _) = Ordering.lt
lex cmp (_ ∷ _) [] = Ordering.gt
lex cmp (x ∷ xs) (y ∷ ys) =
    let rest = lex cmp xs ys in elim (cmp x y) [ eq ↦ rest | lt ↦ Ordering.lt | gt ↦ Ordering.gt ]

-- c < 0 and c > 0
abbrev pub is_less : Ordering → Bool
is_less Ordering.lt = true
is_less Ordering.eq = false
is_less Ordering.gt = false

abbrev pub is_greater : Ordering → Bool
is_greater Ordering.lt = false
is_greater Ordering.eq = false
is_greater Ordering.gt = true

-- The labels of a list from its end, where the loops of the source start.
unfoldable pub backwards {ℓ} : {A : Type ℓ} → List A → List A
backwards [] = []
backwards (x ∷ xs) = backwards xs ++ (x ∷ [])

-- The labels that two lists share in front.
unfoldable pub shared : List Bytes → List Bytes → ℕ
unfolding eqb
shared (x ∷ xs) (y ∷ ys) = let n = shared xs ys in if eqb x y then suc n else 0
shared _ _ = 0

pub record NsecRecord : Type 0 where
  pub owner : Bytes
  pub rr : Nsec

module _ ⦃u : Unicode⦄ where
  -- splitName(strings.ToLower(a)), from the top of the tree down
  unfoldable pub path_of : Bytes → List Bytes
  unfolding backwards labels_of to_lower
  path_of name = backwards (labels_of (to_lower name))

  -- CompareNames
  unfoldable pub compare_names : Bytes → Bytes → Ordering
  unfolding lex path_of
  compare_names a b = lex (lex compare) (path_of a) (path_of b)

  unfoldable pub common_suffix : Bytes → Bytes → Bytes
  unfolding shared path_of labels_of to_lower join
  common_suffix a b =
      let n = shared (path_of a) (path_of b) in
      let al = labels_of (to_lower a) in if n == 0 then [] else join (drop (length al - n) al)

  -- nsecRecord.covers
  unfoldable pub covers : NsecRecord → Bytes → Bool
  unfolding compare_names
  covers n name =
      let after_owner = is_greater (compare_names name n.owner) in
      let before_next = is_less (compare_names name n.rr.next_domain) in
      if not (is_less (compare_names n.owner n.rr.next_domain))
      then after_owner || before_next
      else after_owner && before_next

  -- nsecRecord.closestEncloser
  unfoldable pub closest_encloser : NsecRecord → Bytes → Bytes
  unfolding common_suffix labels_of
  closest_encloser n name =
      let a = common_suffix name n.owner in
      let b = common_suffix name n.rr.next_domain in
      if leb (length (labels_of b)) (length (labels_of a)) then a else b

  unfoldable pub find_covering : List NsecRecord → Bytes → Option NsecRecord
  unfolding covers
  find_covering [] name = none
  find_covering (n ∷ ns) name =
      let rest = find_covering ns name in if covers n name then some n else rest
