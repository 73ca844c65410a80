-- ===== src/Signature/Sorting.antt =====
-- The order of the records in what a signature is made over (signedData of dnssec/verify.go).
use dns_resolver.Text.Split.{eqb_iff}
use dns_resolver.Text.{eqb}
use dns_resolver.Signature.{insert_sorted, sort, unrepeated_after, unrepeated}
use dns_resolver.Denial.{lex, is_greater}
use dns_resolver.Prelude.{
  Bytes, List, ◌∷◌, All, ◌≡◌, [], inl, Bool-cases, ◌⊎◌, false, subst, inr, arith, sym, ◌↔◌, ◌≢◌,
  refl, Member, All-member,
}
use dns_resolver.Denial.Order.{IsOrder, compare-IsOrder, lex-IsOrder}
use Prim.Native.Nat.{compare, Ordering}

abbrev bytes-IsOrder : IsOrder (lex compare)
bytes-IsOrder = lex-IsOrder compare compare-IsOrder

-- Each element is less than those behind it, or not greater.
abbrev pub Ascending : List Bytes → Type 0
Ascending [] = Unit
Ascending (x ∷ xs) = All (λ y. lex compare x y ≡ Ordering.lt) xs × Ascending xs

abbrev Sorted : List Bytes → Type 0
Sorted [] = Unit
Sorted (x ∷ xs) = All (λ y. is_greater (lex compare x y) ≡ false) xs × Sorted xs

All-map : {P Q : Bytes → Type 0} (xs : List Bytes) → ((x : Bytes) → P x → Q x) → All P xs → All Q xs
All-map [] f h = tt
All-map (x ∷ xs) f h = (f x h.0, All-map xs f h.1)

-- Not greater goes through.
le_trans :
    (x y z : Bytes)
    → is_greater (lex compare x y) ≡ false
    → is_greater (lex compare y z) ≡ false
    → is_greater (lex compare x z) ≡ false
le_trans x y z h k = let o = bytes-IsOrder in ground (arith, o.same x y, o.same y z, o.trans x y z)

All-insert_sorted :
    (P : Bytes → Type 0) (x : Bytes) (ys : List Bytes) → P x → All P ys → All P (insert_sorted x ys)
unfolding insert_sorted
All-insert_sorted P x [] p h = (p, tt)
All-insert_sorted P x (y ∷ ys) p h = elim (Bool-cases (is_greater (lex compare x y))) [
  | inl gt ↦ rw gt (h.0, All-insert_sorted P x ys p h.1)
  | inr le ↦ rw le (p, h)
]

insert_sorted-Sorted : (x : Bytes) (ys : List Bytes) → Sorted ys → Sorted (insert_sorted x ys)
unfolding insert_sorted
insert_sorted-Sorted x [] h = (tt, tt)
insert_sorted-Sorted x (y ∷ ys) h = elim (Bool-cases (is_greater (lex compare x y))) [
  | inl gt ↦ rw gt (
    All-insert_sorted _ x ys (ground (arith, bytes-IsOrder.swap x y)) h.0,
    insert_sorted-Sorted x ys h.1,
  )
  | inr le ↦ rw le ((le, All-map ys (λ z k. le_trans x y z le k) h.0), h)
]

sort-Sorted : (xs : List Bytes) → Sorted (sort xs)
unfolding sort
sort-Sorted [] = tt
sort-Sorted (x ∷ xs) = insert_sorted-Sorted x (sort xs) (sort-Sorted xs)

-- What is left has nothing new.
All-unrepeated_after :
    (P : Bytes → Type 0) (prev : Bytes) (xs : List Bytes)
    → All P xs
    → All P (unrepeated_after prev xs)
unfolding unrepeated_after
All-unrepeated_after P prev [] h = tt
All-unrepeated_after P prev (x ∷ xs) h = elim (Bool-cases (eqb x prev)) [
  | inl same ↦ rw same (All-unrepeated_after P x xs h.1)
  | inr new ↦ rw new (h.0, All-unrepeated_after P x xs h.1)
]

unrepeated_after-Ascending :
    (prev : Bytes) (xs : List Bytes)
    → All (λ y. is_greater (lex compare prev y) ≡ false) xs
    → Sorted xs
    → All (λ y. lex compare prev y ≡ Ordering.lt) (unrepeated_after prev xs)
      × Ascending (unrepeated_after prev xs)
unfolding unrepeated_after
unrepeated_after-Ascending prev [] h s = (tt, tt)
unrepeated_after-Ascending prev (x ∷ xs) h s =
    let (front, rest) = unrepeated_after-Ascending x xs s.0 s.1 in
    elim (Bool-cases (eqb x prev)) [
      | inl same ↦
          let e : x ≡ prev = (eqb_iff x prev).0 same in
          rw same (
            subst (λ p. All (λ y. lex compare p y ≡ Ordering.lt) (unrepeated_after x xs)) e front,
            rest,
          )
      | inr new ↦
          let o = bytes-IsOrder in
          let lt : lex compare prev x ≡ Ordering.lt =
            ground (arith, o.same prev x, eqb_iff x prev, h.0) in
          rw new ((lt, All-map _ (λ z k. o.trans prev x z lt k) front), (front, rest))
    ]

unrepeated-Ascending : (xs : List Bytes) → Sorted xs → Ascending (unrepeated xs)
unfolding unrepeated
unrepeated-Ascending [] h = tt
unrepeated-Ascending (x ∷ xs) h = unrepeated_after-Ascending x xs h.0 h.1

Member-insert_sorted :
    (z x : Bytes) (ys : List Bytes) → Member z (insert_sorted x ys) ↔ ((z ≡ x) ⊎ Member z ys)
unfolding insert_sorted
Member-insert_sorted z x [] = (λ h. h, λ h. h)
Member-insert_sorted z x (y ∷ ys) = ground (arith, Member-insert_sorted z x ys)

Member-sort : (z : Bytes) (xs : List Bytes) → Member z (sort xs) ↔ Member z xs
unfolding sort
Member-sort z [] = (λ h. h, λ h. h)
Member-sort z (x ∷ xs) = ground (arith, Member-insert_sorted z x (sort xs), Member-sort z xs)

Member-unrepeated_after :
    (z prev : Bytes) (xs : List Bytes)
    → Member z (prev ∷ unrepeated_after prev xs) ↔ Member z (prev ∷ xs)
unfolding unrepeated_after
Member-unrepeated_after z prev [] = (λ h. h, λ h. h)
Member-unrepeated_after z prev (x ∷ xs) =
    ground (arith, Member-unrepeated_after z x xs, eqb_iff x prev)

Member-unrepeated : (z : Bytes) (xs : List Bytes) → Member z (unrepeated xs) ↔ Member z xs
unfolding unrepeated
Member-unrepeated z [] = (λ h. h, λ h. h)
Member-unrepeated z (x ∷ xs) = Member-unrepeated_after z x xs

not_below_itself : (x : Bytes) → lex compare x x ≢ Ordering.lt
not_below_itself x h = absurd (ground (arith, bytes-IsOrder.same x x))

-- An ascending list is determined by its elements.
same_head :
    (x y : Bytes) (xs ys : List Bytes)
    → Ascending (x ∷ xs)
    → Ascending (y ∷ ys)
    → Member x (y ∷ ys)
    → Member y (x ∷ xs)
    → x ≡ y
same_head x y xs ys a b (inl e) k = e
same_head x y xs ys a b (inr m) (inl e) = sym e
same_head x y xs ys a b (inr m) (inr n) =
    let p : lex compare y x ≡ Ordering.lt = All-member _ ys x b.0 m in
    let q : lex compare x y ≡ Ordering.lt = All-member _ xs y a.0 n in
    absurd (not_below_itself x (bytes-IsOrder.trans x y x q p))

in_tail :
    (x z : Bytes) (xs : List Bytes)
    → lex compare x z ≡ Ordering.lt
    → Member z (x ∷ xs)
    → Member z xs
in_tail x z xs lt (inl e) =
    absurd (not_below_itself x (subst (λ k. lex compare x k ≡ Ordering.lt) e lt))
in_tail x z xs lt (inr m) = m

pub Ascending-unique :
    (xs ys : List Bytes)
    → Ascending xs
    → Ascending ys
    → ((z : Bytes) → Member z xs ↔ Member z ys)
    → xs ≡ ys
Ascending-unique [] [] a b h = refl
Ascending-unique [] (y ∷ ys) a b h = absurd ((h y).1 (inl refl))
Ascending-unique (x ∷ xs) [] a b h = absurd ((h x).0 (inl refl))
Ascending-unique (x ∷ xs) (y ∷ ys) a b h =
    let e = same_head x y xs ys a b ((h x).0 (inl refl)) ((h y).1 (inl refl)) in
    let lt : (z : Bytes) → Member z ys → lex compare x z ≡ Ordering.lt =
      λ z m. subst (λ k. lex compare k z ≡ Ordering.lt) (sym e) (All-member _ ys z b.0 m) in
    let rest = Ascending-unique xs ys a.1 b.1 λ z. (
      λ m.
          in_tail y z ys (subst (λ k. lex compare k z ≡ Ordering.lt) e (All-member _ xs z a.0 m))
            ((h z).0 (inr m)),
      λ m. in_tail x z xs (lt z m) ((h z).1 (inr m)),
    ) in
    rw (e, rest)

pub sorted-Ascending : (xs : List Bytes) → Ascending (unrepeated (sort xs))
sorted-Ascending xs = unrepeated-Ascending (sort xs) (sort-Sorted xs)

pub Member-sorted : (z : Bytes) (xs : List Bytes) → Member z (unrepeated (sort xs)) ↔ Member z xs
Member-sorted z xs =
    let (f, g) = Member-unrepeated z (sort xs) in
    let (p, q) = Member-sort z xs in (λ m. p (f m), λ m. g (q m))
