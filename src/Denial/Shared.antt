-- ===== src/Denial/Shared.antt =====
-- commonSuffix of dnssec/denial.go, on the paths of names: their labels from the top of the tree.
use dns_resolver.Denial.Order.{IsOrder, flip}
use dns_resolver.Denial.{lex, shared}
use dns_resolver.Text.{eqb}
use dns_resolver.Text.Split.{eqb_iff}
use dns_resolver.Prelude.{
  Bytes, List, ◌≡◌, ◌≢◌, [], ◌∷◌, ◌++◌, length, ◌≤◌, Bool-cases, arith, refl, inl, true, inr, ap,
  ◌∙◌, suc, subst,
}
use Prim.Native.Nat.{Ordering}
use Prim.Native.Nat.Ordering.{lt, eq, gt}

-- What a list begins with.
abbrev pub IsPrefix : List Bytes → List Bytes → Type 0
IsPrefix p xs = (r : List Bytes) × (xs ≡ p ++ r)

-- The labels that two paths share are in front of both.
pub shared-IsPrefix :
    (xs ys : List Bytes)
    → (p : List Bytes) × (length p ≡ shared xs ys) × IsPrefix p xs × IsPrefix p ys
unfolding shared
shared-IsPrefix [] ys = ([], refl, ([], refl), (ys, refl))
shared-IsPrefix (x ∷ xs) [] = ([], refl, (x ∷ xs, refl), ([], refl))
shared-IsPrefix (x ∷ xs) (y ∷ ys) = elim (Bool-cases (eqb x y)) [
  | inl same ↦
      let (p, n, (r, ex), (t, ey)) = shared-IsPrefix xs ys in
      let e : x ≡ y = (eqb_iff x y).0 same in
      (x ∷ p, rw same (ap suc n), (r, ap (◌∷◌ x) ex), (t, cc))
  | inr apart ↦ ([], rw apart refl, (x ∷ xs, refl), (y ∷ ys, refl))
]

-- There are no more.
pub IsPrefix-shared :
    (p xs ys : List Bytes) → IsPrefix p xs → IsPrefix p ys → length p ≤ shared xs ys
unfolding shared
IsPrefix-shared [] xs ys h k = omega arith
IsPrefix-shared (l ∷ p) [] ys (r, e) k = absurd (cc)
IsPrefix-shared (l ∷ p) (x ∷ xs) [] h (t, e) = absurd (cc)
IsPrefix-shared (l ∷ p) (x ∷ xs) (y ∷ ys) (r, ex) (t, ey) =
    let same : eqb x y ≡ true = (eqb_iff x y).1 (cc) in
    let rest = IsPrefix-shared p xs ys (r, cc) (t, cc) in rw same (omega (arith, rest))

module _ (cmp : Bytes → Bytes → Ordering) (o : IsOrder cmp) where
  -- Two paths under one label, with a third between them, or level with the first.
  front_between :
      (l y : Bytes) (zs ws qs : List Bytes)
      → lex cmp (l ∷ zs) (y ∷ ws) ≢ Ordering.gt
      → lex cmp (y ∷ ws) (l ∷ qs) ≡ Ordering.lt
      → (cmp l y ≡ Ordering.eq) × (lex cmp zs ws ≢ Ordering.gt) × (lex cmp ws qs ≡ Ordering.lt)
  unfolding lex
  front_between l y zs ws qs h k = by_order (cmp l y) h (rw (o.swap l y, lex) at k)
    where
      by_order :
          (d : Ordering)
          → (elim d [ eq ↦ lex cmp zs ws | lt ↦ Ordering.lt | gt ↦ Ordering.gt ]) ≢ Ordering.gt
          → (elim (flip d) [ eq ↦ lex cmp ws qs | lt ↦ Ordering.lt | gt ↦ Ordering.gt ])
            ≡ Ordering.lt
          → (d ≡ Ordering.eq) × (lex cmp zs ws ≢ Ordering.gt) × (lex cmp ws qs ≡ Ordering.lt)
      by_order Ordering.lt a b = absurd (cc)
      by_order Ordering.eq a b = (refl, a, b)
      by_order Ordering.gt a b = absurd (a refl)

  back_between :
      (l y : Bytes) (zs ws qs : List Bytes)
      → lex cmp (l ∷ qs) (y ∷ ws) ≡ Ordering.lt
      → lex cmp (y ∷ ws) (l ∷ zs) ≢ Ordering.gt
      → (cmp l y ≡ Ordering.eq) × (lex cmp qs ws ≡ Ordering.lt) × (lex cmp ws zs ≢ Ordering.gt)
  unfolding lex
  back_between l y zs ws qs h k = by_order (cmp l y) h (
      subst
        (λ d. (elim d [ eq ↦ lex cmp ws zs | lt ↦ Ordering.lt | gt ↦ Ordering.gt ]) ≢ Ordering.gt)
        (o.swap l y) k)
    where
      by_order :
          (d : Ordering)
          → (elim d [ eq ↦ lex cmp qs ws | lt ↦ Ordering.lt | gt ↦ Ordering.gt ]) ≡ Ordering.lt
          → (elim (flip d) [ eq ↦ lex cmp ws zs | lt ↦ Ordering.lt | gt ↦ Ordering.gt ])
            ≢ Ordering.gt
          → (d ≡ Ordering.eq) × (lex cmp qs ws ≡ Ordering.lt) × (lex cmp ws zs ≢ Ordering.gt)
      by_order Ordering.lt a b = absurd (b refl)
      by_order Ordering.eq a b = (refl, a, b)
      by_order Ordering.gt a b = absurd (cc)

  -- Of two paths in front of a third, the one that is not behind the other shares no more labels
  -- with the third.
  pub shared-before :
      (q w z : List Bytes)
      → lex cmp z w ≢ Ordering.gt
      → lex cmp w q ≡ Ordering.lt
      → shared q z ≤ shared q w
  unfolding shared
  shared-before [] w z h k = omega arith
  shared-before (x ∷ q) w [] h k = omega arith
  shared-before (x ∷ q) [] (l ∷ z) h k = absurd (unfold lex in h refl)
  shared-before (x ∷ q) (y ∷ w) (l ∷ z) h k = elim (Bool-cases (eqb x l)) [
    | inr apart ↦ rw apart (omega arith)
    | inl same ↦
        let e : x ≡ l = (eqb_iff x l).0 same in
        let (level, h2, k2) =
          front_between l y z w q h (subst (λ j. lex cmp (y ∷ w) (j ∷ q) ≡ Ordering.lt) e k) in
        let hit : eqb x y ≡ true = (eqb_iff x y).1 (e ∙ (o.same l y).0 level) in
        rw (same, hit) (omega (arith, shared-before q w z h2 k2))
  ]

  -- Of two paths behind a third, the one that is not in front of the other shares no more labels
  -- with the third.
  pub shared-after :
      (q w z : List Bytes)
      → lex cmp q w ≡ Ordering.lt
      → lex cmp w z ≢ Ordering.gt
      → shared q z ≤ shared q w
  unfolding shared
  shared-after [] w z h k = omega arith
  shared-after (x ∷ q) w [] h k = omega arith
  shared-after (x ∷ q) [] (l ∷ z) h k = absurd (unfold lex in cc)
  shared-after (x ∷ q) (y ∷ w) (l ∷ z) h k = elim (Bool-cases (eqb x l)) [
    | inr apart ↦ rw apart (omega arith)
    | inl same ↦
        let e : x ≡ l = (eqb_iff x l).0 same in
        let (level, h2, k2) =
          back_between l y z w q (subst (λ j. lex cmp (j ∷ q) (y ∷ w) ≡ Ordering.lt) e h) k in
        let hit : eqb x y ≡ true = (eqb_iff x y).1 (e ∙ (o.same l y).0 level) in
        rw (same, hit) (omega (arith, shared-after q w z h2 k2))
  ]
