-- ===== src/Denial/Order.antt =====
-- CompareNames of dnssec/denial.go as an order.
use dns_resolver.Text.{Unicode}
use dns_resolver.Denial.{lex, compare_names, path_of}
use dns_resolver.Prelude.{◌≡◌, arith, ◌↔◌, List, Bytes, refl}
use dns_resolver.Prelude.{[], ◌∷◌}
use Prim.Native.Nat.{compare, Ordering}

abbrev pub flip : Ordering → Ordering
flip Ordering.lt = Ordering.gt
flip Ordering.eq = Ordering.eq
flip Ordering.gt = Ordering.lt

-- A comparison that is a strict total order.
pub record IsOrder {ℓ} {A : Type ℓ} (cmp : A → A → Ordering) : Type ℓ where
  pub same : (a b : A) → (cmp a b ≡ Ordering.eq) ↔ (a ≡ b)
  pub swap : (a b : A) → cmp b a ≡ flip (cmp a b)
  pub trans : (a b c : A) → cmp a b ≡ Ordering.lt → cmp b c ≡ Ordering.lt → cmp a c ≡ Ordering.lt

pub compare-IsOrder : IsOrder compare
compare-IsOrder = record {
  same = λ a b. ground arith;
  swap = λ a b. ground arith;
  trans = λ a b c h k. ground arith;
}

module _ {ℓ} {A : Type ℓ} (cmp : A → A → Ordering) (o : IsOrder cmp) where
  lex-same : (a b : List A) → (lex cmp a b ≡ Ordering.eq) ↔ (a ≡ b)
  unfolding lex
  lex-same [] [] = (λ h. refl, λ h. refl)
  lex-same [] (y ∷ ys) = (λ h. absurd (cc), λ h. absurd (cc))
  lex-same (x ∷ xs) [] = (λ h. absurd (cc), λ h. absurd (cc))
  lex-same (x ∷ xs) (y ∷ ys) = (
    λ h. ground (arith, o.same x y, lex-same xs ys),
    λ h. ground (arith, o.same x y, lex-same xs ys),
  )

  lex-swap : (a b : List A) → lex cmp b a ≡ flip (lex cmp a b)
  unfolding lex
  lex-swap [] [] = refl
  lex-swap [] (y ∷ ys) = refl
  lex-swap (x ∷ xs) [] = refl
  lex-swap (x ∷ xs) (y ∷ ys) = ground (arith, o.swap x y, lex-swap xs ys)

  lex_trans :
      (a b c : List A)
      → lex cmp a b ≡ Ordering.lt
      → lex cmp b c ≡ Ordering.lt
      → lex cmp a c ≡ Ordering.lt
  unfolding lex
  lex_trans [] [] c h k = absurd (cc)
  lex_trans [] (y ∷ ys) [] h k = absurd (cc)
  lex_trans [] (y ∷ ys) (z ∷ zs) h k = refl
  lex_trans (x ∷ xs) [] c h k = absurd (cc)
  lex_trans (x ∷ xs) (y ∷ ys) [] h k = absurd (cc)
  lex_trans (x ∷ xs) (y ∷ ys) (z ∷ zs) h k =
      ground (arith, o.same x y, o.same y z, o.trans x y z, lex_trans xs ys zs)

  pub lex-IsOrder : IsOrder (lex cmp)
  lex-IsOrder = record { same = lex-same; swap = lex-swap; trans = lex_trans }

-- The order of paths: labels from the top of the tree, each as bytes.
pub paths-IsOrder : IsOrder (lex (lex compare))
paths-IsOrder = lex-IsOrder (lex compare) (lex-IsOrder compare compare-IsOrder)

module _ ⦃u : Unicode⦄ where
  -- CompareNames is a strict total order: two names compare equal just when their labels in lower
  -- case are the same, the exchange of the arguments turns the result round, and it is transitive.
  pub compare_names-order :
      (a b c : Bytes)
      → ((compare_names a b ≡ Ordering.eq) ↔ (path_of a ≡ path_of b))
        × (compare_names b a ≡ flip (compare_names a b))
        × (compare_names a b ≡ Ordering.lt
            → compare_names b c ≡ Ordering.lt
            → compare_names a c ≡ Ordering.lt)
  unfolding compare_names
  compare_names-order a b c = (
    paths-IsOrder.same (path_of a) (path_of b),
    paths-IsOrder.swap (path_of a) (path_of b),
    paths-IsOrder.trans (path_of a) (path_of b) (path_of c),
  )
