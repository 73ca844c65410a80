-- ===== src/GoMap.antt =====
-- Go's maps as lists of bindings, over keys with a Boolean equality, and lists of such keys.
use dns_resolver.Prelude.{
  Bool, List, ◌≡◌, ℕ, true, ◌∷◌, if◌then◌else◌, length, ◌++◌, take, map, Option, none, ◌↔◌, suc,
  arith, ◌+◌, ◌≤◌, some, ap, [], zero, refl, ◌⊎◌, inl, inr, sym, ◌∙◌, false,
}

pub record Eq {ℓ} (A : Type ℓ) : Type ℓ where
  pub beq : A → A → Bool
  pub beq_iff : (a b : A) → (beq a b ≡ true) ↔ (a ≡ b)

module _ {ℓ} {K : Type ℓ} ⦃e : Eq K⦄ where
  -- How often a key stands in a list.
  unfoldable pub count : K → List K → ℕ
  count k [] = 0
  count k (j ∷ l) = let n = count k l in if e.beq k j then suc n else n

  -- list.Remove of the elements that hold the key.
  unfoldable pub without_key : K → List K → List K
  without_key k [] = []
  without_key k (j ∷ l) = let r = without_key k l in if e.beq k j then r else j ∷ r

  pub beq_refl : (k : K) → e.beq k k ≡ true
  beq_refl k = (e.beq_iff k k).1 refl

  pub count-without_key :
      (j k : K) (l : List K) → count j (without_key k l) ≡ (if e.beq k j then 0 else count j l)
  unfolding count without_key
  count-without_key j k [] = ground arith
  count-without_key j k (i ∷ l) =
      ground (arith, count-without_key j k l, e.beq_iff k i, e.beq_iff j i, e.beq_iff k j)

  pub length-without_key : (k : K) (l : List K) → length (without_key k l) + count k l ≡ length l
  unfolding count without_key
  length-without_key k [] = omega arith
  length-without_key k (i ∷ l) = ground (arith, length-without_key k l)

  pub without_key_absent : (k : K) (l : List K) → count k l ≡ 0 → without_key k l ≡ l
  unfolding count without_key
  without_key_absent k [] h = refl
  without_key_absent k (i ∷ l) h = ground (arith, without_key_absent k l)

  pub count-append : (k : K) (l m : List K) → count k (l ++ m) ≡ count k l + count k m
  unfolding count
  count-append k [] m = omega arith
  count-append k (i ∷ l) m = ground (arith, count-append k l m)

  pub count-take-le : (k : K) (n : ℕ) (l : List K) → count k (take n l) ≤ count k l
  unfolding count
  count-take-le k zero l = omega arith
  count-take-le k (suc n) [] = omega arith
  count-take-le k (suc n) (i ∷ l) = ground (arith, count-take-le k n l)

module _ {ℓ κ} {K : Type ℓ} {V : Type κ} ⦃e : Eq K⦄ where
  abbrev pub keys : List (K × V) → List K
  keys = map (λ b. b.0)

  -- m[k]
  unfoldable pub find : K → List (K × V) → Option V
  find k [] = none
  find k ((j, v) ∷ m) = let rest = find k m in if e.beq k j then some v else rest

  -- delete(m, k)
  unfoldable pub delete : K → List (K × V) → List (K × V)
  delete k [] = []
  delete k ((j, v) ∷ m) = let rest = delete k m in if e.beq k j then rest else (j, v) ∷ rest

  -- m[k] = v
  unfoldable pub assign : K → V → List (K × V) → List (K × V)
  unfolding delete
  assign k v m = (k, v) ∷ delete k m

  pub find-delete :
      (j k : K) (m : List (K × V)) → find j (delete k m) ≡ (if e.beq k j then none else find j m)
  unfolding find delete
  find-delete j k [] = ground arith
  find-delete j k ((i, v) ∷ m) =
      ground (arith, find-delete j k m, e.beq_iff k i, e.beq_iff j i, e.beq_iff k j)

  pub find-assign :
      (j k : K) (v : V) (m : List (K × V))
      → find j (assign k v m) ≡ (if e.beq k j then some v else find j m)
  unfolding find assign
  find-assign j k v m = ground (arith, find-delete j k m, e.beq_iff j k, e.beq_iff k j)

  pub keys-delete : (k : K) (m : List (K × V)) → keys (delete k m) ≡ without_key k (keys m)
  unfolding delete without_key
  keys-delete k [] = refl
  keys-delete k ((i, v) ∷ m) = ground (arith, keys-delete k m)

  pub length-keys : (m : List (K × V)) → length (keys m) ≡ length m
  length-keys [] = refl
  length-keys (b ∷ m) = ap suc (length-keys m)

  -- A key is bound exactly when it is among the keys.
  pub find-count : (k : K) (m : List (K × V)) → (find k m ≡ none) ↔ (count k (keys m) ≡ 0)
  unfolding find count
  find-count k [] = (λ _. refl, λ _. refl)
  find-count k ((i, v) ∷ m) =
      let ih = find-count k m in (λ h. ground (arith, ih), λ h. ground (arith, ih))

  -- What is found after an assignment is what was assigned, or was there.
  pub assigned_or_kept :
      (j k : K) (v x : V) (m : List (K × V))
      → find j (assign k v m) ≡ some x
      → ((j ≡ k) × (v ≡ x)) ⊎ (find j m ≡ some x)
  assigned_or_kept j k v x m h =
      by_test (e.beq k j) (e.beq_iff k j).0 (sym (find-assign j k v m) ∙ h)
    where
      by_test :
          (b : Bool)
          → (b ≡ true → k ≡ j)
          → (if b then some v else find j m) ≡ some x
          → ((j ≡ k) × (v ≡ x)) ⊎ (find j m ≡ some x)
      by_test true same p = inl (sym (same refl), cc)
      by_test false same p = inr p
