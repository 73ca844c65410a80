-- ===== src/Lru/Laws.antt =====
-- The invariant of the map with an eviction list.
use dns_resolver.GoMap.{
  Eq, count, keys, delete, assign, count-without_key, find-count, find-delete, length-without_key,
  keys-delete, beq_refl, length-keys, count-append,
}
use dns_resolver.Prelude.{
  List, ℕ, ◌∷◌, ◌≡◌, ◌≤◌, length, some, none, take, arith, [], ◌++◌, suc, refl, ◌+◌, if◌then◌else◌,
  ◌≢◌, ap, zero, ◌∙◌, length-append,
}
use dns_resolver.Lru.{back, without_back, Lru, remove, touch, push, get, empty}

module _ {ℓ} {K : Type ℓ} where
  pub back-cons : (k : K) (l : List K) → (j : K) × (back (k ∷ l) ≡ some j)
  unfolding back
  back-cons k [] = (k, refl)
  back-cons k (i ∷ l) = back-cons i l

  pub back_lem : (l : List K) (k : K) → back l ≡ some k → l ≡ without_back l ++ (k ∷ [])
  unfolding back without_back
  back_lem [] k h = absurd (cc)
  back_lem (i ∷ []) k h = ground arith
  back_lem (i ∷ j ∷ l) k h = ap (◌∷◌ i) (back_lem (j ∷ l) k h)

  pub back-none : (l : List K) → back l ≡ none → l ≡ []
  back-none [] h = refl
  back-none (k ∷ l) h = let (j, p) = back-cons k l in absurd (cc)

  pub take-append_le : (n : ℕ) (l m : List K) → n ≤ length l → take n (l ++ m) ≡ take n l
  take-append_le zero l m h = refl
  take-append_le (suc n) [] m h = absurd (omega arith)
  take-append_le (suc n) (x ∷ l) m h = ap (◌∷◌ x) (take-append_le n l m (omega arith))

  pub take_all : (n : ℕ) (l : List K) → length l ≤ n → take n l ≡ l
  take_all zero [] h = refl
  take_all zero (x ∷ l) h = absurd (omega arith)
  take_all (suc n) [] h = refl
  take_all (suc n) (x ∷ l) h = ap (◌∷◌ x) (take_all n l (omega arith))

module _ {ℓ κ} {K : Type ℓ} {V : Type κ} ⦃e : Eq K⦄ where
  -- The map and the list hold the same keys, each once.
  pub record IsValid (s : Lru K V) : Type ℓ where
    pub same : (k : K) → count k (keys s.entries) ≡ count k s.order
    pub once : (k : K) → count k s.order ≤ 1
    pub size : length s.entries ≡ length s.order

  pub empty-IsValid : IsValid (empty {K = K} {V = V})
  unfolding count
  empty-IsValid = record { same = λ k. refl; once = λ k. omega arith; size = refl }

  pub length-delete : (k : K) (m : List (K × V)) → length (delete k m) + count k (keys m) ≡ length m
  length-delete k m = omega (
    arith,
    length-without_key k (keys m),
    length-keys m,
    length-keys (delete k m),
    ap length (keys-delete k m),
  )

  pub count-delete :
      (j k : K) (m : List (K × V))
      → count j (keys (delete k m)) ≡ (if e.beq k j then 0 else count j (keys m))
  count-delete j k m = ap (count j) (keys-delete k m) ∙ count-without_key j k (keys m)

  pub remove-IsValid : (k : K) (s : Lru K V) → IsValid s → IsValid (remove k s)
  unfolding remove
  remove-IsValid k s h = record {
    same = λ j. ground (arith, count-delete j k s.entries, count-without_key j k s.order, h.same j);
    once = λ j. ground (arith, count-without_key j k s.order, h.once j);
    size = omega (arith, length-delete k s.entries, length-without_key k s.order, h.same k, h.size);
  }

  pub touch-IsValid :
      (k : K) (s : Lru K V) (v : V) → IsValid s → get k s ≡ some v → IsValid (touch k s)
  unfolding touch get count
  touch-IsValid k s v h found =
      let bound : count k (keys s.entries) ≢ 0 =
        λ z. ground (arith, (find-count k s.entries).1 z) in
      record {
        same = λ j. ground (
          arith,
          count-without_key j k s.order,
          h.same j,
          h.same k,
          h.once k,
          e.beq_iff j k,
          e.beq_iff k j,
        );
        once = λ j.
            ground (arith, count-without_key j k s.order, h.once j, e.beq_iff j k, e.beq_iff k j);
        size = omega (arith, length-without_key k s.order, h.same k, h.once k, h.size);
      }

  pub push-IsValid :
      (k : K) (v : V) (s : Lru K V) → IsValid s → get k s ≡ none → IsValid (push k v s)
  unfolding push get count assign
  push-IsValid k v s h missing =
      let unbound : count k (keys s.entries) ≡ 0 = (find-count k s.entries).0 missing in
      record {
        same = λ j.
            ground
              (arith, count-delete j k s.entries, h.same j, e.beq_iff j k, e.beq_iff k j, unbound);
        once = λ j. ground (arith, h.once j, h.same k, e.beq_iff j k, unbound);
        size = omega (arith, length-delete k s.entries, h.size, unbound);
      }

  pub remove_missing : (k : K) (s : Lru K V) → get k (remove k s) ≡ none
  unfolding get remove
  remove_missing k s = ground (arith, find-delete k k s.entries, beq_refl k)

  -- One round of the eviction.
  pub drop_back-IsValid :
      (k : K) (s : Lru K V)
      → IsValid s
      → back s.order ≡ some k
      → IsValid (record { entries = delete k s.entries; order = without_back s.order })
  unfolding count
  drop_back-IsValid k s h last =
      let split = back_lem s.order k last in
      let counted =
        λ (j : K). ap (count j) split ∙ count-append j (without_back s.order) (k ∷ []) in
      let at_k : count k (without_back s.order) ≡ 0 =
        ground (arith, counted k, h.once k, beq_refl k) in
      record {
        same = λ j. ground (
          arith,
          count-delete j k s.entries,
          counted j,
          h.same j,
          e.beq_iff j k,
          e.beq_iff k j,
          at_k,
        );
        once = λ j. ground (arith, counted j, h.once j);
        size = ground (
          arith,
          length-delete k s.entries,
          h.same k,
          counted k,
          at_k,
          beq_refl k,
          h.size,
          ap length split,
          length-append (without_back s.order) (k ∷ []),
        );
      }
