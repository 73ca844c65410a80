-- ===== src/Lru/Bindings.antt =====
-- What the operations on the map with an eviction list leave a key bound to.
use dns_resolver.Lru.Eviction.{Inserted}
use dns_resolver.Lru.Laws.{IsValid, length-delete}
use dns_resolver.Prelude.{
  ◌≡◌, ℕ, if◌then◌else◌, some, length, none, arith, ◌≤◌, ◌≢◌, ◌⊎◌, take, ◌∷◌, ◌<◌, suc, ap, ◌∙◌,
  Bool-cases, inl, inr, sym, zero, refl,
}
use dns_resolver.Lru.{get, Lru, remove}
use dns_resolver.GoMap.{Eq, count, find-delete, find-count, without_key}

module _ {ℓ κ} {K : Type ℓ} {V : Type κ} ⦃e : Eq K⦄ where
  pub get-remove :
      (j k : K) (s : Lru K V) → get j (remove k s) ≡ (if e.beq k j then none else get j s)
  unfolding get remove
  get-remove j k s = find-delete j k s.entries

  pub get-remove-some :
      (j k : K) (s : Lru K V) (v : V) → get j (remove k s) ≡ some v → get j s ≡ some v
  get-remove-some j k s v h = ground (arith, get-remove j k s)

  pub length-remove-le :
      (k : K) (s : Lru K V) → IsValid s → length (remove k s).entries ≤ length s.entries
  unfolding remove
  length-remove-le k s h = omega (arith, length-delete k s.entries)

  pub get-count : (k : K) (s : Lru K V) (v : V) → IsValid s → get k s ≡ some v → count k s.order ≢ 0
  unfolding get
  get-count k s v h found = λ z. ground (arith, find-count k s.entries, h.same k)

  -- After an insertion a key is bound as before, or is the inserted one.
  pub Inserted-get :
      (max : ℕ) (k : K) (v : V) (s t : Lru K V) (j : K) (w : V)
      → Inserted max k v s t
      → get j t ≡ some w
      → ((j ≡ k) × (w ≡ v)) ⊎ (get j s ≡ some w)
  unfolding count
  Inserted-get max k v s t j w h found =
      let at_j : count j (take max (k ∷ without_key k s.order)) ≢ 0 =
        λ z. get-count j t w h.valid found (ap (count j) h.recent ∙ z) in
      elim (Bool-cases (e.beq j k)) [
        | inl same ↦
            let eq = (e.beq_iff j k).0 same in
            inl (eq, ground (arith, h.stored (pos max at_j), ap (λ i. get i t) eq))
        | inr differ ↦
            inr (sym (h.others j (λ eq. ground (arith, (e.beq_iff j k).1 eq)) at_j) ∙ found)
      ]
    where
      pos : (n : ℕ) → count j (take n (k ∷ without_key k s.order)) ≢ 0 → 0 < n
      pos zero ne = absurd (ne refl)
      pos (suc n) ne = omega arith
