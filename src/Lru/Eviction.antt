-- ===== src/Lru/Eviction.antt =====
-- The loop that evicts, and what an insertion leaves in the store.
use dns_resolver.Lru.Laws.{
  IsValid, take_all, back_lem, take-append_le, back-none, drop_back-IsValid, push-IsValid,
  remove-IsValid, remove_missing,
}
use dns_resolver.Lru.{evict, Lru, push, back, remove, without_back, get, insert}
use dns_resolver.Prelude.{
  ℕ, ◌≡◌, length, take, ◌≤◌, some, ◌≢◌, sym, ◌<◌, arith, suc, refl, Bool-cases, ap, ltb,
  length-append, ◌∙◌, inr, ◌∷◌, inl, [], Option-cases, false, none, length-take-le, zero,
}
use dns_resolver.GoMap.{
  Eq, count, find, delete, count-append, beq_refl, without_key, count-take-le, find-count,
  find-assign, find-delete, without_key_absent,
}

module _ {ℓ κ} {K : Type ℓ} {V : Type κ} ⦃e : Eq K⦄ where
  -- What is left after an eviction down to `max` entries: the first `max` keys of the list, in
  -- their order, with their bindings.
  pub record Kept (max : ℕ) (s t : Lru K V) : Type (ℓ ⊔ κ) where
    pub valid : IsValid t
    pub recent : t.order ≡ take max s.order
    pub bound : (j : K) → count j (take max s.order) ≢ 0 → find j t.entries ≡ find j s.entries

  evict_stop : (max : ℕ) (s : Lru K V) → IsValid s → length s.entries ≤ max → Kept max s s
  evict_stop max s h le = record {
    valid = h;
    recent = sym (take_all max s.order (omega (arith, h.size)));
    bound = λ j c. refl;
  }

  take-without_back :
      (max : ℕ) (s : Lru K V) (k : K)
      → IsValid s
      → back s.order ≡ some k
      → max < length s.entries
      → take max (without_back s.order) ≡ take max s.order
  take-without_back max s k h last over =
      let split = back_lem s.order k last in
      let long : max ≤ length (without_back s.order) =
        omega (arith, h.size, ap length split, length-append (without_back s.order) (k ∷ [])) in
      sym (ap (take max) split ∙ take-append_le max (without_back s.order) (k ∷ []) long)

  -- A round keeps what the rest of the loop keeps: the key at the back is not among the first.
  evict_round :
      (max : ℕ) (s t : Lru K V) (k : K)
      → IsValid s
      → back s.order ≡ some k
      → max < length s.entries
      → Kept max (record { entries = delete k s.entries; order = without_back s.order }) t
      → Kept max s t
  unfolding count
  evict_round max s t k h last over kept =
      let same = take-without_back max s k h last over in
      let split = back_lem s.order k last in
      let counted = ap (count k) split ∙ count-append k (without_back s.order) (k ∷ []) in
      let gone : count k (without_back s.order) ≡ 0 =
        ground (arith, counted, h.once k, beq_refl k) in
      record {
        valid = kept.valid;
        recent = kept.recent ∙ same;
        bound = λ j c.
            let c' : count j (take max (without_back s.order)) ≢ 0 = rw same c in
            let other : e.beq k j ≡ false =
              ground (arith, e.beq_iff k j, count-take-le j max (without_back s.order), gone) in
            kept.bound j c' ∙ find-delete j k s.entries ∙ rw other;
      }

  evict-Kept :
      (fuel max : ℕ) (s : Lru K V)
      → IsValid s
      → length s.entries ≤ fuel
      → Kept max s (evict fuel max s)
  unfolding evict
  evict-Kept zero max s h enough = evict_stop max s h (omega arith)
  evict-Kept (suc fuel) max s h enough = elim (Bool-cases (ltb max (length s.entries))) [
    | inr fits ↦ rw fits (evict_stop max s h (ground arith))
    | inl over ↦ elim (Option-cases (back s.order)) [
      | inl empty ↦ absurd (ground (arith, h.size, ap length (back-none s.order empty)))
      | inr (k, last) ↦
          let t : Lru K V = record { entries = delete k s.entries; order = without_back s.order } in
          let valid = drop_back-IsValid k s h last in
          let split = back_lem s.order k last in
          let smaller : length t.entries ≤ fuel = omega (
            arith,
            valid.size,
            h.size,
            enough,
            ap length split,
            length-append (without_back s.order) (k ∷ []),
          ) in
          rw (over, last)
            (evict_round max s (evict fuel max t) k h last (ground arith)
              (evict-Kept fuel max t valid smaller))
    ]
  ]

  -- The store without the old entry of the key, as `insert` makes it.
  record Cleared (k : K) (s t : Lru K V) : Type (ℓ ⊔ κ) where
    pub valid : IsValid t
    pub missing : get k t ≡ none
    pub others : t.order ≡ without_key k s.order
    pub bound : (j : K) → e.beq k j ≡ false → find j t.entries ≡ find j s.entries

  clear-Cleared :
      (k : K) (s : Lru K V)
      → IsValid s
      → Cleared k s (elim (get k s) [ none ↦ s | some _ ↦ remove k s ])
  unfolding get remove
  clear-Cleared k s h = elim (Option-cases (find k s.entries)) [
    | inl miss ↦
        let absent : count k s.order ≡ 0 =
          omega (arith, h.same k, (find-count k s.entries).0 miss) in
        rw miss (record {
          valid = h;
          missing = miss;
          others = sym (without_key_absent k s.order absent);
          bound = λ j ne. refl;
        })
    | inr (v, hit) ↦ rw hit (record {
      valid = remove-IsValid k s h;
      missing = remove_missing k s;
      others = refl;
      bound = λ j ne. find-delete j k s.entries ∙ rw ne;
    })
  ]

  -- What an insertion leaves: a valid store of at most `max` entries that holds the new binding
  -- and the most recently used others, with what they were bound to.
  pub record Inserted (max : ℕ) (k : K) (v : V) (s t : Lru K V) : Type (ℓ ⊔ κ) where
    pub valid : IsValid t
    pub within : length t.entries ≤ max
    pub recent : t.order ≡ take max (k ∷ without_key k s.order)
    pub stored : 0 < max → get k t ≡ some v
    pub others :
        (j : K) → j ≢ k → count j (take max (k ∷ without_key k s.order)) ≢ 0 → get j t ≡ get j s

  inserted :
      (max : ℕ) (k : K) (v : V) (s c t : Lru K V)
      → Cleared k s c
      → Kept max (push k v c) t
      → Inserted max k v s t
  unfolding push get count
  inserted max k v s c t clear kept =
      let order : take max (k ∷ c.order) ≡ take max (k ∷ without_key k s.order) =
        ap (λ l. take max (k ∷ l)) clear.others in
      record {
        valid = kept.valid;
        within =
            omega (arith, kept.valid.size, ap length kept.recent, length-take-le max (k ∷ c.order));
        recent = kept.recent ∙ order;
        stored =
            λ pos. kept.bound k (first max pos) ∙ find-assign k k v c.entries ∙ rw (beq_refl k);
        others = λ j ne c'.
            let differ : e.beq k j ≡ false = ground (arith, e.beq_iff k j) in
            kept.bound j (rw order c')
            ∙ find-assign j k v c.entries
            ∙ rw differ (clear.bound j differ);
      }
    where
      first : (n : ℕ) → 0 < n → count k (take n (k ∷ c.order)) ≢ 0
      first zero p = absurd (omega arith)
      first (suc n) p = ground (arith, beq_refl k)

  -- An insertion into a valid store leaves a valid store of at most `max` entries. Its keys are
  -- the new one and the most recently used others, in their order; the new key is bound to its
  -- value if `max` is not 0, and every other key that is left to what it was bound to.
  pub insert-Inserted :
      (max : ℕ) (k : K) (v : V) (s : Lru K V) → IsValid s → Inserted max k v s (insert max k v s)
  unfolding insert
  insert-Inserted max k v s h =
      let c : Lru K V = elim (get k s) [ none ↦ s | some _ ↦ remove k s ] in
      let clear : Cleared k s c = clear-Cleared k s h in
      let valid = push-IsValid k v c clear.valid clear.missing in
      inserted max k v s c _ clear
        (evict-Kept (length (push k v c).entries) max (push k v c) valid (omega arith))
