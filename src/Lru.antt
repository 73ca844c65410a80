-- ===== src/Lru.antt =====
-- The map with an eviction list that middleware/cache/cache.go and resolver/delegationcache.go
-- both keep: `entries` beside `order`, a list of the keys with the most recently used in front.
-- An entry's `elem` is the element of `order` that holds its key.
pub mod Laws
pub mod Eviction
pub mod Bindings
use dns_resolver.GoMap.{Eq, find, without_key, assign, delete}
use dns_resolver.Prelude.{
  List, [], Option, ◌∷◌, ℕ, none, suc, some, if◌then◌else◌, ltb, length, zero,
}

pub record Lru {ℓ κ} (K : Type ℓ) (V : Type κ) : Type (ℓ ⊔ κ) where
  pub entries : List (K × V)
  pub order : List K

abbrev pub empty {ℓ κ} : {K : Type ℓ} {V : Type κ} → Lru K V
empty = record { entries = []; order = [] }

-- order.Back()
unfoldable pub back {ℓ} : {K : Type ℓ} → List K → Option K
back [] = none
back (k ∷ []) = some k
back (k ∷ j ∷ l) = back (j ∷ l)

-- order.Remove(order.Back())
unfoldable pub without_back {ℓ} : {K : Type ℓ} → List K → List K
without_back [] = []
without_back (k ∷ []) = []
without_back (k ∷ j ∷ l) = k ∷ without_back (j ∷ l)

module _ {ℓ κ} {K : Type ℓ} {V : Type κ} ⦃e : Eq K⦄ where
  unfoldable pub get : K → Lru K V → Option V
  unfolding find
  get k s = find k s.entries

  -- order.MoveToFront(e.elem)
  unfoldable pub touch : K → Lru K V → Lru K V
  unfolding without_key
  touch k s = record s { order = k ∷ without_key k s.order }

  -- order.Remove(e.elem); delete(entries, k)
  unfoldable pub remove : K → Lru K V → Lru K V
  unfolding without_key delete
  remove k s = record { entries = delete k s.entries; order = without_key k s.order }

  -- e.elem = order.PushFront(k); entries[k] = e
  unfoldable pub push : K → V → Lru K V → Lru K V
  unfolding assign
  push k v s = record { entries = assign k v s.entries; order = k ∷ s.order }

  -- for len(entries) > max { ... }; a round for each entry is enough.
  unfoldable pub evict : ℕ → ℕ → Lru K V → Lru K V
  unfolding back without_back delete
  evict zero max s = s
  evict (suc fuel) max s =
      if ltb max (length s.entries)
      then elim (back s.order) [
        | none ↦ s
        | some k ↦
            evict fuel max (record { entries = delete k s.entries; order = without_back s.order })
      ]
      else s

  -- The old entry of the key is removed first, if there is one.
  unfoldable pub insert : ℕ → K → V → Lru K V → Lru K V
  unfolding get remove push evict
  insert max k v s =
      let s' : Lru K V = elim (get k s) [ none ↦ s | some _ ↦ remove k s ] in
      let s'' = push k v s' in evict (length s''.entries) max s''
