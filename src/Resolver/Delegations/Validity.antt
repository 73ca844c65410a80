-- ===== src/Resolver/Delegations/Validity.antt =====
-- The invariant of the cache of resolver/delegationcache.go.
use dns_resolver.Lru.Eviction.{insert-Inserted}
use dns_resolver.Cache.{second}
use dns_resolver.Lru.Bindings.{length-remove-le, get-remove-some, Inserted-get}
use dns_resolver.GoMap.{find}
use dns_resolver.Lru.Laws.{IsValid, empty-IsValid, remove-IsValid, touch-IsValid}
use dns_resolver.Text.{Unicode, normalize}
use dns_resolver.Lru.{touch, get, remove, insert}
use dns_resolver.Prelude.{
  ℕ, Option, List, some, Bytes, length, none, ◌∷◌, Bool, Option-cases, ◌≤◌, arith, ◌≡◌, inl, min,
  ◌+◌, inr, max, Bool-cases, ◌*◌, ltb, [], ap, suc,
}
use dns_resolver.Resolver.Delegations.{
  bytes_eq, new_delegation_cache, walk, DelegationCache, closest_enclosing, put_delegation, forget,
  Delegation, zones, max_delegation_ttl, min_delegation_ttl,
}

-- The map and the list agree, within the size, and no delegation outlives a week.
pub record IsSound (now : ℕ) (c : DelegationCache) : Type 0 where
  pub valid : IsValid c.lru
  pub within : length c.lru.entries ≤ c.max_entries
  pub bounded :
      (z : Bytes) (e : Delegation)
      → get z c.lru ≡ some e
      → e.expiry ≤ now + max_delegation_ttl * second

abbrev pub IsSoundOrNil : ℕ → Option DelegationCache → Type 0
IsSoundOrNil now none = Unit
IsSoundOrNil now (some c) = IsSound now c

pub new_delegation_cache-IsSound :
    (max_entries now : ℕ) → IsSound now (new_delegation_cache max_entries)
unfolding new_delegation_cache get find
new_delegation_cache-IsSound max_entries now = record {
  valid = empty-IsValid;
  within = omega arith;
  bounded = λ z e h. absurd (cc);
}

remove-IsSound :
    (now : ℕ) (c : DelegationCache) (z : Bytes)
    → IsSound now c
    → IsSound now (record c { lru = remove z c.lru })
remove-IsSound now c z h = record {
  valid = remove-IsValid z c.lru h.valid;
  within = omega (arith, length-remove-le z c.lru h.valid, h.within);
  bounded = λ y e hit. h.bounded y e (get-remove-some y z c.lru e hit);
}

touch-IsSound :
    (now : ℕ) (c : DelegationCache) (z : Bytes) (e : Delegation)
    → IsSound now c
    → get z c.lru ≡ some e
    → IsSound now (record c { lru = touch z c.lru })
unfolding touch get
touch-IsSound now c z e h hit = record {
  valid = touch-IsValid z c.lru e h.valid hit;
  within = h.within;
  bounded = h.bounded;
}

walk-IsSound :
    (now : ℕ) (clock : ℕ → ℕ) (tick : ℕ) (zs : List Bytes) (c : DelegationCache)
    → IsSound now c
    → IsSound now (record c { lru = (walk clock tick zs c.lru).1 })
unfolding walk
walk-IsSound now clock tick [] c h = h
walk-IsSound now clock tick (z ∷ zs) c h = elim (Option-cases (get z c.lru)) [
  | inl miss ↦ rw (miss, walk) (walk-IsSound now clock tick zs c h)
  | inr (e, hit) ↦ elim (Bool-cases (ltb (clock tick) e.expiry)) [
    | inl live ↦ rw (hit, walk, live) (touch-IsSound now c z e h hit)
    | inr over ↦
        rw (hit, walk, over)
          (walk-IsSound now clock (suc tick) zs (record c { lru = remove z c.lru })
            (remove-IsSound now c z h))
  ]
]

module _ ⦃u : Unicode⦄ where
  closest_enclosing-IsSound :
      (c : Option DelegationCache) (now : ℕ) (clock : ℕ → ℕ) (qname : Bytes)
      → IsSoundOrNil now c
      → IsSoundOrNil now (closest_enclosing c clock qname).1
  unfolding closest_enclosing
  closest_enclosing-IsSound none now clock qname h = tt
  closest_enclosing-IsSound (some c) now clock qname h =
      walk-IsSound now clock 0 (zones (normalize qname)) c h

  put_delegation-IsSound :
      (c : Option DelegationCache) (now : ℕ) (zone : Bytes) (servers : List Bytes) (ttl : ℕ)
      (secure : Bool)
      → IsSoundOrNil now c
      → IsSoundOrNil now (put_delegation c now zone servers ttl secure)
  unfolding put_delegation
  put_delegation-IsSound none now zone servers ttl secure h = tt
  put_delegation-IsSound (some c) now zone [] ttl secure h = h
  put_delegation-IsSound (some c) now zone (ip ∷ ips) ttl secure h =
      let clamped = min (max ttl min_delegation_ttl) max_delegation_ttl in
      let e : Delegation = record {
        servers = ip ∷ ips;
        secure = secure;
        expiry = now + clamped * second;
      } in
      let in_time : e.expiry ≤ now + max_delegation_ttl * second = omega arith in
      let ins = insert-Inserted c.max_entries (normalize zone) e c.lru h.valid in
      record {
        valid = ins.valid;
        within = ins.within;
        bounded = λ j f at_j.
            elim (Inserted-get c.max_entries (normalize zone) e c.lru
              (insert c.max_entries (normalize zone) e c.lru) j f ins at_j) [
                | inl (jk, fe) ↦ omega (arith, ap (λ x. x.expiry) fe, in_time)
                | inr before ↦ h.bounded j f before
              ];
      }

  forget-IsSound :
      (c : Option DelegationCache) (now : ℕ) (zone : Bytes)
      → IsSoundOrNil now c
      → IsSoundOrNil now (forget c zone)
  unfolding forget
  forget-IsSound none now zone h = tt
  forget-IsSound (some c) now zone h = elim (Option-cases (get (normalize zone) c.lru)) [
    | inl miss ↦ rw (miss, forget) h
    | inr (e, hit) ↦ rw (hit, forget) (remove-IsSound now c (normalize zone) h)
  ]

  -- From a sound delegation cache, or a nil one, each of put, closestEnclosing and forget leaves a
  -- sound one, or a nil one: map and list hold the same keys once each, within the size, and no
  -- delegation expires later than a week from now.
  pub delegations-IsSound :
      (c : Option DelegationCache) (now : ℕ) (clock : ℕ → ℕ) (zone : Bytes) (servers : List Bytes)
      (ttl : ℕ) (secure : Bool)
      → IsSoundOrNil now c
      → IsSoundOrNil now (put_delegation c now zone servers ttl secure)
        × IsSoundOrNil now (closest_enclosing c clock zone).1
        × IsSoundOrNil now (forget c zone)
  delegations-IsSound c now clock zone servers ttl secure h = (
    put_delegation-IsSound c now zone servers ttl secure h,
    closest_enclosing-IsSound c now clock zone h,
    forget-IsSound c now zone h,
  )
