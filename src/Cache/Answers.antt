-- ===== src/Cache/Answers.antt =====
-- lookup of middleware/cache/cache.go: its answers and their TTLs.
use dns_resolver.Cache.Misses.{IsFor, find_entry-IsFor}
use dns_resolver.Lru.{get}
use dns_resolver.Cache.Validity.{IsSound}
use dns_resolver.Text.{Unicode}
use dns_resolver.Prelude.{
  ℕ, ◌≤◌, max, ◌^◌, arith, ◌-◌, suc, ◌*◌, Bool-cases, ltb, ◌+◌, inl, ◌<◌, inr, ◌/◌, zero, leb, ◌%◌,
  ◌==◌, Bytes, ◌≡◌, some, Option-cases, ap, ◌∙◌, subst, sym, leb→le,
}
use dns_resolver.Cache.{
  key_eq, top_bit, whole_seconds, second, served_ttl, Store, lookup, serve_entry, Reply, Entry,
  with_ttl, find_entry,
}

pub top_bit-le : (fuel p n : ℕ) → top_bit fuel p n ≤ max p n
unfolding top_bit
top_bit-le zero p n = omega arith
top_bit-le (suc fuel) p n = elim (Bool-cases (ltb n (2 * p))) [
  | inl small ↦ rw small (omega arith)
  | inr big ↦ rw big (ground (arith, top_bit-le fuel (2 * p) n))
]

-- The rounding of float64 is off by less than a second, for every TTL of 32 bits.
pub whole_seconds-bounds :
    (d : ℕ)
    → d ≤ (2 ^ 32 - 1) * second
    → (whole_seconds d * second < d + second) × (d < (whole_seconds d + 1) * second)
unfolding whole_seconds
whole_seconds-bounds d h =
    let b = top_bit-le 64 1 (d / second) in
    let slack = (second * top_bit 64 1 (d / second)) / (2 ^ 53) in
    let small : slack < second = omega arith in
    elim (Bool-cases (leb second (d % second + slack))) [
      | inl up ↦ rw up (
          let over : second ≤ d % second + slack = leb→le second (d % second + slack) up in
          let part : 0 < d % second = omega (arith, small, over) in
          let fits : suc (d / second) < 4294967296 = omega (arith, part) in
          (omega (arith, fits, part), omega (arith, fits)))
      | inr down ↦ rw down (
          let fits : d / second < 4294967296 = omega arith in
          (omega (arith, fits), omega (arith, fits)))
    ]

-- The TTL of an entry that is still live: at least a second, and what is left to a second.
pub record IsLeft (remaining ttl : ℕ) : Type 0 where
  pub positive : 1 ≤ ttl
  pub at_most : ttl * second < remaining + second
  pub at_least : remaining < (ttl + 1) * second

pub served_ttl-IsLeft : (d : ℕ) → 0 < d → d ≤ (2 ^ 32 - 1) * second → IsLeft d (served_ttl d)
unfolding served_ttl
served_ttl-IsLeft d pos h =
    let (most, least) = whole_seconds-bounds d h in
    elim (Bool-cases (whole_seconds d == 0)) [
      | inl z ↦ rw z (record {
        positive = omega arith;
        at_most = omega arith;
        at_least = ground (arith, least);
      })
      | inr nz ↦ rw nz (record { positive = ground arith; at_most = most; at_least = least })
    ]

module _ ⦃u : Unicode⦄ where
  -- What a hit says: an entry under a key of the query that is still live, its records with what is left of
  -- its TTL.
  pub record IsHit (s : Store) (now : ℕ) (name : Bytes) (qtype : ℕ) (r : Reply) : Type 0 where
    pub entry : Entry
    pub stored : get entry.key s.lru ≡ some entry
    pub scope : IsFor name qtype entry.key
    pub live : now < entry.expiry
    pub ttl : ℕ
    pub left : IsLeft (entry.expiry - now) ttl
    pub reply : r ≡ record {
      rcode = entry.rcode;
      answers = with_ttl entry.answers ttl;
      authorities = with_ttl entry.authorities ttl;
      authentic = entry.authentic;
    }

  -- For a sound store whose ceiling fits 32 bits, a hit of lookup is an entry of the store that
  -- has not expired and stands under the key of the query, or under the key of type 0 (the one that
  -- put gives an NXDOMAIN, and a query of type 0 gives any response) for its name or one above it.
  -- The reply is the entry, with the TTL of every record the time that is left: at least 1, and
  -- right to a second.
  pub lookup-IsHit :
      (s : Store) (now : ℕ) (name : Bytes) (qtype : ℕ) (r : Reply)
      → IsSound now s
      → s.max_ttl ≤ 2 ^ 32 - 1
      → (lookup s now name qtype).0 ≡ some r
      → IsHit s now name qtype r
  unfolding lookup serve_entry
  lookup-IsHit s now name qtype r h bound hit = elim (Option-cases (find_entry name qtype s.lru)) [
    | inl miss ↦ absurd (ground arith)
    | inr (e, found) ↦ elim (Bool-cases (leb e.expiry now)) [
      | inl expired ↦ absurd (ground arith)
      | inr live ↦
          let (k, at_k, scope) = find_entry-IsFor name qtype s.lru e found in
          let own = h.keyed k e at_k in
          record {
            entry = e;
            stored = ap (λ i. get i s.lru) own ∙ at_k;
            scope = subst (IsFor name qtype) (sym own) scope;
            live = ground (arith, live);
            ttl = served_ttl (e.expiry - now);
            left =
                served_ttl-IsLeft (e.expiry - now) (ground (arith, live))
                  (omega (arith, h.bounded k e at_k));
            reply = ground arith;
          }
    ]
  ]
