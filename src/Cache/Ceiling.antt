-- ===== src/Cache/Ceiling.antt =====
-- capTTLs and ServeDNS of middleware/cache/cache.go: the ceiling on the TTLs clients are told.
use dns_resolver.Cache.Answers.{IsHit, lookup-IsHit}
use dns_resolver.Cache.Validity.{IsSound}
use dns_resolver.Dnsmsg.{Message, Rr, Question}
use dns_resolver.Text.{Unicode}
use dns_resolver.Cache.Handler.{
  exceeds_ttl, cap_ttls, forwarded, serve_dns, serve_questions, serve_found,
}
use dns_resolver.Prelude.{
  ℕ, List, All, Bytes, ◌≤◌, map, ◌≡◌, ◌∷◌, min, false, arith, [], Option-cases, refl, Bool-cases,
  ◌^◌, inl, ◌-◌, inr, Option, sym, leb, some, Bool, if◌then◌else◌, none,
}
use dns_resolver.Cache.{key_eq, with_ttl, Store, lookup, serve_entry, Reply, find_entry}

-- No TTL of the records is above the ceiling.
abbrev pub TtlsWithin : ℕ → List Rr → Type 0
TtlsWithin m = All (λ rr. rr.ttl ≤ m)

abbrev capped : ℕ → List Rr → List Rr
capped m = map {A = Rr} (λ rr. record rr { ttl = min rr.ttl m })

exceeds_ttl-capped : (m : ℕ) (rrs : List Rr) → exceeds_ttl m rrs ≡ false → capped m rrs ≡ rrs
unfolding exceeds_ttl
exceeds_ttl-capped m [] h = refl
exceeds_ttl-capped m (rr ∷ rrs) h =
    let low : min rr.ttl m ≡ rr.ttl = ground arith in
    let rest : capped m rrs ≡ rrs = exceeds_ttl-capped m rrs (ground arith) in rw (low, rest) refl

-- capTTLs, which shares its input when no TTL is above the ceiling, gives the records with every
-- TTL cut to the ceiling and all else kept.
pub cap_ttls-capped :
    (m : ℕ) (rrs : List Rr)
    → cap_ttls m rrs ≡ map {A = Rr} (λ rr. record rr { ttl = min rr.ttl m }) rrs
unfolding cap_ttls
cap_ttls-capped m rrs = elim (Bool-cases (exceeds_ttl m rrs)) [
  | inl over ↦ rw over refl
  | inr under ↦ rw under (sym (exceeds_ttl-capped m rrs under))
]

capped-TtlsWithin : (m : ℕ) (rrs : List Rr) → TtlsWithin m (capped m rrs)
capped-TtlsWithin m [] = tt
capped-TtlsWithin m (rr ∷ rrs) = (omega arith, capped-TtlsWithin m rrs)

cap_ttls-TtlsWithin : (m : ℕ) (rrs : List Rr) → TtlsWithin m (cap_ttls m rrs)
cap_ttls-TtlsWithin m rrs = rw (cap_ttls-capped m rrs) (capped-TtlsWithin m rrs)

with_ttl-TtlsWithin : (m ttl : ℕ) (rrs : List Rr) → ttl ≤ m → TtlsWithin m (with_ttl rrs ttl)
unfolding with_ttl
with_ttl-TtlsWithin m ttl [] h = tt
with_ttl-TtlsWithin m ttl (rr ∷ rrs) h = (h, with_ttl-TtlsWithin m ttl rrs h)

abbrev pub IsCapped : ℕ → Message → Type 0
IsCapped m msg = TtlsWithin m msg.answers × TtlsWithin m msg.authorities

forwarded-IsCapped : (m : ℕ) (msgs : List Message) → All (IsCapped m) (map (forwarded m) msgs)
unfolding forwarded
forwarded-IsCapped m [] = tt
forwarded-IsCapped m (msg ∷ msgs) = (
  (cap_ttls-TtlsWithin m msg.answers, cap_ttls-TtlsWithin m msg.authorities),
  forwarded-IsCapped m msgs,
)

module _ ⦃u : Unicode⦄ where
  -- A hit is served with a TTL of at most the ceiling.
  hit-TtlsWithin :
      (s : Store) (now : ℕ) (name : Bytes) (qtype : ℕ) (r : Reply)
      → IsSound now s
      → 1 ≤ s.max_ttl
      → IsHit s now name qtype r
      → TtlsWithin s.max_ttl r.answers × TtlsWithin s.max_ttl r.authorities
  hit-TtlsWithin s now name qtype r h low hit =
      let fits : hit.ttl ≤ s.max_ttl =
        omega (arith, hit.left.at_most, h.bounded hit.entry.key hit.entry hit.stored, hit.live) in
      rw hit.reply (
        with_ttl-TtlsWithin s.max_ttl hit.ttl hit.entry.answers fits,
        with_ttl-TtlsWithin s.max_ttl hit.ttl hit.entry.authorities fits,
      )

  lookup-max_ttl :
      (s : Store) (now : ℕ) (name : Bytes) (qtype : ℕ)
      → (lookup s now name qtype).1.max_ttl ≡ s.max_ttl
  unfolding lookup serve_entry
  lookup-max_ttl s now name qtype = elim (Option-cases (find_entry name qtype s.lru)) [
    | inl miss ↦ rw (miss, lookup) refl
    | inr (e, hit) ↦ elim (Bool-cases (leb e.expiry now)) [
      | inl expired ↦ rw (hit, lookup, expired) refl
      | inr live ↦ rw (hit, lookup, live) refl
    ]
  ]

  -- For a sound store whose ceiling is at least 1 and fits 32 bits, and for a query with one
  -- question and without CD: no record in the answer or authority section of any message that is
  -- sent, from the cache or passed through it, has a TTL above the ceiling.
  pub serve_dns-IsCapped :
      (next : Message → List Message) (s : Store) (now later : ℕ) (req : Message) (q : Question)
      → IsSound now s
      → 1 ≤ s.max_ttl
      → s.max_ttl ≤ 2 ^ 32 - 1
      → req.questions ≡ q ∷ []
      → req.header.cd ≡ false
      → All (IsCapped s.max_ttl) (serve_dns next s now later req).0
  unfolding serve_dns serve_questions serve_found
  serve_dns-IsCapped next s now later req q h low bound one on = answered on one
    where
      found :
          (o : Option Reply) (s' : Store)
          → (lookup s now q.name q.type).0 ≡ o
          → s'.max_ttl ≡ s.max_ttl
          → All (IsCapped s.max_ttl) (serve_found next later req q (o, s')).0
      found none s' eq same = rw same (forwarded-IsCapped s.max_ttl (next req))
      found (some r) s' eq same = (
        hit-TtlsWithin s now q.name q.type r h low (lookup-IsHit s now q.name q.type r h bound eq),
        tt,
      )

      answered :
          {b : Bool} {qs : List Question}
          → b ≡ false
          → qs ≡ q ∷ []
          → All
              (IsCapped s.max_ttl)
              (if b then (next req, s) else serve_questions next s now later req qs).0
      answered eb eq =
          rw (eb, eq)
            (found (lookup s now q.name q.type).0 (lookup s now q.name q.type).1 refl
              (lookup-max_ttl s now q.name q.type))
