-- ===== src/Cache.antt =====
-- The answer cache of middleware/cache/cache.go: its store and the operations on it. The mutex
-- makes each operation one step, so an operation is a function of the store and of the instant
-- `now` it reads, in nanoseconds. A value is its own copy, so CloneRRs leaves no trace. A negative
-- size or duration of the configuration takes the default like 0 does.
pub mod Handler
pub mod Validity
pub mod Answers
pub mod Misses
pub mod Fresh
pub mod Ceiling
use dns_resolver.Text.Split.{eqb_iff}
use dns_resolver.Dnsmsg.{Rr, type_soa, rcode_name_error, rcode_success, rcode_server_failure}
use dns_resolver.Lru.{get, remove, Lru, touch, empty, insert}
use dns_resolver.GoMap.{Eq}
use dns_resolver.Text.{eqb, Unicode, normalize, dot}
use dns_resolver.Prelude.{
  ℕ, Bytes, ◌≡◌, if◌then◌else◌, List, suc, ◌*◌, Bool, true, ltb, leb, min, ◌∷◌, ◌==◌, Option, zero,
  ◌/◌, ◌&&◌, ◌↔◌, max, map, [], none, ◌^◌, arith, some, ◌%◌, ◌-◌, ◌+◌,
}

-- time.Second
abbrev pub second : ℕ
second = 1000000000

-- The largest power of two that is at most `n`, from `p` on; 64 rounds cover an int64.
unfoldable pub top_bit : ℕ → ℕ → ℕ → ℕ
top_bit zero p n = p
top_bit (suc fuel) p n = let rest = top_bit fuel (2 * p) n in if ltb n (2 * p) then p else rest

-- uint32(d.Seconds()): the seconds of a float64, whose 53 bits round the last nanoseconds of a
-- long duration up to the next second. Below 2 ^ 24 seconds nothing is rounded; 2 ^ 32 seconds or
-- more, which Go leaves to the machine, are taken modulo 2 ^ 32.
unfoldable pub whole_seconds : ℕ → ℕ
unfolding top_bit
whole_seconds d =
    let slack = (second * top_bit 64 1 (d / second)) / (2 ^ 53) in
    (if leb second (d % second + slack) then suc (d / second) else d / second) % (2 ^ 32)

pub record Key : Type 0 where
  pub name : Bytes
  pub qtype : ℕ

unfoldable pub key_beq : Key → Key → Bool
unfolding eqb
key_beq a b = eqb a.name b.name && (a.qtype == b.qtype)

pub key_beq_iff : (a b : Key) → (key_beq a b ≡ true) ↔ (a ≡ b)
unfolding key_beq
key_beq_iff a b =
    (λ h. ground (arith, eqb_iff a.name b.name), λ h. ground (arith, eqb_iff a.name b.name))

instance unfoldable pub key_eq : Eq Key
key_eq = record { beq = key_beq; beq_iff = key_beq_iff }

-- The names `minTTL` and `maxTTL` of a configuration are durations.
pub record Config : Type 0 where
  pub max_entries : ℕ
  pub min_ttl : ℕ
  pub max_ttl : ℕ

pub record Entry : Type 0 where
  pub key : Key
  pub rcode : ℕ
  pub answers : List Rr
  pub authorities : List Rr
  pub authentic : Bool
  pub expiry : ℕ

pub record Store : Type 0 where
  pub max_entries : ℕ
  pub min_ttl : ℕ
  pub max_ttl : ℕ
  pub lru : Lru Key Entry

abbrev pub default_max_entries : ℕ
default_max_entries = 10000

abbrev pub negative_cache_fallback_ttl : ℕ
negative_cache_fallback_ttl = 60

abbrev pub max_cache_ttl : ℕ
max_cache_ttl = 86400

abbrev pub min_cache_ttl : ℕ
min_cache_ttl = 5

abbrev pub server_failure_ttl : ℕ
server_failure_ttl = 5

abbrev pub any_type : ℕ
any_type = 0

unfoldable pub ttl_bounds : Config → ℕ × ℕ
unfolding whole_seconds
ttl_bounds c = (
  if ltb 0 c.min_ttl then whole_seconds c.min_ttl else min_cache_ttl,
  if ltb 0 c.max_ttl then whole_seconds c.max_ttl else max_cache_ttl,
)

unfoldable pub new_store : Config → Store
unfolding ttl_bounds
new_store c = record {
  max_entries = if leb c.max_entries 0 then default_max_entries else c.max_entries;
  min_ttl = (ttl_bounds c).0;
  max_ttl = (ttl_bounds c).1;
  lru = empty;
}

unfoldable pub clamp_ttl : Store → ℕ → ℕ
clamp_ttl s ttl = min (max ttl s.min_ttl) s.max_ttl

unfoldable pub with_ttl : List Rr → ℕ → List Rr
with_ttl rrs ttl = map {A = Rr} (λ rr. record rr { ttl = ttl }) rrs

-- minTTL of a list with `rr` in front.
unfoldable pub min_ttl_from : ℕ → List Rr → ℕ
min_ttl_from m [] = m
min_ttl_from m (rr ∷ rrs) = min_ttl_from (if ltb rr.ttl m then rr.ttl else m) rrs

unfoldable pub negative_ttl_from_soa : List Rr → ℕ → ℕ
negative_ttl_from_soa [] fallback = fallback
negative_ttl_from_soa (rr ∷ rrs) fallback =
    let rest = negative_ttl_from_soa rrs fallback in
    if rr.type == type_soa
    then elim rr.soa [
      | none ↦ rest
      | some soa ↦ if ltb soa.minimum rr.ttl then soa.minimum else rr.ttl
    ]
    else rest

-- What `put` stores an answer as: the type of its key and its TTL. `none` is the early return.
unfoldable pub cached_as : ℕ → ℕ → List Rr → List Rr → Option (ℕ × ℕ)
unfolding negative_ttl_from_soa min_ttl_from
cached_as qtype rcode answers authorities =
    if rcode == rcode_name_error
    then some (any_type, negative_ttl_from_soa authorities negative_cache_fallback_ttl)
    else if rcode == rcode_success
    then elim answers [
      | [] ↦ some (qtype, negative_ttl_from_soa authorities negative_cache_fallback_ttl)
      | rr ∷ rrs ↦ some (qtype, min_ttl_from rr.ttl rrs)
    ]
    else if rcode == rcode_server_failure
    then some (qtype, server_failure_ttl)
    else none

-- What follows each dot of a name, from the first on: the names the loop of enclosingNXDOMAIN
-- goes through.
unfoldable pub ancestors : Bytes → List Bytes
ancestors [] = []
ancestors (c ∷ s) = let rest = ancestors s in if c == dot then s ∷ rest else rest

unfoldable pub first_cached : List Bytes → Lru Key Entry → Option Entry
unfolding get
first_cached [] c = none
first_cached (n ∷ ns) c = elim (get (record { name = n; qtype = any_type }) c) [
  | none ↦ first_cached ns c
  | some e ↦ some e
]

-- What lookup returns on a hit.
pub record Reply : Type 0 where
  pub rcode : ℕ
  pub answers : List Rr
  pub authorities : List Rr
  pub authentic : Bool

-- The TTL that an entry with this much time left is served with.
unfoldable pub served_ttl : ℕ → ℕ
unfolding whole_seconds
served_ttl remaining = let ttl = whole_seconds remaining in if ttl == 0 then 1 else ttl

-- lookup, from the entry that was found on.
unfoldable pub serve_entry : Store → ℕ → Entry → Option Reply × Store
unfolding remove touch served_ttl with_ttl
serve_entry s now e = if leb e.expiry now then (none, record s { lru = remove e.key s.lru }) else (
  some (record {
    rcode = e.rcode;
    answers = with_ttl e.answers (served_ttl (e.expiry - now));
    authorities = with_ttl e.authorities (served_ttl (e.expiry - now));
    authentic = e.authentic;
  }),
  record s { lru = touch e.key s.lru },
)

module _ ⦃u : Unicode⦄ where
  unfoldable pub normalize_key : Bytes → ℕ → Key
  unfolding normalize
  normalize_key name qtype = record { name = normalize name; qtype = qtype }

  unfoldable pub enclosing_nxdomain : Bytes → Lru Key Entry → Option Entry
  unfolding normalize_key first_cached ancestors
  enclosing_nxdomain name c =
      let rest = (normalize_key name any_type).name in first_cached (rest ∷ ancestors rest) c

  -- The entry that lookup answers from.
  unfoldable pub find_entry : Bytes → ℕ → Lru Key Entry → Option Entry
  unfolding get normalize_key enclosing_nxdomain
  find_entry name qtype c = elim (get (normalize_key name qtype) c) [
    | none ↦ enclosing_nxdomain name c
    | some e ↦ some e
  ]

  unfoldable pub lookup : Store → ℕ → Bytes → ℕ → Option Reply × Store
  unfolding find_entry serve_entry
  lookup s now name qtype = elim (find_entry name qtype s.lru) [
    | none ↦ (none, s)
    | some e ↦ serve_entry s now e
  ]

  unfoldable pub put : Store → ℕ → Bytes → ℕ → ℕ → List Rr → List Rr → Bool → Store
  unfolding cached_as clamp_ttl normalize_key insert
  put s now name qtype rcode answers authorities authentic =
      elim (cached_as qtype rcode answers authorities) [
        | none ↦ s
        | some (t, ttl) ↦
            if ttl == 0
            then s
            else let k = normalize_key name t in
              record s {
                lru =
                    insert s.max_entries k
                      (record {
                        key = k;
                        rcode = rcode;
                        answers = answers;
                        authorities = authorities;
                        authentic = authentic;
                        expiry = now + clamp_ttl s ttl * second;
                      })
                      s.lru;
              }
      ]
