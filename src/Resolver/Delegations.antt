-- ===== src/Resolver/Delegations.antt =====
-- resolver/delegationcache.go. A nil cache is `none`. `now` is the instant that an operation reads,
-- in nanoseconds; closestEnclosing reads the clock for every entry that it finds, and `clock` is
-- those readings by their number. The mutex makes each operation one step.
pub mod Above
pub mod Walk
pub mod Validity
use dns_resolver.Cache.{second}
use dns_resolver.Text.Split.{eqb_iff}
use dns_resolver.Lru.{get, Lru, touch, remove, insert, empty}
use dns_resolver.Text.{eqb, dot, Unicode, normalize}
use dns_resolver.Prelude.{
  ℕ, List, Bytes, Option, Bool, if◌then◌else◌, ◌∷◌, some, leb, ◌==◌, [], true, false, none, min,
  ltb, max, ◌+◌, ◌*◌, suc,
}
use dns_resolver.GoMap.{Eq}

instance unfoldable pub bytes_eq : Eq Bytes
bytes_eq = record { beq = eqb; beq_iff = eqb_iff }

abbrev pub default_delegation_entries : ℕ
default_delegation_entries = 2000

abbrev pub max_delegation_ttl : ℕ
max_delegation_ttl = 604800

abbrev pub min_delegation_ttl : ℕ
min_delegation_ttl = 60

-- A server is a net.IP, a byte slice.
pub record Delegation : Type 0 where
  pub servers : List Bytes
  pub secure : Bool
  pub expiry : ℕ

pub record DelegationCache : Type 0 where
  pub max_entries : ℕ
  pub lru : Lru Bytes Delegation

-- A negative size takes the default like 0 does.
unfoldable pub new_delegation_cache : ℕ → DelegationCache
new_delegation_cache max_entries = record {
  max_entries = if leb max_entries 0 then default_delegation_entries else max_entries;
  lru = empty;
}

-- The names that the loop of closestEnclosing turns to after this one: what follows each dot, and
-- the root, the empty string.
unfoldable pub zones_above : Bytes → List Bytes
unfolding eqb
zones_above [] = [] ∷ []
zones_above (c ∷ s) =
    let rest = zones_above s in if c == dot then (if eqb s [] then [] ∷ [] else s ∷ rest) else rest

unfoldable pub zones : Bytes → List Bytes
unfolding zones_above
zones [] = [] ∷ []
zones (c ∷ s) = (c ∷ s) ∷ zones_above (c ∷ s)

unfoldable pub zone_name : Bytes → Bytes
unfolding eqb
zone_name key = if eqb key [] then dot ∷ [] else key

-- What closestEnclosing returns; `ok` is false when nothing was found.
pub record Closest : Type 0 where
  pub zone : Bytes
  pub servers : List Bytes
  pub secure : Bool
  pub found : Bool

abbrev pub nothing_closer : Closest
nothing_closer = record { zone = dot ∷ []; servers = []; secure = false; found = false }

-- The loop of closestEnclosing, over the names it turns to, from a reading of the clock on.
unfoldable pub walk :
    (ℕ → ℕ)
    → ℕ
    → List Bytes
    → Lru Bytes Delegation
    → Option (Bytes × Delegation) × Lru Bytes Delegation
unfolding get touch remove
walk clock tick [] c = (none, c)
walk clock tick (z ∷ zs) c =
    let kept = walk clock tick zs c in
    let dropped = walk clock (suc tick) zs (remove z c) in
    elim (get z c) [
      | none ↦ kept
      | some e ↦ if ltb (clock tick) e.expiry then (some (z, e), touch z c) else dropped
    ]

unfoldable pub closest_of : Option (Bytes × Delegation) → Closest
unfolding zone_name
closest_of none = nothing_closer
closest_of (some (z, e)) = record {
  zone = zone_name z;
  servers = e.servers;
  secure = e.secure;
  found = true;
}

module _ ⦃u : Unicode⦄ where
  unfoldable pub closest_enclosing :
      Option DelegationCache → (ℕ → ℕ) → Bytes → Closest × Option DelegationCache
  unfolding normalize zones walk closest_of
  closest_enclosing none clock qname = (nothing_closer, none)
  closest_enclosing (some c) clock qname =
      let r = walk clock 0 (zones (normalize qname)) c.lru in
      (closest_of r.0, some (record c { lru = r.1 }))

  unfoldable pub put_delegation :
      Option DelegationCache → ℕ → Bytes → List Bytes → ℕ → Bool → Option DelegationCache
  unfolding normalize insert
  put_delegation none now zone servers ttl secure = none
  put_delegation (some c) now zone [] ttl secure = some c
  put_delegation (some c) now zone (ip ∷ ips) ttl secure =
      let clamped = min (max ttl min_delegation_ttl) max_delegation_ttl in
      let e : Delegation = record {
        servers = ip ∷ ips;
        secure = secure;
        expiry = now + clamped * second;
      } in
      some (record c { lru = insert c.max_entries (normalize zone) e c.lru })

  unfoldable pub forget : Option DelegationCache → Bytes → Option DelegationCache
  unfolding normalize get remove
  forget none zone = none
  forget (some c) zone = elim (get (normalize zone) c.lru) [
    | none ↦ some c
    | some e ↦ some (record c { lru = remove (normalize zone) c.lru })
  ]
