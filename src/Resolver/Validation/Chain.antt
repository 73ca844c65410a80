-- ===== src/Resolver/Validation/Chain.antt =====
-- resolver/validate.go: the cache of validated keys and the steps down the chain of trust. A nil
-- cache is `none`; the mutex makes each of its operations one step. A reading of the clock that get
-- leaves out, because nothing is found, has its number too.
use dns_resolver.Cache.{second}
use dns_resolver.Resolver.Privacy.{minimized_qname}
use dns_resolver.Denial.Claims.{prove_no_ds}
use dns_resolver.Denial.Hashed.{Digest}
use dns_resolver.Resolver.Validation.{
  Upstream, min_ttl_of, records_of_type, verify_with, SecState, check_denial, is_unsupported,
  insecure,
}
use dns_resolver.GoMap.{find, assign}
use dns_resolver.Signature.Checks.{Crypto, verify_ds}
use dns_resolver.Dnsmsg.{Rr, Message, type_ds, type_dnskey}
use dns_resolver.Text.{Unicode, normalize, eqb, equal_name, dot}
use dns_resolver.Dnsmsg.Dnssec.{as_dnskey, as_ds, Dnskey, Ds}
use dns_resolver.Prelude.{
  List, Option, Bool, ℕ, Bytes, ◌∷◌, [], none, some, false, Result, if◌then◌else◌, min, ok, ltb,
  max, err, suc, not, bogus, true, ◌||◌, ◌++◌, out_of_fuel, zero, ◌+◌, ◌*◌,
}
use dns_resolver.Resolver.Delegations.{bytes_eq, min_delegation_ttl, max_delegation_ttl}

pub record KeyEntry : Type 0 where
  pub keys : List Dnskey
  pub expiry : ℕ

-- The state that the steps pass on: keyCache's map, and the number of the next reading or call.
pub record World : Type 0 where
  pub cache : Option (List (Bytes × KeyEntry))
  pub tick : ℕ

-- The fields of the Resolver that do not change: `validate`, and `anchors`, where `none` is nil.
pub record Settings : Type 0 where
  pub validate : Bool
  pub anchors : Option (List Ds)

abbrev pub wait : World → ℕ → World
wait w tick = record w { tick = tick }

-- rootKSK2017Digest in bytes
abbrev pub root_digest : Bytes
root_digest =
    224 ∷ 109 ∷ 68 ∷ 184 ∷ 11 ∷ 143 ∷ 29 ∷ 57 ∷ 169 ∷ 92 ∷ 11 ∷ 13 ∷ 124 ∷ 101 ∷ 208 ∷ 132 ∷ 88
    ∷ 232 ∷ 128 ∷ 64 ∷ 155 ∷ 188 ∷ 104 ∷ 52 ∷ 87 ∷ 16 ∷ 66 ∷ 55 ∷ 199 ∷ 248 ∷ 236 ∷ 141 ∷ []

-- RootAnchors
abbrev pub root_anchors : List Ds
root_anchors = record { key_tag = 20326; algorithm = 8; digest_type = 2; digest = root_digest } ∷ []

unfoldable pub trust_anchors : Settings → List Ds
trust_anchors r = elim r.anchors [ none ↦ root_anchors | some anchors ↦ anchors ]

-- The records of a set that parse.
unfoldable pub dnskeys_of : List Rr → List Dnskey
unfolding as_dnskey
dnskeys_of [] = []
dnskeys_of (rr ∷ rrs) = elim (as_dnskey rr) [
  | none ↦ dnskeys_of rrs
  | some key ↦ key ∷ dnskeys_of rrs
]

unfoldable pub ds_of : List Rr → List Ds
unfolding as_ds
ds_of [] = []
ds_of (rr ∷ rrs) = elim (as_ds rr) [ none ↦ ds_of rrs | some ds ↦ ds ∷ ds_of rrs ]

-- Where the loops over keys and anchors stand: verified, and unsupported.
pub record Search : Type 0 where
  pub verified : Bool
  pub unsupported : Bool

module _ ⦃u : Unicode⦄ where
  -- keyCache.get
  unfoldable pub get_keys : Option (List (Bytes × KeyEntry)) → ℕ → Bytes → Option (List Dnskey)
  unfolding normalize find
  get_keys none now zone = none
  get_keys (some entries) now zone = elim (find (normalize zone) entries) [
    | none ↦ none
    | some e ↦ if ltb now e.expiry then some e.keys else none
  ]

  -- keyCache.put
  unfoldable pub put_keys :
      Option (List (Bytes × KeyEntry))
      → ℕ
      → Bytes
      → List Dnskey
      → ℕ
      → Option (List (Bytes × KeyEntry))
  unfolding normalize assign
  put_keys none now zone keys ttl = none
  put_keys (some entries) now zone [] ttl = some entries
  put_keys (some entries) now zone (key ∷ keys) ttl =
      let clamped = min (max ttl min_delegation_ttl) max_delegation_ttl in
      let e : KeyEntry = record { keys = key ∷ keys; expiry = now + clamped * second } in
      some (assign (normalize zone) e entries)

  module _ ⦃c : Crypto⦄ ⦃n : Upstream⦄ where
    -- The loop over the anchors, for one key of the zone.
    unfoldable pub try_anchors :
        Bytes → List Rr → List Rr → Dnskey → List Ds → Bool → ℕ → Search × ℕ
    unfolding verify_ds verify_with
    try_anchors zone key_set section key [] unsupported tick =
        (record { verified = false; unsupported = unsupported }, tick)
    try_anchors zone key_set section key (ds ∷ anchors) unsupported tick =
        elim (verify_ds zone key ds) [
          | err e ↦
              try_anchors zone key_set section key anchors (is_unsupported e || unsupported) tick
          | ok _ ↦
              let (r, next) = verify_with key_set section (key ∷ []) tick in
              elim r [
                | ok sig ↦ (record { verified = true; unsupported = unsupported }, next)
                | err e ↦
                    try_anchors zone key_set section key anchors (is_unsupported e || unsupported)
                      next
              ]
        ]

    -- The loop over the keys.
    unfoldable pub find_vouched :
        Bytes → List Rr → List Rr → List Ds → List Dnskey → Bool → ℕ → Search × ℕ
    unfolding try_anchors
    find_vouched zone key_set section anchors [] unsupported tick =
        (record { verified = false; unsupported = unsupported }, tick)
    find_vouched zone key_set section anchors (key ∷ keys) unsupported tick =
        let (s, next) = try_anchors zone key_set section key anchors unsupported tick in
        let rest = find_vouched zone key_set section anchors keys s.unsupported next in
        if s.verified then (s, next) else rest

    -- What zoneKeys makes of the set of DNSKEY records in a response.
    unfoldable pub accept_keys :
        Bytes → Message → List Ds → List Rr → World → Result (List Dnskey) × World
    unfolding dnskeys_of find_vouched put_keys min_ttl_of
    accept_keys zone resp anchors [] w = (err bogus, w)
    accept_keys zone resp anchors (rr ∷ rrs) w =
        let key_set = rr ∷ rrs in
        let keys = dnskeys_of key_set in
        let (s, next) = find_vouched zone key_set resp.answers anchors keys false w.tick in
        if not s.verified then (if s.unsupported then ok [] else err bogus, wait w next) else (
          ok keys,
          record {
            cache = put_keys w.cache (n.clock next) zone keys (min_ttl_of key_set);
            tick = suc next;
          },
        )

    unfoldable pub zone_keys : Bytes → List Bytes → List Ds → World → Result (List Dnskey) × World
    unfolding get_keys records_of_type accept_keys
    zone_keys zone servers anchors w = elim (get_keys w.cache (n.clock w.tick) zone) [
      | some keys ↦ (ok keys, wait w (suc w.tick))
      | none ↦ elim (n.reply (suc w.tick) servers zone type_dnskey) [
        | err e ↦ (err e, wait w (suc (suc w.tick)))
        | ok resp ↦
            accept_keys zone resp anchors (records_of_type resp.answers type_dnskey zone)
              (wait w (suc (suc w.tick)))
      ]
    ]

    unfoldable pub root_state : Settings → List Bytes → World → Result SecState × World
    unfolding trust_anchors zone_keys
    root_state r servers w =
        let (keys, next) = zone_keys (dot ∷ []) servers (trust_anchors r) w in
        (elim keys [ err e ↦ err e | ok ks ↦ ok (record { secure = true; keys = ks }) ], next)

    -- startingSecurity; `checking_disabled` is what the context says.
    unfoldable pub starting_security :
        Settings → Bool → Bytes → List Bytes → World → Result SecState × World
    unfolding normalize eqb get_keys root_state
    starting_security r checking_disabled zone servers w =
        if not r.validate || checking_disabled
        then (ok insecure, w)
        else if eqb (normalize zone) []
        then root_state r servers w
        else elim (get_keys w.cache (n.clock w.tick) zone) [
          | none ↦ (ok insecure, wait w (suc w.tick))
          | some keys ↦ (ok (record { secure = true; keys = keys }), wait w (suc w.tick))
        ]

    -- The state that enterZone makes of the child's keys.
    unfoldable pub child_state : Result (List Dnskey) → Result SecState
    child_state (err e) = err e
    child_state (ok []) = ok insecure
    child_state (ok (key ∷ keys)) = ok (record { secure = true; keys = key ∷ keys })

    module _ ⦃g : Digest⦄ where
      -- enterZone for this set of DS records of the section
      unfoldable pub enter_with :
          Settings
          → SecState
          → List Rr
          → Bytes
          → List Bytes
          → List Rr
          → World
          → Result SecState × World
      unfolding check_denial prove_no_ds verify_with ds_of zone_keys child_state
      enter_with r parent section zone servers [] w =
          let (d, next) =
            check_denial r.validate parent section (λ nsecs. prove_no_ds nsecs zone) w.tick in
          (elim d [ err e ↦ err bogus | ok _ ↦ ok insecure ], wait w next)
      enter_with r parent section zone servers (ds ∷ dss) w =
          let (v, next) = verify_with (ds ∷ dss) section parent.keys w.tick in
          elim v [
            | err e ↦ (err bogus, wait w next)
            | ok sig ↦
                let (keys, after) = zone_keys zone servers (ds_of (ds ∷ dss)) (wait w next) in
                (child_state keys, after)
          ]

      unfoldable pub enter_zone :
          Settings → SecState → List Rr → Bytes → List Bytes → World → Result SecState × World
      unfolding records_of_type enter_with
      enter_zone r parent section zone servers w =
          enter_with r parent section zone servers (records_of_type section type_ds zone) w

      unfoldable pub cross_delegation :
          Settings → SecState → Message → Bytes → List Bytes → World → Result SecState × World
      unfolding enter_zone
      cross_delegation r parent resp zone servers w =
          if not parent.secure
          then (ok insecure, w)
          else enter_zone r parent resp.authorities zone servers w

      unfoldable pub fetch_delegation :
          Settings → SecState → Bytes → List Bytes → World → Result SecState × World
      unfolding enter_zone
      fetch_delegation r parent zone servers w = elim (n.reply w.tick servers zone type_ds) [
        | err e ↦ (err e, wait w (suc w.tick))
        | ok resp ↦
            enter_zone r parent (resp.answers ++ resp.authorities) zone servers
              (wait w (suc w.tick))
      ]

      -- The loop of descendTo.
      unfoldable pub descend_to :
          ℕ → Settings → SecState → Bytes → Bytes → List Bytes → World → Result SecState × World
      unfolding equal_name minimized_qname fetch_delegation
      descend_to zero r sec zone to servers w = (err out_of_fuel, w)
      descend_to (suc fuel) r sec zone to servers w =
          let child = minimized_qname to zone in
          let (s, next) = fetch_delegation r sec child servers w in
          let further : SecState → Result SecState × World =
            λ st. descend_to fuel r st child to servers next in
          if equal_name zone to then (ok sec, w) else elim s [
            | err e ↦ (err e, next)
            | ok st ↦ if not st.secure then (ok insecure, next) else further st
          ]
