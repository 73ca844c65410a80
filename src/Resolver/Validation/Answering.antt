-- ===== src/Resolver/Validation/Answering.antt =====
-- zoneKeys, enterZone and fetchDelegation of resolver/validate.go end where the servers' side does.
use dns_resolver.Denial.Claims.{prove_no_ds}
use dns_resolver.Dnsmsg.Dnssec.{Ds, Dnskey, Rrsig}
use dns_resolver.Dnsmsg.{Message, Rr, type_dnskey, type_ds}
use dns_resolver.Denial.Hashed.{Digest}
use dns_resolver.Resolver.Validation.Chain.{
  accept_keys, zone_keys, enter_with, fetch_delegation, child_state, enter_zone, World, Settings,
  wait, dnskeys_of, get_keys, ds_of, find_vouched,
}
use dns_resolver.Resolver.Validation.{
  Upstream, SecState, records_of_type, insecure, check_denial, verify_with,
}
use dns_resolver.Signature.Checks.{Crypto}
use dns_resolver.Text.{Unicode}
use dns_resolver.Prelude.{
  Result, ◌≢◌, err, out_of_fuel, ℕ, Bytes, List, ◌∷◌, Bool, if◌then◌else◌, suc, bogus, not, ok, [],
  ◌++◌, Option, some, none, true, false,
}

-- The result is not that of a loop that had too few rounds.
abbrev pub Ended : {A : Type 0} → Result A → Type 0
Ended r = r ≢ err out_of_fuel

module _ ⦃u : Unicode⦄ ⦃c : Crypto⦄ ⦃n : Upstream⦄ where
  accept_keys-Ended :
      (zone : Bytes) (resp : Message) (anchors : List Ds) (rrs : List Rr) (w : World)
      → Ended (accept_keys zone resp anchors rrs w).0
  unfolding accept_keys
  accept_keys-Ended zone resp anchors [] w h = absurd (cc)
  accept_keys-Ended zone resp anchors (rr ∷ rrs) w h =
      let (s, next) =
        find_vouched zone (rr ∷ rrs) resp.answers anchors (dnskeys_of (rr ∷ rrs)) false w.tick in
      by_flags s.verified s.unsupported _ _ h
    where
      by_flags :
          (a b : Bool) (w1 w2 : World)
          → Ended (
              let q : Result (List Dnskey) × World =
                if not a
                then (if b then ok [] else err bogus, w1)
                else (ok (dnskeys_of (rr ∷ rrs)), w2) in
              q.0)
      by_flags true b w1 w2 k = absurd (cc)
      by_flags false true w1 w2 k = absurd (cc)
      by_flags false false w1 w2 k = absurd (cc)

  -- The servers' side does not report a loop of this model.
  abbrev pub Answering : Type 0
  Answering =
      (tick : ℕ) (servers : List Bytes) (name : Bytes) (type : ℕ)
      → Ended (n.reply tick servers name type)

  zone_keys-Ended :
      (zone : Bytes) (servers : List Bytes) (anchors : List Ds) (w : World)
      → Answering
      → Ended (zone_keys zone servers anchors w).0
  unfolding zone_keys
  zone_keys-Ended zone servers anchors w up = by_cache (get_keys w.cache (n.clock w.tick) zone)
    where
      by_reply :
          (m : Result Message)
          → Ended m
          → Ended (
              let q : Result (List Dnskey) × World = elim m [
                | err e ↦ (err e, wait w (suc (suc w.tick)))
                | ok resp ↦
                    accept_keys zone resp anchors
                      (records_of_type resp.answers type_dnskey zone)
                      (wait w (suc (suc w.tick)))
              ] in
              q.0)
      by_reply (err e) k = λ h. k (cc)
      by_reply (ok resp) k =
          accept_keys-Ended zone resp anchors (records_of_type resp.answers type_dnskey zone)
            (wait w (suc (suc w.tick)))

      by_cache :
          (o : Option (List Dnskey))
          → Ended (
              let q : Result (List Dnskey) × World = elim o [
                | some keys ↦ (ok keys, wait w (suc w.tick))
                | none ↦ elim (n.reply (suc w.tick) servers zone type_dnskey) [
                  | err e ↦ (err e, wait w (suc (suc w.tick)))
                  | ok resp ↦
                      accept_keys zone resp anchors
                        (records_of_type resp.answers type_dnskey zone)
                        (wait w (suc (suc w.tick)))
                ]
              ] in
              q.0)
      by_cache (some keys) = λ h. absurd (cc)
      by_cache none =
          by_reply (n.reply (suc w.tick) servers zone type_dnskey)
            (up (suc w.tick) servers zone type_dnskey)

  module _ ⦃g : Digest⦄ where
    enter_with-Ended :
        (r : Settings) (parent : SecState) (section : List Rr) (zone : Bytes) (servers : List Bytes)
        (dss : List Rr) (w : World)
        → Answering
        → Ended (enter_with r parent section zone servers dss w).0
    unfolding enter_with child_state
    enter_with-Ended r parent section zone servers [] w up =
        by_denial
          (check_denial r.validate parent section (λ nsecs. prove_no_ds nsecs zone) w.tick).0
      where
        by_denial : (d : Result Bool) → Ended (elim d [ err e ↦ err bogus | ok b ↦ ok insecure ])
        by_denial (err e) h = absurd (cc)
        by_denial (ok b) h = absurd (cc)
    enter_with-Ended r parent section zone servers (ds ∷ dss) w up =
        by_set (verify_with (ds ∷ dss) section parent.keys w.tick)
      where
        by_keys : (k : Result (List Dnskey)) → Ended k → Ended (child_state k)
        by_keys (err e) k = λ h. k (cc)
        by_keys (ok []) k = λ h. absurd (cc)
        by_keys (ok (key ∷ keys)) k = λ h. absurd (cc)

        by_set :
            (p : Result Rrsig × ℕ)
            → Ended (
                let q : Result SecState × World = elim p.0 [
                  | err x ↦ (err bogus, wait w p.1)
                  | ok sig ↦ (
                    child_state (zone_keys zone servers (ds_of (ds ∷ dss)) (wait w p.1)).0,
                    (zone_keys zone servers (ds_of (ds ∷ dss)) (wait w p.1)).1,
                  )
                ] in
                q.0)
        by_set (err x, next) = λ h. absurd (cc)
        by_set (ok sig, next) =
            by_keys (zone_keys zone servers (ds_of (ds ∷ dss)) (wait w next)).0
              (zone_keys-Ended zone servers (ds_of (ds ∷ dss)) (wait w next) up)

    pub fetch_delegation-Ended :
        (r : Settings) (parent : SecState) (zone : Bytes) (servers : List Bytes) (w : World)
        → Answering
        → Ended (fetch_delegation r parent zone servers w).0
    unfolding fetch_delegation enter_zone
    fetch_delegation-Ended r parent zone servers w up =
        by_reply (n.reply w.tick servers zone type_ds) (up w.tick servers zone type_ds)
      where
        by_reply :
            (m : Result Message)
            → Ended m
            → Ended (
                let q : Result SecState × World = elim m [
                  | err e ↦ (err e, wait w (suc w.tick))
                  | ok resp ↦
                      enter_zone r parent
                        (resp.answers ++ resp.authorities)
                        zone
                        servers
                        (wait w (suc w.tick))
                ] in
                q.0)
        by_reply (err e) k = λ h. k (cc)
        by_reply (ok resp) k =
            enter_with-Ended r parent (resp.answers ++ resp.authorities) zone servers
              (records_of_type (resp.answers ++ resp.authorities) type_ds zone)
              (wait w (suc w.tick)) up
