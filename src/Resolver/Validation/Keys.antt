-- ===== src/Resolver/Validation/Keys.antt =====
-- zoneKeys of resolver/validate.go: what it returns, and what it leaves in the cache.
use dns_resolver.Resolver.Validation.Attempts.{IsVerified}
use dns_resolver.Resolver.Validation.Search.{
  Vouched, SearchOutcome, missed, found, find_vouched_lem,
}
use dns_resolver.Resolver.Validation.Trust.{
  IsSound, Justified, Trusted, IsVouched, get_keys-Trusted, vouched-Trusted, put_keys-IsSound,
}
use dns_resolver.Dnsmsg.Dnssec.{Dnskey, Ds}
use dns_resolver.Dnsmsg.{Message, Rr, type_dnskey}
use dns_resolver.Prelude.{
  Bytes, Result, Error, List, ◌≡◌, err, ok, [], suc, ◌⊎◌, bogus, Option-cases, ◌∷◌, inr, subst, ap,
  inl, refl, Bool, ℕ, if◌then◌else◌, not, false, true,
}
use dns_resolver.Resolver.Validation.Chain.{
  Settings, accept_keys, zone_keys, World, wait, get_keys, dnskeys_of, Search, put_keys,
  find_vouched,
}
use dns_resolver.Resolver.Validation.{Upstream, records_of_type, min_ttl_of}
use dns_resolver.Signature.Checks.{Crypto}
use dns_resolver.Text.{Unicode, normalize}

module _ ⦃u : Unicode⦄ ⦃c : Crypto⦄ ⦃n : Upstream⦄ where
  -- The keys are trusted for the zone, or there are none, and the cache is as it should be.
  pub record IsKeys (r : Settings) (zone : Bytes) (p : Result (List Dnskey) × World) : Type 0 where
    pub sound : IsSound r p.1.cache
    pub trusted :
        (keys : List Dnskey) → p.0 ≡ ok keys → (keys ≡ []) ⊎ Trusted r (normalize zone) keys

  refused-IsKeys :
      (r : Settings) (zone : Bytes) (e : Error) (w : World)
      → IsSound r w.cache
      → IsKeys r zone (err e, w)
  refused-IsKeys r zone e w s = record { sound = s; trusted = λ keys h. absurd (cc) }

  accept_keys-IsKeys :
      (r : Settings) (zone : Bytes) (resp : Message) (anchors : List Ds) (rrs : List Rr) (w : World)
      → Justified r zone anchors
      → IsSound r w.cache
      → rrs ≡ records_of_type resp.answers type_dnskey zone
      → IsKeys r zone (accept_keys zone resp anchors rrs w)
  unfolding accept_keys
  accept_keys-IsKeys r zone resp anchors [] w j s e = refused-IsKeys r zone bogus w s
  accept_keys-IsKeys r zone resp anchors (rr ∷ rrs) w j s e =
      by_search
        (find_vouched zone (rr ∷ rrs) resp.answers anchors (dnskeys_of (rr ∷ rrs)) false w.tick)
        (find_vouched_lem zone (rr ∷ rrs) resp.answers anchors (dnskeys_of (rr ∷ rrs)) false w.tick)
    where
      vouched :
          Vouched zone (rr ∷ rrs) resp.answers anchors (dnskeys_of (rr ∷ rrs))
          → IsVouched zone anchors (dnskeys_of (rr ∷ rrs))
      vouched (key, m, v) = record {
        section = resp.answers;
        keys_are = ap dnskeys_of e;
        key = key;
        ds = v.ds;
        known = m;
        anchored = v.anchored;
        matches = v.matches;
        sig = v.sig;
        tick = v.tick;
        next = v.next;
        self_signed =
            subst (λ l. IsVerified l resp.answers (key ∷ []) v.sig v.tick v.next) e v.self_signed;
      }

      unverified : (b : Bool) (t : ℕ) → IsKeys r zone (if b then ok [] else err bogus, wait w t)
      unverified true t = record { sound = s; trusted = λ keys h. inl (cc) }
      unverified false t = refused-IsKeys r zone bogus (wait w t) s

      by_search :
          (p : Search × ℕ)
          → SearchOutcome (Vouched zone (rr ∷ rrs) resp.answers anchors (dnskeys_of (rr ∷ rrs))) p
          → IsKeys r zone (
              if not p.0.verified
              then (if p.0.unsupported then ok [] else err bogus, wait w p.1)
              else (
                ok (dnskeys_of (rr ∷ rrs)),
                record {
                  cache =
                      put_keys w.cache
                        (n.clock p.1)
                        zone
                        (dnskeys_of (rr ∷ rrs))
                        (min_ttl_of (rr ∷ rrs));
                  tick = suc p.1;
                },
              ))
      by_search p (missed {s = q} {next} v) = rw v (unverified q.unsupported next)
      by_search p (found {s = q} {next} v m) =
          let t = vouched-Trusted j (vouched m) in
          rw v (record {
            sound =
                put_keys-IsSound r w.cache (n.clock next) zone (dnskeys_of (rr ∷ rrs))
                  (min_ttl_of (rr ∷ rrs)) s t;
            trusted = λ keys h. inr (subst (Trusted r (normalize zone)) (cc) t);
          })

  -- zoneKeys returns no keys, or keys that are trusted for the zone, where its anchors are the
  -- resolver's own for the root or come from a signed DS set, whatever the servers answer; every set
  -- of keys in the cache stays trusted.
  pub zone_keys-IsKeys :
      (r : Settings) (zone : Bytes) (servers : List Bytes) (anchors : List Ds) (w : World)
      → Justified r zone anchors
      → IsSound r w.cache
      → IsKeys r zone (zone_keys zone servers anchors w)
  unfolding zone_keys
  zone_keys-IsKeys r zone servers anchors w j s =
      elim (Option-cases (get_keys w.cache (n.clock w.tick) zone)) [
        | inr (ks, e) ↦
            rw (e, zone_keys)
              (record {
                sound = s;
                trusted = λ keys h. inr (
                    subst (Trusted r (normalize zone)) (cc)
                      (get_keys-Trusted r w.cache _ zone ks s e));
              })
        | inl e ↦ rw (e, zone_keys) (by_reply (n.reply (suc w.tick) servers zone type_dnskey))
      ]
    where
      by_reply :
          (m : Result Message)
          → IsKeys r zone (elim m [
            | err e ↦ (err e, wait w (suc (suc w.tick)))
            | ok resp ↦
                accept_keys zone resp anchors
                  (records_of_type resp.answers type_dnskey zone)
                  (wait w (suc (suc w.tick)))
          ])
      by_reply (err e) = refused-IsKeys r zone e _ s
      by_reply (ok resp) = accept_keys-IsKeys r zone resp anchors _ _ j s refl
