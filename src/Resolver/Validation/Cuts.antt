-- ===== src/Resolver/Validation/Cuts.antt =====
-- enterZone, crossDelegation, fetchDelegation and descendTo of resolver/validate.go: the keys that
-- they carry over a zone cut are trusted.
use dns_resolver.Denial.Claims.{prove_no_ds}
use dns_resolver.Resolver.Privacy.{minimized_qname}
use dns_resolver.Resolver.Validation.Keys.{IsKeys, zone_keys-IsKeys}
use dns_resolver.Resolver.Validation.Descent.{Secured, IsState, failed-IsState, held-IsState}
use dns_resolver.Resolver.Validation.Trust.{IsSound, Trusted, IsAnchored, at_cut}
use dns_resolver.Dnsmsg.Dnssec.{Dnskey, Rrsig}
use dns_resolver.Dnsmsg.{Message, Rr, type_ds}
use dns_resolver.Prelude.{
  Bytes, ℕ, Result, List, ◌≡◌, [], ok, suc, ◌⊎◌, err, inl, inr, Bool, true, sym, if◌then◌else◌,
  subst, not, ◌++◌, ◌∷◌, Member, bogus, refl, false, Bool-cases, zero, ap,
}
use dns_resolver.Resolver.Validation.Chain.{
  child_state, Settings, enter_with, enter_zone, cross_delegation, fetch_delegation, descend_to,
  World, wait, zone_keys, ds_of,
}
use dns_resolver.Denial.Hashed.{Digest}
use dns_resolver.Resolver.Validation.{
  Upstream, SecState, insecure, records_of_type, check_denial, verify_with,
}
use dns_resolver.Signature.Checks.{Crypto}
use dns_resolver.Text.{Unicode, equal_name, normalize}
use dns_resolver.Resolver.Validation.Attempts.{
  VerifyOutcome, IsVerified, verified, refused, verify_with-VerifyOutcome,
}

module _ ⦃u : Unicode⦄ ⦃c : Crypto⦄ ⦃n : Upstream⦄ ⦃g : Digest⦄ where
  child_state-IsState :
      (r : Settings) (zone : Bytes) (p : Result (List Dnskey) × World)
      → IsKeys r zone p
      → IsState r zone (child_state p.0, p.1)
  unfolding child_state
  child_state-IsState r zone (err e, w) k = failed-IsState r zone e w k.sound
  child_state-IsState r zone (ok [], w) k = held-IsState r zone insecure w k.sound (inl refl)
  child_state-IsState r zone (ok (key ∷ keys), w) k =
      held-IsState r zone _ w k.sound (k.trusted (key ∷ keys) refl)

  -- Keys that verify a set are not none.
  pub verifier-Trusted :
      {r : Settings} {zone : Bytes} {rrset section : List Rr} {sig : Rrsig} {tick next : ℕ}
      (keys : List Dnskey)
      → IsVerified rrset section keys sig tick next
      → (keys ≡ []) ⊎ Trusted r zone keys
      → Trusted r zone keys
  verifier-Trusted keys v (inr t) = t
  verifier-Trusted keys v (inl e) = absurd (subst (Member v.fit.key) e v.fit.known)

  enter_with-IsState :
      (r : Settings) (parent : SecState) (above : Bytes) (section : List Rr) (zone : Bytes)
      (servers : List Bytes) (dss : List Rr) (w : World)
      → (parent.keys ≡ []) ⊎ Trusted r above parent.keys
      → IsSound r w.cache
      → dss ≡ records_of_type section type_ds zone
      → IsState r zone (enter_with r parent section zone servers dss w)
  unfolding enter_with
  enter_with-IsState r parent above section zone servers [] w k s e =
      by_denial (check_denial r.validate parent section (λ nsecs. prove_no_ds nsecs zone) w.tick)
    where
      by_denial :
          (p : Result Bool × ℕ)
          → IsState r zone (elim p.0 [ err x ↦ err bogus | ok b ↦ ok insecure ], wait w p.1)
      by_denial (err x, next) = failed-IsState r zone bogus (wait w next) s
      by_denial (ok b, next) = held-IsState r zone insecure (wait w next) s (inl refl)
  enter_with-IsState r parent above section zone servers (ds ∷ dss) w k s e =
      by_set (verify_with (ds ∷ dss) section parent.keys w.tick)
        (verify_with-VerifyOutcome (ds ∷ dss) section parent.keys w.tick)
    where
      by_set :
          (p : Result Rrsig × ℕ)
          → VerifyOutcome (ds ∷ dss) section parent.keys w.tick p
          → IsState r zone (elim p.0 [
            | err x ↦ (err bogus, wait w p.1)
            | ok sig ↦ (
              child_state (zone_keys zone servers (ds_of (ds ∷ dss)) (wait w p.1)).0,
              (zone_keys zone servers (ds_of (ds ∷ dss)) (wait w p.1)).1,
            )
          ])
      by_set p (refused {next} le) = failed-IsState r zone bogus (wait w next) s
      by_set p (verified {sig} {next} v) =
          let anchored : IsAnchored zone parent.keys (ds_of (ds ∷ dss)) = record {
            section = section;
            anchors_are = ap ds_of e;
            sig = sig;
            tick = w.tick;
            next = next;
            signed = subst (λ l. IsVerified l section parent.keys sig w.tick next) e v;
          } in
          child_state-IsState r zone _ (
            zone_keys-IsKeys r zone servers (ds_of (ds ∷ dss)) (wait w next)
              (at_cut (verifier-Trusted parent.keys v k) anchored) s)

  pub enter_zone-IsState :
      (r : Settings) (parent : SecState) (above : Bytes) (section : List Rr) (zone : Bytes)
      (servers : List Bytes) (w : World)
      → (parent.keys ≡ []) ⊎ Trusted r above parent.keys
      → IsSound r w.cache
      → IsState r zone (enter_zone r parent section zone servers w)
  unfolding enter_zone
  enter_zone-IsState r parent above section zone servers w k s =
      enter_with-IsState r parent above section zone servers _ w k s refl

  -- crossDelegation carries trust over a cut: from a state whose keys are trusted, or that has
  -- none, it returns such a state for the child zone, whatever the referral and the servers say;
  -- every set of keys in the cache stays trusted.
  pub cross_delegation-IsState :
      (r : Settings) (parent : SecState) (above : Bytes) (resp : Message) (zone : Bytes)
      (servers : List Bytes) (w : World)
      → (parent.keys ≡ []) ⊎ Trusted r above parent.keys
      → IsSound r w.cache
      → IsState r zone (cross_delegation r parent resp zone servers w)
  unfolding cross_delegation
  cross_delegation-IsState r parent above resp zone servers w k s =
      by_security parent.secure
        (enter_zone-IsState r parent above resp.authorities zone servers w k s)
    where
      by_security :
          {v : Result SecState × World} (b : Bool)
          → IsState r zone v
          → IsState r zone (if not b then (ok insecure, w) else v)
      by_security true d = d
      by_security false d = held-IsState r zone insecure w s (inl refl)

  fetch_delegation-IsState :
      (r : Settings) (parent : SecState) (above zone : Bytes) (servers : List Bytes) (w : World)
      → (parent.keys ≡ []) ⊎ Trusted r above parent.keys
      → IsSound r w.cache
      → IsState r zone (fetch_delegation r parent zone servers w)
  unfolding fetch_delegation
  fetch_delegation-IsState r parent above zone servers w k s =
      by_reply (n.reply w.tick servers zone type_ds)
    where
      by_reply :
          (m : Result Message)
          → IsState r zone (elim m [
            | err e ↦ (err e, wait w (suc w.tick))
            | ok resp ↦
                enter_zone r parent
                  (resp.answers ++ resp.authorities)
                  zone
                  servers
                  (wait w (suc w.tick))
          ])
      by_reply (err e) = failed-IsState r zone e (wait w (suc w.tick)) s
      by_reply (ok resp) =
          enter_zone-IsState r parent above (resp.answers ++ resp.authorities) zone servers
            (wait w (suc w.tick)) k s

  -- What descendTo returns: a state without keys, or one whose keys are trusted for the zone that
  -- it was asked for, in some spelling.
  pub record IsDescended (r : Settings) (to : Bytes) (p : Result SecState × World) : Type 0 where
    pub sound : IsSound r p.1.cache
    pub arrived :
        (st : SecState)
        → p.0 ≡ ok st
        → (st.keys ≡ [])
          ⊎ ((zone : Bytes) × (equal_name zone to ≡ true) × Trusted r (normalize zone) st.keys)

  stopped :
      (r : Settings) (to : Bytes) (w : World)
      → IsSound r w.cache
      → IsDescended r to (ok insecure, w)
  stopped r to w s = record {
    sound = s;
    arrived = λ st h. let same : insecure.keys ≡ st.keys = cc in inl (sym same);
  }

  -- descendTo takes trust down to the zone asked for, one cut at a time: from a state whose keys
  -- are trusted for the zone it starts in, or that has none, it returns such a state for the zone
  -- asked for, whatever the servers answer; every set of keys in the cache stays trusted.
  pub descend_to-IsDescended :
      (fuel : ℕ) (r : Settings) (sec : SecState) (zone to : Bytes) (servers : List Bytes)
      (w : World)
      → Secured r zone sec
      → IsSound r w.cache
      → IsDescended r to (descend_to fuel r sec zone to servers w)
  unfolding descend_to
  descend_to-IsDescended zero r sec zone to servers w k s = record {
    sound = s;
    arrived = λ st h. absurd (cc);
  }
  descend_to-IsDescended (suc fuel) r sec zone to servers w k s =
      elim (Bool-cases (equal_name zone to)) [
        | inl there ↦
            rw (there, descend_to)
              (record {
                sound = s;
                arrived = λ st h.
                    let same : sec ≡ st = cc in
                    elim (subst (Secured r zone) same k) [
                      | inl e ↦ inl e
                      | inr t ↦ inr (zone, there, t)
                    ];
              })
        | inr above ↦
            rw (above, descend_to)
              (by_step (fetch_delegation r sec (minimized_qname to zone) servers w)
                (fetch_delegation-IsState r sec (normalize zone) (minimized_qname to zone) servers w
                  k s)
                λ st next q t.
                  descend_to-IsDescended fuel r st (minimized_qname to zone) to servers next q t)
      ]
    where
      by_step :
          (p : Result SecState × World)
          → IsState r (minimized_qname to zone) p
          → ((st : SecState) (next : World)
              → Secured r (minimized_qname to zone) st
              → IsSound r next.cache
              → IsDescended r to (descend_to fuel r st (minimized_qname to zone) to servers next))
          → IsDescended r to (elim p.0 [
            | err e ↦ (err e, p.1)
            | ok st ↦
                if not st.secure
                then (ok insecure, p.1)
                else descend_to fuel r st (minimized_qname to zone) to servers p.1
          ])
      by_step (err e, next) q ih = record { sound = q.sound; arrived = λ st h. absurd (cc) }
      by_step (ok st, next) q ih = by_security st.secure (ih st next (q.secured st refl) q.sound)
        where
          by_security :
              {v : Result SecState × World} (b : Bool)
              → IsDescended r to v
              → IsDescended r to (if not b then (ok insecure, next) else v)
          by_security true d = d
          by_security false d = stopped r to next q.sound
