-- ===== src/Resolver/Validation/Descent.antt =====
-- startingSecurity and rootState of resolver/validate.go: the keys of the first state are trusted.
use dns_resolver.Text.Split.{eqb_iff}
use dns_resolver.Resolver.Validation.Keys.{IsKeys, zone_keys-IsKeys}
use dns_resolver.Dnsmsg.Dnssec.{Dnskey}
use dns_resolver.Resolver.Validation.Trust.{IsSound, Trusted, at_root, get_keys-Trusted}
use dns_resolver.Prelude.{
  Bytes, List, Bool, Result, Error, ◌∷◌, ◌≡◌, [], ◌⊎◌, ok, err, refl, inl, subst, inr, true, ◌∙◌,
  sym, Option, none, suc, some, Bool-cases, not, ◌||◌,
}
use dns_resolver.Resolver.Validation.Chain.{
  Settings, root_state, starting_security, World, zone_keys, trust_anchors, get_keys, wait,
}
use dns_resolver.Resolver.Validation.{Upstream, SecState, insecure}
use dns_resolver.Signature.Checks.{Crypto}
use dns_resolver.Text.{Unicode, normalize, dot, eqb}

module _ ⦃u : Unicode⦄ ⦃c : Crypto⦄ ⦃n : Upstream⦄ where
  -- The keys of a state are trusted for the zone, or it has none: then no signature verifies.
  abbrev pub Secured : Settings → Bytes → SecState → Type 0
  Secured r zone st = (st.keys ≡ []) ⊎ Trusted r (normalize zone) st.keys

  -- The state that a step returns is secured for the zone, and the cache is as it should be.
  pub record IsState (r : Settings) (zone : Bytes) (p : Result SecState × World) : Type 0 where
    pub sound : IsSound r p.1.cache
    pub secured : (st : SecState) → p.0 ≡ ok st → Secured r zone st

  pub failed-IsState :
      (r : Settings) (zone : Bytes) (e : Error) (w : World)
      → IsSound r w.cache
      → IsState r zone (err e, w)
  failed-IsState r zone e w s = record { sound = s; secured = λ st h. absurd (cc) }

  pub held-IsState :
      (r : Settings) (zone : Bytes) (st : SecState) (w : World)
      → IsSound r w.cache
      → Secured r zone st
      → IsState r zone (ok st, w)
  held-IsState r zone st w s k = record {
    sound = s;
    secured = λ t h. let same : st ≡ t = cc in subst (Secured r zone) same k;
  }

  root_key : normalize (dot ∷ []) ≡ []
  unfolding normalize
  root_key = refl

  root_state-IsState :
      (r : Settings) (servers : List Bytes) (w : World)
      → IsSound r w.cache
      → IsState r (dot ∷ []) (root_state r servers w)
  unfolding root_state
  root_state-IsState r servers w s =
      by_keys (zone_keys (dot ∷ []) servers (trust_anchors r) w)
        (zone_keys-IsKeys r (dot ∷ []) servers (trust_anchors r) w at_root s)
    where
      by_keys :
          (p : Result (List Dnskey) × World)
          → IsKeys r (dot ∷ []) p
          → IsState r
              (dot ∷ [])
              (elim p.0 [ err e ↦ err e | ok ks ↦ ok (record { secure = true; keys = ks }) ], p.1)
      by_keys (err e, next) k = failed-IsState r (dot ∷ []) e next k.sound
      by_keys (ok ks, next) k = held-IsState r (dot ∷ []) _ next k.sound (k.trusted ks refl)

  -- startingSecurity returns a state whose keys are trusted for the zone that the walk starts in, or
  -- that has no keys, whatever the servers answer; every set of keys in the cache stays trusted.
  pub starting_security-IsState :
      (r : Settings) (checking_disabled : Bool) (zone : Bytes) (servers : List Bytes) (w : World)
      → IsSound r w.cache
      → IsState r zone (starting_security r checking_disabled zone servers w)
  unfolding starting_security
  starting_security-IsState r cd zone servers w s = elim (Bool-cases (not r.validate || cd)) [
    | inl off ↦ rw (off, starting_security) (held-IsState r zone insecure w s (inl refl))
    | inr on ↦ elim (Bool-cases (eqb (normalize zone) [])) [
      | inl top ↦
          rw (on, top, starting_security)
            (at_top ((eqb_iff (normalize zone) []).0 top) (root_state-IsState r servers w s))
      | inr inner ↦
          rw (on, inner, starting_security) (by_cache (get_keys w.cache (n.clock w.tick) zone) refl)
    ]
  ]
    where
      at_top :
          {p : Result SecState × World}
          → normalize zone ≡ []
          → IsState r (dot ∷ []) p
          → IsState r zone p
      at_top top k = record {
        sound = k.sound;
        secured = λ st h. elim (k.secured st h) [
          | inl none_left ↦ inl none_left
          | inr t ↦ inr (subst (λ z. Trusted r z st.keys) (root_key ∙ sym top) t)
        ];
      }

      by_cache :
          (o : Option (List Dnskey))
          → get_keys w.cache (n.clock w.tick) zone ≡ o
          → IsState r zone (elim o [
            | none ↦ (ok insecure, wait w (suc w.tick))
            | some keys ↦ (ok (record { secure = true; keys = keys }), wait w (suc w.tick))
          ])
      by_cache none e = held-IsState r zone insecure _ s (inl refl)
      by_cache (some ks) e =
          held-IsState r zone _ _ s (inr (get_keys-Trusted r w.cache (n.clock w.tick) zone ks s e))
