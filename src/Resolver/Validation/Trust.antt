-- ===== src/Resolver/Validation/Trust.antt =====
-- zoneKeys and its cache (resolver/validate.go): why a set of keys is believed.
use dns_resolver.Resolver.Validation.Attempts.{IsVerified}
use dns_resolver.GoMap.{find, assigned_or_kept, assign}
use dns_resolver.Dnsmsg.{Rr, type_dnskey, type_ds}
use dns_resolver.Dnsmsg.Dnssec.{Ds, Dnskey, Rrsig}
use dns_resolver.Resolver.Validation.Chain.{
  Settings, get_keys, put_keys, KeyEntry, dnskeys_of, ds_of, trust_anchors,
}
use dns_resolver.Prelude.{
  Bytes, List, Option, ◌≡◌, ℕ, ◌∷◌, some, [], none, Member, if◌then◌else◌, ltb, ok, arith, subst,
  refl, inl, inr,
}
use dns_resolver.Resolver.Validation.{Upstream, records_of_type}
use dns_resolver.Signature.Checks.{Crypto, verify_ds}
use dns_resolver.Text.{Unicode, dot, normalize}
use dns_resolver.Resolver.Delegations.{bytes_eq}

module _ ⦃u : Unicode⦄ ⦃c : Crypto⦄ ⦃n : Upstream⦄ where
  -- The keys are the DNSKEY records of the zone in some section; one of them matches one of the
  -- anchors, and signs the set.
  pub record IsVouched (zone : Bytes) (anchors : List Ds) (keys : List Dnskey) : Type 0 where
    pub section : List Rr
    pub keys_are : keys ≡ dnskeys_of (records_of_type section type_dnskey zone)
    pub key : Dnskey
    pub ds : Ds
    pub known : Member key keys
    pub anchored : Member ds anchors
    pub matches : verify_ds zone key ds ≡ ok tt
    pub sig : Rrsig
    pub tick : ℕ
    pub next : ℕ
    pub self_signed :
        IsVerified (records_of_type section type_dnskey zone) section (key ∷ []) sig tick next

  -- A DS set of the zone that stands in a section and verifies with the keys.
  pub record IsAnchored (zone : Bytes) (keys : List Dnskey) (anchors : List Ds) : Type 0 where
    pub section : List Rr
    pub anchors_are : anchors ≡ ds_of (records_of_type section type_ds zone)
    pub sig : Rrsig
    pub tick : ℕ
    pub next : ℕ
    pub signed : IsVerified (records_of_type section type_ds zone) section keys sig tick next

  -- The chain of trust: the root's keys are vouched for by the trust anchors, and a zone's keys by
  -- DS records that are signed with trusted keys.
  pub data Trusted (r : Settings) : Bytes → List Dnskey → Type 0 where
    from_root :
        {keys : List Dnskey}
        → IsVouched (dot ∷ []) (trust_anchors r) keys
        → Trusted r (normalize (dot ∷ [])) keys
    from_parent :
        {parent zone : Bytes} {parent_keys keys : List Dnskey} {anchors : List Ds}
        → Trusted r parent parent_keys
        → IsAnchored zone parent_keys anchors
        → IsVouched zone anchors keys
        → Trusted r (normalize zone) keys

  -- Where the anchors of a zone may come from.
  pub data Justified (r : Settings) : Bytes → List Ds → Type 0 where
    at_root : Justified r (dot ∷ []) (trust_anchors r)
    at_cut :
        {parent zone : Bytes} {parent_keys : List Dnskey} {anchors : List Ds}
        → Trusted r parent parent_keys
        → IsAnchored zone parent_keys anchors
        → Justified r zone anchors

  pub vouched-Trusted :
      {r : Settings} {zone : Bytes} {anchors : List Ds} {keys : List Dnskey}
      → Justified r zone anchors
      → IsVouched zone anchors keys
      → Trusted r (normalize zone) keys
  vouched-Trusted at_root v = from_root v
  vouched-Trusted (at_cut t a) v = from_parent t a v

  -- Every set of keys in the cache is trusted for the zone it stands under.
  pub record IsSound (r : Settings) (cache : Option (List (Bytes × KeyEntry))) : Type 0 where
    pub trusted :
        (entries : List (Bytes × KeyEntry)) (zone : Bytes) (e : KeyEntry)
        → cache ≡ some entries
        → find zone entries ≡ some e
        → Trusted r zone e.keys

  pub get_keys-Trusted :
      (r : Settings) (cache : Option (List (Bytes × KeyEntry))) (now : ℕ) (zone : Bytes)
      (keys : List Dnskey)
      → IsSound r cache
      → get_keys cache now zone ≡ some keys
      → Trusted r (normalize zone) keys
  unfolding get_keys
  get_keys-Trusted r none now zone keys s h = absurd (cc)
  get_keys-Trusted r (some entries) now zone keys s h =
      by_found (find (normalize zone) entries) refl h
    where
      by_found :
          (o : Option KeyEntry)
          → find (normalize zone) entries ≡ o
          → elim o [ none ↦ none | some e ↦ if ltb now e.expiry then some e.keys else none ]
            ≡ some keys
          → Trusted r (normalize zone) keys
      by_found none eq k = absurd (cc)
      by_found (some e) eq k =
          let same : e.keys ≡ keys = ground arith in
          subst (Trusted r (normalize zone)) same (s.trusted entries (normalize zone) e refl eq)

  assigned-Trusted :
      (r : Settings) (entries es : List (Bytes × KeyEntry)) (key zone : Bytes) (v e : KeyEntry)
      → IsSound r (some entries)
      → Trusted r key v.keys
      → some (assign key v entries) ≡ some es
      → find zone es ≡ some e
      → Trusted r zone e.keys
  assigned-Trusted r entries es key zone v e s t same hit =
      let is : es ≡ assign key v entries = cc in
      elim (assigned_or_kept zone key v e entries (subst (λ m. find zone m ≡ some e) is hit)) [
        | inl (at, found) ↦ rw at (subst (λ x. Trusted r key x.keys) found t)
        | inr kept ↦ s.trusted entries zone e refl kept
      ]

  pub put_keys-IsSound :
      (r : Settings) (cache : Option (List (Bytes × KeyEntry))) (now : ℕ) (zone : Bytes)
      (keys : List Dnskey) (ttl : ℕ)
      → IsSound r cache
      → Trusted r (normalize zone) keys
      → IsSound r (put_keys cache now zone keys ttl)
  unfolding put_keys
  put_keys-IsSound r none now zone keys ttl s t = s
  put_keys-IsSound r (some entries) now zone [] ttl s t = s
  put_keys-IsSound r (some entries) now zone (key ∷ keys) ttl s t = record {
    trusted = λ es z e same hit. assigned-Trusted r entries es (normalize zone) z _ e s t same hit;
  }
