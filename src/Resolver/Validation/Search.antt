-- ===== src/Resolver/Validation/Search.antt =====
-- The loops of zoneKeys in resolver/validate.go over keys and anchors.
use dns_resolver.Dnsmsg.Dnssec.{Ds, Dnskey, Rrsig}
use dns_resolver.Dnsmsg.{Rr}
use dns_resolver.Resolver.Validation.Chain.{Search, try_anchors, find_vouched}
use dns_resolver.Prelude.{
  Bytes, List, ℕ, ◌≡◌, true, Member, false, ◌∷◌, Bool, inr, Result, if◌then◌else◌, ok, inl, [], err,
  refl, ◌||◌,
}
use dns_resolver.Resolver.Validation.{Upstream, is_unsupported, verify_with}
use dns_resolver.Signature.Checks.{Crypto, verify_ds}
use dns_resolver.Text.{Unicode}
use dns_resolver.Resolver.Validation.Attempts.{
  VerifyOutcome, IsVerified, verified, refused, verify_with-VerifyOutcome,
}

module _ ⦃u : Unicode⦄ ⦃c : Crypto⦄ ⦃n : Upstream⦄ where
  -- A key of the zone, and an anchor that it matches; the key signs the set.
  pub record IsMatch (zone : Bytes) (key_set section : List Rr) (anchors : List Ds) (key : Dnskey)
      : Type 0 where
    pub ds : Ds
    pub anchored : Member ds anchors
    pub matches : verify_ds zone key ds ≡ ok tt
    pub sig : Rrsig
    pub tick : ℕ
    pub next : ℕ
    pub self_signed : IsVerified key_set section (key ∷ []) sig tick next

  -- Where the two loops may end.
  pub data SearchOutcome (P : Type 0) : Search × ℕ → Type 0 where
    found : {s : Search} {next : ℕ} → s.verified ≡ true → P → SearchOutcome P (s, next)
    missed : {s : Search} {next : ℕ} → s.verified ≡ false → SearchOutcome P (s, next)

  SearchOutcome-map :
      {P Q : Type 0} {p : Search × ℕ} → (P → Q) → SearchOutcome P p → SearchOutcome Q p
  SearchOutcome-map f (found v m) = found v (f m)
  SearchOutcome-map f (missed v) = missed v

  another_anchor :
      (zone : Bytes) (key_set section : List Rr) (anchors : List Ds) (key : Dnskey) (ds : Ds)
      → IsMatch zone key_set section anchors key
      → IsMatch zone key_set section (ds ∷ anchors) key
  another_anchor zone key_set section anchors key ds m = record {
    ds = m.ds;
    anchored = inr m.anchored;
    matches = m.matches;
    sig = m.sig;
    tick = m.tick;
    next = m.next;
    self_signed = m.self_signed;
  }

  try_anchors_lem :
      (zone : Bytes) (key_set section : List Rr) (key : Dnskey) (anchors : List Ds) (f : Bool)
      (tick : ℕ)
      → SearchOutcome
          (IsMatch zone key_set section anchors key)
          (try_anchors zone key_set section key anchors f tick)
  unfolding try_anchors
  try_anchors_lem zone key_set section key [] f tick = missed refl
  try_anchors_lem zone key_set section key (ds ∷ anchors) f tick =
      let further = λ (g : Bool) (t : ℕ).
        SearchOutcome-map (another_anchor zone key_set section anchors key ds)
          (try_anchors_lem zone key_set section key anchors g t) in
      by_ds (verify_ds zone key ds) refl further
    where
      by_set :
          (p : Result Rrsig × ℕ)
          → verify_ds zone key ds ≡ ok tt
          → VerifyOutcome key_set section (key ∷ []) tick p
          → ((g : Bool) (t : ℕ)
              → SearchOutcome
                  (IsMatch zone key_set section (ds ∷ anchors) key)
                  (try_anchors zone key_set section key anchors g t))
          → SearchOutcome (IsMatch zone key_set section (ds ∷ anchors) key) (elim p.0 [
            | ok s ↦ (record { verified = true; unsupported = f }, p.1)
            | err e ↦ try_anchors zone key_set section key anchors (is_unsupported e || f) p.1
          ])
      by_set p m (verified {sig} {next} v) further = found refl (record {
        ds = ds;
        anchored = inl refl;
        matches = m;
        sig = sig;
        tick = tick;
        next = next;
        self_signed = v;
      })
      by_set p m (refused {e} {next} le) further = further (is_unsupported e || f) next

      by_ds :
          (d : Result (Unit {0}))
          → verify_ds zone key ds ≡ d
          → ((g : Bool) (t : ℕ)
              → SearchOutcome
                  (IsMatch zone key_set section (ds ∷ anchors) key)
                  (try_anchors zone key_set section key anchors g t))
          → SearchOutcome (IsMatch zone key_set section (ds ∷ anchors) key) (elim d [
            | err e ↦ try_anchors zone key_set section key anchors (is_unsupported e || f) tick
            | ok t ↦ elim (verify_with key_set section (key ∷ []) tick).0 [
              | ok s ↦ (
                record { verified = true; unsupported = f },
                (verify_with key_set section (key ∷ []) tick).1,
              )
              | err e ↦
                  try_anchors zone key_set section key anchors
                    (is_unsupported e || f)
                    (verify_with key_set section (key ∷ []) tick).1
            ]
          ])
      by_ds (err e) eq further = further (is_unsupported e || f) tick
      by_ds (ok t) eq further =
          by_set (verify_with key_set section (key ∷ []) tick) eq
            (verify_with-VerifyOutcome key_set section (key ∷ []) tick) further

  -- A key of the list with such an anchor.
  abbrev pub Vouched : Bytes → List Rr → List Rr → List Ds → List Dnskey → Type 0
  Vouched zone key_set section anchors keys =
      (key : Dnskey) × Member key keys × IsMatch zone key_set section anchors key

  pub find_vouched_lem :
      (zone : Bytes) (key_set section : List Rr) (anchors : List Ds) (keys : List Dnskey) (f : Bool)
      (tick : ℕ)
      → SearchOutcome
          (Vouched zone key_set section anchors keys)
          (find_vouched zone key_set section anchors keys f tick)
  unfolding find_vouched
  find_vouched_lem zone key_set section anchors [] f tick = missed refl
  find_vouched_lem zone key_set section anchors (key ∷ keys) f tick =
      by_anchors (try_anchors zone key_set section key anchors f tick)
        (try_anchors_lem zone key_set section key anchors f tick)
        λ g t.
          SearchOutcome-map {P = Vouched zone key_set section anchors keys}
            {Q = Vouched zone key_set section anchors (key ∷ keys)} (λ v. (v.0, inr v.1, v.2))
            (find_vouched_lem zone key_set section anchors keys g t)
    where
      by_anchors :
          (p : Search × ℕ)
          → SearchOutcome (IsMatch zone key_set section anchors key) p
          → ((g : Bool) (t : ℕ)
              → SearchOutcome
                  (Vouched zone key_set section anchors (key ∷ keys))
                  (find_vouched zone key_set section anchors keys g t))
          → SearchOutcome (Vouched zone key_set section anchors (key ∷ keys)) (
              if p.0.verified
              then p
              else find_vouched zone key_set section anchors keys p.0.unsupported p.1)
      by_anchors p (found {s} {next} v m) further = rw v (found refl (key, inl refl, m))
      by_anchors p (missed {s} {next} v) further = rw v (further s.unsupported next)
