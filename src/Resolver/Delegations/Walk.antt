-- ===== src/Resolver/Delegations/Walk.antt =====
-- closestEnclosing of resolver/delegationcache.go: the delegation that a resolution starts from.
use dns_resolver.Resolver.Delegations.Above.{IsAbove, Shortens, zones-IsAbove, zones-Shortens}
use dns_resolver.Lru.Bindings.{get-remove-some, get-remove}
use dns_resolver.Text.Split.{eqb_iff}
use dns_resolver.Text.{eqb, Unicode, normalize, dot}
use dns_resolver.Lru.{Lru, get, remove}
use dns_resolver.Prelude.{
  ℕ, List, Bytes, All, ◌≡◌, Option, ◌∷◌, some, ◌++◌, none, Bool-cases, [], Option-cases, ◌<◌, arith,
  ltb, ap, inl, false, inr, ◌∙◌, refl, true, ◌≤◌, ◌⊎◌, suc, Member, length, ◌≢◌, subst, sym,
  All-member,
}
use dns_resolver.Resolver.Delegations.{
  bytes_eq, walk, Delegation, DelegationCache, closest_enclosing, Closest, closest_of, zones,
  zone_name,
}

-- A delegation that has not expired is cached for the zone.
abbrev pub IsLive : ℕ → Lru Bytes Delegation → Bytes → Type 0
IsLive now c z = (e : Delegation) × (get z c ≡ some e) × (now < e.expiry)

-- None of the zones has one.
abbrev pub NoneLive : ℕ → Lru Bytes Delegation → List Bytes → Type 0
NoneLive now c = All (λ z. ¬ IsLive now c z)

-- The walk went past zones that have no live delegation, to one that has.
record IsFirst (now : ℕ) (zs : List Bytes) (c : Lru Bytes Delegation) (z : Bytes) (e : Delegation)
    : Type 0 where
  pub above : List Bytes
  pub below : List Bytes
  pub order : zs ≡ above ++ (z ∷ below)
  pub stored : get z c ≡ some e
  pub live : now < e.expiry
  pub deepest : NoneLive now c above

abbrev WalkPost : ℕ → List Bytes → Lru Bytes Delegation → Option (Bytes × Delegation) → Type 0
WalkPost now zs c none = NoneLive now c zs
WalkPost now zs c (some (z, e)) = IsFirst now zs c z e

not-IsLive_missing :
    (now : ℕ) (c : Lru Bytes Delegation) (z : Bytes) → get z c ≡ none → ¬ IsLive now c z
not-IsLive_missing now c z miss (e, hit, live) = absurd (ground arith)

not-IsLive_expired :
    (now : ℕ) (c : Lru Bytes Delegation) (z : Bytes) (e : Delegation)
    → get z c ≡ some e
    → ltb now e.expiry ≡ false
    → ¬ IsLive now c z
not-IsLive_expired now c z e hit over (f, hit', live) = absurd (ground arith)

-- An expired delegation that is dropped was not live, so the live ones stay.
not-IsLive-remove :
    (now : ℕ) (c : Lru Bytes Delegation) (z y : Bytes)
    → ¬ IsLive now c z
    → ¬ IsLive now (remove z c) y
    → ¬ IsLive now c y
unfolding bytes_eq
not-IsLive-remove now c z y dead gone (e, hit, live) = elim (Bool-cases (eqb z y)) [
  | inl same ↦ dead (e, ap (λ x. get x c) ((eqb_iff z y).0 same) ∙ hit, live)
  | inr differ ↦ gone (e, get-remove y z c ∙ rw differ hit, live)
]

NoneLive-remove :
    (now : ℕ) (c : Lru Bytes Delegation) (z : Bytes) (ys : List Bytes)
    → ¬ IsLive now c z
    → NoneLive now (remove z c) ys
    → NoneLive now c ys
NoneLive-remove now c z [] dead h = tt
NoneLive-remove now c z (y ∷ ys) dead h =
    (not-IsLive-remove now c z y dead h.0, NoneLive-remove now c z ys dead h.1)

-- One more zone without a live delegation in front.
past :
    (now : ℕ) (zs : List Bytes) (c c' : Lru Bytes Delegation) (z : Bytes)
    (r : Option (Bytes × Delegation))
    → ¬ IsLive now c z
    → ((ys : List Bytes) → NoneLive now c' ys → NoneLive now c ys)
    → ((y : Bytes) (e : Delegation) → get y c' ≡ some e → get y c ≡ some e)
    → WalkPost now zs c' r
    → WalkPost now (z ∷ zs) c r
past now zs c c' z none dead back same h = (dead, back zs h)
past now zs c c' z (some (y, e)) dead back same h = record {
  above = z ∷ h.above;
  below = h.below;
  order = ap (◌∷◌ z) h.order;
  stored = same y e h.stored;
  live = h.live;
  deepest = (dead, back h.above h.deepest);
}

-- One of the readings from `tick` on decides.
abbrev Decided :
    (ℕ → ℕ) → ℕ → List Bytes → Lru Bytes Delegation → Option (Bytes × Delegation) → Type 0
Decided clock tick zs c r = (t : ℕ) × (tick ≤ t) × WalkPost (clock t) zs c r

not-IsLive_later :
    (now later : ℕ) (c : Lru Bytes Delegation) (z : Bytes)
    → now ≤ later
    → ¬ IsLive now c z
    → ¬ IsLive later c z
not-IsLive_later now later c z le dead (e, hit, live) = dead (e, hit, omega (arith, le, live))

walk-Decided :
    (clock : ℕ → ℕ) (tick : ℕ) (zs : List Bytes) (c : Lru Bytes Delegation)
    → ((a b : ℕ) → a ≤ b → clock a ≤ clock b)
    → Decided clock tick zs c (walk clock tick zs c).0
unfolding walk
walk-Decided clock tick [] c runs = (tick, omega arith, tt)
walk-Decided clock tick (z ∷ zs) c runs = elim (Option-cases (get z c)) [
  | inl miss ↦
      let (t, le, post) = walk-Decided clock tick zs c runs in
      rw (miss, walk)
        (
          t,
          le,
          past (clock t) zs c c z (walk clock tick zs c).0 (not-IsLive_missing (clock t) c z miss)
              (λ ys h. h) (λ y e h. h) post,
        )
  | inr (e, hit) ↦ elim (Bool-cases (ltb (clock tick) e.expiry)) [
    | inl live ↦
        rw (hit, walk, live)
          (
            tick,
            omega arith,
            record {
              above = [];
              below = zs;
              order = refl;
              stored = hit;
              live = ground arith;
              deepest = tt;
            },
          )
    | inr over ↦
        let (t, le, post) = walk-Decided clock (suc tick) zs (remove z c) runs in
        let earlier : tick ≤ t = omega (arith, le) in
        let dead =
          not-IsLive_later (clock tick) (clock t) c z (runs tick t earlier)
            (not-IsLive_expired (clock tick) c z e hit over) in
        rw (hit, walk, over)
          (
            t,
            earlier,
            past (clock t) zs c (remove z c) z (walk clock (suc tick) zs (remove z c)).0 dead
                (λ ys h. NoneLive-remove (clock t) c z ys dead h)
                (λ y f h. get-remove-some y z c f h) post,
          )
  ]
]

module _ ⦃u : Unicode⦄ where
  -- The zone is the deepest one above the name with a delegation that has not expired.
  pub record IsDeepest (now : ℕ) (c : Lru Bytes Delegation) (name z : Bytes) (e : Delegation)
      : Type 0 where
    pub above : IsAbove z name
    pub stored : get z c ≡ some e
    pub live : now < e.expiry
    pub deepest : (y : Bytes) → IsAbove y name → IsLive now c y → length y ≤ length z

  -- The name of a zone as the caller is told it: the root is a dot.
  abbrev pub IsNamed : Bytes → Bytes → Type 0
  IsNamed z told = ((z ≡ []) × (told ≡ dot ∷ [])) ⊎ ((z ≢ []) × (told ≡ z))

  -- What the caller is told, by one of the readings of the clock.
  pub record IsAnswer (clock : ℕ → ℕ) (c : DelegationCache) (qname : Bytes) (r : Closest)
      : Type 0 where
    pub hit :
        r.found ≡ true
        → (t : ℕ) × (z : Bytes) × (e : Delegation) × IsDeepest (clock t) c.lru (normalize qname) z e
          × IsNamed z r.zone
          × (r.servers ≡ e.servers)
          × (r.secure ≡ e.secure)
    pub miss :
        r.found ≡ false
        → (t : ℕ) × ((y : Bytes) → IsAbove y (normalize qname) → ¬ IsLive (clock t) c.lru y)
          × (r.zone ≡ dot ∷ [])
          × (r.servers ≡ [])
          × (r.secure ≡ false)

  zone_name-IsNamed : (z : Bytes) → IsNamed z (zone_name z)
  unfolding zone_name eqb
  zone_name-IsNamed [] = inl (refl, refl)
  zone_name-IsNamed (c ∷ z) = inr ((λ e. absurd (cc)), refl)

  -- A live zone in a run of names that shorten is not longer than the first live one.
  first_longest :
      (now : ℕ) (c : Lru Bytes Delegation) (z y : Bytes) (above below : List Bytes)
      → NoneLive now c above
      → Shortens (above ++ (z ∷ below))
      → Member y (above ++ (z ∷ below))
      → IsLive now c y
      → length y ≤ length z
  first_longest now c z y [] below dead short (inl same) live = omega (arith, ap length same)
  first_longest now c z y [] below dead short (inr m) live =
      All-member (λ x. length x ≤ length z) below y short.0 m
  first_longest now c z y (a ∷ above) below dead short (inl same) live =
      absurd (dead.0 (subst (IsLive now c) same live))
  first_longest now c z y (a ∷ above) below dead short (inr m) live =
      first_longest now c z y above below dead.1 short.1 m live

  Member-middle : (z : Bytes) (above below : List Bytes) → Member z (above ++ (z ∷ below))
  Member-middle z [] below = inl refl
  Member-middle z (a ∷ above) below = inr (Member-middle z above below)

  IsFirst-IsDeepest :
      (now : ℕ) (c : Lru Bytes Delegation) (name z : Bytes) (e : Delegation)
      → IsFirst now (zones name) c z e
      → IsDeepest now c name z e
  IsFirst-IsDeepest now c name z e h = record {
    above =
        (zones-IsAbove z name).0 (subst (Member z) (sym h.order) (Member-middle z h.above h.below));
    stored = h.stored;
    live = h.live;
    deepest = λ y above live.
        first_longest now c z y h.above h.below h.deepest
          (subst Shortens h.order (zones-Shortens name))
          (subst (Member y) h.order ((zones-IsAbove y name).1 above)) live;
  }

  -- If the clock does not run backwards, closestEnclosing answers by one of its readings: with the
  -- deepest zone that the name is in (the name itself, what follows one of its dots, or the root)
  -- for which a delegation that has not expired is cached, and with that delegation's servers and
  -- security; and when it finds nothing, no zone that the name is in has one, and it answers the
  -- root, with no servers.
  pub closest_enclosing-IsAnswer :
      (c : DelegationCache) (clock : ℕ → ℕ) (qname : Bytes)
      → ((a b : ℕ) → a ≤ b → clock a ≤ clock b)
      → IsAnswer clock c qname (closest_enclosing (some c) clock qname).0
  unfolding closest_enclosing closest_of
  closest_enclosing-IsAnswer c clock qname runs =
      let (t, le, post) = walk-Decided clock 0 (zones (normalize qname)) c.lru runs in
      answer (walk clock 0 (zones (normalize qname)) c.lru).0 t post
    where
      answer :
          (o : Option (Bytes × Delegation)) (t : ℕ)
          → WalkPost (clock t) (zones (normalize qname)) c.lru o
          → IsAnswer clock c qname (closest_of o)
      answer none t h = record {
        hit = λ f. absurd (cc);
        miss = λ f. (
          t,
          λ y above live.
              All-member (λ x. ¬ IsLive (clock t) c.lru x) (zones (normalize qname)) y h
                ((zones-IsAbove y (normalize qname)).1 above) live,
          refl,
          refl,
          refl,
        );
      }
      answer (some (z, e)) t h = record {
        hit = λ f. (
          t,
          z,
          e,
          IsFirst-IsDeepest (clock t) c.lru (normalize qname) z e h,
          zone_name-IsNamed z,
          refl,
          refl,
        );
        miss = λ f. absurd (cc);
      }
