-- ===== src/Singleflight/Calls.antt =====
-- The table of calls of middleware/singleflight/singleflight.go, where a call begins, goes on or ends.
use dns_resolver.Singleflight.Invariant.{at-cases, at_other, IsCall-kept, fresh_call, at_same}
use dns_resolver.GoMap.{find, delete, assign, find-delete, find-assign, assigned_or_kept}
use dns_resolver.Singleflight.Steps.{IsTable, is_leading, IsCall, is_closing}
use dns_resolver.Singleflight.{Flight, arriving, leading, key_of, at, waiting, closing}
use dns_resolver.Dnsmsg.{Message}
use dns_resolver.Prelude.{
  ℕ, Option, ◌≡◌, some, Bool-cases, ◌==◌, none, inl, ◌≢◌, inr, subst, if◌then◌else◌, ◌∙◌, true, sym,
  refl,
}
use dns_resolver.Text.{Unicode}
use dns_resolver.Cache.{key_eq, Key}

module _ ⦃u : Unicode⦄ (requests : ℕ → Message) where
  pub led-IsTable :
      (s : Flight) (i : ℕ) (k : Key)
      → IsTable requests s
      → s.phase i ≡ arriving
      → key_of (requests i) ≡ some k
      → find k s.in_flight ≡ none
      → IsTable requests
          (record { in_flight = assign k i s.in_flight; phase = at i (leading none) s.phase })
  led-IsTable s i k t new key free = record {
    registered = λ j c h. elim (assigned_or_kept j k i c s.in_flight h) [
      | inl (same, is) ↦
          (rw same (rw (← is) key), none, rw (← is) (at_same i (leading none) s.phase))
      | inr kept ↦
          let (e, rec, l) = t.registered j c kept in
          (e, rec, at_other i c (leading none) s.phase (λ same. absurd (clash c rec same l)) ∙ l)
    ];
    leaders = λ c rec h. elim (at-cases i c (leading none) (leading rec) s.phase h) [
      | inl (same, now) ↦ (k, rw same key, rw same (find-assign k k i s.in_flight ∙ hit))
      | inr (apart, before) ↦ let (j, e, l) = t.leaders c rec before in (j, e, kept_entry j c l)
    ];
    waiters = λ j c h. elim (at-cases i j (leading none) (waiting c) s.phase h) [
      | inl (same, now) ↦ absurd (cc)
      | inr (apart, before) ↦
          let (m, a, b, call) = t.waiters j c before in
          (m, a, b, IsCall-kept requests i c (leading none) s.phase (fresh_call requests new) call)
    ];
  }
    where
      clash : (c : ℕ) (rec : Option Message) → c ≡ i → s.phase c ≡ leading rec → ⊥
      clash c rec same l =
          let l2 : s.phase i ≡ leading rec = subst (λ j. s.phase j ≡ leading rec) same l in
          absurd (cc)

      hit : (if key_eq.beq k k then some i else find k s.in_flight) ≡ some i
      hit = let e : key_eq.beq k k ≡ true = (key_eq.beq_iff k k).1 refl in rw e refl

      kept_entry :
          (j : Key) (c : ℕ) → find j s.in_flight ≡ some c → find j (assign k i s.in_flight) ≡ some c
      kept_entry j c l = elim (Bool-cases (key_eq.beq k j)) [
        | inl same ↦
            let e : j ≡ k = sym ((key_eq.beq_iff k j).0 same) in
            let m : find k s.in_flight ≡ some c = subst (λ x. find x s.in_flight ≡ some c) e l in
            absurd (cc)
        | inr apart ↦ find-assign j k i s.in_flight ∙ rw apart l
      ]

  pub joined-IsTable :
      (s : Flight) (i c : ℕ) (k : Key)
      → IsTable requests s
      → s.phase i ≡ arriving
      → key_of (requests i) ≡ some k
      → find k s.in_flight ≡ some c
      → IsTable requests (record s { phase = at i (waiting c) s.phase })
  joined-IsTable s i c k t new key found = record {
    registered = λ j d h.
        let (e, rec, l) = t.registered j d h in
        (e, rec, at_other i d (waiting c) s.phase (apart_from d rec l) ∙ l);
    leaders = λ d rec h. elim (at-cases i d (waiting c) (leading rec) s.phase h) [
      | inl (same, now) ↦ absurd (cc)
      | inr (apart, before) ↦ t.leaders d rec before
    ];
    waiters = λ j d h. elim (at-cases i j (waiting c) (waiting d) s.phase h) [
      | inl (same, now) ↦
          let e : c ≡ d = cc in
          let (a, rec, l) = t.registered k c found in
          (
            k,
            rw same key,
            rw (← e) a,
            IsCall-kept requests i d (waiting c) s.phase (fresh_call requests new)
                (rw (← e) (subst (IsCall requests) (sym l) (is_leading rec))),
          )
      | inr (apart, before) ↦
          let (m, a, b, call) = t.waiters j d before in
          (m, a, b, IsCall-kept requests i d (waiting c) s.phase (fresh_call requests new) call)
    ];
  }
    where
      apart_from : (d : ℕ) (rec : Option Message) → s.phase d ≡ leading rec → d ≢ i
      apart_from d rec l same =
          let l2 : s.phase i ≡ leading rec = subst (λ j. s.phase j ≡ leading rec) same l in
          absurd (cc)

  pub recorded-IsTable :
      (s : Flight) (i : ℕ) (old new : Option Message)
      → IsTable requests s
      → s.phase i ≡ leading old
      → IsTable requests (record s { phase = at i (leading new) s.phase })
  recorded-IsTable s i old new t before = record {
    registered = λ k c h.
        let (e, rec, l) = t.registered k c h in
        elim (Bool-cases (c == i)) [
          | inl same ↦ (e, new, rw same refl)
          | inr apart ↦ (e, rec, rw apart l)
        ];
    leaders = λ c rec h. elim (at-cases i c (leading new) (leading rec) s.phase h) [
      | inl (same, now) ↦ t.leaders c old (rw same before)
      | inr (apart, l) ↦ t.leaders c rec l
    ];
    waiters = λ j c h. elim (at-cases i j (leading new) (waiting c) s.phase h) [
      | inl (same, now) ↦ absurd (cc)
      | inr (apart, l) ↦
          let (k, a, b, call) = t.waiters j c l in
          (k, a, b, IsCall-kept requests i c (leading new) s.phase (λ _. is_leading new) call)
    ];
  }

  pub unregistered-IsTable :
      (s : Flight) (i : ℕ) (k : Key) (rec : Option Message)
      → IsTable requests s
      → s.phase i ≡ leading rec
      → key_of (requests i) ≡ some k
      → IsTable requests
          (record { in_flight = delete k s.in_flight; phase = at i (closing rec) s.phase })
  unregistered-IsTable s i k rec t before key = record {
    registered = λ j c h.
        let (apart, there) = not_deleted j c h in
        let (e, r, l) = t.registered j c there in
        (
          e,
          r,
          at_other i c (closing rec) s.phase (λ same.
                let e2 : key_of (requests i) ≡ some j =
                  subst (λ x. key_of (requests x) ≡ some j) same e in
                apart (cc))
              ∙ l,
        );
    leaders = λ c r h. elim (at-cases i c (closing rec) (leading r) s.phase h) [
      | inl (same, now) ↦ absurd (cc)
      | inr (apart, l) ↦
          let (j, e, there) = t.leaders c r l in
          (j, e, still_there j c (λ same. apart (the_leader j c same there)) there)
    ];
    waiters = λ j c h. elim (at-cases i j (closing rec) (waiting c) s.phase h) [
      | inl (same, now) ↦ absurd (cc)
      | inr (apart, l) ↦
          let (m, a, b, call) = t.waiters j c l in
          (m, a, b, IsCall-kept requests i c (closing rec) s.phase (λ _. is_closing rec) call)
    ];
  }
    where
      not_deleted :
          (j : Key) (c : ℕ)
          → find j (delete k s.in_flight) ≡ some c
          → (j ≢ k) × (find j s.in_flight ≡ some c)
      not_deleted j c h = elim (Bool-cases (key_eq.beq k j)) [
        | inl same ↦
            let gone : find j (delete k s.in_flight) ≡ none =
              find-delete j k s.in_flight ∙ rw same refl in
            absurd (cc)
        | inr apart ↦ (
          λ e. let q : key_eq.beq k j ≡ true = (key_eq.beq_iff k j).1 (sym e) in absurd (cc),
          let kept : find j (delete k s.in_flight) ≡ find j s.in_flight =
                find-delete j k s.in_flight ∙ rw apart refl in
              sym kept ∙ h,
        )
      ]

      the_leader : (j : Key) (c : ℕ) → j ≡ k → find j s.in_flight ≡ some c → c ≡ i
      the_leader j c same there =
          let (m, e, l) = t.leaders i rec before in
          let one : m ≡ k = cc in
          let mine : find j s.in_flight ≡ some i =
            subst (λ x. find x s.in_flight ≡ some i) (one ∙ sym same) l in
          cc

      still_there :
          (j : Key) (c : ℕ)
          → j ≢ k
          → find j s.in_flight ≡ some c
          → find j (delete k s.in_flight) ≡ some c
      still_there j c apart there = elim (Bool-cases (key_eq.beq k j)) [
        | inl same ↦ absurd (apart (sym ((key_eq.beq_iff k j).0 same)))
        | inr off ↦ find-delete j k s.in_flight ∙ rw off there
      ]
