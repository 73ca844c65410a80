-- ===== src/Singleflight/Invariant.antt =====
-- The table of calls of middleware/singleflight/singleflight.go, where no call begins or ends.
use dns_resolver.GoMap.{find}
use dns_resolver.Singleflight.Steps.{IsCall, IsTable, is_leading, is_closing, is_led}
use dns_resolver.Dnsmsg.{Message}
use dns_resolver.Singleflight.{Phase, at, Flight, arriving, idle, leading, waiting, closing, led}
use dns_resolver.Text.{Unicode}
use dns_resolver.Prelude.{
  ℕ, ◌≢◌, ◌≡◌, arith, ◌⊎◌, Bool-cases, Option, ◌==◌, inl, ==_iff, subst, inr, ◌∙◌, sym,
}
use dns_resolver.Cache.{key_eq}

pub at_same : (i : ℕ) (p : Phase) (f : ℕ → Phase) → at i p f i ≡ p
at_same i p f = ground arith

pub at_other : (i j : ℕ) (p : Phase) (f : ℕ → Phase) → j ≢ i → at i p f j ≡ f j
at_other i j p f h = ground (arith, h)

-- What a query does is seen by that query, or was so before.
pub at-cases :
    (i j : ℕ) (p q : Phase) (f : ℕ → Phase)
    → at i p f j ≡ q
    → ((j ≡ i) × (p ≡ q)) ⊎ ((j ≢ i) × (f j ≡ q))
at-cases i j p q f h = elim (Bool-cases (j == i)) [
  | inl same ↦ inl ((==_iff j i).0 same, ground (arith, same))
  | inr apart ↦ inr ((λ e. absurd (ground (arith, apart, e))), ground (arith, apart))
]

module _ ⦃u : Unicode⦄ (requests : ℕ → Message) where
  -- A query that was no call, or whose call goes on, changes nothing for those who wait.
  pub IsCall-kept :
      (i c : ℕ) (p : Phase) (f : ℕ → Phase)
      → (IsCall requests (f i) → IsCall requests p)
      → IsCall requests (f c)
      → IsCall requests (at i p f c)
  IsCall-kept i c p f k h = elim (Bool-cases (c == i)) [
    | inl same ↦
        let e : c ≡ i = (==_iff c i).0 same in rw same (k (subst (λ j. IsCall requests (f j)) e h))
    | inr apart ↦ rw apart h
  ]

  pub idle-IsTable : IsTable requests idle
  unfolding find
  idle-IsTable = record {
    registered = λ k c h. absurd (cc);
    leaders = λ c rec h. absurd (cc);
    waiters = λ i c h. absurd (cc);
  }

  -- A query that neither leads nor comes to wait or lead.
  pub moved-IsTable :
      (s : Flight) (i : ℕ) (p : Phase)
      → IsTable requests s
      → ((rec : Option Message) → s.phase i ≢ leading rec)
      → ((rec : Option Message) → p ≢ leading rec)
      → ((c : ℕ) → p ≢ waiting c)
      → (IsCall requests (s.phase i) → IsCall requests p)
      → IsTable requests (record s { phase = at i p s.phase })
  moved-IsTable s i p t free idle_now quiet kept = record {
    registered = λ k c h.
        let (e, rec, l) = t.registered k c h in
        (
          e,
          rec,
          at_other i c p s.phase (λ same. free rec (subst (λ j. s.phase j ≡ leading rec) same l))
              ∙ l,
        );
    leaders = λ c rec h. elim (at-cases i c p (leading rec) s.phase h) [
      | inl (same, now) ↦ absurd (idle_now rec now)
      | inr (apart, before) ↦ t.leaders c rec before
    ];
    waiters = λ j c h. elim (at-cases i j p (waiting c) s.phase h) [
      | inl (same, now) ↦ absurd (quiet c now)
      | inr (apart, before) ↦
          let (k, a, b, call) = t.waiters j c before in
          (k, a, b, IsCall-kept i c p s.phase kept call)
    ];
  }

  -- A query that has not begun, or that waits, is no call.
  pub no_call :
      {A : Type 0} {p : Phase} (q : Phase)
      → p ≡ q
      → ((rec : Option Message) → q ≢ leading rec)
      → ((rec : Option Message) → q ≢ closing rec)
      → ((rec : Option Message) → q ≢ led rec)
      → IsCall requests p
      → A
  no_call q e a b d (is_leading rec) = absurd (a rec (sym e))
  no_call q e a b d (is_closing rec) = absurd (b rec (sym e))
  no_call q e a b d (is_led rec) = absurd (d rec (sym e))

  pub fresh_call : {A : Type 0} {p : Phase} → p ≡ arriving → IsCall requests p → A
  fresh_call e = no_call arriving e (λ r h. absurd (cc)) (λ r h. absurd (cc)) (λ r h. absurd (cc))
