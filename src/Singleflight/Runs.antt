-- ===== src/Singleflight/Runs.antt =====
-- The steps of middleware/singleflight/singleflight.go keep the table, in any order.
use dns_resolver.Singleflight.Calls.{
  led-IsTable, recorded-IsTable, joined-IsTable, unregistered-IsTable,
}
use dns_resolver.Singleflight.Invariant.{idle-IsTable, moved-IsTable, no_call}
use dns_resolver.GoMap.{delete, find, assign}
use dns_resolver.Singleflight.Steps.{
  IsTable, Step, Steps, arrives, goes_on, writes, stays, unregisters, closes, is_led, wakes,
  gives_up,
}
use dns_resolver.Singleflight.{
  arrive, Flight, unregister, key_of, idle, arriving, waiting, leading, at, direct, served, closing,
  led, answer_waiter,
}
use dns_resolver.Dnsmsg.{Message}
use dns_resolver.Prelude.{ℕ, Option, ◌≡◌, some, subst, sym, none, refl}
use dns_resolver.Text.{Unicode}
use dns_resolver.Cache.{key_eq, Key}

module _ ⦃u : Unicode⦄ (requests : ℕ → Message) where
  arrived-IsTable :
      (s : Flight) (i : ℕ)
      → IsTable requests s
      → s.phase i ≡ arriving
      → IsTable requests (arrive requests i s)
  unfolding arrive
  arrived-IsTable s i t new = by_key (key_of (requests i)) refl
    where
      passed : IsTable requests (record s { phase = at i direct s.phase })
      passed =
          moved-IsTable requests s i direct t (λ rec h. absurd (cc)) (λ rec h. absurd (cc))
            (λ c h. absurd (cc))
            (no_call requests arriving new (λ r h. absurd (cc)) (λ r h. absurd (cc))
              (λ r h. absurd (cc)))

      by_entry :
          (k : Key) (o : Option ℕ)
          → key_of (requests i) ≡ some k
          → find k s.in_flight ≡ o
          → IsTable requests (elim o [
            | some c ↦ record s { phase = at i (waiting c) s.phase }
            | none ↦ record {
              in_flight = assign k i s.in_flight;
              phase = at i (leading none) s.phase;
            }
          ])
      by_entry k none key e = led-IsTable requests s i k t new key e
      by_entry k (some c) key e = joined-IsTable requests s i c k t new key e

      by_key :
          (o : Option Key)
          → key_of (requests i) ≡ o
          → IsTable requests (elim o [
            | none ↦ record s { phase = at i direct s.phase }
            | some k ↦ elim (find k s.in_flight) [
              | some c ↦ record s { phase = at i (waiting c) s.phase }
              | none ↦ record {
                in_flight = assign k i s.in_flight;
                phase = at i (leading none) s.phase;
              }
            ]
          ])
      by_key none e = passed
      by_key (some k) e = by_entry k (find k s.in_flight) e refl

  waiter_done-IsTable :
      (s : Flight) (i c : ℕ) (out : Option Message)
      → IsTable requests s
      → s.phase i ≡ waiting c
      → IsTable requests (record s { phase = at i (served out) s.phase })
  waiter_done-IsTable s i c out t before =
      moved-IsTable requests s i (served out) t (λ rec h. absurd (cc)) (λ rec h. absurd (cc))
        (λ d h. absurd (cc))
        (no_call requests (waiting c) before (λ r h. absurd (cc)) (λ r h. absurd (cc))
          (λ r h. absurd (cc)))

  pub unregister_is :
      (s : Flight) (i : ℕ) (k : Key) (rec : Option Message)
      → key_of (requests i) ≡ some k
      → unregister requests i rec s
        ≡ record { in_flight = delete k s.in_flight; phase = at i (closing rec) s.phase }
  unfolding unregister
  unregister_is s i k rec key = rw (key, unregister) refl

  Step-IsTable : {s v : Flight} → Step requests s v → IsTable requests s → IsTable requests v
  Step-IsTable {s} (arrives i new) t = arrived-IsTable s i t new
  Step-IsTable {s} (writes i rec msg l) t = recorded-IsTable requests s i rec (some msg) t l
  Step-IsTable {s} (unregisters i rec l) t =
      let (k, key, there) = t.leaders i rec l in
      subst (IsTable requests) (sym (unregister_is s i k rec key))
        (unregistered-IsTable requests s i k rec t l key)
  Step-IsTable {s} (closes i rec l) t =
      moved-IsTable requests s i (led rec) t (λ r h. absurd (cc)) (λ r h. absurd (cc))
        (λ c h. absurd (cc)) (λ _. is_led rec)
  Step-IsTable {s} (wakes i c rec w l) t =
      waiter_done-IsTable s i c (answer_waiter (requests i) rec) t w
  Step-IsTable {s} (gives_up i c w) t = waiter_done-IsTable s i c none t w

  pub Steps-IsTable : {s v : Flight} → Steps requests s v → IsTable requests s → IsTable requests v
  Steps-IsTable stays t = t
  Steps-IsTable (goes_on step rest) t = Steps-IsTable rest (Step-IsTable step t)

  -- However the queries run, there is one call at a time for a question: two queries that lead and
  -- ask for the same name and type are one query; and whoever waits, waits for a query that asks for
  -- the same name and type as it does.
  pub one_call_at_a_time :
      (s : Flight)
      → Steps requests idle s
      → ((i j : ℕ) (a b : Option Message)
          → s.phase i ≡ leading a
          → s.phase j ≡ leading b
          → key_of (requests i) ≡ key_of (requests j)
          → i ≡ j)
        × ((i c : ℕ) → s.phase i ≡ waiting c → key_of (requests i) ≡ key_of (requests c))
  one_call_at_a_time s run =
      let t = Steps-IsTable run (idle-IsTable requests) in
      (
        λ i j a b p q same.
            let (k, ki, fi) = t.leaders i a p in
            let (m, km, fj) = t.leaders j b q in
            let one : k ≡ m = cc in
            let there : find m s.in_flight ≡ some i =
              subst (λ x. find x s.in_flight ≡ some i) one fi in
            cc,
        λ i c w. let (k, a, b, call) = t.waiters i c w in cc,
      )
