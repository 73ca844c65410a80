-- ===== src/Singleflight/Steps.antt =====
-- The steps of middleware/singleflight/singleflight.go, in any order that the scheduler may choose.
use dns_resolver.GoMap.{find}
use dns_resolver.Singleflight.{
  Flight, Phase, arriving, leading, arrive, closing, record_message, led, key_of, unregister,
  waiting, close, wake, give_up,
}
use dns_resolver.Dnsmsg.{Message}
use dns_resolver.Prelude.{ℕ, ◌≡◌, Option, some}
use dns_resolver.Text.{Unicode}
use dns_resolver.Cache.{key_eq, Key}

module _ ⦃u : Unicode⦄ (requests : ℕ → Message) where
  -- One query does what it does next. What the next handler writes, and when it returns, is open.
  pub data Step (s : Flight) : Flight → Type 0 where
    arrives : (i : ℕ) → s.phase i ≡ arriving → Step s (arrive requests i s)
    writes :
        (i : ℕ) (rec : Option Message) (msg : Message)
        → s.phase i ≡ leading rec
        → Step s (record_message requests i msg s)
    unregisters :
        (i : ℕ) (rec : Option Message)
        → s.phase i ≡ leading rec
        → Step s (unregister requests i rec s)
    closes :
        (i : ℕ) (rec : Option Message) → s.phase i ≡ closing rec → Step s (close requests i rec s)
    wakes :
        (i c : ℕ) (rec : Option Message)
        → s.phase i ≡ waiting c
        → s.phase c ≡ led rec
        → Step s (wake requests i rec s)
    gives_up : (i c : ℕ) → s.phase i ≡ waiting c → Step s (give_up requests i s)

  -- A run from one state to another.
  pub data Steps : Flight → Flight → Type 0 where
    stays : {s : Flight} → Steps s s
    goes_on : {s t v : Flight} → Step s t → Steps t v → Steps s v

  -- The call of a query is under way, or over.
  pub data IsCall : Phase → Type 0 where
    is_leading : (rec : Option Message) → IsCall (leading rec)
    is_closing : (rec : Option Message) → IsCall (closing rec)
    is_led : (rec : Option Message) → IsCall (led rec)

  -- The table holds the calls under way, each under its query's key, and whoever waits, waits for
  -- the call of a query with the same key.
  pub record IsTable (s : Flight) : Type 0 where
    pub registered :
        (k : Key) (c : ℕ)
        → find k s.in_flight ≡ some c
        → (key_of (requests c) ≡ some k) × (rec : Option Message) × (s.phase c ≡ leading rec)
    pub leaders :
        (c : ℕ) (rec : Option Message)
        → s.phase c ≡ leading rec
        → (k : Key) × (key_of (requests c) ≡ some k) × (find k s.in_flight ≡ some c)
    pub waiters :
        (i c : ℕ)
        → s.phase i ≡ waiting c
        → (k : Key) × (key_of (requests i) ≡ some k)
          × (key_of (requests c) ≡ some k)
          × IsCall (s.phase c)
