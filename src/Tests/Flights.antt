-- ===== src/Tests/Flights.antt =====
-- Two clients that ask the same question at the same time.
use dns_resolver.Singleflight.Runs.{one_call_at_a_time}
use dns_resolver.Singleflight.Steps.{Steps, goes_on, arrives, stays}
use dns_resolver.Dnsmsg.{Message, zero_header}
use dns_resolver.Singleflight.Delivery.{Delivers, IsSettled, waiter-Delivers}
use dns_resolver.Singleflight.{Flight, arrive, idle, waiting, leading, key_of}
use dns_resolver.Prelude.{ℕ, ◌≡◌, Option, ◌∷◌, refl, [], some, ◌⊎◌}
use dns_resolver.Tests.Signatures.{ascii_only}
use dns_resolver.Cache.{key_eq, key_beq}

abbrev asked_by : ℕ → Message
asked_by i = record {
  header = record zero_header { id = i };
  questions = record { name = b'z' ∷ []; type = 1; class = 1 } ∷ [];
  answers = [];
  authorities = [];
  additionals = [];
}

abbrev both_arrived : Flight
both_arrived = arrive asked_by 1 (arrive asked_by 0 idle)

second_waits : both_arrived.phase 1 ≡ waiting 0
unfolding arrive key_eq key_beq ascii_only
second_waits = refl

run : Steps asked_by idle both_arrived
unfolding arrive key_eq key_beq ascii_only
run = goes_on (arrives 0 refl) (goes_on (arrives 1 refl) stays)

waiter-Delivers_example :
    Delivers asked_by both_arrived 1 0 (some (asked_by 5))
    ⊎ ((rec : Option Message) × IsSettled asked_by both_arrived 0 rec
        × Delivers asked_by both_arrived 1 0 rec)
waiter-Delivers_example = waiter-Delivers asked_by both_arrived 1 0 (asked_by 5) run second_waits

one_call_at_a_time_example :
    ((i j : ℕ) (a b : Option Message)
      → both_arrived.phase i ≡ leading a
      → both_arrived.phase j ≡ leading b
      → key_of (asked_by i) ≡ key_of (asked_by j)
      → i ≡ j)
    × ((i c : ℕ) → both_arrived.phase i ≡ waiting c → key_of (asked_by i) ≡ key_of (asked_by c))
one_call_at_a_time_example = one_call_at_a_time asked_by both_arrived run
