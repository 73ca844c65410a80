-- ===== src/Singleflight.antt =====
-- middleware/singleflight/singleflight.go. A query is one call of ServeDNS, and the queries are
-- numbered; they run at the same time, and each of the functions below is what one of them does
-- between two points where another may come in. A call is named by the query that leads it.
pub mod Steps
pub mod Invariant
pub mod Calls
pub mod Runs
pub mod Delivery
use dns_resolver.GoMap.{find, delete, assign}
use dns_resolver.Text.{Unicode, normalize}
use dns_resolver.Dnsmsg.{Message}
use dns_resolver.Prelude.{Option, List, ℕ, [], if◌then◌else◌, some, none, ◌==◌, ◌∷◌}
use dns_resolver.Cache.{key_eq, Key}

-- Where a query stands: not begun; passed straight on; leading, with what was recorded; with its
-- key taken out of the table; with its call closed; waiting for another's call; and done waiting, with
-- what it wrote.
pub data Phase : Type 0 where
  arriving direct : Phase
  leading : Option Message → Phase
  closing : Option Message → Phase
  led : Option Message → Phase
  waiting : ℕ → Phase
  served : Option Message → Phase

pub record Flight : Type 0 where
  pub in_flight : List (Key × ℕ)
  pub phase : ℕ → Phase

abbrev pub at : ℕ → Phase → (ℕ → Phase) → ℕ → Phase
at i p phase j = if j == i then p else phase j

-- Nothing has begun.
abbrev pub idle : Flight
idle = record { in_flight = []; phase = λ i. arriving }

-- The copy that waitFor writes.
unfoldable pub copy_for : Message → Message → Message
copy_for req msg = record msg {
  header = record (msg.header) { id = req.header.id; rd = req.header.rd };
  questions = req.questions;
}

-- waitFor on a call that is closed
unfoldable pub answer_waiter : Message → Option Message → Option Message
unfolding copy_for
answer_waiter req none = none
answer_waiter req (some msg) = some (copy_for req msg)

module _ ⦃u : Unicode⦄ where
  -- The key of a query; `none` where it is passed straight on.
  unfoldable pub key_of : Message → Option Key
  unfolding normalize
  key_of req = elim req.questions [
    | [] ↦ none
    | q ∷ qs ↦ elim qs [
      | r ∷ rs ↦ none
      | [] ↦
          if req.header.cd then none else some (record { name = normalize q.name; qtype = q.type })
    ]
  ]

  module _ (requests : ℕ → Message) where
    -- ServeDNS up to the call of the next handler or of waitFor.
    unfoldable pub arrive : ℕ → Flight → Flight
    unfolding key_of find assign
    arrive i s = elim (key_of (requests i)) [
      | none ↦ record s { phase = at i direct s.phase }
      | some k ↦ elim (find k s.in_flight) [
        | some c ↦ record s { phase = at i (waiting c) s.phase }
        | none ↦ record { in_flight = assign k i s.in_flight; phase = at i (leading none) s.phase }
      ]
    ]

    -- WriteMsg of the recordingWriter.
    abbrev pub record_message : ℕ → Message → Flight → Flight
    record_message i msg s = record s { phase = at i (leading (some msg)) s.phase }

    -- What is deferred, before the call is closed.
    unfoldable pub unregister : ℕ → Option Message → Flight → Flight
    unfolding key_of delete
    unregister i rec s = elim (key_of (requests i)) [
      | none ↦ s
      | some k ↦ record { in_flight = delete k s.in_flight; phase = at i (closing rec) s.phase }
    ]

    abbrev pub close : ℕ → Option Message → Flight → Flight
    close i rec s = record s { phase = at i (led rec) s.phase }

    -- waitFor, woken by the end of the call, or by that of its own context.
    abbrev pub wake : ℕ → Option Message → Flight → Flight
    wake i rec s = record s { phase = at i (served (answer_waiter (requests i) rec)) s.phase }

    abbrev pub give_up : ℕ → Flight → Flight
    give_up i s = record s { phase = at i (served none) s.phase }
