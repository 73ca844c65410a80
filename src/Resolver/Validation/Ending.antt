-- ===== src/Resolver/Validation/Ending.antt =====
-- The loop of descendTo (resolver/validate.go) ends.
use dns_resolver.Resolver.Validation.Answering.{Answering, Ended, fetch_delegation-Ended}
use dns_resolver.Resolver.Validation.Chain.{descend_to, Settings, World, fetch_delegation}
use dns_resolver.Denial.Hashed.{Digest}
use dns_resolver.Text.Split.{IsLabel, labels_of-join}
use dns_resolver.Resolver.Validation.{Upstream, SecState, insecure}
use dns_resolver.Signature.Checks.{Crypto}
use dns_resolver.Text.{Unicode, labels_of, equal_name, join}
use dns_resolver.Resolver.Privacy.{minimized_qname}
use dns_resolver.Prelude.{
  Bytes, ℕ, length, List, All, drop, ◌≤◌, suc, ◌+◌, ◌≡◌, ◌∷◌, Bool-cases, leb, zero, inl, true, [],
  arith, inr, ◌-◌, false, Result, subst, err, sym, ◌<◌, ok, length-drop, if◌then◌else◌, not, Bool,
  refl,
}

All-drop : (P : Bytes → Type 0) (k : ℕ) (ls : List Bytes) → All P ls → All P (drop k ls)
All-drop P zero ls h = h
All-drop P (suc k) [] h = tt
All-drop P (suc k) (l ∷ ls) h = All-drop P k ls h.1

-- Each name on the way has a label more, up to the labels of the name at its end.
minimized_qname-longer :
    (to zone : Bytes) (d : ℕ)
    → All IsLabel (labels_of to)
    → length (labels_of to) ≤ length (labels_of zone) + suc d
    → length (labels_of to) ≤ length (labels_of (minimized_qname to zone)) + d
unfolding minimized_qname
minimized_qname-longer to zone d good h =
    elim (Bool-cases (leb (length (labels_of to)) (length (labels_of zone)))) [
      | inl short ↦ rw short (omega arith)
      | inr long ↦
          let skip = length (labels_of to) - length (labels_of zone) - 1 in
          let same : labels_of (join (drop skip (labels_of to))) ≡ drop skip (labels_of to) =
            labels_of-join _ (All-drop IsLabel skip (labels_of to) good) in
          let deeper : length (labels_of zone) < length (labels_of to) = ground arith in
          rw (long, same) (omega (arith, length-drop skip (labels_of to), h, deeper))
    ]

minimized_qname_whole :
    (to zone : Bytes)
    → length (labels_of to) ≤ length (labels_of zone)
    → minimized_qname to zone ≡ to
unfolding minimized_qname
minimized_qname_whole to zone h =
    let short : leb (length (labels_of to)) (length (labels_of zone)) ≡ true = ground arith in
    rw short

module _ ⦃u : Unicode⦄ ⦃c : Crypto⦄ ⦃n : Upstream⦄ ⦃g : Digest⦄ where
  -- One round, given that the rounds after it end.
  descend_to-round :
      (fuel : ℕ) (r : Settings) (sec : SecState) (zone to : Bytes) (servers : List Bytes)
      (w : World)
      → Answering
      → (equal_name zone to ≡ false
          → (st : SecState) (next : World)
          → Ended (descend_to fuel r st (minimized_qname to zone) to servers next).0)
      → Ended (descend_to (suc fuel) r sec zone to servers w).0
  unfolding descend_to
  descend_to-round fuel r sec zone to servers w up ih = by_test (equal_name zone to) ih
    where
      by_state :
          (p : Result SecState × World)
          → Ended p.0
          → ((st : SecState) (next : World)
              → Ended (descend_to fuel r st (minimized_qname to zone) to servers next).0)
          → Ended (
              let q : Result SecState × World = elim p.0 [
                | err e ↦ (err e, p.1)
                | ok st ↦
                    if not st.secure
                    then (ok insecure, p.1)
                    else descend_to fuel r st (minimized_qname to zone) to servers p.1
              ] in
              q.0)
      by_state (err e, next) k further = λ h. k (cc)
      by_state (ok st, next) k further = by_security st.secure
        where
          by_security :
              (b : Bool)
              → Ended (
                  let q : Result SecState × World =
                    if not b
                    then (ok insecure, next)
                    else descend_to fuel r st (minimized_qname to zone) to servers next in
                  q.0)
          by_security true = further st next
          by_security false = λ h. absurd (cc)

      by_test :
          (b : Bool)
          → (b ≡ false
              → (st : SecState) (next : World)
              → Ended (descend_to fuel r st (minimized_qname to zone) to servers next).0)
          → Ended (
              let s = fetch_delegation r sec (minimized_qname to zone) servers w in
              let q : Result SecState × World = if b then (ok sec, w) else elim s.0 [
                | err e ↦ (err e, s.1)
                | ok st ↦
                    if not st.secure
                    then (ok insecure, s.1)
                    else descend_to fuel r st (minimized_qname to zone) to servers s.1
              ] in
              q.0)
      by_test true k = λ h. absurd (cc)
      by_test false k =
          by_state (fetch_delegation r sec (minimized_qname to zone) servers w)
            (fetch_delegation-Ended r sec (minimized_qname to zone) servers w up) (k refl)

  descend_to_within :
      (d : ℕ) (r : Settings) (sec : SecState) (zone to : Bytes) (servers : List Bytes) (w : World)
      → Answering
      → equal_name to to ≡ true
      → All IsLabel (labels_of to)
      → length (labels_of to) ≤ length (labels_of zone) + d
      → Ended (descend_to (suc (suc d)) r sec zone to servers w).0
  descend_to_within zero r sec zone to servers w up same good h =
      let whole = minimized_qname_whole to zone (omega arith) in
      descend_to-round 1 r sec zone to servers w up λ apart st next.
        subst (λ z. Ended (descend_to 1 r st z to servers next).0) (sym whole)
          (descend_to-round 0 r st to to servers next up λ off st2 next2. absurd (cc))
  descend_to_within (suc d) r sec zone to servers w up same good h =
      descend_to-round (suc (suc d)) r sec zone to servers w up λ apart st next.
        descend_to_within d r st (minimized_qname to zone) to servers next up same good
          (minimized_qname-longer to zone d good h)

  -- The loop of descendTo ends: two rounds more than the name asked for has labels are enough,
  -- wherever it starts, where the labels are not empty and without dots, EqualFold takes the name
  -- for equal to itself, and the servers' side does not itself report a loop without end.
  pub descend_to-Ended :
      (r : Settings) (sec : SecState) (zone to : Bytes) (servers : List Bytes) (w : World)
      → Answering
      → equal_name to to ≡ true
      → All IsLabel (labels_of to)
      → Ended (descend_to (suc (suc (length (labels_of to)))) r sec zone to servers w).0
  descend_to-Ended r sec zone to servers w up same good =
      descend_to_within (length (labels_of to)) r sec zone to servers w up same good (omega arith)
