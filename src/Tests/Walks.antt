-- ===== src/Tests/Walks.antt =====
-- The delegation cache, and the names that servers are sent.
use dns_resolver.Text.Split.{IsLabel}
use dns_resolver.Resolver.Privacy.Disclosure.{
  minimized_qname-labels_of, SameLetters, randomize_case-SameLetters,
}
use dns_resolver.Resolver.Privacy.{randomize_case, minimized_qname}
use dns_resolver.Resolver.Delegations.Walk.{IsAnswer, closest_enclosing-IsAnswer}
use dns_resolver.Resolver.Delegations.Validity.{
  IsSoundOrNil, delegations-IsSound, new_delegation_cache-IsSound,
}
use dns_resolver.Prelude.{
  Bytes, ℕ, ◌∷◌, [], length, some, true, suc, ◌≡◌, zero, ap, arith, ok, refl, sym, ◌∙◌, ◌≢◌, ◌≤◌,
  false,
}
use dns_resolver.Text.{Unicode, labels_of, eqb, dot}
use dns_resolver.Resolver.Delegations.{
  bytes_eq, DelegationCache, new_delegation_cache, put_delegation, closest_enclosing, forget,
}

instance ascii : Unicode
ascii = record { lower = λ s. s; upper = λ s. s; equal_fold = λ s t. eqb s t }

abbrev server : Bytes
server = 192 ∷ 0 ∷ 2 ∷ 1 ∷ []

abbrev new_cache : DelegationCache
new_cache = new_delegation_cache 0

delegations-IsSound_example :
    IsSoundOrNil 0 (put_delegation (some new_cache) 0 (b'a' ∷ []) (server ∷ []) 300 true)
    × IsSoundOrNil 0 (closest_enclosing (some new_cache) (λ tick. tick) (b'a' ∷ [])).1
    × IsSoundOrNil 0 (forget (some new_cache) (b'a' ∷ []))
delegations-IsSound_example =
    delegations-IsSound (some new_cache) 0 (λ tick. tick) (b'a' ∷ []) (server ∷ []) 300 true
      (new_delegation_cache-IsSound 0 0)

never_back : (a b : ℕ) → a ≤ b → 61000000000 ≤ 61000000000
never_back a b h = omega arith

-- A delegation of `a` for 300 seconds and one of `x.a` for 60, and a clock that says 61.
abbrev two_zones : DelegationCache
two_zones = record {
  max_entries = 2000;
  lru = record {
    entries =
        (
          b'x' ∷ dot ∷ b'a' ∷ [],
          record { servers = server ∷ []; secure = false; expiry = 60000000000 },
        )
        ∷ (b'a' ∷ [], record { servers = server ∷ []; secure = true; expiry = 300000000000 })
        ∷ [];
    order = (b'x' ∷ dot ∷ b'a' ∷ []) ∷ (b'a' ∷ []) ∷ [];
  };
}

abbrev stopped_clock : ℕ → ℕ
stopped_clock tick = 61000000000

past_expired :
    (closest_enclosing (some two_zones) stopped_clock (b'x' ∷ dot ∷ b'a' ∷ [])).0
    ≡ record { zone = b'a' ∷ []; servers = server ∷ []; secure = true; found = true }
unfolding closest_enclosing ascii bytes_eq
past_expired = refl

closest_enclosing-IsAnswer_example :
    IsAnswer stopped_clock two_zones
      (b'x' ∷ dot ∷ b'a' ∷ [])
      (closest_enclosing (some two_zones) stopped_clock (b'x' ∷ dot ∷ b'a' ∷ [])).0
closest_enclosing-IsAnswer_example =
    closest_enclosing-IsAnswer two_zones stopped_clock (b'x' ∷ dot ∷ b'a' ∷ []) never_back

ones : ℕ → Bytes
ones zero = []
ones (suc n) = 255 ∷ ones n

length-ones : (k : ℕ) → length (ones k) ≡ k
unfolding ones
length-ones zero = refl
length-ones (suc k) = ap suc (length-ones k)

drawn-length : (k : ℕ) (bits : Bytes) → some (ones k) ≡ some bits → length bits ≡ k
drawn-length k bits h =
    let same : ones k ≡ bits = ground arith in ap length (sym same) ∙ length-ones k

randomize_case-SameLetters_example :
    (w : Bytes) × (randomize_case (λ k. some (ones k)) (b'a' ∷ dot ∷ b'B' ∷ []) ≡ ok w)
    × SameLetters (b'a' ∷ dot ∷ b'B' ∷ []) w
randomize_case-SameLetters_example =
    randomize_case-SameLetters (λ k. some (ones k)) (b'a' ∷ dot ∷ b'B' ∷ []) drawn-length

one_letter : (b : ℕ) → b ≢ dot → IsLabel (b ∷ [])
one_letter b h = (λ e. absurd (ground arith), (h, tt))

minimized_qname-labels_of_example :
    labels_of (minimized_qname (b'x' ∷ dot ∷ b'y' ∷ dot ∷ b'z' ∷ []) (b'Z' ∷ dot ∷ []))
    ≡ (b'y' ∷ []) ∷ (b'z' ∷ []) ∷ []
unfolding labels_of
minimized_qname-labels_of_example =
    minimized_qname-labels_of (b'x' ∷ dot ∷ b'y' ∷ dot ∷ b'z' ∷ []) (b'Z' ∷ dot ∷ [])
      ((b'x' ∷ []) ∷ []) (b'y' ∷ []) ((b'z' ∷ []) ∷ []) refl refl
      (one_letter b'y' (omega arith), (one_letter b'z' (omega arith), tt))
