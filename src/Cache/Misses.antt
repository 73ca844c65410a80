-- ===== src/Cache/Misses.antt =====
-- enclosingNXDOMAIN of middleware/cache/cache.go: which entries are found for a name.
use dns_resolver.Lru.{Lru, get}
use dns_resolver.Text.{Unicode, after_dot, dot, normalize}
use dns_resolver.Prelude.{
  Bytes, ◌≡◌, List, ℕ, ◌⊎◌, ◌++◌, ◌∷◌, Bool-cases, some, ◌==◌, arith, Option-cases, inl, ap, inr,
  [], refl, none, Option,
}
use dns_resolver.Cache.{
  key_eq, ancestors, first_cached, Key, find_entry, any_type, normalize_key, enclosing_nxdomain,
  Entry,
}

-- One name is another, or is below it: what RFC 8020 says of a name that does not exist.
abbrev pub IsWithin : Bytes → Bytes → Type 0
IsWithin n z = (n ≡ z) ⊎ ((l : Bytes) × (n ≡ l ++ (dot ∷ z)))

abbrev any_key : Bytes → Key
any_key n = record { name = n; qtype = any_type }

-- The names after a dot, as the loop of enclosingNXDOMAIN takes them: one at a time.
pub ancestors_lem :
    (s : Bytes) → ancestors s ≡ elim (after_dot s) [ none ↦ [] | some r ↦ r ∷ ancestors r ]
unfolding ancestors after_dot
ancestors_lem [] = refl
ancestors_lem (c ∷ s) = elim (Bool-cases (c == dot)) [
  | inl d ↦ rw d refl
  | inr nd ↦ rw nd (ancestors_lem s)
]

pub ancestors-within :
    (l z : Bytes) → (pre : List Bytes) × (ancestors (l ++ (dot ∷ z)) ≡ pre ++ (z ∷ ancestors z))
unfolding ancestors
ancestors-within [] z = ([], refl)
ancestors-within (c ∷ l) z =
    let (pre, h) = ancestors-within l z in
    elim (Bool-cases (c == dot)) [
      | inl d ↦ ((l ++ (dot ∷ z)) ∷ pre, rw d (ap (◌∷◌ (l ++ (dot ∷ z))) h))
      | inr nd ↦ (pre, rw nd h)
    ]

pub ancestors-above :
    (s n : Bytes) (pre post : List Bytes)
    → ancestors s ≡ pre ++ (n ∷ post)
    → (l : Bytes) × (s ≡ l ++ (dot ∷ n))
unfolding ancestors
ancestors-above [] n [] post h = absurd (cc)
ancestors-above [] n (_ ∷ pre) post h = absurd (cc)
ancestors-above (c ∷ s) n [] post h = elim (Bool-cases (c == dot)) [
  | inl d ↦ ([], ground arith)
  | inr nd ↦ let (l, eq) = ancestors-above s n [] post (ground arith) in (c ∷ l, ap (◌∷◌ c) eq)
]
ancestors-above (c ∷ s) n (m ∷ pre) post h = elim (Bool-cases (c == dot)) [
  | inl d ↦ let (l, eq) = ancestors-above s n pre post (ground arith) in (c ∷ l, ap (◌∷◌ c) eq)
  | inr nd ↦
      let (l, eq) = ancestors-above s n (m ∷ pre) post (ground arith) in (c ∷ l, ap (◌∷◌ c) eq)
]

pub first_cached-append :
    (pre : List Bytes) (n : Bytes) (post : List Bytes) (c : Lru Key Entry) (e : Entry)
    → get (any_key n) c ≡ some e
    → (f : Entry) × (first_cached (pre ++ (n ∷ post)) c ≡ some f)
unfolding first_cached
first_cached-append [] n post c e h = (e, ground arith)
first_cached-append (m ∷ pre) n post c e h =
    let (f, rest) = first_cached-append pre n post c e h in
    elim (Option-cases (get (any_key m) c)) [
      | inl miss ↦ (f, ground arith)
      | inr (g, hit) ↦ (g, ground arith)
    ]

pub first_cached-split :
    (ns : List Bytes) (c : Lru Key Entry) (e : Entry)
    → first_cached ns c ≡ some e
    → (n : Bytes) × (pre : List Bytes) × (post : List Bytes) × (ns ≡ pre ++ (n ∷ post))
      × (get (any_key n) c ≡ some e)
unfolding first_cached
first_cached-split [] c e h = absurd (cc)
first_cached-split (m ∷ ns) c e h = elim (Option-cases (get (any_key m) c)) [
  | inl miss ↦
      let (n, pre, post, eq, at_n) = first_cached-split ns c e (ground arith) in
      (n, m ∷ pre, post, ap (◌∷◌ m) eq, at_n)
  | inr (d, hit) ↦ (m, [], ns, refl, ground arith)
]

module _ ⦃u : Unicode⦄ where
  -- The keys that an entry is found under: that of the query, and that of type 0 for its name or a
  -- name above it.
  abbrev pub IsFor : Bytes → ℕ → Key → Type 0
  IsFor name qtype k =
      (k ≡ normalize_key name qtype) ⊎ ((k.qtype ≡ any_type) × IsWithin (normalize name) k.name)

  -- Only the normal form of a name matters.
  pub find_entry-normalize :
      (name spelled : Bytes) (qtype : ℕ) (c : Lru Key Entry)
      → normalize spelled ≡ normalize name
      → find_entry spelled qtype c ≡ find_entry name qtype c
  unfolding find_entry enclosing_nxdomain normalize_key
  find_entry-normalize name spelled qtype c same =
      let at : Bytes → Option Entry = λ n. elim (get (record { name = n; qtype = qtype }) c) [
        | none ↦ first_cached (n ∷ ancestors n) c
        | some e ↦ some e
      ] in
      ap at same

  pub find_entry-IsFor :
      (name : Bytes) (qtype : ℕ) (c : Lru Key Entry) (e : Entry)
      → find_entry name qtype c ≡ some e
      → (k : Key) × (get k c ≡ some e) × IsFor name qtype k
  unfolding find_entry enclosing_nxdomain normalize_key
  find_entry-IsFor name qtype c e h = elim (Option-cases (get (normalize_key name qtype) c)) [
    | inr (d, hit) ↦ (normalize_key name qtype, ground arith, inl refl)
    | inl miss ↦
        let rest = normalize name in
        let (n, pre, post, eq, at_n) =
          first_cached-split (rest ∷ ancestors rest) c e (ground arith) in
        (any_key n, at_n, inr (refl, above rest n pre post eq))
  ]
    where
      above :
          (rest n : Bytes) (pre post : List Bytes)
          → (rest ∷ ancestors rest) ≡ pre ++ (n ∷ post)
          → IsWithin rest n
      above rest n [] post eq = inl (ground arith)
      above rest n (m ∷ pre) post eq = inr (ancestors-above rest n pre post (ground arith))

  -- RFC 8020: an NXDOMAIN in the cache is found for every type of its name and of all the names
  -- below it, unless a closer entry is.
  pub find_entry-below :
      (name z : Bytes) (qtype : ℕ) (c : Lru Key Entry) (e : Entry)
      → get (normalize_key z any_type) c ≡ some e
      → IsWithin (normalize name) (normalize z)
      → (f : Entry) × (find_entry name qtype c ≡ some f)
  unfolding find_entry enclosing_nxdomain normalize_key
  find_entry-below name z qtype c e h within =
      elim (Option-cases (get (normalize_key name qtype) c)) [
        | inr (d, hit) ↦ (d, ground arith)
        | inl miss ↦ let (f, found) = enclosing within in (f, ground arith)
      ]
    where
      enclosing :
          IsWithin (normalize name) (normalize z)
          → (f : Entry) × (enclosing_nxdomain name c ≡ some f)
      enclosing (inl same) = rw same (first_cached-append [] (normalize z) _ c e h)
      enclosing (inr (l, below)) =
          let (pre, eq) = ancestors-within l (normalize z) in
          rw (below, eq)
            (first_cached-append ((l ++ (dot ∷ normalize z)) ∷ pre) (normalize z) _ c e h)
