-- ===== src/Cache/Validity.antt =====
-- The invariant of the store of middleware/cache/cache.go.
use dns_resolver.Cache.{key_eq, ancestors}
use dns_resolver.Lru.Eviction.{insert-Inserted}
use dns_resolver.Lru.Bindings.{length-remove-le, get-remove-some, Inserted-get}
use dns_resolver.Dnsmsg.{Rr, Message, Question}
use dns_resolver.GoMap.{find}
use dns_resolver.Lru.Laws.{IsValid, empty-IsValid, remove-IsValid, touch-IsValid}
use dns_resolver.Cache.Handler.{serve_dns, put_written, last_written, serve_questions, serve_found}
use dns_resolver.Lru.{get, Lru, touch, remove, insert}
use dns_resolver.Text.{Unicode}
use dns_resolver.Cache.{
  new_store, first_cached, Store, find_entry, lookup, clamp_ttl, put, enclosing_nxdomain,
  serve_entry, Key, Config, Entry, normalize_key, cached_as, second, any_type, Reply,
}
use dns_resolver.Prelude.{
  ℕ, List, ◌≤◌, Bytes, length, arith, ◌≡◌, Bool, some, ◌+◌, Option-cases, ◌*◌, ◌∷◌, ap, Option, inl,
  ◌∙◌, inr, Bool-cases, [], leb, ◌==◌, sym, none, refl, if◌then◌else◌, true, false,
}

pub record IsSound (now : ℕ) (s : Store) : Type 0 where
  pub valid : IsValid s.lru
  pub within : length s.lru.entries ≤ s.max_entries
  pub keyed : (k : Key) (e : Entry) → get k s.lru ≡ some e → e.key ≡ k
  pub bounded : (k : Key) (e : Entry) → get k s.lru ≡ some e → e.expiry ≤ now + s.max_ttl * second

pub new_store-IsSound : (c : Config) (now : ℕ) → IsSound now (new_store c)
unfolding new_store get find
new_store-IsSound c now = record {
  valid = empty-IsValid;
  within = omega arith;
  keyed = λ k e h. absurd (cc);
  bounded = λ k e h. absurd (cc);
}

pub IsSound-later : (now later : ℕ) (s : Store) → now ≤ later → IsSound now s → IsSound later s
IsSound-later now later s le h = record {
  valid = h.valid;
  within = h.within;
  keyed = h.keyed;
  bounded = λ k e found. omega (arith, h.bounded k e found);
}

pub first_cached-get :
    (ns : List Bytes) (c : Lru Key Entry) (e : Entry)
    → first_cached ns c ≡ some e
    → (k : Key) × (get k c ≡ some e)
unfolding first_cached
first_cached-get [] c e h = absurd (cc)
first_cached-get (n ∷ ns) c e h =
    let k : Key = record { name = n; qtype = any_type } in
    elim (Option-cases (get k c)) [
      | inl miss ↦ first_cached-get ns c e (ground arith)
      | inr (d, hit) ↦ (k, ground arith)
    ]

module _ ⦃u : Unicode⦄ where
  pub find_entry-get :
      (name : Bytes) (qtype : ℕ) (c : Lru Key Entry) (e : Entry)
      → find_entry name qtype c ≡ some e
      → (k : Key) × (get k c ≡ some e)
  unfolding find_entry enclosing_nxdomain
  find_entry-get name qtype c e h = elim (Option-cases (get (normalize_key name qtype) c)) [
    | inl miss ↦
        let n = (normalize_key name any_type).name in
        first_cached-get (n ∷ ancestors n) c e (ground arith)
    | inr (d, hit) ↦ (normalize_key name qtype, ground arith)
  ]

  -- An entry that lookup finds stands in the map under its own key.
  pub find_entry-own :
      (now : ℕ) (s : Store) (name : Bytes) (qtype : ℕ) (e : Entry)
      → IsSound now s
      → find_entry name qtype s.lru ≡ some e
      → get e.key s.lru ≡ some e
  find_entry-own now s name qtype e h found =
      let (k, at_k) = find_entry-get name qtype s.lru e found in
      ap (λ i. get i s.lru) (h.keyed k e at_k) ∙ at_k

  -- What lookup leaves: the entry it found moves to the front, or goes when it has expired.
  pub lookup-IsSound :
      (s : Store) (now : ℕ) (name : Bytes) (qtype : ℕ)
      → IsSound now s
      → IsSound now (lookup s now name qtype).1
  unfolding lookup serve_entry touch get
  lookup-IsSound s now name qtype h = elim (Option-cases (find_entry name qtype s.lru)) [
    | inl miss ↦ rw (miss, lookup) h
    | inr (e, hit) ↦
        let own = find_entry-own now s name qtype e h hit in
        elim (Bool-cases (leb e.expiry now)) [
          | inl expired ↦ rw (hit, lookup, expired) (dropped e)
          | inr live ↦ rw (hit, lookup, live) (touched e own)
        ]
  ]
    where
      dropped : (e : Entry) → IsSound now (record s { lru = remove e.key s.lru })
      dropped e = record {
        valid = remove-IsValid e.key s.lru h.valid;
        within = omega (arith, length-remove-le e.key s.lru h.valid, h.within);
        keyed = λ k f at_k. h.keyed k f (get-remove-some k e.key s.lru f at_k);
        bounded = λ k f at_k. h.bounded k f (get-remove-some k e.key s.lru f at_k);
      }

      touched :
          (e : Entry)
          → get e.key s.lru ≡ some e
          → IsSound now (record s { lru = touch e.key s.lru })
      touched e own = record {
        valid = touch-IsValid e.key s.lru e h.valid own;
        within = h.within;
        keyed = h.keyed;
        bounded = h.bounded;
      }

  pub clamp_ttl-le : (s : Store) (ttl : ℕ) → clamp_ttl s ttl ≤ s.max_ttl
  unfolding clamp_ttl
  clamp_ttl-le s ttl = omega arith

  -- What put leaves when it stores an entry.
  pub stored-IsSound :
      (s : Store) (now : ℕ) (k : Key) (e : Entry)
      → IsSound now s
      → e.key ≡ k
      → e.expiry ≤ now + s.max_ttl * second
      → IsSound now (record s { lru = insert s.max_entries k e s.lru })
  stored-IsSound s now k e h own in_time =
      let ins = insert-Inserted s.max_entries k e s.lru h.valid in
      let cases = λ (j : Key) (f : Entry) (at_j : get j (insert s.max_entries k e s.lru) ≡ some f).
        Inserted-get s.max_entries k e s.lru _ j f ins at_j in
      record {
        valid = ins.valid;
        within = ins.within;
        keyed = λ j f at_j. elim (cases j f at_j) [
          | inl (jk, fe) ↦ ap (λ x. x.key) fe ∙ own ∙ sym jk
          | inr before ↦ h.keyed j f before
        ];
        bounded = λ j f at_j. elim (cases j f at_j) [
          | inl (jk, fe) ↦ omega (arith, ap (λ x. x.expiry) fe, in_time)
          | inr before ↦ h.bounded j f before
        ];
      }

  pub put-IsSound :
      (s : Store) (now : ℕ) (name : Bytes) (qtype rcode : ℕ) (answers authorities : List Rr)
      (authentic : Bool)
      → IsSound now s
      → IsSound now (put s now name qtype rcode answers authorities authentic)
  unfolding put
  put-IsSound s now name qtype rcode answers authorities authentic h =
      elim (Option-cases (cached_as qtype rcode answers authorities)) [
        | inl none_kept ↦ rw (none_kept, put) h
        | inr ((t, ttl), kept) ↦ elim (Bool-cases (ttl == 0)) [
          | inl z ↦ rw (kept, put, z) h
          | inr nz ↦
              let k = normalize_key name t in
              let e : Entry = record {
                key = k;
                rcode = rcode;
                answers = answers;
                authorities = authorities;
                authentic = authentic;
                expiry = now + clamp_ttl s ttl * second;
              } in
              let in_time : e.expiry ≤ now + s.max_ttl * second =
                omega (arith, clamp_ttl-le s ttl) in
              rw (kept, put, nz) (stored-IsSound s now k e h refl in_time)
        ]
      ]

  -- From a sound store, and with `later` not before `now`, a query leaves a sound store, whatever
  -- the wrapped handler writes: map and list hold the same keys once each, within the size; every
  -- entry stands under its own key; and none expires later than the ceiling on TTLs from now.
  pub serve_dns-IsSound :
      (next : Message → List Message) (s : Store) (now later : ℕ) (req : Message)
      → now ≤ later
      → IsSound now s
      → IsSound later (serve_dns next s now later req).1
  unfolding serve_dns serve_questions serve_found put_written
  serve_dns-IsSound next s now later req le h = by_cd req.header.cd
    where
      written :
          (s' : Store) (q : Question) (m : Option Message)
          → IsSound later s'
          → IsSound later (put_written s' later q m)
      written s' q none h' = h'
      written s' q (some m) h' =
          put-IsSound s' later q.name q.type m.header.rcode m.answers m.authorities m.header.ad h'

      one :
          (q : Question) (found : Option Reply) (s' : Store)
          → IsSound now s'
          → IsSound later (serve_found next later req q (found, s')).1
      one q none s' h' = written s' q (last_written (next req)) (IsSound-later now later s' le h')
      one q (some r) s' h' = IsSound-later now later s' le h'

      by_questions :
          (qs : List Question) → IsSound later (serve_questions next s now later req qs).1
      by_questions [] = IsSound-later now later s le h
      by_questions (q ∷ []) =
          one q (lookup s now q.name q.type).0 (lookup s now q.name q.type).1
            (lookup-IsSound s now q.name q.type h)
      by_questions (_ ∷ _ ∷ _) = IsSound-later now later s le h

      by_cd :
          (b : Bool)
          → IsSound later
              (if b then (next req, s) else serve_questions next s now later req req.questions).1
      by_cd true = IsSound-later now later s le h
      by_cd false = by_questions req.questions
