-- ===== src/Cache/Fresh.antt =====
-- put and then lookup of middleware/cache/cache.go.
use dns_resolver.Lru.Bindings.{Inserted-get}
use dns_resolver.Cache.Misses.{IsWithin, find_entry-below, find_entry-normalize}
use dns_resolver.Lru.Eviction.{insert-Inserted}
use dns_resolver.Lru.{insert, get}
use dns_resolver.Lru.Laws.{IsValid}
use dns_resolver.Dnsmsg.{Rr, rcode_name_error}
use dns_resolver.Text.{Unicode, normalize}
use dns_resolver.Prelude.{
  List, ℕ, Bool, Bytes, ◌≡◌, ◌<◌, ◌+◌, some, ◌-◌, ◌*◌, ◌==◌, leb, false, arith, none, refl, sym, ap,
  ◌∙◌, inl, inr, Option-cases,
}
use dns_resolver.Cache.{
  key_eq, Store, Reply, put, Entry, serve_entry, lookup, cached_as, with_ttl, normalize_key,
  find_entry, served_ttl, enclosing_nxdomain, clamp_ttl, first_cached, negative_ttl_from_soa,
  any_type, negative_cache_fallback_ttl, second,
}

-- The entry that put stores under the key of this type, with this TTL.
abbrev pub fresh_reply : List Rr → List Rr → ℕ → Bool → ℕ → Reply
fresh_reply answers authorities rcode authentic left = record {
  rcode = rcode;
  answers = with_ttl answers (served_ttl left);
  authorities = with_ttl authorities (served_ttl left);
  authentic = authentic;
}

module _ ⦃u : Unicode⦄ (s : Store) (now : ℕ) (name : Bytes) (qtype rcode : ℕ)
    (answers authorities : List Rr) (authentic : Bool) where
  abbrev stored : Store
  stored = put s now name qtype rcode answers authorities authentic

  abbrev fresh_entry : ℕ → ℕ → Entry
  fresh_entry t ttl = record {
    key = normalize_key name t;
    rcode = rcode;
    answers = answers;
    authorities = authorities;
    authentic = authentic;
    expiry = now + clamp_ttl s ttl * second;
  }

  pub put_lru :
      (t ttl : ℕ)
      → cached_as qtype rcode answers authorities ≡ some (t, ttl)
      → 0 < ttl
      → stored.lru ≡ insert s.max_entries (normalize_key name t) (fresh_entry t ttl) s.lru
  unfolding put
  put_lru t ttl kept pos = let nz : (ttl == 0) ≡ false = ground arith in rw (kept, put, nz) refl

  put_get :
      (t ttl : ℕ)
      → IsValid s.lru
      → 0 < s.max_entries
      → cached_as qtype rcode answers authorities ≡ some (t, ttl)
      → 0 < ttl
      → get (normalize_key name t) stored.lru ≡ some (fresh_entry t ttl)
  put_get t ttl h room kept pos = rw (put_lru t ttl kept pos) (
      (insert-Inserted s.max_entries (normalize_key name t) (fresh_entry t ttl) s.lru h).stored
        room)

  serve_fresh :
      (s' : Store) (e : Entry) (later : ℕ)
      → later < e.expiry
      → (serve_entry s' later e).0
        ≡ some (fresh_reply e.answers e.authorities e.rcode e.authentic (e.expiry - later))
  unfolding serve_entry
  serve_fresh s' e later live =
      let open_yet : leb e.expiry later ≡ false = ground arith in rw open_yet refl

  -- What put stores of an answer that may be cached, with a TTL that is not 0, in a store with
  -- room for an entry, is what lookup finds under the same type until the clamped TTL is over: for
  -- every spelling of the name with the same normal form, with the same rcode, records and AD, and
  -- the TTLs the time left.
  pub put-lookup :
      (t ttl later : ℕ) (spelled : Bytes)
      → IsValid s.lru
      → 0 < s.max_entries
      → cached_as qtype rcode answers authorities ≡ some (t, ttl)
      → 0 < ttl
      → normalize spelled ≡ normalize name
      → later < now + clamp_ttl s ttl * second
      → (lookup stored later spelled t).0
        ≡ some (
            fresh_reply answers authorities rcode authentic
              (now + clamp_ttl s ttl * second - later))
  unfolding lookup find_entry normalize_key
  put-lookup t ttl later spelled h room kept pos same live =
      let at_k = put_get t ttl h room kept pos in
      let own : find_entry name t stored.lru ≡ some (fresh_entry t ttl) =
        rw (at_k, find_entry) refl in
      let found = find_entry-normalize name spelled t stored.lru same ∙ own in
      rw (found, lookup) (serve_fresh stored (fresh_entry t ttl) later live)

  -- An answer that put stores for every type (an NXDOMAIN, or any cached answer to a question of
  -- type 0) is what lookup finds, until the clamped TTL is over, for every other type of the name
  -- that had no entry of its own.
  pub put-lookup_any :
      (ttl later other : ℕ) (spelled : Bytes)
      → IsValid s.lru
      → 0 < s.max_entries
      → cached_as qtype rcode answers authorities ≡ some (any_type, ttl)
      → 0 < ttl
      → normalize spelled ≡ normalize name
      → later < now + clamp_ttl s ttl * second
      → 0 < other
      → get (normalize_key name other) s.lru ≡ none
      → (lookup stored later spelled other).0
        ≡ some (
            fresh_reply answers authorities rcode authentic
              (now + clamp_ttl s ttl * second - later))
  unfolding lookup find_entry normalize_key enclosing_nxdomain first_cached
  put-lookup_any ttl later other spelled h room kept pos same live typed own =
      let at_k = put_get any_type ttl h room kept pos in
      let absent : get (normalize_key name other) stored.lru ≡ none =
        elim (Option-cases (get (normalize_key name other) stored.lru)) [
          | inl miss ↦ miss
          | inr (e, hit) ↦ absurd (ground (arith, another e hit))
        ] in
      let above : find_entry name other stored.lru ≡ some (fresh_entry any_type ttl) =
        rw (absent, find_entry, at_k, enclosing_nxdomain, first_cached) refl in
      let found = find_entry-normalize name spelled other stored.lru same ∙ above in
      rw (found, lookup) (serve_fresh stored (fresh_entry any_type ttl) later live)
    where
      another :
          (e : Entry)
          → get (normalize_key name other) stored.lru ≡ some e
          → get (normalize_key name other) s.lru ≡ some e
      another e hit =
          elim (Inserted-get s.max_entries (normalize_key name any_type) (fresh_entry any_type ttl)
            s.lru _ (normalize_key name other) e
            (insert-Inserted s.max_entries (normalize_key name any_type) (fresh_entry any_type ttl)
              s.lru h)
            (sym (ap (get (normalize_key name other)) (put_lru any_type ttl kept pos)) ∙ hit)) [
              | inl (jk, _) ↦ absurd (omega (arith, ap (λ k. k.qtype) jk, typed))
              | inr before ↦ before
            ]

  -- After put of an NXDOMAIN whose negative TTL is not 0, in a store with room for an entry, there
  -- is an entry for every type of the name and of all the names below it.
  pub put-find_entry :
      (below : Bytes) (other : ℕ)
      → IsValid s.lru
      → 0 < s.max_entries
      → rcode ≡ rcode_name_error
      → 0 < negative_ttl_from_soa authorities negative_cache_fallback_ttl
      → IsWithin (normalize below) (normalize name)
      → (e : Entry) × (find_entry below other stored.lru ≡ some e)
  unfolding cached_as
  put-find_entry below other h room nx pos within =
      let ttl = negative_ttl_from_soa authorities negative_cache_fallback_ttl in
      let kept : cached_as qtype rcode answers authorities ≡ some (any_type, ttl) = rw nx refl in
      find_entry-below below name other stored.lru (fresh_entry any_type ttl)
        (put_get any_type ttl h room kept pos) within
