-- ===== src/Tests/Caches.antt =====
-- The store with its eviction list, and the answer cache.
use dns_resolver.Cache.Fresh.{fresh_reply, put-find_entry, put-lookup, put-lookup_any}
use dns_resolver.Cache.Answers.{IsHit, lookup-IsHit}
use dns_resolver.Lru.Laws.{empty-IsValid}
use dns_resolver.Cache.Ceiling.{IsCapped, serve_dns-IsCapped}
use dns_resolver.Cache.Handler.{serve_dns}
use dns_resolver.Cache.Validity.{
  IsSound, new_store-IsSound, serve_dns-IsSound, IsSound-later, put-IsSound,
}
use dns_resolver.Dnsmsg.{
  Rr, Message, zero_rr, zero_header, rcode_success, type_a, class_in, rcode_name_error, type_mx,
}
use dns_resolver.Lru.Eviction.{Inserted, insert-Inserted}
use dns_resolver.Lru.{Lru, insert, empty, get}
use dns_resolver.Prelude.{
  ℕ, Bytes, ◌∷◌, List, All, [], arith, true, ◌≡◌, some, refl, false, ◌+◌, ◌*◌, inr, ◌-◌,
}
use dns_resolver.Text.{Unicode, eqb, dot, normalize}
use dns_resolver.Cache.{
  key_eq, new_store, Store, Reply, Key, put, cached_as, negative_ttl_from_soa, lookup, clamp_ttl,
  Entry, find_entry, second, key_beq,
}

-- The texts here are ASCII.
instance plain : Unicode
plain = record { lower = λ s. s; upper = λ s. s; equal_fold = λ s t. eqb s t }

abbrev key_of : ℕ → Key
key_of b = record { name = b ∷ []; qtype = 1 }

abbrev one_number : Lru Key ℕ
one_number = insert 1 (key_of b'a') 5 empty

-- The second insertion evicts the first.
insert-Inserted_example :
    Inserted 1 (key_of b'b') 6 one_number (insert 1 (key_of b'b') 6 one_number)
insert-Inserted_example =
    insert-Inserted 1 (key_of b'b') 6 one_number
      (insert-Inserted 1 (key_of b'a') 5 empty empty-IsValid).valid

abbrev default_store : Store
unfolding new_store
default_store = new_store (record { max_entries = 0; min_ttl = 0; max_ttl = 0 })

default_store-IsSound : IsSound 0 default_store
unfolding new_store
default_store-IsSound = new_store-IsSound (record { max_entries = 0; min_ttl = 0; max_ttl = 0 }) 0

abbrev name_a : Bytes
name_a = b'A' ∷ dot ∷ []

abbrev address : Rr
address = record zero_rr {
  name = name_a;
  type = type_a;
  class = class_in;
  ttl = 300;
  rd_length = 4;
  a = 192 ∷ 0 ∷ 2 ∷ 1 ∷ [];
}

abbrev query : Message
query = record {
  header = zero_header;
  questions = record { name = name_a; type = type_a; class = class_in } ∷ [];
  answers = [];
  authorities = [];
  additionals = [];
}

abbrev next_handler : Message → List Message
next_handler req = record req { answers = record address { ttl = 90000 } ∷ [] } ∷ []

serve_dns-IsSound_example : IsSound 1 (serve_dns next_handler default_store 0 1 query).1
serve_dns-IsSound_example =
    serve_dns-IsSound next_handler default_store 0 1 query (omega arith) default_store-IsSound

abbrev filled : Store
filled = put default_store 0 name_a type_a rcode_success (address ∷ []) [] true

abbrev aged_reply : Reply
aged_reply = record {
  rcode = rcode_success;
  answers = record address { ttl = 299 } ∷ [];
  authorities = [];
  authentic = true;
}

lookup-IsHit_example : IsHit filled 1000000000 (b'a' ∷ []) type_a aged_reply
unfolding new_store put lookup key_eq key_beq
lookup-IsHit_example =
    lookup-IsHit filled 1000000000 (b'a' ∷ []) type_a aged_reply
      (IsSound-later 0 1000000000 filled (omega arith) (
        put-IsSound default_store 0 name_a type_a rcode_success (address ∷ []) [] true
          default_store-IsSound))
      (omega arith) refl

put-lookup_example :
    (lookup filled 1000000000 (b'a' ∷ []) type_a).0
    ≡ some (
        fresh_reply
          (address ∷ [])
          []
          rcode_success
          true
          (0 + clamp_ttl default_store 300 * second - 1000000000))
unfolding new_store cached_as clamp_ttl normalize
put-lookup_example =
    put-lookup default_store 0 name_a type_a rcode_success (address ∷ []) [] true type_a 300
      1000000000 (b'a' ∷ []) empty-IsValid (omega arith) refl (omega arith) refl (omega arith)

put-lookup_any_example :
    (lookup
      (put default_store 0 name_a type_a rcode_name_error [] [] false)
      1000000000
      (b'a' ∷ [])
      type_mx).0
    ≡ some (
        fresh_reply [] [] rcode_name_error false
          (0 + clamp_ttl default_store 60 * second - 1000000000))
unfolding new_store cached_as clamp_ttl normalize get
put-lookup_any_example =
    put-lookup_any default_store 0 name_a type_a rcode_name_error [] [] false 60 1000000000 type_mx
      (b'a' ∷ []) empty-IsValid (omega arith) refl (omega arith) refl (omega arith) (omega arith)
      refl

put-find_entry_example :
    (e : Entry) × (find_entry
        (b'x' ∷ dot ∷ name_a)
        type_mx
        (put default_store 0 name_a type_a rcode_name_error [] [] false).lru
      ≡ some e)
unfolding new_store negative_ttl_from_soa normalize
put-find_entry_example =
    put-find_entry default_store 0 name_a type_a rcode_name_error [] [] false (b'x' ∷ dot ∷ name_a)
      type_mx empty-IsValid (omega arith) refl (omega arith) (inr (b'x' ∷ [], refl))

serve_dns-IsCapped_example :
    All (IsCapped default_store.max_ttl) (serve_dns next_handler default_store 0 1 query).0
unfolding new_store
serve_dns-IsCapped_example =
    serve_dns-IsCapped next_handler default_store 0 1 query
      (record { name = name_a; type = type_a; class = class_in }) default_store-IsSound
      (omega arith) (omega arith) refl refl
