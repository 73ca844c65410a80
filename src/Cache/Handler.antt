-- ===== src/Cache/Handler.antt =====
-- The handler of middleware/cache/cache.go. The wrapped handler is what it writes for a query, in
-- the order of its writes; the client is sent the messages of the result. `now` and `later` are
-- the instants that lookup and put read.
use dns_resolver.Cache.{Reply, Store, lookup, put}
use dns_resolver.Text.{Unicode}
use dns_resolver.Dnsmsg.{Message, Rr, zero_header, Question}
use dns_resolver.Prelude.{
  ℕ, List, Option, Bool, if◌then◌else◌, none, false, map, ◌∷◌, true, some, ltb, min, [],
}

-- capTTLs, of a writer with the store's ceiling.
unfoldable pub exceeds_ttl : ℕ → List Rr → Bool
exceeds_ttl max_ttl [] = false
exceeds_ttl max_ttl (rr ∷ rrs) = if ltb max_ttl rr.ttl then true else exceeds_ttl max_ttl rrs

unfoldable pub cap_ttls : ℕ → List Rr → List Rr
unfolding exceeds_ttl
cap_ttls max_ttl rrs =
    if exceeds_ttl max_ttl rrs
    then map {A = Rr} (λ rr. record rr { ttl = min rr.ttl max_ttl }) rrs
    else rrs

-- recordingWriter.WriteMsg: what goes to the client.
unfoldable pub forwarded : ℕ → Message → Message
unfolding cap_ttls
forwarded max_ttl msg = record msg {
  answers = cap_ttls max_ttl msg.answers;
  authorities = cap_ttls max_ttl msg.authorities;
}

-- The message the writer holds after these writes.
unfoldable pub last_written : List Message → Option Message
last_written [] = none
last_written (m ∷ []) = some m
last_written (m ∷ n ∷ ms) = last_written (n ∷ ms)

unfoldable pub cached_response : Message → Reply → Message
cached_response req r = record {
  header = record zero_header {
    id = req.header.id;
    qr = true;
    rd = req.header.rd;
    ra = true;
    ad = r.authentic;
    rcode = r.rcode;
  };
  questions = req.questions;
  answers = r.answers;
  authorities = r.authorities;
  additionals = [];
}

module _ ⦃u : Unicode⦄ where
  unfoldable pub put_written : Store → ℕ → Question → Option Message → Store
  unfolding put
  put_written s later q none = s
  put_written s later q (some m) =
      put s later q.name q.type m.header.rcode m.answers m.authorities m.header.ad

  -- ServeDNS, from the result of lookup on.
  unfoldable pub serve_found :
      (Message → List Message)
      → ℕ
      → Message
      → Question
      → Option Reply × Store
      → List Message × Store
  unfolding cached_response forwarded last_written put_written
  serve_found next later req q (some r, s) = (cached_response req r ∷ [], s)
  serve_found next later req q (none, s) =
      let written = next req in
      (map (forwarded s.max_ttl) written, put_written s later q (last_written written))

  -- ServeDNS, by the questions of the query.
  unfoldable pub serve_questions :
      (Message → List Message) → Store → ℕ → ℕ → Message → List Question → List Message × Store
  unfolding lookup serve_found
  serve_questions next s now later req (q ∷ []) =
      serve_found next later req q (lookup s now q.name q.type)
  serve_questions next s now later req _ = (next req, s)

  -- handler.ServeDNS
  unfoldable pub serve_dns :
      (Message → List Message) → Store → ℕ → ℕ → Message → List Message × Store
  unfolding serve_questions
  serve_dns next s now later req =
      if req.header.cd then (next req, s) else serve_questions next s now later req req.questions
