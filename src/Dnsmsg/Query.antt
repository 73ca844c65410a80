-- ===== src/Dnsmsg/Query.antt =====
-- PackQuery of dnsmsg/message.go.
pub mod Unpacking
use dns_resolver.Dnsmsg.{class_in}
use dns_resolver.Dnsmsg.Decode.{uint16_bytes}
use dns_resolver.Dnsmsg.Name.{encode_name}
use dns_resolver.Prelude.{ℕ, Bytes, Result, ◌++◌, ◌>>=◌, ◌∷◌, ok, []}

-- The twelve bytes in front of the question, with the flags and three of the counts at 0.
abbrev pub query_header : ℕ → Bytes
query_header id = uint16_bytes id ++ (0 ∷ 0 ∷ 0 ∷ 1 ∷ 0 ∷ 0 ∷ 0 ∷ 0 ∷ 0 ∷ 0 ∷ [])

unfoldable pub pack_query : ℕ → Bytes → ℕ → Result Bytes
unfolding encode_name
pack_query id name qtype = do
  encoded ← encode_name name
  ok (query_header id ++ (encoded ++ (uint16_bytes qtype ++ uint16_bytes class_in)))
