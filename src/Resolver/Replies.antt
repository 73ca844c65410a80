-- ===== src/Resolver/Replies.antt =====
-- unpackAndVerify of resolver/resolver.go: the acceptance of a server's reply.
pub mod Matching
use dns_resolver.Dnsmsg.{Question, Message, class_in}
use dns_resolver.Dnsmsg.Decode.{unpack}
use dns_resolver.Text.{Unicode, equal_name, eqb}
use dns_resolver.Prelude.{
  ℕ, List, Bytes, Result, Bool, err, false, panic, ◌∷◌, ◌>>=◌, ◌&&◌, ok, ◌>>◌, ◌==◌, [], guard,
  mismatch, not, ◌||◌,
}

module _ ⦃u : Unicode⦄ where
  -- The test of the question section.
  unfoldable pub asks_for : List Question → Bytes → ℕ → Bool
  unfolding equal_name
  asks_for [] qname qtype = false
  asks_for (q ∷ []) qname qtype = equal_name q.name qname && (q.type == qtype)
  asks_for (q ∷ r ∷ qs) qname qtype = false

  -- msg.Questions[0]
  unfoldable pub first_question : List Question → Result Question
  first_question [] = err panic
  first_question (q ∷ qs) = ok q

  unfoldable pub unpack_and_verify : Bytes → ℕ → Bytes → ℕ → Bool → Result Message
  unfolding unpack asks_for first_question eqb
  unpack_and_verify buf want_id qname qtype strict_case = do
    msg ← unpack buf
    guard (msg.header.id == want_id) mismatch
    guard msg.header.qr mismatch
    guard (asks_for msg.questions qname qtype) mismatch
    q ← first_question msg.questions
    guard (not strict_case || eqb q.name qname) mismatch
    guard (q.class == class_in) mismatch
    ok msg
