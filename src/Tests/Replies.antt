-- ===== src/Tests/Replies.antt =====
-- A query that the resolver has an answer to.
use dns_resolver.ResolverHandler.{respond, Outcome, resolved}
use dns_resolver.ResolverHandler.Responses.{IsResponse, respond-IsResponse}
use dns_resolver.Prelude.{Bool, Bytes, true, ℕ, ◌∷◌, []}
use dns_resolver.Dnsmsg.{Message, zero_header, type_a, zero_rr, class_in}

abbrev asked : Message
asked = record {
  header = record zero_header { id = 7; rd = true };
  questions = record { name = b'a' ∷ []; type = type_a; class = class_in } ∷ [];
  answers = [];
  authorities = [];
  additionals = [];
}

abbrev resolver : Bool → Bytes → ℕ → Outcome
resolver validate name type =
    resolved (record zero_rr { name = name; type = type } ∷ []) [] validate

respond-IsResponse_example : IsResponse resolver asked (respond resolver asked)
respond-IsResponse_example = respond-IsResponse resolver asked
