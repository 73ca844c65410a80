-- ===== src/ResolverHandler/Responses.antt =====
-- The responses of resolverhandler/resolverhandler.go.
use dns_resolver.Dnsmsg.{Message, Question, rcode_format_error, Rr, rcode_not_implemented}
use dns_resolver.ResolverHandler.{
  with_rcode, with_outcome, respond, blank_response, Outcome, answer_questions, resolved,
  opcode_query, nonexistent, bogus, failed,
}
use dns_resolver.Prelude.{
  Bool, Bytes, ℕ, ◌≡◌, List, true, ◌∷◌, ◌≢◌, [], not, if◌then◌else◌, refl, ◌∙◌, ◌==◌, ap, false,
  some, none,
}

-- A response to the query: its id, opcode, RD and questions come back, and it carries records or
-- AD only if the resolver gave a result that was not bogus, with the flag AD the resolver's own.
pub record IsResponse (resolve : Bool → Bytes → ℕ → Outcome) (req resp : Message) : Type 0 where
  pub id : resp.header.id ≡ req.header.id
  pub qr : resp.header.qr ≡ true
  pub opcode : resp.header.opcode ≡ req.header.opcode
  pub rd : resp.header.rd ≡ req.header.rd
  pub questions : resp.questions ≡ req.questions
  pub data_of :
      resp.answers ≢ []
      → (q : Question) × (authority : List Rr) × (secure : Bool) × (req.questions ≡ q ∷ [])
        × (resolve (not req.header.cd) q.name q.type ≡ resolved resp.answers authority secure)
  pub authentic :
      resp.header.ad ≡ true
      → (q : Question) × (authority : List Rr) × (req.questions ≡ q ∷ [])
        × (resolve (not req.header.cd) q.name q.type ≡ resolved resp.answers authority true)

-- A response without answers and AD.
without_data :
    (resolve : Bool → Bytes → ℕ → Outcome) (req resp : Message)
    → resp.header.id ≡ req.header.id
    → resp.header.qr ≡ true
    → resp.header.opcode ≡ req.header.opcode
    → resp.header.rd ≡ req.header.rd
    → resp.questions ≡ req.questions
    → resp.answers ≡ []
    → resp.header.ad ≡ false
    → IsResponse resolve req resp
without_data resolve req resp id qr opcode rd questions none_given unchecked = record {
  id = id;
  qr = qr;
  opcode = opcode;
  rd = rd;
  questions = questions;
  data_of = λ ne. absurd (ne none_given);
  authentic = λ e. absurd (cc);
}

refusal-IsResponse :
    (resolve : Bool → Bytes → ℕ → Outcome) (req : Message) (rcode : ℕ)
    → IsResponse resolve req (with_rcode rcode (blank_response req))
unfolding with_rcode blank_response
refusal-IsResponse resolve req rcode =
    without_data resolve req (with_rcode rcode (blank_response req)) refl refl refl refl refl refl
      refl

with_outcome-IsResponse :
    (resolve : Bool → Bytes → ℕ → Outcome) (req : Message) (q : Question) (cd : Bool) (o : Outcome)
    → req.questions ≡ q ∷ []
    → resolve (not req.header.cd) q.name q.type ≡ o
    → IsResponse resolve req (
        with_outcome
          (record (blank_response req) { header = record (blank_response req).header { cd = cd } })
          o)
unfolding with_outcome with_rcode blank_response
with_outcome-IsResponse resolve req q cd (resolved answers authority secure) one gave = record {
  id = refl;
  qr = refl;
  opcode = refl;
  rd = refl;
  questions = refl;
  data_of = λ ne. (q, authority, secure, one, gave);
  authentic = λ e. (q, authority, one, gave ∙ ap (resolved answers authority) e);
}
with_outcome-IsResponse resolve req q cd bogus one gave =
    without_data resolve req _ refl refl refl refl refl refl refl
with_outcome-IsResponse resolve req q cd (nonexistent none) one gave =
    without_data resolve req _ refl refl refl refl refl refl refl
with_outcome-IsResponse resolve req q cd (nonexistent (some soa)) one gave =
    without_data resolve req _ refl refl refl refl refl refl refl
with_outcome-IsResponse resolve req q cd failed one gave =
    without_data resolve req _ refl refl refl refl refl refl refl

-- Whatever the resolver gives for a query, the response has the id, the opcode, RD and the
-- questions of the query. It has answers only if the query has one question and they are the
-- resolver's result for it; it has AD only if that result is secure. The resolver validates unless
-- CD is set.
pub respond-IsResponse :
    (resolve : Bool → Bytes → ℕ → Outcome) (req : Message)
    → IsResponse resolve req (respond resolve req)
unfolding respond
respond-IsResponse resolve req = by_opcode (not (req.header.opcode == opcode_query))
  where
    by_questions :
        (qs : List Question)
        → req.questions ≡ qs
        → IsResponse resolve req (answer_questions resolve req qs)
    by_questions [] e = refusal-IsResponse resolve req rcode_format_error
    by_questions (q ∷ []) e = with_outcome-IsResponse resolve req q req.header.cd _ e refl
    by_questions (_ ∷ _ ∷ _) e = refusal-IsResponse resolve req rcode_format_error

    by_opcode :
        (b : Bool)
        → IsResponse resolve req (
            if b
            then with_rcode rcode_not_implemented (blank_response req)
            else answer_questions resolve req req.questions)
    by_opcode true = refusal-IsResponse resolve req rcode_not_implemented
    by_opcode false = by_questions req.questions refl
