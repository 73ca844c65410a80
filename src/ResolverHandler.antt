-- ===== src/ResolverHandler.antt =====
-- resolverhandler/resolverhandler.go: the response for every outcome of a resolution. The resolver
-- is a function from whether it validates, the name and the type to the outcome; the log is left
-- out.
pub mod Responses
use dns_resolver.Dnsmsg.{
  Message, Rr, zero_header, rcode_server_failure, rcode_name_error, Question, rcode_format_error,
  rcode_not_implemented,
}
use dns_resolver.Prelude.{
  List, ℕ, Bool, Bytes, Option, true, if◌then◌else◌, [], some, ◌∷◌, not, none, ◌==◌,
}

-- What ResolveRR gives: an error that is ErrBogus, a result, an NXDOMAINError or another error.
pub data Outcome : Type 0 where
  bogus : Outcome
  resolved : (answers authority : List Rr) (secure : Bool) → Outcome
  nonexistent : (soa : Option Rr) → Outcome
  failed : Outcome

abbrev pub opcode_query : ℕ
opcode_query = 0

-- The response that ServeDNS starts from.
unfoldable pub blank_response : Message → Message
blank_response req = record {
  header = record zero_header {
    id = req.header.id;
    qr = true;
    opcode = req.header.opcode;
    rd = req.header.rd;
    ra = true;
  };
  questions = req.questions;
  answers = [];
  authorities = [];
  additionals = [];
}

unfoldable pub with_rcode : ℕ → Message → Message
with_rcode rcode resp = record resp { header = record resp.header { rcode = rcode } }

-- The switch over the outcome.
unfoldable pub with_outcome : Message → Outcome → Message
unfolding with_rcode
with_outcome resp bogus = with_rcode rcode_server_failure resp
with_outcome resp (resolved answers authority secure) = record resp {
  header = record resp.header { ad = secure };
  answers = answers;
  authorities = authority;
}
with_outcome resp (nonexistent none) = with_rcode rcode_name_error resp
with_outcome resp (nonexistent (some soa)) = record (with_rcode rcode_name_error resp) {
  authorities = soa ∷ [];
}
with_outcome resp failed = with_rcode rcode_server_failure resp

-- ServeDNS, by the questions of a standard query.
unfoldable pub answer_questions : (Bool → Bytes → ℕ → Outcome) → Message → List Question → Message
unfolding blank_response with_rcode with_outcome
answer_questions resolve req (q ∷ []) =
    let resp = blank_response req in
    let cd = req.header.cd in
    let resp' = record resp { header = record resp.header { cd = cd } } in
    with_outcome resp' (resolve (not cd) q.name q.type)
answer_questions resolve req _ = with_rcode rcode_format_error (blank_response req)

-- ServeDNS: the one message that it writes.
unfoldable pub respond : (Bool → Bytes → ℕ → Outcome) → Message → Message
unfolding answer_questions
respond resolve req =
    if not (req.header.opcode == opcode_query)
    then with_rcode rcode_not_implemented (blank_response req)
    else answer_questions resolve req req.questions
