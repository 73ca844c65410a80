-- ===== src/Tests/Clients.antt =====
-- A client on this machine and one elsewhere; a server's reply to a query.
use dns_resolver.Resolver.Replies.Matching.{IsReply, unpack_and_verify_iff}
use dns_resolver.Dnsmsg.Decode.{unpack}
use dns_resolver.Signature.{mapped_prefix}
use dns_resolver.Resolver.Replies.{unpack_and_verify}
use dns_resolver.Prelude.{Bytes, List, ◌∷◌, true, [], ◌≡◌, ◌++◌, refl, ◌⊎◌, ok, err, mismatch, ◌↔◌}
use dns_resolver.Acl.Access.{IsRefusal, Listed, serve-Listed}
use dns_resolver.Acl.{Peer, serve, udp, loopback_only, tcp, refusal}
use dns_resolver.Dnsmsg.{Message, zero_header}
use dns_resolver.Tests.Signatures.{ascii_only}

abbrev greeting : Message
greeting = record {
  header = record zero_header { id = 7; qr = true };
  questions = record { name = b'a' ∷ []; type = 1; class = 1 } ∷ [];
  answers = [];
  authorities = [];
  additionals = [];
}

abbrev echo : Message → List Message
echo req = req ∷ req ∷ []

abbrev here : Peer
here = udp (mapped_prefix ++ (127 ∷ 0 ∷ 0 ∷ 1 ∷ []))

local_echo : serve loopback_only echo here greeting ≡ echo greeting
unfolding serve
local_echo = refl

foreign_refused :
    serve loopback_only echo (tcp (128 ∷ 0 ∷ 0 ∷ 1 ∷ [])) greeting ≡ refusal greeting ∷ []
unfolding serve
foreign_refused = refl

serve-Listed_example :
    (Listed loopback_only here × (serve loopback_only echo here greeting ≡ echo greeting))
    ⊎ ((Listed loopback_only here → ⊥)
        × IsRefusal greeting (serve loopback_only echo here greeting))
serve-Listed_example = serve-Listed loopback_only echo here greeting

-- A response of no records to the query for the address of `a`.
abbrev reply_bytes : Bytes
reply_bytes = 0 ∷ 7 ∷ 128 ∷ 0 ∷ 0 ∷ 1 ∷ 0 ∷ 0 ∷ 0 ∷ 0 ∷ 0 ∷ 0 ∷ 1 ∷ b'a' ∷ 0 ∷ 0 ∷ 1 ∷ 0 ∷ 1 ∷ []

abbrev reply_message : Message
reply_message = record greeting { header = record zero_header { id = 7; qr = true; qd_count = 1 } }

reply_accepted : unpack_and_verify reply_bytes 7 (b'a' ∷ []) 1 true ≡ ok reply_message
unfolding unpack_and_verify ascii_only
reply_accepted = refl

case_changed : unpack_and_verify reply_bytes 7 (b'A' ∷ []) 1 true ≡ err mismatch
unfolding unpack_and_verify ascii_only
case_changed = refl

unpack_and_verify_iff_example :
    (unpack_and_verify reply_bytes 7 (b'a' ∷ []) 1 true ≡ ok reply_message)
    ↔ ((unpack reply_bytes ≡ ok reply_message) × IsReply reply_message 7 (b'a' ∷ []) 1 true)
unpack_and_verify_iff_example = unpack_and_verify_iff reply_bytes 7 (b'a' ∷ []) 1 true reply_message
