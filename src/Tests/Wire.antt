-- ===== src/Tests/Wire.antt =====
-- Messages and names in wire format.
use dns_resolver.Dnsmsg.Query.Unpacking.{query_of, unpack-pack_query}
use dns_resolver.Dnsmsg.Query.{pack_query}
use dns_resolver.Dnsmsg.Dnssec.Safety.{parsers_safe}
use dns_resolver.Dnsmsg.Name.RoundTrip.{
  canonical, read_name-encode_name_too_long, read_name-encode_name,
}
use dns_resolver.Dnsmsg.Dnssec.{parse_dnskey, parse_ds, parse_rrsig, parse_nsec, parse_nsec3}
use dns_resolver.Dnsmsg.Wire.{read_name}
use dns_resolver.Dnsmsg.Wire.Safety.{Any}
use dns_resolver.Text.{trim_dot, dot}
use dns_resolver.Dnsmsg.Decode.Messages.{MessagePost, unpack-ok, unpack-err}
use dns_resolver.Dnsmsg.Name.{encode_name}
use dns_resolver.Dnsmsg.Decode.{unpack}
use dns_resolver.Dnsmsg.{Message, zero_header}
use dns_resolver.Prelude.{
  Bytes, ℕ, Ensures, ◌∷◌, is_fault, suc, [], true, too_many_jumps, zero, refl, ◌≡◌, ◌++◌, false,
  length, ok, err, name_too_long, ◌+◌, arith,
}

-- A query for the address of `a`.
abbrev query_bytes : Bytes
query_bytes = 0 ∷ 7 ∷ 1 ∷ 0 ∷ 0 ∷ 1 ∷ 0 ∷ 0 ∷ 0 ∷ 0 ∷ 0 ∷ 0 ∷ 1 ∷ b'a' ∷ 0 ∷ 0 ∷ 1 ∷ 0 ∷ 1 ∷ []

abbrev query_message : Message
query_message = record {
  header = record zero_header { id = 7; rd = true; qd_count = 1 };
  questions = record { name = b'a' ∷ []; type = 1; class = 1 } ∷ [];
  answers = [];
  authorities = [];
  additionals = [];
}

-- A question whose name is a pointer to itself.
abbrev looping_bytes : Bytes
looping_bytes = 0 ∷ 7 ∷ 1 ∷ 0 ∷ 0 ∷ 1 ∷ 0 ∷ 0 ∷ 0 ∷ 0 ∷ 0 ∷ 0 ∷ 0xC0 ∷ 12 ∷ 0 ∷ 1 ∷ 0 ∷ 1 ∷ []

unpack-ok_example : MessagePost query_bytes query_message
unfolding unpack
unpack-ok_example = unpack-ok query_bytes query_message refl

unpack-err_example : is_fault too_many_jumps ≡ false
unfolding unpack
unpack-err_example = unpack-err looping_bytes too_many_jumps refl

abbrev two_labels : Bytes
two_labels = b'a' ∷ b'b' ∷ dot ∷ b'c' ∷ []

abbrev in_front : Bytes
in_front = 9 ∷ []

abbrev two_labels_wire : Bytes
two_labels_wire = 2 ∷ b'a' ∷ b'b' ∷ 1 ∷ b'c' ∷ 0 ∷ []

read_name-encode_name_example :
    read_name (in_front ++ (two_labels_wire ++ (8 ∷ []))) (length in_front)
    ≡ ok (canonical two_labels, length in_front + length two_labels_wire)
unfolding encode_name trim_dot
read_name-encode_name_example =
    read_name-encode_name two_labels two_labels_wire in_front (8 ∷ []) refl (omega arith)

letters : ℕ → Bytes → Bytes
letters zero s = s
letters (suc n) s = b'a' ∷ letters n s

-- Four labels of 63 bytes, and three dots.
abbrev long_name : Bytes
unfolding letters
long_name = letters 63 (dot ∷ letters 63 (dot ∷ letters 63 (dot ∷ letters 63 [])))

abbrev long_name_wire : Bytes
unfolding letters
long_name_wire = 63 ∷ letters 63 (63 ∷ letters 63 (63 ∷ letters 63 (63 ∷ letters 63 (0 ∷ []))))

read_name-encode_name_too_long_example :
    read_name ([] ++ (long_name_wire ++ [])) (length {A = ℕ} []) ≡ err name_too_long
unfolding encode_name trim_dot letters
read_name-encode_name_too_long_example =
    read_name-encode_name_too_long long_name long_name_wire [] [] refl refl

-- An RRSIG whose signer name runs off the end.
parsers_safe_example :
    Ensures Any (parse_dnskey (5 ∷ []))
    × Ensures Any (parse_ds (5 ∷ []))
    × Ensures Any (parse_rrsig (5 ∷ []))
    × Ensures Any (parse_nsec (5 ∷ []))
    × Ensures Any (parse_nsec3 (5 ∷ []))
parsers_safe_example = parsers_safe (5 ∷ [])

abbrev packed_query : Bytes
packed_query = 0 ∷ 7 ∷ 0 ∷ 0 ∷ 0 ∷ 1 ∷ 0 ∷ 0 ∷ 0 ∷ 0 ∷ 0 ∷ 0 ∷ 1 ∷ b'a' ∷ 0 ∷ 0 ∷ 1 ∷ 0 ∷ 1 ∷ []

unpack-pack_query_example : unpack packed_query ≡ ok (query_of 7 (b'a' ∷ []) 1)
unfolding pack_query trim_dot
unpack-pack_query_example =
    unpack-pack_query 7 1 (b'a' ∷ []) packed_query refl (omega arith) (omega arith) (omega arith)
