-- ===== src/Dnsmsg/Decode.antt =====
-- dnsmsg/decode.go and Unpack of dnsmsg/message.go: reading a whole message.
pub mod Safety
pub mod Records
pub mod Messages
use dns_resolver.Prelude.{
  ℕ, zero, suc, ◌+◌, ◌/◌, ◌%◌, Bool, ◌||◌, some, List, [], ◌∷◌, ◌++◌, Bytes, ◌==◌, if◌then◌else◌,
  Result, guard, ok, err, bad_rdlength,
}
use dns_resolver.Dnsmsg.{
  type_a, type_ns, type_cname, type_soa, type_ptr, type_mx, type_aaaa, Header, Question, Soa, Rr,
  Message, zero_rr,
}
use dns_resolver.Dnsmsg.Name.{encode_name}
use dns_resolver.Dnsmsg.Wire.{Decoder, read_uint8, read_uint16, read_uint32, read_bytes, read_name}

infixl 5 ◌>>=◌ ◌>>◌
abbrev pub ◌>>=◌ : {A B : Type 0} → Decoder A → (A → Decoder B) → Decoder B
◌>>=◌ m f buf off = elim (m buf off) [ ok r ↦ f r.0 buf r.1 | err e ↦ err e ]

abbrev pub ◌>>◌ : {B : Type 0} → Decoder (Unit {0}) → Decoder B → Decoder B
m >> k = m >>= λ _. k

abbrev pub pure : {A : Type 0} → A → Decoder A
pure a buf off = ok (a, off)

abbrev pub lift : {A : Type 0} → Result A → Decoder A
lift r buf off = elim r [ ok a ↦ ok (a, off) | err e ↦ err e ]

-- d.off
abbrev pub offset : Decoder ℕ
offset buf off = ok (off, off)

-- f & mask != 0, for a mask of one bit
abbrev pub has_bit : ℕ → ℕ → Bool
has_bit f mask = (f / mask) % 2 == 1

unfoldable pub read_header : Decoder Header
unfolding read_uint16 read_uint8
read_header = do
  id ← read_uint16
  flags1 ← read_uint8
  flags2 ← read_uint8
  qd ← read_uint16
  an ← read_uint16
  ns ← read_uint16
  ar ← read_uint16
  pure (record {
    id = id;
    qr = has_bit flags1 0x80;
    opcode = (flags1 / 8) % 16;
    aa = has_bit flags1 0x04;
    tc = has_bit flags1 0x02;
    rd = has_bit flags1 0x01;
    ra = has_bit flags2 0x80;
    ad = has_bit flags2 0x20;
    cd = has_bit flags2 0x10;
    rcode = flags2 % 16;
    qd_count = qd;
    an_count = an;
    ns_count = ns;
    ar_count = ar;
  })

unfoldable pub read_question : Decoder Question
unfolding read_name read_uint16
read_question = do
  name ← read_name
  type ← read_uint16
  class ← read_uint16
  pure (record { name = name; type = type; class = class })

unfoldable pub read_soa : Decoder Soa
unfolding read_name read_uint32
read_soa = do
  mname ← read_name
  rname ← read_name
  serial ← read_uint32
  refresh ← read_uint32
  retry ← read_uint32
  expire ← read_uint32
  minimum ← read_uint32
  pure (record {
    mname = mname;
    rname = rname;
    serial = serial;
    refresh = refresh;
    retry = retry;
    expire = expire;
    minimum = minimum;
  })

-- binary.BigEndian.AppendUint16(nil, v)
abbrev pub uint16_bytes : ℕ → Bytes
uint16_bytes v = (v / 256) % 256 ∷ v % 256 ∷ []

-- The RDATA of a PTR or MX record, whose name is expanded.
unfoldable pub read_mx_prefix : ℕ → Decoder Bytes
unfolding read_uint16
read_mx_prefix type =
    if type == type_mx then (do pref ← read_uint16; pure (uint16_bytes pref)) else pure []

unfoldable pub read_exchange : Rr → Decoder Rr
unfolding read_mx_prefix read_name encode_name
read_exchange rr = do
  prefix ← read_mx_prefix rr.type
  n ← read_name
  encoded ← lift (encode_name n)
  pure (record rr { raw = prefix ++ encoded })

-- The switch over the type of the record.
unfoldable pub read_rdata : Rr → Decoder Rr
unfolding read_bytes read_name read_soa read_exchange
read_rdata rr =
    if rr.type == type_a
    then (do
      lift (guard (rr.rd_length == 4) bad_rdlength)
      b ← read_bytes 4
      pure (record rr { a = b }))
    else if rr.type == type_aaaa
    then (do
      lift (guard (rr.rd_length == 16) bad_rdlength)
      b ← read_bytes 16
      pure (record rr { aaaa = b }))
    else if rr.type == type_ns
    then (do n ← read_name; pure (record rr { ns = n }))
    else if rr.type == type_cname
    then (do n ← read_name; pure (record rr { cname = n }))
    else if rr.type == type_soa
    then (do soa ← read_soa; pure (record rr { soa = some soa }))
    else if (rr.type == type_ptr) || (rr.type == type_mx)
    then read_exchange rr
    else (do b ← read_bytes rr.rd_length; pure (record rr { raw = b }))

-- The fields in front of the RDATA.
unfoldable pub read_rr_head : Decoder Rr
unfolding read_name read_uint16 read_uint32
read_rr_head = do
  name ← read_name
  type ← read_uint16
  class ← read_uint16
  ttl ← read_uint32
  rdlen ← read_uint16
  pure (record zero_rr { name = name; type = type; class = class; ttl = ttl; rd_length = rdlen })

unfoldable pub read_rr : Decoder Rr
unfolding read_rr_head read_rdata
read_rr = do
  head ← read_rr_head
  start ← offset
  rr ← read_rdata head
  stop ← offset
  lift (guard (stop == start + rr.rd_length) bad_rdlength)
  pure rr

-- readRRs, and the loop over the questions in Unpack.
unfoldable pub read_times : {A : Type 0} → ℕ → Decoder A → Decoder (List A)
read_times zero m = pure []
read_times (suc n) m = do x ← m; xs ← read_times n m; pure (x ∷ xs)

-- What Unpack reads behind the header.
unfoldable pub read_sections : Header → Decoder Message
unfolding read_times read_question read_rr
read_sections hdr = do
  questions ← read_times hdr.qd_count read_question
  answers ← read_times hdr.an_count read_rr
  authorities ← read_times hdr.ns_count read_rr
  additionals ← read_times hdr.ar_count read_rr
  pure (record {
    header = hdr;
    questions = questions;
    answers = answers;
    authorities = authorities;
    additionals = additionals;
  })

unfoldable pub unpack_from : Decoder Message
unfolding read_header read_sections
unpack_from = do hdr ← read_header; read_sections hdr

unfoldable pub unpack : Bytes → Result Message
unfolding unpack_from
unpack buf = elim (unpack_from buf 0) [ ok r ↦ ok r.0 | err e ↦ err e ]
