-- ===== src/Dnsmsg/Decode/Messages.antt =====
-- Unpack of dnsmsg/message.go, for any bytes.
use dns_resolver.Dnsmsg.Decode.Records.{read_rr-Reads, RrPost}
use dns_resolver.Dnsmsg.Decode.Safety.{
  Reads-bind, read_times-Reads, read_question-Reads, QuestionPost, Reads-pure, read_header-Reads,
}
use dns_resolver.Dnsmsg.Wire.Safety.{Reads, Any}
use dns_resolver.Prelude.{
  Bytes, ℕ, Ensures, Error, ◌≡◌, ◌*◌, ◌+◌, Result, length, ◌≤◌, ok, err, All, subst, returns,
  is_fault, Ensures-ok, sym, Ensures-map, fails, false, arith, Ensures-err, refl,
}
use dns_resolver.Dnsmsg.Decode.{read_sections, unpack_from, unpack, read_header}
use dns_resolver.Dnsmsg.{Header, Message}

-- The sections hold as many entries as the header says, and each entry is well formed.
pub record SectionsPost (hdr : Header) (m : Message) : Type 0 where
  pub same_header : m.header ≡ hdr
  pub question_count : length m.questions ≡ hdr.qd_count
  pub answer_count : length m.answers ≡ hdr.an_count
  pub authority_count : length m.authorities ≡ hdr.ns_count
  pub additional_count : length m.additionals ≡ hdr.ar_count
  pub question_names : All QuestionPost m.questions
  pub answer_records : All RrPost m.answers
  pub authority_records : All RrPost m.authorities
  pub additional_records : All RrPost m.additionals

-- The fewest bytes that a message with these counts takes behind its header.
abbrev pub least_size : Header → ℕ
least_size hdr =
    hdr.qd_count * 5 + (hdr.an_count * 11 + (hdr.ns_count * 11 + (hdr.ar_count * 11 + 0)))

read_sections-Reads : (hdr : Header) → Reads (least_size hdr) (SectionsPost hdr) (read_sections hdr)
unfolding read_sections
read_sections-Reads hdr = Reads-bind (read_times-Reads hdr.qd_count read_question-Reads) λ qs hq.
    Reads-bind (read_times-Reads hdr.an_count read_rr-Reads) λ an ha.
      Reads-bind (read_times-Reads hdr.ns_count read_rr-Reads) λ ns hn.
        Reads-bind (read_times-Reads hdr.ar_count read_rr-Reads) λ ar hr. Reads-pure (record {
          same_header = refl;
          question_count = hq.0;
          answer_count = ha.0;
          authority_count = hn.0;
          additional_count = hr.0;
          question_names = hq.1;
          answer_records = ha.1;
          authority_records = hn.1;
          additional_records = hr.1;
        })

abbrev pub MessagePost : Bytes → Message → Type 0
MessagePost buf m = SectionsPost m.header m × (12 + least_size m.header ≤ length buf)

same_header-MessagePost :
    (buf : Bytes) (hdr : Header) (m : Message)
    → SectionsPost hdr m
    → 12 + least_size hdr ≤ length buf
    → MessagePost buf m
same_header-MessagePost buf hdr m p le =
    subst (λ h. SectionsPost h m × (12 + least_size h ≤ length buf)) (sym p.same_header) (p, le)

unpack_from-Ensures : (buf : Bytes) → Ensures (λ r. MessagePost buf r.0) (unpack_from buf 0)
unfolding unpack_from
unpack_from-Ensures buf = go (read_header buf 0) (read_header-Reads.at buf 0 (omega arith))
  where
    go :
        (r : Result (Header × ℕ))
        → Ensures (λ r. (0 + 12 ≤ r.1) × (r.1 ≤ length buf) × Any r.0) r
        → Ensures
            (λ r. MessagePost buf r.0)
            (elim r [ ok r ↦ read_sections r.0 buf r.1 | err e ↦ err e ])
    go (ok (hdr, off)) h =
        let (low, high, _) = Ensures-ok h refl in
        Ensures-map
          (λ m post.
            same_header-MessagePost buf hdr m.0 post.2 (omega (arith, low, post.0, post.1)))
          ((read_sections-Reads hdr).at buf off high)
    go (err e) h = fails (Ensures-err h refl)

pub unpack-Ensures : (buf : Bytes) → Ensures (MessagePost buf) (unpack buf)
unfolding unpack
unpack-Ensures buf = go (unpack_from buf 0) (unpack_from-Ensures buf)
  where
    go :
        (r : Result (Message × ℕ))
        → Ensures (λ r. MessagePost buf r.0) r
        → Ensures (MessagePost buf) (elim r [ ok r ↦ ok r.0 | err e ↦ err e ])
    go (ok r) h = returns (Ensures-ok h refl)
    go (err e) h = fails (Ensures-err h refl)

-- Whatever bytes it is given, Unpack does not panic and does not run out of rounds: an error is
-- one of the decoder's own.
pub unpack-err : (buf : Bytes) (e : Error) → unpack buf ≡ err e → is_fault e ≡ false
unpack-err buf e h = Ensures-err (unpack-Ensures buf) h

-- A message that Unpack accepts has in each section as many entries as its header says; each
-- question and owner name, NS and CNAME target is the root or labels that are not empty, hold no
-- dot and take 255 bytes at most; A and AAAA records have 4 and 16 bytes; and the buffer has 12
-- bytes, 5 for each question and 11 for each record, so a short packet cannot claim many.
pub unpack-ok : (buf : Bytes) (m : Message) → unpack buf ≡ ok m → MessagePost buf m
unpack-ok buf m h = Ensures-ok (unpack-Ensures buf) h
