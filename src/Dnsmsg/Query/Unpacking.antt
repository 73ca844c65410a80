-- ===== src/Dnsmsg/Query/Unpacking.antt =====
-- PackQuery and then Unpack (dnsmsg/message.go).
use dns_resolver.Dnsmsg.Decode.{◌>>=◌, pure, unpack_from, read_sections, read_times, read_rr}
use dns_resolver.Text.{trim_dot}
use dns_resolver.Dnsmsg.Name.{encode_name}
use dns_resolver.Dnsmsg.Name.RoundTrip.{canonical, read_name-encode_name}
use dns_resolver.Dnsmsg.Query.{query_header, pack_query}
use dns_resolver.Dnsmsg.Decode.{uint16_bytes, read_header, read_question, unpack}
use dns_resolver.Dnsmsg.{Message, zero_header, class_in, Question, Rr}
use dns_resolver.Dnsmsg.Wire.{read_uint8, read_uint16, index, big_endian_16, read_name, Decoder}
use dns_resolver.Prelude.{
  Bytes, ℕ, drop, ◌<◌, ◌≡◌, ok, ◌∷◌, ◌++◌, then_step, length, ◌+◌, arith, ap, suc, ltb, [],
  length-drop, false, get_elem?-drop, ◌/◌, ◌%◌, drop-add_of_drop, ◌*◌, refl, ◌≤◌, after_step,
  Result, err, ◌∙◌, List,
}

has_room :
    (buf : Bytes) (off b : ℕ) (rest : Bytes)
    → drop off buf ≡ b ∷ rest
    → length buf ≡ off + suc (length rest)
has_room buf off b rest h = omega (arith, ap length h, length-drop off buf)

index-at : (buf : Bytes) (off b : ℕ) (rest : Bytes) → drop off buf ≡ b ∷ rest → index buf off ≡ ok b
unfolding index
index-at buf off b rest h = rw (get_elem?-drop buf off b rest h, index) refl

read_uint8-at :
    (buf : Bytes) (off b : ℕ) (rest : Bytes)
    → drop off buf ≡ b ∷ rest
    → read_uint8 buf off ≡ ok (b, off + 1)
unfolding read_uint8
read_uint8-at buf off b rest h =
    let room : ltb (length buf) (off + 1) ≡ false = ground (arith, has_room buf off b rest h) in
    rw room (then_step _ _ (index-at buf off b rest h) refl)

read_uint16-at :
    (buf : Bytes) (off v : ℕ) (rest : Bytes)
    → drop off buf ≡ uint16_bytes v ++ rest
    → v < 65536
    → read_uint16 buf off ≡ ok (v, off + 2)
unfolding read_uint16 big_endian_16
read_uint16-at buf off v rest h small =
    let room : ltb (length buf) (off + 2) ≡ false =
      ground (arith, has_room buf off ((v / 256) % 256) (v % 256 ∷ rest) h) in
    let second : drop (off + 1) buf ≡ v % 256 ∷ rest =
      drop-add_of_drop buf ((v / 256) % 256 ∷ []) (v % 256 ∷ rest) off h in
    let value : (v / 256) % 256 * 256 + v % 256 ≡ v = omega (arith, small) in
    rw room (
      then_step _ _
        (then_step _ _ (index-at buf off _ _ h)
          (then_step _ _ (index-at buf (off + 1) _ _ second) refl))
        (rw value refl))

-- A reader that gives this value at this place, and ends there.
record Gives {A : Type 0} (buf : Bytes) (off : ℕ) (a : A) (next : ℕ) (m : Decoder A) : Type 0 where
  is : m buf off ≡ ok (a, next)

Gives-bind :
    {A B : Type 0} {buf : Bytes} {off mid next : ℕ} {a : A} {b : B} {m : Decoder A}
    (f : A → Decoder B)
    → Gives buf off a mid m
    → Gives buf mid b next (f a)
    → Gives buf off b next (m >>= f)
Gives-bind {A} {B} {buf} f p q = record { is = ap bound p.is ∙ q.is }
  where
    bound : Result (A × ℕ) → Result (B × ℕ)
    bound x = elim x [ ok r ↦ f r.0 buf r.1 | err e ↦ err e ]

Gives-pure : {A : Type 0} (buf : Bytes) (off : ℕ) (a : A) → Gives buf off a off (pure a)
Gives-pure buf off a = record { is = refl }

gives :
    {A : Type 0} {buf : Bytes} {off next : ℕ} {a : A} {m : Decoder A}
    → m buf off ≡ ok (a, next)
    → Gives buf off a next m
gives h = record { is = h }

read_header-of :
    (buf : Bytes) (id qd : ℕ)
    → read_uint16 buf 0 ≡ ok (id, 2)
    → read_uint8 buf 2 ≡ ok (0, 3)
    → read_uint8 buf 3 ≡ ok (0, 4)
    → read_uint16 buf 4 ≡ ok (qd, 6)
    → read_uint16 buf 6 ≡ ok (0, 8)
    → read_uint16 buf 8 ≡ ok (0, 10)
    → read_uint16 buf 10 ≡ ok (0, 12)
    → Gives buf 0 (record zero_header { id = id; qd_count = qd }) 12 read_header
unfolding read_header
read_header-of buf id qd a b c d e f g = Gives-bind _ (gives {m = read_uint16} a) (
    Gives-bind _ (gives {m = read_uint8} b) (
      Gives-bind _ (gives {m = read_uint8} c) (
        Gives-bind _ (gives {m = read_uint16} d) (
          Gives-bind _ (gives {m = read_uint16} e) (
            Gives-bind _ (gives {m = read_uint16} f)
              (Gives-bind _ (gives {m = read_uint16} g) (Gives-pure buf 12 _)))))))

read_question-of :
    (buf name : Bytes) (off i j k type class : ℕ)
    → read_name buf off ≡ ok (name, i)
    → read_uint16 buf i ≡ ok (type, j)
    → read_uint16 buf j ≡ ok (class, k)
    → Gives buf off (record { name = name; type = type; class = class }) k read_question
unfolding read_question
read_question-of buf name off i j k type class a b c = Gives-bind _ (gives {m = read_name} a) (
    Gives-bind _ (gives {m = read_uint16} b)
      (Gives-bind _ (gives {m = read_uint16} c) (Gives-pure buf k _)))

none_read :
    {A : Type 0} (buf : Bytes) (off : ℕ) (m : Decoder A) → Gives buf off [] off (read_times 0 m)
unfolding read_times
none_read buf off m = Gives-pure buf off []

one_read :
    {A : Type 0} {buf : Bytes} {off next : ℕ} {a : A} (m : Decoder A)
    → Gives buf off a next m
    → Gives buf off (a ∷ []) next (read_times 1 m)
unfolding read_times
one_read {A} {buf} {next = next} {a} m g =
    Gives-bind (λ x. read_times 0 m >>= λ xs. pure (x ∷ xs)) g
      (Gives-bind (λ xs. pure (a ∷ xs)) (none_read buf next m) (Gives-pure buf next (a ∷ [])))

unpack-of :
    (buf : Bytes) (id off : ℕ) (q : Question)
    → Gives buf 0 (record zero_header { id = id; qd_count = 1 }) 12 read_header
    → Gives buf 12 q off read_question
    → Gives buf 0
        (record {
          header = record zero_header { id = id; qd_count = 1 };
          questions = q ∷ [];
          answers = [];
          authorities = [];
          additionals = [];
        })
        off
        unpack_from
unfolding unpack_from read_sections
unpack-of buf id off q a b =
    let message : List Rr → List Rr → List Rr → Message = λ an ns ar. record {
      header = record zero_header { id = id; qd_count = 1 };
      questions = q ∷ [];
      answers = an;
      authorities = ns;
      additionals = ar;
    } in
    let last : List Rr → List Rr → List Rr → Decoder Message =
      λ an ns ar. pure (message an ns ar) in
    let third : List Rr → List Rr → Decoder Message =
      λ an ns. read_times 0 read_rr >>= last an ns in
    let second : List Rr → Decoder Message = λ an. read_times 0 read_rr >>= third an in
    Gives-bind _ a (
      Gives-bind _ (one_read read_question b) (
        Gives-bind second (none_read buf off read_rr) (
          Gives-bind (third []) (none_read buf off read_rr) (
            Gives-bind (last [] []) (none_read buf off read_rr)
              (Gives-pure buf off (message [] [] []))))))

-- What a query is unpacked as.
abbrev pub query_of : ℕ → Bytes → ℕ → Message
query_of id name qtype = record {
  header = record zero_header { id = id; qd_count = 1 };
  questions = record { name = canonical name; type = qtype; class = class_in } ∷ [];
  answers = [];
  authorities = [];
  additionals = [];
}

module _ (id qtype : ℕ) (name w : Bytes) (small : id < 65536) (known : qtype < 65536) where
  abbrev tail_bytes : Bytes
  tail_bytes = uint16_bytes qtype ++ uint16_bytes class_in

  abbrev packet : Bytes
  packet = query_header id ++ (w ++ tail_bytes)

  read_header-query : Gives packet 0 (record zero_header { id = id; qd_count = 1 }) 12 read_header
  read_header-query =
      read_header-of packet id 1 (read_uint16-at packet 0 id _ refl small)
        (read_uint8-at packet 2 0 _ refl) (read_uint8-at packet 3 0 _ refl)
        (read_uint16-at packet 4 1 _ refl (omega arith))
        (read_uint16-at packet 6 0 _ refl (omega arith))
        (read_uint16-at packet 8 0 _ refl (omega arith))
        (read_uint16-at packet 10 0 (w ++ tail_bytes) refl (omega arith))

  module _ (made : encode_name name ≡ ok w) (fits : length (trim_dot name) ≤ 254) where
    at_type : drop (12 + length w) packet ≡ tail_bytes
    at_type = drop-add_of_drop packet w tail_bytes 12 refl

    at_class : drop (12 + length w + 2) packet ≡ uint16_bytes class_in
    at_class =
        drop-add_of_drop packet (uint16_bytes qtype) (uint16_bytes class_in) (12 + length w) at_type

    read_question-query :
        Gives packet 12
          (record { name = canonical name; type = qtype; class = class_in })
          (12 + length w + 2 + 2)
          read_question
    read_question-query =
        read_question-of packet (canonical name) 12 (12 + length w) (12 + length w + 2)
          (12 + length w + 2 + 2) qtype class_in
          (read_name-encode_name name w (query_header id) tail_bytes made fits)
          (read_uint16-at packet (12 + length w) qtype _ at_type known)
          (read_uint16-at packet (12 + length w + 2) class_in [] at_class (omega arith))

    unpack-query : unpack packet ≡ ok (query_of id name qtype)
    unfolding unpack
    unpack-query =
        let g = unpack-of packet id _ _ read_header-query read_question-query in
        done (unpack_from packet 0) g.is
      where
        done :
            {next : ℕ} (r : Result (Message × ℕ))
            → r ≡ ok (query_of id name qtype, next)
            → elim r [ ok x ↦ ok x.0 | err e ↦ err e ] ≡ ok (query_of id name qtype)
        done (ok x) h = cc
        done (err e) h = absurd (cc)

-- PackQuery and then Unpack give the query back: for an ID and a type of 16 bits and a name of at
-- most 254 bytes (its final dot not counted) that PackQuery accepts, the message has the ID, no flag,
-- and one question, of that name up to the final dot, of that type and of class IN.
pub unpack-pack_query :
    (id qtype : ℕ) (name packed : Bytes)
    → pack_query id name qtype ≡ ok packed
    → id < 65536
    → qtype < 65536
    → length (trim_dot name) ≤ 254
    → unpack packed ≡ ok (query_of id name qtype)
unfolding pack_query
unpack-pack_query id qtype name packed h small known fits =
    let (w, made, is) = after_step (encode_name name) _ h in
    let same : packed ≡ query_header id ++ (w ++ (uint16_bytes qtype ++ uint16_bytes class_in)) =
      cc in
    rw same (unpack-query id qtype name w small known made fits)
