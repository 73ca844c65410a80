-- ===== src/Signature.antt =====
-- The canonical form of records (dnssec/verify.go): what a signature is made over. The two forms of
-- an address are those of Go's net.IP.
pub mod Checks
pub mod Sorting
pub mod Period
pub mod Coverage
pub mod Safety
pub mod Acceptance
use dns_resolver.Dnsmsg.{
  Soa, Rr, type_a, class_in, type_aaaa, type_ns, type_cname, type_soa, type_mx, type_ptr,
}
use dns_resolver.Dnsmsg.Decode.{uint16_bytes}
use dns_resolver.Dnsmsg.Dnssec.{Rrsig}
use dns_resolver.Denial.{lex, is_greater}
use dns_resolver.Dnsmsg.Wire.{slice, top_bits}
use dns_resolver.Denial.Hashed.{canonical_name}
use dns_resolver.Text.{eqb, lower_byte, labels_of, join}
use dns_resolver.Prelude.{
  Bytes, ℕ, Option, List, ◌∷◌, if◌then◌else◌, Result, [], length, ◌/◌, err, suc, ltb, ◌==◌, ok,
  ◌++◌, ◌>>=◌, some, out_of_fuel, no_address, no_soa, short_rdata, bad_signature, ◌&&◌, none,
  bad_label, drop, take, not, ◌-◌, ◌||◌, map, zero,
}
use Prim.Native.Nat.{compare}

-- To4 and To16 of net.IP; `none` is nil.
abbrev pub mapped_prefix : Bytes
mapped_prefix = 0 ∷ 0 ∷ 0 ∷ 0 ∷ 0 ∷ 0 ∷ 0 ∷ 0 ∷ 0 ∷ 0 ∷ 255 ∷ 255 ∷ []

unfoldable pub to4 : Bytes → Option Bytes
unfolding eqb
to4 ip =
    if length ip == 4
    then some ip
    else if (length ip == 16) && eqb (take 12 ip) mapped_prefix
    then some (drop 12 ip)
    else none

unfoldable pub to16 : Bytes → Option Bytes
to16 ip =
    if length ip == 4 then some (mapped_prefix ++ ip) else if length ip == 16 then some ip else none

-- uint16be and uint32be
abbrev pub uint32_bytes : ℕ → Bytes
uint32_bytes v = uint16_bytes (v / 65536) ++ uint16_bytes v

-- The loop of lowercaseWireName, on what is left of the name; each round takes a byte or more.
unfoldable pub lowercase_loop : ℕ → Bytes → Result Bytes
unfolding lower_byte
lowercase_loop zero buf = err out_of_fuel
lowercase_loop (suc fuel) [] = err bad_label
lowercase_loop (suc fuel) (n ∷ rest) =
    if n == 0
    then ok (0 ∷ [])
    else if not (top_bits n == 0) || ltb (length rest) n
    then err bad_label
    else do
      tail ← lowercase_loop fuel (drop n rest)
      ok (n ∷ (map lower_byte (take n rest) ++ tail))

unfoldable pub lowercase_wire_name : Bytes → Result Bytes
unfolding lowercase_loop
lowercase_wire_name buf = lowercase_loop (suc (length buf)) buf

-- An address that is not there is an error.
abbrev pub address : Option Bytes → Result Bytes
address none = err no_address
address (some ip) = ok ip

unfoldable pub canonical_soa : Option Soa → Result Bytes
unfolding canonical_name
canonical_soa none = err no_soa
canonical_soa (some soa) = do
  mname ← canonical_name soa.mname
  rname ← canonical_name soa.rname
  ok (
      mname
      ++ (rname
          ++ (uint32_bytes soa.serial
              ++ (uint32_bytes soa.refresh
                  ++ (uint32_bytes soa.retry
                      ++ (uint32_bytes soa.expire ++ uint32_bytes soa.minimum))))))

unfoldable pub canonical_mx : Bytes → Result Bytes
unfolding slice lowercase_wire_name
canonical_mx raw = if ltb (length raw) 2 then err short_rdata else do
  rest ← slice raw 2 (length raw)
  name ← lowercase_wire_name rest
  preference ← slice raw 0 2
  ok (preference ++ name)

-- canonicalRDATA
unfoldable pub canonical_rdata : Rr → Result Bytes
unfolding to4 to16 canonical_name canonical_soa canonical_mx lowercase_wire_name
canonical_rdata rr =
    if rr.type == type_a
    then address (to4 rr.a)
    else if rr.type == type_aaaa
    then address (to16 rr.aaaa)
    else if rr.type == type_ns
    then canonical_name rr.ns
    else if rr.type == type_cname
    then canonical_name rr.cname
    else if rr.type == type_soa
    then canonical_soa rr.soa
    else if rr.type == type_mx
    then canonical_mx rr.raw
    else if rr.type == type_ptr
    then lowercase_wire_name rr.raw
    else ok rr.raw

-- The loop over the records of signedData.
unfoldable pub canonical_rdatas : List Rr → Result (List Bytes)
unfolding canonical_rdata
canonical_rdatas [] = ok []
canonical_rdatas (rr ∷ rrs) = do
  rdata ← canonical_rdata rr
  rest ← canonical_rdatas rrs
  ok (rdata ∷ rest)

-- slices.SortFunc by bytes.Compare: equal elements are the same bytes, so every sort agrees.
unfoldable pub insert_sorted : Bytes → List Bytes → List Bytes
unfolding lex
insert_sorted x [] = x ∷ []
insert_sorted x (y ∷ ys) =
    let rest = insert_sorted x ys in if is_greater (lex compare x y) then y ∷ rest else x ∷ y ∷ ys

unfoldable pub sort : List Bytes → List Bytes
unfolding insert_sorted
sort [] = []
sort (x ∷ xs) = insert_sorted x (sort xs)

-- The records that the last loop does not skip: those that differ from the one before.
unfoldable pub unrepeated_after : Bytes → List Bytes → List Bytes
unfolding eqb
unrepeated_after prev [] = []
unrepeated_after prev (x ∷ xs) =
    let rest = unrepeated_after x xs in if eqb x prev then rest else x ∷ rest

unfoldable pub unrepeated : List Bytes → List Bytes
unfolding unrepeated_after
unrepeated [] = []
unrepeated (x ∷ xs) = x ∷ unrepeated_after x xs

-- What the last loop writes for each record.
unfoldable pub signed_records : Bytes → Rrsig → List Bytes → Bytes
signed_records owner sig [] = []
signed_records owner sig (rdata ∷ rest) =
    owner
    ++ (uint16_bytes sig.type_covered
        ++ (uint16_bytes class_in
            ++ (uint32_bytes sig.original_ttl
                ++ (uint16_bytes (length rdata) ++ (rdata ++ signed_records owner sig rest)))))

unfoldable pub signed_owner_name : Bytes → Rrsig → Result Bytes
unfolding labels_of join canonical_name
signed_owner_name owner sig =
    let labels = labels_of owner in
    if ltb (length labels) sig.labels
    then err bad_signature
    else canonical_name (
        if ltb sig.labels (length labels)
        then join ((b'*' ∷ []) ∷ drop (length labels - sig.labels) labels)
        else owner)

-- The fields of the RRSIG in front of its signature.
unfoldable pub signature_fields : Rrsig → Bytes → Bytes
signature_fields sig signer =
    uint16_bytes sig.type_covered
    ++ (sig.algorithm
        ∷ sig.labels
        ∷ (uint32_bytes sig.original_ttl
            ++ (uint32_bytes sig.expiration
                ++ (uint32_bytes sig.inception ++ (uint16_bytes sig.key_tag ++ signer)))))

-- signedData of a set whose first record has this owner
unfoldable pub signed_data : Bytes → List Rr → Rrsig → Result Bytes
unfolding canonical_name signed_owner_name canonical_rdatas sort unrepeated signed_records
    signature_fields
signed_data first_owner rrset sig = do
  signer ← canonical_name sig.signer_name
  owner ← signed_owner_name first_owner sig
  rdatas ← canonical_rdatas rrset
  ok (signature_fields sig signer ++ signed_records owner sig (unrepeated (sort rdatas)))
