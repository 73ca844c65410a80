-- ===== src/Dnsmsg/Dnssec.antt =====
-- dnsmsg/dnssec.go: the DNSSEC records, read out of raw RDATA. An index or a slice out of range is
-- `err panic`, as in Go.
pub mod Safety
use dns_resolver.Dnsmsg.{Rr, type_dnskey, type_ds, type_rrsig, type_nsec, type_nsec3}
use dns_resolver.Dnsmsg.Wire.{big_endian_16, index, name_of, slice, big_endian_32, top_bits}
use dns_resolver.Prelude.{
  ℕ, Bytes, Bool, Result, length, ◌%◌, if◌then◌else◌, List, err, suc, Option, ◌/◌, ◌∷◌, true, ◌==◌,
  ltb, out_of_fuel, ok, false, ◌+◌, short_rdata, leb, some, ◌*◌, ◌^◌, underrun, none, [], ◌>>=◌,
  not, ◌-◌, zero, bad_label, ◌++◌,
}

pub record Dnskey : Type 0 where
  pub flags : ℕ
  pub protocol : ℕ
  pub algorithm : ℕ
  pub public_key : Bytes

pub record Rrsig : Type 0 where
  pub type_covered : ℕ
  pub algorithm : ℕ
  pub labels : ℕ
  pub original_ttl : ℕ
  pub expiration : ℕ
  pub inception : ℕ
  pub key_tag : ℕ
  pub signer_name : Bytes
  pub signature : Bytes

pub record Ds : Type 0 where
  pub key_tag : ℕ
  pub algorithm : ℕ
  pub digest_type : ℕ
  pub digest : Bytes

pub record Nsec : Type 0 where
  pub next_domain : Bytes
  pub type_bitmap : Bytes

pub record Nsec3 : Type 0 where
  pub algorithm : ℕ
  pub flags : ℕ
  pub iterations : ℕ
  pub salt : Bytes
  pub next_hashed : Bytes
  pub type_bitmap : Bytes

-- raw[i:]
abbrev pub slice_from : Bytes → ℕ → Result Bytes
slice_from raw i = slice raw i (length raw)

-- n.Flags & NSEC3FlagOptOut != 0
unfoldable pub opt_out : Nsec3 → Bool
opt_out n = n.flags % 2 == 1

unfoldable pub parse_dnskey : Bytes → Result Dnskey
unfolding big_endian_16 index slice
parse_dnskey raw = if ltb (length raw) 4 then err short_rdata else do
  flags ← big_endian_16 raw 0
  protocol ← index raw 2
  algorithm ← index raw 3
  key ← slice_from raw 4
  ok (record { flags = flags; protocol = protocol; algorithm = algorithm; public_key = key })

unfoldable pub parse_ds : Bytes → Result Ds
unfolding big_endian_16 index slice
parse_ds raw = if ltb (length raw) 4 then err short_rdata else do
  tag ← big_endian_16 raw 0
  algorithm ← index raw 2
  digest_type ← index raw 3
  digest ← slice_from raw 4
  ok (record { key_tag = tag; algorithm = algorithm; digest_type = digest_type; digest = digest })

-- The loop of readUncompressedName.
unfoldable pub uncompressed_loop : ℕ → Bytes → ℕ → List Bytes → Result (List Bytes × ℕ)
unfolding index slice
uncompressed_loop zero buf off labels = err out_of_fuel
uncompressed_loop (suc fuel) buf off labels = if leb (length buf) off then err underrun else do
  n ← index buf off
  if n == 0
      then ok (labels, off + 1)
      else if not (top_bits n == 0)
      then err bad_label
      else if ltb (length buf) (off + 1 + n)
      then err underrun
      else do
        l ← slice buf (off + 1) (off + 1 + n)
        uncompressed_loop fuel buf (off + 1 + n) (labels ++ (l ∷ []))

-- Each round moves forward in the buffer.
unfoldable pub read_uncompressed_name : Bytes → Result (Bytes × ℕ)
unfolding uncompressed_loop name_of
read_uncompressed_name buf = do
  (labels, off) ← uncompressed_loop (suc (length buf)) buf 0 []
  ok (name_of labels, off)

unfoldable pub parse_rrsig : Bytes → Result Rrsig
unfolding big_endian_16 big_endian_32 index slice read_uncompressed_name
parse_rrsig raw = if ltb (length raw) 18 then err short_rdata else do
  covered ← big_endian_16 raw 0
  algorithm ← index raw 2
  labels ← index raw 3
  ttl ← big_endian_32 raw 4
  expiration ← big_endian_32 raw 8
  inception ← big_endian_32 raw 12
  tag ← big_endian_16 raw 16
  rest ← slice_from raw 18
  (name, n) ← read_uncompressed_name rest
  signature ← slice_from raw (18 + n)
  ok (record {
    type_covered = covered;
    algorithm = algorithm;
    labels = labels;
    original_ttl = ttl;
    expiration = expiration;
    inception = inception;
    key_tag = tag;
    signer_name = name;
    signature = signature;
  })

unfoldable pub parse_nsec : Bytes → Result Nsec
unfolding slice read_uncompressed_name
parse_nsec raw = do
  (name, n) ← read_uncompressed_name raw
  bitmap ← slice_from raw n
  ok (record { next_domain = name; type_bitmap = bitmap })

unfoldable pub parse_nsec3 : Bytes → Result Nsec3
unfolding big_endian_16 index slice
parse_nsec3 raw = if ltb (length raw) 5 then err short_rdata else do
  algorithm ← index raw 0
  flags ← index raw 1
  iterations ← big_endian_16 raw 2
  salt_len ← index raw 4
  if ltb (length raw) (5 + salt_len + 1) then err short_rdata else do
    salt ← slice raw 5 (5 + salt_len)
    rest ← slice_from raw (5 + salt_len)
    hash_len ← index rest 0
    if ltb (length rest) (1 + hash_len) then err short_rdata else do
      next ← slice rest 1 (1 + hash_len)
      bitmap ← slice_from rest (1 + hash_len)
      ok (record {
        algorithm = algorithm;
        flags = flags;
        iterations = iterations;
        salt = salt;
        next_hashed = next;
        type_bitmap = bitmap;
      })

-- bitmap[i] & (0x80 >> (offset % 8)) != 0
unfoldable pub window_bit : Bytes → ℕ → Result Bool
unfolding index
window_bit bitmap offset =
    if ltb (offset / 8) (length bitmap)
    then (do b ← index bitmap (offset / 8); ok ((b / 2 ^ (7 - offset % 8)) % 2 == 1))
    else ok false

-- The loop of typeInBitmap: every round cuts two bytes or more off.
unfoldable pub bitmap_loop : ℕ → Bytes → ℕ → Result Bool
unfolding index slice window_bit
bitmap_loop zero buf t = err out_of_fuel
bitmap_loop (suc fuel) buf t = if ltb (length buf) 2 then ok false else do
  window ← index buf 0
  n ← index buf 1
  if ltb (length buf) (2 + n) then ok false else do
    bitmap ← slice buf 2 (2 + n)
    rest ← slice_from buf (2 + n)
    let more = bitmap_loop fuel rest t
    if window == t / 256 then window_bit bitmap (t % 256) else more

unfoldable pub type_in_bitmap : Bytes → ℕ → Result Bool
unfolding bitmap_loop
type_in_bitmap buf t = bitmap_loop (suc (length buf)) buf t

-- The value and `err == nil` of the As functions.
abbrev pub found {ℓ} : {A : Type ℓ} → Result A → Option A
found (ok a) = some a
found (err e) = none

unfoldable pub as_dnskey : Rr → Option Dnskey
unfolding parse_dnskey
as_dnskey rr = if rr.type == type_dnskey then found (parse_dnskey rr.raw) else none

unfoldable pub as_ds : Rr → Option Ds
unfolding parse_ds
as_ds rr = if rr.type == type_ds then found (parse_ds rr.raw) else none

unfoldable pub as_rrsig : Rr → Option Rrsig
unfolding parse_rrsig
as_rrsig rr = if rr.type == type_rrsig then found (parse_rrsig rr.raw) else none

unfoldable pub as_nsec : Rr → Option Nsec
unfolding parse_nsec
as_nsec rr = if rr.type == type_nsec then found (parse_nsec rr.raw) else none

unfoldable pub as_nsec3 : Rr → Option Nsec3
unfolding parse_nsec3
as_nsec3 rr = if rr.type == type_nsec3 then found (parse_nsec3 rr.raw) else none

-- (*DNSKEY).rdata and keyRDATA
unfoldable pub key_rdata : Dnskey → Bytes
key_rdata k = (k.flags / 256) % 256 ∷ k.flags % 256 ∷ k.protocol ∷ k.algorithm ∷ k.public_key

-- The loop of KeyTag; `even` is i&1 == 0, and the sum is a uint32.
unfoldable pub tag_sum : Bytes → Bool → ℕ → ℕ
tag_sum [] even sum = sum
tag_sum (b ∷ bs) true sum = tag_sum bs false ((sum + b * 256) % 2 ^ 32)
tag_sum (b ∷ bs) false sum = tag_sum bs true ((sum + b) % 2 ^ 32)

unfoldable pub key_tag : Dnskey → ℕ
unfolding key_rdata tag_sum
key_tag k =
    let sum = tag_sum (key_rdata k) true 0 in (((sum + (sum / 2 ^ 16) % 2 ^ 16)) % 2 ^ 32) % 2 ^ 16

-- k.Flags & DNSKEYFlagZoneKey != 0
unfoldable pub is_zone_key : Dnskey → Bool
is_zone_key k = (k.flags / 256) % 2 == 1
