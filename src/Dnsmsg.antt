-- ===== src/Dnsmsg.antt =====
-- The data of package dnsmsg (dnsmsg/message.go). The numeric fields are native numbers; the
-- width of each is a hypothesis where it matters. Pointers and slices that may be nil are
-- options and lists. The modules below hold the operations.
pub mod Name
pub mod Wire
pub mod Decode
pub mod Dnssec
pub mod Query
use dns_resolver.Prelude.{ℕ, ◌≡◌, ◌<◌, ◌≤◌, ◌*◌, Bool, false, Option, none, List, [], ◌∷◌, Bytes}

-- RRType
abbrev pub type_a : ℕ
type_a = 1

abbrev pub type_ns : ℕ
type_ns = 2

abbrev pub type_cname : ℕ
type_cname = 5

abbrev pub type_soa : ℕ
type_soa = 6

abbrev pub type_ptr : ℕ
type_ptr = 12

abbrev pub type_mx : ℕ
type_mx = 15

abbrev pub type_aaaa : ℕ
type_aaaa = 28

abbrev pub type_opt : ℕ
type_opt = 41

abbrev pub type_ds : ℕ
type_ds = 43

abbrev pub type_rrsig : ℕ
type_rrsig = 46

abbrev pub type_nsec : ℕ
type_nsec = 47

abbrev pub type_dnskey : ℕ
type_dnskey = 48

abbrev pub type_nsec3 : ℕ
type_nsec3 = 50

abbrev pub class_in : ℕ
class_in = 1

-- RCode
abbrev pub rcode_success : ℕ
rcode_success = 0

abbrev pub rcode_format_error : ℕ
rcode_format_error = 1

abbrev pub rcode_server_failure : ℕ
rcode_server_failure = 2

abbrev pub rcode_name_error : ℕ
rcode_name_error = 3

abbrev pub rcode_not_implemented : ℕ
rcode_not_implemented = 4

abbrev pub rcode_refused : ℕ
rcode_refused = 5

pub record Header : Type 0 where
  pub id : ℕ
  pub qr : Bool
  pub opcode : ℕ
  pub aa : Bool
  pub tc : Bool
  pub rd : Bool
  pub ra : Bool
  pub ad : Bool
  pub cd : Bool
  pub rcode : ℕ
  pub qd_count : ℕ
  pub an_count : ℕ
  pub ns_count : ℕ
  pub ar_count : ℕ

pub record Question : Type 0 where
  pub name : Bytes
  pub type : ℕ
  pub class : ℕ

pub record Soa : Type 0 where
  pub mname : Bytes
  pub rname : Bytes
  pub serial : ℕ
  pub refresh : ℕ
  pub retry : ℕ
  pub expire : ℕ
  pub minimum : ℕ

pub record Rr : Type 0 where
  pub name : Bytes
  pub type : ℕ
  pub class : ℕ
  pub ttl : ℕ
  pub rd_length : ℕ
  pub a : Bytes
  pub aaaa : Bytes
  pub ns : Bytes
  pub cname : Bytes
  pub soa : Option Soa
  pub raw : Bytes

pub record Message : Type 0 where
  pub header : Header
  pub questions : List Question
  pub answers : List Rr
  pub authorities : List Rr
  pub additionals : List Rr

-- The zero values of the structs.
abbrev pub zero_header : Header
zero_header = record {
  id = 0;
  qr = false;
  opcode = 0;
  aa = false;
  tc = false;
  rd = false;
  ra = false;
  ad = false;
  cd = false;
  rcode = 0;
  qd_count = 0;
  an_count = 0;
  ns_count = 0;
  ar_count = 0;
}

abbrev pub zero_rr : Rr
zero_rr = record {
  name = [];
  type = 0;
  class = 0;
  ttl = 0;
  rd_length = 0;
  a = [];
  aaaa = [];
  ns = [];
  cname = [];
  soa = none;
  raw = [];
}

-- Widths of the unsigned types of the structs.
abbrev pub IsU8 : ℕ → Type 0
IsU8 n = n < 256

abbrev pub IsU16 : ℕ → Type 0
IsU16 n = n < 65536

abbrev pub IsU32 : ℕ → Type 0
IsU32 n = n < 65536 * 65536
