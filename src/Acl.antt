-- ===== src/Acl.antt =====
-- middleware/acl/acl.go. The wrapped handler is the list of messages that it writes. An address
-- and a prefix are those of Go's net/netip, without zones.
pub mod Addresses
pub mod Access
use dns_resolver.Signature.{mapped_prefix}
use dns_resolver.Dnsmsg.{Message, zero_header, rcode_refused}
use dns_resolver.Signature.Checks.{number_from}
use dns_resolver.Text.{eqb}
use dns_resolver.Prelude.{
  Bytes, ℕ, List, Option, if◌then◌else◌, Bool, ◌∷◌, some, none, length, take, ◌/◌, [], false, true,
  ◌==◌, ◌^◌, ◌-◌, drop,
}

-- net.Addr: the address of a UDP or TCP peer, a byte slice, or another kind.
pub data Peer : Type 0 where
  udp tcp : Bytes → Peer
  other : Peer

-- netip.Addr
pub data Ip : Type 0 where
  v4 v6 : Bytes → Ip

pub record Prefix : Type 0 where
  pub ip : Ip
  pub bits : ℕ

-- netip.AddrFromSlice
unfoldable pub from_slice : Bytes → Option Ip
from_slice raw =
    if length raw == 4 then some (v4 raw) else if length raw == 16 then some (v6 raw) else none

-- Unmap
unfoldable pub unmap : Ip → Ip
unfolding eqb
unmap (v4 raw) = v4 raw
unmap (v6 raw) = if eqb (take 12 raw) mapped_prefix then v4 (drop 12 raw) else v6 raw

-- Contains of a netip.Prefix: the same family, and the same first bits.
unfoldable pub contains : Prefix → Ip → Bool
unfolding number_from
contains p ip = elim p.ip [
  | v4 base ↦ elim ip [
    | v4 raw ↦ number_from 0 base / 2 ^ (32 - p.bits) == number_from 0 raw / 2 ^ (32 - p.bits)
    | v6 raw ↦ false
  ]
  | v6 base ↦ elim ip [
    | v4 raw ↦ false
    | v6 raw ↦ number_from 0 base / 2 ^ (128 - p.bits) == number_from 0 raw / 2 ^ (128 - p.bits)
  ]
]

-- LoopbackOnly
abbrev pub loopback_only : List Prefix
loopback_only =
    record { ip = v4 (127 ∷ 0 ∷ 0 ∷ 0 ∷ []); bits = 8 }
    ∷ record {
      ip = v6 (0 ∷ 0 ∷ 0 ∷ 0 ∷ 0 ∷ 0 ∷ 0 ∷ 0 ∷ 0 ∷ 0 ∷ 0 ∷ 0 ∷ 0 ∷ 0 ∷ 0 ∷ 1 ∷ []);
      bits = 128;
    }
    ∷ []

-- The address of the slice, as addrIP returns it.
unfoldable pub unmapped : Option Ip → Option Ip
unfolding unmap
unmapped none = none
unmapped (some ip) = some (unmap ip)

unfoldable pub addr_ip : Peer → Option Ip
unfolding from_slice unmapped
addr_ip (udp raw) = unmapped (from_slice raw)
addr_ip (tcp raw) = unmapped (from_slice raw)
addr_ip other = none

-- The loop of permits.
unfoldable pub permits_ip : List Prefix → Ip → Bool
unfolding contains
permits_ip [] ip = false
permits_ip (p ∷ ps) ip = if contains p ip then true else permits_ip ps ip

unfoldable pub permits : List Prefix → Peer → Bool
unfolding addr_ip permits_ip
permits allowed peer = elim (addr_ip peer) [ none ↦ false | some ip ↦ permits_ip allowed ip ]

-- What ServeDNS writes to a client that is not allowed.
abbrev pub refusal : Message → Message
refusal req = record {
  header = record zero_header {
    id = req.header.id;
    qr = true;
    opcode = req.header.opcode;
    rd = req.header.rd;
    rcode = rcode_refused;
  };
  questions = req.questions;
  answers = [];
  authorities = [];
  additionals = [];
}

-- ServeDNS: what is written to the client.
unfoldable pub serve : List Prefix → (Message → List Message) → Peer → Message → List Message
unfolding permits
serve allowed next peer req = if permits allowed peer then next req else refusal req ∷ []
