-- ===== src/Acl/Addresses.antt =====
-- addrIP of middleware/acl/acl.go: the address of a client.
use dns_resolver.Text.Split.{eqb_iff}
use dns_resolver.Signature.{mapped_prefix}
use dns_resolver.Text.{eqb}
use dns_resolver.Acl.{Peer, Ip, addr_ip, unmapped, udp, tcp, from_slice, v4, unmap, v6, other}
use dns_resolver.Prelude.{
  ◌≡◌, some, true, ◌⊎◌, ◌↔◌, ◌∷◌, [], inl, subst, inr, false, refl, Bytes, length, take, ◌==◌, ◌≢◌,
  Bool-cases, ==_iff, drop, arith, ◌++◌, ap, sym, ◌∙◌, ℕ, length-drop, suc, zero,
}

-- The address that stands in the bytes of a peer: 4 bytes are IPv4, also behind ::ffff:0:0/96, and
-- any other 16 are IPv6.
pub data IsAddress : Bytes → Ip → Type 0 where
  ipv4 : {raw : Bytes} → length raw ≡ 4 → IsAddress raw (v4 raw)
  wrapped :
      {raw : Bytes}
      → length raw ≡ 4
      → IsAddress (0 ∷ 0 ∷ 0 ∷ 0 ∷ 0 ∷ 0 ∷ 0 ∷ 0 ∷ 0 ∷ 0 ∷ 255 ∷ 255 ∷ raw) (v4 raw)
  ipv6 :
      {raw : Bytes}
      → length raw ≡ 16
      → take 12 raw ≢ 0 ∷ 0 ∷ 0 ∷ 0 ∷ 0 ∷ 0 ∷ 0 ∷ 0 ∷ 0 ∷ 0 ∷ 255 ∷ 255 ∷ []
      → IsAddress raw (v6 raw)

-- A peer over UDP or TCP, at the address.
abbrev pub SpeaksFrom : Peer → Ip → Type 0
SpeaksFrom peer ip = (raw : Bytes) × ((peer ≡ udp raw) ⊎ (peer ≡ tcp raw)) × IsAddress raw ip

take-drop : (n : ℕ) (xs : Bytes) → take n xs ++ drop n xs ≡ xs
take-drop zero xs = refl
take-drop (suc n) [] = refl
take-drop (suc n) (x ∷ xs) = ap (◌∷◌ x) (take-drop n xs)

slice-IsAddress : (raw : Bytes) (ip : Ip) → unmapped (from_slice raw) ≡ some ip → IsAddress raw ip
unfolding unmapped from_slice unmap
slice-IsAddress raw ip h = elim (Bool-cases (length raw == 4)) [
  | inl four ↦
      let same : v4 raw ≡ ip = ground arith in
      subst (IsAddress raw) same (ipv4 ((==_iff (length raw) 4).0 four))
  | inr longer ↦ elim (Bool-cases (length raw == 16)) [
    | inr neither ↦ absurd (ground (arith, longer, neither))
    | inl sixteen ↦ by_prefix ((==_iff (length raw) 16).0 sixteen) longer sixteen
  ]
]
  where
    by_prefix :
        length raw ≡ 16 → (length raw == 4) ≡ false → (length raw == 16) ≡ true → IsAddress raw ip
    by_prefix n longer sixteen = elim (Bool-cases (eqb (take 12 raw) mapped_prefix)) [
      | inl mapped ↦
          let same : v4 (drop 12 raw) ≡ ip = ground arith in
          let front = (eqb_iff (take 12 raw) mapped_prefix).0 mapped in
          let whole : mapped_prefix ++ drop 12 raw ≡ raw =
            ap (λ l. l ++ drop 12 raw) (sym front) ∙ take-drop 12 raw in
          let rest : length (drop 12 raw) ≡ 4 = omega (arith, length-drop 12 raw, n) in
          subst (λ r. IsAddress r ip) whole
            (subst (IsAddress (mapped_prefix ++ drop 12 raw)) same (wrapped rest))
      | inr plain ↦
          let same : v6 raw ≡ ip = ground arith in
          subst (IsAddress raw) same (
            ipv6 n (λ e. absurd (ground (arith, (eqb_iff (take 12 raw) mapped_prefix).1 e, plain))))
    ]

from_slice_ipv6 : (raw : Bytes) → length raw ≡ 16 → from_slice raw ≡ some (v6 raw)
unfolding from_slice
from_slice_ipv6 raw n = ground (arith, n)

IsAddress-slice : {raw : Bytes} {ip : Ip} → IsAddress raw ip → unmapped (from_slice raw) ≡ some ip
unfolding unmapped unmap
IsAddress-slice (ipv4 {raw} n) = unfold from_slice in ground (arith, n)
IsAddress-slice (wrapped {raw} n) =
    ap unmapped
      (from_slice_ipv6 (0 ∷ 0 ∷ 0 ∷ 0 ∷ 0 ∷ 0 ∷ 0 ∷ 0 ∷ 0 ∷ 0 ∷ 255 ∷ 255 ∷ raw) (omega (arith, n)))
IsAddress-slice (ipv6 {raw} n plain) = ap unmapped (from_slice_ipv6 raw n) ∙ ap some still
  where
    still : unmap (v6 raw) ≡ v6 raw
    still = elim (Bool-cases (eqb (take 12 raw) mapped_prefix)) [
      | inl mapped ↦ absurd (plain ((eqb_iff (take 12 raw) mapped_prefix).0 mapped))
      | inr apart ↦ rw apart refl
    ]

pub addr_ip-SpeaksFrom : (peer : Peer) (ip : Ip) → (addr_ip peer ≡ some ip) ↔ SpeaksFrom peer ip
unfolding addr_ip
addr_ip-SpeaksFrom (udp raw) ip = (
  λ h. (raw, inl refl, slice-IsAddress raw ip h),
  λ h.
      let (own, which, found) = h in
      let is : own ≡ raw = elim which [ inl e ↦ cc | inr e ↦ absurd (cc) ] in
      IsAddress-slice (subst (λ r. IsAddress r ip) is found),
)
addr_ip-SpeaksFrom (tcp raw) ip = (
  λ h. (raw, inr refl, slice-IsAddress raw ip h),
  λ h.
      let (own, which, found) = h in
      let is : own ≡ raw = elim which [ inl e ↦ absurd (cc) | inr e ↦ cc ] in
      IsAddress-slice (subst (λ r. IsAddress r ip) is found),
)
addr_ip-SpeaksFrom other ip = (
  λ h. absurd (cc),
  λ h. let (own, which, found) = h in elim which [ inl e ↦ absurd (cc) | inr e ↦ absurd (cc) ],
)
