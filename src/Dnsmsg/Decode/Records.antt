-- ===== src/Dnsmsg/Decode/Records.antt =====
-- readRR of dnsmsg/decode.go, for any bytes.
use dns_resolver.Dnsmsg.Decode.{◌>>=◌, ◌>>◌}
use dns_resolver.Dnsmsg.Wire.{read_name, read_bytes}
use dns_resolver.Dnsmsg.Decode.Safety.{
  Reads-bind, Reads-weaken, Reads-offset, Reads-lift, Reads-pure, encode_name-Ensures,
  read_soa-Reads, guard-Ensures,
}
use dns_resolver.Dnsmsg.Wire.Names.{IsName, read_name-Reads}
use dns_resolver.Dnsmsg.Wire.Safety.{
  Reads, Any, read_uint16-Reads, read_uint32-Reads, read_bytes-Reads,
}
use dns_resolver.Prelude.{
  ℕ, ◌≡◌, Bytes, ◌==◌, Bool-cases, subst, length, false, inl, sym, arith, guard, ◌∙◌, bad_rdlength,
  inr, ◌+◌, ◌||◌, refl,
}
use dns_resolver.Dnsmsg.{Rr, type_a, type_aaaa, type_ns, type_cname, type_mx, type_soa, type_ptr}
use dns_resolver.Dnsmsg.Decode.{
  read_mx_prefix, read_exchange, read_rr_head, read_rr, read_rdata, lift, pure,
}

read_mx_prefix-Reads : (type : ℕ) → Reads 0 Any (read_mx_prefix type)
unfolding read_mx_prefix
read_mx_prefix-Reads type = elim (Bool-cases (type == type_mx)) [
  | inl e ↦
      rw e (
        Reads-weaken (Reads-bind {Q = Any} read_uint16-Reads λ pref _. Reads-pure tt) (omega arith))
  | inr e ↦ rw e (Reads-pure tt)
]

-- What the switch over the type fills in, for a record whose other fields are those of `head`.
pub record RdataPost (head rr : Rr) : Type 0 where
  pub same_name : rr.name ≡ head.name
  pub same_type : rr.type ≡ head.type
  pub address : head.type ≡ type_a → length rr.a ≡ 4
  pub address6 : head.type ≡ type_aaaa → length rr.aaaa ≡ 16
  pub server : head.type ≡ type_ns → IsName rr.ns
  pub alias : head.type ≡ type_cname → IsName rr.cname

-- A type that is none of the four makes the conditions empty.
other_type :
    (head rr : Rr)
    → rr.name ≡ head.name
    → rr.type ≡ head.type
    → (head.type == type_a) ≡ false
    → (head.type == type_aaaa) ≡ false
    → (head.type == type_ns) ≡ false
    → (head.type == type_cname) ≡ false
    → RdataPost head rr
other_type head rr n t a a6 ns cn = record {
  same_name = n;
  same_type = t;
  address = λ e. absurd (ground arith);
  address6 = λ e. absurd (ground arith);
  server = λ e. absurd (ground arith);
  alias = λ e. absurd (ground arith);
}

read_exchange-Reads :
    (head : Rr)
    → ((raw : Bytes) → RdataPost head (record head { raw = raw }))
    → Reads 0 (RdataPost head) (read_exchange head)
unfolding read_exchange
read_exchange-Reads head post = Reads-bind (read_mx_prefix-Reads head.type) λ prefix _.
    Reads-weaken {n = 0}
      (Reads-bind read_name-Reads
        λ n _. Reads-bind (Reads-lift (encode_name-Ensures n)) λ encoded _. Reads-pure (post _))
      (omega arith)

-- The branches for addresses.
module _ (head : Rr) where
  read_a-Reads :
      head.type ≡ type_a
      → Reads 0 (RdataPost head) (
          lift (guard (head.rd_length == 4) bad_rdlength)
          >> (read_bytes 4 >>= λ b. pure (record head { a = b })))
  read_a-Reads t =
      Reads-bind (Reads-lift (guard-Ensures (head.rd_length == 4) bad_rdlength refl)) λ _ _.
        Reads-weaken {n = 0}
          (Reads-bind (read_bytes-Reads 4) λ b h. Reads-pure (record {
            same_name = refl;
            same_type = refl;
            address = λ _. h;
            address6 = λ e. absurd (omega arith);
            server = λ e. absurd (omega arith);
            alias = λ e. absurd (omega arith);
          }))
          (omega arith)

  read_aaaa-Reads :
      head.type ≡ type_aaaa
      → Reads 0 (RdataPost head) (
          lift (guard (head.rd_length == 16) bad_rdlength)
          >> (read_bytes 16 >>= λ b. pure (record head { aaaa = b })))
  read_aaaa-Reads t =
      Reads-bind (Reads-lift (guard-Ensures (head.rd_length == 16) bad_rdlength refl)) λ _ _.
        Reads-weaken {n = 0}
          (Reads-bind (read_bytes-Reads 16) λ b h. Reads-pure (record {
            same_name = refl;
            same_type = refl;
            address = λ e. absurd (omega arith);
            address6 = λ _. h;
            server = λ e. absurd (omega arith);
            alias = λ e. absurd (omega arith);
          }))
          (omega arith)

  read_ns-Reads :
      head.type ≡ type_ns
      → Reads 0 (RdataPost head) (read_name >>= λ n. pure (record head { ns = n }))
  read_ns-Reads t =
      Reads-weaken {n = 0}
        (Reads-bind read_name-Reads λ n h. Reads-pure (record {
          same_name = refl;
          same_type = refl;
          address = λ e. absurd (omega arith);
          address6 = λ e. absurd (omega arith);
          server = λ _. h;
          alias = λ e. absurd (omega arith);
        }))
        (omega arith)

  read_cname-Reads :
      head.type ≡ type_cname
      → Reads 0 (RdataPost head) (read_name >>= λ n. pure (record head { cname = n }))
  read_cname-Reads t =
      Reads-weaken {n = 0}
        (Reads-bind read_name-Reads λ n h. Reads-pure (record {
          same_name = refl;
          same_type = refl;
          address = λ e. absurd (omega arith);
          address6 = λ e. absurd (omega arith);
          server = λ e. absurd (omega arith);
          alias = λ _. h;
        }))
        (omega arith)

  -- The branches for the other types.
  read_other-Reads :
      (head.type == type_a) ≡ false
      → (head.type == type_aaaa) ≡ false
      → (head.type == type_ns) ≡ false
      → (head.type == type_cname) ≡ false
      → Reads 0 (RdataPost head) (read_rdata head)
  unfolding read_rdata
  read_other-Reads a a6 ns cn = elim (Bool-cases (head.type == type_soa)) [
    | inl e ↦
        rw (a, a6, ns, cn, e)
          (Reads-weaken {n = 0}
            (Reads-bind read_soa-Reads λ soa _. Reads-pure (other_type head _ refl refl a a6 ns cn))
            (omega arith))
    | inr e ↦ elim (Bool-cases ((head.type == type_ptr) || (head.type == type_mx))) [
      | inl f ↦
          rw (a, a6, ns, cn, e, f)
            (read_exchange-Reads head λ raw. other_type head _ refl refl a a6 ns cn)
      | inr f ↦
          rw (a, a6, ns, cn, e, f)
            (Reads-weaken {n = 0}
              (Reads-bind (read_bytes-Reads head.rd_length)
                λ b _. Reads-pure (other_type head _ refl refl a a6 ns cn))
              (omega arith))
    ]
  ]

  pub read_rdata-Reads : Reads 0 (RdataPost head) (read_rdata head)
  unfolding read_rdata
  read_rdata-Reads = elim (Bool-cases (head.type == type_a)) [
    | inl a ↦ rw a (read_a-Reads (ground arith))
    | inr a ↦ elim (Bool-cases (head.type == type_aaaa)) [
      | inl a6 ↦ rw (a, a6) (read_aaaa-Reads (ground arith))
      | inr a6 ↦ elim (Bool-cases (head.type == type_ns)) [
        | inl ns ↦ rw (a, a6, ns) (read_ns-Reads (ground arith))
        | inr ns ↦ elim (Bool-cases (head.type == type_cname)) [
          | inl cn ↦ rw (a, a6, ns, cn) (read_cname-Reads (ground arith))
          | inr cn ↦ read_other-Reads a a6 ns cn
        ]
      ]
    ]
  ]

read_rr_head-Reads : Reads 11 (λ rr. IsName rr.name) read_rr_head
unfolding read_rr_head
read_rr_head-Reads = Reads-bind read_name-Reads λ name h. Reads-bind read_uint16-Reads λ type _.
    Reads-bind read_uint16-Reads λ class _.
      Reads-bind read_uint32-Reads λ ttl _. Reads-bind read_uint16-Reads λ rdlen _. Reads-pure h

-- A record as it was read: its names are names, and an address has its length.
pub record RrPost (rr : Rr) : Type 0 where
  pub owner : IsName rr.name
  pub address : rr.type ≡ type_a → length rr.a ≡ 4
  pub address6 : rr.type ≡ type_aaaa → length rr.aaaa ≡ 16
  pub server : rr.type ≡ type_ns → IsName rr.ns
  pub alias : rr.type ≡ type_cname → IsName rr.cname

RrPost-of_rdata : (head rr : Rr) → IsName head.name → RdataPost head rr → RrPost rr
RrPost-of_rdata head rr h p = record {
  owner = subst IsName (sym p.same_name) h;
  address = λ e. p.address (sym p.same_type ∙ e);
  address6 = λ e. p.address6 (sym p.same_type ∙ e);
  server = λ e. p.server (sym p.same_type ∙ e);
  alias = λ e. p.alias (sym p.same_type ∙ e);
}

pub read_rr-Reads : Reads 11 RrPost read_rr
unfolding read_rr
read_rr-Reads = Reads-bind read_rr_head-Reads λ head h. Reads-bind Reads-offset λ start _.
    Reads-bind (read_rdata-Reads head) λ rr p. Reads-bind Reads-offset λ stop _.
      Reads-bind (Reads-lift (guard-Ensures (stop == start + rr.rd_length) bad_rdlength refl))
        λ _ _. Reads-pure (RrPost-of_rdata head rr h p)
