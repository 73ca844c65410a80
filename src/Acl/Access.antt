-- ===== src/Acl/Access.antt =====
-- Who is answered by middleware/acl/acl.go.
use dns_resolver.Acl.Addresses.{SpeaksFrom, addr_ip-SpeaksFrom}
use dns_resolver.Dnsmsg.{Message}
use dns_resolver.Acl.{permits_ip, serve, Prefix, permits, Peer, Ip, addr_ip, contains, refusal}
use dns_resolver.Prelude.{
  List, Member, ◌≡◌, some, true, ◌⊎◌, ◌↔◌, ◌∷◌, Bool, [], if◌then◌else◌, inl, subst, inr, false,
  Option, refl, none,
}

-- A prefix of the list holds the address that addrIP makes of the client's.
abbrev Permitted : List Prefix → Peer → Type 0
Permitted allowed peer =
    (ip : Ip) × (p : Prefix) × (addr_ip peer ≡ some ip) × Member p allowed × (contains p ip ≡ true)

-- What is decided of an address.
Holds : List Prefix → Ip → Type 0
Holds allowed ip = (p : Prefix) × Member p allowed × (contains p ip ≡ true)

permits_ip-Holds :
    (allowed : List Prefix) (ip : Ip) → (permits_ip allowed ip ≡ true) ↔ Holds allowed ip
unfolding permits_ip Holds
permits_ip-Holds [] ip = (λ h. absurd (cc), λ h. absurd (h.1))
permits_ip-Holds (p ∷ ps) ip =
    let (to, from) = permits_ip-Holds ps ip in by_test (contains p ip) refl to from
  where
    by_test :
        (b : Bool)
        → contains p ip ≡ b
        → (permits_ip ps ip ≡ true → Holds ps ip)
        → (Holds ps ip → permits_ip ps ip ≡ true)
        → ((if b then true else permits_ip ps ip) ≡ true) ↔ Holds (p ∷ ps) ip
    by_test true e to from = (λ h. (p, inl refl, e), λ h. refl)
    by_test false e to from =
        (λ h. let (q, m, k) = to h in (q, inr m, k), λ h. let (q, m, k) = h in from (rest q m k))
      where
        rest : (q : Prefix) → Member q (p ∷ ps) → contains q ip ≡ true → Holds ps ip
        rest q (inl same) k =
            let f : contains p ip ≡ true = subst (λ x. contains x ip ≡ true) same k in absurd (cc)
        rest q (inr m) k = (q, m, k)

serve-Permitted :
    (allowed : List Prefix) (next : Message → List Message) (peer : Peer) (req : Message)
    → (Permitted allowed peer × (serve allowed next peer req ≡ next req))
      ⊎ ((Permitted allowed peer → ⊥) × (serve allowed next peer req ≡ refusal req ∷ []))
unfolding serve permits Holds
serve-Permitted allowed next peer req = by_address (addr_ip peer) refl
  where
    by_verdict :
        (ip : Ip) (b : Bool)
        → addr_ip peer ≡ some ip
        → permits_ip allowed ip ≡ b
        → (Permitted allowed peer × ((if b then next req else refusal req ∷ []) ≡ next req))
          ⊎ ((Permitted allowed peer → ⊥)
              × ((if b then next req else refusal req ∷ []) ≡ refusal req ∷ []))
    by_verdict ip true e v =
        let (p, m, k) = (permits_ip-Holds allowed ip).0 v in inl ((ip, p, e, m, k), refl)
    by_verdict ip false e v = inr (
      λ l.
          let (jp, p, ej, m, k) = l in
          let same : jp ≡ ip = cc in
          let allowed_ip : permits_ip allowed ip ≡ true =
            (permits_ip-Holds allowed ip).1 (p, m, subst (λ x. contains p x ≡ true) same k) in
          absurd (cc),
      refl,
    )

    by_address :
        (o : Option Ip)
        → addr_ip peer ≡ o
        → (let b : Bool = elim o [ none ↦ false | some ip ↦ permits_ip allowed ip ] in
            (Permitted allowed peer × ((if b then next req else refusal req ∷ []) ≡ next req))
            ⊎ ((Permitted allowed peer → ⊥)
                × ((if b then next req else refusal req ∷ []) ≡ refusal req ∷ [])))
    by_address none e = inr (λ l. let (jp, p, ej, m, k) = l in absurd (cc), refl)
    by_address (some ip) e = by_verdict ip (permits_ip allowed ip) e refl

-- A prefix of the list holds the client's address.
abbrev pub Listed : List Prefix → Peer → Type 0
Listed allowed peer =
    (ip : Ip) × (p : Prefix) × SpeaksFrom peer ip × Member p allowed × (contains p ip ≡ true)

-- One message: REFUSED, with the query's ID, opcode, RD and questions, and no records.
pub record IsRefusal (req : Message) (sent : List Message) : Type 0 where
  pub message : Message
  pub alone : sent ≡ message ∷ []
  pub id : message.header.id ≡ req.header.id
  pub response : message.header.qr ≡ true
  pub code : message.header.rcode ≡ 5
  pub opcode : message.header.opcode ≡ req.header.opcode
  pub rd : message.header.rd ≡ req.header.rd
  pub questions : message.questions ≡ req.questions
  pub answers : message.answers ≡ []
  pub authorities : message.authorities ≡ []
  pub additionals : message.additionals ≡ []

-- A client over UDP or TCP is answered by the wrapped handler just when its address, with IPv4 in
-- IPv6 unwrapped, is in a prefix of the list; any other client gets one message, REFUSED, with its
-- own ID, opcode, RD and questions, and no records.
pub serve-Listed :
    (allowed : List Prefix) (next : Message → List Message) (peer : Peer) (req : Message)
    → (Listed allowed peer × (serve allowed next peer req ≡ next req))
      ⊎ ((Listed allowed peer → ⊥) × IsRefusal req (serve allowed next peer req))
serve-Listed allowed next peer req = elim (serve-Permitted allowed next peer req) [
  | inl ((ip, p, e, m, k), sent) ↦ inl ((ip, p, (addr_ip-SpeaksFrom peer ip).0 e, m, k), sent)
  | inr (denied, sent) ↦ inr (
    λ l. let (ip, p, e, m, k) = l in denied (ip, p, (addr_ip-SpeaksFrom peer ip).1 e, m, k),
    record {
      message = refusal req;
      alone = sent;
      id = refl;
      response = refl;
      code = refl;
      opcode = refl;
      rd = refl;
      questions = refl;
      answers = refl;
      authorities = refl;
      additionals = refl;
    },
  )
]
