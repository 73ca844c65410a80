-- ===== src/Resolver/Replies/Matching.antt =====
-- What a reply has to be for unpackAndVerify of resolver/resolver.go to accept it.
use dns_resolver.Dnsmsg.Decode.{unpack}
use dns_resolver.Text.Split.{eqb_iff}
use dns_resolver.Prelude.{
  Bool, ℕ, List, Bytes, ◌≡◌, not, true, ◌||◌, ok, ◌∷◌, ◌↔◌, [], arith, false, after_step, refl,
  after_guard, subst, ==_iff, then_step, then_guard, sym,
}
use dns_resolver.Resolver.Replies.{asks_for, unpack_and_verify, first_question}
use dns_resolver.Dnsmsg.{Message, Question, class_in}
use dns_resolver.Text.{Unicode, equal_name, eqb}

module _ ⦃u : Unicode⦄ where
  -- The message answers the query that was sent.
  pub record IsReply (msg : Message) (id : ℕ) (qname : Bytes) (qtype : ℕ) (strict : Bool)
      : Type 0 where
    pub question : Question
    pub same_id : msg.header.id ≡ id
    pub response : msg.header.qr ≡ true
    pub alone : msg.questions ≡ question ∷ []
    pub same_name : equal_name question.name qname ≡ true
    pub same_type : question.type ≡ qtype
    pub same_case : strict ≡ true → question.name ≡ qname
    pub internet : question.class ≡ class_in

  asks_for-alone :
      (qs : List Question) (qname : Bytes) (qtype : ℕ)
      → asks_for qs qname qtype ≡ true
      → (q : Question) × (qs ≡ q ∷ []) × (equal_name q.name qname ≡ true) × (q.type ≡ qtype)
  unfolding asks_for
  asks_for-alone [] qname qtype h = absurd (cc)
  asks_for-alone (q ∷ []) qname qtype h = (q, refl, ground arith, ground arith)
  asks_for-alone (q ∷ r ∷ qs) qname qtype h = absurd (cc)

  alone-asks_for :
      (q : Question) (qname : Bytes) (qtype : ℕ)
      → equal_name q.name qname ≡ true
      → q.type ≡ qtype
      → asks_for (q ∷ []) qname qtype ≡ true
  unfolding asks_for
  alone-asks_for q qname qtype e t = ground (arith, e, t)

  case_kept :
      (strict : Bool) (a b : Bytes) → (not strict || eqb a b ≡ true) ↔ (strict ≡ true → a ≡ b)
  case_kept true a b = (λ h s. (eqb_iff a b).0 h, λ f. (eqb_iff a b).1 (f refl))
  case_kept false a b = (λ h s. absurd (cc), λ f. refl)

  -- unpackAndVerify accepts a packet just when it is a message, with the ID of the query, that is a
  -- response and has one question: that of the query, in class IN, and in the case that was sent
  -- where case counts.
  pub unpack_and_verify_iff :
      (buf : Bytes) (id : ℕ) (qname : Bytes) (qtype : ℕ) (strict : Bool) (msg : Message)
      → (unpack_and_verify buf id qname qtype strict ≡ ok msg)
        ↔ ((unpack buf ≡ ok msg) × IsReply msg id qname qtype strict)
  unfolding unpack_and_verify first_question
  unpack_and_verify_iff buf id qname qtype strict msg = (
    λ h.
        let (m, e, h1) = after_step _ _ h in
        let (same_id, h2) = after_guard _ _ _ h1 in
        let (response, h3) = after_guard _ _ _ h2 in
        let (asked, h4) = after_guard _ _ _ h3 in
        let (q, first, h5) = after_step _ _ h4 in
        let (kept, h6) = after_guard _ _ _ h5 in
        let (internet, h7) = after_guard _ _ _ h6 in
        let same : m ≡ msg = cc in
        let (p, alone, name, type) = asks_for-alone m.questions qname qtype asked in
        let one : p ≡ q = the_first m.questions p q alone first in
        (
          subst (λ x. unpack buf ≡ ok x) same e,
          subst (λ x. IsReply x id qname qtype strict) same
              (record {
                question = p;
                same_id = (==_iff _ _).0 same_id;
                response = response;
                alone = alone;
                same_name = name;
                same_type = type;
                same_case = (case_kept strict p.name qname).0 (rw one kept);
                internet = (==_iff _ _).0 (rw one internet);
              }),
        ),
    λ r.
        let (e, i) = r in
        then_step _ _ e (
          then_guard _ _ _ ((==_iff _ _).1 i.same_id) (
            then_guard _ _ _ i.response (
              then_guard _ _ _
                (subst (λ qs. asks_for qs qname qtype ≡ true) (sym i.alone)
                  (alone-asks_for i.question qname qtype i.same_name i.same_type))
                (then_step _ _ (subst (λ qs. first_question qs ≡ ok i.question) (sym i.alone) refl)
                  (then_guard _ _ _ ((case_kept strict i.question.name qname).1 i.same_case)
                    (then_guard _ _ _ ((==_iff _ _).1 i.internet) refl)))))),
  )
    where
      the_first :
          (qs : List Question) (p q : Question) → qs ≡ p ∷ [] → first_question qs ≡ ok q → p ≡ q
      the_first [] p q a f = absurd (cc)
      the_first (x ∷ xs) p q a f = cc
