-- ===== src/Resolver/Validation/Secure.antt =====
-- validateAnswer of resolver/validate.go: an answer that is called secure, down to the trust anchors.
use dns_resolver.Resolver.Validation.Cuts.{verifier-Trusted}
use dns_resolver.Resolver.Validation.Answers.{IsChecked, Covered, answer_loop-Covered}
use dns_resolver.Resolver.Validation.Trust.{Trusted}
use dns_resolver.Resolver.Validation.Descent.{Secured}
use dns_resolver.Text.Split.{eqb_iff}
use dns_resolver.Resolver.Validation.Chain.{Settings}
use dns_resolver.GoMap.{count}
use dns_resolver.Denial.Hashed.{Digest}
use dns_resolver.Prelude.{
  ◌≡◌, List, Bytes, ℕ, Member, true, map, ◌∷◌, inl, arith, Bool, if◌then◌else◌, ◌&&◌, All, ◌==◌, ok,
  ==_iff, subst, inr, Result, [], false, ◌≢◌, not, ◌||◌, All-member, sym, refl,
}
use dns_resolver.Signature.Checks.{Crypto}
use dns_resolver.Resolver.Validation.{
  records_of_type, Upstream, validate_answer, SecState, answer_loop,
}
use dns_resolver.Dnsmsg.{Rr, class_in, Message}
use dns_resolver.Text.{Unicode, normalize, equal_name, is_ascii, trim_dot, lower_byte}
use dns_resolver.Cache.{key_eq, Key}

module _ ⦃u : Unicode⦄ where
  -- What the walk asks of the records that it has validated, for names in ASCII.
  abbrev pub IsPlain : Rr → Type 0
  IsPlain rr = (rr.class ≡ class_in) × (is_ascii (trim_dot rr.name) ≡ true)

  same_name :
      (a b : Bytes)
      → is_ascii (trim_dot a) ≡ true
      → is_ascii (trim_dot b) ≡ true
      → normalize a ≡ normalize b
      → equal_name a b ≡ true
  unfolding normalize equal_name
  same_name a b p q h =
      let same : map lower_byte (trim_dot a) ≡ map lower_byte (trim_dot b) = ground (arith, h) in
      rw (p, q) ((eqb_iff (map lower_byte (trim_dot a)) (map lower_byte (trim_dot b))).1 same)

  Member-records_of_type :
      (rrs : List Rr) (rr : Rr) (qtype : ℕ) (name : Bytes)
      → Member rr rrs
      → rr.type ≡ qtype
      → rr.class ≡ class_in
      → equal_name rr.name name ≡ true
      → Member rr (records_of_type rrs qtype name)
  unfolding records_of_type
  Member-records_of_type [] rr qtype name m t k e = absurd m
  Member-records_of_type (x ∷ xs) rr qtype name (inl s) t k e =
      let a : (x.type == qtype) ≡ true = (==_iff _ _).1 (cc) in
      let b : (x.class == class_in) ≡ true = (==_iff _ _).1 (cc) in
      let d : equal_name x.name name ≡ true = subst (λ y. equal_name y.name name ≡ true) s e in
      in_front (x.type == qtype) (x.class == class_in) (equal_name x.name name) a b d
    where
      in_front :
          (a b d : Bool)
          → a ≡ true
          → b ≡ true
          → d ≡ true
          → Member rr (
              if a && (b && d)
              then x ∷ records_of_type xs qtype name
              else records_of_type xs qtype name)
      in_front true true true p q h = inl s
      in_front true true false p q h = absurd (cc)
      in_front true false d p q h = absurd (cc)
      in_front false b d p q h = absurd (cc)
  Member-records_of_type (x ∷ xs) rr qtype name (inr m) t k e =
      by_test (records_of_type xs qtype name)
        ((x.type == qtype) && ((x.class == class_in) && equal_name x.name name))
        (Member-records_of_type xs rr qtype name m t k e)
    where
      by_test : (l : List Rr) (b : Bool) → Member rr l → Member rr (if b then x ∷ l else l)
      by_test l true h = inr h
      by_test l false h = h

  module _ ⦃c : Crypto⦄ ⦃n : Upstream⦄ ⦃g : Digest⦄ where
    -- An answer that validateAnswer calls secure chains back to the trust anchors: where the state's
    -- keys are trusted or none, and the records are of class IN with names in ASCII, the keys are
    -- trusted, and every record is of a set that a signature of the answer and one of the keys
    -- verify; if it was made for a wildcard, signed records deny a closer name.
    pub validate_answer-secure :
        (r : Settings) (sec : SecState) (zone : Bytes) (resp : Message) (records : List Rr)
        (tick : ℕ)
        → Secured r zone sec
        → All IsPlain records
        → (validate_answer r.validate sec resp records tick).0 ≡ ok true
        → Trusted r (normalize zone) sec.keys
          × ((rr : Rr)
              → Member rr records
              → (first : Rr) × Member rr (records_of_type records first.type first.name)
                × IsChecked sec resp records first)
    unfolding validate_answer count
    validate_answer-secure r sec zone resp [] tick k plain h = absurd (cc)
    validate_answer-secure r sec zone resp (rr ∷ rrs) tick k plain h =
        let looped : (answer_loop sec resp (rr ∷ rrs) [] (rr ∷ rrs) tick).0 ≡ ok true =
          passed (answer_loop sec resp (rr ∷ rrs) [] (rr ∷ rrs) tick)
            (not r.validate || not sec.secure) h in
        let covered =
          answer_loop-Covered sec resp (rr ∷ rrs) [] (rr ∷ rrs) tick (λ x m. m) nothing_seen
            looped in
        let (first, m, e, t, checked) = covered rr (inl refl) in
        (
          verifier-Trusted sec.keys checked.set_verified k,
          λ x i.
              let (y, j, same, ty, ch) = covered x i in
              let px = All-member IsPlain (rr ∷ rrs) x plain i in
              let py = All-member IsPlain (rr ∷ rrs) y plain j in
              (
                y,
                Member-records_of_type (rr ∷ rrs) x y.type y.name i (sym ty) px.0
                    (same_name x.name y.name px.1 py.1 (sym same)),
                ch,
              ),
        )
      where
        passed :
            (p : Result Bool × ℕ) (b : Bool)
            → (let q : Result Bool × ℕ = if b then (ok false, tick) else p in q.0 ≡ ok true)
            → p.0 ≡ ok true
        passed p true q = absurd (cc)
        passed p false q = q

        nothing_seen : (j : Key) → count j [] ≢ 0 → Covered sec resp (rr ∷ rrs) j
        nothing_seen j m = absurd (m refl)
