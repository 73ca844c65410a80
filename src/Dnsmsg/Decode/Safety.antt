-- ===== src/Dnsmsg/Decode/Safety.antt =====
-- A rule for each way to build a reader, and the readers of dnsmsg/decode.go up to the records.
use dns_resolver.Dnsmsg.Decode.{
  ◌>>=◌, pure, lift, offset, read_header, read_question, read_soa, read_times,
}
use dns_resolver.Prelude.{
  ℕ, zero, suc, ◌+◌, ◌*◌, ◌≤◌, ◌≡◌, refl, ap, Bool, true, false, arith, Bytes, All, if◌then◌else◌,
  length, Error, is_fault, Result, guard, Ensures, Ensures-ok, Ensures-err, Ensures-map, ok, err,
  returns, fails, inl, inr, List, [], ◌∷◌, ltb, Bool-cases, Ensures-bind,
}
use dns_resolver.Dnsmsg.{Question}
use dns_resolver.Dnsmsg.Wire.{Decoder}
use dns_resolver.Text.{eqb, split, trim_dot}
use dns_resolver.Dnsmsg.Name.{max_name_length, bad_length, encode_labels, encode_name}
use dns_resolver.Dnsmsg.Wire.Names.{IsName, read_name-Reads}
use dns_resolver.Dnsmsg.Wire.Safety.{
  Reads, Any, read_uint8-Reads, read_uint16-Reads, read_uint32-Reads,
}
use dns_resolver.Dnsmsg.{Question}

module _ {A B : Type 0} {P : A → Type 0} {Q : B → Type 0} where
  pub Reads-bind :
      {j k : ℕ} {m : Decoder A} {f : A → Decoder B}
      → Reads j P m
      → ((a : A) → P a → Reads k Q (f a))
      → Reads (j + k) Q (m >>= f)
  Reads-bind {j} {k} {m} {f} rm rf = record {
    at = λ buf off h. go buf off (m buf off) (rm.at buf off h);
  }
    where
      go :
          (buf : Bytes) (off : ℕ) (r : Result (A × ℕ))
          → Ensures (λ r. (off + j ≤ r.1) × (r.1 ≤ length buf) × P r.0) r
          → Ensures
              (λ r. (off + (j + k) ≤ r.1) × (r.1 ≤ length buf) × Q r.0)
              (elim r [ ok r ↦ f r.0 buf r.1 | err e ↦ err e ])
      go buf off (ok r) e =
          let (low, high, p) = Ensures-ok e refl in
          Ensures-map (λ r' post. (omega arith, post.1, post.2)) ((rf r.0 p).at buf r.1 high)
      go buf off (err e) en = fails (Ensures-err en refl)

module _ {A : Type 0} {P : A → Type 0} where
  pub Reads-weaken : {k n : ℕ} {m : Decoder A} → Reads k P m → n ≤ k → Reads n P m
  Reads-weaken r le = record {
    at = λ buf off h. Ensures-map (λ x post. (omega arith, post.1, post.2)) (r.at buf off h);
  }

  pub Reads-pure : {a : A} → P a → Reads 0 P (pure a)
  Reads-pure p = record { at = λ buf off h. returns (omega arith, h, p) }

  pub Reads-lift : {r : Result A} → Ensures P r → Reads 0 P (lift r)
  Reads-lift {r} e = record { at = λ buf off h. go buf off h r e }
    where
      go :
          (buf : Bytes) (off : ℕ)
          → off ≤ length buf
          → (r : Result A) → Ensures P r
          → Ensures (λ r. (off + 0 ≤ r.1) × (r.1 ≤ length buf) × P r.0) (lift r buf off)
      go buf off h (ok a) e = returns (omega arith, h, Ensures-ok e refl)
      go buf off h (err x) e = fails (Ensures-err e refl)

  pub Reads-if :
      {k : ℕ} (b : Bool) {m n : Decoder A}
      → (b ≡ true → Reads k P m)
      → (b ≡ false → Reads k P n)
      → Reads k P (if b then m else n)
  Reads-if true rm rn = rm refl
  Reads-if false rm rn = rn refl

pub Reads-offset : Reads 0 Any offset
Reads-offset = record { at = λ buf off h. returns (omega arith, h, tt) }

pub guard-Ensures :
    (b : Bool) (e : Error) → is_fault e ≡ false → Ensures (λ _. b ≡ true) (guard b e)
guard-Ensures true e h = returns refl
guard-Ensures false e h = fails h

-- A repeated reader takes its bytes as often, and gives as many values.
pub read_times-Reads :
    {A : Type 0} {P : A → Type 0} {k : ℕ} {m : Decoder A} (n : ℕ)
    → Reads k P m
    → Reads (n * k) (λ xs. (length xs ≡ n) × All P xs) (read_times n m)
unfolding read_times
read_times-Reads zero r = Reads-weaken (Reads-pure (refl, tt)) (omega arith)
read_times-Reads {k} (suc n) r =
    Reads-weaken
      (Reads-bind r
        λ x px. Reads-bind (read_times-Reads n r) λ xs pxs. Reads-pure (ap suc pxs.0, (px, pxs.1)))
      (grind arith)

pub read_header-Reads : Reads 12 Any read_header
unfolding read_header
read_header-Reads = Reads-bind read_uint16-Reads λ id _. Reads-bind read_uint8-Reads λ flags1 _.
    Reads-bind read_uint8-Reads λ flags2 _. Reads-bind read_uint16-Reads λ qd _.
      Reads-bind read_uint16-Reads λ an _.
        Reads-bind read_uint16-Reads λ ns _. Reads-bind read_uint16-Reads λ ar _. Reads-pure tt

abbrev pub QuestionPost : Question → Type 0
QuestionPost q = IsName q.name

pub read_question-Reads : Reads 5 QuestionPost read_question
unfolding read_question
read_question-Reads = Reads-bind read_name-Reads λ name h.
    Reads-bind read_uint16-Reads λ type _. Reads-bind read_uint16-Reads λ class _. Reads-pure h

pub read_soa-Reads : Reads 22 (λ soa. IsName soa.mname × IsName soa.rname) read_soa
unfolding read_soa
read_soa-Reads = Reads-bind read_name-Reads λ mname hm. Reads-bind read_name-Reads λ rname hr.
    Reads-bind read_uint32-Reads λ serial _. Reads-bind read_uint32-Reads λ refresh _.
      Reads-bind read_uint32-Reads λ retry _.
        Reads-bind read_uint32-Reads
          λ expire _. Reads-bind read_uint32-Reads λ minimum _. Reads-pure (hm, hr)

encode_labels-Ensures : (ls : List Bytes) → Ensures Any (encode_labels ls)
unfolding encode_labels
encode_labels-Ensures [] = returns tt
encode_labels-Ensures (l ∷ ls) = elim (Bool-cases (bad_length l)) [
  | inl e ↦ rw e (fails refl)
  | inr e ↦ rw e (Ensures-bind _ (encode_labels-Ensures ls) λ rest _. returns tt)
]

pub encode_name-Ensures : (name : Bytes) → Ensures Any (encode_name name)
unfolding encode_name
encode_name-Ensures name = elim (Bool-cases (ltb max_name_length (length name))) [
  | inl e ↦ rw e (fails refl)
  | inr e ↦ elim (Bool-cases (eqb (trim_dot name) [])) [
    | inl f ↦ rw (e, f) (returns tt)
    | inr f ↦ rw (e, f) (encode_labels-Ensures (split (trim_dot name)))
  ]
]
