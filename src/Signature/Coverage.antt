-- ===== src/Signature/Coverage.antt =====
-- What the signed bytes say of the records (signedData of dnssec/verify.go).
use dns_resolver.Denial.Hashed.{canonical_name}
use dns_resolver.Signature.Sorting.{Member-sorted, Ascending-unique, sorted-Ascending}
use dns_resolver.Dnsmsg.{Rr, class_in}
use dns_resolver.Dnsmsg.Dnssec.{Rrsig}
use dns_resolver.Dnsmsg.Decode.{uint16_bytes}
use dns_resolver.Signature.{
  signed_records, signed_data, unrepeated, sort, canonical_rdatas, uint32_bytes, signature_fields,
  signed_owner_name,
}
use dns_resolver.Prelude.{
  List, Bytes, ◌++◌, length, [], All, ◌≡◌, ◌≢◌, ◌<◌, ◌∷◌, ◌/◌, ◌↔◌, arith, ◌%◌, sym, inl, ok, refl,
  inr, subst, Result, ◌>>=◌, err, Member, All-member,
}

append_cancel : {A : Type 0} (xs ys zs : List A) → xs ++ ys ≡ xs ++ zs → ys ≡ zs
append_cancel [] ys zs h = h
append_cancel (x ∷ xs) ys zs h = append_cancel xs ys zs (cc)

-- Texts of one length in front come apart.
append-inj :
    {A : Type 0} (xs ys us vs : List A)
    → length xs ≡ length ys
    → xs ++ us ≡ ys ++ vs
    → (xs ≡ ys) × (us ≡ vs)
append-inj [] [] us vs n h = (refl, h)
append-inj [] (y ∷ ys) us vs n h = absurd (omega arith)
append-inj (x ∷ xs) [] us vs n h = absurd (omega arith)
append-inj (x ∷ xs) (y ∷ ys) us vs n h =
    let (p, q) = append-inj xs ys us vs (omega arith) (cc) in (cc, q)

not_empty : {A : Type 0} (xs ys : List A) (y : A) → [] ≢ xs ++ (y ∷ ys)
not_empty [] ys y h = absurd (cc)
not_empty (x ∷ xs) ys y h = absurd (cc)

-- The length of an RDATA stands in 16 bits.
abbrev pub IsShort : Bytes → Type 0
IsShort rdata = length rdata < 65536

length_inj :
    (x y us vs : Bytes)
    → IsShort x
    → IsShort y
    → uint16_bytes (length x) ++ us ≡ uint16_bytes (length y) ++ vs
    → (length x ≡ length y) × (us ≡ vs)
length_inj x y us vs hx hy h =
    let p : (length x / 256) % 256 ≡ (length y / 256) % 256 = cc in
    let q : length x % 256 ≡ length y % 256 = cc in (omega (arith, p, q, hx, hy), cc)

signed_records-inj :
    (owner : Bytes) (sig : Rrsig) (xs ys : List Bytes)
    → All IsShort xs
    → All IsShort ys
    → signed_records owner sig xs ≡ signed_records owner sig ys
    → xs ≡ ys
unfolding signed_records
signed_records-inj owner sig [] [] hx hy h = refl
signed_records-inj owner sig [] (y ∷ ys) hx hy h = absurd (not_empty owner _ _ h)
signed_records-inj owner sig (x ∷ xs) [] hx hy h = absurd (not_empty owner _ _ (sym h))
signed_records-inj owner sig (x ∷ xs) (y ∷ ys) hx hy h =
    let fields = append_cancel owner _ _ h in
    let body = append_cancel (uint32_bytes sig.original_ttl) _ _ (
      append_cancel (uint16_bytes class_in) _ _
        (append_cancel (uint16_bytes sig.type_covered) _ _ fields)) in
    let (n, rest) = length_inj x y _ _ hx.0 hy.0 body in
    let (same, more) = append-inj x y _ _ n rest in
    let tail = signed_records-inj owner sig xs ys hx.1 hy.1 more in rw (same, tail)

-- A predicate of the records holds of them as they are signed.
All-sorted : (P : Bytes → Type 0) (xs : List Bytes) → All P xs → All P (unrepeated (sort xs))
All-sorted P xs h =
    each (unrepeated (sort xs)) λ z m. All-member P xs z h ((Member-sorted z xs).0 m)
  where
    each : (ys : List Bytes) → ((z : Bytes) → Member z ys → P z) → All P ys
    each [] f = tt
    each (y ∷ ys) f = (f y (inl refl), each ys λ z m. f z (inr m))

sorted_iff :
    (xs ys : List Bytes)
    → (unrepeated (sort xs) ≡ unrepeated (sort ys)) ↔ ((z : Bytes) → Member z xs ↔ Member z ys)
sorted_iff xs ys = (
  λ e z. (
    λ m. (Member-sorted z ys).0 (subst (Member z) e ((Member-sorted z xs).1 m)),
    λ m. (Member-sorted z xs).0 (subst (Member z) (sym e) ((Member-sorted z ys).1 m)),
  ),
  λ h. Ascending-unique _ _ (sorted-Ascending xs) (sorted-Ascending ys) λ z. (
    λ m. (Member-sorted z ys).1 ((h z).0 ((Member-sorted z xs).0 m)),
    λ m. (Member-sorted z xs).1 ((h z).1 ((Member-sorted z ys).0 m)),
  ),
)

-- The parts that the bytes are made of.
signed_data-parts :
    (owner : Bytes) (sig : Rrsig) (rrs : List Rr) (xs : List Bytes) (d : Bytes)
    → canonical_rdatas rrs ≡ ok xs
    → signed_data owner rrs sig ≡ ok d
    → (s : Bytes) × (o : Bytes) × (canonical_name sig.signer_name ≡ ok s)
      × (signed_owner_name owner sig ≡ ok o)
      × (d ≡ signature_fields sig s ++ signed_records o sig (unrepeated (sort xs)))
unfolding signed_data
signed_data-parts owner sig rrs xs d hx =
    by_parts (canonical_name sig.signer_name) (signed_owner_name owner sig) (canonical_rdatas rrs)
      hx
  where
    by_parts :
        (s o : Result Bytes) (r : Result (List Bytes))
        → r ≡ ok xs
        → (s >>= λ signer. o >>= λ name. r >>= λ rdatas.
            ok (signature_fields sig signer ++ signed_records name sig (unrepeated (sort rdatas))))
          ≡ ok d
        → (n : Bytes) × (m : Bytes) × (s ≡ ok n)
          × (o ≡ ok m)
          × (d ≡ signature_fields sig n ++ signed_records m sig (unrepeated (sort xs)))
    by_parts (err f) o r e h = absurd (cc)
    by_parts (ok s) (err f) r e h = absurd (cc)
    by_parts (ok s) (ok o) (err f) e h = absurd (cc)
    by_parts (ok s) (ok o) (ok rdatas) e h = (s, o, refl, refl, cc)

-- The bytes that a signature is made over say which RDATA the set has, and nothing of their order
-- or repetition: for two sets under one owner name and one RRSIG, with canonical RDATA of less than
-- 65536 bytes each, the bytes are the same just when the same RDATA stand in the two sets.
pub signed_data_iff :
    (owner : Bytes) (sig : Rrsig) (rrs ss : List Rr) (xs ys : List Bytes) (d e : Bytes)
    → canonical_rdatas rrs ≡ ok xs
    → canonical_rdatas ss ≡ ok ys
    → All IsShort xs
    → All IsShort ys
    → signed_data owner rrs sig ≡ ok d
    → signed_data owner ss sig ≡ ok e
    → (d ≡ e) ↔ ((z : Bytes) → Member z xs ↔ Member z ys)
signed_data_iff owner sig rrs ss xs ys d e hx hy sx sy hd he =
    let (s, o, es, eo, pd) = signed_data-parts owner sig rrs xs d hx hd in
    let (t, p, et, ep, pe) = signed_data-parts owner sig ss ys e hy he in
    let same_signer : t ≡ s = cc in
    let same_owner : p ≡ o = cc in
    let (to, from) = sorted_iff xs ys in
    (
      λ h. to (
          signed_records-inj o sig _ _ (All-sorted IsShort xs sx) (All-sorted IsShort ys sy)
            (append_cancel (signature_fields sig s) _ _ (cc))),
      λ h. let same = from h in cc,
    )
