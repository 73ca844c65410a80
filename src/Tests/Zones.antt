-- ===== src/Tests/Zones.antt =====
-- A zone of three names, and the NSEC records that join them.
use dns_resolver.Text.Split.{IsLabel}
use dns_resolver.Denial.Enclosers.{IsClosestEncloser}
use dns_resolver.Denial.Verdicts.{verdicts_safe}
use dns_resolver.Dnsmsg.Wire.Safety.{Any}
use dns_resolver.Denial.Order.{flip, compare_names-order}
use dns_resolver.Denial.Soundness.{prove_no_closer_match-Absent, prove_name_error-Absent}
use dns_resolver.Dnsmsg.{Rr, zero_rr, type_nsec, type_ds}
use dns_resolver.Denial.Gaps.{Ascending, Absent, IsChained, covers-Absent, there, here}
use dns_resolver.Denial.Claims.{
  nsec_records, prove_name_error, prove_no_closer_match, prove_no_ds, prove_no_data,
}
use dns_resolver.Denial.{compare_names, covers, NsecRecord, path_of}
use dns_resolver.Prelude.{Bytes, List, All, take, ◌∷◌, ◌≡◌, [], ◌↔◌, inl, refl, Ensures, arith}
use dns_resolver.Denial.Hashed.{Digest}
use dns_resolver.Text.{Unicode, eqb, dot, labels_of, to_lower}
use Prim.Native.Nat.{Ordering}

instance ascii_only : Unicode
ascii_only = record { lower = λ s. s; upper = λ s. s; equal_fold = λ s t. eqb s t }

instance first_bytes : Digest
first_bytes = record { sha1 = take 20 }

abbrev apex : Bytes
apex = b'z' ∷ []

abbrev at_b : Bytes
at_b = b'b' ∷ dot ∷ b'z' ∷ []

abbrev at_d : Bytes
at_d = b'd' ∷ dot ∷ b'Z' ∷ []

abbrev at_c : Bytes
at_c = b'c' ∷ dot ∷ b'z' ∷ []

ascending : Ascending apex (at_b ∷ at_d ∷ [])
unfolding compare_names
ascending = (refl, (refl, tt))

compare_names-order_example :
    ((compare_names at_b at_d ≡ Ordering.eq) ↔ (path_of at_b ≡ path_of at_d))
    × (compare_names at_d at_b ≡ flip (compare_names at_b at_d))
    × (compare_names at_b at_d ≡ Ordering.lt
        → compare_names at_d apex ≡ Ordering.lt
        → compare_names at_b apex ≡ Ordering.lt)
compare_names-order_example = compare_names-order at_b at_d apex

abbrev nsec_of : Bytes → Bytes → NsecRecord
nsec_of owner next = record { owner = owner; rr = record { next_domain = next; type_bitmap = [] } }

covers-Absent_example : Absent at_c (apex ∷ at_b ∷ at_d ∷ [])
unfolding covers
covers-Absent_example =
    covers-Absent apex (at_b ∷ at_d ∷ []) (nsec_of at_b at_d) at_c ascending (inl (there here)) refl

abbrev nsec_rr : Bytes → Bytes → Rr
nsec_rr owner raw = record zero_rr { name = owner; type = type_nsec; raw = raw }

abbrev section : List Rr
section =
    nsec_rr apex (1 ∷ b'b' ∷ 1 ∷ b'z' ∷ 0 ∷ []) ∷ nsec_rr at_b (1 ∷ b'd' ∷ 1 ∷ b'Z' ∷ 0 ∷ []) ∷ []

chained : All (IsChained apex (at_b ∷ at_d ∷ [])) (nsec_of apex at_b ∷ nsec_of at_b at_d ∷ [])
chained = (inl here, (inl (there here), tt))

at_c-IsLabel : All IsLabel (labels_of (to_lower at_c))
unfolding labels_of to_lower ascii_only
at_c-IsLabel = (
  ((λ h. absurd (cc)), (λ h. absurd (omega arith), tt)),
  (((λ h. absurd (cc)), (λ h. absurd (omega arith), tt)), tt),
)

prove_name_error-Absent_example :
    Absent at_c (apex ∷ at_b ∷ at_d ∷ [])
    × ((e : Bytes) × IsClosestEncloser at_c apex (at_b ∷ at_d ∷ []) e
        × Absent (b'*' ∷ dot ∷ e) (apex ∷ at_b ∷ at_d ∷ []))
unfolding nsec_records prove_name_error
prove_name_error-Absent_example =
    prove_name_error-Absent section at_c apex (at_b ∷ at_d ∷ []) (nsec_of apex at_b)
      (nsec_of at_b at_d ∷ []) ascending refl chained at_c-IsLabel refl

prove_no_closer_match-Absent_example : Absent at_c (apex ∷ at_b ∷ at_d ∷ [])
unfolding nsec_records prove_no_closer_match
prove_no_closer_match-Absent_example =
    prove_no_closer_match-Absent section at_c apex (at_b ∷ at_d ∷ []) (nsec_of apex at_b)
      (nsec_of at_b at_d ∷ []) ascending refl chained refl

verdicts_safe_example :
    Ensures Any (prove_no_ds section at_c)
    × Ensures Any (prove_name_error section at_c)
    × Ensures Any (prove_no_data section at_c type_ds)
    × Ensures Any (prove_no_closer_match section at_c)
verdicts_safe_example = verdicts_safe section at_c type_ds
