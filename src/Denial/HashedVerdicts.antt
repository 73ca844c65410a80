-- ===== src/Denial/HashedVerdicts.antt =====
-- The proofs over NSEC3 records of dnssec/nsec3.go: their outcomes.
use dns_resolver.Dnsmsg.{type_ds}
use dns_resolver.Dnsmsg.Dnssec.{opt_out, type_in_bitmap}
use dns_resolver.Denial.Safety.{
  find_encloser-Ensures, find_cover-Ensures, require-Ensures, denied, type_in_bitmap-Ensures,
  denies_ds-Ensures, find_match-Ensures, denies_type-Ensures,
}
use dns_resolver.Dnsmsg.Wire.Safety.{Any}
use dns_resolver.Prelude.{
  List, Bytes, Ensures, ℕ, Option, Ensures-bind, none, err, no_denial, some, guard, ◌>>=◌, fails,
  not, Result, Bool, if◌then◌else◌, ok, refl, returns, ◌==◌, ◌&&◌, true, false,
}
use dns_resolver.Denial.Claims.{
  prove_no_ds_nsec3, prove_name_error_nsec3, prove_no_closer_match_nsec3, prove_no_data_nsec3,
  wildcard_of, denies_ds, denies_type,
}
use dns_resolver.Denial.Hashed.{Digest, Nsec3Record, find_cover, find_match, find_encloser}
use dns_resolver.Text.{Unicode}

module _ ⦃u : Unicode⦄ ⦃g : Digest⦄ where
  pub prove_no_ds_nsec3-Ensures :
      (ns : List Nsec3Record) (zone : Bytes) → Ensures Any (prove_no_ds_nsec3 ns zone)
  unfolding prove_no_ds_nsec3
  prove_no_ds_nsec3-Ensures ns zone =
      Ensures-bind _ (find_match-Ensures ns zone) λ match _. matched match
    where
      covered :
          (o : Option Nsec3Record)
          → Ensures Any (elim o [ none ↦ err no_denial | some n ↦ guard (opt_out n.rr) no_denial ])
      covered none = fails refl
      covered (some n) = denied (opt_out n.rr)

      matched :
          (o : Option Nsec3Record)
          → Ensures Any (elim o [
            | some n ↦ denies_ds n.rr.type_bitmap
            | none ↦ do
              cover ← find_cover ns zone
              elim cover [ none ↦ err no_denial | some n ↦ guard (opt_out n.rr) no_denial ]
          ])
      matched none = Ensures-bind _ (find_cover-Ensures ns zone) λ cover _. covered cover
      matched (some n) = denies_ds-Ensures n.rr.type_bitmap

  pub prove_name_error_nsec3-Ensures :
      (ns : List Nsec3Record) (qname zone : Bytes)
      → Ensures Any (prove_name_error_nsec3 ns qname zone)
  unfolding prove_name_error_nsec3
  prove_name_error_nsec3-Ensures ns qname zone =
      Ensures-bind _ (find_encloser-Ensures ns qname zone) λ r _.
        Ensures-bind _ (find_cover-Ensures ns r.1) λ cover _.
          Ensures-bind _ (require-Ensures cover) λ _ _.
            Ensures-bind _ (find_cover-Ensures ns (wildcard_of r.0))
              λ wildcard _. require-Ensures wildcard

  pub prove_no_closer_match_nsec3-Ensures :
      (ns : List Nsec3Record) (qname zone : Bytes)
      → Ensures Any (prove_no_closer_match_nsec3 ns qname zone)
  unfolding prove_no_closer_match_nsec3
  prove_no_closer_match_nsec3-Ensures ns qname zone =
      Ensures-bind _ (find_encloser-Ensures ns qname zone)
        λ r _. Ensures-bind _ (find_cover-Ensures ns r.1) λ cover _. require-Ensures cover

  pub prove_no_data_nsec3-Ensures :
      (ns : List Nsec3Record) (qname : Bytes) (qtype : ℕ) (zone : Bytes)
      → Ensures Any (prove_no_data_nsec3 ns qname qtype zone)
  unfolding prove_no_data_nsec3
  prove_no_data_nsec3-Ensures ns qname qtype zone =
      Ensures-bind _ (find_match-Ensures ns qname) λ match _. matched match
    where
      at_wildcard :
          (o : Option Nsec3Record)
          → Ensures Any (elim o [
            | none ↦ err no_denial
            | some w ↦ do
              listed ← type_in_bitmap w.rr.type_bitmap qtype
              guard (not listed) no_denial
          ])
      at_wildcard none = fails refl
      at_wildcard (some w) =
          Ensures-bind _ (type_in_bitmap-Ensures w.rr.type_bitmap qtype)
            λ listed _. denied (not listed)

      opted :
          {r : Result (Unit {0})} (b : Bool) → Ensures Any r → Ensures Any (if b then ok tt else r)
      opted true h = returns tt
      opted false h = h

      covered :
          (encloser : Bytes) (o : Option Nsec3Record)
          → Ensures Any (elim o [
            | none ↦ err no_denial
            | some c ↦ if (qtype == type_ds) && opt_out c.rr then ok tt else do
              wildcard ← find_match ns (wildcard_of encloser)
              elim wildcard [
                | none ↦ err no_denial
                | some w ↦ do
                  listed ← type_in_bitmap w.rr.type_bitmap qtype
                  guard (not listed) no_denial
              ]
          ])
      covered encloser none = fails refl
      covered encloser (some c) =
          opted ((qtype == type_ds) && opt_out c.rr)
            (Ensures-bind _ (find_match-Ensures ns (wildcard_of encloser)) λ w _. at_wildcard w)

      matched :
          (o : Option Nsec3Record)
          → Ensures Any (elim o [
            | some n ↦ denies_type n.rr.type_bitmap qtype
            | none ↦ do
              (encloser, next_closer) ← find_encloser ns qname zone
              cover ← find_cover ns next_closer
              elim cover [
                | none ↦ err no_denial
                | some c ↦ if (qtype == type_ds) && opt_out c.rr then ok tt else do
                  wildcard ← find_match ns (wildcard_of encloser)
                  elim wildcard [
                    | none ↦ err no_denial
                    | some w ↦ do
                      listed ← type_in_bitmap w.rr.type_bitmap qtype
                      guard (not listed) no_denial
                  ]
              ]
          ])
      matched (some n) = denies_type-Ensures n.rr.type_bitmap qtype
      matched none =
          Ensures-bind _ (find_encloser-Ensures ns qname zone)
            λ r _. Ensures-bind _ (find_cover-Ensures ns r.1) λ cover _. covered r.0 cover
