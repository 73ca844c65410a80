-- ===== src/Denial/Hashed.antt =====
-- dnssec/nsec3.go, up to the search for the closest encloser; canonicalName of dnssec/verify.go.
-- The hash function SHA-1 is not read here: it is the function of the instance `Digest`.
use dns_resolver.Denial.{is_less, lex}
use dns_resolver.Dnsmsg.Dnssec.{Nsec3}
use dns_resolver.Text.{lower_byte, labels_of, eqb, Unicode, to_upper, join}
use dns_resolver.Prelude.{
  Bytes, ℕ, if◌then◌else◌, [], ◌*◌, ◌∷◌, List, Result, Bool, suc, ltb, ◌/◌, ◌+◌, take, ok, ◌==◌,
  ◌++◌, not, Option, err, ◌-◌, ◌%◌, length, ◌&&◌, ◌||◌, zero, unsupported_denial, none, no_denial,
  bad_label, ◌>>=◌, map, some,
}
use Prim.Native.Nat.{compare}

pub record Digest : Type 0 where
  pub sha1 : Bytes → Bytes

-- base32.HexEncoding without padding: groups of five bytes as eight digits.
unfoldable pub digit32 : ℕ → ℕ
digit32 d = if ltb d 10 then b'0' + d else b'A' + (d - 10)

unfoldable pub digits32 : ℕ → ℕ → Bytes
unfolding digit32
digits32 zero v = []
digits32 (suc n) v = digits32 n (v / 32) ++ (digit32 (v % 32) ∷ [])

abbrev group32 : ℕ → ℕ → ℕ → ℕ → ℕ → Bytes
group32 a b c d e = digits32 8 ((((a * 256 + b) * 256 + c) * 256 + d) * 256 + e)

unfoldable pub base32_hex : Bytes → Bytes
unfolding digits32
base32_hex [] = []
base32_hex (a ∷ []) = take 2 (group32 a 0 0 0 0)
base32_hex (a ∷ b ∷ []) = take 4 (group32 a b 0 0 0)
base32_hex (a ∷ b ∷ c ∷ []) = take 5 (group32 a b c 0 0)
base32_hex (a ∷ b ∷ c ∷ d ∷ []) = take 7 (group32 a b c d 0)
base32_hex (a ∷ b ∷ c ∷ d ∷ e ∷ s) = group32 a b c d e ++ base32_hex s

-- The loop of canonicalName.
unfoldable pub canonical_labels : List Bytes → Result Bytes
unfolding lower_byte
canonical_labels [] = ok (0 ∷ [])
canonical_labels (l ∷ ls) =
    if (length l == 0) || ltb 63 (length l)
    then err bad_label
    else do rest ← canonical_labels ls; ok (length l ∷ (map lower_byte l ++ rest))

unfoldable pub canonical_name : Bytes → Result Bytes
unfolding labels_of canonical_labels
canonical_name name = canonical_labels (labels_of name)

-- A record without its field `zone`, which is stored and never read.
pub record Nsec3Record : Type 0 where
  pub owner : Bytes
  pub rr : Nsec3

abbrev pub nsec3_hash_sha1 : ℕ
nsec3_hash_sha1 = 1

abbrev pub max_nsec3_iterations : ℕ
max_nsec3_iterations = 100

-- a < b of Go's strings
abbrev pub text_before : Bytes → Bytes → Bool
text_before a b = is_less (lex compare a b)

unfoldable pub same_parameters : Nsec3 → Nsec3 → Bool
unfolding eqb
same_parameters a b =
    ((a.algorithm == b.algorithm) && (a.iterations == b.iterations)) && eqb a.salt b.salt

module _ ⦃u : Unicode⦄ ⦃g : Digest⦄ where
  -- nsec3Record.covers
  unfoldable pub covers_hash : Nsec3Record → Bytes → Bool
  unfolding to_upper base32_hex lex
  covers_hash n hash =
      let next = to_upper (base32_hex n.rr.next_hashed) in
      let after_owner = text_before n.owner hash in
      let before_next = text_before hash next in
      if not (text_before n.owner next)
      then after_owner || before_next
      else after_owner && before_next

  -- The loop of hashName.
  unfoldable pub hash_rounds : ℕ → Bytes → Bytes → Bytes
  hash_rounds zero salt sum = sum
  hash_rounds (suc n) salt sum = hash_rounds n salt (g.sha1 (sum ++ salt))

  unfoldable pub hash_name : Nsec3 → Bytes → Result Bytes
  unfolding canonical_name hash_rounds to_upper base32_hex
  hash_name n name =
      if not (n.algorithm == nsec3_hash_sha1)
      then err unsupported_denial
      else if ltb max_nsec3_iterations n.iterations
      then err unsupported_denial
      else do
        wire ← canonical_name name
        ok (to_upper (base32_hex (hash_rounds n.iterations n.salt (g.sha1 (wire ++ n.salt)))))

  unfoldable pub find_match : List Nsec3Record → Bytes → Result (Option Nsec3Record)
  unfolding hash_name eqb
  find_match [] name = ok none
  find_match (n ∷ ns) name = do
    hash ← hash_name n.rr name
    let rest = find_match ns name
    if eqb hash n.owner then ok (some n) else rest

  unfoldable pub find_cover : List Nsec3Record → Bytes → Result (Option Nsec3Record)
  unfolding hash_name covers_hash
  find_cover [] name = ok none
  find_cover (n ∷ ns) name = do
    hash ← hash_name n.rr name
    let rest = find_cover ns name
    if covers_hash n hash then ok (some n) else rest

  -- The loop of closestEncloser, from labels[i-1:] on.
  unfoldable pub encloser_loop : List Nsec3Record → ℕ → List Bytes → Result (Bytes × Bytes)
  unfolding find_match join
  encloser_loop ns zone_labels [] = err no_denial
  encloser_loop ns zone_labels (l ∷ ls) =
      let rest = encloser_loop ns zone_labels ls in
      if ltb (length ls) zone_labels then err no_denial else do
        match ← find_match ns (join ls)
        elim match [ none ↦ rest | some _ ↦ ok (join ls, join (l ∷ ls)) ]

  -- closestEncloser of nsec3.go: the encloser and the next closer name
  unfoldable pub find_encloser : List Nsec3Record → Bytes → Bytes → Result (Bytes × Bytes)
  unfolding labels_of encloser_loop
  find_encloser ns name zone =
      if ltb (length (labels_of name)) (length (labels_of zone))
      then err no_denial
      else encloser_loop ns (length (labels_of zone)) (labels_of name)
