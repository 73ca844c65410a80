-- ===== src/Resolver/Privacy.antt =====
-- resolver/privacy.go: what a server is told of a name. Its toUpper and toLower are `upper_byte`
-- and `lower_byte`.
pub mod Disclosure
use dns_resolver.Dnsmsg.Wire.{index}
use dns_resolver.Prelude.{
  ℕ, Bytes, Bool, if◌then◌else◌, ◌∷◌, Option, leb, suc, get_elem?, some, ◌==◌, length, ◌&&◌, [],
  ◌/◌, ◌>>=◌, ◌+◌, drop, ◌||◌, ◌-◌, none, ◌^◌, ◌%◌, Result, ok,
}
use dns_resolver.Text.{labels_of, lower_byte, join, upper_byte}

unfoldable pub minimized_qname : Bytes → Bytes → Bytes
unfolding labels_of join
minimized_qname qname zone =
    let full = labels_of qname in
    let in_zone = labels_of zone in
    if leb (length full) (length in_zone)
    then qname
    else join (drop (length full - length in_zone - 1) full)

unfoldable pub is_ascii_letter : ℕ → Bool
is_ascii_letter b = (leb b'a' b && leb b b'z') || (leb b'A' b && leb b b'Z')

-- The letters before the loop of randomizeCase.
unfoldable pub count_letters : Bytes → ℕ
unfolding is_ascii_letter
count_letters [] = 0
count_letters (c ∷ s) = let n = count_letters s in if is_ascii_letter c then suc n else n

-- bits[n/8]&(1<<(n%8)) != 0
unfoldable pub random_bit : Bytes → ℕ → Result Bool
unfolding index
random_bit bits n = do b ← index bits (n / 8); ok ((b / 2 ^ (n % 8)) % 2 == 1)

-- The loop over the letters; `n` letters stand before.
unfoldable pub randomize_loop : Bytes → ℕ → Bytes → Result Bytes
unfolding is_ascii_letter random_bit upper_byte lower_byte
randomize_loop bits n [] = ok []
randomize_loop bits n (c ∷ s) =
    if is_ascii_letter c
    then (do
      up ← random_bit bits n
      rest ← randomize_loop bits (suc n) s
      ok ((if up then upper_byte c else lower_byte c) ∷ rest))
    else (do rest ← randomize_loop bits n s; ok (c ∷ rest))

-- `random k` is what rand.Read puts into k bytes; `none` is its error.
unfoldable pub randomize_case : (ℕ → Option Bytes) → Bytes → Result Bytes
unfolding count_letters randomize_loop
randomize_case random name =
    if count_letters name == 0 then ok name else elim (random ((count_letters name + 7) / 8)) [
      | none ↦ ok name
      | some bits ↦ randomize_loop bits 0 name
    ]
