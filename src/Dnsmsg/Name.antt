-- ===== src/Dnsmsg/Name.antt =====
-- dnsmsg/name.go: a dotted name in wire format, without compression.
pub mod Pieces
pub mod RoundTrip
use dns_resolver.Prelude.{
  ℕ, Bool, ◌||◌, List, [], ◌∷◌, ◌++◌, Bytes, length, ltb, ◌==◌, if◌then◌else◌, Result, ok, err,
  ◌>>=◌, name_too_long, bad_label,
}
use dns_resolver.Text.{eqb, split, trim_dot}

abbrev pub max_name_length : ℕ
max_name_length = 255

abbrev pub max_label_length : ℕ
max_label_length = 63

-- len(label) == 0 || len(label) > maxLabelLength
abbrev pub bad_length : Bytes → Bool
bad_length label = length label == 0 || ltb max_label_length (length label)

-- The loop over the labels of a name, and the byte 0 behind it.
unfoldable pub encode_labels : List Bytes → Result Bytes
encode_labels [] = ok (0 ∷ [])
encode_labels (l ∷ ls) =
    if bad_length l
    then err bad_label
    else (do rest ← encode_labels ls; ok (length l ∷ (l ++ rest)))

unfoldable pub encode_name : Bytes → Result Bytes
unfolding encode_labels eqb split trim_dot
encode_name name =
    if ltb max_name_length (length name)
    then err name_too_long
    else let s = trim_dot name in if eqb s [] then ok (0 ∷ []) else encode_labels (split s)
