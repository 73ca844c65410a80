-- ===== src/Text.antt =====
-- The functions of Go's package strings that the program uses, over byte strings. The Unicode
-- tables are not read here: on a text with a byte of 128 or more, `strings.ToLower`,
-- `strings.ToUpper` and `strings.EqualFold` are the functions of the instance `Unicode`.

pub mod Split
use dns_resolver.Prelude.{
  ℕ, ◌+◌, ◌-◌, ◌≡◌, Bool, true, false, ◌&&◌, Option, none, some, List, [], ◌∷◌, ◌++◌, map, Bytes,
  leb, ltb, ◌==◌, if◌then◌else◌,
}

abbrev pub dot : ℕ
dot = b'.'

-- a == b
unfoldable pub eqb : Bytes → Bytes → Bool
eqb [] [] = true
eqb (x ∷ xs) (y ∷ ys) = (x == y) && eqb xs ys
eqb _ _ = false

-- strings.Split(s, ".")
consume : ℕ → List Bytes → List Bytes
consume c [] = (c ∷ []) ∷ []
consume c (l ∷ ls) = (c ∷ l) ∷ ls

unfoldable pub split : Bytes → List Bytes
unfolding consume
split [] = [] ∷ []
split (c ∷ s) = let rest = split s in if c == dot then [] ∷ rest else consume c rest

-- strings.Join(labels, ".")
unfoldable pub join : List Bytes → Bytes
join [] = []
join (l ∷ []) = l
join (l ∷ k ∷ ls) = l ++ (dot ∷ join (k ∷ ls))

-- strings.TrimSuffix(s, ".")
unfoldable pub trim_dot : Bytes → Bytes
trim_dot [] = []
trim_dot (c ∷ []) = if c == dot then [] else c ∷ []
trim_dot (c ∷ d ∷ s) = c ∷ trim_dot (d ∷ s)

-- strings.Index(s, ".") and what follows it, s[i+1:]; `none` if there is no dot.
unfoldable pub after_dot : Bytes → Option Bytes
after_dot [] = none
after_dot (c ∷ s) = let rest = after_dot s in if c == dot then some s else rest

-- strings.Contains(s, ".")
unfoldable pub has_dot : Bytes → Bool
has_dot [] = false
has_dot (c ∷ s) = if c == dot then true else has_dot s

-- strings.HasSuffix(s, t)
unfoldable pub has_suffix : Bytes → Bytes → Bool
unfolding eqb
has_suffix [] t = eqb [] t
has_suffix (c ∷ s) t = if eqb (c ∷ s) t then true else has_suffix s t

-- The labels of a name: splitName, labelsOf and the first lines of writeName and encodeName.
unfoldable pub labels_of : Bytes → List Bytes
unfolding trim_dot split eqb
labels_of name = let s = trim_dot name in if eqb s [] then [] else split s

-- One ASCII letter in lower case.
unfoldable pub lower_byte : ℕ → ℕ
lower_byte b = if leb b'A' b && leb b b'Z' then b + 32 else b

-- One ASCII letter in upper case.
unfoldable pub upper_byte : ℕ → ℕ
upper_byte b = if leb b'a' b && leb b b'z' then b - 32 else b

unfoldable pub is_ascii : Bytes → Bool
is_ascii [] = true
is_ascii (c ∷ s) = ltb c 128 && is_ascii s

-- What the package unicode does to texts that are not ASCII.
pub record Unicode : Type 0 where
  pub lower : Bytes → Bytes
  pub upper : Bytes → Bytes
  pub equal_fold : Bytes → Bytes → Bool

module _ ⦃u : Unicode⦄ where
  -- strings.ToLower(s)
  unfoldable pub to_lower : Bytes → Bytes
  unfolding is_ascii lower_byte
  to_lower s = if is_ascii s then map lower_byte s else u.lower s

  -- strings.ToUpper(s)
  unfoldable pub to_upper : Bytes → Bytes
  unfolding is_ascii upper_byte
  to_upper s = if is_ascii s then map upper_byte s else u.upper s

  -- strings.EqualFold(s, t)
  unfoldable pub equal_fold : Bytes → Bytes → Bool
  unfolding is_ascii lower_byte eqb
  equal_fold s t =
      if is_ascii s && is_ascii t
      then eqb (map lower_byte s) (map lower_byte t)
      else u.equal_fold s t

  -- equalName: names without case and without the final dot.
  unfoldable pub equal_name : Bytes → Bytes → Bool
  unfolding equal_fold trim_dot
  equal_name a b = equal_fold (trim_dot a) (trim_dot b)

  -- strings.ToLower(strings.TrimSuffix(name, ".")): normalizeKey, normalizeZone, normalizeName.
  unfoldable pub normalize : Bytes → Bytes
  unfolding to_lower trim_dot
  normalize name = to_lower (trim_dot name)

  unfoldable pub is_subdomain_or_equal : Bytes → Bytes → Bool
  unfolding normalize eqb has_suffix
  is_subdomain_or_equal name zone =
      let n = normalize name in
      let z = normalize zone in
      if eqb z [] then true else if eqb n z then true else has_suffix n (dot ∷ z)

  unfoldable pub is_proper_subdomain : Bytes → Bytes → Bool
  unfolding equal_name is_subdomain_or_equal
  is_proper_subdomain name zone =
      if equal_name name zone then false else is_subdomain_or_equal name zone
