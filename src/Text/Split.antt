-- ===== src/Text/Split.antt =====
-- Splitting a text at its dots and joining the labels again.
use dns_resolver.Prelude.{
  ◌∙◌, ℕ, ◌≡◌, ◌≢◌, refl, ap, true, false, List, [], ◌∷◌, ◌++◌, Bytes, All, ◌==◌, arith,
  if◌then◌else◌, ◌↔◌, Bool-cases, inl, inr,
}
use dns_resolver.Text.{dot, eqb, consume, split, join, trim_dot, has_dot, labels_of}

pub eqb_iff : (a b : Bytes) → (eqb a b ≡ true) ↔ (a ≡ b)
unfolding eqb
eqb_iff [] [] = (λ _. refl, λ _. refl)
eqb_iff [] (y ∷ ys) = (λ h. cc, λ h. cc)
eqb_iff (x ∷ xs) [] = (λ h. cc, λ h. cc)
eqb_iff (x ∷ xs) (y ∷ ys) =
    let ih = eqb_iff xs ys in (λ h. ground (arith, ih), λ h. ground (arith, ih))

pub eqb_refl : (a : Bytes) → eqb a a ≡ true
eqb_refl a = (eqb_iff a a).1 refl

-- A text with no dot in it.
abbrev pub NoDot : Bytes → Type 0
NoDot = All (λ c. c ≢ dot)

-- A label that a DNS name can hold here: not empty, without a dot.
abbrev pub IsLabel : Bytes → Type 0
IsLabel l = (l ≢ []) × NoDot l

pub has_dot-NoDot : (l : Bytes) → has_dot l ≡ false → NoDot l
unfolding has_dot
has_dot-NoDot [] h = tt
has_dot-NoDot (c ∷ l) h = (ground arith, has_dot-NoDot l (ground arith))

pub NoDot-has_dot : (l : Bytes) → NoDot l → has_dot l ≡ false
unfolding has_dot
NoDot-has_dot [] h = refl
NoDot-has_dot (c ∷ l) h = ground (arith, NoDot-has_dot l h.1)

consume-ne-nil : (c : ℕ) (ls : List Bytes) → consume c ls ≢ []
unfolding consume
consume-ne-nil c [] h = cc
consume-ne-nil c (l ∷ ls) h = cc

pub split-ne-nil : (s : Bytes) → split s ≢ []
unfolding split
split-ne-nil [] h = cc
split-ne-nil (c ∷ s) h = ground (arith, consume-ne-nil c (split s))

pub split-append : (l s : Bytes) → NoDot l → split (l ++ (dot ∷ s)) ≡ l ∷ split s
unfolding split consume
split-append [] s h = refl
split-append (c ∷ l) s h = rw (split-append l s h.1) (ground arith)

pub split_label : (l : Bytes) → NoDot l → split l ≡ l ∷ []
unfolding split consume
split_label [] h = refl
split_label (c ∷ l) h = rw (split_label l h.1) (ground arith)

-- Splitting a joined list of labels gives the labels back.
pub split-join :
    (l : Bytes) (ls : List Bytes) → NoDot l → All NoDot ls → split (join (l ∷ ls)) ≡ l ∷ ls
unfolding join
split-join l [] h hs = split_label l h
split-join l (k ∷ ls) h hs =
    split-append l (join (k ∷ ls)) h ∙ ap (◌∷◌ l) (split-join k ls hs.0 hs.1)

join-consume : (c : ℕ) (ls : List Bytes) → ls ≢ [] → join (consume c ls) ≡ c ∷ join ls
unfolding join consume
join-consume c [] h = absurd (h refl)
join-consume c (l ∷ []) h = refl
join-consume c (l ∷ k ∷ ls) h = refl

join-nil : (ls : List Bytes) → ls ≢ [] → join ([] ∷ ls) ≡ dot ∷ join ls
unfolding join
join-nil [] h = absurd (h refl)
join-nil (l ∷ ls) h = refl

-- Joining what was split gives the text back.
pub join-split : (s : Bytes) → join (split s) ≡ s
unfolding split
join-split [] = unfold join in refl
join-split (c ∷ s) =
    let nonempty = split-ne-nil s in
    ground (arith, join-split s, join-consume c (split s) nonempty, join-nil (split s) nonempty)

consume-NoDot : (c : ℕ) (ls : List Bytes) → c ≢ dot → All NoDot ls → All NoDot (consume c ls)
unfolding consume
consume-NoDot c [] h hs = ((h, tt), tt)
consume-NoDot c (l ∷ ls) h hs = ((h, hs.0), hs.1)

-- Every part of a split is free of dots.
pub split-NoDot : (s : Bytes) → All NoDot (split s)
unfolding split
split-NoDot [] = (tt, tt)
split-NoDot (c ∷ s) = elim (Bool-cases (c == dot)) [
  | inl e ↦ rw e (tt, split-NoDot s)
  | inr e ↦ rw e (consume-NoDot c (split s) (ground arith) (split-NoDot s))
]

trim_dot-append :
    (xs : Bytes) (y : ℕ) (ys : Bytes) → trim_dot (xs ++ (y ∷ ys)) ≡ xs ++ trim_dot (y ∷ ys)
unfolding trim_dot
trim_dot-append [] y ys = refl
trim_dot-append (x ∷ []) y ys = refl
trim_dot-append (x ∷ x' ∷ xs) y ys = ap (◌∷◌ x) (trim_dot-append (x' ∷ xs) y ys)

trim_label : (c : ℕ) (l : Bytes) → NoDot (c ∷ l) → trim_dot (c ∷ l) ≡ c ∷ l
unfolding trim_dot
trim_label c [] h = ground arith
trim_label c (d ∷ l) h = ap (◌∷◌ c) (trim_label d l h.1)

-- The head of a list of labels, joined, is a byte of its first label.
pub join-cons :
    (k : Bytes) (ls : List Bytes) → IsLabel k → (c : ℕ) × (s : Bytes) × (join (k ∷ ls) ≡ c ∷ s)
unfolding join
join-cons [] ls h = absurd (h.0 refl)
join-cons (c ∷ k) [] h = (c, k, refl)
join-cons (c ∷ k) (l ∷ ls) h = (c, k ++ (dot ∷ join (l ∷ ls)), refl)

trim_dot_behind : (s t : Bytes) (c : ℕ) → s ≡ c ∷ t → trim_dot (dot ∷ s) ≡ dot ∷ trim_dot s
trim_dot_behind s t c e = rw e (unfold trim_dot in refl)

-- A list of labels joined has no final dot.
pub trim_dot-join : (ls : List Bytes) → All IsLabel ls → trim_dot (join ls) ≡ join ls
unfolding join
trim_dot-join [] h = unfold trim_dot in refl
trim_dot-join ([] ∷ ls) h = absurd (h.0.0 refl)
trim_dot-join ((c ∷ l) ∷ []) h = trim_label c l h.0.1
trim_dot-join ((c ∷ l) ∷ k ∷ ls) h =
    let (d, t, e) = join-cons k ls h.1.0 in
    trim_dot-append (c ∷ l) dot (join (k ∷ ls))
    ∙ ap (λ z. (c ∷ l) ++ z)
        (trim_dot_behind (join (k ∷ ls)) t d e ∙ ap (◌∷◌ dot) (trim_dot-join (k ∷ ls) h.1))

All-IsLabel-NoDot : (ls : List Bytes) → All IsLabel ls → All NoDot ls
All-IsLabel-NoDot [] h = tt
All-IsLabel-NoDot (l ∷ ls) h = (h.0.1, All-IsLabel-NoDot ls h.1)

split_nonempty :
    (s : Bytes) (c : ℕ) (t : Bytes) → s ≡ c ∷ t → (if eqb s [] then [] else split s) ≡ split s
split_nonempty s c t e = rw e (unfold eqb in refl)

-- The labels of a joined list of labels are that list.
pub labels_of-join : (ls : List Bytes) → All IsLabel ls → labels_of (join ls) ≡ ls
unfolding labels_of join
labels_of-join [] h = refl
labels_of-join (l ∷ ls) h =
    let (d, t, e) = join-cons l ls h.0 in
    rw (trim_dot-join (l ∷ ls) h)
      (split_nonempty (join (l ∷ ls)) d t e ∙ split-join l ls h.0.1 (All-IsLabel-NoDot ls h.1))
