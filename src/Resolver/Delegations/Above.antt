-- ===== src/Resolver/Delegations/Above.antt =====
-- The names that the loop of closestEnclosing in resolver/delegationcache.go turns to.
use dns_resolver.Text.Split.{eqb_iff}
use dns_resolver.Resolver.Delegations.{zones_above, zones}
use dns_resolver.Text.{eqb, dot}
use dns_resolver.Prelude.{
  Bytes, List, ◌≡◌, ◌⊎◌, [], ◌∷◌, ◌++◌, Member, inl, inr, All, length, ◌≤◌, Bool-cases, arith, ℕ,
  ◌==◌, subst, ap, ◌↔◌, refl, sym, ◌∙◌, true, ==_iff,
}

-- What stands behind a dot of the text, and the root.
abbrev Behind : Bytes → Bytes → Type 0
Behind z s = (z ≡ []) ⊎ ((p : Bytes) × (s ≡ p ++ (dot ∷ z)))

-- The zones that a name is in: the name itself, what follows one of its dots, and the root, which
-- is the empty name.
abbrev pub IsAbove : Bytes → Bytes → Type 0
IsAbove z name = (z ≡ name) ⊎ ((z ≡ []) ⊎ ((p : Bytes) × (name ≡ p ++ (dot ∷ z))))

Behind-cons : (z s : Bytes) (c : ℕ) → Behind z s → Behind z (c ∷ s)
Behind-cons z s c (inl root) = inl root
Behind-cons z s c (inr (p, e)) = inr (c ∷ p, ap (◌∷◌ c) e)

-- A text is not behind a dot of itself, so what is behind a dot of `c ∷ s` is `s` or behind a dot of it.
Behind-tail :
    (z s : Bytes) (c : ℕ) → Behind z (c ∷ s) → (z ≡ []) ⊎ ((c ≡ dot) × (z ≡ s)) ⊎ Behind z s
Behind-tail z s c (inl root) = inl root
Behind-tail z s c (inr ([], e)) = inr (inl (cc, cc))
Behind-tail z s c (inr (d ∷ p, e)) = inr (inr (inr (p, cc)))

root-zones_above : (s : Bytes) → Member [] (zones_above s)
unfolding zones_above
root-zones_above [] = inl refl
root-zones_above (c ∷ s) = elim (Bool-cases (c == dot)) [
  | inr other ↦ rw other (root-zones_above s)
  | inl at_dot ↦ elim (Bool-cases (eqb s [])) [
    | inl end ↦ rw (at_dot, end) (inl refl)
    | inr more ↦ rw (at_dot, more) (inr (root-zones_above s))
  ]
]

Behind-zones_above : (z s : Bytes) → Behind z s → Member z (zones_above s)
unfolding zones_above
Behind-zones_above z [] (inl root) = inl root
Behind-zones_above z [] (inr ([], e)) = absurd (cc)
Behind-zones_above z [] (inr (d ∷ p, e)) = absurd (cc)
Behind-zones_above z (c ∷ s) h = elim (Behind-tail z s c h) [
  | inl root ↦ subst (λ x. Member x (zones_above (c ∷ s))) (sym root) (root-zones_above (c ∷ s))
  | inr (inl (at_dot, same)) ↦
      let hit : (c == dot) ≡ true = (==_iff c dot).1 at_dot in
      elim (Bool-cases (eqb s [])) [
        | inl end ↦ rw (hit, end) (inl (same ∙ (eqb_iff s []).0 end))
        | inr more ↦ rw (hit, more) (inl same)
      ]
  | inr (inr below) ↦ elim (Bool-cases (c == dot)) [
    | inr other ↦ rw other (Behind-zones_above z s below)
    | inl hit ↦ elim (Bool-cases (eqb s [])) [
      | inr more ↦ rw (hit, more) (inr (Behind-zones_above z s below))
      | inl end ↦ rw (hit, end) (only z s below ((eqb_iff s []).0 end))
    ]
  ]
]
  where
    only : (z s : Bytes) → Behind z s → s ≡ [] → Member z ([] ∷ [])
    only z s (inl root) e = inl root
    only z s (inr ([], f)) e = absurd (cc)
    only z s (inr (d ∷ p, f)) e = absurd (cc)

zones_above-Behind : (z s : Bytes) → Member z (zones_above s) → Behind z s
unfolding zones_above
zones_above-Behind z [] (inl root) = inl root
zones_above-Behind z [] (inr none_left) = absurd (none_left)
zones_above-Behind z (c ∷ s) h = elim (Bool-cases (c == dot)) [
  | inr other ↦
      let m : Member z (zones_above s) = (rw other at h) in
      Behind-cons z s c (zones_above-Behind z s m)
  | inl hit ↦
      let at_dot : c ≡ dot = (==_iff c dot).0 hit in
      elim (Bool-cases (eqb s [])) [
        | inl end ↦ let m : Member z ([] ∷ []) = (rw (hit, end) at h) in only m
        | inr more ↦
            let m : Member z (s ∷ zones_above s) = (rw (hit, more) at h) in
            next (zones_above-Behind z s) at_dot m
      ]
]
  where
    only : Member z ([] ∷ []) → Behind z (c ∷ s)
    only (inl root) = inl root
    only (inr none_left) = absurd (none_left)

    next :
        (Member z (zones_above s) → Behind z s)
        → c ≡ dot
        → Member z (s ∷ zones_above s)
        → Behind z (c ∷ s)
    next rec at_dot (inl same) = inr ([], ap (λ x. x ∷ s) at_dot ∙ ap (◌∷◌ dot) (sym same))
    next rec at_dot (inr m) = Behind-cons z s c (rec m)

pub zones-IsAbove : (z name : Bytes) → Member z (zones name) ↔ IsAbove z name
unfolding zones
zones-IsAbove z [] = (to, from)
  where
    to : Member z ([] ∷ []) → IsAbove z []
    to (inl root) = inl root
    to (inr none_left) = absurd (none_left)

    from : IsAbove z [] → Member z ([] ∷ [])
    from (inl root) = inl root
    from (inr (inl root)) = inl root
    from (inr (inr ([], e))) = absurd (cc)
    from (inr (inr (d ∷ p, e))) = absurd (cc)
zones-IsAbove z (c ∷ s) = (to, from)
  where
    to : Member z ((c ∷ s) ∷ zones_above (c ∷ s)) → IsAbove z (c ∷ s)
    to (inl same) = inl same
    to (inr m) = inr (zones_above-Behind z (c ∷ s) m)

    from : IsAbove z (c ∷ s) → Member z ((c ∷ s) ∷ zones_above (c ∷ s))
    from (inl same) = inl same
    from (inr b) = inr (Behind-zones_above z (c ∷ s) b)

-- No name is longer than the ones in front of it.
abbrev pub Shortens : List Bytes → Type 0
Shortens [] = Unit
Shortens (z ∷ zs) = All (λ y. length y ≤ length z) zs × Shortens zs

-- No name is longer than `n`.
widened :
    (n m : ℕ) (zs : List Bytes) → n ≤ m → All (λ y. length y ≤ n) zs → All (λ y. length y ≤ m) zs
widened n m [] le h = tt
widened n m (z ∷ zs) le h = (omega (arith, h.0, le), widened n m zs le h.1)

zones_above-short : (s : Bytes) → All (λ y. length y ≤ length s) (zones_above s)
unfolding zones_above
zones_above-short [] = (omega arith, tt)
zones_above-short (c ∷ s) =
    let rest =
      widened (length s) (length (c ∷ s)) (zones_above s) (omega arith) (zones_above-short s) in
    elim (Bool-cases (c == dot)) [
      | inr other ↦ rw other rest
      | inl hit ↦ elim (Bool-cases (eqb s [])) [
        | inl end ↦ rw (hit, end) (omega arith, tt)
        | inr more ↦ rw (hit, more) (omega arith, rest)
      ]
    ]

zones_above-Shortens : (s : Bytes) → Shortens (zones_above s)
unfolding zones_above
zones_above-Shortens [] = (tt, tt)
zones_above-Shortens (c ∷ s) = elim (Bool-cases (c == dot)) [
  | inr other ↦ rw other (zones_above-Shortens s)
  | inl hit ↦ elim (Bool-cases (eqb s [])) [
    | inl end ↦ rw (hit, end) (tt, tt)
    | inr more ↦ rw (hit, more) (zones_above-short s, zones_above-Shortens s)
  ]
]

pub zones-Shortens : (name : Bytes) → Shortens (zones name)
unfolding zones
zones-Shortens [] = (tt, tt)
zones-Shortens (c ∷ s) = (zones_above-short (c ∷ s), zones_above-Shortens (c ∷ s))
