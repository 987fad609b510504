-- ===== src/Router/Choice/Longest.antt =====
-- The first match of the sorted entries is the longest suffix of a name.
use cotten_router.Prelude.{
  ◌≤◌, ◌≡◌, refl, subst, ◌↔◌, ◌⊎◌, inl, inr, Option, none, some, List, [], ◌∷◌, arith, ltb,
  Bool-cases, Bytes, length, All, In, All-In, Bytes_eq, nat_eq,
}
use cotten_router.Router.Choice.{place, sort_entries, first_match, matches_domain_suffix}
use cotten_router.Router.Choice.Suffix.{IsWithin, matches_iff}

module _ {A : Type 0} (suffix : A → Bytes) where
  -- What is wanted of a choice among candidates: `none` if the name is within no domain of them, and
  -- else a candidate whose domain the name is within, and no longer domain is.
  abbrev pub Chooses : Bytes → List A → Option A → Type 0
  Chooses name es none = (e : A) → In e es → ¬ IsWithin name (suffix e)
  Chooses name es (some r) =
      In r es
      × IsWithin name (suffix r)
      × ((e : A) → In e es → IsWithin name (suffix e) → length (suffix e) ≤ length (suffix r))

  -- Domains fall in length along the table.
  abbrev IsSorted : List A → Type 0
  IsSorted [] = Unit
  IsSorted (e ∷ es) = All (λ (f : A). length (suffix f) ≤ length (suffix e)) es × IsSorted es

  In-place : (e f : A) (es : List A) → In f (place suffix e es) ↔ ((f ≡ e) ⊎ In f es)
  unfolding place
  In-place e f [] = (λ m. m, λ m. m)
  In-place e f (g ∷ es) = elim (Bool-cases (ltb (length (suffix e)) (length (suffix g)))) [
    | inl t ↦ rw t (
      elim [
        | inl m ↦ inr (inl m)
        | inr m ↦ elim ((In-place e f es).0 m) [ inl q ↦ inl q | inr q ↦ inr (inr q) ]
      ],
      elim [
        | inl m ↦ inr ((In-place e f es).1 (inl m))
        | inr m ↦ elim m [ inl q ↦ inl q | inr q ↦ inr ((In-place e f es).1 (inr q)) ]
      ],
    )
    | inr n ↦ rw n (λ m. m, λ m. m)
  ]

  place-All : (P : A → Type 0) (e : A) (es : List A) → P e → All P es → All P (place suffix e es)
  unfolding place
  place-All P e [] h a = (h, tt)
  place-All P e (f ∷ es) h a = elim (Bool-cases (ltb (length (suffix e)) (length (suffix f)))) [
    | inl t ↦ rw t (a.0, place-All P e es h a.1)
    | inr n ↦ rw n (h, a)
  ]

  All-mono-le :
      (e f : A) (es : List A)
      → length (suffix f) ≤ length (suffix e)
      → All (λ (g : A). length (suffix g) ≤ length (suffix f)) es
      → All (λ (g : A). length (suffix g) ≤ length (suffix e)) es
  All-mono-le e f [] h a = tt
  All-mono-le e f (g ∷ es) h a = (omega arith, All-mono-le e f es h a.1)

  place-IsSorted : (e : A) (es : List A) → IsSorted es → IsSorted (place suffix e es)
  unfolding place
  place-IsSorted e [] s = (tt, tt)
  place-IsSorted e (f ∷ es) s = elim (Bool-cases (ltb (length (suffix e)) (length (suffix f)))) [
    | inl t ↦ rw t (place-All _ e es (ground arith) s.0, place-IsSorted e es s.1)
    | inr n ↦
        let le : length (suffix f) ≤ length (suffix e) = ground arith in
        rw n ((le, All-mono-le e f es le s.0), s)
  ]

  sort_entries-IsSorted : (es : List A) → IsSorted (sort_entries suffix es)
  unfolding sort_entries
  sort_entries-IsSorted [] = tt
  sort_entries-IsSorted (e ∷ es) =
      place-IsSorted e (sort_entries suffix es) (sort_entries-IsSorted es)

  In-sort_entries : (f : A) (es : List A) → In f (sort_entries suffix es) ↔ In f es
  unfolding sort_entries
  In-sort_entries f [] = (λ m. m, λ m. m)
  In-sort_entries f (e ∷ es) =
      let placed = In-place e f (sort_entries suffix es) in
      let rest = In-sort_entries f es in
      (
        λ m. elim (placed.0 m) [ inl q ↦ inl q | inr q ↦ inr (rest.0 q) ],
        λ m. placed.1 (elim m [ inl q ↦ inl q | inr q ↦ inr (rest.1 q) ]),
      )

  Chooses-skip :
      (name : Bytes) (e : A) (es : List A) (o : Option A)
      → ¬ IsWithin name (suffix e)
      → Chooses name es o
      → Chooses name (e ∷ es) o
  Chooses-skip name e es none miss c =
      λ f m w. elim m [ inl q ↦ miss (subst (λ g. IsWithin name (suffix g)) q w) | inr q ↦ c f q w ]
  Chooses-skip name e es (some r) miss c = (
    inr c.0,
    c.1,
    λ f m w. elim m [
      | inl q ↦ absurd (miss (subst (λ g. IsWithin name (suffix g)) q w))
      | inr q ↦ c.2 f q w
    ],
  )

  Chooses-perm :
      (name : Bytes) (es fs : List A) (o : Option A)
      → ((e : A) → In e es ↔ In e fs)
      → Chooses name es o
      → Chooses name fs o
  Chooses-perm name es fs none same c = λ e m. c e ((same e).1 m)
  Chooses-perm name es fs (some r) same c = ((same r).0 c.0, c.1, λ e m. c.2 e ((same e).1 m))

  first_match-Chooses :
      (name : Bytes) (es : List A) → IsSorted es → Chooses name es (first_match suffix name es)
  unfolding first_match
  first_match-Chooses name [] s = λ e m. absurd m
  first_match-Chooses name (e ∷ es) s = elim (Bool-cases (matches_domain_suffix name (suffix e))) [
    | inl hit ↦ rw hit (
      inl refl,
      (matches_iff name (suffix e)).0 hit,
      λ f m w. elim m [
        | inl q ↦ rw q (omega arith)
        | inr q ↦ All-In (λ (g : A). length (suffix g) ≤ length (suffix e)) f es s.0 q
      ],
    )
    | inr miss ↦ rw miss (
        Chooses-skip name e es (first_match suffix name es)
          (λ w. let hit = (matches_iff name (suffix e)).1 w in cc)
          (first_match-Chooses name es s.1))
  ]

  -- Sorting and taking the first match chooses among the entries as they were.
  pub chosen :
      (name : Bytes) (es : List A)
      → Chooses name es (first_match suffix name (sort_entries suffix es))
  chosen name es =
      Chooses-perm name (sort_entries suffix es) es _ (λ e. In-sort_entries e es)
        (first_match-Chooses name (sort_entries suffix es) (sort_entries-IsSorted es))
