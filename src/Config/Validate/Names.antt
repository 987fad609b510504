-- ===== src/Config/Validate/Names.antt =====
-- A loop that enters each name in a map of those seen, and refuses one that is there, sees no name twice.
use cotten_router.Prelude.{
  ◌≡◌, refl, sym, ap, ◌∙◌, ◌≢◌, ◌⊎◌, inl, inr, true, none, some, List, [], ◌∷◌, ◌++◌, Bool-cases,
  Bytes, bytes_eq, bytes_eq_iff, Assoc, lookup, insert, lookup-insert, In, Bytes_eq, nat_eq,
}

abbrev pub Unique : List Bytes → Type 0
Unique [] = Unit
Unique (x ∷ xs) = (¬ In x xs) × Unique xs

-- The names `ns` are new to the map `seen`, each once, and `seen'` has them all.
pub record Added (seen : Assoc Bytes Bytes) (ns : List Bytes) (seen' : Assoc Bytes Bytes)
    : Type 0 where
  pub unique : Unique ns
  pub absent : (n : Bytes) → In n ns → lookup n seen ≡ none
  pub kept : (k : Bytes) → lookup k seen' ≡ none → (lookup k seen ≡ none) × ¬ In k ns

pub Added-nil : (seen : Assoc Bytes Bytes) → Added seen [] seen
Added-nil seen = record { unique = tt; absent = λ n m. absurd m; kept = λ k h. (h, λ m. m) }

insert-none :
    (n k v : Bytes) (seen : Assoc Bytes Bytes)
    → lookup k (insert n v seen) ≡ none
    → (lookup k seen ≡ none) × (k ≢ n)
insert-none n k v seen h = elim (Bool-cases (bytes_eq n k)) [
  | inl same ↦
      absurd (let e : some v ≡ none = sym (lookup-insert n k v seen ∙ rw same refl) ∙ h in cc)
  | inr other ↦ (
    sym (lookup-insert n k v seen ∙ rw other refl) ∙ h,
    λ e. let t : bytes_eq n k ≡ true = (bytes_eq_iff n k).1 (sym e) in cc,
  )
]

In-append-cases : {A : Type 0} (x : A) (xs ys : List A) → In x (xs ++ ys) → In x xs ⊎ In x ys
In-append-cases x [] ys m = inr m
In-append-cases x (y ∷ xs) ys (inl e) = inl (inl e)
In-append-cases x (y ∷ xs) ys (inr m) = elim (In-append-cases x xs ys m) [
  | inl i ↦ inl (inr i)
  | inr j ↦ inr j
]

Unique-append :
    (xs ys : List Bytes)
    → Unique xs
    → Unique ys
    → ((x : Bytes) → In x xs → ¬ In x ys)
    → Unique (xs ++ ys)
Unique-append [] ys u w apart = w
Unique-append (x ∷ xs) ys u w apart = (
  λ m. elim (In-append-cases x xs ys m) [ inl i ↦ u.0 i | inr j ↦ apart x (inl refl) j ],
  Unique-append xs ys u.1 w (λ y i. apart y (inr i)),
)

pub Added-append :
    (seen mid end : Assoc Bytes Bytes) (ns ms : List Bytes)
    → Added seen ns mid
    → Added mid ms end
    → Added seen (ns ++ ms) end
Added-append seen mid end ns ms a b = record {
  unique = Unique-append ns ms a.unique b.unique (λ x i j. (a.kept x (b.absent x j)).1 i);
  absent = λ n m. elim (In-append-cases n ns ms m) [
    | inl i ↦ a.absent n i
    | inr j ↦ (a.kept n (b.absent n j)).0
  ];
  kept = λ k h.
      let r = b.kept k h in
      let s = a.kept k r.0 in
      (s.0, λ m. elim (In-append-cases k ns ms m) [ inl i ↦ s.1 i | inr j ↦ r.1 j ]);
}

pub Added-one :
    (n v : Bytes) (seen : Assoc Bytes Bytes)
    → lookup n seen ≡ none
    → Added seen (n ∷ []) (insert n v seen)
Added-one n v seen h = record {
  unique = (λ m. m, tt);
  absent = λ k m. elim m [ inl e ↦ ap (λ i. lookup i seen) e ∙ h | inr i ↦ absurd i ];
  kept =
      λ k g. let r = insert-none n k v seen g in (r.0, λ m. elim m [ inl e ↦ r.1 e | inr i ↦ i ]);
}
