-- ===== src/Router/Table/Determined.antt =====
-- In a configuration that Validate accepts, a name's route does not depend on how equal lengths are sorted.
use cotten_router.Prelude.{
  ◌-◌, ◌≡◌, refl, sym, ap, subst, ◌∙◌, inl, inr, Option, none, some, List, [], ◌∷◌, ◌++◌, map,
  append_assoc, arith, Bytes, length, drop, length-append, drop-length-append, ok, In, Bytes_eq,
  nat_eq,
}
use cotten_router.Dns.Text.{Unicode, to_lower, trim_suffix}
use cotten_router.Config.Types.{Route, Settings}
use cotten_router.Config.Platform.{Platform}
use cotten_router.Config.Validate.{validate}
use cotten_router.Config.Validate.Names.{Unique}
use cotten_router.Config.Validate.Routes.{all_domains}
use cotten_router.Config.Validate.Accepted.{validate-Accepted}
use cotten_router.Router.Choice.Suffix.{IsWithin}
use cotten_router.Router.Choice.Longest.{Chooses}
use cotten_router.Router.Table.{RouteEntry, entry, entries, new_route_table, match_route}
use cotten_router.Router.Table.Longest.{match_route-Chooses}

-- The end of the name of that length.
IsWithin-end :
    (name suffix : Bytes) → IsWithin name suffix → drop (length name - length suffix) name ≡ suffix
IsWithin-end name suffix (inl e) =
    subst (λ n. drop (length n - length suffix) n ≡ suffix) (sym e)
      (let none_over : length suffix - length suffix ≡ 0 = omega arith in rw none_over refl)
IsWithin-end name suffix (inr (p, e)) =
    let front = p ++ b'.' ∷ [] in
    let split : name ≡ front ++ suffix = e ∙ sym (append_assoc p (b'.' ∷ []) suffix) in
    subst (λ n. drop (length n - length suffix) n ≡ suffix) (sym split)
      (let over : length (front ++ suffix) - length suffix ≡ length front =
          omega (arith, length-append front suffix) in
        rw over (drop-length-append front suffix))

-- Two suffixes of a name of the same length are the same.
same_end : (name a b : Bytes) → IsWithin name a → IsWithin name b → length a ≡ length b → a ≡ b
same_end name a b v w same =
    sym (IsWithin-end name a v) ∙ ap (λ n. drop (length name - n) name) same ∙ IsWithin-end name b w

In-map : {A : Type 0} (f : A → Bytes) (x : A) (xs : List A) → In x xs → In (f x) (map f xs)
In-map f x [] i = absurd i
In-map f x (y ∷ xs) (inl e) = inl (ap f e)
In-map f x (y ∷ xs) (inr i) = inr (In-map f x xs i)

module _ {A : Type 0} (suffix : A → Bytes) where
  same_entry :
      (es : List A) (x y : A)
      → Unique (map suffix es)
      → In x es
      → In y es
      → suffix x ≡ suffix y
      → x ≡ y
  same_entry [] x y u i j e = absurd i
  same_entry (z ∷ es) x y u (inl p) (inl q) e = p ∙ sym q
  same_entry (z ∷ es) x y u (inl p) (inr j) e =
      absurd (u.0 (subst (λ s. In s (map suffix es)) (sym e ∙ ap suffix p) (In-map suffix y es j)))
  same_entry (z ∷ es) x y u (inr i) (inl q) e =
      absurd (u.0 (subst (λ s. In s (map suffix es)) (e ∙ ap suffix q) (In-map suffix x es i)))
  same_entry (z ∷ es) x y u (inr i) (inr j) e = same_entry es x y u.1 i j e

  -- Among entries with different suffixes there is one choice for a name.
  Chooses-one :
      (name : Bytes) (es : List A) (o o' : Option A)
      → Unique (map suffix es)
      → Chooses suffix name es o
      → Chooses suffix name es o'
      → o ≡ o'
  Chooses-one name es none none u c d = refl
  Chooses-one name es none (some y) u c d = absurd (c y d.0 d.1)
  Chooses-one name es (some x) none u c d = absurd (d x c.0 c.1)
  Chooses-one name es (some x) (some y) u c d =
      let longer = c.2 y d.0 d.1 in
      let shorter = d.2 x c.0 c.1 in
      let same : length (suffix x) ≡ length (suffix y) = omega (arith, longer, shorter) in
      ap some (same_entry es x y u c.0 d.0 (same_end name (suffix x) (suffix y) c.1 d.1 same))

abbrev domain_of : RouteEntry → Bytes
domain_of e = e.domain

domains_of_route :
    (r : Route) (ds : List Bytes) (es : List RouteEntry)
    → map domain_of (map (entry r) ds ++ es) ≡ ds ++ map domain_of es
domains_of_route r [] es = refl
domains_of_route r (d ∷ ds) es = ap (λ l. d ∷ l) (domains_of_route r ds es)

domains_of_entries : (routes : List Route) → map domain_of (entries routes) ≡ all_domains routes
unfolding entries
domains_of_entries [] = refl
domains_of_entries (r ∷ routes) =
    domains_of_route r r.domains (entries routes)
    ∙ ap (λ l. r.domains ++ l) (domains_of_entries routes)

-- In a configuration that Validate accepts, whatever entry or absence of one is a choice of the longest
-- configured domain that a name is within is what the lookup gives: the choice is unique, and the order
-- in which the sorting leaves domains of equal length does not matter.
pub match_route-determined :
    (u : Unicode) (pf : Platform) (given c : Settings) (qname : Bytes) (o : Option RouteEntry)
    → validate u pf given ≡ ok c
    → Chooses
        (λ (e : RouteEntry). e.domain)
        (to_lower u (trim_suffix qname (b'.' ∷ [])))
        (entries c.routes)
        o
    → match_route u qname (new_route_table c.routes) ≡ o
match_route-determined u pf given c qname o h chosen =
    let unique =
      subst Unique (sym (domains_of_entries c.routes)) (validate-Accepted u pf given c h).domains in
    Chooses-one domain_of (to_lower u (trim_suffix qname (b'.' ∷ []))) (entries c.routes) _ o unique
      (match_route-Chooses u qname c.routes) chosen
