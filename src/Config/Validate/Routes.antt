-- ===== src/Config/Validate/Routes.antt =====
-- What the loops of Validate over the routes and their domains let through.
use cotten_router.Prelude.{
  ◌≡◌, refl, sym, subst, ◌∙◌, ◌⊎◌, inl, inr, Bool, true, false, not, ◌&&◌, ◌||◌, Option, none, some,
  List, [], ◌∷◌, ◌++◌, ◌==◌, Bool-cases, Bytes, codes, bytes_eq, bytes_eq_iff, length, All, ok,
  ◌>>◌, reject, or_err, >>=-ok, reject-ok, ok-inj, or_err-ok, Assoc, lookup, insert, Bytes_eq,
  nat_eq,
}
use cotten_router.Dns.Text.{Unicode, normalize_domain}
use cotten_router.Config.Types.{Route}
use cotten_router.Config.Platform.{
  backend_not_loopback, invalid_backend, route_without_name, route_without_domain,
  tcp_backend_not_loopback, invalid_tcp_backend, is_local, SockAddr, is_empty, Platform,
}
use cotten_router.Config.Listeners.{validate_tcp_backend}
use cotten_router.Config.Validate.{
  validate_verify, trim_space, validate_routes, validate_route_tcp, is_none, validate_domains,
}
use cotten_router.Config.Validate.Names.{Added, Added-nil, Added-one, Added-append}

-- All domains of all routes.
abbrev pub all_domains : List Route → List Bytes
all_domains [] = []
all_domains (r ∷ routes) = r.domains ++ all_domains routes

pub is_none-eq : {A : Type 0} (o : Option A) → not (is_none o) ≡ false → o ≡ none
is_none-eq none h = refl
is_none-eq (some a) h = absurd (cc h)

module _ (u : Unicode) where
  -- A name in the form that normalize_domain gives.
  abbrev pub IsNormal : Bytes → Type 0
  IsNormal d = (given : Bytes) × (normalize_domain u given ≡ some d)

module _ (u : Unicode) (pf : Platform) where
  validate_domains-Added :
      (owner : Bytes) (domains : List Bytes) (seen : Assoc Bytes Bytes)
      (r : Assoc Bytes Bytes × List Bytes)
      → validate_domains u pf owner seen domains ≡ ok r
      → Added seen r.1 r.0 × All (IsNormal u) r.1
  unfolding validate_domains
  validate_domains-Added owner [] seen r h =
      let e : r ≡ (seen, []) = cc in
      subst (λ (p : Assoc Bytes Bytes × List Bytes). Added seen p.1 p.0 × All (IsNormal u) p.1)
        (sym e) (Added-nil seen, tt)
  validate_domains-Added owner (d ∷ domains) seen r h =
      let (n, e, h1) = >>=-ok _ _ h in
      let (_, f_ok, h2) = >>=-ok _ _ h1 in
      let (rest, g, h3) = >>=-ok _ _ h2 in
      let new = is_none-eq (lookup n seen) (reject-ok _ _ f_ok) in
      let (a, normal) = validate_domains-Added owner domains (insert n owner seen) rest g in
      let one = Added-one n owner seen new in
      let same : (rest.0, n ∷ rest.1) ≡ r = cc in
      subst (λ (p : Assoc Bytes Bytes × List Bytes). Added seen p.1 p.0 × All (IsNormal u) p.1) same
        (
          Added-append seen (insert n owner seen) rest.0 (n ∷ []) rest.1 one a,
          ((d, or_err-ok _ _ e), normal),
        )

-- The text of an address that may be a backend: a loopback address, unless remote ones are allowed.
abbrev pub IsBackend : Platform → Bool → Bytes → Type 0
IsBackend pf allow_remote s =
    (a : SockAddr) × (s ≡ pf.text a) × (allow_remote || is_local a.ip ≡ true)

abbrev pub IsTcpBackend : Platform → Bool → Bytes → Type 0
IsTcpBackend pf allow_remote s =
    IsBackend pf allow_remote s ⊎ ((s ≡ codes "disabled") ⊎ (s ≡ codes "udp"))

pub record RouteOk (u : Unicode) (pf : Platform) (allow_remote : Bool) (r : Route) : Type 0 where
  pub named : is_empty r.name ≡ false
  pub normal : All (IsNormal u) r.domains
  pub backend : IsBackend pf allow_remote r.backend
  pub tcp_backend : IsTcpBackend pf allow_remote r.tcp_backend

remote_or_local : (remote near : Bool) → not remote && not near ≡ false → remote || near ≡ true
remote_or_local true near h = refl
remote_or_local false true h = refl
remote_or_local false false h = absurd (cc h)

module _ (u : Unicode) (pf : Platform) (remote : Bool) where
  pub validate_tcp_backend-IsBackend :
      (value s : Bytes) → validate_tcp_backend u pf remote value ≡ ok s → IsBackend pf remote s
  unfolding validate_tcp_backend
  validate_tcp_backend-IsBackend value s h =
      let (a, e, h1) =
        >>=-ok (or_err (pf.resolve_tcp value) invalid_tcp_backend)
          (λ (a : SockAddr).
            reject (not remote && not (is_local a.ip)) tcp_backend_not_loopback >> ok (pf.text a))
          h in
      let (_, f_ok, h2) = >>=-ok _ _ h1 in
      (a, sym (ok-inj h2), remote_or_local remote (is_local a.ip) (reject-ok _ _ f_ok))

  validate_route_tcp-IsTcpBackend :
      (backend value s : Bytes)
      → IsBackend pf remote backend
      → validate_route_tcp u pf remote backend value ≡ ok s
      → IsTcpBackend pf remote s
  unfolding validate_route_tcp
  validate_route_tcp-IsTcpBackend backend value s b h = elim (Bool-cases (is_empty value)) [
    | inl empty ↦
        let e : backend ≡ s = ok-inj (rw empty at h) in inl (subst (IsBackend pf remote) e b)
    | inr some_text ↦ elim (Bool-cases (bytes_eq value (codes "disabled"))) [
      | inl off ↦
          let e : value ≡ s = ok-inj (rw (some_text, off) at h) in
          inr (inl (sym e ∙ (bytes_eq_iff value (codes "disabled")).0 off))
      | inr on ↦ elim (Bool-cases (bytes_eq value (codes "udp"))) [
        | inl udp ↦
            let e : value ≡ s = ok-inj (rw (some_text, on, udp) at h) in
            inr (inr (sym e ∙ (bytes_eq_iff value (codes "udp")).0 udp))
        | inr tcp ↦
            let body : validate_tcp_backend u pf remote value ≡ ok s =
              unfold validate_tcp_backend in rw (some_text, on, tcp) at h in
            inl (validate_tcp_backend-IsBackend value s body)
      ]
    ]
  ]

  -- The domains are new to those seen, each once, and the routes are in order.
  abbrev pub Collected : Assoc Bytes Bytes → List Route → Type 0
  Collected seen rs =
      (seen' : Assoc Bytes Bytes) × Added seen (all_domains rs) seen' × All (RouteOk u pf remote) rs

  pub validate_routes-Added :
      (routes : List Route) (seen : Assoc Bytes Bytes) (rs : List Route)
      → validate_routes u pf remote seen routes ≡ ok rs
      → Collected seen rs
  unfolding validate_routes
  validate_routes-Added [] seen rs h =
      let none_yet : Collected seen [] = (seen, Added-nil seen, tt) in
      subst (Collected seen) (ok-inj h) none_yet
  validate_routes-Added (r ∷ routes) seen rs h =
      let (_, named_ok, h1) =
        >>=-ok (reject (is_empty (trim_space u r.name)) route_without_name) _ h in
      let (_, some_domain_ok, h2) =
        >>=-ok (reject (length r.domains == 0) route_without_domain) _ h1 in
      let (a, resolved, h3) = >>=-ok (or_err (pf.resolve_udp r.backend) invalid_backend) _ h2 in
      let (_, allowed_ok, h4) =
        >>=-ok (reject (not remote && not (is_local a.ip)) backend_not_loopback) _ h3 in
      let (tcp, tcp_ok, h5) =
        >>=-ok (validate_route_tcp u pf remote (pf.text a) r.tcp_backend) _ h4 in
      let (key, key_ok, h6) = >>=-ok (validate_verify u pf r) _ h5 in
      let (domains, domains_ok, h7) =
        >>=-ok (validate_domains u pf (trim_space u r.name) seen r.domains) _ h6 in
      let (rest, rest_ok, h8) = >>=-ok (validate_routes u pf remote domains.0 routes) _ h7 in
      let name = trim_space u r.name in
      let (added, normal) = validate_domains-Added u pf name r.domains seen domains domains_ok in
      let (end, more, fine) = validate_routes-Added routes domains.0 rest rest_ok in
      let b : IsBackend pf remote (pf.text a) =
        (a, refl, remote_or_local remote (is_local a.ip) (reject-ok _ _ allowed_ok)) in
      let first : Route = record r {
        name = name;
        domains = domains.1;
        backend = pf.text a;
        tcp_backend = tcp;
        verify_key = key;
      } in
      let fits : RouteOk u pf remote first = record {
        named = reject-ok _ _ named_ok;
        normal = normal;
        backend = b;
        tcp_backend = validate_route_tcp-IsTcpBackend (pf.text a) r.tcp_backend tcp b tcp_ok;
      } in
      let out : Collected seen (first ∷ rest) = (
        end,
        Added-append seen domains.0 end domains.1 (all_domains rest) added more,
        (fits, fine),
      ) in
      subst (Collected seen) (ok-inj h8) out
