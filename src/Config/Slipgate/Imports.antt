-- ===== src/Config/Slipgate/Imports.antt =====
-- Which tunnels become routes, and what keys they pin.
use cotten_router.Prelude.{
  ◌%◌, ◌^◌, ◌≡◌, refl, sym, subst, ◌↔◌, ◌⊎◌, inl, inr, true, false, not, ◌||◌, Option, none, some,
  List, [], ◌∷◌, ◌++◌, arith, Bool-cases, Option-cases, Bytes, codes, bytes_eq, bytes_eq_iff,
  Result, ok, reject, >>=-ok, reject-ok, ok-inj, In, Bytes_eq, if_cases, nat_eq,
}
use cotten_router.Dns.Text.{Unicode}
use cotten_router.Config.Types.{VerifyConfig, Route}
use cotten_router.Config.Platform.{Platform, is_empty}
use cotten_router.Config.Validate.{outside, key_from_file, load_verify_key}
use cotten_router.Config.Validate.Accepted.{InRange}
use cotten_router.Config.Slipgate.{
  TunnelKey, SlipGateTunnel, SlipGateError, invalid_tunnel, is_dns_transport, digits, hex_text,
  pinned_key, pinned_certificate, tunnel_verify, tunnel_route, tunnel_routes,
}
use cotten_router.Config.Slipgate.Decimal.{Decimal, digits-Decimal}

-- The transports that carry queries on port 53.
abbrev pub dns_transports : List Bytes
dns_transports =
    codes "dnstt" ∷ codes "vaydns" ∷ codes "slipstream" ∷ codes "soar" ∷ codes "external" ∷ []

-- A tunnel that LoadSlipGateRoutes imports.
abbrev pub IsImported : SlipGateTunnel → Type 0
IsImported t = (t.enabled ≡ true) × In t.transport dns_transports

-- What the section of dnstt or vaydns pins: its public key, where the file has the section and the key.
pub data PublicKey : Option TunnelKey → Option VerifyConfig → Type 0 where
  no_section : PublicKey none none
  no_key : (k : TunnelKey) → is_empty k.public_key ≡ true → PublicKey (some k) none
  key :
      (k : TunnelKey)
      → is_empty k.public_key ≡ false
      → PublicKey (some k) (some (record { key = k.public_key; cert_file = []; mtu = k.mtu }))

-- What the section of slipstream pins: the hash of its certificate in hexadecimal.
pub data Certificate (u : Unicode) (pf : Platform)
    : Option Bytes → Option VerifyConfig → Type 0 where
  no_section : Certificate u pf none none
  no_file : (cert : Bytes) → is_empty cert ≡ true → Certificate u pf (some cert) none
  hash :
      (cert hash : Bytes)
      → is_empty cert ≡ false
      → key_from_file u pf cert ≡ some hash
      → Certificate u pf
          (some cert)
          (some (record { key = hex_text hash; cert_file = []; mtu = 0 }))

-- What each transport pins, and from which section of the tunnel.
pub data Pins (u : Unicode) (pf : Platform) (t : SlipGateTunnel) (v : Option VerifyConfig)
    : Type 0 where
  of_dnstt : t.transport ≡ codes "dnstt" → PublicKey t.dnstt v → Pins u pf t v
  of_vaydns : t.transport ≡ codes "vaydns" → PublicKey t.vaydns v → Pins u pf t v
  of_slipstream : t.transport ≡ codes "slipstream" → Certificate u pf t.slipstream v → Pins u pf t v
  of_other :
      (t.transport ≡ codes "soar") ⊎ (t.transport ≡ codes "external") → v ≡ none → Pins u pf t v

-- The route stands for the tunnel: its name is the tunnel's tag behind a prefix, its one domain the
-- tunnel's, its backend the tunnel's port on this machine in decimal, by UDP for both kinds of query,
-- and its verify settings what the transport pins.
pub record StandsFor (u : Unicode) (pf : Platform) (t : SlipGateTunnel) (r : Route) : Type 0 where
  pub name : r.name ≡ codes "slipgate:" ++ t.tag
  pub some_tag : is_empty t.tag ≡ false
  pub domains : r.domains ≡ t.domain ∷ []
  pub some_domain : is_empty t.domain ≡ false
  pub backend :
      (text : Bytes) × (r.backend ≡ codes "127.0.0.1:" ++ text) × Decimal (t.port % 2 ^ 64) text
  pub port : InRange 1 65535 t.port
  pub tcp_backend : r.tcp_backend ≡ codes "udp"
  pub verify : Pins u pf t r.verify

-- The routes are those of the imported tunnels, in their order, and of no others.
pub data Imported (u : Unicode) (pf : Platform) : List SlipGateTunnel → List Route → Type 0 where
  none_left : Imported u pf [] []
  passed_over :
      (t : SlipGateTunnel) (ts : List SlipGateTunnel) (rs : List Route)
      → ¬ IsImported t
      → Imported u pf ts rs
      → Imported u pf (t ∷ ts) rs
  taken :
      (t : SlipGateTunnel) (r : Route) (ts : List SlipGateTunnel) (rs : List Route)
      → IsImported t
      → StandsFor u pf t r
      → Imported u pf ts rs
      → Imported u pf (t ∷ ts) (r ∷ rs)

is_dns_transport_iff :
    (transport : Bytes) → (is_dns_transport transport ≡ true) ↔ In transport dns_transports
unfolding is_dns_transport
is_dns_transport_iff transport =
    let d = bytes_eq_iff transport (codes "dnstt") in
    let s = bytes_eq_iff transport (codes "slipstream") in
    let v = bytes_eq_iff transport (codes "vaydns") in
    let o = bytes_eq_iff transport (codes "soar") in
    let e = bytes_eq_iff transport (codes "external") in
    (λ h. ground (arith, h, d, s, v, o, e), λ i. ground (arith, i, d, s, v, o, e))

bytes_clash : (s t : Bytes) → bytes_eq s t ≡ false → s ≡ t → ⊥
bytes_clash s t other e = let same = (bytes_eq_iff s t).1 e in cc

module _ (u : Unicode) (pf : Platform) where
  pinned_key-PublicKey : (o : Option TunnelKey) → PublicKey o (pinned_key o)
  pinned_key-PublicKey none = no_section
  pinned_key-PublicKey (some k) =
      if_cases (PublicKey (some k)) (is_empty k.public_key) _ _ (λ e. no_key k e) (λ e. key k e)

  pinned_certificate-Certificate :
      (o : Option Bytes) (v : Option VerifyConfig)
      → pinned_certificate u pf o ≡ ok v
      → Certificate u pf o v
  unfolding pinned_certificate load_verify_key
  pinned_certificate-Certificate none v h = subst (Certificate u pf none) (ok-inj h) no_section
  pinned_certificate-Certificate (some cert) v h = elim (Bool-cases (is_empty cert)) [
    | inl e ↦ subst (Certificate u pf (some cert)) (ok-inj (rw e at h)) (no_file cert e)
    | inr e ↦ elim (Option-cases (key_from_file u pf cert)) [
      | inl f ↦ absurd (let bad = rw (e, f) at h in cc)
      | inr (k, f) ↦
          subst (Certificate u pf (some cert)) (ok-inj (rw (e, f) at h)) (hash cert k e f)
    ]
  ]

  tunnel_verify-Pins :
      (t : SlipGateTunnel) (v : Option VerifyConfig)
      → In t.transport dns_transports
      → tunnel_verify u pf t ≡ ok v
      → Pins u pf t v
  unfolding tunnel_verify
  tunnel_verify-Pins t v i =
      let P = λ (r : Result SlipGateError (Option VerifyConfig)). r ≡ ok v → Pins u pf t v in
      if_cases P (bytes_eq t.transport (codes "dnstt")) _ _
        (λ e h.
          of_dnstt ((bytes_eq_iff _ _).0 e)
            (subst (PublicKey t.dnstt) (ok-inj h) (pinned_key-PublicKey t.dnstt)))
        (λ n1.
          if_cases P (bytes_eq t.transport (codes "vaydns")) _ _
            (λ e h.
              of_vaydns ((bytes_eq_iff _ _).0 e)
                (subst (PublicKey t.vaydns) (ok-inj h) (pinned_key-PublicKey t.vaydns)))
            (λ n2.
              if_cases P (bytes_eq t.transport (codes "slipstream")) _ _
                (λ e h.
                  of_slipstream ((bytes_eq_iff _ _).0 e)
                    (pinned_certificate-Certificate t.slipstream v h))
                (λ n3 h. of_other (others n1 n2 n3 i) (sym (ok-inj h)))))
    where
      others :
          bytes_eq t.transport (codes "dnstt") ≡ false
          → bytes_eq t.transport (codes "vaydns") ≡ false
          → bytes_eq t.transport (codes "slipstream") ≡ false
          → In t.transport dns_transports
          → (t.transport ≡ codes "soar") ⊎ (t.transport ≡ codes "external")
      others n1 n2 n3 (inl e) = absurd (bytes_clash _ _ n1 e)
      others n1 n2 n3 (inr (inl e)) = absurd (bytes_clash _ _ n2 e)
      others n1 n2 n3 (inr (inr (inl e))) = absurd (bytes_clash _ _ n3 e)
      others n1 n2 n3 (inr (inr (inr (inl e)))) = inl e
      others n1 n2 n3 (inr (inr (inr (inr (inl e))))) = inr e
      others n1 n2 n3 (inr (inr (inr (inr (inr e))))) = absurd e

  tunnel_route-StandsFor :
      (t : SlipGateTunnel) (r : Route)
      → In t.transport dns_transports
      → tunnel_route u pf t ≡ ok r
      → StandsFor u pf t r
  unfolding tunnel_route
  tunnel_route-StandsFor t r i h =
      let bad = is_empty t.tag || is_empty t.domain || outside 1 65535 t.port in
      let (_, a, h1) = >>=-ok (reject bad invalid_tunnel) _ h in
      let (verify, b, h2) = >>=-ok (tunnel_verify u pf t) _ h1 in
      let good = reject-ok bad invalid_tunnel a in
      let port : InRange 1 65535 t.port = ground (arith, good) in
      let made : StandsFor u pf t (record {
        name = codes "slipgate:" ++ t.tag;
        domains = t.domain ∷ [];
        backend = codes "127.0.0.1:" ++ digits 20 (t.port % 2 ^ 64);
        tcp_backend = codes "udp";
        verify = verify;
        verify_key = [];
      }) =
        record {
          name = refl;
          some_tag = ground (arith, good);
          domains = refl;
          some_domain = ground (arith, good);
          backend =
              (digits 20 (t.port % 2 ^ 64), refl, digits-Decimal (t.port % 2 ^ 64) port.0 port.1);
          port = port;
          tcp_backend = refl;
          verify = tunnel_verify-Pins t verify i b;
        } in
      subst (StandsFor u pf t) (ok-inj h2) made

  -- Where the import succeeds, its routes are those of the enabled tunnels with one of the five DNS
  -- transports, one for each, in the order of the file, each with a tag, a domain and a port from 1 to
  -- 65535 that the backend's text says in decimal; dnstt and vaydns pin the public key of their own
  -- section, slipstream the hash of its certificate, and soar and external nothing.
  pub tunnel_routes-Imported :
      (ts : List SlipGateTunnel) (rs : List Route)
      → tunnel_routes u pf ts ≡ ok rs
      → Imported u pf ts rs
  unfolding tunnel_routes
  tunnel_routes-Imported [] rs h = subst (Imported u pf []) (ok-inj h) none_left
  tunnel_routes-Imported (t ∷ ts) rs h =
      elim (Bool-cases (not t.enabled || not (is_dns_transport t.transport))) [
        | inl over ↦
            passed_over t ts rs
              (λ i.
                let known = (is_dns_transport_iff t.transport).1 i.1 in
                let on = i.0 in ground (arith, over, known, on))
              (tunnel_routes-Imported ts rs (rw over at h))
        | inr kept ↦
            let (r, a, h1) = >>=-ok (tunnel_route u pf t) _ (rw kept at h) in
            let on : t.enabled ≡ true = ground (arith, kept) in
            let i = (is_dns_transport_iff t.transport).0 (ground (arith, kept)) in
            let (rest, b, h2) = >>=-ok (tunnel_routes u pf ts) _ h1 in
            subst (Imported u pf (t ∷ ts)) (ok-inj h2) (
              taken t r ts rest (on, i) (tunnel_route-StandsFor t r i a)
                (tunnel_routes-Imported ts rest b))
      ]
