-- ===== src/Guard/Class.antt =====
-- The traffic classes of internal/guard/limiter.go. The maps of the package that are keyed by a
-- class are records with a slot for each class, since protocolClass gives no other key.
use cotten_router.Prelude.{
  ◌≡◌, refl, ◌≢◌, ◌⊎◌, inl, inr, arith, if◌then◌else◌, Bytes, codes, bytes_eq,
}

pub data Class : Type 0 where
  dns doh dot naiveproxy stuntls handshake tls_other : Class

abbrev pub class_name : Class → Bytes
class_name dns = codes "dns"
class_name doh = codes "doh"
class_name dot = codes "dot"
class_name naiveproxy = codes "naiveproxy"
class_name stuntls = codes "stuntls"
class_name handshake = codes "handshake"
class_name tls_other = codes "tls/other"

-- protocolClass
unfoldable pub protocol_class : Bytes → Class
unfolding bytes_eq
protocol_class protocol =
    if bytes_eq protocol (codes "dns")
    then dns
    else if bytes_eq protocol (codes "doh")
    then doh
    else if bytes_eq protocol (codes "dot")
    then dot
    else if bytes_eq protocol (codes "naiveproxy")
    then naiveproxy
    else if bytes_eq protocol (codes "stuntls")
    then stuntls
    else if bytes_eq protocol (codes "handshake")
    then handshake
    else tls_other

pub record PerClass (A : Type 0) : Type 0 where
  pub at_dns : A
  pub at_doh : A
  pub at_dot : A
  pub at_naiveproxy : A
  pub at_stuntls : A
  pub at_handshake : A
  pub at_tls_other : A

module _ {A : Type 0} where
  abbrev pub every : A → PerClass A
  every a = record {
    at_dns = a;
    at_doh = a;
    at_dot = a;
    at_naiveproxy = a;
    at_stuntls = a;
    at_handshake = a;
    at_tls_other = a;
  }

  -- m[class]
  abbrev pub at : PerClass A → Class → A
  at m dns = m.at_dns
  at m doh = m.at_doh
  at m dot = m.at_dot
  at m naiveproxy = m.at_naiveproxy
  at m stuntls = m.at_stuntls
  at m handshake = m.at_handshake
  at m tls_other = m.at_tls_other

  -- m[class] = a
  abbrev pub put : PerClass A → Class → A → PerClass A
  put m dns a = record m { at_dns = a }
  put m doh a = record m { at_doh = a }
  put m dot a = record m { at_dot = a }
  put m naiveproxy a = record m { at_naiveproxy = a }
  put m stuntls a = record m { at_stuntls = a }
  put m handshake a = record m { at_handshake = a }
  put m tls_other a = record m { at_tls_other = a }

  pub at-put_self : (m : PerClass A) (c : Class) (a : A) → at (put m c a) c ≡ a
  at-put_self m dns a = refl
  at-put_self m _ a = refl

  pub at-put_ne : (m : PerClass A) (c d : Class) (a : A) → c ≢ d → at (put m c a) d ≡ at m d
  at-put_ne m dns dns a ne = absurd (ne refl)
  at-put_ne m c d a ne = ground arith

pub Class-discrete : Discrete Class
Class-discrete = hlevel

pub Class-cases : (c d : Class) → (c ≡ d) ⊎ (c ≢ d)
Class-cases c d = elim (Class-discrete c d) [ yes e ↦ inl e | no n ↦ inr n ]
