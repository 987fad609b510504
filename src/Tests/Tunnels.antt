-- ===== src/Tests/Tunnels.antt =====
-- A SlipGate configuration with a tunnel that is imported and one that is disabled, and a certificate.
use cotten_router.Prelude.{
  ◌≡◌, refl, true, false, none, some, List, [], ◌∷◌, arith, if◌then◌else◌, codes, bytes_eq, ok,
  Bytes_eq, nat_eq,
}
use cotten_router.Config.Types.{VerifyConfig, Route}
use cotten_router.Config.Platform.{Platform}
use cotten_router.Config.Validate.{load_verify_key, key_from_file}
use cotten_router.Config.Slipgate.{
  SlipGateTunnel, is_dns_transport, digits, hex_text, tunnel_verify, tunnel_route, tunnel_routes,
  pinned_certificate,
}
use cotten_router.Config.Slipgate.Imports.{Imported, tunnel_routes-Imported}
use cotten_router.Config.Slipgate.Pinned.{pinned_certificate-pins}
use cotten_router.Tests.Wire.{ascii}
use cotten_router.Tests.Configs.{platform}

abbrev tunnel : SlipGateTunnel
tunnel = record {
  tag = codes "one";
  transport = codes "vaydns";
  domain = codes "t.example";
  port = 5310;
  enabled = true;
  dnstt = none;
  vaydns = some (record { mtu = 1232; public_key = codes "abcd" });
  slipstream = none;
}

abbrev tunnels : List SlipGateTunnel
tunnels = tunnel ∷ record tunnel { enabled = false } ∷ []

abbrev imported : List Route
imported =
    record {
      name = codes "slipgate:one";
      domains = codes "t.example" ∷ [];
      backend = codes "127.0.0.1:5310";
      tcp_backend = codes "udp";
      verify = some (record { key = codes "abcd"; cert_file = []; mtu = 1232 });
      verify_key = [];
    }
    ∷ []

tunnels_imported : tunnel_routes ascii platform tunnels ≡ ok imported
unfolding tunnel_routes tunnel_route tunnel_verify is_dns_transport digits bytes_eq
tunnels_imported = refl

tunnel_routes-Imported_example : Imported ascii platform tunnels imported
tunnel_routes-Imported_example =
    tunnel_routes-Imported ascii platform tunnels imported tunnels_imported

-- One file, with a certificate of which the hash is one byte.
abbrev files : Platform
files = record platform {
  read_file = λ s. if bytes_eq s (codes "cert") then some [] else none;
  pem_block = λ s. some s;
  sha256 = λ s. 0xab ∷ [];
  unhex = λ s. some (0xab ∷ []);
}

certificate_read : key_from_file ascii files (codes "cert") ≡ some (0xab ∷ [])
unfolding key_from_file bytes_eq
certificate_read = refl

-- The machine as the router's service sees it, which can read no file.
abbrev unprivileged : Platform
unprivileged = record files { read_file = λ s. none }

hash_text : unprivileged.unhex (hex_text (0xab ∷ [])) ≡ some (0xab ∷ [])
hash_text = refl

pinned_certificate-pins_example :
    (v : VerifyConfig) × (pinned_certificate ascii files (some (codes "cert")) ≡ ok (some v))
    × (v.cert_file ≡ [])
    × (load_verify_key ascii unprivileged v ≡ some (0xab ∷ []))
pinned_certificate-pins_example =
    pinned_certificate-pins ascii files unprivileged (codes "cert") (0xab ∷ []) refl
      certificate_read (omega arith, tt) refl hash_text (λ path. refl)
