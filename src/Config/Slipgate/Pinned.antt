-- ===== src/Config/Slipgate/Pinned.antt =====
-- The certificate that the route of a slipstream tunnel pins.
use cotten_router.Prelude.{
  ℕ, ◌/◌, ◌%◌, ◌<◌, ◌≡◌, refl, true, false, none, some, [], ◌∷◌, arith, Bytes, All, ok, Bytes_eq,
  nat_eq,
}
use cotten_router.Dns.Text.{Unicode, is_space, is_ascii, trim_left, trim_right, trim_space}
use cotten_router.Config.Types.{VerifyConfig}
use cotten_router.Config.Platform.{Platform, is_empty}
use cotten_router.Config.Validate.{key_from_file, load_verify_key, key_text, nonempty}
use cotten_router.Config.Slipgate.{hex_digit, hex_text, pinned_certificate}

-- ASCII, and no white space.
abbrev Plain : ℕ → Type 0
Plain b = (b < 128) × (is_space b ≡ false)

hex_digit-Plain : (n : ℕ) → n < 16 → Plain (hex_digit n)
hex_digit-Plain n h = (ground (arith, h), ground (arith, h))

hex_text-Plain : (s : Bytes) → All (λ b. b < 256) s → All Plain (hex_text s)
unfolding hex_text
hex_text-Plain [] a = tt
hex_text-Plain (b ∷ s) a = (
  hex_digit-Plain (b / 16) (omega (arith, a.0)),
  (hex_digit-Plain (b % 16) (omega arith), hex_text-Plain s a.1),
)

Plain-is_ascii : (s : Bytes) → All Plain s → is_ascii s ≡ true
Plain-is_ascii [] a = refl
Plain-is_ascii (b ∷ s) a = ground (arith, a.0.0, Plain-is_ascii s a.1)

Plain-trim_left : (s : Bytes) → All Plain s → trim_left s ≡ s
unfolding trim_left
Plain-trim_left [] a = refl
Plain-trim_left (b ∷ s) a = rw (a.0.1) refl

trim_right-cons : (b c : ℕ) (t s : Bytes) → trim_right t ≡ c ∷ s → trim_right (b ∷ t) ≡ b ∷ c ∷ s
unfolding trim_right
trim_right-cons b c t s h = rw h refl

trim_right-last : (b : ℕ) → is_space b ≡ false → trim_right (b ∷ []) ≡ b ∷ []
unfolding trim_right
trim_right-last b h = rw h refl

Plain-trim_right : (s : Bytes) → All Plain s → trim_right s ≡ s
Plain-trim_right [] a = unfold trim_right in refl
Plain-trim_right (b ∷ []) a = trim_right-last b a.0.1
Plain-trim_right (b ∷ c ∷ s) a = trim_right-cons b c (c ∷ s) s (Plain-trim_right (c ∷ s) a.1)

Plain-trim_space : (u : Unicode) (s : Bytes) → All Plain s → trim_space u s ≡ s
unfolding trim_space
Plain-trim_space u s a = rw (Plain-is_ascii s a, Plain-trim_left s a) (Plain-trim_right s a)

hex_text-some : (s : Bytes) → is_empty s ≡ false → is_empty (hex_text s) ≡ false
unfolding hex_text
hex_text-some [] h = absurd (cc h)
hex_text-some (b ∷ s) h = ground arith

-- The route of a slipstream tunnel pins the key of the tunnel's certificate and names no certificate
-- file: on a machine on which no file can be read, its verify settings give the certificate's hash again.
-- The hash is taken to be bytes and not empty, and hexadecimal text to decode to what it encodes there.
pub pinned_certificate-pins :
    (u : Unicode) (pf unprivileged : Platform) (cert key : Bytes)
    → is_empty cert ≡ false
    → key_from_file u pf cert ≡ some key
    → All (λ b. b < 256) key
    → is_empty key ≡ false
    → unprivileged.unhex (hex_text key) ≡ some key
    → ((path : Bytes) → unprivileged.read_file path ≡ none)
    → (v : VerifyConfig) × (pinned_certificate u pf (some cert) ≡ ok (some v))
      × (v.cert_file ≡ [])
      × (load_verify_key u unprivileged v ≡ some key)
unfolding pinned_certificate load_verify_key
pinned_certificate-pins u pf unprivileged cert key some_cert loaded bytes some_key law unreadable =
    let text = Plain-trim_space u (hex_text key) (hex_text-Plain key bytes) in
    let no_file = unreadable (hex_text key) in
    (
      record { key = hex_text key; cert_file = []; mtu = 0 },
      rw (some_cert, loaded) refl,
      refl,
      rw (hex_text-some key some_key, text, key_text, no_file, text, law, nonempty, some_key) refl,
    )
