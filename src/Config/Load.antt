-- ===== src/Config/Load.antt =====
-- Load of internal/config/config.go. Decoding JSON and the package path/filepath are parameters.
use cotten_router.Prelude.{
  ◌≡◌, ap, subst, Bool, true, false, Option, some, List, [], ◌∷◌, ◌++◌, if◌then◌else◌, Bytes,
  Result, ok, err, panic, no_fuel, ◌>>=◌, or_err, or_err-ok, >>=-ok, ok-inj, Bytes_eq, if_cases,
  nat_eq,
}
use cotten_router.Dns.Text.{Unicode}
use cotten_router.Config.Types.{Route, Settings}
use cotten_router.Config.Platform.{Platform, ConfigError}
use cotten_router.Config.Validate.{validate}
use cotten_router.Config.Validate.Accepted.{Accepted, validate-Accepted}
use cotten_router.Config.Slipgate.{
  SlipGateTunnel, SlipGateError, unreadable, undecodable, of_validation, load_slip_gate_routes,
}
use cotten_router.Config.Slipgate.Imports.{Imported, tunnel_routes-Imported}

-- json.Decoder with DisallowUnknownFields, filepath.IsAbs, filepath.Join and filepath.Dir; and the
-- decoding of a SlipGate file.
pub record Decoding : Type 0 where
  pub settings : Bytes → Option Settings
  pub tunnels : Bytes → Option (List SlipGateTunnel)
  pub is_absolute : Bytes → Bool
  pub join : Bytes → Bytes → Bytes
  pub directory : Bytes → Bytes

of_validation-ok :
    (r : Result ConfigError Settings) (c : Settings) → of_validation r ≡ ok c → r ≡ ok c
of_validation-ok (ok a) c h = ap ok (ok-inj h)
of_validation-ok (err e) c h = absurd (cc h)
of_validation-ok panic c h = absurd (cc h)
of_validation-ok no_fuel c h = absurd (cc h)

module _ (u : Unicode) (pf : Platform) (d : Decoding) where
  -- The loop over SlipGateConfigs.
  unfoldable pub import_all : Bytes → List Bytes → Result SlipGateError (List Route)
  import_all base [] = ok []
  import_all base (path ∷ paths) = do
    routes ←
        load_slip_gate_routes u pf d.tunnels (if d.is_absolute path then path else d.join base path)
    rest ← import_all base paths
    ok (routes ++ rest)

  unfoldable pub load : Bytes → Result SlipGateError Settings
  load path = do
    content ← or_err (pf.read_file path) unreadable
    c ← or_err (d.settings content) undecodable
    imported ← import_all (d.directory path) c.slipgate_configs
    of_validation (validate u pf (record c { routes = c.routes ++ imported }))

  -- Where a file that the configuration names is: a path that is not absolute is one from the
  -- directory of the configuration.
  pub data Located (base path : Bytes) : Bytes → Type 0 where
    absolute : d.is_absolute path ≡ true → Located base path path
    relative : d.is_absolute path ≡ false → Located base path (d.join base path)

  -- The routes that the files give, in their order: of each, those of the tunnels that it lists.
  pub data ImportedFiles (base : Bytes) : List Bytes → List Route → Type 0 where
    no_file : ImportedFiles base [] []
    file :
        (path place content : Bytes) (tunnels : List SlipGateTunnel) (routes : List Route)
        (paths : List Bytes) (rest : List Route)
        → Located base path place
        → pf.read_file place ≡ some content
        → d.tunnels content ≡ some tunnels
        → Imported u pf tunnels routes
        → ImportedFiles base paths rest
        → ImportedFiles base (path ∷ paths) (routes ++ rest)

  -- What stands behind a configuration that Load gives.
  pub record Loaded (path : Bytes) (c : Settings) : Type 0 where
    pub content : Bytes
    pub given : Settings
    pub imported : List Route
    pub read : pf.read_file path ≡ some content
    pub decoded : d.settings content ≡ some given
    pub imports : ImportedFiles (d.directory path) given.slipgate_configs imported
    pub validated : validate u pf (record given { routes = given.routes ++ imported }) ≡ ok c
    pub accepted : Accepted u pf c

  place-Located :
      (base path : Bytes)
      → Located base path (if d.is_absolute path then path else d.join base path)
  place-Located base path = if_cases (Located base path) (d.is_absolute path) _ _ absolute relative

  import_all-ImportedFiles :
      (base : Bytes) (paths : List Bytes) (routes : List Route)
      → import_all base paths ≡ ok routes
      → ImportedFiles base paths routes
  unfolding import_all load_slip_gate_routes
  import_all-ImportedFiles base [] routes h = subst (ImportedFiles base []) (ok-inj h) no_file
  import_all-ImportedFiles base (path ∷ paths) routes h =
      let place = if d.is_absolute path then path else d.join base path in
      let (rs, a, h1) = >>=-ok (load_slip_gate_routes u pf d.tunnels place) _ h in
      let (rest, b, h2) = >>=-ok (import_all base paths) _ h1 in
      let (content, r, a1) = >>=-ok (or_err (pf.read_file place) unreadable) _ a in
      let (tunnels, t, a2) = >>=-ok (or_err (d.tunnels content) undecodable) _ a1 in
      subst (ImportedFiles base (path ∷ paths)) (ok-inj h2) (
        file path place content tunnels rs paths rest (place-Located base path) (or_err-ok _ _ r)
          (or_err-ok _ _ t) (tunnel_routes-Imported u pf tunnels rs a2)
          (import_all-ImportedFiles base paths rest b))

  -- A configuration that Load gives is what Validate makes of the decoded file with the routes of the
  -- SlipGate files behind its own, file by file and of each file one for each tunnel that
  -- is enabled and has a DNS transport; a file whose path is not absolute is looked up from the directory
  -- of the configuration. So all holds of it that holds of a configuration that Validate accepts.
  pub load-Loaded : (path : Bytes) (c : Settings) → load path ≡ ok c → Loaded path c
  unfolding load
  load-Loaded path c h =
      let (content, r, h1) = >>=-ok (or_err (pf.read_file path) unreadable) _ h in
      let (given, s, h2) = >>=-ok (or_err (d.settings content) undecodable) _ h1 in
      let (imported, i, h3) = >>=-ok (import_all (d.directory path) given.slipgate_configs) _ h2 in
      let all : Settings = record given { routes = given.routes ++ imported } in
      let v = of_validation-ok (validate u pf all) c h3 in
      record {
        content = content;
        given = given;
        imported = imported;
        read = or_err-ok _ _ r;
        decoded = or_err-ok _ _ s;
        imports = import_all-ImportedFiles (d.directory path) given.slipgate_configs imported i;
        validated = v;
        accepted = validate-Accepted u pf all c v;
      }
