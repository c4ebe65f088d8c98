-- ===== src/Config/Sound/Loaded.antt =====
-- src/config.rs: what `load` returns.
use stuntdouble.Common.{◌≤◌, ◌≡◌, ◌≢◌, refl, true, some, List, [], ◌∷◌, All, length}
use stuntdouble.Common.Bytes.{Bytes, codes}
use stuntdouble.Config
use stuntdouble.Config.{
  Value, string, integer, float, boolean, datetime, array, table, Table, Violation, Platform,
  Checked, ServerConfig, FilesConfig, SandboxConfig, UpstreamConfig, Fallback, Config,
}
use stuntdouble.Config.Load.{
  Draft, Outcome, loaded, refused, panicked, check_root, expect_config, conclude, load,
}
use stuntdouble.Config.Sound.{Any, Sound, Sound-pure, Sound-bind}
use stuntdouble.Config.Sound.Texts.{
  IfGiven, reject_unknown-Any, req_string-IsGiven, validate_config_version-one, existing_dir-is_dir,
}
use stuntdouble.Config.Sound.Tables.{
  IsSandbox, IsServer, IsUpstream, IsRoute, IsFallback, parse_server-IsServer, parse_files-AreFiles,
  parse_sandbox-IsSandbox, parse_upstream-IsUpstream, parse_fallback-IsFallback, parse_routes-All,
}

module _ (platform : Platform) where
  record IsDraft (draft : Draft) : Type 0 where
    version : draft.version ≡ some (codes "1")
    server : IsServer platform draft.server
    root : (dir : Bytes) × (draft.root_dir ≡ some dir) × (platform.is_dir dir ≡ true)
    upload : 1 ≤ draft.upload_max_bytes
    sandbox : IsSandbox draft.sandbox
    upstream : IsUpstream platform draft.upstream
    routes : (1 ≤ length draft.routes) × All (IsRoute platform) draft.routes
    fallback : IfGiven platform (IsFallback platform) draft.fallback

  check_root-IsDraft : (root : Table) → Sound IsDraft (check_root platform root)
  unfolding check_root
  check_root-IsDraft root = Sound-bind _ _ _ _ (reject_unknown-Any root _ _) λ _.
      Sound-bind _ _ _ _ (req_string-IsGiven root _ _) λ version.
        Sound-bind _ _ _ _ (validate_config_version-one version platform.debug) λ _.
          Sound-bind _ _ _ _ (parse_server-IsServer platform root) λ server.
            Sound-bind _ _ _ _ (parse_files-AreFiles platform root) λ files.
              Sound-bind _ _ _ _ (parse_sandbox-IsSandbox root) λ sandbox.
                Sound-bind _ _ _ _ (parse_upstream-IsUpstream platform root) λ upstream.
                  Sound-bind _ _ _ _ (parse_fallback-IsFallback platform root) λ fallback.
                    Sound-bind _ _ _ _ (parse_routes-All platform root) λ routes.
                      Sound-bind _ _ _ _ (existing_dir-is_dir platform files.0) λ root_dir.
                        Sound-pure _ _ λ d r b u s f v one given _. record {
                          version = one given;
                          server = v;
                          root = d f.0;
                          upload = f.1;
                          sandbox = s;
                          upstream = u;
                          routes = r;
                          fallback = b;
                        }

  -- A configuration that the server can run on.
  pub record IsValid (config : Config) : Type 0 where
    pub version : config.config_version ≡ codes "1"
    pub server : IsServer platform config.server
    pub root : platform.is_dir config.files.root ≡ true
    pub upload : 1 ≤ config.files.upload_max_bytes
    pub sandbox : IsSandbox config.sandbox
    pub upstream : IsUpstream platform config.upstream
    pub some_route : 1 ≤ length config.routes
    pub routes : All (IsRoute platform) config.routes
    pub fallback : IfGiven platform (IsFallback platform) config.fallback

  -- Loaded and valid, or refused for some violation, and no panic.
  abbrev pub IsOutcome : Outcome → Type 0
  IsOutcome (loaded config) = IsValid config
  IsOutcome (refused violations) = violations ≢ []
  IsOutcome panicked = ⊥

  expect_config-IsOutcome :
      (draft : Draft) → IsDraft draft → IsOutcome (expect_config platform draft)
  unfolding expect_config
  expect_config-IsOutcome draft d =
      let (dir, named, there) = d.root in
      rw (named, d.version)
        (record {
          version = refl;
          server = d.server;
          root = there;
          upload = d.upload;
          sandbox = d.sandbox;
          upstream = d.upstream;
          some_route = d.routes.0;
          routes = d.routes.1;
          fallback = d.fallback;
        })

  conclude-IsOutcome :
      (draft : Draft) (violations : List Violation)
      → (violations ≡ [] → IsDraft draft)
      → IsOutcome (conclude platform (draft, violations))
  unfolding conclude
  conclude-IsOutcome draft [] d = expect_config-IsOutcome draft (d refl)
  conclude-IsOutcome draft (violation ∷ violations) d = λ e. cc

  -- A document is loaded as a valid configuration, or refused with at least one violation; neither of
  -- the two `expect` calls panics. Valid: version 1, an address, a port that is not 0, positive
  -- timeouts and limits, 64 MiB of memory at least, a directory that exists, normalized hosts, at
  -- least one route, each with a known method, an absolute path and a JavaScript file, as has the
  -- fallback.
  pub load-IsOutcome : (document : Value) → IsOutcome (load platform document)
  unfolding load Config.Sound.Sound
  load-IsOutcome (table root) =
      conclude-IsOutcome (check_root platform root []).0 (check_root platform root []).1
        (λ e. (check_root-IsDraft root [] e).1)
  load-IsOutcome (string x) = λ e. cc
  load-IsOutcome (integer x) = λ e. cc
  load-IsOutcome (float x) = λ e. cc
  load-IsOutcome (boolean x) = λ e. cc
  load-IsOutcome (datetime x) = λ e. cc
  load-IsOutcome (array x) = λ e. cc
