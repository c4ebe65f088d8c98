-- ===== src/Config/Load.antt =====
-- src/config.rs: `load`, from the parsed document on.
use stuntdouble.Common.{ℕ, Option, none, some, List, [], ◌∷◌}
use stuntdouble.Common.Bytes.{Bytes, codes}
use stuntdouble.Matcher.{Route}
use stuntdouble.Config.{
  Value, table, Table, Violation, Platform, Checked, pure, ◌>>=◌, ◌>>◌, bad, ServerConfig,
  SandboxConfig, UpstreamConfig, Fallback, Config,
}
use stuntdouble.Config.Fields.{req_string, reject_unknown}
use stuntdouble.Config.Tables.{
  validate_config_version, parse_server, parse_sandbox, parse_upstream, parse_fallback, parse_files,
  parse_routes, existing_dir,
}

-- What `load` has when it looks at its violations.
pub record Draft : Type 0 where
  pub version : Option Bytes
  pub server : ServerConfig
  pub root_dir : Option Bytes
  pub upload_max_bytes : ℕ
  pub sandbox : SandboxConfig
  pub upstream : UpstreamConfig
  pub routes : List Route
  pub fallback : Option Fallback

-- A configuration, the violations of `ConfigError::Schema`, or the panic of an `expect` on none.
pub data Outcome : Type 0 where
  loaded : Config → Outcome
  refused : List Violation → Outcome
  panicked : Outcome

module _ (platform : Platform) where
  unfoldable pub check_root : Table → Checked Draft
  check_root root = do
    reject_unknown root
        (codes "config_version"
          ∷ codes "server"
          ∷ codes "files"
          ∷ codes "sandbox"
          ∷ codes "upstream"
          ∷ codes "routes"
          ∷ codes "fallback"
          ∷ [])
        []
    version ← req_string root (codes "config_version") (codes "config_version")
    validate_config_version version platform.debug
    server ← parse_server platform root
    files ← parse_files platform root
    sandbox ← parse_sandbox root
    upstream ← parse_upstream platform root
    fallback ← parse_fallback platform root
    routes ← parse_routes platform root
    root_dir ← existing_dir platform files.0
    pure (record {
      version = version;
      server = server;
      root_dir = root_dir;
      upload_max_bytes = files.1;
      sandbox = sandbox;
      upstream = upstream;
      routes = routes;
      fallback = fallback;
    })

  -- The two `expect` calls, once there are no violations.
  unfoldable pub expect_config : Draft → Outcome
  expect_config draft = elim draft.root_dir [
    | none ↦ panicked
    | some root ↦ elim draft.version [
      | none ↦ panicked
      | some version ↦ loaded (record {
        config_version = version;
        server = draft.server;
        files = record { root = root; upload_max_bytes = draft.upload_max_bytes };
        sandbox = draft.sandbox;
        upstream = draft.upstream;
        routes = draft.routes;
        fallback = draft.fallback;
      })
    ]
  ]

  unfoldable pub conclude : Draft × List Violation → Outcome
  conclude (draft, []) = expect_config draft
  conclude (draft, violation ∷ violations) = refused (violation ∷ violations)

  unfoldable pub load : Value → Outcome
  load (table root) = conclude (check_root root [])
  load other = refused (bad (codes "(root)") (codes "table") other ∷ [])
