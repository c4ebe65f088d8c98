-- ===== src/Config/Tables.antt =====
-- src/config.rs: the tables of the configuration.
use stuntdouble.Common.{
  ℕ, suc, ◌*◌, Bool, false, Option, none, some, List, [], ◌∷◌, ◌++◌, ◌==◌, if◌then◌else◌,
}
use stuntdouble.Common.Bytes.{Bytes, codes, ◌==ᵇ◌, to_ascii_uppercase}
use stuntdouble.Common.Text.{to_text, join_with}
use stuntdouble.Matcher.{Route}
use stuntdouble.Config
use stuntdouble.Config.{
  Value, array, table, Table, Violation, Platform, Checked, pure, push, ◌>>=◌, ◌>>◌, missing, bad,
  ServerConfig, SandboxConfig, UpstreamConfig, Fallback,
}
use stuntdouble.Config.Fields.{
  on_table, on_array, opt_positive_bytes, opt_port, opt_duration_ms, opt_memory_limit_mb,
  opt_string, req_string, normalize_method, reject_unknown, opt_bind, opt_host_list,
  validate_script_extension, refuse, http_methods, kept,
}

-- `Option::unwrap_or`
abbrev pub unwrap_or {ℓ} : {A : Type ℓ} → A → Option A → A
unwrap_or default none = default
unwrap_or default (some a) = a

abbrev pub default_bind : Bytes
default_bind = codes "127.0.0.1"

abbrev pub default_server : ServerConfig
default_server = record { bind = default_bind; port = 3000; request_timeout_ms = 30000 }

abbrev pub default_sandbox : SandboxConfig
default_sandbox = record { script_timeout_ms = 10000; script_memory_limit_mb = 256 }

abbrev pub default_upload_max_bytes : ℕ
default_upload_max_bytes = 20 * 1024 * 1024

abbrev pub default_upstream : UpstreamConfig
default_upstream = record { allow_hosts = []; timeout_ms = 15000 }

-- `value.filter(|value| *value != "1")` and the violation for what it leaves.
unfoldable pub validate_config_version : Option Bytes → (Bytes → Bytes) → Checked (Unit {0})
validate_config_version none debug = pure tt
validate_config_version (some value) debug =
    if value ==ᵇ codes "1"
    then pure tt
    else push (record {
      field = codes "config_version";
      expected = codes "\"1\"";
      actual = codes "string " ++ debug value;
    })

unfoldable pub parse_sandbox : Table → Checked SandboxConfig
parse_sandbox root =
    on_table (Config.get (codes "sandbox") root) (pure default_sandbox)
      (λ t. do
        reject_unknown t (codes "script_timeout_ms" ∷ codes "script_memory_limit_mb" ∷ [])
            (codes "sandbox")
        script_timeout_ms ←
            opt_duration_ms t (codes "script_timeout_ms") (codes "sandbox.script_timeout_ms")
        script_memory_limit_mb ← opt_memory_limit_mb t (codes "sandbox.script_memory_limit_mb")
        pure (record {
          script_timeout_ms = unwrap_or 10000 script_timeout_ms;
          script_memory_limit_mb = unwrap_or 256 script_memory_limit_mb;
        }))
      (λ other. do push (bad (codes "sandbox") (codes "table") other); pure default_sandbox)

module _ (platform : Platform) where
  -- The `server` table of `load`.
  unfoldable pub parse_server : Table → Checked ServerConfig
  parse_server root =
      on_table (Config.get (codes "server") root)
        (do push (missing (codes "server") (codes "table")); pure default_server)
        (λ t. do
          reject_unknown t (codes "bind" ∷ codes "port" ∷ codes "request_timeout_ms" ∷ [])
              (codes "server")
          bind ← opt_bind platform t (codes "server.bind")
          port ← opt_port t (codes "server.port")
          request_timeout_ms ←
              opt_duration_ms t (codes "request_timeout_ms") (codes "server.request_timeout_ms")
          pure (record {
            bind = unwrap_or default_bind bind;
            port = unwrap_or 3000 port;
            request_timeout_ms = unwrap_or 30000 request_timeout_ms;
          }))
        (λ other. do push (bad (codes "server") (codes "table") other); pure default_server)

  unfoldable pub parse_upstream : Table → Checked UpstreamConfig
  parse_upstream root =
      on_table (Config.get (codes "upstream") root) (pure default_upstream)
        (λ t. do
          reject_unknown t (codes "allow_hosts" ∷ codes "timeout_ms" ∷ []) (codes "upstream")
          allow_hosts ← opt_host_list platform t (codes "upstream.allow_hosts")
          timeout_ms ← opt_duration_ms t (codes "timeout_ms") (codes "upstream.timeout_ms")
          pure (record {
            allow_hosts = unwrap_or [] allow_hosts;
            timeout_ms = unwrap_or 15000 timeout_ms;
          }))
        (λ other. do push (bad (codes "upstream") (codes "table") other); pure default_upstream)

  -- A path as it is written, or within the directory of the configuration file.
  abbrev pub based : Bytes → Bytes
  based raw = if platform.is_absolute raw then raw else platform.join raw

  unfoldable pub parse_fallback : Table → Checked (Option Fallback)
  parse_fallback root =
      on_table (Config.get (codes "fallback") root) (pure none)
        (λ t. do
          reject_unknown t (codes "name" ∷ codes "script" ∷ []) (codes "fallback")
          name ← opt_string t (codes "name") (codes "fallback.name")
          script ← req_string t (codes "script") (codes "fallback.script")
          validate_script_extension platform (unwrap_or [] script) (codes "fallback")
          pure (some (record { name = name; script = based (unwrap_or [] script) })))
        (λ other. refuse (bad (codes "fallback") (codes "table") other))

  abbrev pub map_based : Option Bytes → Option Bytes
  map_based none = none
  map_based (some raw) = some (based raw)

  unfoldable pub parse_files : Table → Checked (Option Bytes × ℕ)
  parse_files root =
      on_table (Config.get (codes "files") root)
        (do push (missing (codes "files") (codes "table")); pure (none, default_upload_max_bytes))
        (λ t. do
          reject_unknown t (codes "root" ∷ codes "upload_max_bytes" ∷ []) (codes "files")
          root_dir ← req_string t (codes "root") (codes "files.root")
          upload_max_bytes ←
              opt_positive_bytes t (codes "upload_max_bytes") (codes "files.upload_max_bytes")
          pure (map_based root_dir, unwrap_or default_upload_max_bytes upload_max_bytes))
        (λ other. do
          push (bad (codes "files") (codes "table") other)
          pure (none, default_upload_max_bytes))

  unfoldable pub existing_dir : Option Bytes → Checked (Option Bytes)
  existing_dir none = pure none
  existing_dir (some root) =
      if platform.is_dir root
      then pure (some root)
      else refuse (record {
        field = codes "files.root";
        expected = codes "existing directory";
        actual = root;
      })

  -- The normalized method, or its upper case beside a violation.
  unfoldable pub checked_method : Bytes → Bytes → Checked Bytes
  checked_method prefix method = elim (normalize_method method) [
    | some m ↦ pure m
    | none ↦ do
      push (record {
        field = prefix ++ codes ".method";
        expected = codes "one of " ++ join_with (codes ", ") http_methods;
        actual = method;
      })
      pure (to_ascii_uppercase method)
  ]

  abbrev pub starts_with_slash : Bytes → Bool
  starts_with_slash [] = false
  starts_with_slash (c ∷ _) = c == b'/'

  unfoldable pub check_path : Bytes → Bytes → Checked (Unit {0})
  check_path prefix path =
      if starts_with_slash path
      then pure tt
      else push (record {
        field = prefix ++ codes ".path";
        expected = codes "absolute path starting with /";
        actual = path;
      })

  -- One round of the loop of `parse_routes`.
  unfoldable pub parse_route : ℕ → Value → Checked (Option Route)
  parse_route index (table t) =
      let prefix = codes "routes[" ++ to_text index ++ codes "]" in
      do
        reject_unknown t (codes "name" ∷ codes "method" ∷ codes "path" ∷ codes "script" ∷ []) prefix
        name ← opt_string t (codes "name") (prefix ++ codes ".name")
        raw_method ← req_string t (codes "method") (prefix ++ codes ".method")
        path ← req_string t (codes "path") (prefix ++ codes ".path")
        script ← req_string t (codes "script") (prefix ++ codes ".script")
        method ← checked_method prefix (unwrap_or [] raw_method)
        check_path prefix (unwrap_or [] path)
        validate_script_extension platform (unwrap_or [] script) prefix
        pure (
            some (record {
              name = name;
              method = method;
              path = unwrap_or [] path;
              script = based (unwrap_or [] script);
            }))
  parse_route index item =
      refuse (bad (codes "routes[" ++ to_text index ++ codes "]") (codes "table") item)

  unfoldable pub parse_items : ℕ → List Value → Checked (List Route)
  parse_items index [] = pure []
  parse_items index (item ∷ items) = do
    route ← parse_route index item
    routes ← parse_items (suc index) items
    pure (kept platform route routes)

  abbrev pub no_routes : Violation
  no_routes = record {
    field = codes "routes";
    expected = codes "at least one route table";
    actual = codes "array of 0";
  }

  abbrev pub check_some : List Value → Checked (Unit {0})
  check_some [] = push no_routes
  check_some (_ ∷ _) = pure tt

  unfoldable pub parse_routes : Table → Checked (List Route)
  parse_routes root =
      on_array (Config.get (codes "routes") root)
        (do push (missing (codes "routes") (codes "array of route tables")); pure [])
        (λ items. do check_some (Config.values items); parse_items 0 (Config.values items))
        (λ other. do push (bad (codes "routes") (codes "array of route tables") other); pure [])
