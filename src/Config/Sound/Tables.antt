-- ===== src/Config/Sound/Tables.antt =====
-- src/config.rs: the tables of a configuration.
use stuntdouble.Common.{
  ℕ, suc, ◌≤◌, ◌≡◌, ◌⊎◌, inl, inr, refl, ap, length, true, Option, none, some, List, [], ◌∷◌, All,
  arith,
}
use stuntdouble.Common.Bytes.{Bytes, codes}
use stuntdouble.Matcher.{Route}
use stuntdouble.Config
use stuntdouble.Config.{
  Value, string, integer, float, boolean, datetime, array, table, Values, nil, cons, Table,
  Platform, Checked, ServerConfig, SandboxConfig, UpstreamConfig, Fallback,
}
use stuntdouble.Config.Fields.{http_methods, has, kept}
use stuntdouble.Config.Tables.{
  unwrap_or, default_bind, default_sandbox, default_upstream, parse_server, parse_sandbox,
  parse_upstream, parse_fallback, parse_files, parse_route, parse_items, parse_routes, check_some,
  starts_with_slash, based, map_based,
}
use stuntdouble.Config.Sound.{
  Sound, Sound-pure, Sound-push, Sound-refuse, Sound-bind, Sound-spoiled, Sound-weaken,
  Sound-on_table, Sound-on_array,
}
use stuntdouble.Config.Sound.Numbers.{
  IsFrom, IsAtLeast, opt_duration_ms-IsAtLeast, opt_positive_bytes-IsAtLeast, opt_port-IsFrom,
  opt_memory_limit_mb-IsAtLeast,
}
use stuntdouble.Config.Sound.Texts.{
  IsGiven, IsAddress, IsHost, IfGiven, IsScript, reject_unknown-Any, opt_string-Any,
  req_string-IsGiven, opt_bind-IsAddress, opt_host_list-All, validate_script_extension-IsScript,
  checked_method-has, check_path-slash,
}

unwrap-IsAtLeast :
    (lo default : ℕ) (o : Option ℕ) → lo ≤ default → IsAtLeast lo o → lo ≤ unwrap_or default o
unwrap-IsAtLeast lo default none d h = d
unwrap-IsAtLeast lo default (some n) d h = h

unwrap-IsFrom :
    (o : Option ℕ) → IsFrom 1 65535 o → (1 ≤ unwrap_or 3000 o) × (unwrap_or 3000 o ≤ 65535)
unwrap-IsFrom none h = (omega arith, omega arith)
unwrap-IsFrom (some n) h = h

-- The script has a time to run and memory to run in.
pub record IsSandbox (sandbox : SandboxConfig) : Type 0 where
  pub timeout : 1 ≤ sandbox.script_timeout_ms
  pub memory : 64 ≤ sandbox.script_memory_limit_mb

pub parse_sandbox-IsSandbox : (root : Table) → Sound IsSandbox (parse_sandbox root)
unfolding parse_sandbox
parse_sandbox-IsSandbox root =
    let default : IsSandbox default_sandbox = record {
      timeout = omega arith;
      memory = omega arith;
    } in
    Sound-on_table _ _ _ (Sound-pure _ _ default) (λ other. Sound-spoiled _ _ _ (Sound-pure _ _ tt))
      (Config.get (codes "sandbox") root) _
      λ t. Sound-bind _ _ _ _ (reject_unknown-Any t _ _) λ _.
        Sound-bind _ _ _ _ (opt_duration_ms-IsAtLeast t _ _) λ timeout.
          Sound-bind _ _ _ _ (opt_memory_limit_mb-IsAtLeast t _) λ memory. Sound-pure _ _ λ m n _.
            record {
              timeout = unwrap-IsAtLeast 1 10000 timeout (omega arith) n;
              memory = unwrap-IsAtLeast 64 256 memory (omega arith) m;
            }

module _ (platform : Platform) where
  -- The address is the default or an IP address, the port is one, and a request has time.
  pub record IsServer (server : ServerConfig) : Type 0 where
    pub address : (server.bind ≡ default_bind) ⊎ (platform.is_address server.bind ≡ true)
    pub port : (1 ≤ server.port) × (server.port ≤ 65535)
    pub timeout : 1 ≤ server.request_timeout_ms

  unwrap-IsAddress :
      (o : Option Bytes)
      → IsAddress platform o
      → (unwrap_or default_bind o ≡ default_bind)
        ⊎ (platform.is_address (unwrap_or default_bind o) ≡ true)
  unwrap-IsAddress none h = inl refl
  unwrap-IsAddress (some bind) h = inr h

  pub parse_server-IsServer : (root : Table) → Sound IsServer (parse_server platform root)
  unfolding parse_server
  parse_server-IsServer root =
      Sound-on_table _ _ _ (Sound-spoiled _ _ _ (Sound-pure _ _ tt))
        (λ other. Sound-spoiled _ _ _ (Sound-pure _ _ tt)) (Config.get (codes "server") root) _
        λ t. Sound-bind _ _ _ _ (reject_unknown-Any t _ _) λ _.
          Sound-bind _ _ _ _ (opt_bind-IsAddress platform t _) λ bind.
            Sound-bind _ _ _ _ (opt_port-IsFrom t _) λ port.
              Sound-bind _ _ _ _ (opt_duration_ms-IsAtLeast t _ _) λ timeout.
                Sound-pure _ _ λ m p a _. record {
                  address = unwrap-IsAddress bind a;
                  port = unwrap-IsFrom port p;
                  timeout = unwrap-IsAtLeast 1 30000 timeout (omega arith) m;
                }

  -- Every allowed host is a normalized entry, and a call has time.
  pub record IsUpstream (upstream : UpstreamConfig) : Type 0 where
    pub hosts : All (IsHost platform) upstream.allow_hosts
    pub timeout : 1 ≤ upstream.timeout_ms

  unwrap-All :
      (o : Option (List Bytes))
      → IfGiven platform (All (IsHost platform)) o
      → All (IsHost platform) (unwrap_or [] o)
  unwrap-All none h = tt
  unwrap-All (some hosts) h = h

  pub parse_upstream-IsUpstream : (root : Table) → Sound IsUpstream (parse_upstream platform root)
  unfolding parse_upstream
  parse_upstream-IsUpstream root =
      let default : IsUpstream default_upstream = record { hosts = tt; timeout = omega arith } in
      Sound-on_table _ _ _ (Sound-pure _ _ default)
        (λ other. Sound-spoiled _ _ _ (Sound-pure _ _ tt)) (Config.get (codes "upstream") root) _
        λ t. Sound-bind _ _ _ _ (reject_unknown-Any t _ _) λ _.
          Sound-bind _ _ _ _ (opt_host_list-All platform t _) λ hosts.
            Sound-bind _ _ _ _ (opt_duration_ms-IsAtLeast t _ _) λ timeout. Sound-pure _ _ λ m h _.
              record {
                hosts = unwrap-All hosts h;
                timeout = unwrap-IsAtLeast 1 15000 timeout (omega arith) m;
              }

  -- A root is named, and uploads may have some bytes.
  abbrev pub AreFiles : Option Bytes × ℕ → Type 0
  AreFiles files = IsGiven files.0 × (1 ≤ files.1)

  map-IsGiven : (o : Option Bytes) → IsGiven o → IsGiven (map_based platform o)
  map-IsGiven none h = h
  map-IsGiven (some root) h = tt

  pub parse_files-AreFiles : (root : Table) → Sound AreFiles (parse_files platform root)
  unfolding parse_files
  parse_files-AreFiles root =
      Sound-on_table _ _ _ (Sound-spoiled _ _ _ (Sound-pure _ _ tt))
        (λ other. Sound-spoiled _ _ _ (Sound-pure _ _ tt)) (Config.get (codes "files") root) _
        λ t. Sound-bind _ _ _ _ (reject_unknown-Any t _ _) λ _.
          Sound-bind _ _ _ _ (req_string-IsGiven t _ _) λ dir.
            Sound-bind _ _ _ _ (opt_positive_bytes-IsAtLeast t _ _) λ bytes.
              Sound-pure _ _
                λ b d _. (map-IsGiven dir d, unwrap-IsAtLeast 1 20971520 bytes (omega arith) b)

  -- The path is that of a script, in the directory of the configuration if it is relative.
  abbrev pub IsScriptPath : Bytes → Type 0
  IsScriptPath path = (raw : Bytes) × (path ≡ based platform raw) × IsScript platform raw

  -- The method is a known one, the path begins with a slash, and the script is one.
  pub record IsRoute (route : Route) : Type 0 where
    pub method : has http_methods route.method ≡ true
    pub slash : starts_with_slash platform route.path ≡ true
    pub script : IsScriptPath route.script

  -- The item is a route.
  abbrev IsItem : Option Route → Type 0
  IsItem none = ⊥
  IsItem (some route) = IsRoute route

  parse_route-IsItem : (index : ℕ) (value : Value) → Sound IsItem (parse_route platform index value)
  unfolding parse_route
  parse_route-IsItem index (table t) = Sound-bind _ _ _ _ (reject_unknown-Any t _ _) λ _.
      Sound-bind _ _ _ _ (opt_string-Any t _ _) λ name.
        Sound-bind _ _ _ _ (req_string-IsGiven t _ _) λ raw_method.
          Sound-bind _ _ _ _ (req_string-IsGiven t _ _) λ path.
            Sound-bind _ _ _ _ (req_string-IsGiven t _ _) λ script.
              Sound-bind _ _ _ _ (checked_method-has platform _ _) λ method.
                Sound-bind _ _ _ _ (check_path-slash platform _ (unwrap_or [] path)) λ _.
                  Sound-bind _ _ _ _
                    (validate_script_extension-IsScript platform (unwrap_or [] script) _)
                    λ _. Sound-pure _ (some _) λ s p m _ _ _ _ _. record {
                      method = m;
                      slash = p;
                      script = (unwrap_or [] script, refl, s);
                    }
  parse_route-IsItem index (string x) = Sound-refuse _ _
  parse_route-IsItem index (integer x) = Sound-refuse _ _
  parse_route-IsItem index (float x) = Sound-refuse _ _
  parse_route-IsItem index (boolean x) = Sound-refuse _ _
  parse_route-IsItem index (datetime x) = Sound-refuse _ _
  parse_route-IsItem index (array x) = Sound-refuse _ _

  -- Every item is a route.
  abbrev AreRoutes : List Value → List Route → Type 0
  AreRoutes items routes = (length routes ≡ length items) × All IsRoute routes

  AreRoutes-kept :
      (item : Value) (items : List Value) (route : Option Route) (routes : List Route)
      → AreRoutes items routes
      → IsItem route
      → AreRoutes (item ∷ items) (kept platform route routes)
  AreRoutes-kept item items none routes h k = absurd k
  AreRoutes-kept item items (some route) routes (e, h) k = (ap suc e, (k, h))

  parse_items-AreRoutes :
      (index : ℕ) (items : List Value) → Sound (AreRoutes items) (parse_items platform index items)
  unfolding parse_items
  parse_items-AreRoutes index [] = Sound-pure _ _ (refl, tt)
  parse_items-AreRoutes index (item ∷ items) =
      Sound-bind _ _ _ _ (parse_route-IsItem index item) λ route.
        Sound-bind _ _ _ _ (parse_items-AreRoutes (suc index) items)
          λ routes. Sound-pure _ _ λ h k. AreRoutes-kept item items route routes h k

  check_some-length :
      (items : List Value) → Sound (λ _. 1 ≤ length items) (check_some platform items)
  check_some-length [] = Sound-push _ _
  check_some-length (item ∷ items) = Sound-pure _ _ (omega arith)

  pub parse_routes-All :
      (root : Table)
      → Sound (λ routes. (1 ≤ length routes) × All IsRoute routes) (parse_routes platform root)
  unfolding parse_routes
  parse_routes-All root =
      Sound-on_array _ _ _ (Sound-spoiled _ _ _ (Sound-pure _ _ tt))
        (λ other. Sound-spoiled _ _ _ (Sound-pure _ _ tt)) (Config.get (codes "routes") root) _
        λ items. Sound-bind _ _ _ _ (check_some-length (Config.values items)) λ _.
          Sound-weaken _ _ _ (parse_items-AreRoutes 0 (Config.values items))
            λ routes h some_item. (omega (arith, h.0), h.1)

  abbrev pub IsFallback : Fallback → Type 0
  IsFallback fallback = IsScriptPath fallback.script

  pub parse_fallback-IsFallback :
      (root : Table) → Sound (IfGiven platform IsFallback) (parse_fallback platform root)
  unfolding parse_fallback
  parse_fallback-IsFallback root =
      Sound-on_table _ _ _ (Sound-pure _ _ tt) (λ other. Sound-refuse _ _)
        (Config.get (codes "fallback") root) _
        λ t. Sound-bind _ _ _ _ (reject_unknown-Any t _ _) λ _.
          Sound-bind _ _ _ _ (opt_string-Any t _ _) λ name.
            Sound-bind _ _ _ _ (req_string-IsGiven t _ _) λ script.
              Sound-bind _ _ _ _
                (validate_script_extension-IsScript platform (unwrap_or [] script) _)
                λ _. Sound-pure _ (some _) λ s _ _ _. (unwrap_or [] script, refl, s)
