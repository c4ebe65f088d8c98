-- ===== src/Config/Tests.antt =====
-- Runs of the loader on small documents, and the theorem applied to one.
use stuntdouble.Common.{◌≡◌, refl, true, false, none, some, [], ◌∷◌, ◌++◌}
use stuntdouble.Common.Bytes.{codes, to_ascii_uppercase}
use stuntdouble.Common.Text.{to_text}
use stuntdouble.Config
use stuntdouble.Config.{
  Value, string, integer, array, table, I64, nonneg, negative, nil, cons, Table, end, entry,
  Violation, Platform, Config, ◌>>=◌, integer_text,
}
use stuntdouble.Config.Fields.{
  on_integer, on_string, on_array, on_table, opt_positive_bytes, opt_port, opt_duration_ms,
  opt_memory_limit_mb, opt_string, req_string, normalize_method, reject_keys, reject_unknown,
  opt_bind, check_host, check_hosts, opt_host_list, validate_script_extension,
}
use stuntdouble.Config.Tables.{
  default_server, default_sandbox, validate_config_version, parse_sandbox, parse_server,
  parse_upstream, parse_fallback, parse_files, existing_dir, checked_method, check_path,
  parse_route, parse_items, parse_routes,
}
use stuntdouble.Config.Load.{loaded, refused, check_root, expect_config, conclude, load}
use stuntdouble.Config.Sound.Loaded.{IsOutcome, load-IsOutcome}

-- Every script ends in .js, and every address and directory is there.
abbrev platform : Platform
platform = record {
  is_absolute = λ _. false;
  join = λ path. codes "conf/" ++ path;
  extension = λ _. some (codes "js");
  is_dir = λ _. true;
  is_address = λ _. true;
  normalize_host = λ host. some host;
  debug = λ text. text;
}

abbrev route_table : Table
route_table = entry (codes "method") (string (codes "get")) (
    entry (codes "path") (string (codes "/a")) (entry (codes "script") (string (codes "a.js")) end))

abbrev document : I64 → Value
document port = table (
    entry (codes "config_version") (string (codes "1")) (
      entry (codes "files") (table (entry (codes "root") (string (codes "static")) end)) (
        entry (codes "routes") (array (cons (table route_table) nil))
          (entry (codes "server") (table (entry (codes "port") (integer port) end)) end))))

config_runs : Unit {0}
unfolding load conclude expect_config check_root ◌>>=◌ Config.get on_integer on_string on_array
    on_table opt_positive_bytes opt_port opt_duration_ms opt_memory_limit_mb opt_string req_string
    normalize_method reject_keys reject_unknown opt_bind check_host check_hosts opt_host_list
    validate_script_extension validate_config_version parse_sandbox parse_server parse_upstream
    parse_fallback parse_files existing_dir checked_method check_path parse_route parse_items
    parse_routes to_ascii_uppercase to_text
config_runs = tt

load_test :
    load platform (document (nonneg 8080))
    ≡ loaded (record {
      config_version = codes "1";
      server = record default_server { port = 8080 };
      files = record { root = codes "conf/static"; upload_max_bytes = 20971520 };
      sandbox = default_sandbox;
      upstream = record { allow_hosts = []; timeout_ms = 15000 };
      routes =
          record {
            name = none;
            method = codes "GET";
            path = codes "/a";
            script = codes "conf/a.js";
          }
          ∷ [];
      fallback = none;
    })
unfolding config_runs
load_test = refl

port_test :
    load platform (document (nonneg 65536))
    ≡ refused (
        record {
          field = codes "server.port";
          expected = codes "integer in [1, 65535]";
          actual = integer_text (nonneg 65536);
        }
        ∷ [])
unfolding config_runs
port_test = refl

load-IsOutcome_example : IsOutcome platform (load platform (document (nonneg 8080)))
load-IsOutcome_example = load-IsOutcome platform (document (nonneg 8080))
