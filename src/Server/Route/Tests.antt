-- ===== src/Server/Route/Tests.antt =====
-- A request that a route fits, and the theorem applied to it.
use stuntdouble.Common.{ℕ, ◌≡◌, ◌⊎◌, All, true, none, some, List, [], ◌∷◌, ok}
use stuntdouble.Common.Bytes.{codes, to_ascii_uppercase}
use stuntdouble.Matcher.{Route, split}
use stuntdouble.Matcher.Routes.{Answers, IsFirst}
use stuntdouble.Files.Multipart.{Storage}
use stuntdouble.Script.Protocol.{no_response}
use stuntdouble.Script.Record.{outcome_failed}
use stuntdouble.Server.Prepare.{Inbound}
use stuntdouble.Server.Route.{Engine, Routed, label_of, route_unmatched, route_request}
use stuntdouble.Server.Route.Chosen.{IsTimely, route_request-IsRouted}

abbrev storage : Storage
storage = record {
  World = ℕ;
  Writer = ℕ;
  create_dir = λ w. (none, w);
  create = λ path w. (none, w);
  write_all = λ writer bytes w. (true, w);
  flush = λ writer w. (true, w);
  shutdown = λ writer w. (true, w);
}

abbrev engine : Engine ℕ ℕ
engine = record {
  read_to_string = λ path. ok path;
  slot_free = true;
  execute = λ source prepared. outcome_failed no_response;
}

abbrev routes : List Route
routes =
    record {
      name = some (codes "hello");
      method = codes "GET";
      path = codes "/hello/:name";
      script = codes "hello.js";
    }
    ∷ []

abbrev request : Inbound
request = record {
  method = codes "GET";
  path = codes "/hello/ann";
  content_type = none;
  length_header = none;
  parts = none;
  body = some [];
}

route_request-IsRouted_example :
    let method = to_ascii_uppercase request.method in
    let segments = split request.path in
    (routed : Routed ℕ ℕ) × (after : ℕ) × (route_request storage 10 engine routes none request none
        0
      ≡ some (routed, after))
    × ((All (λ route. ¬ Answers method segments route) routes
          × (routed ≡ route_unmatched engine routes none request.path)
          × (after ≡ 0))
        ⊎ ((n : ℕ) × (first : IsFirst method segments routes n routed.params) × (routed.label
              ≡ label_of first.route)
            × IsTimely engine storage 10 first.route request none 0 routed after))
route_request-IsRouted_example = route_request-IsRouted engine storage 10 routes none request none 0
