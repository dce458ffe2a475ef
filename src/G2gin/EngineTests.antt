-- ===== src/G2gin/EngineTests.antt =====
-- An engine that routes by a table, and a request to it.
use gof.Base.{
  ◌≡◌, refl, true, false, none, some, List, [], ◌∷◌, ◌++◌, if◌then◌else◌, Text, codes, text_eq,
}
use gof.J2rpc.Error.{ok, err, panic}
use gof.J2rpc.Http.{header_set}
use gof.J2rpc.Server.{Server}
use gof.J2rpc.Tests.Samples.{libraries, echo_func, echo, bare, writer, request}
use gof.G2util.Graceful.{Graceful}
use gof.G2gin.Engine.{
  Context, Handler, Gin, Settings, J2Service, json_rpc, wire, api_group, j2rpc_server,
}
use gof.G2gin.LogLine.{LogParams, log_line}
use gof.Base.Decimal.{decimal}

record RouteTable : Type 0 where
  path : Text
  own : List Handler
  routes : List (Text × List Handler)

chain : List Handler → Context → Context
chain [] c = c
chain (h ∷ hs) c = let rest = chain hs (h c) in if (h c).aborted then h c else rest

look_up : List (Text × List Handler) → Text → Context → Context
look_up [] p c = c
look_up ((q, hs) ∷ rs) p c = if text_eq q p then chain hs c else look_up rs p c

abbrev table : Gin RouteTable
table = record {
  new = record { path = []; own = []; routes = [] };
  recovery = λ c. c;
  use_handler = λ h g. record g { own = g.own ++ h ∷ [] };
  group = λ p g. record g { path = g.path ++ p };
  any_route = λ p h g. record g { routes = (g.path ++ p, g.own ++ h ∷ []) ∷ g.routes };
  serve = λ g p c. look_up g.routes p c;
  base_path = λ g. g.path;
  handlers = λ g. g.own;
  join_paths = λ p q. p ++ q;
  run_chain = chain;
}

abbrev settings : Settings
settings = record { debug = true; api_root = codes "/api"; port = codes ":80"; pprof_port = [] }

abbrev echo_service : J2Service Text RouteTable
echo_service = record {
  exclude_method = none;
  receivers = echo ∷ [];
  router = λ g. g;
  j2rpc = λ s. s;
}

abbrev allow : Handler
allow c = record c {
  writer = header_set (codes "Access-Control-Allow-Origin") (codes "*") c.writer;
}

abbrev go_values : Context → Text × Text × Text
go_values c = ([], [], [])

abbrev no_servers : Graceful
no_servers = record { process_list = []; srv_list = [] }

-- the server with the echo object
abbrev registered : Server Text
registered = elim (j2rpc_server {G = RouteTable} true echo_func [] (some echo_service)) [
  | ok s ↦ s
  | err e ↦ bare
  | panic p ↦ bare
]

abbrev running : RouteTable
running =
    wire table settings allow (λ g. g) (codes "7") (json_rpc libraries registered go_values)
      (api_group table settings)

abbrev hello : Context
hello = record {
  head = request [];
  body = some (record { bytes = codes "echo_api.say_hi x"; fails = false });
  keys = [];
  writer = writer;
  aborted = false;
  panicked = none;
}

abbrev served_request : LogParams
served_request = record {
  time_stamp = codes "2024/01/02 - 03:04:05";
  method_key = codes "user.get";
  status_code = 200;
  latency = 7;
  client_ip = codes "::1";
  method = codes "POST";
  path = codes "/jsonrpc";
  error_message = codes "bad";
  header = (codes "A", codes "1" ∷ codes "2" ∷ []) ∷ [];
  request_body = codes "x";
}

log_line_run :
    log_line
      (λ n. decimal n ++ codes "ns")
      (λ m. elim m [ [] ↦ [] | (k, v) ∷ r ↦ v ])
      true
      served_request
    ≡ codes
        "[GIN]| 2024/01/02 - 03:04:05 | user.get | 200 | 7ns | ::1 | POST | /jsonrpc |\nbad\n[Header] 1,2\n[Body] x\n\n"
unfolding log_line decimal
log_line_run = refl
