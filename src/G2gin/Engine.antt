-- ===== src/G2gin/Engine.antt =====
-- g2gin/g2gin.go, g2gin/middleware.go: the wiring of the engine, and its middlewares. Gin, cors, tollbooth
-- and the service are parameters. A handler is what it does before it calls `Next`, which each does
-- last or, if it aborts, not at all. The timeouts of the servers, the mode and the writers of gin are
-- left out.
pub mod Served
use gof.Base.{
  ℕ, ◌*◌, ◌≡◌, Bool, true, false, Option, none, some, List, [], ◌∷◌, ◌++◌, map, ◌==◌, if◌then◌else◌,
  Text, codes,
}
use gof.Base.Dict.{Dict, put}
use gof.J2rpc.Error.{Outcome, ok, err, panic}
use gof.J2rpc.Http.{Writer, Request, header_set}
use gof.J2rpc.Middleware.{func, add_before_middleware, MiddleInfo}
use gof.J2rpc.Callback.{Func}
use gof.J2rpc.Server.{Server, Receiver, Libraries, new, register_for_app}
use gof.J2rpc.Server.Serve.{handler}
use gof.G2util.Graceful.{Graceful, reg_http_server}

-- a body: what reading it gives, and whether that ends in an error
pub record Stream : Type 0 where
  pub bytes : Text
  pub fails : Bool

-- `gin.Context`; `head` is the request without its body, a nil body is `none`. A panic leaves the
-- handlers, and the recovery of gin answers it.
pub record Context : Type 0 where
  pub head : Request
  pub body : Option Stream
  pub keys : Dict Text
  pub writer : Writer
  pub aborted : Bool
  pub panicked : Option Text

abbrev pub Handler : Type 0
Handler = Context → Context

-- `gin.RouterGroup` and the engine behind it
pub record Gin (G : Type 0) : Type 0 where
  pub new : G
  pub recovery : Handler
  pub use_handler : Handler → G → G
  pub group : Text → G → G
  pub any_route : Text → Handler → G → G
  pub serve : G → Text → Context → Context
  pub base_path : G → Text
  pub handlers : G → List Handler
  pub join_paths : Text → Text → Text
  pub run_chain : List Handler → Context → Context

-- What gin documents: a group begins with the handlers of its parent, a route has the handlers that
-- its group has when it is added, and they run in order until one aborts.
pub record IsGin {G : Type 0} (x : Gin G) : Type 0 where
  pub recovery_passes : (c : Context) → x.recovery c ≡ c
  pub handlers-new : x.handlers x.new ≡ []
  pub handlers-use : (h : Handler) (g : G) → x.handlers (x.use_handler h g) ≡ x.handlers g ++ h ∷ []
  pub handlers-group : (p : Text) (g : G) → x.handlers (x.group p g) ≡ x.handlers g
  pub base_path-use : (h : Handler) (g : G) → x.base_path (x.use_handler h g) ≡ x.base_path g
  pub serve-any :
      (p : Text) (h : Handler) (g : G) (c : Context)
      → x.serve (x.any_route p h g) (x.join_paths (x.base_path g) p) c
        ≡ x.run_chain (x.handlers g ++ h ∷ []) c
  pub chain_end : (c : Context) → x.run_chain [] c ≡ c
  pub chain_next :
      (h : Handler) (hs : List Handler) (c : Context)
      → x.run_chain (h ∷ hs) c ≡ (if (h c).aborted then h c else x.run_chain hs (h c))

-- `cors.Config`, without the fields that `useCors` leaves at their zero values; the age is in nanoseconds
pub record CorsConfig : Type 0 where
  pub allow_all_origins : Bool
  pub allow_methods : List Text
  pub allow_headers : List Text
  pub allow_credentials : Bool
  pub expose_headers : List Text
  pub max_age : ℕ
  pub allow_wildcard : Bool
  pub allow_browser_extensions : Bool
  pub allow_web_sockets : Bool
  pub allow_files : Bool

-- the configuration of `useCors`
abbrev pub cors_config : CorsConfig
cors_config = record {
  allow_all_origins = true;
  allow_methods = map codes ("GET" ∷ "POST" ∷ "PUT" ∷ "PATCH" ∷ "DELETE" ∷ "HEAD" ∷ "OPTIONS" ∷ []);
  allow_headers = map codes (
      "Origin" ∷ "Content-Length" ∷ "Content-Type" ∷ "Accept-Encoding" ∷ "Authorization"
      ∷ "X-Request-ID" ∷ "X-Token" ∷ "X-Server" ∷ "X-Requested-With" ∷ "Token" ∷ []);
  allow_credentials = true;
  expose_headers = map codes ("X-Token" ∷ "X-Server" ∷ []);
  max_age = 12 * 3600 * 1000000000;
  allow_wildcard = true;
  allow_browser_extensions = true;
  allow_web_sockets = true;
  allow_files = true;
}

-- what `Run` reads of the configuration; `debug` is `gin.IsDebugging`
pub record Settings : Type 0 where
  pub debug : Bool
  pub api_root : Text
  pub port : Text
  pub pprof_port : Text

-- `copyRequestBody`: an error of the reading is dropped, so the body then just ends
unfoldable pub copy_request_body : Bool → Handler
copy_request_body false c = c
copy_request_body true c = elim c.body [
  | none ↦ c
  | some s ↦ record c {
    body = some (record { bytes = s.bytes; fails = false });
    keys = put (codes "REQUEST_BODY") s.bytes c.keys;
  }
]

-- `midAddRequestID`, with the id that `ShortUUID` gives
unfoldable pub mid_add_request_id : Bool → Text → Handler
unfolding header_set
mid_add_request_id false id c = c
mid_add_request_id true id c = record c { writer = header_set (codes "request-id") id c.writer }

-- the rate of `MiddlewareLimiter`, among numbers of requests in a second
unfoldable pub limiter_rate : {F : Type 0} → (F → F → Bool) → F → F → F → F
limiter_rate lt one five rate = if lt rate one then five else rate

-- `MiddlewareLimiter`: the error of tollbooth for the request, what its hook does, and `JSONP`
unfoldable pub middleware_limiter :
    (Context → Option (ℕ × Text)) → Handler → (ℕ → Text → Handler) → Handler
middleware_limiter limit on_reached jsonp c = elim (limit c) [
  | none ↦ c
  | some (code, message) ↦
      (let c' = jsonp code message (on_reached c) in record c' { aborted = true })
]

-- `strings.TrimPrefix` of a slash
unfoldable pub trim_slash : Text → Text
trim_slash [] = []
trim_slash (c ∷ s) = if c == b'/' then s else c ∷ s

abbrev pub body_bytes : Option Stream → Text
body_bytes none = []
body_bytes (some s) = s.bytes

abbrev pub body_fails : Option Stream → Bool
body_fails none = false
body_fails (some s) = s.fails

-- the request as the JSON-RPC server reads it
unfoldable pub request_of : Context → Request
request_of c = record c.head { body = body_bytes c.body; body_broken = body_fails c.body }

-- what `SetJ2Service` was given: `ExcludeMethod`, the tagged objects, and `ItfGinRouter`
pub record J2Service (A G : Type 0) : Type 0 where
  pub exclude_method : Option (List Text)
  pub receivers : List (Receiver A)
  pub router : G → G
  pub j2rpc : Server A → Server A

module _ {A : Type 0} (L : Libraries A) where
  -- the handler of `/jsonrpc`, with the context, the writer and the request as values
  unfoldable pub json_rpc : Server A → (Context → A × A × A) → Handler
  unfolding handler request_of
  json_rpc s values c =
      let (ctx, wr, req) = values c in
      let (out, w') = handler L s ctx wr req (request_of c) c.writer in
      elim out [
        | ok _ ↦ record c { writer = w' }
        | err _ ↦ record c { writer = w' }
        | panic p ↦ record c { writer = w'; aborted = true; panicked = some p }
      ]

module _ {A G : Type 0} where
  -- the router of the service, if it has one
  unfoldable pub router_of : Option (J2Service A G) → G → G
  router_of none g = g
  router_of (some v) g = v.router g

  -- the server that `useJ2rpc` makes: every method goes through the middleware that notes its name
  unfoldable pub j2rpc_server :
      Bool → Func A → List (MiddleInfo A) → Option (J2Service A G) → Outcome (Server A)
  unfolding new add_before_middleware register_for_app
  j2rpc_server snake set_method mids service =
      let mids' = add_before_middleware (func set_method) ((codes "^.*$" ∷ []) ∷ []) mids in
      elim service [
        | none ↦ ok (new snake mids')
        | some v ↦ elim (register_for_app v.exclude_method v.receivers (new snake mids')) [
          | ok s ↦ ok (v.j2rpc s)
          | err e ↦ err e
          | panic p ↦ panic p
        ]
      ]

module _ {G : Type 0} (x : Gin G) where
  -- the group of `Run`
  unfoldable pub api_group : Settings → G
  unfolding trim_slash
  api_group st =
      let g1 = x.group (codes "/") (x.use_handler x.recovery x.new) in
      elim (trim_slash st.api_root) [ [] ↦ g1 | c ∷ s ↦ x.group (b'/' ∷ c ∷ s) g1 ]

  -- what `Run` and `useJ2rpc` hang on the group, in order
  unfoldable pub wire : Settings → Handler → (G → G) → Text → Handler → G → G
  unfolding copy_request_body mid_add_request_id
  wire st cors router id json g = x.any_route (codes "/jsonrpc") json (
      x.use_handler (mid_add_request_id st.debug id)
        (router (x.use_handler cors (x.use_handler (copy_request_body st.debug) g))))

-- `profServer`
unfoldable pub prof_server : Settings → Graceful → Graceful
unfolding reg_http_server
prof_server st g = elim st.pprof_port [ [] ↦ g | c ∷ s ↦ reg_http_server (c ∷ s) g ]

module _ {A G : Type 0} (L : Libraries A) (x : Gin G) where
  -- `Run`: what serves the requests, and the servers of the graceful shutdown
  unfoldable pub run :
      Settings
      → Func A
      → List (MiddleInfo A)
      → Option (J2Service A G)
      → (CorsConfig → Handler)
      → Text
      → (Context → A × A × A)
      → Graceful
      → Outcome (G × Graceful)
  unfolding j2rpc_server api_group wire json_rpc prof_server reg_http_server router_of
  run st set_method mids service new_cors id values grace =
      elim (j2rpc_server {G = G} true set_method mids service) [
        | err e ↦ err e
        | panic p ↦ panic p
        | ok s ↦ ok (
          wire x st (new_cors cors_config) (router_of service) id (json_rpc L s values)
              (api_group x st),
          prof_server st (reg_http_server st.port grace),
        )
      ]
