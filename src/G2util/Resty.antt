-- ===== src/G2util/Resty.antt =====
-- g2util/resty.go: the settings of the HTTP client. Resty, package net and proxies are parameters;
-- durations are nanoseconds.
pub mod Settings
use gof.Base.{
  ℕ, ◌+◌, ◌*◌, Bool, true, not, Option, none, List, [], ◌∷◌, if◌then◌else◌, length, get_elem?, Text,
  codes,
}
use gof.Base.Dict.{Dict}
use gof.Base.Int.{ℤ, pos, ltb_int}
use gof.Fault.{Result, ok, err}

-- `net.Dialer`
pub record Dialer : Type 0 where
  pub timeout : ℤ
  pub fallback_delay : ℤ
  pub keep_alive : ℤ
  pub local_addr : Option Text

-- `DialContext` of a transport: the dialer's, or that of a proxy
pub data Dial (P : Type 0) : Type 0 where
  direct : Dialer → Dial P
  through : P → Dial P

-- `http.Transport`
pub record Transport (P : Type 0) : Type 0 where
  pub dial_context : Dial P
  pub insecure_skip_verify : Bool
  pub tls_handshake_timeout : ℤ
  pub max_idle_conns : ℕ
  pub max_idle_conns_per_host : ℕ
  pub max_conns_per_host : ℕ
  pub idle_conn_timeout : ℤ
  pub response_header_timeout : ℤ
  pub expect_continue_timeout : ℤ
  pub force_attempt_http2 : Bool

-- what is set on `resty.Client`
pub record Client (P : Type 0) : Type 0 where
  pub allow_get_method_payload : Bool
  pub headers : Dict Text
  pub retry_count : ℕ
  pub retry_wait_time : ℤ
  pub retry_max_wait_time : ℤ
  pub transport : Transport P
  pub timeout : ℤ

-- Package net/url and the proxies: `url.Parse`, the URL with a user, `proxy.FromURL`, and whether what
-- that gives is a `ContextDialer`.
pub record Proxies (U I P : Type 0) : Type 0 where
  pub parse : Text → Result U
  pub with_user : I → U → U
  pub from_url : U → Dialer → Result P
  pub is_context_dialer : P → Bool

abbrev pub millis : ℕ → ℤ
millis n = pos (n * 1000000)

abbrev pub seconds : ℕ → ℤ
seconds n = pos (n * 1000000000)

-- `createDialer`
abbrev pub create_dialer : Dialer
create_dialer = record {
  timeout = seconds 20;
  fallback_delay = millis 300;
  keep_alive = seconds 15;
  local_addr = none;
}

module _ {P : Type 0} (procs : ℕ) where
  -- `createTransport`; `procs` is what `GOMAXPROCS` gives
  unfoldable pub create_transport : Option Text → Transport P
  create_transport local_addr = record {
    dial_context = direct (record create_dialer { local_addr = local_addr });
    insecure_skip_verify = true;
    tls_handshake_timeout = seconds 10;
    max_idle_conns = 1000;
    max_idle_conns_per_host = procs + 1;
    max_conns_per_host = 10;
    idle_conn_timeout = seconds (60 * 5);
    response_header_timeout = seconds 30;
    expect_continue_timeout = seconds 20;
    force_attempt_http2 = true;
  }

  -- `constructor`
  unfoldable pub construct_client : Client P
  unfolding create_transport
  construct_client = record {
    allow_get_method_payload = true;
    headers =
        (codes "Accept", codes "*/*")
        ∷ (codes "Pragma", codes "no-cache")
        ∷ (codes "Cache-Control", codes "no-cache")
        ∷ (codes "Connection", codes "keep-alive")
        ∷ [];
    retry_count = 2;
    retry_wait_time = millis 500;
    retry_max_wait_time = millis 2000;
    transport = create_transport none;
    timeout = seconds 30;
  }

  -- `SetDialTimeout`
  unfoldable pub set_dial_timeout : ℤ → Client P → Client P
  unfolding create_transport
  set_dial_timeout d c =
      let timeout = if ltb_int d (seconds 1) then seconds 1 else d in
      record c {
        transport = record (create_transport none) {
          dial_context = direct (record create_dialer { timeout = timeout });
        };
      }

module _ {U I P : Type 0} (procs : ℕ) (x : Proxies U I P) where
  -- `SetProxy`; every failure leaves the client as it is
  unfoldable pub set_proxy : Text → I → Client P → Client P
  unfolding create_transport
  set_proxy url user c = elim (x.parse url) [
    | err e ↦ c
    | ok u ↦ elim (x.from_url (x.with_user user u) create_dialer) [
      | err e ↦ c
      | ok p ↦ if not (x.is_context_dialer p) then c else record c {
        transport = record (create_transport procs none) { dial_context = through p };
      }
    ]
  ]

abbrev pub user_agents : List Text
user_agents =
    codes
      "Mozilla/5.0 (Macintosh; Intel Mac OS X 10_15_7) AppleWebKit/537.36 (KHTML, like Gecko) Chrome/104.0.0.0 Safari/537.36"
    ∷ codes
        "Mozilla/5.0 (Windows NT 6.1; WOW64) AppleWebKit/535.11 (KHTML, like Gecko) Chrome/17.0.963.56 Safari/535.11"
    ∷ codes
        "Mozilla/5.0 (Macintosh; Intel Mac OS X 10_7_3) AppleWebKit/535.20 (KHTML, like Gecko) Chrome/19.0.1036.7 Safari/535.20"
    ∷ codes
        "Mozilla/5.0 (Windows NT 6.1; WOW64) AppleWebKit/537.1 (KHTML, like Gecko) Chrome/21.0.1180.71 Safari/537.1 LBBROWSER"
    ∷ codes
        "Mozilla/5.0 (Windows NT 6.1; Win64; x64; rv:2.0b13pre) Gecko/20110307 Firefox/4.0b13pre"
    ∷ codes
        "Mozilla/5.0 (Windows NT 10.0; WOW64) AppleWebKit/537.36 (KHTML, like Gecko) Chrome/61.0.3163.100 Safari/537.36"
    ∷ []

-- `RandUseragent` with `MathRandInt`; none is an index out of range
unfoldable pub rand_useragent : (ℕ → ℕ) → Option Text
rand_useragent math_rand_int = get_elem? user_agents (math_rand_int (length user_agents))
