-- ===== src/HttpClient.antt =====
-- The client for requests to the provider (main.go).
use traefikoidc.Base.{ℕ, Bool, true, false, leb, if◌then◌else◌}
use traefikoidc.Base.Int.{ℤ, pos, seconds}
use traefikoidc.Base.Text.{lit}
use traefikoidc.Error.{Result, ok, fail}

-- `http.Client` and its `http.Transport`, the fields that the program sets
pub record HttpClient : Type 0 where
  pub dial_timeout : ℤ
  pub keep_alive : ℤ
  pub force_attempt_http2 : Bool
  pub tls_handshake_timeout : ℤ
  pub expect_continue_timeout : ℤ
  pub max_idle_conns : ℕ
  pub max_idle_conns_per_host : ℕ
  pub idle_conn_timeout : ℤ
  pub disable_keep_alives : Bool
  pub max_conns_per_host : ℕ
  pub timeout : ℤ
  -- the error after so many requests
  pub check_redirect : ℕ → Result (Unit {0})

-- `createDefaultHTTPClient`
abbrev pub create_default_http_client : HttpClient
create_default_http_client = record {
  dial_timeout = seconds 15;
  keep_alive = seconds 15;
  force_attempt_http2 = true;
  tls_handshake_timeout = seconds 5;
  expect_continue_timeout = pos 0;
  max_idle_conns = 30;
  max_idle_conns_per_host = 10;
  idle_conn_timeout = seconds 30;
  disable_keep_alives = false;
  max_conns_per_host = 50;
  timeout = seconds 15;
  check_redirect = λ via. if leb 50 via then fail (lit "stopped after 50 redirects") else ok tt;
}
