-- ===== src/Tests/Fixtures.antt =====
-- A small provider, client and request: libraries that stand in for Go's, one key, and one token.
use traefikoidc.Base.{Bool, true, false, Option, none, some, List, [], ◌∷◌, if◌then◌else◌}
use traefikoidc.Base.Int.{ℤ, pos, seconds}
use traefikoidc.Base.Text.{Str, lit, str_eq}
use traefikoidc.Cache.{new_cache}
use traefikoidc.Error.{ok}
use traefikoidc.Jwt.{Jwt}
use traefikoidc.Jwt.Signature.{Jwk}
use traefikoidc.Platform.{Platform, Claims, num, str, rsa, response, sent}
use traefikoidc.Server.{Service, Outside, Request, State, initialized}
use traefikoidc.Session.{
  World, Store, Options, Pooled, Ref, Name, main, primary, access, refresh, no_values, unset,
  Values, Value, int, chunk, SessionData,
}
use traefikoidc.Session.Token.{Codec}
use traefikoidc.Url.{UrlLibrary}
use traefikoidc.Verifier.{Verifier, Context}

abbrev pub claims : Claims
claims =
    (lit "iss", str (lit "i"))
    ∷ (lit "aud", str (lit "c"))
    ∷ (lit "exp", num (pos 100000))
    ∷ (lit "iat", num (pos 1))
    ∷ (lit "sub", str (lit "s"))
    ∷ (lit "jti", str (lit "j"))
    ∷ (lit "nonce", str (lit "n"))
    ∷ (lit "email", str (lit "u@d"))
    ∷ []

abbrev pub header : Claims
header = (lit "alg", str (lit "RS256")) ∷ (lit "kid", str (lit "k")) ∷ []

abbrev pub platform : Platform
platform = record {
  decode_segment = λ s. some s;
  unmarshal = λ s.
      if str_eq s (lit "h")
      then some header
      else (if str_eq s (lit "p") then some claims else none);
  show_time = λ t. lit "t";
  show_nat = λ n. lit "n";
  int64 = pos;
  marshal_key = λ k. some (lit "key");
  parse_key = λ s. some (rsa 5 (pos 3));
  pem_encode = λ s. s;
  pem_decode = λ s. some s;
  digest = λ h s. s;
  verify_pkcs1v15 = λ n e h digest signature. str_eq signature (lit "s");
  verify_pss = λ n e h digest signature. false;
  verify_ecdsa = λ curve x y digest r s. false;
}

abbrev pub token : Str
token = lit "h.p.s"

abbrev pub jwt : Jwt
jwt = record { header = header; claims = claims; signature = lit "s"; token = token }

abbrev pub jwk : Jwk
jwk = record {
  kty = lit "RSA";
  kid = lit "k";
  key_use = [];
  n = lit "n";
  e = lit "e";
  alg = [];
  crv = [];
  x = [];
  y = [];
}

abbrev pub now : ℤ
now = seconds 50000

abbrev pub later : ℤ
later = seconds 60000

abbrev pub verifier : Verifier
verifier = record {
  token_cache = new_cache;
  blacklist = new_cache;
  jwk_cache = record { jwks = none; expires_at = pos 0; lifetime = pos 0 };
  replays = [];
}

abbrev pub context : Context
context = record {
  platform = platform;
  issuer_url = lit "i";
  client_id = lit "c";
  allow = true;
  fetched = ok (jwk ∷ []);
}

-- compression that only marks its result
abbrev pub unmark : Str → Option Str
unmark [] = none
unmark (b ∷ s) = some s

abbrev pub codec : Codec
codec = record { gzip = λ s. some (0 ∷ s); gunzip = unmark; encode = λ s. s; decode = λ s. some s }

abbrev pub urls : UrlLibrary
urls = record {
  parse = λ s. some (record { scheme = lit "https"; host = lit "d"; raw_query = []; rest = s });
  print = λ u. u.rest;
  resolve = λ u v. v;
  query = λ u. [];
  encode = λ q. [];
}

abbrev pub store : Store
store = record { load_fails = λ n. false; save_fails = λ c. false; cookie_count = 4 }

abbrev pub options : Options
options = record {
  path = [];
  max_age = pos 0;
  secure = false;
  http_only = false;
  same_site = unset;
}

-- the session of a user that is logged in, with the token in a cookie of its own
abbrev pub values_of : Name → Values
values_of main = record no_values {
  authenticated = some (Value.bool true);
  created_at = some (int (pos 40000));
  csrf = some (Value.str (lit "x"));
  nonce = some (Value.str (lit "n"));
  email = some (Value.str (lit "u@d"));
}
values_of (primary access) = record no_values {
  token = some (Value.str token);
  compressed = some (Value.bool false);
}
values_of _ = no_values

abbrev pub is_chunk : Name → Bool
is_chunk (chunk kind i) = true
is_chunk _ = false

abbrev pub world : World
world = record {
  heap = λ r. record {
    id = [];
    values = values_of r.name;
    options = options;
    is_new = is_chunk r.name;
  };
  cookies = [];
}

abbrev pub pooled : Pooled
pooled = record { access = none; refresh = none; access_chunks = []; refresh_chunks = [] }

abbrev pub ref : Name → Ref
ref name = record { request = 1; name = name }

abbrev pub data_of_request : SessionData
data_of_request = record {
  request = some 1;
  main = ref main;
  access = ref (primary access);
  refresh = ref (primary refresh);
  access_chunks = (0, ref (chunk access 0)) ∷ [];
  refresh_chunks = [];
}

abbrev pub service : Service
service = record {
  middleware = record {
    redir_url_path = lit "/cb";
    logout_url_path = lit "/out";
    post_logout_redirect_uri = lit "/";
    client_id = lit "c";
    client_secret = lit "z";
    force_https = false;
    enable_pkce = false;
    scopes = lit "openid" ∷ [];
    excluded_urls = lit "/favicon" ∷ [];
    allowed_user_domains = lit "d" ∷ [];
    allowed_roles_and_groups = [];
    refresh_grace_period = seconds 60;
    encryption_key = [];
  };
  endpoints = record {
    issuer = lit "i";
    auth_url = lit "a";
    token_url = lit "t";
    jwks_url = lit "w";
    revoke_url = [];
    end_session_url = [];
  };
  header_templates = [];
}

abbrev pub outside : Outside
outside = record {
  platform = platform;
  store = store;
  codec = codec;
  urls = urls;
  wait = initialized;
  pooled = pooled;
  pooled_again = pooled;
  uuid = lit "u";
  nonce = some (lit "m");
  verifier = none;
  challenge = λ s. s;
  session_id = some (lit "q");
  token_answer = λ url form. sent (response 200 (lit "b"));
  decode_tokens = λ body. some (record { id_token = token; refresh_token = [] });
  allow = true;
  fetched = ok (jwk ∷ []);
  fetched_again = ok (jwk ∷ []);
  interfere = λ w. w;
  canonical = λ s. s;
  execute = λ t d. none;
}

abbrev pub request : Str → List (Str × Str) → Request
request path query = record {
  number = 1;
  method = lit "GET";
  path = path;
  request_uri = path;
  url_scheme = [];
  host = lit "d";
  tls = true;
  headers = (lit "X-User-Groups", lit "admins") ∷ [];
  query = query;
}

abbrev pub home : Request
home = request (lit "/home") []

abbrev pub return : Request
return = request (lit "/cb") ((lit "state", lit "x") ∷ (lit "code", lit "y") ∷ [])

abbrev pub state : State
state = record { world = world; verifier = verifier }
