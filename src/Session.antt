-- ===== src/Session.antt =====
-- The data of session.go. The session store (gorilla/sessions) keeps one object for each cookie
-- name of a request and hands out pointers to it, so a session is named by its request and its
-- cookie, and a heap maps these references to the objects. Loading a cookie has no effect but to
-- make the object, so the heap holds the objects of a request from its start.
pub mod Cookies
pub mod Token
pub mod Manager
pub mod Chunks
pub mod RoundTrip
pub mod Expiry
pub mod Clearing
pub mod Loading
pub mod Sent
pub mod Next
pub mod Survival
pub mod Kept
pub mod Carried
pub mod Stale
pub mod Fuel
pub mod Saved
pub mod Untouched
use traefikoidc.Base.{
  ◌≡◌, refl, ap, arith, ==_iff, ℕ, Bool, true, false, ◌&&◌, Option, none, some, List, [], ◌∷◌, ◌++◌,
  ◌==◌, if◌then◌else◌,
}
use traefikoidc.Base.Int.{ℤ, pos}
use traefikoidc.Base.Text.{Str}

-- The cookie names `_oidc_raczylo_m`, `_a`, `_r`, and `_a_N`, `_r_N` of the chunks.
pub data Kind : Type 0 where
  access refresh : Kind

pub data Name : Type 0 where
  main : Name
  primary : Kind → Name
  chunk : Kind → ℕ → Name

abbrev pub kind_eq : Kind → Kind → Bool
kind_eq access access = true
kind_eq refresh refresh = true
kind_eq _ _ = false

abbrev pub name_eq : Name → Name → Bool
name_eq main main = true
name_eq (primary k) (primary j) = kind_eq k j
name_eq (chunk k m) (chunk j n) = kind_eq k j && m == n
name_eq _ _ = false

-- A value of the `Values` of a session, whose dynamic types are these.
pub data Value : Type 0 where
  str : Str → Value
  bool : Bool → Value
  int : ℤ → Value

-- `Values`, which the program reads and writes under these keys only.
pub record Values : Type 0 where
  pub authenticated : Option Value
  pub created_at : Option Value
  pub csrf : Option Value
  pub nonce : Option Value
  pub code_verifier : Option Value
  pub email : Option Value
  pub incoming_path : Option Value
  pub token : Option Value
  pub compressed : Option Value
  pub token_chunk : Option Value

abbrev pub no_values : Values
no_values = record {
  authenticated = none;
  created_at = none;
  csrf = none;
  nonce = none;
  code_verifier = none;
  email = none;
  incoming_path = none;
  token = none;
  compressed = none;
  token_chunk = none;
}

-- `v, _ := Values[k].(string)`, the empty string if it is none
abbrev pub string_of : Option Value → Str
string_of (some (str s)) = s
string_of _ = []

abbrev pub bool_of : Option Value → Bool
bool_of (some (bool b)) = b
bool_of _ = false

abbrev pub int_of : Option Value → Option ℤ
int_of (some (int n)) = some n
int_of _ = none

pub data SameSite : Type 0 where
  lax unset : SameSite

-- `sessions.Options`
pub record Options : Type 0 where
  pub path : Str
  pub max_age : ℤ
  pub secure : Bool
  pub http_only : Bool
  pub same_site : SameSite

-- `sessions.Session`; `is_new` says that no valid cookie came with the request
pub record Session : Type 0 where
  pub id : Str
  pub values : Values
  pub options : Options
  pub is_new : Bool

pub record Ref : Type 0 where
  pub request : ℕ
  pub name : Name

abbrev pub ref_eq : Ref → Ref → Bool
ref_eq r s = r.request == s.request && name_eq r.name s.name

pub kind_eq_refl : (k : Kind) → kind_eq k k ≡ true
kind_eq_refl access = refl
kind_eq_refl refresh = refl

pub eq_of_name_eq : (m n : Name) → name_eq m n ≡ true → m ≡ n
eq_of_name_eq main main h = refl
eq_of_name_eq (primary access) (primary access) h = refl
eq_of_name_eq (primary refresh) (primary refresh) h = refl
eq_of_name_eq (chunk access i) (chunk access j) h =
    ap (chunk access) ((==_iff i j).0 (ground arith))
eq_of_name_eq (chunk refresh i) (chunk refresh j) h =
    ap (chunk refresh) ((==_iff i j).0 (ground arith))
eq_of_name_eq _ _ h = absurd (ground arith)

-- A reference equals itself.
pub name_eq_refl : (n : Name) → name_eq n n ≡ true
name_eq_refl main = refl
name_eq_refl (primary k) = kind_eq_refl k
name_eq_refl (chunk k n) = ground (arith, kind_eq_refl k, ==_iff n n)

pub ref_eq_refl : (r : Ref) → ref_eq r r ≡ true
ref_eq_refl r = ground (arith, name_eq_refl r.name, ==_iff r.request r.request)

abbrev pub Heap : Type 0
Heap = Ref → Session

-- A `Set-Cookie` header: the encoded values are kept as values.
pub record SetCookie : Type 0 where
  pub name : Name
  pub values : Values
  pub options : Options

-- What session handling changes: the session objects, and the headers of the response.
pub record World : Type 0 where
  pub heap : Heap
  pub cookies : List SetCookie

-- What the store does beyond keeping objects: whether a cookie fails to load, whether a session
-- fails to encode (it may be too long), and how many cookies the request has.
pub record Store : Type 0 where
  pub load_fails : Name → Bool
  pub save_fails : SetCookie → Bool
  pub cookie_count : ℕ

abbrev pub object : World → Ref → Session
object w r = w.heap r

-- a write through a pointer
abbrev pub write : Ref → (Session → Session) → World → World
write r f w = record w { heap = λ q. if ref_eq q r then f (w.heap q) else w.heap q }

abbrev pub write_values : Ref → (Values → Values) → World → World
write_values r f = write r (λ s. record s { values = f s.values })

-- `session.Options.MaxAge = -1`
abbrev pub age : Session → Session
age s = record s { options = record s.options { max_age = ℤ.negsuc 0 } }

-- the same, and its values emptied
abbrev pub expire : Session → Session
expire s = record s { values = no_values; options = record s.options { max_age = ℤ.negsuc 0 } }

-- `SessionData`. The chunk maps go from an index to a session.
pub record SessionData : Type 0 where
  pub request : Option ℕ
  pub main : Ref
  pub access : Ref
  pub refresh : Ref
  pub access_chunks : List (ℕ × Ref)
  pub refresh_chunks : List (ℕ × Ref)

-- A `SessionData` as the pool hands it out: new, or with the pointers of an earlier request.
pub record Pooled : Type 0 where
  pub access : Option Ref
  pub refresh : Option Ref
  pub access_chunks : List (ℕ × Ref)
  pub refresh_chunks : List (ℕ × Ref)

-- the session that holds a token, and the map of its chunks
abbrev pub primary_of : Kind → SessionData → Ref
primary_of access sd = sd.access
primary_of refresh sd = sd.refresh

abbrev pub chunks_of : Kind → SessionData → List (ℕ × Ref)
chunks_of access sd = sd.access_chunks
chunks_of refresh sd = sd.refresh_chunks

abbrev pub with_chunks : Kind → List (ℕ × Ref) → SessionData → SessionData
with_chunks access chunks sd = record sd { access_chunks = chunks }
with_chunks refresh chunks sd = record sd { refresh_chunks = chunks }
