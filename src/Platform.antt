-- ===== src/Platform.antt =====
-- What the program calls of Go's standard library and does not implement: decoding, JSON, keys
-- and signatures. The data that pass between them and the program are declared here.
use traefikoidc.Base.{ℕ, Bool, Option, none, some, List}
use traefikoidc.Base.Int.{ℤ}
use traefikoidc.Base.Text.{Str}

-- An `interface{}` that `json.Unmarshal` has filled. A number stands for its `int64` conversion,
-- the only view that the program takes of a float64; of an object nothing is read.
mutual
  pub data Json : Type 0 where
    null : Json
    bool : Bool → Json
    num : ℤ → Json
    str : Str → Json
    arr : Items → Json
    obj : Json

  pub data Items : Type 0 where
    nil : Items
    cons : Json → Items → Items

abbrev pub Claims : Type 0
Claims = List (Str × Json)

-- `v.(string)`, `v.(float64)`; an absent value is of neither type.
abbrev pub as_str : Option Json → Option Str
as_str (some (str s)) = some s
as_str _ = none

abbrev pub as_num : Option Json → Option ℤ
as_num (some (num n)) = some n
as_num _ = none

pub data Hash : Type 0 where
  sha256 sha384 sha512 : Hash

pub data Curve : Type 0 where
  p256 p384 p521 : Curve

-- The dynamic type of a key that `x509.ParsePKIXPublicKey` returns.
pub data PublicKey : Type 0 where
  rsa : (n : ℕ) (e : ℤ) → PublicKey
  ecdsa : Curve → (x y : ℕ) → PublicKey
  other_key : PublicKey

-- The answer to an HTTP request: the client's error, or a status and a body.
pub data Answer : Type 0 where
  transport_error : Str → Answer
  response : (status : ℕ) (body : Str) → Answer

-- What becomes of a request that `http.NewRequestWithContext` makes: it cannot be made, or it is sent
-- and answered.
pub data Sending : Type 0 where
  not_created : Str → Sending
  sent : Answer → Sending

pub record Platform : Type 0 where
  -- `base64.RawURLEncoding.DecodeString`
  pub decode_segment : Str → Option Str
  -- `json.Unmarshal` into a `map[string]interface{}`
  pub unmarshal : Str → Option Claims
  -- `%v` of an instant in UTC, `%d` of a number
  pub show_time : ℤ → Str
  pub show_nat : ℕ → Str
  -- `big.Int.Int64`
  pub int64 : ℕ → ℤ
  -- `x509.MarshalPKIXPublicKey`, `x509.ParsePKIXPublicKey`
  pub marshal_key : PublicKey → Option Str
  pub parse_key : Str → Option PublicKey
  -- `pem.EncodeToMemory`, `pem.Decode`
  pub pem_encode : Str → Str
  pub pem_decode : Str → Option Str
  pub digest : Hash → Str → Str
  pub verify_pkcs1v15 : ℕ → ℤ → Hash → Str → Str → Bool
  pub verify_pss : ℕ → ℤ → Hash → Str → Str → Bool
  pub verify_ecdsa : Curve → ℕ → ℕ → Str → ℕ → ℕ → Bool
