-- ===== src/Http.antt =====
-- Requests, responses, and what lies outside the SDK: the network, the clock, the random source,
-- and the functions of Go's standard library whose code is not in the repository.
pub mod Monad
use tamga_go.Base.{ℕ, ◌<◌, Bool, Option, none, some, List, [], ◌∷◌, if◌then◌else◌, ◌&&◌, leb, ltb}
use tamga_go.Text.{Bytes, codes, ◌==◌}
use tamga_go.Json.{Json, Object}

-- url.Values as far as the SDK uses it: one value for a key.
abbrev pub Values : Type 0
Values = List (Bytes × Bytes)

-- url.Values.Set and http.Header.Set: replaces, and adds a key that is not there.
unfoldable pub set_value : Bytes → Bytes → Values → Values
set_value k v [] = (k, v) ∷ []
set_value k v ((j, w) ∷ m) = if j == k then (k, v) ∷ m else (j, w) ∷ set_value k v m

-- A parsed url.URL. `path` is decoded.
pub record Url : Type 0 where
  pub scheme : Bytes
  pub host : Bytes
  pub path : Bytes
  pub raw_query : Bytes

pub record Request : Type 0 where
  pub method : Bytes
  pub url : Url
  pub headers : Values
  pub cookies : Values
  pub body : Option Bytes

-- What a response body delivers until it ends, or until reading it fails.
pub record Body : Type 0 where
  pub bytes : Bytes
  pub broken : Bool

pub record Response : Type 0 where
  pub status : ℕ
  pub header : Bytes → Bytes
  pub body : Body

-- An *http.Client: its transport, and whether it follows redirects.
pub record HttpClient : Type 0 where
  pub transport : ℕ
  pub follows : Bool

-- What a run of the program does, newest first. `passed` is time between two calls of the SDK.
pub data Event : Type 0 where
  sent : HttpClient → Request → Event
  waited : ℕ → Event
  passed : ℕ → Event

abbrev pub History : Type 0
History = List Event

-- An error object as it stands on the wire; the status is raw JSON.
pub record WireError : Type 0 where
  pub source : Option Bytes
  pub meta : Object
  pub id : Bytes
  pub code : Bytes
  pub title : Bytes
  pub detail : Bytes
  pub status : Bytes

pub record Env : Type 0 where
  -- the peer's answer to the newest event, the request; `none` is an error of the transport
  pub exchange : History → Option Response
  -- whether the context ends while the client waits, or before
  pub cancelled : History → Bool
  -- rand.Int63n(10^9)
  pub jitter : History → ℕ
  -- time.Now, in nanoseconds
  pub clock : History → ℕ
  pub marshal : Json → Option Bytes
  pub unmarshal_errors : Bytes → Option (List WireError)
  pub unmarshal_string : Bytes → Option Bytes
  pub unmarshal_number : Bytes → Option Bytes
  pub parse_url : Bytes → Option Url
  pub path_escape : Bytes → Bytes
  pub encode_query : Values → Bytes
  pub parse_query : Bytes → Values
  pub encode_base64 : Bytes → Bytes
  pub decode_base64 : Bytes → Option Bytes

-- 200 <= status < 300
abbrev pub is_success : ℕ → Bool
is_success status = leb 200 status && ltb status 300

abbrev pub post : Bytes
post = codes "POST"

abbrev pub get : Bytes
get = codes "GET"

abbrev pub delete : Bytes
delete = codes "DELETE"

abbrev pub patch : Bytes
patch = codes "PATCH"
