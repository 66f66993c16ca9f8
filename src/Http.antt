-- ===== src/Http.antt =====
-- server/src/http: what the session middleware, the authentication gate, the CSRF check and the
-- session routes do with a request. Express calls them in this order; the parts of a request that they
-- read are a record, and what they throw is an `ApiError`. Times are milliseconds since 1970.
pub mod Cookies
pub mod Paths
pub mod Guards
pub mod SessionRoutes
pub mod RoundTrip
pub mod Admission
pub mod Journey
pub mod Slashes
pub mod EntryBody
pub mod Rotation
mod Tests
use cargo_execution_assistan.Prelude.{ℕ, String, Bool, Option, List}
use cargo_execution_assistan.Text.{Text}
use cargo_execution_assistan.Sessions.{SpecialistDto}

-- Functions of the JavaScript runtime; `none` where `decodeURIComponent` throws.
pub record WebRuntime : Type 0 where
  pub to_upper : Text → Text
  pub encode_uri_component : Text → Text
  pub decode_uri_component : Text → Option Text

pub data CookieProfile : Type 0 where
  governed demo_iframe : CookieProfile

-- The fields of `AppConfig` that are read.
pub record AppConfig : Type 0 where
  pub session_cookie_profile : CookieProfile
  pub origin_is_https : Bool

pub record HttpRequest : Type 0 where
  pub method : Text
  pub path : Text
  pub cookie : Option Text
  pub csrf_header : Option Text

-- What the session middleware attaches to the request.
pub record RequestContext : Type 0 where
  pub principal : Option SpecialistDto
  pub session_id : Option Text
  pub csrf_token_hash : Option (List ℕ)

pub record ApiError : Type 0 where
  pub status : ℕ
  pub code : String
