-- ===== src/Browser.antt =====
-- What the source uses of the browser: the two web storages, the cookies and the page's location.
use lapor_kos.Prelude.{String, ℕ, Bool, Option, none, some, ◌==◌, if◌then◌else◌}

-- A `Storage`, by its keys.
abbrev pub Store : Type 0
Store = String → Option String

-- `setItem`
abbrev pub set_item : String → String → Store → Store
set_item key value m k = if key == k then some value else m k

-- `removeItem`
abbrev pub remove_item : String → Store → Store
remove_item key m k = if key == k then none else m k

pub record Cookie : Type 0 where
  pub value : String
  pub max_age : ℕ  -- seconds
  pub secure : Bool

-- `has_window` is `typeof window !== 'undefined'`: it is false on the server.
pub record Browser : Type 0 where
  pub has_window : Bool
  pub local_storage : Store
  pub session_storage : Store
  pub cookies : String → Option Cookie
  pub is_https : Bool
  pub pathname : String
