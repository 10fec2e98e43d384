-- ===== src/Detect/Fetch.antt =====
-- The download of the detectable applications, src/process/detectable.rs: `fetch_detectable` and
-- `load_detectable_entries` with the ETag that is kept in the cache directory.
use Prim.Native.Char.{code}
use Prim.Native.String
use dirpc.Prelude.{
  ℕ, String, Bool, true, false, ◌&&◌, Option, none, some, Bytes, [], leb, if◌then◌else◌, ◌==◌,
  nat_eq, ◌≡◌, refl,
}
use dirpc.Detect.Payload.{Entries, Reader, Parsed, entries, bad_shape, parse_detectable_entries}

-- `Path::join` of a relative name.
abbrev joined : String → String → Option Bool → String
joined base name none = name
joined base name (some true) = String.◌++◌ base name
joined base name (some false) = String.◌++◌ base (String.◌++◌ "/" name)

-- Whether a text that is not empty ends with a slash.
abbrev ends_with_slash : String → Option Bool
ends_with_slash String.[] = none
ends_with_slash (String.◌∷◌ c s) = elim (ends_with_slash s) [
  | none ↦ some (code c == b'/')
  | some b ↦ some b
]

abbrev join : String → String → String
join base name = joined base name (ends_with_slash base)

-- The cache directory outside Windows: the environment's base, or the home directory's `.cache`.
abbrev base_dir : Option String → Option String → String
base_dir (some base) home = base
base_dir none (some home) = join home ".cache"
base_dir none none = join "/tmp" ".cache"

unfoldable pub cache_dir : Option String → Option String → String
cache_dir xdg_cache_home home = join (base_dir xdg_cache_home home) "dirpc"

unfoldable pub cache_db_path : Option String → Option String → String
cache_db_path xdg home = join (cache_dir xdg home) "detectable.redb"

unfoldable pub cache_fst_path : Option String → Option String → String
cache_fst_path xdg home = join (cache_dir xdg home) "detectable.fst"

unfoldable pub cache_etag_path : Option String → Option String → String
cache_etag_path xdg home = join (cache_dir xdg home) "detectable.etag"

-- What the HTTP client yields: the status, the ETag where it is a text, and the body where it can be
-- read.
pub record Response : Type 0 where
  pub status : ℕ
  pub etag : Option String
  pub body : Option Bytes

-- `Err`, `Ok(None)` and `Ok(Some(..))`
pub data Fetched : Type 0 where
  fetch_failed : Fetched
  not_modified : Fetched
  fetched : Entries → Option String → Fetched

abbrev pub is_success : ℕ → Bool
is_success status = leb 200 status && leb status 299

module _ {N : Type 0} (reader : Reader N) where
  on_parsed : Option String → Parsed → Fetched
  on_parsed etag (entries es) = fetched es etag
  on_parsed etag (bad_shape _) = fetch_failed

  on_body : ℕ → Option String → Option Bytes → Fetched
  on_body status etag none = fetch_failed
  on_body status etag (some body) =
      if is_success status
      then on_parsed etag (parse_detectable_entries reader body)
      else fetch_failed

  on_response : Option Response → Fetched
  on_response none = fetch_failed
  on_response (some resp) =
      if resp.status == 304 then not_modified else on_body resp.status resp.etag resp.body

  -- `send` is the request with its If-None-Match header, or without one.
  unfoldable pub fetch_detectable : (Option String → Option Response) → Option String → Fetched
  unfolding on_parsed on_body on_response
  fetch_detectable send etag = on_response (send etag)

  -- `save_etag`: the file is written, or a failure, which is ignored, leaves what it leaves: the old
  -- text, a part of the new one, or no file.
  abbrev save_etag : Option (Option String) → Option String → Option String → Option String
  save_etag failure none stored = stored
  save_etag none (some tag) stored = some tag
  save_etag (some left) (some tag) stored = left

  abbrev pub on_fetched : Option (Option String) → Option String → Fetched → Entries × Option String
  on_fetched failure stored fetch_failed = ([], stored)
  on_fetched failure stored not_modified = ([], stored)
  on_fetched failure stored (fetched es tag) = (es, save_etag failure tag stored)

  -- The entries, and the ETag file after it.
  unfoldable pub load_detectable_entries :
      (Option String → Option Response)
      → Option (Option String)
      → Option String
      → Entries × Option String
  load_detectable_entries send failure stored =
      on_fetched failure stored (fetch_detectable send stored)

  -- A 304 yields no entries and leaves the ETag file as it was.
  pub load_detectable_entries-304 :
      (send : Option String → Option Response) (failure : Option (Option String))
      (stored : Option String) (resp : Response)
      → send stored ≡ some resp
      → (resp.status == 304) ≡ true
      → load_detectable_entries send failure stored ≡ ([], stored)
  unfolding load_detectable_entries fetch_detectable on_response
  load_detectable_entries-304 send failure stored resp e s = rw (e, s) refl
