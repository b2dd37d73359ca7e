-- ===== src/IpCamera/Sources.antt =====
-- PreviewStreamSource and StreamSources of internal/ipcamera/service.go.
use dronservice_updates.Prelude.{
  String, str_eq, concat, not, Option, none, some, List, [], ◌∷◌, ◌++◌, if◌then◌else◌, lookup, ◌⊎◌,
  inl, inr,
}
use dronservice_updates.IpCamera.Types.{PersistedCamera, VideoStream, required}
use dronservice_updates.IpCamera.Library.{Library}
use dronservice_updates.IpCamera.Urls.{rtsp_url_with_credentials}
use dronservice_updates.IpCamera.Prepare.{Error}
use dronservice_updates.IpCamera.Devices.{text_or, normalize_initialization_status}
use dronservice_updates.IpCamera.Store.{Cameras, Service}

pub record StreamSource : Type 0 where
  pub id : String
  pub name : String
  pub detail : String
  pub kind : String
  pub metadata : VideoStream
  pub url : String

-- A source of a camera with a URL.
abbrev pub source_of : PersistedCamera → String → String → VideoStream → String → StreamSource
source_of c kind detail metadata url = record {
  id = concat c.id (concat ":" kind);
  name = text_or c.name c.address;
  detail = detail;
  kind = kind;
  metadata = metadata;
  url = url;
}

unfoldable pub with_url :
    PersistedCamera → String → String → VideoStream → String → Error ⊎ StreamSource
with_url c kind detail metadata url =
    if str_eq url "" then inl Error.no_stream_url else inr (source_of c kind detail metadata url)

unfoldable pub preview_found : Library → String → PersistedCamera → Error ⊎ StreamSource
unfolding with_url rtsp_url_with_credentials normalize_initialization_status
preview_found lib kind c =
    if str_eq (normalize_initialization_status c.initialization_status) required
    then inl Error.not_initialized
    else if str_eq kind "main"
    then with_url c kind "Main stream" c.main_stream (
        rtsp_url_with_credentials lib (text_or c.main_stream_path c.legacy_rtsp_path) c.username
          c.password)
    else if str_eq kind "sub"
    then with_url c kind "Sub stream" c.sub_stream
        (rtsp_url_with_credentials lib c.sub_stream_path c.username c.password)
    else inl Error.invalid_preview

unfoldable pub preview_with : Library → String → Option PersistedCamera → Error ⊎ StreamSource
unfolding preview_found
preview_with lib kind none = inl Error.not_found
preview_with lib kind (some c) = preview_found lib kind c

-- PreviewStreamSource
unfoldable pub preview_stream_source : Library → Service → String → String → Error ⊎ StreamSource
unfolding preview_with lookup
preview_stream_source lib s id kind = preview_with lib kind (lookup id s.cameras)

-- MainStreamSource
unfoldable pub main_stream_source : Library → Service → String → Error ⊎ StreamSource
unfolding preview_stream_source
main_stream_source lib s id = preview_stream_source lib s id "main"

unfoldable pub source_if :
    PersistedCamera → String → String → VideoStream → String → List StreamSource
source_if c kind detail metadata url =
    if not (str_eq url "") then source_of c kind detail metadata url ∷ [] else []

-- One round of the loop of StreamSources.
unfoldable pub sources_of : Library → PersistedCamera → List StreamSource
unfolding source_if rtsp_url_with_credentials
sources_of lib c =
    if not c.use_it
    then []
    else source_if c "main" "Main stream" c.main_stream
        (rtsp_url_with_credentials lib c.main_stream_path c.username c.password)
      ++ source_if c "sub" "Sub stream" c.sub_stream
          (rtsp_url_with_credentials lib c.sub_stream_path c.username c.password)

unfoldable pub all_sources : Library → Cameras → List StreamSource
unfolding sources_of
all_sources lib [] = []
all_sources lib ((id, c) ∷ rest) = sources_of lib c ++ all_sources lib rest

-- StreamSources, up to the order that sort.Slice gives.
unfoldable pub stream_sources : Library → Service → List StreamSource
unfolding all_sources
stream_sources lib s = all_sources lib s.cameras
