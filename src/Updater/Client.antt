-- ===== src/Updater/Client.antt =====
-- internal/updater/client.go: the status of an update, its request, and the cached release.
use dronservice_updates.Prelude.{
  ℕ, ◌+◌, String, str_eq, codes, Bool, true, false, not, ◌&&◌, ◌||◌, Option, none, some, List, [],
  ◌∷◌, ltb, if◌then◌else◌, minutes,
}
use dronservice_updates.Updater.Version.{valid_version, newer_version}

pub data Error : Type 0 where
  request_failed bad_status decode_failed invalid_version missing_asset : Error
  not_configured unavailable nothing_newer temporary_failed publish_failed : Error

pub data Result {ℓ} (A : Type ℓ) : Type ℓ where
  ok : A → Result A
  err : Error → Result A

pub record Release : Type 0 where
  pub tag : String
  pub url : String
  pub body : String

-- The JSON document of a release, with the names of its assets.
pub record Payload : Type 0 where
  pub tag : String
  pub url : String
  pub body : String
  pub assets : List String

-- What GitHub answers: no response, a status that is not 200, a body that is no JSON, a document.
pub data Reply : Type 0 where
  no_response wrong_status no_json : Reply
  document : Payload → Reply

pub record PersistedStatus : Type 0 where
  pub state : String
  pub version : String
  pub message : String
  pub updated_at : String

-- The two files; `status_file` is what decodes as JSON.
pub record Files : Type 0 where
  pub status_file : Option PersistedStatus
  pub request_file : Option String

pub record Client : Type 0 where
  pub repository : String
  pub current_version : String
  pub cached : Result Release
  pub cache_expires_at : ℕ

pub record Status : Type 0 where
  pub enabled : Bool
  pub current_version : String
  pub latest_version : String
  pub update_available : Bool
  pub installing : Bool
  pub state : String
  pub target_version : String
  pub release_notes : String
  pub release_url : String
  pub check_failed : Bool
  pub disabled_reason : String
  pub message : String
  pub updated_at : String

-- What the outside does during one call: the time, GitHub's reply, whether the context is done by
-- then, and the time at which the reply is stored.
pub record Outside : Type 0 where
  pub now : ℕ
  pub reply : Reply
  pub canceled : Bool
  pub stored_at : ℕ

abbrev pub release_cache_ttl : ℕ
release_cache_ttl = minutes 15

abbrev pub release_error_cache_ttl : ℕ
release_error_cache_ttl = minutes 1

unfoldable pub is_active_state : String → Bool
is_active_state s =
    str_eq s "pending"
    || str_eq s "downloading"
    || str_eq s "verifying"
    || str_eq s "installing"
    || str_eq s "restarting"

unfoldable pub valid_state : String → Bool
valid_state s =
    str_eq s "idle"
    || str_eq s "pending"
    || str_eq s "downloading"
    || str_eq s "verifying"
    || str_eq s "installing"
    || str_eq s "restarting"
    || str_eq s "succeeded"
    || str_eq s "failed"

unfoldable pub has_asset : String → List String → Bool
has_asset name [] = false
has_asset name (a ∷ rest) = str_eq a name || has_asset name rest

-- The binary, its checksums and its signature.
unfoldable pub complete : List String → Bool
unfolding has_asset
complete assets =
    has_asset "dronservice-linux-arm64" assets
    && has_asset "checksums.sha256" assets
    && has_asset "dronservice-linux-arm64.sig" assets

unfoldable pub latest_release : Reply → Result Release
latest_release no_response = err request_failed
latest_release wrong_status = err bad_status
latest_release no_json = err decode_failed
latest_release (document p) =
    if not (valid_version (codes p.tag))
    then err invalid_version
    else if not (complete p.assets)
    then err missing_asset
    else ok (record { tag = p.tag; url = p.url; body = p.body })

unfoldable pub cache_ttl : Result Release → ℕ
cache_ttl (ok r) = release_cache_ttl
cache_ttl (err e) = release_error_cache_ttl

-- What a canceled call returns: an empty release beside the error, if there is one.
unfoldable pub canceled_result : Result Release → Result Release
canceled_result (ok r) = ok (record { tag = ""; url = ""; body = "" })
canceled_result (err e) = err e

unfoldable pub latest_release_cached : Outside → Client → Result Release × Client
unfolding cache_ttl canceled_result
latest_release_cached o c =
    let latest = latest_release o.reply in
    if ltb o.now c.cache_expires_at
    then (c.cached, c)
    else if o.canceled
    then (canceled_result latest, c)
    else (latest, record c { cached = latest; cache_expires_at = o.stored_at + cache_ttl latest })

-- readPersistedStatus
unfoldable pub read_persisted_status : Files → Option PersistedStatus
read_persisted_status f = elim f.status_file [
  | none ↦ none
  | some s ↦ if valid_state s.state then some s else none
]

abbrev pub idle_status : Client → Status
idle_status c = record {
  enabled = not (str_eq c.repository "");
  current_version = c.current_version;
  latest_version = "";
  update_available = false;
  installing = false;
  state = "idle";
  target_version = "";
  release_notes = "";
  release_url = "";
  check_failed = false;
  disabled_reason = "";
  message = "";
  updated_at = "";
}

unfoldable pub persisted_status : Option PersistedStatus → Status → Status
persisted_status none s = s
persisted_status (some p) s = record s {
  state = p.state;
  target_version = p.version;
  message = p.message;
  updated_at = p.updated_at;
}

unfoldable pub pending_status : Option String → Status → Status
pending_status none s = s
pending_status (some v) s = record s { state = "pending"; installing = true }

unfoldable pub active_status : Status → Status
active_status s = if is_active_state s.state then record s { installing = true } else s

-- The status before the release is looked at.
unfoldable pub local_status : Client → Files → Status
unfolding persisted_status pending_status active_status read_persisted_status
local_status c f =
    active_status
      (pending_status f.request_file (persisted_status (read_persisted_status f) (idle_status c)))

unfoldable pub with_release : Result Release → Status → Status
with_release (err e) s = record s { check_failed = true; disabled_reason = "release-check-failed" }
with_release (ok r) s = record s {
  latest_version = r.tag;
  release_notes = r.body;
  release_url = r.url;
  update_available = newer_version (codes r.tag) (codes s.current_version) && not s.installing;
}

unfoldable pub status : Outside → Files → Client → Status × Client
unfolding with_release
status o f c =
    let s = local_status c f in
    let (release, c') = latest_release_cached o c in
    if not s.enabled
    then (record s { disabled_reason = "repository-not-configured" }, c)
    else (with_release release s, c')

-- What happens to the files after the status: whether the temporary file is written, a request
-- that another process has published meanwhile, and whether the link can be made at all.
pub record Publication : Type 0 where
  pub written : Bool
  pub appeared : Option String
  pub linkable : Bool

-- os.Link does not replace a file.
unfoldable pub publish : Publication → String → Files → Result (Unit {0}) × Files
publish p version f = elim p.appeared [
  | some v ↦ (ok tt, record f { request_file = some v })
  | none ↦
      if p.linkable
      then (ok tt, record f { request_file = some version })
      else (err publish_failed, f)
]

-- The part of Request after the status.
unfoldable pub request_with : Publication → Status → Files → Result (Unit {0}) × Files
unfolding publish
request_with p s f =
    if not s.enabled
    then (err not_configured, f)
    else if s.installing
    then (ok tt, f)
    else if s.check_failed
    then (err unavailable, f)
    else if not s.update_available || not (valid_version (codes s.latest_version))
    then (err nothing_newer, f)
    else if not p.written
    then (err temporary_failed, f)
    else publish p s.latest_version f

unfoldable pub request : Outside → Publication → Files → Client → Result (Unit {0}) × Files × Client
unfolding status request_with
request o p f c = let (s, c') = status o f c in let (r, f') = request_with p s f in (r, f', c')
