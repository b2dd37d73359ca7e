-- ===== src/Updater/Tests.antt =====
-- A client of a repository whose latest release is v1.3.0, and requests of it.
use dronservice_updates.Prelude.{
  trim_space, ◌+◌, codes, true, false, none, some, [], ◌∷◌, ◌≡◌, refl, minutes,
}
use dronservice_updates.Updater.Version.{
  valid_version, newer_version, newer_options, version_parts, parts_of, split_dots,
}
use dronservice_updates.Updater.Client.{
  ok, Payload, document, no_response, Files, Client, Outside, Publication, latest_release,
  latest_release_cached, complete, has_asset, local_status, with_release, status, request,
  request_with, publish, pending_status, persisted_status, active_status, read_persisted_status,
  is_active_state, cache_ttl,
}
use dronservice_updates.Updater.Safety.{IsOffer, request_publishes_newer}
use dronservice_updates.Updater.Setup.{new_client, is_repository}

abbrev client : Client
client = record {
  repository = "topmebel/dronservice-updates";
  current_version = "v1.2.9";
  cached = ok (record { tag = ""; url = ""; body = "" });
  cache_expires_at = 0;
}

abbrev release : Payload
release = record {
  tag = "v1.2.10";
  url = "https://github.com";
  body = "";
  assets = "dronservice-linux-arm64" ∷ "dronservice-linux-arm64.sig" ∷ "checksums.sha256" ∷ [];
}

abbrev online : Outside
online = record {
  now = minutes 5;
  reply = document release;
  canceled = false;
  stored_at = minutes 5;
}

abbrev offline : Outside
offline = record { now = minutes 5 + 1; reply = no_response; canceled = true; stored_at = 0 }

abbrev alone : Publication
alone = record { written = true; appeared = none; linkable = true }

abbrev no_files : Files
no_files = record { status_file = none; request_file = none }

abbrev pending_files : Files
pending_files = record { status_file = none; request_file = some "v1.2.10" }

newer : newer_version (codes "v1.2.10") (codes "v1.2.9") ≡ true
unfolding newer_version version_parts valid_version parts_of split_dots newer_options
newer = refl

newer_next : newer_version (codes "v2.0.0") (codes "v1.2.10") ≡ true
unfolding newer_version version_parts valid_version parts_of split_dots newer_options
newer_next = refl

same_parts : version_parts (codes "v1.2.9") ≡ some (1, 2, 9)
unfolding version_parts valid_version parts_of split_dots
same_parts = refl

not_newer : newer_version (codes "v1.2.9") (codes "v1.2.9") ≡ false
unfolding newer_version version_parts valid_version parts_of split_dots newer_options
not_newer = refl

new_client_made : new_client "topmebel/dronservice-updates" " v1.2.9" ≡ some client
unfolding new_client is_repository trim_space
new_client_made = refl

published : (request online alone no_files client).1.request_file ≡ some "v1.2.10"
unfolding request status request_with publish local_status pending_status persisted_status
    active_status read_persisted_status is_active_state latest_release_cached latest_release
    with_release complete has_asset cache_ttl newer_version version_parts valid_version parts_of
    split_dots newer_options
published = refl

request_publishes_newer_example :
    IsOffer (latest_release_cached online client).0 "v1.2.10" "v1.2.9"
    × ((local_status client no_files).installing ≡ false)
    × ((request online alone no_files client).0 ≡ ok tt)
request_publishes_newer_example =
    request_publishes_newer online alone no_files client "v1.2.10" refl refl published
