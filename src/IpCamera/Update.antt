-- ===== src/IpCamera/Update.antt =====
-- SaveWithCameraUpdate of internal/ipcamera/service.go. It reads a camera under one lock and writes
-- under a later one: `s` is the service at the first, `later` the one at the second.
use dronservice_updates.Prelude.{
  String, str_eq, trim_space, Bool, true, false, not, ◌&&◌, ◌||◌, Option, none, some, ◌∷◌,
  if◌then◌else◌, lookup, ◌⊎◌, inl, inr,
}
use dronservice_updates.IpCamera.Types.{PersistedCamera, SaveRequest, required}
use dronservice_updates.IpCamera.Library.{Library}
use dronservice_updates.IpCamera.Prepare.{Error, prepare_save_request, validate_ipv4_network}
use dronservice_updates.IpCamera.Devices.{text_or}
use dronservice_updates.IpCamera.Store.{Service, NetworkChange, Write, save, or_zero}

-- Whether the address, the mask or the gateway changes.
unfoldable pub moves : SaveRequest → PersistedCamera → Bool
moves r current =
    not (str_eq r.address current.address)
    || not (str_eq r.subnet_mask current.subnet_mask)
    || not (str_eq r.gateway current.gateway)

-- The end of ChangeIPv4, `none` for success, and the Save after it.
unfoldable pub save_moved :
    Library → Write → Option String → SaveRequest → Service → Option Error × Service
unfolding save
save_moved lib w (some e) r later = (some (Error.device_failed e), later)
save_moved lib w none r later = save lib w r later

unfoldable pub save_checked :
    Library
    → Write
    → Option String
    → Bool
    → PersistedCamera
    → Error ⊎ SaveRequest
    → Service
    → Option Error × Service
unfolding moves save save_moved trim_space
save_checked lib w device dahua current (inl e) later = (some e, later)
save_checked lib w device dahua current (inr r) later =
    let username = text_or (trim_space r.username) current.username in
    let password = text_or r.password current.password in
    let change : NetworkChange = record {
      id = r.id;
      from = current.address;
      address = r.address;
      subnet = r.subnet_mask;
      gateway = r.gateway;
    } in
    if dahua && moves r current
    then (if str_eq username "" || str_eq password ""
        then (some Error.no_credentials, later)
        else save_moved lib w device
            (record r { username = username; password = password; dhcp_enabled = some false })
            (record later { changes = change ∷ later.changes }))
    else save lib w r later

-- The mask and the gateway that are left blank, for a Dahua camera.
unfoldable pub fill_network : SaveRequest → PersistedCamera → SaveRequest
fill_network r current = record r {
  subnet_mask = text_or r.subnet_mask current.subnet_mask;
  gateway = text_or r.gateway current.gateway;
}

unfoldable pub save_network :
    Library
    → Write
    → Option String
    → PersistedCamera
    → SaveRequest
    → Option Error
    → Service
    → Option Error × Service
unfolding save_checked prepare_save_request
save_network lib w device current r (some e) later = (some e, later)
save_network lib w device current r none later =
    save_checked lib w device true current (prepare_save_request lib r current.password) later

unfoldable pub save_current :
    Library
    → Write
    → Option String
    → SaveRequest
    → Option PersistedCamera
    → Service
    → Option Error × Service
unfolding save_network save_checked prepare_save_request validate_ipv4_network fill_network
save_current lib w device r none later =
    save_checked lib w device false (or_zero none) (prepare_save_request lib r "") later
save_current lib w device r (some current) later =
    if str_eq current.initialization_status required
    then (some Error.not_initialized, later)
    else if str_eq current.manufacturer "Dahua"
    then (let filled = fill_network r current in
        save_network lib w device current filled
          (validate_ipv4_network lib filled.address filled.subnet_mask filled.gateway) later)
    else save_checked lib w device false current (prepare_save_request lib r current.password) later

unfoldable pub trim_network : SaveRequest → SaveRequest
unfolding trim_space
trim_network r = record r {
  address = trim_space r.address;
  subnet_mask = trim_space r.subnet_mask;
  gateway = trim_space r.gateway;
}

-- SaveWithCameraUpdate
unfoldable pub save_with_camera_update :
    Library → Write → Option String → SaveRequest → Service → Service → Option Error × Service
unfolding save_current trim_network lookup
save_with_camera_update lib w device r s later =
    save_current lib w device (trim_network r) (lookup r.id s.cameras) later
