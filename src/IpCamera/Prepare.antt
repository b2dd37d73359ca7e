-- ===== src/IpCamera/Prepare.antt =====
-- The checks of a request to save a camera, in internal/ipcamera/service.go.
use dronservice_updates.Prelude.{
  ℕ, zero, suc, ◌-◌, ◌^◌, String, str_eq, concat, trim_space, Bool, true, false, not, ◌&&◌, ◌||◌,
  Option, none, some, List, [], ◌∷◌, ◌==◌, if◌then◌else◌, ◌⊎◌, inl, inr,
}
use dronservice_updates.IpCamera.Types.{Ip, SaveRequest}
use dronservice_updates.IpCamera.Library.{Library, Url, User, is_rtsp}
use dronservice_updates.IpCamera.Urls.{
  canonical_manufacturer, default_rtsp_paths, replace_url_host, valid_rtsp_url,
}

pub data Error : Type 0 where
  invalid_url wrong_username wrong_password missing_fields : Error
  invalid_address invalid_mask mask_gaps invalid_gateway : Error
  not_found not_initialized no_credentials not_written invalid_preview no_stream_url : Error
  device_failed : String → Error

-- The result of the closure `normalize`: the URL without a user, and the user.
unfoldable pub split_user : Library → Option Url → Option (String × Option User)
unfolding is_rtsp
split_user lib none = none
split_user lib (some u) =
    if is_rtsp u then some (lib.print_url (record u { user = none }), u.user) else none

unfoldable pub take_password : SaveRequest → Option String → Error ⊎ SaveRequest
take_password r none = inr r
take_password r (some password) =
    if not (str_eq r.password "") && not (str_eq r.password password)
    then inl wrong_password
    else inr (record r { password = password })

-- One round of the loop over the credentials of the two paths.
unfoldable pub take_user : SaveRequest → Option User → Error ⊎ SaveRequest
unfolding take_password
take_user r none = inr r
take_user r (some u) =
    if not (str_eq r.username "") && not (str_eq r.username u.username)
    then inl wrong_username
    else take_password (record r { username = u.username }) u.password

unfoldable pub take_users : SaveRequest → List (Option User) → Error ⊎ SaveRequest
unfolding take_user
take_users r [] = inr r
take_users r (u ∷ users) = elim (take_user r u) [ inl e ↦ inl e | inr r' ↦ take_users r' users ]

unfoldable pub set_paths : String → String → Error ⊎ SaveRequest → Error ⊎ SaveRequest
set_paths main sub (inl e) = inl e
set_paths main sub (inr r) = inr (record r { main_stream_path = main; sub_stream_path = sub })

unfoldable pub normalize_split :
    SaveRequest
    → Option (String × Option User)
    → Option (String × Option User)
    → Error ⊎ SaveRequest
unfolding take_users set_paths
normalize_split r (some (main, u)) (some (sub, v)) = set_paths main sub (take_users r (u ∷ v ∷ []))
normalize_split r _ _ = inl invalid_url

-- normalizeRTSPPaths
unfoldable pub normalize_rtsp_paths : Library → SaveRequest → Error ⊎ SaveRequest
unfolding split_user normalize_split
normalize_rtsp_paths lib r =
    normalize_split r (split_user lib (lib.parse_url r.main_stream_path))
      (split_user lib (lib.parse_url r.sub_stream_path))

unfoldable pub trim_request : Library → SaveRequest → SaveRequest
unfolding trim_space canonical_manufacturer
trim_request lib r = record r {
  name = trim_space r.name;
  username = trim_space r.username;
  address = trim_space r.address;
  manufacturer = canonical_manufacturer lib r.manufacturer;
  model = trim_space r.model;
  subnet_mask = trim_space r.subnet_mask;
  gateway = trim_space r.gateway;
  main_stream_path = trim_space r.main_stream_path;
  sub_stream_path = trim_space r.sub_stream_path;
}

-- The defaults for the ID and the paths.
unfoldable pub fill_id : SaveRequest → Option Ip → SaveRequest
fill_id r none = r
fill_id r (some ip) = if str_eq r.id "" then record r { id = concat "manual:" ip.text } else r

unfoldable pub fill_paths : Library → SaveRequest → Option Ip → SaveRequest
unfolding default_rtsp_paths
fill_paths lib r ip =
    let paths = default_rtsp_paths lib r.manufacturer ip in
    if str_eq r.main_stream_path "" || str_eq r.sub_stream_path ""
    then record r { main_stream_path = paths.0; sub_stream_path = paths.1 }
    else r

unfoldable pub set_hosts : Library → SaveRequest → Option Ip → SaveRequest
unfolding replace_url_host
set_hosts lib r none = r
set_hosts lib r (some ip) = record r {
  main_stream_path = replace_url_host lib r.main_stream_path ip.text;
  sub_stream_path = replace_url_host lib r.sub_stream_path ip.text;
}

unfoldable pub is_missing : Option Ip → Bool
is_missing none = true
is_missing (some ip) = false

-- The checks after the hosts are set, and the saved password.
unfoldable pub check_request : Library → String → Option Ip → SaveRequest → Error ⊎ SaveRequest
unfolding valid_rtsp_url is_missing
check_request lib saved_password ip r =
    if str_eq r.id ""
      || str_eq r.name ""
      || is_missing ip
      || str_eq r.manufacturer "Unknown"
      || str_eq r.main_stream_path ""
      || str_eq r.sub_stream_path ""
    then inl missing_fields
    else if not (valid_rtsp_url lib r.main_stream_path)
        || not (valid_rtsp_url lib r.sub_stream_path)
    then inl invalid_url
    else inr (if str_eq r.password "" then record r { password = saved_password } else r)

unfoldable pub after_normalize :
    Library → String → Option Ip → Error ⊎ SaveRequest → Error ⊎ SaveRequest
unfolding set_hosts check_request
after_normalize lib saved_password ip (inl e) = inl e
after_normalize lib saved_password ip (inr r) =
    check_request lib saved_password ip (set_hosts lib r ip)

unfoldable pub prepare_trimmed : Library → String → SaveRequest → Option Ip → Error ⊎ SaveRequest
unfolding after_normalize normalize_rtsp_paths fill_id fill_paths
prepare_trimmed lib saved_password r ip =
    after_normalize lib saved_password ip
      (normalize_rtsp_paths lib (fill_paths lib (fill_id r ip) ip))

-- prepareSaveRequest
unfoldable pub prepare_save_request : Library → SaveRequest → String → Error ⊎ SaveRequest
unfolding trim_request prepare_trimmed
prepare_save_request lib r saved_password =
    let trimmed = trim_request lib r in
    prepare_trimmed lib saved_password trimmed (lib.parse_ip trimmed.address)

-- `net.ParseIP(text).To4()`
unfoldable pub v4_of : Option Ip → Option ℕ
v4_of none = none
v4_of (some ip) = ip.v4

-- Whether a mask is one of a prefix of 1 to 32 bits: a power of two below the other bits.
unfoldable pub has_prefix : ℕ → ℕ → Bool
has_prefix zero mask = false
has_prefix (suc k) mask = mask == 2 ^ 32 - 2 ^ k || has_prefix k mask

unfoldable pub check_mask : String → Option ℕ → Option Error
unfolding has_prefix
check_mask subnet none = if str_eq subnet "" then none else some invalid_mask
check_mask subnet (some mask) =
    if str_eq subnet "" then none else if has_prefix 32 mask then none else some mask_gaps

unfoldable pub check_gateway : String → Option ℕ → Option Error
check_gateway gateway none = if str_eq gateway "" then none else some invalid_gateway
check_gateway gateway (some g) = none

unfoldable pub check_network : Option ℕ → Option Error → Option Error → Option Error
check_network none mask gateway = some invalid_address
check_network (some a) (some e) gateway = some e
check_network (some a) none gateway = gateway

-- validateIPv4Network: `none` is no error.
unfoldable pub validate_ipv4_network : Library → String → String → String → Option Error
unfolding check_network check_mask check_gateway v4_of
validate_ipv4_network lib address subnet gateway =
    check_network (v4_of (lib.parse_ip address)) (check_mask subnet (v4_of (lib.parse_ip subnet)))
      (check_gateway gateway (v4_of (lib.parse_ip gateway)))
