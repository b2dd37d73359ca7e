-- ===== src/IpCamera/Urls.antt =====
-- The RTSP URLs and the manufacturers of internal/ipcamera/service.go.
use dronservice_updates.Prelude.{
  ℕ, String, str_eq, codes, concat, trim_space, after_prefix, Bool, true, false, not, ◌&&◌, ◌||◌,
  Option, none, some, List, [], ◌∷◌, if◌then◌else◌,
}
use dronservice_updates.IpCamera.Types.{Ip, DahuaDevice}
use dronservice_updates.IpCamera.Library.{Library, Url, User, is_rtsp}

-- strings.HasPrefix and strings.Contains
unfoldable pub starts_with : List ℕ → List ℕ → Bool
unfolding after_prefix
starts_with p s = elim (after_prefix p s) [ some rest ↦ true | none ↦ false ]

unfoldable pub contains : List ℕ → List ℕ → Bool
unfolding starts_with
contains [] p = starts_with p []
contains (c ∷ s) p = starts_with p (c ∷ s) || contains s p

-- canonicalManufacturer
unfoldable pub canonical_manufacturer : Library → String → String
unfolding trim_space
canonical_manufacturer lib value =
    let v = lib.to_lower (trim_space value) in
    if str_eq v "dahua"
    then "Dahua"
    else if str_eq v "hikvision" || str_eq v "hik"
    then "Hikvision"
    else if str_eq v "unv" || str_eq v "uniview"
    then "UNV"
    else "Unknown"

-- detectManufacturer
unfoldable pub detect_manufacturer : Library → DahuaDevice → String
unfolding canonical_manufacturer starts_with contains
detect_manufacturer lib d =
    let combined =
      codes (
        lib.to_lower (concat d.manufacturer (concat " " (concat d.vendor (concat " " d.model))))) in
    let upper = codes (lib.to_upper d.model) in
    if contains combined (codes "dahua") || starts_with (codes "DH-") upper
    then "Dahua"
    else if contains combined (codes "hikvision") || starts_with (codes "DS-") upper
    then "Hikvision"
    else if contains combined (codes "uniview") || contains combined (codes "unv")
    then "UNV"
    else if not (str_eq d.manufacturer "")
    then canonical_manufacturer lib d.manufacturer
    else canonical_manufacturer lib d.vendor

-- defaultRTSPPaths
unfoldable pub default_rtsp_paths : Library → String → Option Ip → String × String
unfolding canonical_manufacturer
default_rtsp_paths lib manufacturer none = ("", "")
default_rtsp_paths lib manufacturer (some ip) =
    let base = concat "rtsp://" (lib.join_host_port ip.text "554") in
    let m = canonical_manufacturer lib manufacturer in
    if str_eq m "Dahua"
    then (
      concat base "/cam/realmonitor?channel=1&subtype=0",
      concat base "/cam/realmonitor?channel=1&subtype=1",
    )
    else if str_eq m "Hikvision"
    then (concat base "/Streaming/Channels/101", concat base "/Streaming/Channels/102")
    else if str_eq m "UNV"
    then (concat base "/unicast/c1/s0/live", concat base "/unicast/c1/s1/live")
    else ("", "")

unfoldable pub with_host : Library → String → String → Option Url → String
with_host lib value address none = value
with_host lib value address (some u) =
    let port = lib.port_of u.host in
    lib.print_url
      (record u { host = if str_eq port "" then address else lib.join_host_port address port })

-- replaceURLHost
unfoldable pub replace_url_host : Library → String → String → String
unfolding with_host
replace_url_host lib value address = with_host lib value address (lib.parse_url value)

-- `url.UserPassword(username, password)` or `url.User(username)`, or the user of the URL
unfoldable pub user_of : String → String → Option User → Option User
user_of username password old =
    if str_eq username ""
    then old
    else some (record {
      username = username;
      password = if str_eq password "" then none else some password;
    })

unfoldable pub add_credentials : Library → String → String → Option Url → String
unfolding is_rtsp user_of
add_credentials lib username password none = ""
add_credentials lib username password (some u) =
    if is_rtsp u then lib.print_url (record u { user = user_of username password u.user }) else ""

-- rtspURLWithCredentials
unfoldable pub rtsp_url_with_credentials : Library → String → String → String → String
unfolding add_credentials
rtsp_url_with_credentials lib value username password =
    add_credentials lib username password (lib.parse_url value)

unfoldable pub drop_credentials : Library → Option Url → String
unfolding is_rtsp
drop_credentials lib none = ""
drop_credentials lib (some u) = if is_rtsp u then lib.print_url (record u { user = none }) else ""

-- rtspURLWithoutCredentials
unfoldable pub rtsp_url_without_credentials : Library → String → String
unfolding drop_credentials
rtsp_url_without_credentials lib value = drop_credentials lib (lib.parse_url value)

unfoldable pub no_user : Option User → Bool
no_user none = true
no_user (some u) = false

unfoldable pub is_plain_rtsp : Option Url → Bool
unfolding is_rtsp no_user
is_plain_rtsp none = false
is_plain_rtsp (some u) = is_rtsp u && no_user u.user

-- validRTSPURL
unfoldable pub valid_rtsp_url : Library → String → Bool
unfolding is_plain_rtsp
valid_rtsp_url lib value = is_plain_rtsp (lib.parse_url value)
