-- ===== src/IpCamera/Library.antt =====
-- What internal/ipcamera uses of Go's libraries.
use dronservice_updates.Prelude.{ℕ, String, Bool, ◌||◌, ◌&&◌, not, str_eq, Option, List}
use dronservice_updates.IpCamera.Types.{Ip}

-- url.Userinfo
pub record User : Type 0 where
  pub username : String
  pub password : Option String

-- url.URL; `rest` is all but the scheme, the user and the host.
pub record Url : Type 0 where
  pub scheme : String
  pub user : Option User
  pub host : String
  pub rest : String

-- url.Parse, `none` for an error, and URL.String; URL.Port for a host; net.JoinHostPort;
-- net.ParseIP; net.ParseMAC and the text of its result; strings.ToLower and strings.ToUpper.
pub record Library : Type 0 where
  pub parse_url : String → Option Url
  pub print_url : Url → String
  pub port_of : String → String
  pub join_host_port : String → String → String
  pub parse_ip : String → Option Ip
  pub parse_mac : String → Option (List ℕ)
  pub print_mac : List ℕ → String
  pub to_lower : String → String
  pub to_upper : String → String

-- `(parsed.Scheme == "rtsp" || parsed.Scheme == "rtsps") && parsed.Host != ""`
unfoldable pub is_rtsp : Url → Bool
is_rtsp u = (str_eq u.scheme "rtsp" || str_eq u.scheme "rtsps") && not (str_eq u.host "")
