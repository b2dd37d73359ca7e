-- ===== src/Mavlink/Config.antt =====
-- internal/mavlink/config.go. Durations are numbers of nanoseconds; what Go's libraries make of
-- the texts of durations and of host and port are parameters.
use dronservice_updates.Prelude.{
  ℕ, ◌+◌, ◌-◌, ◌*◌, ℤ, pos, negsuc, String, str_eq, trim_space, codes, is_digit, all_codes, Bool,
  true, false, not, ◌&&◌, ◌||◌, Option, none, some, List, [], ◌∷◌, ltb, leb, ◌==◌, if◌then◌else◌,
  seconds, milliseconds,
}

pub record Config : Type 0 where
  pub enabled : Bool
  pub transport : String
  pub udp_addr : String
  pub out_system_id : ℕ  -- uint8
  pub target_system_id : ℕ  -- uint8
  pub link_timeout : ℤ
  pub message_interval : ℤ

pub record ConfigJson : Type 0 where
  pub enabled : Bool
  pub transport : String
  pub udp_addr : String
  pub out_system_id : ℕ
  pub target_system_id : ℕ
  pub link_timeout : String
  pub message_interval : String

abbrev pub transport_udp : String
transport_udp = "udp"

-- DefaultConfig
abbrev pub default_config : Config
default_config = record {
  enabled = false;
  transport = transport_udp;
  udp_addr = "0.0.0.0:14550";
  out_system_id = 255;
  target_system_id = 0;
  link_timeout = pos (seconds 5);
  message_interval = pos (milliseconds 500);
}

-- `if next != "" { ... = next }`
unfoldable pub text_or : String → String → String
text_or next current = if str_eq next "" then current else next

-- `if next != 0 { ... = next }`
unfoldable pub id_or : ℕ → ℕ → ℕ
id_or next current = if next == 0 then current else next

-- `d > 0`
unfoldable pub is_positive : ℤ → Bool
is_positive (pos n) = ltb 0 n
is_positive (negsuc n) = false

-- `if next > 0 { ... = next }`
unfoldable pub duration_or : ℤ → ℤ → ℤ
duration_or next current = if is_positive next then next else current

unfoldable pub merge : Config → Config → Config
merge c other = record {
  enabled = other.enabled;
  transport = text_or other.transport c.transport;
  udp_addr = text_or other.udp_addr c.udp_addr;
  out_system_id = id_or other.out_system_id c.out_system_id;
  target_system_id = other.target_system_id;
  link_timeout = duration_or other.link_timeout c.link_timeout;
  message_interval = duration_or other.message_interval c.message_interval;
}

pub data Error : Type 0 where
  unsupported_transport address_required invalid_address out_system_id_zero : Error
  timeout_not_positive interval_too_short bad_link_timeout bad_message_interval : Error

-- `d < 50*time.Millisecond`
unfoldable pub below_50ms : ℤ → Bool
below_50ms (pos n) = ltb n (milliseconds 50)
below_50ms (negsuc n) = true

-- Validate: `none` is no error. `splits` says whether net.SplitHostPort takes a text.
unfoldable pub validate : (String → Bool) → Config → Option Error
validate splits c =
    if not (str_eq c.transport transport_udp)
    then some unsupported_transport
    else if str_eq (trim_space c.udp_addr) ""
    then some address_required
    else if not (splits c.udp_addr)
    then some invalid_address
    else if c.out_system_id == 0
    then some out_system_id_zero
    else if not (is_positive c.link_timeout)
    then some timeout_not_positive
    else if below_50ms c.message_interval
    then some interval_too_short
    else none

one_of : String → List String → Bool
one_of s [] = false
one_of s (t ∷ ts) = str_eq s t || one_of s ts

-- strconv.ParseBool
unfoldable pub parse_bool : String → Option Bool
unfolding one_of
parse_bool s =
    if one_of s ("1" ∷ "t" ∷ "T" ∷ "TRUE" ∷ "true" ∷ "True" ∷ [])
    then some true
    else if one_of s ("0" ∷ "f" ∷ "F" ∷ "FALSE" ∷ "false" ∷ "False" ∷ [])
    then some false
    else none

decimal : ℕ → List ℕ → ℕ
decimal n [] = n
decimal n (c ∷ s) = decimal (n * 10 + (c - b'0')) s

-- `strconv.ParseUint(value, 10, 8)`
unfoldable pub parse_uint8 : String → Option ℕ
unfolding decimal all_codes
parse_uint8 s =
    if not (str_eq s "") && all_codes is_digit (codes s) && leb (decimal 0 (codes s)) 255
    then some (decimal 0 (codes s))
    else none

-- The value of a variable that is kept where it passes a test.
unfoldable pub accepted {ℓ} : {A : Type ℓ} → (A → Bool) → Option A → A → A
accepted keep none current = current
accepted keep (some v) current = if keep v then v else current

unfoldable pub from_variable {ℓ} : {A : Type ℓ} → (String → Option A) → (A → Bool) → String → A → A
unfolding accepted
from_variable parse keep value current =
    if str_eq (trim_space value) ""
    then current
    else accepted keep (parse (trim_space value)) current

-- LoadConfigFromEnv: `env` is os.Getenv, `parse_duration` is time.ParseDuration.
unfoldable pub load_config_from_env : (String → Option ℤ) → (String → String) → Config → Config
unfolding from_variable
load_config_from_env parse_duration env base = record {
  enabled = from_variable parse_bool (λ _. true) (env "MAVLINK_ENABLED") base.enabled;
  transport = text_or (trim_space (env "MAVLINK_TRANSPORT")) base.transport;
  udp_addr = text_or (trim_space (env "MAVLINK_UDP_ADDR")) base.udp_addr;
  out_system_id =
      from_variable parse_uint8 (ltb 0) (env "MAVLINK_OUT_SYSTEM_ID") base.out_system_id;
  target_system_id =
      from_variable parse_uint8 (λ _. true) (env "MAVLINK_TARGET_SYSTEM_ID") base.target_system_id;
  link_timeout =
      from_variable parse_duration is_positive (env "MAVLINK_LINK_TIMEOUT") base.link_timeout;
  message_interval =
      from_variable parse_duration is_positive (env "MAVLINK_MESSAGE_INTERVAL")
        base.message_interval;
}

-- MarshalJSON up to the text of the document; `print_duration` is Duration.String.
unfoldable pub marshal : (ℤ → String) → Config → ConfigJson
marshal print_duration c = record {
  enabled = c.enabled;
  transport = c.transport;
  udp_addr = c.udp_addr;
  out_system_id = c.out_system_id;
  target_system_id = c.target_system_id;
  link_timeout = print_duration c.link_timeout;
  message_interval = print_duration c.message_interval;
}

-- A duration of the document: `none` is an error, an empty text leaves the current one.
unfoldable pub duration_field : (String → Option ℤ) → String → ℤ → Option ℤ
duration_field parse_duration text current =
    if str_eq text "" then some current else parse_duration text

-- The two durations of the document, each an error or a value, put into the receiver in turn.
unfoldable pub with_durations : Option ℤ → Option ℤ → Config → Option Error × Config
with_durations none interval c = (some bad_link_timeout, c)
with_durations (some timeout) none c =
    (some bad_message_interval, record c { link_timeout = timeout })
with_durations (some timeout) (some interval) c =
    (none, record c { link_timeout = timeout; message_interval = interval })

-- UnmarshalJSON after the document is decoded: the error, if any, and the receiver.
unfoldable pub unmarshal : (String → Option ℤ) → ConfigJson → Config → Option Error × Config
unfolding with_durations
unmarshal parse_duration payload c =
    with_durations (duration_field parse_duration payload.link_timeout c.link_timeout)
      (duration_field parse_duration payload.message_interval c.message_interval)
      (record c {
        enabled = payload.enabled;
        transport = text_or payload.transport c.transport;
        udp_addr = text_or payload.udp_addr c.udp_addr;
        out_system_id = id_or payload.out_system_id c.out_system_id;
        target_system_id = payload.target_system_id;
      })
