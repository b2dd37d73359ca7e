-- ===== src/Mavlink/Store.antt =====
-- internal/mavlink/store.go: the settings in memory and in the file mavlink.json.
use dronservice_updates.Prelude.{ℤ, String, Bool, true, false, Option, none, some, if◌then◌else◌}
use dronservice_updates.Mavlink.Config.{Config, ConfigJson, Error, marshal, unmarshal}

-- What the file holds: nothing is there, it cannot be read, it is no JSON document, a document.
pub data Disk : Type 0 where
  absent unreadable malformed : Disk
  document : ConfigJson → Disk

pub record Store : Type 0 where
  pub config : Config
  pub loaded : Bool

pub data LoadError : Type 0 where
  read_failed no_json : LoadError
  bad_field : Error → LoadError

pub data Loaded : Type 0 where
  failed : LoadError → Loaded
  opened : Store → Loaded

-- The zero value of Config.
abbrev pub zero_config : Config
zero_config = record {
  enabled = false;
  transport = "";
  udp_addr = "";
  out_system_id = 0;
  target_system_id = 0;
  link_timeout = ℤ.pos 0;
  message_interval = ℤ.pos 0;
}

unfoldable pub load_payload : Option Error × Config → Loaded
load_payload (some e, c) = failed (bad_field e)
load_payload (none, c) = opened (record { config = c; loaded = true })

-- NewStore, where the directory can be made, and loadFromDisk
unfoldable pub new_store : (String → Option ℤ) → Disk → Loaded
unfolding load_payload
new_store parse_duration absent = opened (record { config = zero_config; loaded = false })
new_store parse_duration unreadable = failed read_failed
new_store parse_duration malformed = failed no_json
new_store parse_duration (document payload) =
    load_payload (unmarshal parse_duration payload zero_config)

-- Save: `written` says whether the temporary file could be written and renamed. The answer is
-- whether it succeeds, the store and the file.
unfoldable pub save : (ℤ → String) → Bool → Config → Store → Disk → Bool × Store × Disk
save print_duration written c s d =
    if written
    then (true, record { config = c; loaded = true }, document (marshal print_duration c))
    else (false, s, d)
