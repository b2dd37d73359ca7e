-- ===== src/Catalog/Devices.antt =====
-- internal/deviceconfig/store.go, the devices of internal/v4l2/scanner.go, and validDeviceConfig of main.go.
use dronservice_updates.Prelude.{
  String, str_eq, Bool, false, ◌&&◌, ◌||◌, Option, none, some, List, [], ◌∷◌, lookup, insert,
  delete,
}

-- deviceconfig.Config
pub record Config : Type 0 where
  pub device_id : String
  pub device_path : String
  pub name : String
  pub pixel_format : String
  pub resolution : String
  pub fps : String
  pub in_use : Bool

pub record Mode : Type 0 where
  pub resolution : String
  pub fps : String

pub record Format : Type 0 where
  pub pixel_format : String
  pub modes : List Mode

-- The fields of v4l2.Device that are read here.
pub record Device : Type 0 where
  pub id : String
  pub path : String
  pub formats : List Format

abbrev pub Configs : Type 0
Configs = List (String × Config)

-- The map and the file of the store.
pub record Store : Type 0 where
  pub configs : Configs
  pub file : Option Configs

-- How a write ends: before the rename, with success, or after the rename, when the directory cannot
-- be synchronized.
pub data Write : Type 0 where
  refused written unsynced : Write

pub data Error : Type 0 where
  not_written not_exist : Error

-- write, and `s.configs = next` after it.
unfoldable pub store : Write → Configs → Store → Option Error × Store
store refused next s = (some not_written, s)
store written next s = (none, record { configs = next; file = some next })
store unsynced next s = (some not_written, record s { file = some next })

-- NewStore where the directory can be made: `none` is a file that cannot be read or decoded, `some
-- none` an absent one.
unfoldable pub new_store : Option (Option Configs) → Option Store
new_store none = none
new_store (some none) = some (record { configs = []; file = none })
new_store (some (some configs)) = some (record { configs = configs; file = some configs })

-- Get
unfoldable pub get : String → Store → Option Config
unfolding lookup
get id s = lookup id s.configs

-- Save
unfoldable pub save : Write → Config → Store → Option Error × Store
unfolding store insert
save w c s = store w (insert c.device_id c s.configs) s

unfoldable pub delete_found : Write → String → Option Config → Store → Option Error × Store
unfolding store delete
delete_found w id none s = (some not_exist, s)
delete_found w id (some c) s = store w (delete id s.configs) s

-- Delete
unfoldable pub delete_config : Write → String → Store → Option Error × Store
unfolding delete_found lookup
delete_config w id s = delete_found w id (lookup id s.configs) s

unfoldable pub has_mode : Config → List Mode → Bool
has_mode c [] = false
has_mode c (m ∷ rest) = str_eq m.resolution c.resolution && str_eq m.fps c.fps || has_mode c rest

unfoldable pub has_format : Config → List Format → Bool
unfolding has_mode
has_format c [] = false
has_format c (f ∷ rest) =
    str_eq f.pixel_format c.pixel_format && has_mode c f.modes || has_format c rest

-- validDeviceConfig
unfoldable pub valid_device_config : List Device → Config → Bool
unfolding has_format
valid_device_config [] c = false
valid_device_config (d ∷ rest) c =
    str_eq d.id c.device_id && str_eq d.path c.device_path && has_format c d.formats
    || valid_device_config rest c
