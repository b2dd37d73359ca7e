-- ===== src/Stream/Types.antt =====
-- The records of internal/stream/service.go.
use dronservice_updates.Prelude.{ℕ, String}

pub record Source : Type 0 where
  pub id : String
  pub type : String
  pub name : String
  pub detail : String
  pub input : String
  pub device_path : String
  pub pixel_format : String
  pub resolution : String
  pub fps : String
  pub bitrate_kbps : ℕ

abbrev pub empty_source : Source
empty_source = record {
  id = "";
  type = "";
  name = "";
  detail = "";
  input = "";
  device_path = "";
  pixel_format = "";
  resolution = "";
  fps = "";
  bitrate_kbps = 0;
}

abbrev pub internal_preview_path_prefix : String
internal_preview_path_prefix = "_dron_preview_"
