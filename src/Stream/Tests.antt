-- ===== src/Stream/Tests.antt =====
-- A MediaMTX that is the map of its paths.
use dronservice_updates.Prelude.{
  all_codes, after_prefix, codes, refl, String, str_eq_iff, Bool, true, false, Option, none, some,
  List, [], ◌≡◌, ◌≢◌, ap, map, lookup, insert, delete, lookup-delete, lookup-delete_ne,
  lookup-insert_ne,
}
use dronservice_updates.Stream.Types.{Source, empty_source}
use dronservice_updates.Stream.Update.{PathConfigUpdate, Libraries}
use dronservice_updates.Stream.Service.{deleted, MediaMtx, ConfigFile, World, delete_config}
use dronservice_updates.Stream.Previews.{has_preview, delete_config_deletes}
use dronservice_updates.Stream.Update.{
  Command, mediamtx_update, is_device_path, is_resolution, is_resolution_cut, is_fps, is_fps_cut,
  input_format, analog_update, same_ignoring_case, digits_between, cut,
}
use dronservice_updates.Stream.Names.{matches_stream_name, is_internal_preview_path}
use dronservice_updates.Stream.Shell.{IsPlainCommand, mediamtx_update-IsPlain}

abbrev is_there : Option PathConfigUpdate → Bool
is_there none = false
is_there (some u) = true

abbrev paths : MediaMtx
paths = record {
  State = List (String × PathConfigUpdate);
  has = λ w q. is_there (lookup q w);
  list_config_paths = λ w. some (map (λ e. e.0) w);
  add_config_path = λ p u w. (true, insert p u w);
  patch_config_path = λ p u w. (true, insert p u w);
  delete_config_path = λ p w. (deleted, delete p w);
  add_other = λ p q u w n. ap is_there (lookup-insert_ne p q u w n);
  delete_other = λ p q w n. ap is_there (lookup-delete_ne p q w n);
  delete_gone = λ p w _. ap is_there (lookup-delete p w);
}

abbrev file : ConfigFile
file = record {
  Content = List (String × PathConfigUpdate);
  set_path = λ p u c. (true, insert p u c);
  delete_path = λ p c. (true, delete p c);
}

abbrev libraries : Libraries
libraries = record { parse_url = λ s. some ("rtsp", "10.0.0.2"); rounded = λ s. 25 }

abbrev path_one : String
path_one = "_dron_preview_0123456789abcdef01234567"

abbrev path_two : String
path_two = "_dron_preview_89abcdef0123456789abcdef"

differ : path_two ≢ path_one
differ e = cc ((str_eq_iff path_two path_one).1 e)

abbrev empty : World libraries paths file
empty = record { paths = []; config_file = some [] }

abbrev camera : Source
camera = record empty_source { type = "ip"; input = "rtsp://10.0.0.2/1" }

delete_config_deletes_example :
    ((q : String)
      → q ≢ path_one
      → has_preview libraries paths file (delete_config libraries paths file path_one empty).1 q
        ≡ has_preview libraries paths file empty q)
    × ((delete_config libraries paths file path_one empty).0 ≡ true
        → has_preview libraries paths file
            (delete_config libraries paths file path_one empty).1
            path_one
          ≡ false)
delete_config_deletes_example = delete_config_deletes libraries paths file path_one empty

abbrev analog : Source
analog = record empty_source {
  type = "analog";
  device_path = "/dev/video0";
  resolution = "1280x720";
  fps = "25";
  pixel_format = "MJPG";
}

abbrev command : Command
command = record {
  input_format = codes "mjpeg";
  resolution = "1280x720";
  fps = "25";
  device_path = "/dev/video0";
  gop = 25;
}

abbrev update : PathConfigUpdate
update = record {
  source = "publisher";
  source_on_demand = false;
  run_on_demand = some command;
  run_on_demand_restart = true;
  run_on_demand_start_timeout = "15s";
  run_on_demand_close_after = "2s";
}

analog_made : mediamtx_update libraries "front" analog ≡ some update
unfolding mediamtx_update matches_stream_name is_device_path is_resolution is_resolution_cut is_fps
    is_fps_cut input_format analog_update same_ignoring_case digits_between cut
    is_internal_preview_path all_codes after_prefix
analog_made = refl

mediamtx_update-IsPlain_example : IsPlainCommand command
mediamtx_update-IsPlain_example =
    mediamtx_update-IsPlain libraries "front" analog update command analog_made refl
