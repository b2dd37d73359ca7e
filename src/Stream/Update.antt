-- ===== src/Stream/Update.antt =====
-- mediaMTXUpdate of internal/stream/service.go: the settings of a path for a source.
use dronservice_updates.Prelude.{
  ℕ, ◌+◌, String, str_eq, codes, after_prefix, all_codes, is_digit, is_letter, Bool, true, false,
  not, ◌&&◌, ◌||◌, Option, none, some, List, [], ◌∷◌, length, leb, ltb, ◌==◌, if◌then◌else◌,
}
use dronservice_updates.Stream.Types.{Source}
use dronservice_updates.Stream.Names.{matches_stream_name, is_internal_preview_path}

-- What is put into the command line of ffmpeg. The input format is its bytes.
pub record Command : Type 0 where
  pub input_format : List ℕ
  pub resolution : String
  pub fps : String
  pub device_path : String
  pub gop : ℕ

-- mediamtx.PathConfigUpdate
pub record PathConfigUpdate : Type 0 where
  pub source : String
  pub source_on_demand : Bool
  pub run_on_demand : Option Command
  pub run_on_demand_restart : Bool
  pub run_on_demand_start_timeout : String
  pub run_on_demand_close_after : String

-- What Go's libraries make of a text: the scheme and the host of net/url.Parse, if there is no
-- error, and `int(f + 0.5)` for the number f that strconv.ParseFloat reads.
pub record Libraries : Type 0 where
  pub parse_url : String → Option (String × String)
  pub rounded : String → ℕ

-- A text up to the first of a character, and what follows that.
unfoldable pub cut : ℕ → List ℕ → List ℕ × Option (List ℕ)
cut c [] = ([], none)
cut c (d ∷ s) =
    let (before, after) = cut c s in if d == c then ([], some s) else (d ∷ before, after)

unfoldable pub digits_between : ℕ → ℕ → List ℕ → Bool
digits_between least most s = leb least (length s) && leb (length s) most && all_codes is_digit s

-- `^/dev/video[0-9]+$`
unfoldable pub is_device_path : List ℕ → Bool
is_device_path s = elim (after_prefix (codes "/dev/video") s) [
  | none ↦ false
  | some number ↦ leb 1 (length number) && all_codes is_digit number
]

-- `^[0-9]{2,5}x[0-9]{2,5}$`
unfoldable pub is_resolution_cut : List ℕ × Option (List ℕ) → Bool
unfolding digits_between
is_resolution_cut (width, none) = false
is_resolution_cut (width, some height) = digits_between 2 5 width && digits_between 2 5 height

unfoldable pub is_resolution : List ℕ → Bool
unfolding is_resolution_cut cut
is_resolution s = is_resolution_cut (cut b'x' s)

-- `^[0-9]{1,3}(?:\.[0-9]+)?$`
unfoldable pub is_fps_cut : List ℕ × Option (List ℕ) → Bool
unfolding digits_between all_codes
is_fps_cut (whole, none) = digits_between 1 3 whole
is_fps_cut (whole, some fraction) =
    digits_between 1 3 whole && leb 1 (length fraction) && all_codes is_digit fraction

unfoldable pub is_fps : List ℕ → Bool
unfolding is_fps_cut cut
is_fps s = is_fps_cut (cut b'.' s)

-- strings.ToLower and strings.ToUpper, on ASCII
unfoldable pub to_lower : List ℕ → List ℕ
to_lower [] = []
to_lower (c ∷ s) = (if leb b'A' c && leb c b'Z' then c + 32 else c) ∷ to_lower s

unfoldable pub same_ignoring_case : List ℕ → List ℕ → Bool
same_ignoring_case [] [] = true
same_ignoring_case (c ∷ s) (d ∷ t) =
    (if leb b'A' c && leb c b'Z' then c + 32 else c) == d && same_ignoring_case s t
same_ignoring_case _ _ = false

-- `^[a-zA-Z0-9_]+$`
abbrev pub is_word_code : ℕ → Bool
is_word_code c = is_letter c || is_digit c || c == b'_'

-- The switch on the pixel format.
unfoldable pub input_format : List ℕ → Option (List ℕ)
unfolding same_ignoring_case to_lower all_codes
input_format s =
    if same_ignoring_case s (codes "mjpg") || same_ignoring_case s (codes "mjpeg")
    then some (codes "mjpeg")
    else if same_ignoring_case s (codes "yuyv") || same_ignoring_case s (codes "yuy2")
    then some (codes "yuyv422")
    else if leb 1 (length s) && all_codes is_word_code s
    then some (to_lower s)
    else none

unfoldable pub analog_update :
    Libraries → String → Source → Option (List ℕ) → Option PathConfigUpdate
analog_update l name s none = none
analog_update l name s (some format) = some (record {
  source = "publisher";
  source_on_demand = false;
  run_on_demand = some (record {
    input_format = format;
    resolution = s.resolution;
    fps = s.fps;
    device_path = s.device_path;
    gop = (if ltb (l.rounded s.fps) 1 then 25 else l.rounded s.fps);
  });
  run_on_demand_restart = not (is_internal_preview_path name);
  run_on_demand_start_timeout = "15s";
  run_on_demand_close_after = "2s";
})

unfoldable pub ip_update : Source → Option (String × String) → Option PathConfigUpdate
ip_update s none = none
ip_update s (some (scheme, host)) =
    if not (str_eq scheme "rtsp") && not (str_eq scheme "rtsps") || str_eq host ""
    then none
    else some (record {
      source = s.input;
      source_on_demand = true;
      run_on_demand = none;
      run_on_demand_restart = false;
      run_on_demand_start_timeout = "";
      run_on_demand_close_after = "";
    })

-- mediaMTXUpdate: `none` is an error.
unfoldable pub mediamtx_update : Libraries → String → Source → Option PathConfigUpdate
unfolding matches_stream_name ip_update analog_update is_device_path is_resolution is_fps
    input_format
mediamtx_update l name s =
    if not (matches_stream_name name)
    then none
    else if str_eq s.type "ip"
    then ip_update s (l.parse_url s.input)
    else if str_eq s.type "analog"
    then (if not (is_device_path (codes s.device_path))
          || not (is_resolution (codes s.resolution))
          || not (is_fps (codes s.fps))
        then none
        else analog_update l name s (input_format (codes s.pixel_format)))
    else none
