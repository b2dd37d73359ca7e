-- ===== src/Catalog/Supported.antt =====
-- The previews of analog cameras in stream_sources.go.
use dronservice_updates.Prelude.{
  String, str_eq, str_eq_iff, trim_space, Bool, true, false, not, ◌&&◌, ◌||◌, Option, none, some,
  List, [], ◌∷◌, ◌≡◌, refl, subst, ◌⊎◌, inl, inr, if_ind, Any, and_true, not-false,
}
use dronservice_updates.Stream.Types.{Source}
use dronservice_updates.Catalog.Devices.{
  Config, Device, Format, Mode, Store, get, has_mode, has_format, valid_device_config,
}
use dronservice_updates.Catalog.Sources.{
  Error, analog_source, find_device, is_pixel_format, preview_configured, preview_device,
  preview_scanned, resolve_analog_preview,
}

-- A device that is connected has a format with a mode.
abbrev pub HasMode : String → String → List Mode → Type 0
HasMode resolution fps modes = Any (λ (m : Mode). (m.resolution ≡ resolution) × (m.fps ≡ fps)) modes

abbrev pub Captures : String → String → String → List Format → Type 0
Captures pixel resolution fps formats =
    Any (λ (f : Format). (f.pixel_format ≡ pixel) × HasMode resolution fps f.modes) formats

abbrev pub IsConnected : Config → Source → List Device → Type 0
IsConnected c s devices =
    Any
      (λ (d : Device).
        (d.id ≡ c.device_id)
        × (d.path ≡ s.device_path)
        × Captures s.pixel_format s.resolution s.fps d.formats)
      devices

-- The source of a preview.
pub record IsSupported (to_upper : String → String) (devices : List Device) (store : Store)
    (id : String) (s : Source) : Type 0 where
  pub config : Config
  pub saved : get id store ≡ some config
  pub connected : IsConnected config s devices
  pub readable : is_pixel_format (to_upper s.pixel_format) ≡ true

or_true : (a b : Bool) → (a || b) ≡ true → (a ≡ true) ⊎ (b ≡ true)
or_true true b h = inl refl
or_true false b h = inr h

has_mode-HasMode :
    (c : Config) (modes : List Mode) → has_mode c modes ≡ true → HasMode c.resolution c.fps modes
unfolding has_mode
has_mode-HasMode c [] h = cc h
has_mode-HasMode c (m ∷ rest) h =
    elim (or_true (str_eq m.resolution c.resolution && str_eq m.fps c.fps) (has_mode c rest) h) [
      | inl both ↦
          let (r, f) = and_true (str_eq m.resolution c.resolution) (str_eq m.fps c.fps) both in
          inl ((str_eq_iff m.resolution c.resolution).0 r, (str_eq_iff m.fps c.fps).0 f)
      | inr more ↦ inr (has_mode-HasMode c rest more)
    ]

has_format-Captures :
    (c : Config) (formats : List Format)
    → has_format c formats ≡ true
    → Captures c.pixel_format c.resolution c.fps formats
unfolding has_format
has_format-Captures c [] h = cc h
has_format-Captures c (f ∷ rest) h =
    elim (or_true (str_eq f.pixel_format c.pixel_format && has_mode c f.modes) (has_format c rest)
      h) [
        | inl both ↦
            let (p, m) =
              and_true (str_eq f.pixel_format c.pixel_format) (has_mode c f.modes) both in
            inl ((str_eq_iff f.pixel_format c.pixel_format).0 p, has_mode-HasMode c f.modes m)
        | inr more ↦ inr (has_format-Captures c rest more)
      ]

valid-IsConnected :
    (path : String) (c : Config) (devices : List Device)
    → valid_device_config devices (record c { device_path = path }) ≡ true
    → IsConnected c (analog_source c path) devices
unfolding valid_device_config
valid-IsConnected path c [] h = cc h
valid-IsConnected path c (d ∷ rest) h =
    elim (or_true
      (str_eq d.id c.device_id
        && str_eq d.path path
        && has_format (record c { device_path = path }) d.formats)
      (valid_device_config rest (record c { device_path = path })) h) [
        | inl both ↦
            let (places, formats) =
              and_true (str_eq d.id c.device_id && str_eq d.path path) _ both in
            let (ids, paths) = and_true (str_eq d.id c.device_id) (str_eq d.path path) places in
            inl (
              (str_eq_iff d.id c.device_id).0 ids,
              (str_eq_iff d.path path).0 paths,
              has_format-Captures (record c { device_path = path }) d.formats formats,
            )
        | inr more ↦ inr (valid-IsConnected path c rest more)
      ]

abbrev On : (Source → Type 0) → Error ⊎ Source → Type 0
On P (inl e) = Unit
On P (inr s) = P s

module _ (to_upper : String → String) (devices : List Device) (store : Store) (id : String) where
  abbrev Supported : Error ⊎ Source → Type 0
  Supported o = On (IsSupported to_upper devices store id) o

  configured-Supported :
      (d : Device) (o : Option Config)
      → get id store ≡ o
      → Supported (preview_configured to_upper devices d o)
  unfolding preview_configured
  configured-Supported d none e = tt
  configured-Supported d (some c) e =
      if_ind Supported
        (str_eq (trim_space c.name) ""
          || str_eq (trim_space c.pixel_format) ""
          || str_eq (trim_space c.resolution) ""
          || str_eq (trim_space c.fps) "")
        _ _ (λ _. tt)
        (λ _.
          if_ind Supported (not (valid_device_config devices (record c { device_path = d.path }))) _
            _ (λ _. tt)
            (λ valid.
              if_ind Supported (not (is_pixel_format (to_upper c.pixel_format))) _ _ (λ _. tt)
                (λ readable. record {
                  config = c;
                  saved = e;
                  connected = valid-IsConnected d.path c devices (not-false _ valid);
                  readable = not-false _ readable;
                })))

  device-Supported : (o : Option Device) → Supported (preview_device to_upper devices store id o)
  unfolding preview_device
  device-Supported none = tt
  device-Supported (some d) = configured-Supported d (get id store) refl

-- A preview of an analog camera is resolved only if ffmpeg can be run, for settings that are saved
-- under the ID, and as a source at the path of a device that the scan found with the ID of the
-- settings, in a pixel format that ffmpeg is given, with a resolution and a frame rate that the
-- device has in this format.
pub resolve_analog_preview-IsSupported :
    (to_upper : String → String) (executable : Bool) (devices : List Device) (store : Store)
    (id : String) (s : Source)
    → resolve_analog_preview to_upper executable (some devices) store id ≡ inr s
    → (executable ≡ true) × IsSupported to_upper devices store id s
unfolding resolve_analog_preview preview_scanned
resolve_analog_preview-IsSupported to_upper executable devices store id s e =
    if_ind
      (λ (o : Error ⊎ Source).
        o ≡ inr s → (executable ≡ true) × IsSupported to_upper devices store id s)
      (not executable) _ _ (λ _ h. cc h)
      (λ there h. (
        not-false _ there,
        subst (On (IsSupported to_upper devices store id)) h
            (device-Supported to_upper devices store id (find_device id devices)),
      ))
      e
