-- ===== src/Catalog/Available.antt =====
-- What the sources of stream_sources.go stand for.
use mathlib.Core.Option.{some-injective}
use dronservice_updates.Prelude.{
  String, str_eq, str_eq_iff, Bool, true, not, Option, none, some, List, [], ◌∷◌, ◌++◌,
  if◌then◌else◌, ◌≡◌, refl, sym, ap, ◌∙◌, subst, ◌⊎◌, inl, inr, if_ind, Any, All, not-false,
  Bool-cases, All-map,
}
use dronservice_updates.Stream.Types.{Source}
use dronservice_updates.IpCamera.Library.{Library}
use dronservice_updates.IpCamera.Store.{Service}
use dronservice_updates.IpCamera.Sources.{StreamSource, stream_sources}
use dronservice_updates.Catalog.Devices.{Config, Configs, Device, Store}
use dronservice_updates.Catalog.Sources.{
  Error, last_with, or_else, device_of, analog_source, source_if, analog_sources, ip_source,
  ip_sources, list, find_source, resolve_in, resolve,
}

-- A device of the settings: it has their path or their ID.
abbrev pub Fits : Config → Device → Type 0
Fits c d = (d.path ≡ c.device_path) ⊎ (d.id ≡ c.device_id)

-- A source of a device that is connected, by settings that are in use.
abbrev pub IsAnalog : List Device → Configs → Source → Type 0
IsAnalog devices configs s =
    Any
      (λ (e : String × Config).
        (e.1.in_use ≡ true)
        × Any (λ (d : Device). Fits e.1 d × (s ≡ analog_source e.1 d.path)) devices)
      configs

-- A source of a camera of the network.
abbrev pub IsIp : List StreamSource → Source → Type 0
IsIp streams s = Any (λ (x : StreamSource). s ≡ ip_source x) streams

abbrev pub IsAvailable : List Device → Configs → List StreamSource → Source → Type 0
IsAvailable devices configs streams s = IsAnalog devices configs s ⊎ IsIp streams s

nothing_there : (d : Device) → ◌≡◌ {A = Option Device} none (some d) → ⊥
nothing_there d h = cc h

-- A device that is found is one of the list, with the key.
last_with-Any :
    (P : Device → Type 0) (key : Device → String) (k : String) (devices : List Device)
    (o : Option Device)
    → last_with key k devices ≡ o
    → (d : Device) → o ≡ some d
    → ((e : Device) → key e ≡ k → e ≡ d → P e)
    → Any P devices
unfolding last_with
last_with-Any P key k [] o e d same p = cc (e, same)
last_with-Any P key k (x ∷ rest) o e d same p =
    go (last_with key k rest) refl (e ∙ same)
      (λ h. last_with-Any P key k rest (last_with key k rest) refl d h p)
  where
    go :
        (more : Option Device)
        → last_with key k rest ≡ more
        → elim more [ some y ↦ some y | none ↦ if str_eq (key x) k then some x else none ] ≡ some d
        → (last_with key k rest ≡ some d → Any P rest)
        → Any P (x ∷ rest)
    go (some y) f h r = inr (r (f ∙ h))
    go none f h r = elim (Bool-cases (str_eq (key x) k)) [
      | inl is ↦ inl (
          p x ((str_eq_iff (key x) k).0 is)
            (some-injective x d (subst (λ (b : Bool). (if b then some x else none) ≡ some d) is h)))
      | inr other ↦
          absurd
            (nothing_there d (subst (λ (b : Bool). (if b then some x else none) ≡ some d) other h))
    ]

device_of-Any :
    (devices : List Device) (c : Config) (d : Device)
    → device_of devices c ≡ some d
    → Any (λ (e : Device). Fits c e × (analog_source c d.path ≡ analog_source c e.path)) devices
unfolding device_of
device_of-Any devices c d e = go (last_with (λ x. x.path) c.device_path devices) refl e
  where
    P : Device → Type 0
    P x = Fits c x × (analog_source c d.path ≡ analog_source c x.path)

    go :
        (o : Option Device)
        → last_with (λ x. x.path) c.device_path devices ≡ o
        → or_else o (last_with (λ x. x.id) c.device_id devices) ≡ some d
        → Any P devices
    go (some y) f h =
        last_with-Any P (λ x. x.path) c.device_path devices (some y) f d (unfold or_else in h)
          (λ x k same. (inl k, ap (λ (z : Device). analog_source c z.path) (sym same)))
    go none f h =
        last_with-Any P (λ x. x.id) c.device_id devices _ refl d (unfold or_else in h)
          (λ x k same. (inr k, ap (λ (z : Device). analog_source c z.path) (sym same)))

-- One more entry of the settings.
shift-IsAnalog :
    (devices : List Device) (e : String × Config) (configs : Configs) (xs : List Source)
    → All (IsAnalog devices configs) xs
    → All (IsAnalog devices (e ∷ configs)) xs
shift-IsAnalog devices e configs xs = All-map (λ s h. inr h) xs

source_if-IsAnalog :
    (devices : List Device) (id : String) (c : Config) (configs : Configs) (o : Option Device)
    (xs : List Source)
    → c.in_use ≡ true
    → device_of devices c ≡ o
    → All (IsAnalog devices configs) xs
    → All (IsAnalog devices ((id, c) ∷ configs)) (source_if c o ++ xs)
unfolding source_if
source_if-IsAnalog devices id c configs none xs used e h =
    shift-IsAnalog devices (id, c) configs xs h
source_if-IsAnalog devices id c configs (some d) xs used e h =
    (inl (used, device_of-Any devices c d e), shift-IsAnalog devices (id, c) configs xs h)

analog_sources-IsAnalog :
    (devices : List Device) (configs : Configs)
    → All (IsAnalog devices configs) (analog_sources devices configs)
unfolding analog_sources
analog_sources-IsAnalog devices [] = tt
analog_sources-IsAnalog devices ((id, c) ∷ rest) =
    if_ind (All (IsAnalog devices ((id, c) ∷ rest))) (not c.in_use) _ _
      (λ _. shift-IsAnalog devices (id, c) rest _ (analog_sources-IsAnalog devices rest))
      (λ used.
        source_if-IsAnalog devices id c rest (device_of devices c) _ (not-false _ used) refl
          (analog_sources-IsAnalog devices rest))

ip_sources-IsIp : (streams : List StreamSource) → All (IsIp streams) (ip_sources streams)
unfolding ip_sources
ip_sources-IsIp [] = tt
ip_sources-IsIp (x ∷ rest) =
    (inl refl, All-map (λ s h. inr h) (ip_sources rest) (ip_sources-IsIp rest))

both : (P : Source → Type 0) (xs ys : List Source) → All P xs → All P ys → All P (xs ++ ys)
both P [] ys h k = k
both P (x ∷ xs) ys h k = (h.0, both P xs ys h.1 k)

-- A source that is found is one of the list, with the ID.
found :
    (P : Source → Type 0) (id : String) (xs : List Source) (s : Source)
    → All P xs
    → find_source id xs ≡ inr s
    → (s.id ≡ id) × P s
unfolding find_source
found P id [] s h e = cc e
found P id (x ∷ xs) s h e =
    if_ind (λ (o : Error ⊎ Source). o ≡ inr s → (s.id ≡ id) × P s) (str_eq x.id id) _ _
      (λ is k.
        subst (λ (y : Source). (y.id ≡ id) × P y) (right x s k) ((str_eq_iff x.id id).0 is, h.0))
      (λ _. found P id xs s h.1) e
  where
    right : (a b : Source) → ◌≡◌ {A = Error ⊎ Source} (inr a) (inr b) → a ≡ b
    right a b k = ap (λ (o : Error ⊎ Source). elim o [ inl f ↦ a | inr y ↦ y ]) k

-- A source that Resolve answers with, after a scan that succeeded, has the ID that was asked for;
-- it is a source of a device that the scan found, by settings that are in use and have its path or
-- its ID, or one of the sources of the IP camera service.
pub resolve-IsAvailable :
    (lib : Library) (devices : List Device) (store : Store) (cameras : Service) (id : String)
    (s : Source)
    → resolve lib (some devices) store cameras id ≡ inr s
    → (s.id ≡ id) × IsAvailable devices store.configs (stream_sources lib cameras) s
unfolding resolve resolve_in list
resolve-IsAvailable lib devices store cameras id s e =
    let analog = analog_sources devices store.configs in
    let ip = ip_sources (stream_sources lib cameras) in
    found (IsAvailable devices store.configs (stream_sources lib cameras)) id (analog ++ ip) s
      (both (IsAvailable devices store.configs (stream_sources lib cameras)) analog ip
        (All-map (λ x h. inl h) analog (analog_sources-IsAnalog devices store.configs))
        (All-map (λ x h. inr h) ip (ip_sources-IsIp (stream_sources lib cameras))))
      e
