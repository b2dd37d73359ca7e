-- ===== src/Lib.antt =====
-- DronService runs on the companion computer of a drone: it manages video streams through
-- MediaMTX, shows the Starlink terminal and the flight controller, and updates itself. This
-- library models the parts that keep state and shows what holds of them.
--
-- The parts and their files. Paths are from the root of the repository.
--   Preview, Preview/*      internal/streampreview/manager.go: temporary previews of cameras. `Manager` has
--                           the fields of the Go type, with MediaMTX as `paths`; start_source, stop,
--                           cleanup, close and expire are StartSource, Stop, Cleanup, Close and expire.
--                           Preview/Paths is the interface PathService with what the code relies on;
--                           Preview/Timers is a step relation of calls, timers and late callbacks.
--   Stream, Stream/*        internal/stream/service.go: mediamtx_update, apply_source and delete_config are
--                           mediaMTXUpdate, ApplySource and DeleteConfig, over MediaMTX and its settings
--                           file as interfaces; Stream/Previews makes them the PathService of the previews.
--   Starlink, Starlink/*    internal/starlink/*.go: record_history, update_minute_bucket,
--                           aggregate_hourly, record_event, dish_alerts, status, snapshot, reboot and new_service are
--                           the methods of those names. Float stands for float64, and nothing is assumed
--                           of its operations.
--   Updater, Updater/*      internal/updater/client.go, internal/buildinfo/buildinfo.go: versions and their
--                           order, the cached release, Status and Request.
--   Mavlink, Mavlink/*      internal/mavlink/config.go and store.go: merging, environment, validation and
--                           the file of the settings.
--   CameraProxy, CameraProxy/*  internal/cameraproxy/manager.go: proxies to the web pages of cameras. `plan` is
--                           Start up to its lock, start the whole of it; stop is the callback of a timer and
--                           close is Close, each up to the unlock: `closing` has the servers whose Close or
--                           Shutdown comes after it, and server_closes is one such call. server_ends is the
--                           end of Serve, after which remove comes. `servers` are the listeners.
--   CameraNetwork, CameraNetwork/*  internal/cameranetwork/network.go: Address is selectAddress, Request has the checks
--                           of the helper, Helper is Process, Client is Ensure. A run of Process is one step on
--                           the `Disk` with the files that it writes and the commands that it has run. The ticks
--                           of the wait of Ensure are a list of what each reads.
--   IpCamera, IpCamera/*    internal/ipcamera/service.go: Urls and Prepare are the rules of URLs and requests,
--                           Devices is what a discovered device changes (with the keys of dahua_packet.go), Store
--                           the maps, the file, Save and Delete, Service is Discover and CheckStatus, Status is
--                           RefreshVideoStreams, Update is SaveWithCameraUpdate, Sources the sources of streams. An
--                           operation that takes the lock twice has the service at each of the two times.
--   Mavlink/State, Messages, Session  internal/mavlink/service.go: handle_message is handleMessage on the snapshot,
--                           run_session the loop of runSession over a list of events, with what it has sent.
--   MediaMtx, MediaMtx/*    internal/mediamtx/config_file.go: Sections edits the section of paths by lines (the parts
--                           before, in and after the section stand for its two indexes), ConfigFile is SetPath,
--                           DeletePath and Write on the file and its backup.
--   Catalog, Catalog/*      stream_sources.go: Devices is internal/deviceconfig/store.go with validDeviceConfig of
--                           main.go, Sources is the catalog of sources over them and over IpCamera.
--   Prelude, Prelude/*      what the parts share: tests, lists by native numbers, texts, times.
--
-- The preview manager is a client of the path service alone, which it calls with its lock held, so
-- its methods are single steps; Cleanup takes no lock and is a step of its own. The Starlink service
-- holds its lock through Status, Snapshot reads after it. The updater holds a lock in the look-up of
-- the release only; another process may publish a request meanwhile, which `Publication` says.
--
-- Conventions. A method takes the state and what the outside answers during the call, and returns
-- its result and the state after it. Times are nanoseconds since the zero time of Go. Errors are
-- values, most of them without their texts. A map is a list of entries, and a list that sort.Slice orders
-- is the list up to its order. Loops are recursion on the list they run over, so there is no fuel; the
-- search for a free address runs for 1024 rounds at most, which is the bound of the code.
--
-- The catalog of sources reads the IP camera service and the device settings, and gives the stream
-- service what it applies. The IP camera service holds its lock in each step; what it reads before a
-- call to a camera is of an earlier time. The client and the helper of the camera network share two files.
--
-- Not modelled: HTTP handlers and pages, the probes and packets of the discovery of cameras, the scan of
-- capture devices, the ZeroTier client, the outer loop of the MAVLink service with its restarts, the
-- HTTP client of MediaMTX and its installer, deployment. They are input and output, or stand outside
-- of these parts.
pub mod Prelude
pub mod Stream
pub mod MediaMtx
pub mod Preview
pub mod CameraProxy
pub mod IpCamera
pub mod Catalog
pub mod CameraNetwork
pub mod Starlink
pub mod Updater
pub mod Mavlink
