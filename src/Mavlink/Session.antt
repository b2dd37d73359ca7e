-- ===== src/Mavlink/Session.antt =====
-- The service and the loop of a session of internal/mavlink/service.go.
use dronservice_updates.Prelude.{
  ℕ, ℤ, String, Bool, true, false, not, Option, none, some, List, [], ◌∷◌, ◌++◌, ◌==◌,
  if◌then◌else◌, ◌⊎◌, inl, inr,
}
use dronservice_updates.Mavlink.Config.{
  Config, Error, validate, merge, default_config, load_config_from_env,
}
use dronservice_updates.Mavlink.Store.{Store, Disk, save, zero_config}
use dronservice_updates.Mavlink.State.{
  Reals, Snapshot, Heartbeat, Message, heartbeat, empty_snapshot,
}
use dronservice_updates.Mavlink.Messages.{
  update_from_heartbeat, handle_message, snapshot_with_link_state,
}

-- The service; `restart` says whether the channel of restarts has its one token.
pub record Service (F : Type 0) : Type 0 where
  pub store : Store
  pub config : Config
  pub snapshot : Snapshot F
  pub restart : Bool

-- A request for the interval of a message: the channel, the system and the message.
pub record Command : Type 0 where
  pub channel : ℕ
  pub target_system : ℕ
  pub message_id : ℕ
  pub interval : ℤ

pub data Failure : Type 0 where
  invalid : Error → Failure
  not_saved : Failure

-- An event of the node: a frame with its time, its channel and its sender, or another event.
pub data Event (F : Type 0) : Type 0 where
  frame : ℕ → ℕ → ℕ → ℕ → Message F → Event F  -- time, channel, system, component
  no_frame : Event F

-- The variables of runSession, and what has been written to the node.
pub record Session (F : Type 0) : Type 0 where
  pub target_system : ℕ
  pub streams_requested : Bool
  pub sent : List Command
  pub shown : Snapshot F

-- Whether a session without a target takes the sender of a message.
unfoldable pub chooses : Option Heartbeat → Bool
chooses (some m) = not m.no_autopilot
chooses none = false

-- requestTelemetryStreams for the messages of `telemetryMessageIDs`.
unfoldable pub request_telemetry_streams : List ℕ → ℕ → ℕ → ℤ → List Command
request_telemetry_streams [] channel target interval = []
request_telemetry_streams (id ∷ ids) channel target interval =
    record { channel = channel; target_system = target; message_id = id; interval = interval }
    ∷ request_telemetry_streams ids channel target interval

module _ {F : Type 0} where
  unfoldable pub checked_service : Store → Config → Option Error → Error ⊎ Service F
  checked_service store c (some e) = inl e
  checked_service store c none =
      inr (record {
        store = store;
        config = c;
        snapshot = empty_snapshot zero_config;
        restart = false;
      })

  -- NewService for a store that is not nil.
  unfoldable pub new_service :
      (String → Bool) → (String → Option ℤ) → (String → String) → Store → Error ⊎ Service F
  unfolding checked_service validate merge load_config_from_env
  new_service splits parse_duration env store =
      let c = load_config_from_env parse_duration env (merge default_config store.config) in
      checked_service store c (validate splits c)

  unfoldable pub update_saved :
      Config → Bool × Store × Disk → Service F → Option Failure × Service F × Disk
  update_saved c (ok, store, disk) s =
      if ok
      then (
        none,
        record {
          store = store;
          config = c;
          snapshot = record s.snapshot { enabled = c.enabled; config = c };
          restart = true;
        },
        disk,
      )
      else (some not_saved, record s { store = store }, disk)

  unfoldable pub update_checked :
      (ℤ → String)
      → Bool
      → Config
      → Option Error
      → Service F
      → Disk
      → Option Failure × Service F × Disk
  unfolding update_saved save
  update_checked print_duration written c (some e) s disk = (some (invalid e), s, disk)
  update_checked print_duration written c none s disk =
      update_saved c (save print_duration written c s.store disk) s

  -- UpdateConfig
  unfoldable pub update_config :
      (String → Bool)
      → (ℤ → String)
      → Bool
      → Config
      → Service F
      → Disk
      → Option Failure × Service F × Disk
  unfolding update_checked validate
  update_config splits print_duration written c s disk =
      update_checked print_duration written c (validate splits c) s disk

  -- setDisabledSnapshot
  unfoldable pub set_disabled_snapshot : ℕ → Config → Service F → Service F
  set_disabled_snapshot now c s = record s {
    snapshot = record (empty_snapshot c) { updated_at = now };
  }

  -- Snapshot
  unfoldable pub snapshot : ℕ → Service F → Snapshot F
  unfolding snapshot_with_link_state
  snapshot now s = snapshot_with_link_state now s.snapshot

  -- The snapshot at the start of runSession.
  unfoldable pub start_session : Config → Snapshot F → Session F
  start_session c s = record {
    target_system = c.target_system_id;
    streams_requested = false;
    sent = [];
    shown = record s { enabled = true; config = c };
  }

  unfoldable pub heartbeat_of : Message F → Option Heartbeat
  heartbeat_of (heartbeat m) = some m
  heartbeat_of _ = none

module _ {F : Type 0} (R : Reals F) (ids : List ℕ) (c : Config) where
  -- The part of the loop after the comparison of the system with the target; the message is given
  -- with its heartbeat, if it is one. The channel of a frame is not nil.
  unfoldable pub take_message : ℕ → ℕ → ℕ → ℕ → Message F → Option Heartbeat → Session F → Session F
  unfolding update_from_heartbeat handle_message request_telemetry_streams
  take_message now channel system component message (some m) x =
      if not x.streams_requested
      then record x {
        streams_requested = true;
        sent = x.sent ++ request_telemetry_streams ids channel x.target_system c.message_interval;
        shown = update_from_heartbeat R now m system component x.shown;
      }
      else record x { shown = handle_message R now message system component x.shown }
  take_message now channel system component message none x = record x {
    shown = handle_message R now message system component x.shown;
  }

  -- One round of the loop.
  unfoldable pub session_step : Event F → Session F → Session F
  unfolding take_message chooses heartbeat_of
  session_step no_frame x = x
  session_step (frame now channel system component message) x =
      if x.target_system == 0
      then (if chooses (heartbeat_of message)
          then take_message now channel system component message (heartbeat_of message)
              (record x { target_system = system })
          else x)
      else if system == x.target_system
      then take_message now channel system component message (heartbeat_of message) x
      else x

  -- The loop, for the events up to its end.
  unfoldable pub run_session : List (Event F) → Session F → Session F
  unfolding session_step
  run_session [] x = x
  run_session (e ∷ events) x = run_session events (session_step e x)
