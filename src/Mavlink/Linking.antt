-- ===== src/Mavlink/Linking.antt =====
-- The settings and the link of the service of internal/mavlink/service.go.
use dronservice_updates.Prelude.{
  ℕ, ℤ, String, Bool, true, false, not, ◌&&◌, Option, none, some, List, ◌==◌, ◌≡◌, ◌≢◌, refl, ◌↔◌,
  ◌≤◌, ◌<◌, ◌+◌, if_ind, arith, ==_iff, seconds, positive_or, is_zero, leb,
}
use dronservice_updates.Mavlink.Config.{Config, Error, validate}
use dronservice_updates.Mavlink.Store.{Disk, document, save}
use dronservice_updates.Mavlink.State.{
  Reals, Snapshot, Heartbeat, Message, heartbeat, sys_status, gps_raw_int, global_position_int,
  attitude, vfr_hud, battery_status, statustext, other,
}
use dronservice_updates.Mavlink.Messages.{
  handle_message, update_from_heartbeat, touch, snapshot_with_link_state,
}
use dronservice_updates.Mavlink.Session.{
  Service, Failure, frame, Session, take_message, heartbeat_of, session_step, update_config,
  update_checked, update_saved,
}

-- A message that is read was seen at its time, from its sender, under the same settings.
abbrev Seen : {F : Type 0} → ℕ → Snapshot F → Snapshot F → Type 0
Seen now s t = (t.link.last_seen_at ≡ now) × (t.config ≡ s.config)

module _ {F : Type 0} (R : Reals F) where
  handle_message-Seen :
      (now : ℕ) (m : Message F) (system component : ℕ) (s : Snapshot F)
      → m ≢ other
      → Seen now s (handle_message R now m system component s)
  unfolding handle_message touch update_from_heartbeat
  handle_message-Seen now (heartbeat m) system component s n = (refl, refl)
  handle_message-Seen now (sys_status v c r) system component s n = (refl, refl)
  handle_message-Seen now (gps_raw_int a b c d e f) system component s n = (refl, refl)
  handle_message-Seen now (global_position_int a b c d e) system component s n = (refl, refl)
  handle_message-Seen now (attitude a b c) system component s n = (refl, refl)
  handle_message-Seen now (vfr_hud a b c d) system component s n = (refl, refl)
  handle_message-Seen now (battery_status a b c) system component s n = (refl, refl)
  handle_message-Seen now (statustext t) system component s n = (refl, refl)
  handle_message-Seen now other system component s n = absurd (n refl)

  take_message-Seen :
      (ids : List ℕ) (c : Config) (now channel system component : ℕ) (m : Message F)
      (h : Option Heartbeat) (x : Session F)
      → m ≢ other
      → Seen now x.shown (take_message R ids c now channel system component m h x).shown
  unfolding take_message update_from_heartbeat touch
  take_message-Seen ids c now channel system component m (some h) x n =
      if_ind (λ (y : Session F). Seen now x.shown y.shown) (not x.streams_requested) _ _
        (λ _. (refl, refl)) (λ _. handle_message-Seen now m system component x.shown n)
  take_message-Seen ids c now channel system component m none x n =
      handle_message-Seen now m system component x.shown n

  -- After a session has taken from its target, which is not 0, a frame at a time after the zero
  -- time with a message that handleMessage reads, the snapshot shows the link as connected exactly
  -- until the time-out of the settings is over, or five seconds if they have none.
  pub session_step-connected :
      (ids : List ℕ) (c : Config) (at channel component later : ℕ) (m : Message F) (x : Session F)
      → 0 < at
      → x.target_system ≢ 0
      → m ≢ other
      → ((snapshot_with_link_state later
            (session_step R ids c
              (frame at channel x.target_system component m)
              x).shown).link.connected
          ≡ true)
        ↔ (later ≤ at + positive_or x.shown.config.link_timeout (seconds 5))
  unfolding session_step snapshot_with_link_state
  session_step-connected ids c at channel component later m x p n o =
      let seen =
        take_message-Seen ids c at channel x.target_system component m (heartbeat_of m) x o in
      if_ind Connected (x.target_system == 0) _ _ (λ e. absurd (n ((==_iff x.target_system 0).0 e)))
        (λ _.
          if_ind Connected (x.target_system == x.target_system) _ _
            (λ _.
              rw (seen.0, seen.1)
                (within (at + positive_or x.shown.config.link_timeout (seconds 5))))
            (λ e. absurd (ground (arith, e))))
    where
      within : (t : ℕ) → ((not (is_zero at) && leb later t) ≡ true) ↔ (later ≤ t)
      within t = ground (arith, p)

      Connected : Session F → Type 0
      Connected y =
          ((snapshot_with_link_state later y.shown).link.connected ≡ true)
          ↔ (later ≤ at + positive_or x.shown.config.link_timeout (seconds 5))

-- An update of the settings: an error leaves the service and the file; else the settings pass
-- Validate, and memory, store, file and snapshot have them, and a restart is asked for.
abbrev pub Updated :
    {F : Type 0}
    → (String → Bool)
    → (ℤ → String)
    → Config
    → Service F
    → Disk
    → Option Failure × Service F × Disk
    → Type 0
Updated splits print_duration c s disk (some e, t, after) = (t ≡ s) × (after ≡ disk)
Updated splits print_duration c s disk (none, t, after) =
    (validate splits c ≡ none)
    × (t.config ≡ c)
    × (t.store.config ≡ c)
    × (t.snapshot.config ≡ c)
    × (t.restart ≡ true)
    × (after ≡ document (dronservice_updates.Mavlink.Config.marshal print_duration c))

update_checked-Updated :
    {F : Type 0} (splits : String → Bool) (print_duration : ℤ → String) (written : Bool)
    (c : Config) (e : Option Error) (s : Service F) (disk : Disk)
    → validate splits c ≡ e
    → Updated splits print_duration c s disk (update_checked print_duration written c e s disk)
unfolding update_checked update_saved save
update_checked-Updated splits print_duration written c (some e) s disk v = (refl, refl)
update_checked-Updated splits print_duration true c none s disk v =
    (v, refl, refl, refl, refl, refl)
update_checked-Updated splits print_duration false c none s disk v = (refl, refl)

-- An UpdateConfig that fails leaves the service and the file; one that succeeds was given settings
-- that pass Validate, which the service, its store, its snapshot and the file then have, and asks
-- for a restart.
pub update_config-Updated :
    {F : Type 0} (splits : String → Bool) (print_duration : ℤ → String) (written : Bool)
    (c : Config) (s : Service F) (disk : Disk)
    → Updated splits print_duration c s disk (update_config splits print_duration written c s disk)
unfolding update_config
update_config-Updated splits print_duration written c s disk =
    update_checked-Updated splits print_duration written c (validate splits c) s disk refl
