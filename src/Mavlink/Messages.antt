-- ===== src/Mavlink/Messages.antt =====
-- handleMessage, updateFromHeartbeat and the link state of internal/mavlink/service.go.
use dronservice_updates.Prelude.{
  ℕ, suc, ℤ, pos, negsuc, String, Bool, true, not, ◌&&◌, ◌||◌, Option, none, some, List, [], ◌∷◌,
  ◌==◌, if◌then◌else◌, seconds, elapsed_le, is_zero, positive_or,
}
use dronservice_updates.Mavlink.State.{
  Reals, PositionStatus, BatteryStatus, Snapshot, Heartbeat, Message, heartbeat, sys_status,
  gps_raw_int, global_position_int, attitude, vfr_hud, battery_status, statustext, other,
}

-- math.MaxUint16
abbrev pub max_uint16 : ℕ
max_uint16 = 65535

-- `n != 0` and `n != -1`
unfoldable pub is_nonzero : ℤ → Bool
is_nonzero (pos n) = not (n == 0)
is_nonzero (negsuc n) = true

unfoldable pub is_known : ℤ → Bool
is_known (pos n) = true
is_known (negsuc n) = not (n == 0)

module _ {F : Type 0} (R : Reals F) where
  -- `float64(n) / k`
  abbrev pub scaled : ℤ → ℕ → F
  scaled n k = R.div (R.of_int n) (R.of_int (pos k))

  abbrev zero_real : F
  zero_real = R.of_int (pos 0)

  -- radToDeg
  unfoldable pub rad_to_deg : F → F
  rad_to_deg v = R.div (R.mul v (R.of_int (pos 180))) R.pi

  -- The loop of batteryVoltageFromCells: the total and the count.
  unfoldable pub add_cells : List ℕ → F → ℕ → F × ℕ
  add_cells [] total count = (total, count)
  add_cells (cell ∷ rest) total count =
      if cell == 0 || cell == max_uint16
      then add_cells rest total count
      else add_cells rest (R.add total (R.of_int (pos cell))) (suc count)

  -- batteryVoltageFromCells
  unfoldable pub battery_voltage_from_cells : List ℕ → F
  unfolding add_cells
  battery_voltage_from_cells cells =
      let (total, count) = add_cells cells zero_real 0 in
      if count == 0 then zero_real else R.div total (R.of_int (pos 1000))

  -- ensureBatteryLocked, ensurePositionLocked
  unfoldable pub ensure_battery : Option (BatteryStatus F) → BatteryStatus F
  ensure_battery (some b) = b
  ensure_battery none = record { voltage = zero_real; current = zero_real; remaining = pos 0 }

  unfoldable pub ensure_position : Option (PositionStatus F) → PositionStatus F
  ensure_position (some p) = p
  ensure_position none = record {
    latitude = zero_real;
    longitude = zero_real;
    altitude_msl = zero_real;
    altitude_rel = zero_real;
    heading = zero_real;
    satellites = 0;
    gps_fix_type = 0;
    gps_fix_type_name = "";
  }

  -- touchLocked
  unfoldable pub touch : ℕ → ℕ → ℕ → Snapshot F → Snapshot F
  touch now system component s = record s {
    link = record s.link { last_seen_at = now; system_id = system; component_id = component };
    updated_at = now;
  }

  -- updateFromHeartbeat, which assigns every field of the flight status.
  unfoldable pub update_from_heartbeat : ℕ → Heartbeat → ℕ → ℕ → Snapshot F → Snapshot F
  unfolding touch
  update_from_heartbeat now m system component s = touch now system component (record s {
    flight = some (record {
      armed = m.armed;
      custom_mode = m.custom_mode;
      system_status = m.system_status;
      autopilot = m.autopilot;
      vehicle_type = m.vehicle_type;
    });
  })

  -- The current and the rest of the charge, where they are known.
  abbrev with_charge : ℤ → ℤ → BatteryStatus F → BatteryStatus F
  with_charge current remaining b = record b {
    current = if is_known current then scaled current 100 else b.current;
    remaining = if is_known remaining then remaining else b.remaining;
  }

  unfoldable pub after_sys_status : ℕ → ℤ → ℤ → BatteryStatus F → BatteryStatus F
  unfolding is_known
  after_sys_status voltage current remaining b = with_charge current remaining (record b {
    voltage = if not (voltage == max_uint16) then scaled (pos voltage) 1000 else b.voltage;
  })

  unfoldable pub after_battery_status : List ℕ → ℤ → ℤ → BatteryStatus F → BatteryStatus F
  unfolding is_known battery_voltage_from_cells
  after_battery_status cells current remaining b =
      let voltage = battery_voltage_from_cells cells in
      with_charge current remaining
        (record b { voltage = if R.is_positive voltage then voltage else b.voltage })

  -- A position that is not the zero value.
  unfoldable pub after_fix : ℤ → ℤ → PositionStatus F → PositionStatus F
  unfolding is_nonzero
  after_fix lat lon p =
      if is_nonzero lat || is_nonzero lon
      then record p { latitude = scaled lat 10000000; longitude = scaled lon 10000000 }
      else p

  unfoldable pub after_gps_raw : ℤ → ℤ → ℤ → ℕ → ℕ → String → PositionStatus F → PositionStatus F
  unfolding after_fix is_nonzero
  after_gps_raw lat lon alt satellites fix name p =
      let q = after_fix lat lon p in
      record q {
        altitude_msl = if is_nonzero alt then scaled alt 1000 else q.altitude_msl;
        satellites = satellites;
        gps_fix_type = fix;
        gps_fix_type_name = name;
      }

  unfoldable pub after_global_position : ℤ → ℤ → ℤ → ℤ → ℕ → PositionStatus F → PositionStatus F
  unfolding after_fix
  after_global_position lat lon alt relative heading p =
      let q = after_fix lat lon p in
      record q {
        altitude_msl = scaled alt 1000;
        altitude_rel = scaled relative 1000;
        heading = if not (heading == max_uint16) then scaled (pos heading) 100 else q.heading;
      }

  -- handleMessage
  unfoldable pub handle_message : ℕ → Message F → ℕ → ℕ → Snapshot F → Snapshot F
  unfolding touch update_from_heartbeat ensure_battery ensure_position after_sys_status
      after_battery_status after_gps_raw after_global_position rad_to_deg
  handle_message now (heartbeat m) system component s =
      update_from_heartbeat now m system component s
  handle_message now (sys_status voltage current remaining) system component s =
      touch now system component (record s {
        battery = some (after_sys_status voltage current remaining (ensure_battery s.battery));
      })
  handle_message now (gps_raw_int lat lon alt satellites fix name) system component s =
      touch now system component (record s {
        position =
            some (after_gps_raw lat lon alt satellites fix name (ensure_position s.position));
      })
  handle_message now (global_position_int lat lon alt relative heading) system component s =
      touch now system component (record s {
        position =
            some (after_global_position lat lon alt relative heading (ensure_position s.position));
      })
  handle_message now (attitude roll pitch yaw) system component s =
      touch now system component (record s {
        attitude = some (record {
          roll_deg = rad_to_deg roll;
          pitch_deg = rad_to_deg pitch;
          yaw_deg = rad_to_deg yaw;
        });
      })
  handle_message now (vfr_hud air ground climb throttle) system component s =
      touch now system component (record s {
        hud =
            some
              (record { airspeed = air; groundspeed = ground; climb = climb; throttle = throttle });
      })
  handle_message now (battery_status cells current remaining) system component s =
      touch now system component (record s {
        battery = some (after_battery_status cells current remaining (ensure_battery s.battery));
      })
  handle_message now (statustext text) system component s =
      touch now system component (record s { status_text = text; status_at = now })
  handle_message now other system component s = s

-- snapshotWithLinkStateLocked
unfoldable pub snapshot_with_link_state : {F : Type 0} → ℕ → Snapshot F → Snapshot F
snapshot_with_link_state now s =
    let timeout = positive_or s.config.link_timeout (seconds 5) in
    record s {
      link = record s.link {
        connected = not (is_zero s.link.last_seen_at) && elapsed_le now s.link.last_seen_at timeout;
      };
      updated_at = now;
    }
