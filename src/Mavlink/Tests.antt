-- ===== src/Mavlink/Tests.antt =====
-- Settings, with durations written as a sign and as many letters as nanoseconds.
use Prim.Native.Char.{Char}
use dronservice_updates.Prelude.{
  ℕ, zero, suc, ℤ, pos, negsuc, String, str_eq, str_eq_iff, trim_space, Bool, true, false, Option,
  none, some, ◌≡◌, refl, ap, inl, inr, Bool-cases, ◌==◌, if◌then◌else◌, milliseconds, ◌↔◌, List, [],
  ◌∷◌, ◌≤◌, ◌+◌, arith,
}
use dronservice_updates.Mavlink.Config.{Config, is_positive, below_50ms}
use dronservice_updates.Mavlink.Store.{Store, absent, opened, new_store, save, zero_config}
use dronservice_updates.Mavlink.State.{
  Reals, Heartbeat, heartbeat, statustext, no_link, empty_snapshot,
}
use dronservice_updates.Mavlink.Messages.{snapshot_with_link_state}
use dronservice_updates.Mavlink.Session.{
  Event, frame, no_frame, Session, Service, start_session, session_step, run_session, update_config,
}
use dronservice_updates.Mavlink.Targeting.{IsFaithful, run_session-IsFaithful}
use dronservice_updates.Mavlink.Linking.{session_step-connected, Updated, update_config-Updated}
use dronservice_updates.Mavlink.Merging.{IsValid}
use dronservice_updates.Mavlink.Saving.{Durations, new_store-save}

abbrev letters : ℕ → String
letters zero = String.[]
letters (suc n) = String.◌∷◌ "n" (letters n)

abbrev count : String → ℕ
count String.[] = 0
count (String.◌∷◌ c s) = suc (count s)

count-letters : (n : ℕ) → count (letters n) ≡ n
count-letters zero = refl
count-letters (suc n) = ap suc (count-letters n)

abbrev sign : ℤ → String
sign (pos n) = String.◌∷◌ "+" (letters n)
sign (negsuc n) = String.◌∷◌ "-" (letters n)

abbrev read_sign : String → Option ℤ
read_sign String.[] = none
read_sign (String.◌∷◌ c s) =
    if Prim.Native.Char.code c == b'+' then some (pos (count s)) else some (negsuc (count s))

read_sign-sign : (d : ℤ) → read_sign (sign d) ≡ some d
read_sign-sign (pos n) = ap (λ k. some (pos k)) (count-letters n)
read_sign-sign (negsuc n) = ap (λ k. some (negsuc k)) (count-letters n)

not_empty : (c : Char) (s : String) → str_eq (String.◌∷◌ c s) "" ≡ false
not_empty c s = elim (Bool-cases (str_eq (String.◌∷◌ c s) "")) [
  | inl e ↦ cc ((str_eq_iff (String.◌∷◌ c s) "").0 e)
  | inr e ↦ e
]

sign_filled : (d : ℤ) → str_eq (sign d) "" ≡ false
sign_filled (pos n) = not_empty _ _
sign_filled (negsuc n) = not_empty _ _

abbrev signs : Durations
signs = record {
  parse = read_sign;
  print = sign;
  parse-print = read_sign-sign;
  print_filled = sign_filled;
}

abbrev any_address : String → Bool
any_address s = true

abbrev settings : Config
settings = record {
  enabled = true;
  transport = "udp";
  udp_addr = "0.0.0.0:14551";
  out_system_id = 240;
  target_system_id = 1;
  link_timeout = pos 7;
  message_interval = pos (milliseconds 50);
}

settings-IsValid : IsValid any_address settings
unfolding trim_space is_positive below_50ms
settings-IsValid = record {
  by_udp = refl;
  addressed = refl;
  separable = refl;
  identified = refl;
  patient = refl;
  paced = refl;
}

abbrev empty_store : Store
empty_store = record { config = zero_config; loaded = false }

new_store-save_example :
    new_store read_sign (save sign true settings empty_store absent).2
    ≡ opened (record { config = settings; loaded = true })
new_store-save_example =
    new_store-save signs any_address settings empty_store absent settings-IsValid

abbrev environment : String → String
environment name = if str_eq name "MAVLINK_OUT_SYSTEM_ID" then "0" else ""

-- Numbers that the code only passes on.
abbrev whole : Reals ℤ
whole = record {
  of_int = λ n. n;
  add = λ a b. b;
  mul = λ a b. a;
  div = λ a b. a;
  pi = pos 3;
  is_positive = λ a. true;
}

abbrev beat : Heartbeat
beat = record {
  armed = true;
  custom_mode = 4;
  system_status = "active";
  autopilot = "ardupilot";
  vehicle_type = "quadrotor";
  no_autopilot = false;
}

abbrev frames : List (Event ℤ)
frames =
    frame 5 1 7 1 (heartbeat beat)
    ∷ frame 6 1 9 1 (statustext "other system")
    ∷ frame 8 1 7 1 (statustext "ready")
    ∷ no_frame
    ∷ []

abbrev any_target : Config
any_target = record settings { target_system_id = 0 }

run_session-IsFaithful_example : IsFaithful (1 ∷ 24 ∷ []) any_target no_link (
    run_session whole
      (1 ∷ 24 ∷ [])
      any_target
      frames
      (start_session any_target (empty_snapshot zero_config)))
run_session-IsFaithful_example =
    run_session-IsFaithful whole (1 ∷ 24 ∷ []) any_target (empty_snapshot zero_config) frames (
      λ e. absurd (omega (arith, e)),
      (λ e. absurd (omega (arith, e)), (λ e. absurd (omega (arith, e)), (tt, tt))),
    )

abbrev listening : Session ℤ
listening = record {
  target_system = 7;
  streams_requested = true;
  sent = [];
  shown = empty_snapshot settings;
}

session_step-connected_example :
    ((snapshot_with_link_state 12
        (session_step whole [] settings
          (frame 5 1 7 1 (statustext "ready"))
          listening).shown).link.connected
      ≡ true)
    ↔ (12 ≤ 5 + 7)
session_step-connected_example =
    session_step-connected whole [] settings 5 1 1 12 (statustext "ready") listening (omega arith)
      (λ e. absurd (omega (arith, e))) (λ e. cc e)

abbrev fresh : Service ℤ
fresh = record {
  store = empty_store;
  config = zero_config;
  snapshot = empty_snapshot zero_config;
  restart = false;
}

update_config-Updated_example :
    Updated any_address sign settings fresh absent
      (update_config any_address sign true settings fresh absent)
update_config-Updated_example = update_config-Updated any_address sign true settings fresh absent
