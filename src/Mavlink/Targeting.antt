-- ===== src/Mavlink/Targeting.antt =====
-- Sessions of internal/mavlink/service.go: whom they listen to, and what they ask for.
use dronservice_updates.Prelude.{
  ℕ, true, false, not, Option, none, some, List, [], ◌∷◌, ◌++◌, ◌==◌, ◌≡◌, ◌≢◌, refl, sym, ◌∙◌,
  subst, ap, ◌⊎◌, inl, inr, if_ind, All, ==_iff,
}
use dronservice_updates.Mavlink.Config.{Config}
use dronservice_updates.Mavlink.State.{
  Reals, LinkStatus, Snapshot, Heartbeat, Message, heartbeat, sys_status, gps_raw_int,
  global_position_int, attitude, vfr_hud, battery_status, statustext, other,
}
use dronservice_updates.Mavlink.Messages.{handle_message, update_from_heartbeat, touch}
use dronservice_updates.Mavlink.Session.{
  Event, frame, no_frame, Session, Command, start_session, request_telemetry_streams, chooses,
  take_message, session_step, run_session, heartbeat_of,
}

-- A frame has a sender other than 0.
abbrev pub HasSender : {F : Type 0} → Event F → Type 0
HasSender no_frame = Unit
HasSender (frame now channel system component message) = system ≢ 0

-- A session of settings that began with a link: it keeps a target that was configured; it shows the
-- old link or one to its target; it has asked for nothing, or once for all messages, its target.
pub record IsFaithful {F : Type 0} (ids : List ℕ) (c : Config) (old : LinkStatus) (x : Session F)
    : Type 0 where
  pub configured : c.target_system_id ≢ 0 → x.target_system ≡ c.target_system_id
  pub unchosen : x.target_system ≡ 0 → (x.shown.link ≡ old) × (x.streams_requested ≡ false)
  pub linked : (x.shown.link ≡ old) ⊎ (x.shown.link.system_id ≡ x.target_system)
  pub asked :
      ((x.sent ≡ []) × (x.streams_requested ≡ false))
      ⊎ ((channel : ℕ) × (x.sent
            ≡ request_telemetry_streams ids channel x.target_system c.message_interval)
          × (x.streams_requested ≡ true))

-- A message leaves the link as it was, or shows its sender.
abbrev Linked : {F : Type 0} → ℕ → Snapshot F → Snapshot F → Type 0
Linked system s t = (t.link ≡ s.link) ⊎ (t.link.system_id ≡ system)

module _ {F : Type 0} (R : Reals F) where
  handle_message-Linked :
      (now : ℕ) (m : Message F) (system component : ℕ) (s : Snapshot F)
      → Linked system s (handle_message R now m system component s)
  unfolding handle_message touch update_from_heartbeat
  handle_message-Linked now (heartbeat m) system component s = inr refl
  handle_message-Linked now (sys_status v c r) system component s = inr refl
  handle_message-Linked now (gps_raw_int a b c d e f) system component s = inr refl
  handle_message-Linked now (global_position_int a b c d e) system component s = inr refl
  handle_message-Linked now (attitude a b c) system component s = inr refl
  handle_message-Linked now (vfr_hud a b c d) system component s = inr refl
  handle_message-Linked now (battery_status a b c) system component s = inr refl
  handle_message-Linked now (statustext t) system component s = inr refl
  handle_message-Linked now other system component s = inl refl

module _ {F : Type 0} (R : Reals F) (ids : List ℕ) (c : Config) (old : LinkStatus) where
  abbrev Faithful : Session F → Type 0
  Faithful x = IsFaithful ids c old x

  -- A message of the target that is only shown.
  shown-IsFaithful :
      (now component : ℕ) (m : Message F) (x : Session F)
      → x.target_system ≢ 0
      → Faithful x
      → Faithful (record x { shown = handle_message R now m x.target_system component x.shown })
  shown-IsFaithful now component m x n f = record {
    configured = f.configured;
    unchosen = λ e. absurd (n e);
    linked = elim (handle_message-Linked R now m x.target_system component x.shown) [
      | inl same ↦ elim f.linked [
        | inl e ↦ inl (same ∙ e)
        | inr e ↦ inr (ap (λ (l : LinkStatus). l.system_id) same ∙ e)
      ]
      | inr e ↦ inr e
    ];
    asked = f.asked;
  }

  take_message-IsFaithful :
      (now channel component : ℕ) (m : Message F) (h : Option Heartbeat) (x : Session F)
      → x.target_system ≢ 0
      → Faithful x
      → Faithful (take_message R ids c now channel x.target_system component m h x)
  unfolding take_message update_from_heartbeat touch
  take_message-IsFaithful now channel component m (some h) x n f =
      if_ind Faithful (not x.streams_requested) _ _
        (λ fresh. record {
          configured = f.configured;
          unchosen = λ e. absurd (n e);
          linked = inr refl;
          asked = elim f.asked [
            | inl e ↦ inr (
              channel,
              ap
                  (λ (l : List Command).
                    l ++ request_telemetry_streams ids channel x.target_system c.message_interval)
                  e.0,
              refl,
            )
            | inr e ↦ cc (fresh, e.2)
          ];
        })
        (λ _. shown-IsFaithful now component m x n f)
  take_message-IsFaithful now channel component m none x n f =
      shown-IsFaithful now component m x n f

  -- A session that takes its target.
  chosen-IsFaithful :
      (system : ℕ) (x : Session F)
      → x.target_system ≡ 0
      → Faithful x
      → Faithful (record x { target_system = system })
  chosen-IsFaithful system x e f = record {
    configured = λ n. absurd (n (sym (f.configured n) ∙ e));
    unchosen = λ _. f.unchosen e;
    linked = inl (f.unchosen e).0;
    asked = elim f.asked [ inl h ↦ inl h | inr h ↦ cc (h.2, (f.unchosen e).1) ];
  }

  session_step-IsFaithful :
      (e : Event F) (x : Session F) → HasSender e → Faithful x → Faithful (session_step R ids c e x)
  unfolding session_step
  session_step-IsFaithful no_frame x h f = f
  session_step-IsFaithful (frame now channel system component m) x h f =
      if_ind Faithful (x.target_system == 0) _ _
        (λ none_yet.
          if_ind Faithful (chooses (heartbeat_of m)) _ _
            (λ _.
              take_message-IsFaithful now channel component m (heartbeat_of m)
                (record x { target_system = system }) h
                (chosen-IsFaithful system x ((==_iff x.target_system 0).0 none_yet) f))
            (λ _. f))
        (λ there.
          if_ind Faithful (system == x.target_system) _ _
            (λ same.
              subst
                (λ (k : ℕ).
                  Faithful (take_message R ids c now channel k component m (heartbeat_of m) x))
                (sym ((==_iff system x.target_system).0 same))
                (take_message-IsFaithful now channel component m (heartbeat_of m) x
                  (λ e. cc (there, (==_iff x.target_system 0).1 e)) f))
            (λ _. f))

  run-IsFaithful :
      (es : List (Event F)) (x : Session F)
      → All HasSender es
      → Faithful x
      → Faithful (run_session R ids c es x)
  unfolding run_session
  run-IsFaithful [] x h f = f
  run-IsFaithful (e ∷ es) x h f =
      run-IsFaithful es (session_step R ids c e x) h.1 (session_step-IsFaithful e x h.0 f)

-- If no frame has the sender 0, then after any events of a session the target is the configured
-- one, if there is one, the link shown is the old one or one to the target, and the session has
-- sent nothing, or once a request for each message, to its target.
pub run_session-IsFaithful :
    {F : Type 0} (R : Reals F) (ids : List ℕ) (c : Config) (s : Snapshot F) (es : List (Event F))
    → All HasSender es
    → IsFaithful ids c s.link (run_session R ids c es (start_session c s))
unfolding start_session
run_session-IsFaithful R ids c s es h = run-IsFaithful R ids c s.link es _ h (record {
  configured = λ _. refl;
  unchosen = λ _. (refl, refl);
  linked = inl refl;
  asked = inl (refl, refl);
})
