-- ===== src/Preview/Coverage.antt =====
-- No preview path is left behind in MediaMTX without a session that will remove it
-- (internal/streampreview/manager.go).
use dronservice_updates.Prelude.{
  ℕ, String, str_eq, str_eq_iff, concat, ◌≡◌, ◌≢◌, refl, sym, ◌∙◌, ap, subst, true, false, Option,
  none, some, List, [], ◌∷◌, All, Any, map, arith, inl, inr, Option-cases, Bool-cases, if_ind,
}
use dronservice_updates.Stream.Types.{Source, internal_preview_path_prefix}
use dronservice_updates.Stream.Names.{is_internal_preview_path}
use dronservice_updates.Preview.{
  ManagedSession, Manager, Session, Result, ok, err, cleanup_failed, find, remove, set_timer,
  new_session, add_session, create, start_source, stop, close, expire, replace_camera, delete_all,
}
use dronservice_updates.Preview.Sessions.{find-All, find-Any}
use dronservice_updates.Preview.Invariant.{IsNamed, IsValid, swept-IsValid}
use dronservice_updates.Preview.Paths.{PathService}

abbrev On : String → ManagedSession → Type 0
On q s = s.path ≡ q

strip :
    (q : String) (s : ManagedSession) (xs : List ManagedSession)
    → s.path ≢ q
    → Any (On q) (s ∷ xs)
    → Any (On q) xs
strip q s xs n (inl e) = absurd (n e)
strip q s xs n (inr a) = a

Any-remove :
    (q id : String) (xs : List ManagedSession)
    → All IsNamed xs
    → concat internal_preview_path_prefix id ≢ q
    → Any (On q) xs
    → Any (On q) (remove id xs)
unfolding remove
Any-remove q id [] named other h = elim h [ ]
Any-remove q id (s ∷ xs) named other (inl e) = elim (Bool-cases (str_eq s.id id)) [
  | inl hit ↦ absurd (
      other (
        ap (concat internal_preview_path_prefix) (sym ((str_eq_iff s.id id).0 hit))
        ∙ sym named.0
        ∙ e))
  | inr miss ↦ rw miss (inl e)
]
Any-remove q id (s ∷ xs) named other (inr a) = ground (arith, Any-remove q id xs named.1 other a)

Any-set_timer :
    (q id : String) (t : Option ℕ) (xs : List ManagedSession)
    → Any (On q) xs
    → Any (On q) (set_timer id t xs)
unfolding set_timer
Any-set_timer q id t [] h = elim h [ ]
Any-set_timer q id t (s ∷ xs) h = ground (arith, Any-set_timer q id t xs)

module _ (service : PathService) where
  open service use {
    World, has, list_internal_preview_paths, delete_config, apply_source, delete_config_other,
    delete_config_gone, apply_source_other,
  }

  -- Every preview path in MediaMTX belongs to a session of the map.
  abbrev pub IsCovered : Manager World → Type 0
  IsCovered m =
      (q : String)
      → is_internal_preview_path q ≡ true
      → has m.paths q ≡ true
      → Any (On q) m.sessions

  -- A path that is there after a successful deletion is another one, and was there before.
  survives :
      (p q : String) (w : World)
      → (delete_config p w).0 ≡ true
      → has (delete_config p w).1 q ≡ true
      → (p ≢ q) × (has w q ≡ true)
  survives p q w done h = (differ, sym (delete_config_other p q w (λ e. differ (sym e))) ∙ h)
    where
      differ : p ≢ q
      differ e =
          cc
            (delete_config_gone p w done, subst (λ r. has (delete_config p w).1 r ≡ true) (sym e) h)

  before : (p q : String) (w : World) → p ≢ q → has (delete_config p w).1 q ≡ true → has w q ≡ true
  before p q w n h = sym (delete_config_other p q w (λ e. n (sym e))) ∙ h

  replace_camera_covers :
      (camera q : String) (xs : List ManagedSession) (w : World)
      → (has w q ≡ true → Any (On q) xs)
      → has (replace_camera service camera xs w).world q ≡ true
      → Any (On q) (replace_camera service camera xs w).left
  unfolding replace_camera
  replace_camera_covers camera q [] w cov h = cov h
  replace_camera_covers camera q (s ∷ xs) w cov h = elim (Bool-cases (str_eq s.path q)) [
    | inl here ↦ ground (
      arith,
      str_eq_iff s.path q,
      delete_config_gone s.path w,
      replace_camera_covers camera q xs (delete_config s.path w).1,
    )
    | inr there ↦ ground (
      arith,
      cov,
      str_eq_iff s.path q,
      before s.path q w,
      replace_camera_covers camera q xs w,
      replace_camera_covers camera q xs (delete_config s.path w).1,
    )
  ]

  deleted-IsCovered :
      (m : Manager World) (s : ManagedSession)
      → All IsNamed m.sessions
      → IsNamed s
      → IsCovered m
      → (delete_config s.path m.paths).0 ≡ true
      → IsCovered
          (record m { sessions = remove s.id m.sessions; paths = (delete_config s.path m.paths).1 })
  deleted-IsCovered m s named own cov done q internal h =
      let (differ, old) = survives s.path q m.paths done h in
      Any-remove q s.id m.sessions named (λ e. differ (own ∙ e)) (cov q internal old)

  -- A failed deletion of a path that has a session, which stays.
  kept-IsCovered :
      (m : Manager World) (s : ManagedSession)
      → Any (On s.path) m.sessions
      → IsCovered m
      → IsCovered (record m { paths = (delete_config s.path m.paths).1 })
  kept-IsCovered m s own cov q internal h = elim (Bool-cases (str_eq s.path q)) [
    | inl here ↦ subst (λ p. Any (On p) m.sessions) ((str_eq_iff s.path q).0 here) own
    | inr there ↦
        cov q internal (before s.path q m.paths (λ e. cc (there, (str_eq_iff s.path q).1 e)) h)
  ]

  -- If the session map is valid and every preview path in MediaMTX belongs to a session, this is so
  -- after a stop, successful or not.
  pub stop-IsCovered :
      (m : Manager World) (camera id : String)
      → IsValid m
      → IsCovered m
      → IsCovered (stop service m camera id).1
  unfolding stop
  stop-IsCovered m camera id v cov = elim (Option-cases (find id m.sessions)) [
    | inl absent ↦ rw (absent, stop) cov
    | inr (s, found) ↦
        rw (found, stop)
          (if_ind (λ (r : Result (Unit {0}) × Manager World). IsCovered r.1)
            (str_eq s.camera_id camera) _ _
            (λ _.
              if_ind (λ (r : Result (Unit {0}) × Manager World). IsCovered r.1)
                (delete_config s.path m.paths).0 _ _
                (deleted-IsCovered m s v.named (find-All IsNamed id m.sessions v.named found) cov)
                (λ _. kept-IsCovered m s (find-Any id m.sessions found) cov))
            (λ _. cov))
  ]

  -- If the session map is valid and every preview path in MediaMTX belongs to a session, this is so
  -- after the callback of a timer, whether MediaMTX deletes the path or refuses to.
  pub expire-IsCovered :
      (m : Manager World) (id : String) (now : ℕ)
      → IsValid m
      → IsCovered m
      → IsCovered (expire service m id now)
  unfolding expire
  expire-IsCovered m id now v cov = elim (Option-cases (find id m.sessions)) [
    | inl absent ↦ rw (absent, expire) cov
    | inr (s, found) ↦
        rw (found, expire)
          (if_ind IsCovered (delete_config s.path m.paths).0 _ _
            (deleted-IsCovered m s v.named (find-All IsNamed id m.sessions v.named found) cov)
            (λ _ q internal h.
              Any-set_timer q s.id _ m.sessions
                (kept-IsCovered m s (find-Any id m.sessions found) cov q internal h)))
  ]

  applied-IsCovered :
      (m : Manager World) (session : Session) (source : Source) (now : ℕ)
      → All IsNamed m.sessions
      → session.path ≡ concat internal_preview_path_prefix session.id
      → IsCovered m
      → IsCovered (
          add_session service
            (record m { paths = (apply_source session.path source m.paths).1 })
            session
            now)
  unfolding add_session
  applied-IsCovered m session source now named own cov q internal h =
      elim (Bool-cases (str_eq session.path q)) [
        | inl here ↦ inl ((str_eq_iff session.path q).0 here)
        | inr there ↦
            let differ : session.path ≢ q = λ e. cc (there, (str_eq_iff session.path q).1 e) in
            inr (
              Any-remove q session.id m.sessions named (λ e. differ (own ∙ e))
                (cov q internal (
                  sym (apply_source_other session.path q source m.paths (λ e. differ (sym e)))
                  ∙ h)))
      ]

  -- The path of a failed start is gone once its cleanup has succeeded.
  cleaned-IsCovered :
      (m : Manager World) (session : Session) (source : Source)
      → IsCovered m
      → let w = (apply_source session.path source m.paths).1 in
        (delete_config session.path w).0 ≡ true
        → IsCovered (record m { paths = (delete_config session.path w).1 })
  cleaned-IsCovered m session source cov done q internal h =
      let (differ, old) =
        survives session.path q (apply_source session.path source m.paths).1 done h in
      cov q internal
        (sym (apply_source_other session.path q source m.paths (λ e. differ (sym e))) ∙ old)

  create-IsCovered :
      (m : Manager World) (session : Session) (source : Source) (now : ℕ)
      → All IsNamed m.sessions
      → session.path ≡ concat internal_preview_path_prefix session.id
      → IsCovered m
      → (create service m session source now).0 ≢ err cleanup_failed
      → IsCovered (create service m session source now).1
  unfolding create
  create-IsCovered m session source now named own cov =
      if_ind Unless (apply_source session.path source m.paths).0 _ _
        (λ _ _. applied-IsCovered m session source now named own cov)
        (λ _ reported.
          cleaned-IsCovered m session source cov
            (elim (Bool-cases
              (delete_config session.path (apply_source session.path source m.paths).1).0) [
                | inl done ↦ done
                | inr failed ↦ absurd (reported (rw failed))
              ]))
    where
      Unless : Result Session × Manager World → Type 0
      Unless r = r.0 ≢ err cleanup_failed → IsCovered r.1

  -- If the session map is valid, every preview path in MediaMTX belonged to a session, and a start
  -- reports anything but a failed cleanup, then every preview path still belongs to a session:
  -- whether the source was applied, refused, or applied with the answer lost.
  pub start_source-IsCovered :
      (m : Manager World) (random : Option String) (camera : String) (source : Source) (now : ℕ)
      → IsValid m
      → IsCovered m
      → (start_source service m random camera source now).0 ≢ err cleanup_failed
      → IsCovered (start_source service m random camera source now).1
  unfolding start_source new_session
  start_source-IsCovered m none camera source now v cov = λ _. cov
  start_source-IsCovered m (some token) camera source now v cov =
      if_ind Unless m.closed _ _ (λ _ _. cov)
        λ open_.
          if_ind Unless (replace_camera service camera m.sessions m.paths).done _ _
            (λ _.
              create-IsCovered _ _ source now (swept-IsValid service m camera v open_).named refl
                swept)
            (λ _ _. swept)
    where
      Unless : Result Session × Manager World → Type 0
      Unless r = r.0 ≢ err cleanup_failed → IsCovered r.1

      swept :
          let left = replace_camera service camera m.sessions m.paths in
          IsCovered (record m { sessions = left.left; paths = left.world })
      swept q internal = replace_camera_covers camera q m.sessions m.paths (cov q internal)

  -- What `delete_all` leaves: with every deletion done, none of its paths.
  delete_all_clears :
      (q : String) (paths : List String) (w : World)
      → (delete_all service paths w).0 ≡ true
      → has (delete_all service paths w).1 q ≡ true
      → (has w q ≡ true) × ¬ (Any (λ p. p ≡ q) paths)
  unfolding delete_all
  delete_all_clears q [] w done h = (h, λ a. a)
  delete_all_clears q (p ∷ rest) w done h =
      let (old, others) = delete_all_clears q rest (delete_config p w).1 (ground arith) h in
      let (differ, older) = survives p q w (ground arith) old in
      (older, elim [ inl e ↦ differ e | inr a ↦ others a ])

  Any-path :
      (q : String) (xs : List ManagedSession)
      → Any (On q) xs
      → Any (λ p. p ≡ q) (map (λ s. s.path) xs)
  Any-path q [] h = h
  Any-path q (s ∷ xs) (inl e) = inl e
  Any-path q (s ∷ xs) (inr a) = inr (Any-path q xs a)

  -- If every preview path in MediaMTX belongs to a session, a Close that reports no error leaves no
  -- preview path in MediaMTX.
  pub close_clears :
      (m : Manager World)
      → IsCovered m
      → (close service m).0 ≡ ok tt
      → (q : String) → is_internal_preview_path q ≡ true
      → has (close service m).1.paths q ≡ false
  unfolding close
  close_clears m cov done q internal = elim (Bool-cases (has (close service m).1.paths q)) [
    | inl there ↦
        let (old, gone) =
          delete_all_clears q (map (λ s. s.path) m.sessions) m.paths (ground arith) there in
        absurd (gone (Any-path q m.sessions (cov q internal old)))
    | inr gone ↦ gone
  ]
