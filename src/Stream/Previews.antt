-- ===== src/Stream/Previews.antt =====
-- internal/stream/service.go keeps what internal/streampreview/manager.go expects of its PathService.
use dronservice_updates.Prelude.{
  String, str_eq, Bool, true, false, not, ◌&&◌, ◌||◌, Option, none, some, ◌≡◌, ◌≢◌, refl, if_ind,
  arith, ap,
}
use dronservice_updates.Stream.Types.{Source}
use dronservice_updates.Stream.Names.{is_internal_preview_path, matches_stream_name}
use dronservice_updates.Stream.Update.{PathConfigUpdate, Libraries, mediamtx_update}
use dronservice_updates.Stream.Service.{
  Deletion, deleted, not_found, failed, MediaMtx, ConfigFile, World, Outcome,
  list_internal_preview_paths, apply_to_media, apply_to_file, apply_update, apply_checked,
  apply_source, deletion_done, delete_from_media, delete_from, delete_config,
}
use dronservice_updates.Preview.Paths.{PathService}

module _ (l : Libraries) (media : MediaMtx) (file : ConfigFile) where
  -- The preview paths in MediaMTX.
  unfoldable pub has_preview : World l media file → String → Bool
  has_preview w q = is_internal_preview_path q && media.has w.paths q

  -- A call leaves the preview paths other than one as they are.
  Spares : String → World l media file → Outcome l media file → Type 0
  Spares p w r = (q : String) → q ≢ p → has_preview r.1 q ≡ has_preview w q

  add-Spares :
      (p : String) (u : PathConfigUpdate) (w : World l media file)
      → Spares p w (apply_to_media l media file p u "" w)
  unfolding Spares apply_to_media has_preview
  add-Spares p u w q n = ap (λ b. is_internal_preview_path q && b) (media.add_other p q u w.paths n)

  SamePaths : World l media file → Outcome l media file → Type 0
  SamePaths w r = r.1.paths ≡ w.paths

  file_keeps_paths :
      (p existing : String) (u : PathConfigUpdate) (c : file.Content) (w : World l media file)
      → SamePaths w (apply_to_file l media file p u existing c w)
  unfolding SamePaths apply_to_file
  file_keeps_paths p existing u c w =
      let P : Outcome l media file → Type 0 = λ r. r.1.paths ≡ w.paths in
      if_ind P (not (file.set_path p u c).0) _ _ (λ _. refl)
        (λ _.
          if_ind P (str_eq existing "" || str_eq existing p) _ _ (λ _. refl)
            (λ _.
              if_ind P (not (matches_stream_name existing)) _ _ (λ _. refl)
                (λ _.
                  if_ind P (file.delete_path existing (file.set_path p u c).1).0 _ _ (λ _. refl)
                    (λ _. refl))))

  same-Spares :
      (p : String) (w : World l media file) (r : Outcome l media file)
      → SamePaths w r
      → Spares p w r
  unfolding Spares SamePaths has_preview
  same-Spares p w r e q n = ap (λ v. is_internal_preview_path q && media.has v q) e

  apply_update-Spares :
      (p : String) (u : PathConfigUpdate) (o : Option file.Content) (w : World l media file)
      → Spares p w (apply_update l media file p u "" o w)
  unfolding apply_update
  apply_update-Spares p u none w = add-Spares p u w
  apply_update-Spares p u (some c) w =
      if_ind (Spares p w) (is_internal_preview_path p) _ _ (λ _. add-Spares p u w)
        (λ _. same-Spares p w _ (file_keeps_paths p "" u c w))

  apply_checked-Spares :
      (p : String) (o : Option PathConfigUpdate) (w : World l media file)
      → Spares p w (apply_checked l media file p o "" w)
  unfolding apply_checked
  apply_checked-Spares p none w = unfold Spares in (λ q n. refl)
  apply_checked-Spares p (some u) w = apply_update-Spares p u w.config_file w

  -- What a deletion of a path promises.
  Deletes : String → World l media file → Outcome l media file → Type 0
  Deletes p w r = Spares p w r × (r.0 ≡ true → has_preview r.1 p ≡ false)

  done_lem : (p : String) (d : Deletion) → deletion_done l media file p d ≡ true → d ≢ failed
  unfolding deletion_done
  done_lem p deleted e = λ h. cc h
  done_lem p not_found e = λ h. cc h
  done_lem p failed e = cc e

  delete_from_media-Deletes :
      (p : String) (w : World l media file) → Deletes p w (delete_from_media l media file p w)
  unfolding Deletes Spares delete_from_media has_preview
  delete_from_media-Deletes p w = (
    λ q n. ap (λ b. is_internal_preview_path q && b) (media.delete_other p q w.paths n),
    λ e. ground (arith, media.delete_gone p w.paths (done_lem p _ e)),
  )

  delete_from-Deletes :
      (p : String) (o : Option file.Content) (w : World l media file)
      → Deletes p w (delete_from l media file p o w)
  unfolding delete_from
  delete_from-Deletes p none w = delete_from_media-Deletes p w
  delete_from-Deletes p (some c) w =
      if_ind (Deletes p w) (is_internal_preview_path p) _ _ (λ _. delete_from_media-Deletes p w)
        (λ user. unfold Deletes Spares has_preview in (λ q n. refl, λ _. ground (arith, user)))

  -- ApplySource of a path that is new leaves the preview paths other than that one as they are,
  -- whatever the source, and whether it succeeds or not.
  pub apply_source_spares :
      (p q : String) (s : Source) (w : World l media file)
      → q ≢ p
      → has_preview (apply_source l media file p s "" w).1 q ≡ has_preview w q
  unfolding apply_source Spares
  apply_source_spares p q s w = apply_checked-Spares p (mediamtx_update l p s) w q

  -- DeleteConfig of the stream service leaves the preview paths other than its own as they are; if
  -- it succeeds, also where MediaMTX answers 404, its own path is no preview path in MediaMTX.
  pub delete_config_deletes :
      (p : String) (w : World l media file)
      → ((q : String) → q ≢ p → has_preview (delete_config l media file p w).1 q ≡ has_preview w q)
        × ((delete_config l media file p w).0 ≡ true
            → has_preview (delete_config l media file p w).1 p ≡ false)
  unfolding delete_config Deletes Spares
  delete_config_deletes p w = delete_from-Deletes p w.config_file w

  -- The stream service as the path service of the previews.
  abbrev pub preview_paths : PathService
  preview_paths = record {
    World = World l media file;
    has = has_preview;
    list_internal_preview_paths = list_internal_preview_paths l media file;
    apply_source = λ p s w. apply_source l media file p s "" w;
    delete_config = delete_config l media file;
    apply_source_other = λ p q s w n. apply_source_spares p q s w n;
    delete_config_other = λ p q w n. (delete_config_deletes p w).0 q n;
    delete_config_gone = λ p w e. (delete_config_deletes p w).1 e;
  }
