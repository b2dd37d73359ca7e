-- ===== src/Stream/Service.antt =====
-- internal/stream/service.go over MediaMTX and its settings file.
use dronservice_updates.Prelude.{
  String, str_eq, Bool, true, false, not, ◌||◌, Option, none, some, List, if◌then◌else◌, ◌≡◌, ◌≢◌,
  keep_if,
}
use dronservice_updates.Stream.Types.{Source}
use dronservice_updates.Stream.Names.{is_internal_preview_path, matches_stream_name}
use dronservice_updates.Stream.Update.{PathConfigUpdate, Libraries, mediamtx_update}

pub data Deletion : Type 0 where
  deleted not_found failed : Deletion

-- The client of MediaMTX, and what the code relies on: a call touches the path that it names alone,
-- and a path that was deleted or not found is not there.
pub record MediaMtx : Type 1 where
  pub State : Type 0
  pub has : State → String → Bool
  pub list_config_paths : State → Option (List String)
  pub add_config_path : String → PathConfigUpdate → State → Bool × State
  pub patch_config_path : String → PathConfigUpdate → State → Bool × State
  pub delete_config_path : String → State → Deletion × State
  pub add_other :
      (p q : String) (u : PathConfigUpdate) (w : State)
      → q ≢ p
      → has (add_config_path p u w).1 q ≡ has w q
  pub delete_other : (p q : String) (w : State) → q ≢ p → has (delete_config_path p w).1 q ≡ has w q
  pub delete_gone :
      (p : String) (w : State)
      → (delete_config_path p w).0 ≢ failed
      → has (delete_config_path p w).1 p ≡ false

-- SetPath and DeletePath of the settings file: whether they succeed, and the file.
pub record ConfigFile : Type 1 where
  pub Content : Type 0
  pub set_path : String → PathConfigUpdate → Content → Bool × Content
  pub delete_path : String → Content → Bool × Content

module _ (libraries : Libraries) (media : MediaMtx) (file : ConfigFile) where
  -- MediaMTX, and the settings file where the service has one.
  pub record World : Type 0 where
    pub paths : media.State
    pub config_file : Option file.Content

  -- Whether the error is nil, and the state after the call.
  abbrev pub Outcome : Type 0
  Outcome = Bool × World

  -- ListInternalPreviewPaths
  unfoldable pub list_internal_preview_paths : World → Option (List String)
  list_internal_preview_paths w = elim (media.list_config_paths w.paths) [
    | none ↦ none
    | some names ↦ some (keep_if is_internal_preview_path names)
  ]

  unfoldable pub undo_rename : String → Deletion × media.State → World → Outcome
  undo_rename name (deleted, p) w = (true, record w { paths = p })
  undo_rename name (not_found, p) w =
      (false, record w { paths = (media.delete_config_path name p).1 })
  undo_rename name (failed, p) w = (false, record w { paths = (media.delete_config_path name p).1 })

  -- The part of ApplySource that asks MediaMTX.
  unfoldable pub apply_to_media : String → PathConfigUpdate → String → World → Outcome
  unfolding undo_rename
  apply_to_media name u existing w =
      let (added, p) = media.add_config_path name u w.paths in
      let (patched, p') = media.patch_config_path existing u w.paths in
      let renamed = undo_rename name (media.delete_config_path existing p) w in
      if str_eq existing ""
      then (added, record w { paths = p })
      else if str_eq existing name
      then (patched, record w { paths = p' })
      else if not (matches_stream_name existing)
      then (false, w)
      else if added
      then renamed
      else (false, record w { paths = p })

  -- The part of ApplySource that writes the settings file.
  unfoldable pub apply_to_file : String → PathConfigUpdate → String → file.Content → World → Outcome
  apply_to_file name u existing c w =
      let (written, c1) = file.set_path name u c in
      let (removed, c2) = file.delete_path existing c1 in
      if not written
      then (false, record w { config_file = some c1 })
      else if str_eq existing "" || str_eq existing name
      then (true, record w { config_file = some c1 })
      else if not (matches_stream_name existing)
      then (false, record w { config_file = some ((file.delete_path name c1).1) })
      else if removed
      then (true, record w { config_file = some c2 })
      else (false, record w { config_file = some ((file.delete_path name c2).1) })

  unfoldable pub apply_update :
      String → PathConfigUpdate → String → Option file.Content → World → Outcome
  unfolding apply_to_media apply_to_file
  apply_update name u existing none w = apply_to_media name u existing w
  apply_update name u existing (some c) w =
      if is_internal_preview_path name
      then apply_to_media name u existing w
      else apply_to_file name u existing c w

  unfoldable pub apply_checked : String → Option PathConfigUpdate → String → World → Outcome
  unfolding apply_update
  apply_checked name none existing w = (false, w)
  apply_checked name (some u) existing w = apply_update name u existing w.config_file w

  -- ApplySource
  unfoldable pub apply_source : String → Source → String → World → Outcome
  unfolding apply_checked
  apply_source name source existing w =
      apply_checked name (mediamtx_update libraries name source) existing w

  unfoldable pub deletion_done : String → Deletion → Bool
  deletion_done name deleted = true
  deletion_done name not_found = is_internal_preview_path name
  deletion_done name failed = false

  unfoldable pub delete_from_media : String → World → Outcome
  unfolding deletion_done
  delete_from_media name w =
      let (d, p) = media.delete_config_path name w.paths in
      (deletion_done name d, record w { paths = p })

  unfoldable pub delete_from : String → Option file.Content → World → Outcome
  unfolding delete_from_media
  delete_from name none w = delete_from_media name w
  delete_from name (some c) w =
      let (removed, c') = file.delete_path name c in
      if is_internal_preview_path name
      then delete_from_media name w
      else (removed, record w { config_file = some c' })

  -- DeleteConfig
  unfoldable pub delete_config : String → World → Outcome
  unfolding delete_from
  delete_config name w = delete_from name w.config_file w
