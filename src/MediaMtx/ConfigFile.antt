-- ===== src/MediaMtx/ConfigFile.antt =====
-- ConfigFile of internal/mediamtx/config_file.go.
use dronservice_updates.Prelude.{
  ℕ, String, str_eq, codes, concat, byte_length, is_digit, is_letter, all_codes, Bool, false, not,
  ◌&&◌, ◌||◌, Option, none, some, List, [], ◌∷◌, length, ltb, leb, ◌==◌, if◌then◌else◌, ◌⊎◌, inl,
  inr,
}
use dronservice_updates.MediaMtx.Lines.{split_after, join}
use dronservice_updates.MediaMtx.Sections.{
  Error, invalid_name, unreadable, not_found, invalid_content, not_written, paths_section,
  remove_path_block, replace_path_block,
}

-- PathConfigUpdate of internal/mediamtx/models.go
pub record PathUpdate : Type 0 where
  pub source : String
  pub source_on_demand : Bool
  pub run_on_demand : String
  pub run_on_demand_restart : Bool
  pub run_on_demand_start_timeout : String
  pub run_on_demand_close_after : String

-- The file and its backup, `none` where there is no regular file that can be read.
pub record Files : Type 0 where
  pub content : Option String
  pub backup : Option String

-- How far a write comes: not to the backup, to the backup, or to its end.
pub data Write : Type 0 where
  no_backup backed_up written : Write

abbrev is_name_code : ℕ → Bool
is_name_code c = is_letter c || is_digit c || c == b'_' || c == b'-'

-- managedPathNamePattern
unfoldable pub is_path_name : String → Bool
unfolding all_codes
is_path_name name =
    leb 1 (length (codes name))
    && leb (length (codes name)) 100
    && all_codes is_name_code (codes name)

-- read: the size is that of the text.
abbrev pub max_config_file_size : ℕ
max_config_file_size = 2097152

unfoldable pub checked_size : Option String → Option String
unfolding byte_length
checked_size none = none
checked_size (some content) =
    if ltb max_config_file_size (byte_length (codes content)) then none else some content

unfoldable pub read : Files → Option String
unfolding checked_size
read f = checked_size f.content

-- backupConfigFile: an absent file has no backup.
unfoldable pub backup_config_file : Files → Files
backup_config_file f = elim f.content [ none ↦ f | some text ↦ record f { backup = some text } ]

-- writeConfigFile
unfoldable pub write_config_file : Write → String → Files → Option Error × Files
unfolding backup_config_file
write_config_file no_backup text f = (some not_written, f)
write_config_file backed_up text f = (some not_written, backup_config_file f)
write_config_file written text f = (none, record (backup_config_file f) { content = some text })

-- strings.ReplaceAll of a quote by two
unfoldable pub double_quotes : String → String
double_quotes String.[] = String.[]
double_quotes (String.◌∷◌ c s) =
    let rest = double_quotes s in
    if Prim.Native.Char.code c == 39 then String.◌∷◌ c (String.◌∷◌ c rest) else String.◌∷◌ c rest

-- yamlScalar
unfoldable pub yaml_scalar : String → String
unfolding double_quotes
yaml_scalar value = concat "'" (concat (double_quotes value) "'")

-- A line with a value, if there is one.
abbrev setting : String → String → String → String
setting key value text =
    if str_eq value "" then "" else concat "    " (concat key (concat ": " (concat text "\n")))

-- renderPathBlock
unfoldable pub render_path_block : String → PathUpdate → String
unfolding yaml_scalar join
render_path_block name u = join (
    concat "  # DronService managed path: " (concat name (concat "\n  " (concat name ":\n")))
    ∷ setting "source" u.source (yaml_scalar u.source)
    ∷ (if u.source_on_demand then "    sourceOnDemand: yes\n" else "")
    ∷ setting "runOnDemand" u.run_on_demand (yaml_scalar u.run_on_demand)
    ∷ (if u.run_on_demand_restart then "    runOnDemandRestart: yes\n" else "")
    ∷ setting "runOnDemandStartTimeout" u.run_on_demand_start_timeout u.run_on_demand_start_timeout
    ∷ setting "runOnDemandCloseAfter" u.run_on_demand_close_after u.run_on_demand_close_after
    ∷ [])

unfoldable pub write_result : Write → Files → Error ⊎ String → Option Error × Files
unfolding write_config_file
write_result w f (inl e) = (some e, f)
write_result w f (inr text) = write_config_file w text f

unfoldable pub set_in : Write → String → PathUpdate → Files → Option String → Option Error × Files
unfolding write_result replace_path_block render_path_block
set_in w name u f none = (some unreadable, f)
set_in w name u f (some content) =
    write_result w f (replace_path_block content name (render_path_block name u))

-- SetPath
unfoldable pub set_path : Write → String → PathUpdate → Files → Option Error × Files
unfolding is_path_name set_in read
set_path w name u f =
    if not (is_path_name name) then (some invalid_name, f) else set_in w name u f (read f)

unfoldable pub removed_text : Error ⊎ (String × Bool) → Error ⊎ String
removed_text (inl e) = inl e
removed_text (inr (text, found)) = if found then inr text else inl not_found

unfoldable pub delete_in : Write → String → Files → Option String → Option Error × Files
unfolding write_result removed_text remove_path_block
delete_in w name f none = (some unreadable, f)
delete_in w name f (some content) = write_result w f (removed_text (remove_path_block content name))

-- DeletePath
unfoldable pub delete_path : Write → String → Files → Option Error × Files
unfolding is_path_name delete_in read
delete_path w name f =
    if not (is_path_name name) then (some invalid_name, f) else delete_in w name f (read f)

-- What yaml.Unmarshal makes of a text, if there is no error: the keys of the only document, with
-- whether their values are mappings, or a document that is no mapping.
abbrev pub Yaml : Type 0
Yaml = String → Option (Option (List (String × Bool)))

-- The search for the key `paths`.
unfoldable pub has_paths : List (String × Bool) → Bool
has_paths [] = false
has_paths ((key, mapping) ∷ rest) =
    let more = has_paths rest in if str_eq key "paths" then mapping else more

unfoldable pub has_zero : List ℕ → Bool
has_zero [] = false
has_zero (c ∷ s) = c == 0 || has_zero s

unfoldable pub check_document :
    Option (Option (List (String × Bool))) → Error ⊎ (ℕ × ℕ) → Option Error
unfolding has_paths
check_document none section = some invalid_content
check_document (some d) (inl e) = some e
check_document (some none) (inr section) = some invalid_content
check_document (some (some entries)) (inr section) =
    if has_paths entries then none else some invalid_content

-- validateConfigText: `none` is no error.
unfoldable pub validate_config_text : Yaml → String → Option Error
unfolding check_document has_zero byte_length paths_section split_after
validate_config_text yaml text =
    if byte_length (codes text) == 0
      || ltb max_config_file_size (byte_length (codes text))
      || has_zero (codes text)
    then some invalid_content
    else check_document (yaml text) (paths_section (split_after text))

unfoldable pub write_checked : Write → String → Files → Option Error → Option Error × Files
unfolding write_config_file
write_checked w text f (some e) = (some e, f)
write_checked w text f none = write_config_file w text f

-- Write
unfoldable pub write : Yaml → Write → String → Files → Option Error × Files
unfolding write_checked validate_config_text
write yaml w text f = write_checked w text f (validate_config_text yaml text)
