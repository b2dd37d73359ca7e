-- ===== src/MediaMtx/Tests.antt =====
-- A file with two paths, the second with a marker.
use dronservice_updates.Prelude.{
  String, trim_space, after_prefix, true, none, some, ◌≡◌, refl, inr, drop_while,
}
use dronservice_updates.MediaMtx.Lines.{
  split_after, cons_first, join, trim_newline, has_prefix, has_rest,
}
use dronservice_updates.MediaMtx.Sections.{
  is_paths, closes, closes_with, find_start, find_end, section_from, paths_section, take, parts_of,
  is_key, is_marker, continues, remove_block, removed, remove_from, remove_path_block, cons_some,
}
use dronservice_updates.MediaMtx.ConfigFile.{
  PathUpdate, Files, backed_up, set_path, delete_path, write, Yaml,
}
use dronservice_updates.MediaMtx.Bounds.{IsSection, paths_section-IsSection}
use dronservice_updates.MediaMtx.Rewriting.{
  IsRemoval, remove_path_block-IsRemoval, IsSafe, operations-IsSafe,
}

abbrev content : String
content =
    "a: 1\npaths:\n  cam:\n    source: x\n  # DronService managed path: b\n  b:\n    source: y\nend: 2\n"

abbrev without : String
without = "a: 1\npaths:\n  cam:\n    source: x\nend: 2\n"

removes : remove_path_block content "b" ≡ inr (without, true)
unfolding remove_path_block remove_from removed remove_block cons_some is_key is_marker continues
    parts_of take paths_section section_from find_start find_end is_paths closes closes_with
    split_after cons_first join trim_newline has_prefix has_rest trim_space after_prefix drop_while
removes = refl

remove_path_block-IsRemoval_example : IsRemoval content "b" without true
remove_path_block-IsRemoval_example = remove_path_block-IsRemoval content "b" without true removes

section : paths_section (split_after content) ≡ inr (1, 7)
unfolding paths_section section_from find_start find_end is_paths closes closes_with split_after
    cons_first trim_newline has_prefix has_rest trim_space after_prefix
section = refl

paths_section-IsSection_example : IsSection (split_after content) 1 7
paths_section-IsSection_example = paths_section-IsSection (split_after content) 1 7 section

abbrev files : Files
files = record { content = some content; backup = none }

operations-IsSafe_example :
    ((name : String) (u : PathUpdate) → IsSafe files (set_path backed_up name u files))
    × ((name : String) → IsSafe files (delete_path backed_up name files))
    × ((yaml : Yaml) (text : String) → IsSafe files (write yaml backed_up text files))
operations-IsSafe_example = operations-IsSafe backed_up files

-- A block with an empty line loses the lines up to it.
abbrev blank : String
blank = "paths:\n  b:\n    source: y\n\n    record: yes\n"

leaves_settings : remove_path_block blank "b" ≡ inr ("paths:\n\n    record: yes\n", true)
unfolding remove_path_block remove_from removed remove_block cons_some is_key is_marker continues
    parts_of take paths_section section_from find_start find_end is_paths closes closes_with
    split_after cons_first join trim_newline has_prefix has_rest trim_space after_prefix drop_while
leaves_settings = refl
