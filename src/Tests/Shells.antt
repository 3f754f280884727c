-- ===== src/Tests/Shells.antt =====
-- Concrete runs of the test on shell commands (crates/inline/src/blocks.rs).
use camouflage.Prelude.{◌≡◌, refl, some}
use camouflage.Text.{
  Str, strip_prefix, trim_start, utf8, is_blank, find_str, replace_str, ends_with, replace_from,
  rfind_str, starts_with, str_eq, trim_start_from, white_len,
}
use camouflage.Ansi.{chars}
use camouflage.Blocks.{one_of}
use camouflage.Shell.{
  shell_explore_kind, best_kind, strip_prompt, segment_kind, base_name, command_kind, drop_prefixes,
  git_command, git_kind, git_reads, git_sub_kind, is_env_assignment, trim_ellipsis, words_kind,
}
use camouflage.Shell.Tools.{folder, file, rank}
use camouflage.Shell.Scan.{
  shell_segments, segments_from, segment_step, segment_bare, strip_dev_null, strip_all,
  has_unquoted, unquoted_from, is_found, unquoted_next, word_bare, word_step, words, words_from,
}

abbrev listing : Str
listing = utf8 "ls"

listing-kind : shell_explore_kind listing ≡ some folder
unfolding shell_explore_kind best_kind shell_segments segments_from strip_prompt strip_prefix
    trim_start utf8 segment_step segment_bare is_blank segment_kind find_str strip_dev_null
    strip_all replace_str has_unquoted unquoted_from chars one_of base_name command_kind
    drop_prefixes git_command git_kind git_reads git_sub_kind is_env_assignment is_found rank
    trim_ellipsis unquoted_next word_bare word_step words words_from words_kind ends_with
    replace_from rfind_str starts_with str_eq trim_start_from white_len
listing-kind = refl

-- A flag that hides `-i` behind another letter.
in_place : shell_explore_kind (utf8 "sed -Ei x f") ≡ some file
unfolding shell_explore_kind best_kind shell_segments segments_from strip_prompt strip_prefix
    trim_start utf8 segment_step segment_bare is_blank segment_kind find_str strip_dev_null
    strip_all replace_str has_unquoted unquoted_from chars one_of base_name command_kind
    drop_prefixes git_command git_kind git_reads git_sub_kind is_env_assignment is_found rank
    trim_ellipsis unquoted_next word_bare word_step words words_from words_kind ends_with
    replace_from rfind_str starts_with str_eq trim_start_from white_len
in_place = refl
