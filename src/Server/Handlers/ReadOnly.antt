-- ===== src/Server/Handlers/ReadOnly.antt =====
-- internal/mcpserver/tools.go: the handlers that change nothing.
use go_core_mcp.Prelude.{refl}
use go_core_mcp.Coreutils.Text.{head, tail}
use go_core_mcp.Json.{Fields}
use go_core_mcp.Server.Machine.{Machine}
use go_core_mcp.Server.Machine.Quiet.{Quiet, quiet_rules}
use go_core_mcp.Server.Handlers.Reading.{
  run_pwd, run_ls, run_cat, run_head, run_tail, run_grep, lines_with, text_from, path_text,
  given_text,
}
use go_core_mcp.Server.Handlers.Finding.{run_find}
use go_core_mcp.Server.Handlers.Texts.{run_coreutils, run_command}

module _ {W : Type 0} (m : Machine W) where
  pub run_pwd-Quiet : (arguments : Fields) → Quiet (run_pwd m arguments)
  unfolding run_pwd
  run_pwd-Quiet arguments = search quiet_rules

  pub run_ls-Quiet : (arguments : Fields) → Quiet (run_ls m arguments)
  unfolding run_ls
  run_ls-Quiet arguments = search quiet_rules

  pub run_cat-Quiet : (arguments : Fields) → Quiet (run_cat m arguments)
  unfolding run_cat
  run_cat-Quiet arguments = search quiet_rules

  lines_with-Quiet : (select : _) (arguments : Fields) → Quiet (lines_with m select arguments)
  unfolding lines_with
  lines_with-Quiet select arguments = search quiet_rules

  pub run_head-Quiet : (arguments : Fields) → Quiet (run_head m arguments)
  unfolding run_head
  run_head-Quiet arguments = lines_with-Quiet head arguments

  pub run_tail-Quiet : (arguments : Fields) → Quiet (run_tail m arguments)
  unfolding run_tail
  run_tail-Quiet arguments = lines_with-Quiet tail arguments

  text_from-Quiet : (arguments : Fields) → Quiet (text_from m arguments)
  unfolding text_from path_text given_text
  text_from-Quiet arguments = search quiet_rules

  pub run_grep-Quiet : (arguments : Fields) → Quiet (run_grep m arguments)
  unfolding run_grep
  run_grep-Quiet arguments = search (quiet_rules, text_from-Quiet)

  pub run_find-Quiet : (arguments : Fields) → Quiet (run_find m arguments)
  unfolding run_find
  run_find-Quiet arguments = search quiet_rules depth 12

  run_command-Quiet : (command : _) (args stdin : _) → Quiet (run_command m command args stdin)
  unfolding run_command
  run_command-Quiet command args stdin = record { same = λ h. refl }

  pub run_coreutils-Quiet : (arguments : Fields) → Quiet (run_coreutils m arguments)
  unfolding run_coreutils
  run_coreutils-Quiet arguments = search (quiet_rules, run_command-Quiet) depth 12
