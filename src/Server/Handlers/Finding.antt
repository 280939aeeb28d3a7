-- ===== src/Server/Handlers/Finding.antt =====
-- internal/mcpserver/tools.go: `runFind`, over the entries that filepath.WalkDir visits.
pub mod Exact
use go_core_mcp.Prelude.{
  ℕ, ◌+◌, Bool, true, false, not, Option, none, some, List, [], ◌∷◌, ◌++◌, Bytes, lit, bytes_eq,
  if◌then◌else◌, length,
}
use go_core_mcp.Prelude.Int.{ℤ, pos, negsuc, ltb_ℤ, leb_ℤ}
use go_core_mcp.Outcome.{Outcome, ok, err, panic, reject_if}
use go_core_mcp.Exec.{pure, ◌>>=◌, ◌>>◌}
use go_core_mcp.Json.{Fields, str, int, end, field}
use go_core_mcp.Protocol.{invalid_arguments, workspace_violation, tool_error}
use go_core_mcp.Strings.{strip_prefix, contains, trim_space}
use go_core_mcp.Strings.Paths.{slash, dot}
use go_core_mcp.Coreutils.Lines.{join_lines}
use go_core_mcp.Server.{ToolError}
use go_core_mcp.Server.Workspace.{
  Kind, directory, other, fail, inside, is_directory, resolve_path, require_string, optional_bool,
  optional_int, optional_string,
}
use go_core_mcp.Server.Calls.{Payload}
use go_core_mcp.Server.Machine.{Machine, Handler, Visit, broken, entry, check, view, look}
use go_core_mcp.Server.Handlers.Reading.{or_dot}

-- filepath.Rel of a path inside the workspace, both cleaned: `relativePath`
unfoldable pub relative_path : Bytes → Bytes → Bytes
relative_path workspace path = elim (strip_prefix (workspace ++ slash) path) [
  | some r ↦ r
  | none ↦ dot
]

glob_result : Option Bool → Outcome ToolError Bool
glob_result none = err (fail invalid_arguments (lit "glob pattern is invalid"))
glob_result (some b) = ok b

-- The variables of the search.
pub record Found : Type 0 where
  pub lines : List Bytes
  pub file_count : ℕ
  pub directory_count : ℕ

abbrev pub nothing_found : Found
nothing_found = record { lines = []; file_count = 0; directory_count = 0 }

-- What the callback answers: to go on, or that the limit is reached.
pub data Progress : Type 0 where
  going full : Found → Progress

abbrev pub mode_or : Bytes → Bytes
mode_or [] = lit "substring"
mode_or (c ∷ s) = c ∷ s

-- make([]string, 0, maxResults) with a negative capacity
room_for : ℤ → Outcome ToolError (Unit {0})
room_for (pos n) = ok tt
room_for (negsuc n) = panic

module _ {W : Type 0} (m : Machine W) where
  -- `findNameMatches`
  unfoldable pub find_name_matches : Bytes → Bytes → Bytes → Bool → Outcome ToolError Bool
  unfolding glob_result bytes_eq
  find_name_matches candidate name mode ignore_case =
      let left = if ignore_case then m.matching.to_lower candidate else candidate in
      let right = if ignore_case then m.matching.to_lower name else name in
      if bytes_eq mode (lit "substring")
      then ok (contains left right)
      else if bytes_eq mode (lit "glob")
      then glob_result (m.glob right left)
      else err (fail invalid_arguments (lit "\"match_mode\" must be \"substring\" or \"glob\""))

  -- The entry goes into the result: a directory with a slash.
  add_entry : Kind → Bytes → Found → Found
  add_entry directory path f = record {
    lines = f.lines ++ (path ++ slash) ∷ [];
    file_count = f.file_count;
    directory_count = f.directory_count + 1;
  }
  add_entry k path f = record {
    lines = f.lines ++ path ∷ [];
    file_count = f.file_count + 1;
    directory_count = f.directory_count;
  }

  progress : ℤ → Found → Progress
  progress most f = if leb_ℤ most (pos (length f.lines)) then full f else going f

  add_if : ℤ → Kind → Bytes → Found → Bool → Progress
  unfolding add_entry progress
  add_if most k path f false = going f
  add_if most k path f true = progress most (add_entry k (relative_path m.workspace path) f)

  by_kind : Outcome ToolError Bool → ℤ → Kind → Bytes → Found → Outcome ToolError Progress
  unfolding add_if
  by_kind matched most other path f = ok (going f)
  by_kind (ok b) most k path f = ok (add_if most k path f b)
  by_kind (err e) most k path f = err e
  by_kind panic most k path f = panic

  -- The callback of filepath.WalkDir.
  visit : Bytes → (Bytes → Outcome ToolError Bool) → ℤ → Visit → Found → Outcome ToolError Progress
  unfolding by_kind bytes_eq
  visit root matches most broken f = err (fail tool_error (lit "path could not be searched"))
  visit root matches most (entry path name k) f =
      if bytes_eq path root
      then ok (going f)
      else if not (inside m.workspace path)
      then err (fail workspace_violation (lit "path escapes the workspace"))
      else by_kind (matches name) most k path f

  walk_on :
      (Found → Outcome ToolError (Found × Bool))
      → Outcome ToolError Progress
      → Outcome ToolError (Found × Bool)
  walk_on rest (ok (going f)) = rest f
  walk_on rest (ok (full f)) = ok (f, true)
  walk_on rest (err e) = err e
  walk_on rest panic = panic

  unfoldable pub walk :
      Bytes
      → (Bytes → Outcome ToolError Bool)
      → ℤ
      → List Visit
      → Found
      → Outcome ToolError (Found × Bool)
  unfolding visit walk_on
  walk root matches most [] f = ok (f, false)
  walk root matches most (v ∷ visits) f =
      walk_on (λ g. walk root matches most visits g) (visit root matches most v f)

  -- `runFind`
  unfoldable pub run_find : Fields → Handler W Payload
  unfolding room_for
  run_find arguments = do
    name ← check (require_string arguments (lit "name"))
    check (
        reject_if (bytes_eq (trim_space name) [])
          (fail invalid_arguments (lit "\"name\" must not be empty")))
    let relative = or_dot (optional_string arguments (lit "path"))
    let mode = mode_or (optional_string arguments (lit "match_mode"))
    let ignore_case = optional_bool arguments (lit "ignore_case")
    let limit = pos m.limits.max_find_results
    let asked = optional_int m.floats arguments (lit "max_results") limit
    let most = if ltb_ℤ limit asked then limit else asked
    files ← view m
    root ← check (resolve_path files m.workspace relative)
    check (
        reject_if (not (is_directory (files.stat root)))
          (fail invalid_arguments (lit "path is not a directory")))
    check (room_for most)
    visits ← look m (λ w. m.disk.walk w root)
    (f, truncated) ←
        check (walk root (λ n. find_name_matches n name mode ignore_case) most visits nothing_found)
    pure (record {
      output = join_lines f.lines;
      truncated = truncated;
      metadata = field (lit "path") (str relative) (
          field (lit "name") (str name) (
            field (lit "match_mode") (str mode) (
              field (lit "files") (int (pos f.file_count)) (
                field (lit "directories") (int (pos f.directory_count))
                  (field (lit "matches") (int (pos (length f.lines))) end)))));
      result = none;
    })
