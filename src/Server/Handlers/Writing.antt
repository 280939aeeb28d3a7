-- ===== src/Server/Handlers/Writing.antt =====
-- internal/mcpserver/tools.go: the handlers that change files.
pub mod Permitted
use go_core_mcp.Prelude.{
  ℕ, Bool, true, false, not, ◌&&◌, none, Bytes, lit, bytes_eq, ltb, if◌then◌else◌, length,
}
use go_core_mcp.Prelude.Int.{pos}
use go_core_mcp.Outcome.{Outcome, ok, err, panic, reject_if}
use go_core_mcp.Exec.{pure, ◌>>=◌, ◌>>◌}
use go_core_mcp.Json.{Fields, str, int, bool, end, field}
use go_core_mcp.Protocol.{invalid_arguments, workspace_violation, permission_denied, tool_error}
use go_core_mcp.Server.{ToolError}
use go_core_mcp.Server.Workspace.{
  Inspection, found, absent, hidden, directory, regular, other, Reading, contents, not_readable,
  not_opened, not_read, fail, resolve_path, resolve_touch_path, is_directory, require_string,
  optional_bool,
}
use go_core_mcp.Server.Calls.{Payload}
use go_core_mcp.Server.Machine.{
  Machine, Handler, Reply, Mode, appending, truncating, create, set_times, make_directory, remove,
  write_text, copy_into, rename, check, view, perform,
}

-- 1 << 20
abbrev pub max_copy_bytes : ℕ
max_copy_bytes = 1048576

abbrev shown : Bytes → Fields → Payload
shown output metadata = record {
  output = output;
  truncated = false;
  metadata = metadata;
  result = none;
}

abbrev path_metadata : Bytes → Fields
path_metadata relative = field (lit "path") (str relative) end

abbrev move_metadata : Bytes → Bytes → Fields
move_metadata source destination =
    field (lit "source") (str source) (field (lit "destination") (str destination) end)

touched : Reply → Outcome ToolError (Unit {0})
touched Reply.done = ok tt
touched Reply.incomplete = err (fail tool_error (lit "file could not be touched"))
touched _ = err (fail permission_denied (lit "file could not be touched"))

-- A call whose every error is reported in one way.
must : ToolError → Reply → Outcome ToolError (Unit {0})
must e Reply.done = ok tt
must e _ = err e

made : Reply → Outcome ToolError (Unit {0})
made Reply.done = ok tt
made Reply.exists = err (fail invalid_arguments (lit "path already exists"))
made _ = err (fail tool_error (lit "directory could not be created"))

-- The source of a copy: a regular file that is not too large.
is_source : Inspection → Outcome ToolError (Unit {0})
is_source (found regular n) =
    reject_if (ltb max_copy_bytes n)
      (fail invalid_arguments (lit "source must be a regular file no larger than 1 MiB"))
is_source _ =
    err (fail invalid_arguments (lit "source must be a regular file no larger than 1 MiB"))

abbrev is_found : Inspection → Bool
is_found (found k n) = true
is_found absent = false
is_found hidden = false

-- os.Open of the source
opened : Reading → Outcome ToolError (Unit {0})
opened (contents text) = ok tt
opened not_read = ok tt
opened not_readable = err (fail tool_error (lit "source could not be read"))
opened not_opened = err (fail tool_error (lit "source could not be read"))

copied : Reply → Outcome ToolError (Unit {0})
copied Reply.done = ok tt
copied Reply.incomplete = err (fail tool_error (lit "file could not be copied"))
copied _ = err (fail tool_error (lit "destination could not be written"))

-- `err != nil || path == s.workspace`, with one error for both
not_root : Bytes → ToolError → Outcome ToolError Bytes → Outcome ToolError Bytes
unfolding bytes_eq
not_root workspace e (ok path) = if bytes_eq path workspace then err e else ok path
not_root workspace e (err x) = err e
not_root workspace e panic = panic

is_removable : Inspection → Outcome ToolError (Unit {0})
is_removable (found regular n) = ok tt
is_removable _ = err (fail invalid_arguments (lit "path is not a regular file"))

-- What stands at the path of a write.
may_write : Bool → Bool → Inspection → Outcome ToolError (Unit {0})
may_write append overwrite (found directory n) =
    err (fail invalid_arguments (lit "path is a directory, not a file"))
may_write append overwrite (found other n) =
    err (fail invalid_arguments (lit "path is not a regular file"))
may_write append overwrite (found regular n) =
    reject_if (not append && not overwrite)
      (fail invalid_arguments (lit "file exists; set overwrite or append explicitly"))
may_write append overwrite absent = ok tt
may_write append overwrite hidden = err (fail tool_error (lit "path could not be inspected"))

written : Reply → Outcome ToolError (Unit {0})
written Reply.done = ok tt
written Reply.denied = err (fail permission_denied (lit "file could not be written"))
written _ = err (fail tool_error (lit "file could not be written"))

write_mode : Bool → Mode
write_mode true = appending
write_mode false = truncating

module _ {W : Type 0} (m : Machine W) where
  -- `runTouch`
  unfoldable pub run_touch : Fields → Handler W Payload
  unfolding touched must
  run_touch arguments = do
    relative ← check (require_string arguments (lit "path"))
    files ← view m
    path ← check (resolve_touch_path files m.workspace relative)
    opened ← perform m (create path)
    check (touched opened)
    stamped ← perform m (set_times path)
    check (must (fail tool_error (lit "file timestamp could not be updated")) stamped)
    pure (shown relative (path_metadata relative))

  -- `runMkdir`
  unfoldable pub run_mkdir : Fields → Handler W Payload
  unfolding made
  run_mkdir arguments = do
    relative ← check (require_string arguments (lit "path"))
    files ← view m
    path ← check (resolve_touch_path files m.workspace relative)
    reply ← perform m (make_directory path)
    check (made reply)
    pure (shown relative (path_metadata relative))

  -- `runCopy`
  unfoldable pub run_copy : Fields → Handler W Payload
  unfolding is_source opened copied bytes_eq
  run_copy arguments = do
    source ← check (require_string arguments (lit "source"))
    destination ← check (require_string arguments (lit "destination"))
    files ← view m
    source_path ← check (resolve_path files m.workspace source)
    check (is_source (files.stat source_path))
    destination_path ← check (resolve_touch_path files m.workspace destination)
    check (
        reject_if (bytes_eq source_path destination_path)
          (fail invalid_arguments (lit "source and destination must differ")))
    check (
        reject_if
          (is_found (files.stat destination_path)
            && not (optional_bool arguments (lit "overwrite")))
          (fail invalid_arguments (lit "destination already exists; set overwrite to replace it")))
    check (opened (files.read source_path))
    reply ← perform m (copy_into destination_path (files.read source_path))
    check (copied reply)
    pure (shown destination (move_metadata source destination))

  -- `runMove`
  unfoldable pub run_move : Fields → Handler W Payload
  unfolding not_root must
  run_move arguments = do
    source ← check (require_string arguments (lit "source"))
    destination ← check (require_string arguments (lit "destination"))
    files ← view m
    source_path ← check (
        not_root m.workspace (fail workspace_violation (lit "source path is not allowed"))
          (resolve_path files m.workspace source))
    destination_path ← check (resolve_touch_path files m.workspace destination)
    check (
        reject_if
          (is_found (files.lstat destination_path)
            && not (optional_bool arguments (lit "overwrite")))
          (fail invalid_arguments (lit "destination already exists; set overwrite to replace it")))
    reply ← perform m (rename source_path destination_path)
    check (must (fail tool_error (lit "path could not be moved")) reply)
    pure (shown destination (move_metadata source destination))

  -- `runRemove`
  unfoldable pub run_remove : Fields → Handler W Payload
  unfolding not_root is_removable must
  run_remove arguments = do
    relative ← check (require_string arguments (lit "path"))
    files ← view m
    path ← check (
        not_root m.workspace (fail workspace_violation (lit "path is not allowed"))
          (resolve_path files m.workspace relative))
    check (is_removable (files.lstat path))
    reply ← perform m (remove path)
    check (must (fail tool_error (lit "file could not be removed")) reply)
    pure (shown relative (path_metadata relative))

  -- `runRemoveDirectory`
  unfoldable pub run_remove_directory : Fields → Handler W Payload
  unfolding not_root must
  run_remove_directory arguments = do
    relative ← check (require_string arguments (lit "path"))
    files ← view m
    path ← check (
        not_root m.workspace (fail workspace_violation (lit "path is not allowed"))
          (resolve_path files m.workspace relative))
    check (
        reject_if (not (is_directory (files.stat path)))
          (fail invalid_arguments (lit "path is not a directory")))
    reply ← perform m (remove path)
    check (must (fail invalid_arguments (lit "directory must be empty")) reply)
    pure (shown relative (path_metadata relative))

  -- `runWriteFile`
  unfoldable pub run_write_file : Fields → Handler W Payload
  unfolding may_write written write_mode
  run_write_file arguments = do
    relative ← check (require_string arguments (lit "path"))
    content ← check (require_string arguments (lit "content"))
    check (
        reject_if (ltb m.limits.max_file_write_bytes (length content))
          (fail invalid_arguments (lit "content exceeds the allowed size")))
    let append = optional_bool arguments (lit "append")
    let overwrite = optional_bool arguments (lit "overwrite")
    check (
        reject_if (append && overwrite)
          (fail invalid_arguments (lit "set only one of overwrite or append")))
    files ← view m
    path ← check (resolve_touch_path files m.workspace relative)
    check (may_write append overwrite (files.lstat path))
    reply ← perform m (write_text path (write_mode append) content)
    check (written reply)
    pure (
        shown relative (
          field (lit "path") (str relative) (
            field (lit "bytes") (int (pos (length content)))
              (field (lit "append") (bool append) (field (lit "overwrite") (bool overwrite) end)))))
