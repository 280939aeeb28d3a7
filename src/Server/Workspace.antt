-- ===== src/Server/Workspace.antt =====
-- internal/mcpserver/workspace.go: paths below the workspace, and the reading of files. The file
-- system is seen through the calls that the code makes, all of them at one moment.
pub mod Laws
use go_core_mcp.Prelude.{
  ℕ, Bool, true, false, not, ◌&&◌, ◌||◌, Option, none, some, [], ◌∷◌, ◌++◌, Bytes, lit, bytes_eq,
  ltb, leb, if◌then◌else◌, length, take,
}
use go_core_mcp.Prelude.Int.{ℤ, pos, negsuc}
use go_core_mcp.Outcome.{Outcome, ok, err, panic, reject_if, ◌>>=◌, ◌>>◌}
use go_core_mcp.Strings.{has_prefix, contains_byte, trim_space}
use go_core_mcp.Strings.Paths.{is_abs, clean, join_path, base, dir, slash, dot, dot_dot}
use go_core_mcp.Floats.{Floats}
use go_core_mcp.Json.{Value, Fields, get, as_string, as_bool}
use go_core_mcp.Schema.{to_number}
use go_core_mcp.Protocol.{
  Category, invalid_arguments, workspace_violation, permission_denied, tool_error,
}
use go_core_mcp.Server.{ToolError, Limits}

-- What filepath.EvalSymlinks says of a path.
pub data Resolution : Type 0 where
  resolved : Bytes → Resolution
  missing forbidden unresolvable : Resolution

pub data Kind : Type 0 where
  directory regular other : Kind

-- What os.Stat and os.Lstat say of a path: its kind and its size, or why they say nothing.
pub data Inspection : Type 0 where
  found : Kind → ℕ → Inspection
  absent hidden : Inspection

-- Opening a file and reading it: its bytes, or the call that fails.
pub data Reading : Type 0 where
  contents : Bytes → Reading
  not_readable not_opened not_read : Reading

-- The file system; os.Stat follows a symbolic link, os.Lstat does not.
pub record Files : Type 0 where
  pub eval_symlinks : Bytes → Resolution
  pub stat : Bytes → Inspection
  pub lstat : Bytes → Inspection
  pub read : Bytes → Reading

-- The test `err != nil || !info.IsDir()`, negated.
unfoldable pub is_directory : Inspection → Bool
is_directory (found directory n) = true
is_directory _ = false

abbrev pub fail : Category → Bytes → ToolError
fail category message = record { category = category; message = message }

abbrev pub missing_path : Bytes
missing_path = lit "path does not exist"

-- `inside`
unfoldable pub inside : Bytes → Bytes → Bool
unfolding bytes_eq
inside workspace path = bytes_eq path workspace || has_prefix path (workspace ++ slash)

unfoldable pub resolution : Resolution → Outcome ToolError Bytes
resolution (resolved path) = ok path
resolution missing = err (fail tool_error missing_path)
resolution forbidden = err (fail permission_denied (lit "path is not accessible"))
resolution unresolvable =
    err (fail workspace_violation (lit "path could not be resolved inside the workspace"))

-- A cleaned path that leaves the directory it is taken from.
unfoldable pub escapes : Bytes → Bool
unfolding bytes_eq
escapes cleaned = bytes_eq cleaned dot_dot || has_prefix cleaned (dot_dot ++ slash)

-- `Category`s are compared as the texts that they are in the code.
is_tool_error : Category → Bool
is_tool_error tool_error = true
is_tool_error _ = false

is_missing : ToolError → Bool
unfolding is_tool_error bytes_eq
is_missing e = is_tool_error e.category && bytes_eq e.message missing_path

module _ (files : Files) (workspace : Bytes) where
  -- `resolvePath`
  unfoldable pub resolve_path : Bytes → Outcome ToolError Bytes
  unfolding bytes_eq
  resolve_path relative = do
    reject_if (bytes_eq (trim_space relative) [])
        (fail invalid_arguments (lit "path must not be empty"))
    reject_if (contains_byte relative 0)
        (fail invalid_arguments (lit "path contains an invalid character"))
    reject_if (is_abs relative || has_prefix relative slash || has_prefix relative (92 ∷ [])) (
        fail workspace_violation
          (lit "absolute paths are not allowed; use workspace-relative paths"))
    let cleaned = clean relative
    reject_if (escapes cleaned) (fail workspace_violation (lit "path escapes the workspace"))
    let joined = clean (join_path workspace cleaned)
    reject_if (not (inside workspace joined))
        (fail workspace_violation (lit "path escapes the workspace"))
    path ← resolution (files.eval_symlinks joined)
    reject_if (not (inside workspace path))
        (fail workspace_violation (lit "path resolves outside the workspace"))
    ok path

  -- What `resolveTouchPath` does after `resolvePath`: a path that does not exist is taken from its
  -- directory.
  touch_after : Bytes → Outcome ToolError Bytes → Outcome ToolError Bytes
  unfolding bytes_eq is_missing
  touch_after relative (ok path) = ok path
  touch_after relative panic = panic
  touch_after relative (err e) = do
    reject_if (not (is_missing e)) e
    reject_if (bytes_eq (trim_space relative) [] || contains_byte relative 0 || is_abs relative)
        (fail workspace_violation (lit "path is not allowed"))
    let cleaned = clean relative
    reject_if (bytes_eq cleaned dot || escapes cleaned)
        (fail workspace_violation (lit "path escapes the workspace"))
    parent ← resolve_path (dir cleaned)
    reject_if (not (is_directory (files.stat parent)))
        (fail invalid_arguments (lit "parent directory is not available"))
    let path = join_path parent (base cleaned)
    reject_if (not (inside workspace path))
        (fail workspace_violation (lit "path escapes the workspace"))
    ok path

  -- `resolveTouchPath`
  unfoldable pub resolve_touch_path : Bytes → Outcome ToolError Bytes
  unfolding touch_after
  resolve_touch_path relative = touch_after relative (resolve_path relative)

  is_file : Inspection → Outcome ToolError (Unit {0})
  is_file absent = err (fail tool_error (lit "file could not be inspected"))
  is_file hidden = err (fail tool_error (lit "file could not be inspected"))
  is_file (found directory n) = err (fail invalid_arguments (lit "path is a directory, not a file"))
  is_file (found other n) = err (fail invalid_arguments (lit "path is not a regular file"))
  is_file (found regular n) = ok tt

  read_all : Reading → Outcome ToolError Bytes
  read_all (contents text) = ok text
  read_all not_readable = err (fail permission_denied (lit "file is not readable"))
  read_all not_opened = err (fail tool_error (lit "file could not be opened"))
  read_all not_read = err (fail tool_error (lit "file could not be read"))

  -- The limit of a read: what was asked for, unless that is not positive or too large.
  read_limit : ℕ → ℤ → ℕ
  read_limit most (negsuc n) = most
  read_limit most (pos n) = if leb n 0 || ltb most n then most else n

  -- `readFile`
  unfoldable pub read_file : Limits → Bytes → ℤ → Outcome ToolError (Bytes × Bool)
  unfolding is_file read_all read_limit
  read_file limits relative limit = do
    path ← resolve_path relative
    is_file (files.lstat path)
    text ← read_all (files.read path)
    let bound = read_limit limits.max_file_read_bytes limit
    ok (take bound text, ltb bound (length text))

-- fmt's %q on a key of the program, which holds nothing to escape.
abbrev pub quoted : Bytes → Bytes
quoted key = lit "\"" ++ (key ++ lit "\"")

not_string : Bytes → ToolError
not_string key = fail invalid_arguments (quoted key ++ lit " must be a string")

text_within : ℕ → Bytes → Option Bytes → Outcome ToolError Bytes
unfolding not_string
text_within most key none = err (not_string key)
text_within most key (some text) =
    if ltb most (length text)
    then err (fail invalid_arguments (lit "input text exceeds the allowed size"))
    else ok text

-- `requireText`
unfoldable pub require_text : Limits → Fields → Bytes → Outcome ToolError Bytes
unfolding text_within
require_text limits arguments key =
    text_within limits.max_file_read_bytes key (as_string (get key arguments))

string_or : Bytes → Option Bytes → Outcome ToolError Bytes
unfolding not_string
string_or key none = err (not_string key)
string_or key (some text) = ok text

-- `requireString`, `optionalBool` and `optionalInt` of internal/mcpserver/tools.go
unfoldable pub require_string : Fields → Bytes → Outcome ToolError Bytes
unfolding string_or
require_string arguments key = string_or key (as_string (get key arguments))

unfoldable pub optional_bool : Fields → Bytes → Bool
optional_bool arguments key = elim (as_bool (get key arguments)) [ some b ↦ b | none ↦ false ]

int_or : ℤ → Option ℤ → ℤ
int_or fallback none = fallback
int_or fallback (some n) = n

number_or : Floats → ℤ → Option Value → ℤ
unfolding int_or
number_or fl fallback none = fallback
number_or fl fallback (some v) = int_or fallback (to_number fl v)

unfoldable pub optional_int : Floats → Fields → Bytes → ℤ → ℤ
unfolding number_or
optional_int fl arguments key fallback = number_or fl fallback (get key arguments)

-- text, _ := arguments[key].(string)
unfoldable pub optional_string : Fields → Bytes → Bytes
optional_string arguments key = elim (as_string (get key arguments)) [ some s ↦ s | none ↦ [] ]
