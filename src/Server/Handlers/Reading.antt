-- ===== src/Server/Handlers/Reading.antt =====
-- internal/mcpserver/tools.go: the handlers that read files, or the clock.
use go_core_mcp.Prelude.{
  ℕ, Bool, true, false, not, ◌||◌, ◌==◌, Option, none, some, List, [], ◌∷◌, ◌++◌, Bytes, lit,
  bytes_lt, ltb, if◌then◌else◌, length, take,
}
use go_core_mcp.Prelude.Int.{ℤ, pos, ltb_ℤ}
use go_core_mcp.Outcome.{Outcome, ok, err, reject_if, map_err}
use go_core_mcp.Exec.{pure, ◌>>=◌, ◌>>◌}
use go_core_mcp.Json.{Value, Fields, str, int, end, field, has}
use go_core_mcp.Protocol.{invalid_arguments, permission_denied, tool_error, result_too_large}
use go_core_mcp.Strings.Numbers.{itoa}
use go_core_mcp.Strings.Paths.{base, dot}
use go_core_mcp.Coreutils.Lines.{split_lines, join_lines, clamp_lines, clamp}
use go_core_mcp.Coreutils.Text.{head, tail, word_count}
use go_core_mcp.Coreutils.Search.{Match, grep}
use go_core_mcp.Server.{ToolError}
use go_core_mcp.Server.Workspace.{
  Inspection, found, absent, hidden, directory, regular, other, Reading, contents, not_readable,
  not_opened, not_read, fail, resolve_path, read_file, require_text, require_string, optional_bool,
  optional_int, optional_string,
}
use go_core_mcp.Server.Calls.{Payload}
use go_core_mcp.Server.Machine.{Machine, Handler, check, view, look}

abbrev payload_of : Bytes → Bool → Fields → Payload
payload_of output truncated metadata = record {
  output = output;
  truncated = truncated;
  metadata = metadata;
  result = none;
}

abbrev count_value : ℕ → Value
count_value n = int (pos n)

abbrev pub or_dot : Bytes → Bytes
or_dot [] = dot
or_dot (c ∷ s) = c ∷ s

listed : Option (List (Bytes × Bool)) → Outcome ToolError (List (Bytes × Bool))
listed none = err (fail tool_error (lit "directory could not be listed"))
listed (some entries) = ok entries

-- A directory is shown with a slash.
entry_names : List (Bytes × Bool) → List Bytes
entry_names [] = []
entry_names ((name, is_dir) ∷ entries) =
    let rest = entry_names entries in if is_dir then (name ++ lit "/") ∷ rest else name ∷ rest

-- 1 << 20
abbrev max_hash_bytes : ℕ
max_hash_bytes = 1048576

is_hashable : Inspection → Outcome ToolError (Unit {0})
is_hashable (found regular n) =
    reject_if (ltb max_hash_bytes n)
      (fail result_too_large (lit "file is too large to hash within the execution budget"))
is_hashable (found directory n) = err (fail invalid_arguments (lit "path is not a regular file"))
is_hashable (found other n) = err (fail invalid_arguments (lit "path is not a regular file"))
is_hashable absent = err (fail tool_error (lit "file could not be inspected"))
is_hashable hidden = err (fail tool_error (lit "file could not be inspected"))

whole_file : Reading → Outcome ToolError Bytes
whole_file (contents text) = ok text
whole_file not_readable = err (fail permission_denied (lit "file is not readable"))
whole_file not_opened = err (fail tool_error (lit "file could not be read"))
whole_file not_read = err (fail tool_error (lit "file could not be read"))

match_lines : List Match → List Bytes
match_lines [] = []
match_lines (x ∷ xs) = (itoa x.line ++ (lit ":" ++ x.text)) ∷ match_lines xs

lines_metadata : Bytes → ℤ → Fields
lines_metadata path count = field (lit "path") (str path) (field (lit "lines") (int count) end)

module _ {W : Type 0} (m : Machine W) where
  -- `runPwd`
  unfoldable pub run_pwd : Fields → Handler W Payload
  run_pwd arguments =
      let logical = lit "/" ++ base m.workspace in
      pure (
        payload_of logical false
          (field (lit "workspace") (str logical) (field (lit "relative_root") (str dot) end)))

  -- `runLS`
  unfoldable pub run_ls : Fields → Handler W Payload
  unfolding listed entry_names bytes_lt
  run_ls arguments = do
    files ← view m
    path ← check (resolve_path files m.workspace (or_dot (optional_string arguments (lit "path"))))
    reply ← look m (λ w. m.disk.list w path)
    all ← check (listed reply)
    let entries = take 200 all
    pure (
        payload_of (join_lines (m.sorter.run bytes_lt (entry_names entries)))
          (length entries == 200) end)

  -- `runDate`
  unfoldable pub run_date : Fields → Handler W Payload
  run_date arguments = do
    text ← look m (λ w. m.now w (optional_bool arguments (lit "utc")))
    pure (payload_of text false (field (lit "format") (str (lit "RFC3339")) end))

  -- `runCat`
  unfoldable pub run_cat : Fields → Handler W Payload
  run_cat arguments = do
    path ← check (require_string arguments (lit "path"))
    let limit = optional_int m.floats arguments (lit "max_bytes") (pos m.limits.max_file_read_bytes)
    files ← view m
    (content, truncated) ← check (read_file files m.workspace m.limits path limit)
    let (lines, clamped) = clamp_lines (split_lines content)
    let (output, cut) = clamp (join_lines lines) limit
    pure (
        payload_of output (truncated || clamped || cut)
          (field (lit "path") (str path) (field (lit "bytes") (count_value (length content)) end)))

  -- The part that `runHead` and `runTail` share.
  unfoldable pub lines_with : (Bytes → ℤ → Bytes × Bool) → Fields → Handler W Payload
  unfolding lines_metadata
  lines_with select arguments = do
    path ← check (require_string arguments (lit "path"))
    let count = optional_int m.floats arguments (lit "lines") (pos 20)
    files ← view m
    (content, truncated) ←
        check (read_file files m.workspace m.limits path (pos m.limits.max_file_read_bytes))
    let (output, cut) = select content count
    pure (payload_of output (truncated || cut) (lines_metadata path count))

  -- `runHead` and `runTail`
  unfoldable pub run_head : Fields → Handler W Payload
  unfolding lines_with
  run_head arguments = lines_with head arguments

  unfoldable pub run_tail : Fields → Handler W Payload
  unfolding lines_with
  run_tail arguments = lines_with tail arguments

  -- The text of `path` or `text`, exactly one of which is given, and whether it was cut.
  unfoldable pub path_text : Fields → Handler W (Bytes × Bytes × Bool)
  path_text arguments = do
    path ← check (require_string arguments (lit "path"))
    files ← view m
    (content, truncated) ←
        check (read_file files m.workspace m.limits path (pos m.limits.max_file_read_bytes))
    pure (path, content, truncated)

  unfoldable pub given_text : Fields → Handler W (Bytes × Bytes × Bool)
  given_text arguments = do
    text ← check (require_text m.limits arguments (lit "text"))
    pure ([], text, false)

  unfoldable pub text_from : Fields → Handler W (Bytes × Bytes × Bool)
  unfolding path_text given_text
  text_from arguments =
      if has (lit "path") arguments then path_text arguments else given_text arguments

  same_flag : Bool → Bool → Bool
  same_flag true b = b
  same_flag false b = not b

  one_of_two : Fields → Outcome ToolError (Unit {0})
  unfolding same_flag
  one_of_two arguments =
      reject_if (same_flag (has (lit "path") arguments) (has (lit "text") arguments))
        (fail invalid_arguments (lit "provide exactly one of \"path\" or \"text\""))

  -- `runWC`
  unfoldable pub run_wc : Fields → Handler W Payload
  unfolding one_of_two text_from
  run_wc arguments = do
    check (one_of_two arguments)
    (path, content, truncated) ← text_from arguments
    let counts = word_count content
    pure (
        payload_of
          (itoa counts.lines
            ++ (lit " lines "
                ++ (itoa counts.words ++ (lit " words " ++ (itoa counts.bytes ++ lit " bytes")))))
          truncated
          (field (lit "lines") (count_value counts.lines) (
            field (lit "words") (count_value counts.words)
              (field (lit "bytes") (count_value counts.bytes) end))))

  -- `runGrep`
  unfoldable pub run_grep : Fields → Handler W Payload
  unfolding one_of_two text_from match_lines
  run_grep arguments = do
    check (one_of_two arguments)
    pattern ← check (require_string arguments (lit "pattern"))
    let most = pos m.limits.max_grep_matches
    let asked = optional_int m.floats arguments (lit "max_matches") most
    (path, content, truncated) ← text_from arguments
    (matches, cut) ← check (
        map_err (λ e. fail invalid_arguments (m.grep_message e))
          (grep m.matching content (record {
            pattern = pattern;
            ignore_case = optional_bool arguments (lit "ignore_case");
            fixed_text = optional_bool arguments (lit "fixed");
            max_matches = if ltb_ℤ most asked then most else asked;
          })))
    pure (
        payload_of (join_lines (match_lines matches)) (truncated || cut) (
          field (lit "path") (str path) (
            field (lit "source")
              (str (if has (lit "path") arguments then lit "path" else lit "text"))
              (field (lit "matches") (count_value (length matches)) end))))

  -- `runSha256Sum`
  unfoldable pub run_sha256_sum : Fields → Handler W Payload
  unfolding is_hashable whole_file
  run_sha256_sum arguments = do
    relative ← check (require_string arguments (lit "path"))
    files ← view m
    path ← check (resolve_path files m.workspace relative)
    check (is_hashable (files.lstat path))
    content ← check (whole_file (files.read path))
    pure (
        payload_of (m.sha256 content) false (
          field (lit "path") (str relative)
            (field (lit "bytes") (count_value (length content)) end)))
