-- ===== src/Server/Table.antt =====
-- internal/mcpserver/tools.go: the table of the tools. The entries of its maps are in the order of
-- the source.
use go_core_mcp.Prelude.{ℕ, false, List, [], ◌∷◌, Bytes, lit}
use go_core_mcp.Prelude.Int.{pos}
use go_core_mcp.Json.{Value, Fields, Items, bool, int, str, obj, arr, end, field, nil, cons}
use go_core_mcp.Server.Calls.{ServerTool}
use go_core_mcp.Server.Machine.{Machine, Host}
use go_core_mcp.Server.Handlers.Reading.{run_pwd, run_ls, run_cat, run_head, run_tail, run_grep}
use go_core_mcp.Server.Handlers.Finding.{run_find}
use go_core_mcp.Server.Handlers.Writing.{
  run_touch, run_write_file, run_mkdir, run_copy, run_move, run_remove, run_remove_directory,
}
use go_core_mcp.Server.Handlers.Texts.{run_coreutils}

name_items : List Bytes → Items
name_items [] = nil
name_items (n ∷ ns) = cons (str n) (name_items ns)

-- The schema, before "required" is put in.
open_object : Fields → Fields → Fields
open_object properties rest = field (lit "type") (str (lit "object")) (
    field (lit "properties") (obj properties)
      (field (lit "additionalProperties") (bool false) rest))

-- `object`
unfoldable pub object : Fields → List Bytes → Fields
unfolding open_object name_items
object properties [] = open_object properties end
object properties (n ∷ ns) =
    open_object properties (field (lit "required") (arr (name_items (n ∷ ns))) end)

-- `stringField`, `boolField`, `intField` and `pathField`
abbrev pub string_field : Bytes → ℕ → Value
string_field description max_length = obj (
    field (lit "type") (str (lit "string")) (
      field (lit "description") (str description)
        (field (lit "maxLength") (int (pos max_length)) end)))

abbrev pub bool_field : Bytes → Value
bool_field description =
    obj (field (lit "type") (str (lit "boolean")) (field (lit "description") (str description) end))

abbrev pub int_field : Bytes → ℕ → ℕ → Value
int_field description minimum maximum = obj (
    field (lit "type") (str (lit "integer")) (
      field (lit "description") (str description) (
        field (lit "minimum") (int (pos minimum)) (field (lit "maximum") (int (pos maximum)) end))))

abbrev pub path_field : Value
path_field = string_field (lit "Workspace-relative path.") 512

module _ {W : Type 0} (m : Machine W) where
  -- `definitions`
  abbrev pub definitions : List (ServerTool (Host W))
  definitions =
      record {
        name = lit "pwd";
        description =
            lit "Return the logical workspace path. This does not inspect the host filesystem.";
        schema = (object end []);
        run = run_pwd m;
      }
      ∷ record {
        name = lit "ls";
        description = lit "List entries in a workspace directory.";
        schema = (object (field (lit "path") path_field end) []);
        run = run_ls m;
      }
      ∷ record {
        name = lit "cat";
        description = lit "Print bounded workspace file content to the console output.";
        schema =
            (object
              (field (lit "path") path_field
                (field (lit "max_bytes") (int_field (lit "Maximum bytes to read.") 1 12288) end))
              (lit "path" ∷ []));
        run = run_cat m;
      }
      ∷ record {
        name = lit "head";
        description = lit "Read leading lines from a workspace file.";
        schema =
            (object
              (field (lit "path") path_field
                (field (lit "lines") (int_field (lit "Number of lines.") 1 200) end))
              (lit "path" ∷ []));
        run = run_head m;
      }
      ∷ record {
        name = lit "tail";
        description = lit "Read trailing lines from a workspace file.";
        schema =
            (object
              (field (lit "path") path_field
                (field (lit "lines") (int_field (lit "Number of lines.") 1 200) end))
              (lit "path" ∷ []));
        run = run_tail m;
      }
      ∷ record {
        name = lit "grep";
        description = lit "Search a workspace file or supplied text for matching lines.";
        schema =
            (object
              (field (lit "path") path_field (
                field (lit "text")
                  (string_field
                    (lit "Supplied UTF-8 text to search. Provide exactly one of path or text.")
                    12288)
                  (field (lit "pattern") (string_field (lit "Pattern to search for.") 256) (
                    field (lit "ignore_case") (bool_field (lit "Case-insensitive search.")) (
                      field (lit "fixed") (bool_field (lit "Treat the pattern as literal text.")) (
                        field (lit "max_matches") (int_field (lit "Maximum matches.") 1 20)
                          end))))))
              (lit "pattern" ∷ []));
        run = run_grep m;
      }
      ∷ record {
        name = lit "find";
        description =
            lit
              "Recursively find files and directories under a workspace path by name substring or glob.";
        schema =
            (object
              (field (lit "path") path_field (
                field (lit "name")
                  (string_field (lit "Name pattern to match against each entry base name.") 256)
                  (field (lit "match_mode")
                    (obj (
                      field (lit "type") (str (lit "string")) (
                        field (lit "description") (str (lit "Match mode.")) (
                          field (lit "enum")
                            (arr (cons (str (lit "substring")) (cons (str (lit "glob")) nil)))
                            end))))
                    (field (lit "ignore_case") (bool_field (lit "Case-insensitive matching.")) (
                      field (lit "max_results") (int_field (lit "Maximum number of results.") 1 200)
                        end)))))
              (lit "name" ∷ []));
        run = run_find m;
      }
      ∷ record {
        name = lit "touch";
        description = lit "Create an empty workspace file or update its modification time.";
        schema = (object (field (lit "path") path_field end) (lit "path" ∷ []));
        run = run_touch m;
      }
      ∷ record {
        name = lit "write_file";
        description =
            lit
              "Write bounded UTF-8 text to a workspace file. Existing files require overwrite:true or append:true.";
        schema =
            (object
              (field (lit "path") path_field (
                field (lit "content") (string_field (lit "UTF-8 content to write.") 65536) (
                  field (lit "overwrite")
                    (bool_field (lit "Replace an existing file (truncate before writing)."))
                    (field (lit "append")
                      (bool_field (lit "Append to an existing file instead of replacing it."))
                      end))))
              (lit "path" ∷ lit "content" ∷ []));
        run = run_write_file m;
      }
      ∷ record {
        name = lit "mkdir";
        description = lit "Create one workspace directory; parent directories must already exist.";
        schema = (object (field (lit "path") path_field end) (lit "path" ∷ []));
        run = run_mkdir m;
      }
      ∷ record {
        name = lit "cp";
        description = lit "Copy a bounded regular file within the workspace.";
        schema =
            (object
              (field (lit "source") path_field (
                field (lit "destination") path_field (
                  field (lit "overwrite")
                    (bool_field (lit "Replace an existing regular destination file.")) end)))
              (lit "source" ∷ lit "destination" ∷ []));
        run = run_copy m;
      }
      ∷ record {
        name = lit "mv";
        description = lit "Move or rename a file or empty directory within the workspace.";
        schema =
            (object
              (field (lit "source") path_field (
                field (lit "destination") path_field (
                  field (lit "overwrite") (bool_field (lit "Replace an existing destination."))
                    end)))
              (lit "source" ∷ lit "destination" ∷ []));
        run = run_move m;
      }
      ∷ record {
        name = lit "rm";
        description =
            lit
              "Remove one regular file or symbolic link in the workspace. Directories are not removed.";
        schema = (object (field (lit "path") path_field end) (lit "path" ∷ []));
        run = run_remove m;
      }
      ∷ record {
        name = lit "rmdir";
        description =
            lit "Remove one empty workspace directory. Recursive deletion is not supported.";
        schema = (object (field (lit "path") path_field end) (lit "path" ∷ []));
        run = run_remove_directory m;
      }
      ∷ record {
        name = lit "coreutils_run";
        description =
            lit
              "Run an approved, read-only text utility on supplied stdin. Shell syntax and file paths are not supported.";
        schema =
            (object
              (field (lit "command") (string_field (lit "Name of an approved core utility.") 32) (
                field (lit "args")
                  (obj (
                    field (lit "type") (str (lit "array")) (
                      field (lit "description")
                        (str (lit "Validated utility arguments; shell syntax is not supported."))
                        (field (lit "items") (string_field (lit "Argument.") 4096)
                          (field (lit "maxItems") (int (pos 32)) end)))))
                  (field (lit "stdin")
                    (string_field (lit "Optional UTF-8 text supplied to standard input.") 65536)
                    end)))
              (lit "command" ∷ []));
        run = run_coreutils m;
      }
      ∷ []
