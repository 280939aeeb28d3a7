-- ===== src/Server/Handlers/Texts.antt =====
-- internal/mcpserver/tools.go: the handlers that work on the text of their arguments.
use go_core_mcp.Prelude.{
  ℕ, ◌+◌, true, false, not, ◌||◌, Option, none, some, List, [], ◌∷◌, ◌++◌, Bytes, lit, ltb,
  if◌then◌else◌, length,
}
use go_core_mcp.Prelude.Int.{ℤ}
use go_core_mcp.Outcome.{Outcome, ok, err, panic, map_err}
use go_core_mcp.Exec.{pure, ◌>>=◌, ◌>>◌}
use go_core_mcp.Floats.{Floats}
use go_core_mcp.Json.{Items, Fields, bool, str, nil, cons, end, field, get, as_array, as_string}
use go_core_mcp.Schema.{to_number}
use go_core_mcp.Protocol.{invalid_arguments, permission_denied}
use go_core_mcp.Coreutils.Names.{basename, dirname}
use go_core_mcp.Coreutils.Text.{TextError, cut, paste, uniq}
use go_core_mcp.Coreutils.Runes.{tr}
use go_core_mcp.Coreutils.Sorting.{sort}
use go_core_mcp.Coreutils.Command.{Command, CommandError, context_done, lookup_command}
use go_core_mcp.Server.{ToolError}
use go_core_mcp.Server.Workspace.{
  fail, require_text, require_string, optional_bool, optional_string,
}
use go_core_mcp.Server.Calls.{Payload, HandlerError, deadline, plain, clamp_result}
use go_core_mcp.Server.Machine.{Machine, Handler, check}

abbrev output_of : Bytes → Payload
output_of output = record { output = output; truncated = false; metadata = end; result = none }

-- The texts of an array, and what to report of an element that is none.
strings_of : ToolError → Items → Outcome ToolError (List Bytes)
strings_of e nil = ok []
strings_of e (cons v vs) = elim (as_string (some v)) [
  | none ↦ err e
  | some s ↦ elim (strings_of e vs) [ ok ss ↦ ok (s ∷ ss) | err x ↦ err x | panic ↦ panic ]
]

-- rawArgs, ok := arguments["args"].([]any)
optional_strings : Option Items → Outcome ToolError (List Bytes)
unfolding strings_of
optional_strings none = ok []
optional_strings (some vs) =
    strings_of (fail invalid_arguments (lit "args must contain only strings")) vs

numbers_of : Floats → Items → Outcome ToolError (List ℤ)
numbers_of fl nil = ok []
numbers_of fl (cons v vs) = elim (to_number fl v) [
  | none ↦ err (fail invalid_arguments (lit "\"fields\" must contain integers"))
  | some n ↦ elim (numbers_of fl vs) [ ok ns ↦ ok (n ∷ ns) | err x ↦ err x | panic ↦ panic ]
]

fields_of : Floats → Option Items → Outcome ToolError (List ℤ)
unfolding numbers_of
fields_of fl none = err (fail invalid_arguments (lit "\"fields\" must be an array of integers"))
fields_of fl (some vs) = numbers_of fl vs

-- The loop of `runPaste`: `total` bytes were read so far.
bounded_texts : ℕ → ℕ → Items → Outcome ToolError (List Bytes)
bounded_texts most total nil = ok []
bounded_texts most total (cons v vs) = elim (as_string (some v)) [
  | none ↦ err (fail invalid_arguments (lit "\"inputs\" must contain strings"))
  | some s ↦ elim (ltb most (total + length s)) [
    | true ↦ err (fail invalid_arguments (lit "input text exceeds the allowed size"))
    | false ↦ elim (bounded_texts most (total + length s) vs) [
      | ok ss ↦ ok (s ∷ ss)
      | err x ↦ err x
      | panic ↦ panic
    ]
  ]
]

inputs_of : ℕ → Option Items → Outcome ToolError (List Bytes)
unfolding bounded_texts
inputs_of most none = err (fail invalid_arguments (lit "\"inputs\" must be an array of strings"))
inputs_of most (some vs) = bounded_texts most 0 vs

-- The command, if it may be run.
permitted : (Bytes → Bytes) → Bytes → Option Command → Outcome ToolError Command
permitted quote name none =
    err (fail permission_denied (lit "command " ++ (quote name ++ lit " is not permitted")))
permitted quote name (some c) =
    if not c.expose_to_mcp || not c.read_only
    then err (fail permission_denied (lit "command " ++ (quote name ++ lit " is not permitted")))
    else ok c

-- The errors of a command's run are passed on as they are; the end of its context counts as that
-- of a deadline when the call is reported.
ended : CommandError → HandlerError
ended context_done = deadline
ended _ = plain

module _ {W : Type 0} (m : Machine W) where
  -- An error of coreutils, reported as one of the arguments.
  abbrev by_text : {A : Type 0} → Outcome TextError A → Outcome ToolError A
  by_text r = map_err (λ e. fail invalid_arguments (m.text_message e)) r

  abbrev text_argument : Fields → Outcome ToolError Bytes
  text_argument arguments = require_text m.limits arguments (lit "text")

  -- `command.Run`: what it writes, or its error
  unfoldable pub run_command : Command → List Bytes → Bytes → Handler W Bytes
  unfolding ended
  run_command command args stdin h =
      let finished = m.context_done h.world in
      (
        map_err ended (
            command.run args
              (record { done_before = finished; content = some stdin; done_after = finished })),
        h,
      )

  -- `runCoreutils`; what goes to the standard error is nothing, for every command.
  unfoldable pub run_coreutils : Fields → Handler W Payload
  unfolding optional_strings permitted run_command
  run_coreutils arguments = do
    name ← check (require_string arguments (lit "command"))
    command ← check (permitted m.quote name (lookup_command m.sorter m.floats name))
    args ← check (optional_strings (as_array (get (lit "args") arguments)))
    check (
        map_err (λ e. fail invalid_arguments (lit "invalid arguments: " ++ m.command_message e))
          (command.validate_args args))
    stdout ← run_command command args (optional_string arguments (lit "stdin"))
    let (output, truncated) = clamp_result stdout 262144
    pure (record {
      output = [];
      truncated = truncated;
      metadata = end;
      result = some (
          field (lit "success") (bool true) (
            field (lit "command") (str name) (
              field (lit "stdout") (str output)
                (field (lit "stderr") (str []) (field (lit "truncated") (bool truncated) end)))));
    })

  -- `runBasename` and `runDirname`
  unfoldable pub run_basename : Fields → Handler W Payload
  run_basename arguments = do
    path ← check (require_string arguments (lit "path"))
    pure (output_of (basename path (optional_string arguments (lit "suffix"))))

  unfoldable pub run_dirname : Fields → Handler W Payload
  run_dirname arguments = do
    path ← check (require_string arguments (lit "path"))
    pure (output_of (dirname path))

  -- `runBase64`
  unfoldable pub run_base64 : Fields → Handler W Payload
  run_base64 arguments = do
    text ← check (text_argument arguments)
    output ← check (
        if optional_bool arguments (lit "decode")
        then map_err (λ e. fail invalid_arguments e) (m.base64_decode text)
        else ok (m.base64_encode text))
    pure (output_of output)

  -- `runCut`
  unfoldable pub run_cut : Fields → Handler W Payload
  unfolding fields_of
  run_cut arguments = do
    text ← check (text_argument arguments)
    delimiter ← check (require_string arguments (lit "delimiter"))
    fields ← check (fields_of m.floats (as_array (get (lit "fields") arguments)))
    output ← check (by_text (cut text delimiter fields))
    pure (output_of output)

  -- `runPaste`
  unfoldable pub run_paste : Fields → Handler W Payload
  unfolding inputs_of
  run_paste arguments = do
    inputs ←
        check (inputs_of m.limits.max_file_read_bytes (as_array (get (lit "inputs") arguments)))
    output ← check (by_text (paste inputs (optional_string arguments (lit "delimiter"))))
    pure (output_of output)

  -- `runSort`
  unfoldable pub run_sort : Fields → Handler W Payload
  run_sort arguments = do
    text ← check (text_argument arguments)
    pure (
        output_of (
          sort m.sorter m.floats text (optional_bool arguments (lit "reverse"))
            (optional_bool arguments (lit "numeric")) (optional_bool arguments (lit "unique"))))

  -- `runTr`
  unfoldable pub run_tr : Fields → Handler W Payload
  run_tr arguments = do
    text ← check (text_argument arguments)
    source ← check (require_string arguments (lit "from"))
    output ← check (
        by_text (
          tr text source (optional_string arguments (lit "to"))
            (optional_bool arguments (lit "delete"))))
    pure (output_of output)

  -- `runUniq`
  unfoldable pub run_uniq : Fields → Handler W Payload
  run_uniq arguments = do
    text ← check (text_argument arguments)
    pure (output_of (uniq text (optional_bool arguments (lit "count"))))
