-- ===== src/Agent/ToolCall/Safe.antt =====
-- What a tool call that passes the checks is known to satisfy.
use mathlib.Core.Path.{subst}
use go_core_mcp.Prelude.{
  or-false, not-false, ℕ, ◌<◌, ◌≡◌, ◌≢◌, refl, sym, ◌∙◌, ap, true, false, not, ◌&&◌, Option, none,
  some, List, [], ◌++◌, Bytes, lit, bytes_eq, bytes_eq_iff, bytes_eq-false, arith, leb, leb-false,
  if◌then◌else◌,
}
use go_core_mcp.Prelude.Int.{ℤ, pos, ◌≤ℤ◌}
use go_core_mcp.Outcome.{
  Outcome, ok, err, panic, map_err, reject_if, >>-eq-ok, reject_if-eq-ok, >>=-eq-ok,
}
use go_core_mcp.Floats.{Floats}
use go_core_mcp.Strings.{has_prefix, trim_space}
use go_core_mcp.Strings.Paths.{is_abs, clean, names_of, dot_dot, slash}
use go_core_mcp.Strings.Paths.Laws.{NoParent, names_of-NoParent}
use go_core_mcp.Json.{Value, Fields, str, end, field, as_string}
use go_core_mcp.Schema.{to_number}
use go_core_mcp.Protocol.{ToolDefinition}
use go_core_mcp.Agent.Messages.{ToolCall}
use go_core_mcp.Agent.Policy.{max_total_tool_calls}
use go_core_mcp.Agent.ToolCall.{
  Rejection, validate_raw, requested_limits, limit_for, validate_workspace_path, within,
  check_limit, check_path, check_arguments, find_tool, Tools, validate_call, or_object, or_reject,
}

-- A path text that stays below the directory it is taken from.
pub record StaysInside (path : Bytes) : Type 0 where
  pub relative : is_abs (trim_space path) ≡ false
  pub no_parent : NoParent (names_of (trim_space path))

-- The workspace check accepts only relative paths without a `..` that is left over.
pub validate_workspace_path-StaysInside :
    (path : Bytes) → validate_workspace_path path ≡ ok tt → StaysInside path
unfolding validate_workspace_path
validate_workspace_path-StaysInside path h =
    let trimmed = trim_space path in
    let cleaned = clean trimmed in
    let s1 = (>>-eq-ok _ _).0 h in
    let s2 = (>>-eq-ok _ _).0 s1.1 in
    let s3 = (>>-eq-ok _ _).0 s2.1 in
    let absolute =
      or-false (is_abs trimmed) (has_prefix trimmed slash) ((reject_if-eq-ok _ _).0 s3.0) in
    let escape =
      or-false (bytes_eq cleaned dot_dot) (has_prefix cleaned (dot_dot ++ slash))
        ((reject_if-eq-ok _ _).0 s3.1) in
    record {
      relative = absolute.0;
      no_parent = names_of-NoParent trimmed absolute.0 escape.0 escape.1;
    }

-- A number that the model asks for is an integer within the limit of its key.
abbrev pub InLimit : Floats → Bytes → Value → Type 0
InLimit fl key v =
    (limit : ℕ)
    → limit_for key requested_limits ≡ some limit
    → (n : ℤ) × (to_number fl v ≡ some n) × (n ≤ℤ pos limit)

-- The value of "path" is a text that stays inside, but for the two tools that read no file.
abbrev pub PathInside : Bytes → Bytes → Value → Type 0
PathInside tool key v =
    key ≡ lit "path"
    → tool ≢ lit "basename"
    → tool ≢ lit "dirname"
    → (path : Bytes) × (v ≡ str path) × StaysInside path

abbrev pub SafeArguments : Floats → Bytes → Fields → Type 0
SafeArguments fl tool end = Unit
SafeArguments fl tool (field key v fs) =
    InLimit fl key v × PathInside tool key v × SafeArguments fl tool fs

within_sound :
    (o : Option ℤ) (limit : ℕ) → within o limit ≡ true → (n : ℤ) × (o ≡ some n) × (n ≤ℤ pos limit)
unfolding within
within_sound none limit h = cc
within_sound (some n) limit h = (n, refl, ground arith)

check_limit-InLimit :
    (fl : Floats) (key : Bytes) (v : Value) → check_limit fl key v ≡ ok tt → InLimit fl key v
unfolding check_limit
check_limit-InLimit fl key v h limit e =
    let test : reject_if (not (within (to_number fl v) limit)) (Rejection.over_limit key) ≡ ok tt =
      rw (e, check_limit) at h in
    within_sound (to_number fl v) limit (not-false _ ((reject_if-eq-ok _ _).0 test))

as_string_sound : (v : Value) {s : Bytes} → as_string (some v) ≡ some s → v ≡ str s
unfolding as_string
as_string_sound (str s) h = cc
as_string_sound Value.null h = cc
as_string_sound (Value.bool b) h = cc
as_string_sound (Value.float x) h = cc
as_string_sound (Value.int i) h = cc
as_string_sound (Value.number t) h = cc
as_string_sound (Value.arr xs) h = cc
as_string_sound (Value.obj fs) h = cc

check_path_sound :
    (tool : Bytes) (o : Option Bytes)
    → check_path tool o ≡ ok tt
    → tool ≢ lit "basename"
    → tool ≢ lit "dirname"
    → (path : Bytes) × (o ≡ some path) × StaysInside path
unfolding check_path
check_path_sound tool none h b d = cc
check_path_sound tool (some path) h b d =
    let nb = bytes_eq-false tool (lit "basename") b in
    let nd = bytes_eq-false tool (lit "dirname") d in
    (path, refl, validate_workspace_path-StaysInside path (rw (nb, nd) at h))

check_key-PathInside :
    (tool key : Bytes) (v : Value)
    → (if bytes_eq key (lit "path") then check_path tool (as_string (some v)) else ok tt) ≡ ok tt
    → PathInside tool key v
check_key-PathInside tool key v h e b d =
    let is_path : bytes_eq key (lit "path") ≡ true = (bytes_eq_iff key (lit "path")).1 e in
    let checked : check_path tool (as_string (some v)) ≡ ok tt = rw is_path at h in
    let (path, text, inside) = check_path_sound tool (as_string (some v)) checked b d in
    (path, as_string_sound v text, inside)

arguments_step :
    (fl : Floats) (tool key : Bytes) (v : Value) (fs : Fields)
    → check_arguments fl tool (field key v fs) ≡ ok tt
    → (check_limit fl key v ≡ ok tt)
      × ((if bytes_eq key (lit "path") then check_path tool (as_string (some v)) else ok tt)
          ≡ ok tt)
      × (check_arguments fl tool fs ≡ ok tt)
unfolding check_arguments
arguments_step fl tool key v fs h =
    let s1 = (>>-eq-ok _ _).0 h in let s2 = (>>-eq-ok _ _).0 s1.1 in (s1.0, s2.0, s2.1)

check_arguments-SafeArguments :
    (fl : Floats) (tool : Bytes) (fs : Fields)
    → check_arguments fl tool fs ≡ ok tt
    → SafeArguments fl tool fs
check_arguments-SafeArguments fl tool end h = tt
check_arguments-SafeArguments fl tool (field key v fs) h =
    let (limit, path, rest) = arguments_step fl tool key v fs h in
    (
      check_limit-InLimit fl key v limit,
      check_key-PathInside tool key v path,
      check_arguments-SafeArguments fl tool fs rest,
    )

-- A call that may be sent: its tool is one of those exposed, its arguments fit the tool's schema,
-- numbers keep to their limits and paths stay inside.
pub record IsSafeCall (tools : Tools) (exposed : List (Bytes × ToolDefinition)) (asked raw : Bytes)
    (tool : ToolDefinition) : Type 0 where
  pub exposed_tool : find_tool asked exposed ≡ some tool
  pub schema : Fields
  pub arguments : Fields
  pub schema_of : tools.codec.decode tool.input_schema ≡ some schema
  pub accepted : validate_raw tools.codec tools.floats schema raw ≡ ok arguments
  pub safe : SafeArguments tools.floats tool.name arguments

or_reject-eq-ok :
    {A : Type 0} (o : Option A) (e : Rejection) {a : A} → or_reject o e ≡ ok a → o ≡ some a
unfolding or_reject
or_reject-eq-ok none e h = cc
or_reject-eq-ok (some a) e h = cc

map_err-eq-ok :
    {E F A : Type 0} (f : E → F) (m : Outcome E A) {a : A} → map_err f m ≡ ok a → m ≡ ok a
map_err-eq-ok f (ok a) h = cc
map_err-eq-ok f (err e) h = cc
map_err-eq-ok f panic h = cc

-- A call that `validateCall` accepts names an exposed tool, has arguments that the tool's schema
-- accepts, numbers within the limits, and a path that stays inside, but for the tools that read no
-- file; and the budget of calls is not used up.
pub validate_call-IsSafeCall :
    (tools : Tools) (n : ℕ) (exposed : List (Bytes × ToolDefinition)) (call : ToolCall)
    {raw : Bytes} {tool : ToolDefinition}
    → validate_call tools n exposed call ≡ ok (raw, tool)
    → (n < max_total_tool_calls) × IsSafeCall tools exposed call.function.name raw tool
unfolding validate_call
validate_call-IsSafeCall tools n exposed call {raw} {tool} h =
    let text = or_object (trim_space call.function.arguments) in
    let wrong_kind = not (bytes_eq call.kind []) && not (bytes_eq call.kind (lit "function")) in
    let (_, kind, s1) = >>=-eq-ok (reject_if wrong_kind Rejection.unsupported_type) _ h in
    let spent = leb max_total_tool_calls n in
    let (_, budget, s2) = >>=-eq-ok (reject_if spent Rejection.budget_exhausted) _ s1 in
    let lookup = or_reject (find_tool call.function.name exposed) Rejection.not_available in
    let (found, listed, s3) = >>=-eq-ok lookup _ s2 in
    let (_, object, s4) =
      >>=-eq-ok (reject_if (not (has_prefix text (lit "{"))) Rejection.no_json_object) _ s3 in
    let (schema, decodes, s5) =
      >>=-eq-ok (or_reject (tools.codec.decode found.input_schema) Rejection.unusable_schema) _
        s4 in
    let (arguments, fits, s6) =
      >>=-eq-ok (map_err Rejection.invalid (validate_raw tools.codec tools.floats schema text)) _
        s5 in
    let (_, safe, s7) = >>=-eq-ok (check_arguments tools.floats found.name arguments) _ s6 in
    let same_tool : found ≡ tool = cc s7 in
    let same_raw : or_object (trim_space call.function.arguments) ≡ raw = cc s7 in
    let checked = map_err-eq-ok Rejection.invalid _ fits in
    (
      leb-false max_total_tool_calls n ((reject_if-eq-ok _ _).0 budget),
      record {
        exposed_tool = or_reject-eq-ok _ _ listed ∙ ap some same_tool;
        schema = schema;
        arguments = arguments;
        schema_of =
            ap (λ t. tools.codec.decode t.input_schema) (sym same_tool)
            ∙ or_reject-eq-ok _ _ decodes;
        accepted = ap (validate_raw tools.codec tools.floats schema) (sym same_raw) ∙ checked;
        safe =
            subst (λ t. SafeArguments tools.floats t.name arguments) same_tool
              (check_arguments-SafeArguments tools.floats found.name arguments safe);
      },
    )
