-- ===== src/Server/Opening/Rooted.antt =====
-- internal/mcpserver/server.go: what `New` makes of a workspace and of the table.
use mathlib.Core.Path.{subst}
use go_core_mcp.Prelude.{
  ◌≡◌, refl, ◌∙◌, ap, Bool, true, false, not, not-false, Option, none, some, List, [], Bytes, lit,
  bytes_eq,
}
use go_core_mcp.Outcome.{ok, ok_inj, >>=-eq-ok, reject_if}
use go_core_mcp.Strings.{trim_space}
use go_core_mcp.Server.Calls.{ServerTool}
use go_core_mcp.Server.Workspace.{Files, Resolution, is_directory}
use go_core_mcp.Server.Machine.{Machine, Host}
use go_core_mcp.Server.Table.{definitions}
use go_core_mcp.Server.Opening.{
  OpeningError, absolute_path, real_path, canonical_workspace, tools_of, new,
}

-- No two tools of the table have one name, whatever machine they work on.
pub tools_of-definitions :
    {W : Type 0} (m : Machine W)
    → (tools : List (ServerTool (Host W))) × (tools_of (definitions m) ≡ some tools)
unfolding tools_of lit
tools_of-definitions m = (_, refl)

-- `New` fails only as canonicalWorkspace does.
pub new-definitions :
    {W : Type 0} (machine : Bytes → Machine W) (abs : Bytes → Option Bytes) (files : Files)
    (workspace : Bytes) {root : Bytes}
    → canonical_workspace abs files workspace ≡ ok root
    → (tools : List (ServerTool (Host W))) × (new abs files (λ r. definitions (machine r)) workspace
        ≡ ok (root, tools))
unfolding new
new-definitions machine abs files workspace {root} h =
    let (tools, e) = tools_of-definitions (machine root) in (tools, rw (h, e) refl)

-- What canonicalWorkspace makes of a workspace: the directory that its absolute path resolves to.
pub record IsRootOf (abs : Bytes → Option Bytes) (files : Files) (workspace root : Bytes)
    : Type 0 where
  pub is_given : bytes_eq (trim_space workspace) [] ≡ false
  pub absolute : Bytes
  pub is_absolute : abs workspace ≡ some absolute
  pub is_real : files.eval_symlinks absolute ≡ Resolution.resolved root
  pub is_directory_root : is_directory (files.stat root) ≡ true

absolute_path_sound : (o : Option Bytes) {path : Bytes} → absolute_path o ≡ ok path → o ≡ some path
unfolding absolute_path
absolute_path_sound none h = cc
absolute_path_sound (some p) h = ap some (ok_inj h)

real_path_sound :
    (r : Resolution) {path : Bytes} → real_path r ≡ ok path → r ≡ Resolution.resolved path
unfolding real_path
real_path_sound (Resolution.resolved p) h = ap Resolution.resolved (ok_inj h)
real_path_sound Resolution.missing h = cc
real_path_sound Resolution.forbidden h = cc
real_path_sound Resolution.unresolvable h = cc

reject_if_sound : (b : Bool) (e : OpeningError) {u : Unit {0}} → reject_if b e ≡ ok u → b ≡ false
reject_if_sound true e h = cc
reject_if_sound false e h = refl

-- The workspace that canonicalWorkspace accepts is not blank, and its root is a directory.
pub canonical_workspace-IsRootOf :
    (abs : Bytes → Option Bytes) (files : Files) (workspace : Bytes) {root : Bytes}
    → canonical_workspace abs files workspace ≡ ok root
    → IsRootOf abs files workspace root
unfolding canonical_workspace
canonical_workspace-IsRootOf abs files workspace {root} h =
    let (u, given, s1) =
      >>=-eq-ok (reject_if (bytes_eq (trim_space workspace) []) OpeningError.workspace_empty) _ h in
    let (absolute, is_absolute, s2) = >>=-eq-ok (absolute_path (abs workspace)) _ s1 in
    let (path, is_real, s3) = >>=-eq-ok (real_path (files.eval_symlinks absolute)) _ s2 in
    let (v, fine, s4) =
      >>=-eq-ok
        (reject_if (not (is_directory (files.stat path))) OpeningError.workspace_no_directory) _
        s3 in
    let same : path ≡ root = ok_inj s4 in
    record {
      is_given = reject_if_sound _ _ given;
      absolute = absolute;
      is_absolute = absolute_path_sound (abs workspace) is_absolute;
      is_real =
          real_path_sound (files.eval_symlinks absolute) is_real ∙ ap Resolution.resolved same;
      is_directory_root =
          subst (λ p. is_directory (files.stat p) ≡ true) same
            (not-false _ (reject_if_sound _ _ fine));
    }
