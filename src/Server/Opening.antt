-- ===== src/Server/Opening.antt =====
-- internal/mcpserver: `New` of server.go, with canonicalWorkspace of workspace.go.
pub mod Registered
pub mod Rooted
use go_core_mcp.Prelude.{
  not, Option, none, some, List, [], ◌∷◌, Bytes, bytes_eq, bytes_lt, if◌then◌else◌,
}
use mathlib.Core.Option
use go_core_mcp.Outcome.{Outcome, ok, err, reject_if, ◌>>=◌, ◌>>◌}
use go_core_mcp.Strings.{trim_space}
use go_core_mcp.Server.Calls.{ServerTool}
use go_core_mcp.Server.Workspace.{Files, Resolution, is_directory}

pub data OpeningError : Type 0 where
  workspace_empty workspace_not_resolved workspace_missing workspace_no_directory : OpeningError
  duplicate_tool : OpeningError

absolute_path : Option Bytes → Outcome OpeningError Bytes
absolute_path none = err workspace_not_resolved
absolute_path (some path) = ok path

real_path : Resolution → Outcome OpeningError Bytes
real_path (Resolution.resolved path) = ok path
real_path _ = err workspace_missing

-- `canonicalWorkspace`, over filepath.Abs and the file system
unfoldable pub canonical_workspace :
    (Bytes → Option Bytes) → Files → Bytes → Outcome OpeningError Bytes
unfolding absolute_path real_path bytes_eq
canonical_workspace abs files workspace = do
  reject_if (bytes_eq (trim_space workspace) []) workspace_empty
  absolute ← absolute_path (abs workspace)
  resolved ← real_path (files.eval_symlinks absolute)
  reject_if (not (is_directory (files.stat resolved))) workspace_no_directory
  ok resolved

module _ {World : Type 0} where
  -- The loop of `New`, on the map in the order of its names, in which `ToolNames` gives it: a tool
  -- is put in its place, unless there is one of its name.
  register : ServerTool World → List (ServerTool World) → Option (List (ServerTool World))
  unfolding bytes_eq bytes_lt
  register t [] = some (t ∷ [])
  register t (u ∷ us) =
      let rest = register t us in
      if bytes_eq t.name u.name
      then none
      else if bytes_lt t.name u.name
      then some (t ∷ u ∷ us)
      else Option.map (λ vs. u ∷ vs) rest

  register_all :
      List (ServerTool World) → Option (List (ServerTool World)) → Option (List (ServerTool World))
  unfolding register
  register_all ts none = none
  register_all [] (some us) = some us
  register_all (t ∷ ts) (some us) = register_all ts (register t us)

  unfoldable pub tools_of : List (ServerTool World) → Option (List (ServerTool World))
  unfolding register_all
  tools_of ts = register_all ts (some [])

  registered : Option (List (ServerTool World)) → Outcome OpeningError (List (ServerTool World))
  registered none = err duplicate_tool
  registered (some ts) = ok ts

  -- `New`: the root and the tools of the server; the table is that of a server with the root.
  unfoldable pub new :
      (Bytes → Option Bytes)
      → Files
      → (Bytes → List (ServerTool World))
      → Bytes
      → Outcome OpeningError (Bytes × List (ServerTool World))
  unfolding registered
  new abs files table workspace = do
    root ← canonical_workspace abs files workspace
    tools ← registered (tools_of (table root))
    ok (root, tools)
