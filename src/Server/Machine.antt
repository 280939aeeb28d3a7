-- ===== src/Server/Machine.antt =====
-- What the handlers of internal/mcpserver/tools.go work on: the file system, the libraries that they
-- call, and a log of the calls that may change a file.
pub mod Quiet
use go_core_mcp.Prelude.{Bool, Option, List, [], ◌∷◌, ◌++◌, Bytes}
use go_core_mcp.Outcome.{Outcome, ok, map_err}
use go_core_mcp.Exec.{Exec}
use go_core_mcp.Floats.{Floats}
use go_core_mcp.Coreutils.Text.{TextError}
use go_core_mcp.Coreutils.Command.{CommandError}
use go_core_mcp.Coreutils.Sorting.{StableSort}
use go_core_mcp.Coreutils.Search.{GrepError, Matching}
use go_core_mcp.Server.{ToolError, Limits}
use go_core_mcp.Server.Workspace.{Kind, Reading, Files}
use go_core_mcp.Server.Calls.{HandlerError, typed}

pub data Mode : Type 0 where
  appending truncating : Mode

-- The calls that may change a file. `create` opens a file with O_CREATE and closes it; `write_text`
-- opens one, creating it if need be, writes and closes; `copy_into` opens one with O_TRUNC, copies
-- what is read from the source into it, and closes.
pub data Action : Type 0 where
  create set_times make_directory remove : Bytes → Action
  write_text : Bytes → Mode → Bytes → Action
  copy_into : Bytes → Reading → Action
  rename : Bytes → Bytes → Action

-- How such a call ends: well; with an error that os.IsExist or os.IsPermission holds of; with
-- another error when the file is opened; or later.
pub data Reply : Type 0 where
  done exists denied not_opened incomplete : Reply

-- What filepath.WalkDir hands to its callback: an entry, or an error. The end of the context is an
-- error of the callback, with the same effect.
pub data Visit : Type 0 where
  broken : Visit
  entry : Bytes → Bytes → Kind → Visit

pub record Disk (W : Type 0) : Type 0 where
  pub files : W → Files
  -- the names in a directory, each with whether it is a directory
  pub list : W → Bytes → Option (List (Bytes × Bool))
  pub walk : W → Bytes → List Visit
  pub act : Action → W → Reply × W

-- The server's fields and the libraries: the file system, filepath.Match, crypto/sha256,
-- encoding/base64 (of which decoding fails on what is not base64, or not UTF-8), the clock, whether
-- the call's context is done, and the texts of errors.
pub record Machine (W : Type 0) : Type 0 where
  pub disk : Disk W
  pub workspace : Bytes
  pub limits : Limits
  pub floats : Floats
  pub matching : Matching
  pub sorter : StableSort
  pub glob : Bytes → Bytes → Option Bool
  pub sha256 : Bytes → Bytes
  pub base64_encode : Bytes → Bytes
  pub base64_decode : Bytes → Outcome Bytes Bytes
  pub now : W → Bool → Bytes
  -- fmt's %q
  pub quote : Bytes → Bytes
  pub context_done : W → Bool
  pub text_message : TextError → Bytes
  pub grep_message : GrepError → Bytes
  pub command_message : CommandError → Bytes

-- The world and the calls that were made, in order, whether they succeeded or not.
pub record Host (W : Type 0) : Type 0 where
  pub world : W
  pub acted : List Action

abbrev pub Handler : Type 0 → Type 0 → Type 0
Handler W A = Exec (Host W) HandlerError A

-- `if err != nil { return payload{}, err }`
unfoldable pub check : {W A : Type 0} → Outcome ToolError A → Handler W A
check r h = (map_err typed r, h)

module _ {W : Type 0} (m : Machine W) where
  unfoldable pub view : Handler W Files
  view h = (ok (m.disk.files h.world), h)

  unfoldable pub look : {A : Type 0} → (W → A) → Handler W A
  look f h = (ok (f h.world), h)

  unfoldable pub perform : Action → Handler W Reply
  perform a h =
      let (reply, w) = m.disk.act a h.world in
      (ok reply, record { world = w; acted = h.acted ++ a ∷ [] })
