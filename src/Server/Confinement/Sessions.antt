-- ===== src/Server/Confinement/Sessions.antt =====
-- Whatever a session of the server asks for, it stays in the workspace.
use go_core_mcp.Prelude.{◌++◌, ◌≡◌, List, All}
use go_core_mcp.Json.{Fields}
use go_core_mcp.Server.Calls.{ServerTool}
use go_core_mcp.Server.Machine.{Machine, Host, Action}
use go_core_mcp.Server.Machine.Quiet.{Quiet}
use go_core_mcp.Server.Confinement.{IsPermitted, Later, Extends}

module _ {W : Type 0} (m : Machine W) where
  -- A tool of which a run adds to the log only what is permitted for its arguments and the files
  -- that it started with.
  abbrev pub IsConfined : ServerTool (Host W) → Type 0
  IsConfined t =
      (arguments : Fields) (h : Host W)
      → Extends m (IsPermitted m (m.disk.files h.world) arguments) h (t.run arguments h).1

  -- An action that is permitted, for some arguments, by the files as they were after the first calls
  -- of the log.
  abbrev pub Stays : W → List Action → Action → Type 0
  Stays start log a =
      (before : List Action) × (rest : List Action) × (log ≡ before ++ rest)
      × ((w : W) × Later m start before w
          × ((arguments : Fields) × IsPermitted m (m.disk.files w) arguments a))

  record AllStay (start : W) (h : Host W) : Type 0 where
    pub later : Later m start h.acted h.world
    pub stay : All (Stays start h.acted) h.acted
