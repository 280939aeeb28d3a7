-- ===== src/Server/Confinement.antt =====
-- What the handlers of internal/mcpserver/tools.go may do to the file system, and rules for proving
-- that they do no more.
pub mod Sessions
use mathlib.Core.Path.{subst}
use go_core_mcp.Prelude.{
  sym, append-nil, ◌≤◌, ◌≡◌, ◌≢◌, ◌⊎◌, refl, ◌∙◌, ap, true, List, [], ◌∷◌, ◌++◌, Bytes, lit, length,
  All, All-append, append_assoc,
}
use go_core_mcp.Outcome.{Outcome, ok, err, panic}
use go_core_mcp.Exec.{pure, ◌>>=◌}
use go_core_mcp.Json.{Fields}
use go_core_mcp.Server.{ToolError}
use go_core_mcp.Server.Workspace.{Files, Kind, Inspection, found, optional_bool, require_string}
use go_core_mcp.Server.Workspace.Laws.{IsResolved, IsTouchable}
use go_core_mcp.Server.Machine.{
  Machine, Host, Handler, Reply, Mode, Action, create, set_times, make_directory, remove,
  write_text, copy_into, rename, check, view, look, perform,
}

-- The inspection of a path that gives an error: nothing is there, or what is there is not seen.
pub data IsUnseen : Inspection → Type 0 where
  unseen_absent : IsUnseen Inspection.absent
  unseen_hidden : IsUnseen Inspection.hidden

-- How a file at the path of a write may be treated.
pub data IsWritable (arguments : Fields) : Mode → Inspection → Type 0 where
  fresh : (mode : Mode) → IsWritable arguments mode Inspection.absent
  appended :
      {k : _}
      → optional_bool arguments (lit "append") ≡ true
      → IsWritable arguments Mode.appending (found Kind.regular k)
  replaced :
      {k : _}
      → optional_bool arguments (lit "overwrite") ≡ true
      → IsWritable arguments Mode.truncating (found Kind.regular k)

module _ {W : Type 0} (m : Machine W) where
  -- The argument under the key, resolved as `resolvePath` does.
  abbrev pub IsSource : Files → Fields → Bytes → Bytes → Type 0
  IsSource files arguments key path =
      (relative : Bytes) × (require_string arguments key ≡ ok relative)
      × IsResolved files m.workspace relative path

  -- The argument under the key, resolved as `resolveTouchPath` does.
  abbrev pub IsTarget : Files → Fields → Bytes → Bytes → Type 0
  IsTarget files arguments key path =
      (relative : Bytes) × (require_string arguments key ≡ ok relative)
      × IsTouchable files m.workspace relative path

  -- An action of a call with these arguments that the files, as they were before the call, permit:
  -- every path is where an argument of the call resolves; nothing that is seen is moved over or
  -- replaced unless the call says overwrite, and the workspace itself is neither moved nor removed.
  abbrev pub IsPermitted : Files → Fields → Action → Type 0
  IsPermitted files arguments (create path) = IsTarget files arguments (lit "path") path
  IsPermitted files arguments (set_times path) = IsTarget files arguments (lit "path") path
  IsPermitted files arguments (make_directory path) = IsTarget files arguments (lit "path") path
  IsPermitted files arguments (write_text path mode content) =
      IsTarget files arguments (lit "path") path
      × ((require_string arguments (lit "content") ≡ ok content)
          × ((length content ≤ m.limits.max_file_write_bytes)
              × IsWritable arguments mode (files.lstat path)))
  IsPermitted files arguments (copy_into path source) =
      IsTarget files arguments (lit "destination") path
      × (((from : Bytes) × IsSource files arguments (lit "source") from
            × (source ≡ files.read from))
          × (IsUnseen (files.stat path) ⊎ (optional_bool arguments (lit "overwrite") ≡ true)))
  IsPermitted files arguments (rename source destination) =
      IsSource files arguments (lit "source") source
      × ((source ≢ m.workspace)
          × (IsTarget files arguments (lit "destination") destination
              × (IsUnseen (files.lstat destination)
                  ⊎ (optional_bool arguments (lit "overwrite") ≡ true))))
  IsPermitted files arguments (remove path) =
      IsSource files arguments (lit "path") path
      × ((path ≢ m.workspace)
          × (((n : _) × (files.lstat path ≡ found Kind.regular n))
              ⊎ ((n : _) × (files.stat path ≡ found Kind.directory n))))

  -- The world that calls to change files lead to.
  pub data Later (v : W) : List Action → W → Type 0 where
    now : Later v [] v
    acting :
        {acts : List Action} {w : W} (a : Action)
        → Later v acts w
        → Later v (acts ++ a ∷ []) (m.disk.act a w).1

  pub Later-trans :
      {u v w : W} (xs : List Action) {ys : List Action}
      → Later u xs v
      → Later v ys w
      → Later u (xs ++ ys) w
  Later-trans {u} {v} xs p now = subst (λ acts. Later u acts v) (sym (append-nil xs)) p
  Later-trans {u} xs p (acting {acts} {w} a q) =
      subst (λ zs. Later u zs (m.disk.act a w).1) (append_assoc xs acts (a ∷ []))
        (acting a (Later-trans xs p q))

  module _ (Q : Action → Type 0) (start : Host W) where
    -- The actions since `start`, of which `Q` holds, and the world that they lead to.
    pub record Extends (h : Host W) : Type 0 where
      pub added : List Action
      pub in_order : h.acted ≡ start.acted ++ added
      pub each : All Q added
      pub later : Later start.world added h.world

    -- A run of `c` from `h` adds such actions only.
    pub record Ends {A : Type 0} (c : Handler W A) (h : Host W) : Type 0 where
      pub at : Extends (c h).1

    pub pure-Ends : {A : Type 0} (a : A) (h : Host W) → Extends h → Ends (pure a) h
    unfolding ◌>>=◌
    pure-Ends a h e = record { at = e }

    pub check-Ends :
        {A B : Type 0} (r : Outcome ToolError A) (f : A → Handler W B) (h : Host W)
        → Extends h
        → ((a : A) → r ≡ ok a → Ends (f a) h)
        → Ends (check r >>= f) h
    unfolding ◌>>=◌ check
    check-Ends (ok a) f h e k = record { at = (k a refl).at }
    check-Ends (err x) f h e k = record { at = e }
    check-Ends panic f h e k = record { at = e }

    -- Of what is read, nothing need be known.
    pub look-Ends :
        {A B : Type 0} (f : W → A) (g : A → Handler W B) (h : Host W)
        → Ends (g (f h.world)) h
        → Ends (look m f >>= g) h
    unfolding ◌>>=◌ look
    look-Ends f g h k = record { at = k.at }

    pub view-Ends :
        {B : Type 0} (g : Files → Handler W B) (h : Host W)
        → Ends (g (m.disk.files h.world)) h
        → Ends (view m >>= g) h
    unfolding ◌>>=◌ view
    view-Ends g h k = record { at = k.at }

    added_one :
        (h : Host W) (a : Action)
        → Extends h
        → Q a
        → Extends (record { world = (m.disk.act a h.world).1; acted = h.acted ++ a ∷ [] })
    added_one h a e q = record {
      added = e.added ++ a ∷ [];
      in_order = ap (λ s. s ++ a ∷ []) e.in_order ∙ append_assoc start.acted e.added (a ∷ []);
      each = All-append Q e.added (a ∷ []) e.each (q, tt);
      later = acting a e.later;
    }

    pub perform-Ends :
        {B : Type 0} (a : Action) (f : Reply → Handler W B) (h : Host W)
        → Extends h
        → Q a
        → ((r : Reply) (g : Host W) → Extends g → Ends (f r) g)
        → Ends (perform m a >>= f) h
    unfolding ◌>>=◌ perform
    perform-Ends a f h e q k =
        let (reply, w) = m.disk.act a h.world in
        let g : Host W = record { world = w; acted = h.acted ++ a ∷ [] } in
        record { at = (k reply g (added_one h a e q)).at }
