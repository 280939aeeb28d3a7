-- ===== src/Server/Handlers/Writing/Permitted.antt =====
-- internal/mcpserver/tools.go: the handlers that change files do nothing to them but what is
-- permitted.
use go_core_mcp.Prelude.{
  ltb-false, not-false, ◌≡◌, ◌≢◌, ◌⊎◌, refl, sym, ◌∙◌, inl, inr, true, false, Bool, not, ◌&&◌,
  Bool-cases, [], Bytes, lit, bytes_eq, bytes_eq_iff, length, append-nil,
}
use go_core_mcp.Outcome.{ok_inj, Outcome, ok, err, panic, reject_if}
use go_core_mcp.Json.{Fields}
use go_core_mcp.Server.{ToolError}
use go_core_mcp.Server.Workspace.{
  Kind, Inspection, found, is_directory, optional_bool, require_string, resolve_path,
  resolve_touch_path,
}
use go_core_mcp.Server.Workspace.Laws.{resolve_path-IsResolved, resolve_touch_path-IsTouchable}
use go_core_mcp.Server.Machine.{
  Machine, Host, Action, create, set_times, make_directory, remove, write_text, copy_into, rename,
}
use go_core_mcp.Server.Handlers.Writing.{
  not_root, is_removable, is_found, may_write, write_mode, run_touch, run_mkdir, run_copy, run_move,
  run_remove, run_remove_directory, run_write_file,
}
use go_core_mcp.Server.Confinement.{
  IsUnseen, IsWritable, IsSource, IsTarget, IsPermitted, Later, Extends, Ends, pure-Ends,
  check-Ends, view-Ends, perform-Ends,
}

not_root_sound :
    (workspace : Bytes) (e : ToolError) (r : Outcome ToolError Bytes) {path : Bytes}
    → not_root workspace e r ≡ ok path
    → (r ≡ ok path) × (path ≢ workspace)
unfolding not_root
not_root_sound workspace e (ok p) h = elim (Bool-cases (bytes_eq p workspace)) [
  | inl b ↦ cc (rw b at h)
  | inr b ↦
      let same = rw b at h in (same, λ f. cc (b, (bytes_eq_iff p workspace).1 (ok_inj same ∙ f)))
]
not_root_sound workspace e (err x) h = cc
not_root_sound workspace e panic h = cc

is_removable_sound :
    (i : Inspection) {u : Unit {0}} → is_removable i ≡ ok u → (n : _) × (i ≡ found Kind.regular n)
unfolding is_removable
is_removable_sound (found Kind.regular n) h = (n, refl)
is_removable_sound (found Kind.directory n) h = cc
is_removable_sound (found Kind.other n) h = cc
is_removable_sound Inspection.absent h = cc
is_removable_sound Inspection.hidden h = cc

is_directory_sound :
    (i : Inspection) → is_directory i ≡ true → (n : _) × (i ≡ found Kind.directory n)
unfolding is_directory
is_directory_sound (found Kind.directory n) h = (n, refl)
is_directory_sound (found Kind.regular n) h = cc
is_directory_sound (found Kind.other n) h = cc
is_directory_sound Inspection.absent h = cc
is_directory_sound Inspection.hidden h = cc

reject_if_sound : (b : Bool) (e : ToolError) {u : Unit {0}} → reject_if b e ≡ ok u → b ≡ false
reject_if_sound true e h = cc
reject_if_sound false e h = refl

IsUnseen-or_asked :
    (i : Inspection) (overwrite : Bool)
    → (is_found i && not overwrite) ≡ false
    → IsUnseen i ⊎ (overwrite ≡ true)
IsUnseen-or_asked Inspection.absent overwrite h = inl IsUnseen.unseen_absent
IsUnseen-or_asked Inspection.hidden overwrite h = inl IsUnseen.unseen_hidden
IsUnseen-or_asked (found k n) true h = inr refl
IsUnseen-or_asked (found k n) false h = cc

may_write_sound :
    (arguments : Fields) (i : Inspection) {u : Unit {0}}
    → may_write
        (optional_bool arguments (lit "append"))
        (optional_bool arguments (lit "overwrite"))
        i
      ≡ ok u
    → IsWritable arguments (write_mode (optional_bool arguments (lit "append"))) i
unfolding may_write write_mode
may_write_sound arguments Inspection.absent h = IsWritable.fresh _
may_write_sound arguments Inspection.hidden h = cc
may_write_sound arguments (found Kind.directory n) h = cc
may_write_sound arguments (found Kind.other n) h = cc
may_write_sound arguments (found Kind.regular n) h =
    elim (Bool-cases (optional_bool arguments (lit "append"))) [
      | inl a ↦ rw a (IsWritable.appended a)
      | inr a ↦ elim (Bool-cases (optional_bool arguments (lit "overwrite"))) [
        | inl o ↦ rw a (IsWritable.replaced o)
        | inr o ↦ cc (rw (a, o) at h)
      ]
    ]

module _ {W : Type 0} (m : Machine W) (arguments : Fields) (h : Host W) where
  abbrev Permitted : Action → Type 0
  Permitted = IsPermitted m (m.disk.files h.world) arguments

  abbrev Done : Host W → Type 0
  Done = Extends m Permitted h

  pub nothing : Done h
  nothing = record { added = []; in_order = sym (append-nil h.acted); each = tt; later = Later.now }

  touched-IsTarget :
      (key relative : Bytes) {path : Bytes}
      → require_string arguments key ≡ ok relative
      → resolve_touch_path (m.disk.files h.world) m.workspace relative ≡ ok path
      → IsTarget m (m.disk.files h.world) arguments key path
  touched-IsTarget key relative given e = (
    relative,
    given,
    resolve_touch_path-IsTouchable (m.disk.files h.world) m.workspace relative e,
  )

  resolved-IsSource :
      (key relative : Bytes) {path : Bytes}
      → require_string arguments key ≡ ok relative
      → resolve_path (m.disk.files h.world) m.workspace relative ≡ ok path
      → IsSource m (m.disk.files h.world) arguments key path
  resolved-IsSource key relative given e =
      (relative, given, resolve_path-IsResolved (m.disk.files h.world) m.workspace relative e)

  pub run_touch-Ends : Ends m Permitted h (run_touch m arguments) h
  unfolding run_touch
  run_touch-Ends = check-Ends m _ _ _ _ h nothing λ relative given. view-Ends m _ _ _ h (
      check-Ends m _ _ _ _ h nothing λ path e.
        let stays = touched-IsTarget (lit "path") relative given e in
        perform-Ends m _ _ (create path) _ h nothing stays λ r g d. check-Ends m _ _ _ _ g d λ u _.
          perform-Ends m _ _ (set_times path) _ g d stays
            λ r g d. check-Ends m _ _ _ _ g d λ u _. pure-Ends m _ _ _ g d)

  pub run_mkdir-Ends : Ends m Permitted h (run_mkdir m arguments) h
  unfolding run_mkdir
  run_mkdir-Ends = check-Ends m _ _ _ _ h nothing λ relative given. view-Ends m _ _ _ h (
      check-Ends m _ _ _ _ h nothing λ path e.
        let stays = touched-IsTarget (lit "path") relative given e in
        perform-Ends m _ _ (make_directory path) _ h nothing stays
          λ r g d. check-Ends m _ _ _ _ g d λ u _. pure-Ends m _ _ _ g d)

  pub run_copy-Ends : Ends m Permitted h (run_copy m arguments) h
  unfolding run_copy
  run_copy-Ends =
      let files = m.disk.files h.world in
      check-Ends m _ _ _ _ h nothing λ source gs. check-Ends m _ _ _ _ h nothing λ destination gd.
        view-Ends m _ _ _ h (
          check-Ends m _ _ _ _ h nothing λ source_path sp. check-Ends m _ _ _ _ h nothing λ u _.
            check-Ends m _ _ _ _ h nothing λ path e. check-Ends m _ _ _ _ h nothing λ u _.
              check-Ends m _ _ _ _ h nothing λ u unused. check-Ends m _ _ _ _ h nothing λ u _.
                let stays = touched-IsTarget (lit "destination") destination gd e in
                let from = resolved-IsSource (lit "source") source gs sp in
                let may =
                  IsUnseen-or_asked (files.stat path) (optional_bool arguments (lit "overwrite"))
                    (reject_if_sound _ _ unused) in
                perform-Ends m _ _ (copy_into path (files.read source_path)) _ h nothing
                  (stays, ((source_path, from, refl), may))
                  λ r g d. check-Ends m _ _ _ _ g d λ u _. pure-Ends m _ _ _ g d)

  pub run_move-Ends : Ends m Permitted h (run_move m arguments) h
  unfolding run_move
  run_move-Ends =
      let files = m.disk.files h.world in
      check-Ends m _ _ _ _ h nothing λ source gs. check-Ends m _ _ _ _ h nothing λ destination gd.
        view-Ends m _ _ _ h (
          check-Ends m _ _ _ _ h nothing λ source_path s. check-Ends m _ _ _ _ h nothing λ path e.
            check-Ends m _ _ _ _ h nothing λ u unused.
              let (resolves, moves) =
                not_root_sound m.workspace _ (resolve_path files m.workspace source) s in
              let leaves = resolved-IsSource (lit "source") source gs resolves in
              let stays = touched-IsTarget (lit "destination") destination gd e in
              let may =
                IsUnseen-or_asked (files.lstat path) (optional_bool arguments (lit "overwrite"))
                  (reject_if_sound _ _ unused) in
              perform-Ends m _ _ (rename source_path path) _ h nothing
                (leaves, (moves, (stays, may)))
                λ r g d. check-Ends m _ _ _ _ g d λ u _. pure-Ends m _ _ _ g d)

  pub run_remove-Ends : Ends m Permitted h (run_remove m arguments) h
  unfolding run_remove
  run_remove-Ends =
      let files = m.disk.files h.world in
      check-Ends m _ _ _ _ h nothing λ relative given. view-Ends m _ _ _ h (
        check-Ends m _ _ _ _ h nothing λ path s. check-Ends m _ _ _ _ h nothing λ u file.
          let (resolves, goes) =
            not_root_sound m.workspace _ (resolve_path files m.workspace relative) s in
          let stays = resolved-IsSource (lit "path") relative given resolves in
          perform-Ends m _ _ (remove path) _ h nothing
            (stays, (goes, inl (is_removable_sound (files.lstat path) file)))
            λ r g d. check-Ends m _ _ _ _ g d λ u _. pure-Ends m _ _ _ g d)

  pub run_remove_directory-Ends : Ends m Permitted h (run_remove_directory m arguments) h
  unfolding run_remove_directory
  run_remove_directory-Ends =
      let files = m.disk.files h.world in
      check-Ends m _ _ _ _ h nothing λ relative given. view-Ends m _ _ _ h (
        check-Ends m _ _ _ _ h nothing λ path s. check-Ends m _ _ _ _ h nothing λ u is_dir.
          let (resolves, goes) =
            not_root_sound m.workspace _ (resolve_path files m.workspace relative) s in
          let stays = resolved-IsSource (lit "path") relative given resolves in
          let at =
            is_directory_sound (files.stat path) (not-false _ (reject_if_sound _ _ is_dir)) in
          perform-Ends m _ _ (remove path) _ h nothing (stays, (goes, inr at))
            λ r g d. check-Ends m _ _ _ _ g d λ u _. pure-Ends m _ _ _ g d)

  pub run_write_file-Ends : Ends m Permitted h (run_write_file m arguments) h
  unfolding run_write_file
  run_write_file-Ends =
      let files = m.disk.files h.world in
      check-Ends m _ _ _ _ h nothing λ relative given.
        check-Ends m _ _ _ _ h nothing λ content text. check-Ends m _ _ _ _ h nothing λ u fits.
          check-Ends m _ _ _ _ h nothing λ u _. view-Ends m _ _ _ h (
            check-Ends m _ _ _ _ h nothing λ path e. check-Ends m _ _ _ _ h nothing λ u w.
              let stays = touched-IsTarget (lit "path") relative given e in
              let bounded =
                ltb-false m.limits.max_file_write_bytes (length content)
                  (reject_if_sound _ _ fits) in
              let may = may_write_sound arguments (files.lstat path) w in
              perform-Ends m _ _
                (write_text path (write_mode (optional_bool arguments (lit "append"))) content) _ h
                nothing (stays, (text, (bounded, may)))
                λ r g d. check-Ends m _ _ _ _ g d λ u _. pure-Ends m _ _ _ g d)
