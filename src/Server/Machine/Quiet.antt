-- ===== src/Server/Machine/Quiet.antt =====
-- Runs that leave everything as it was, one rule for each way to build one.
use go_core_mcp.Prelude.{◌≡◌, refl, ◌∙◌, Bool, true, false, if◌then◌else◌}
use go_core_mcp.Outcome.{Outcome, ok, err, panic}
use go_core_mcp.Exec.{pure, ◌>>=◌, continue}
use go_core_mcp.Server.{ToolError}
use go_core_mcp.Server.Calls.{HandlerError}
use go_core_mcp.Server.Machine.{Machine, Host, Handler, check, view, look}

module _ {W : Type 0} where
  -- Neither the world nor the log of its actions is changed, whether the run succeeds or fails.
  pub record Quiet {A : Type 0} (c : Handler W A) : Type 0 where
    pub same : (h : Host W) → (c h).1 ≡ h

  pub Quiet-pure : {A : Type 0} (a : A) → Quiet (pure a)
  Quiet-pure a = record { same = λ h. refl }

  pub Quiet-check : {A : Type 0} (r : Outcome ToolError A) → Quiet (check {W = W} r)
  unfolding check
  Quiet-check r = record { same = λ h. refl }

  pub Quiet-if :
      {A : Type 0} (b : Bool) (c d : Handler W A) → Quiet c → Quiet d → Quiet (if b then c else d)
  Quiet-if true c d qc qd = qc
  Quiet-if false c d qc qd = qd

  continue-same :
      {A B : Type 0} (r : Outcome HandlerError A) (f : A → Handler W B) (h : Host W)
      → ((a : A) → Quiet (f a))
      → (continue r f h).1 ≡ h
  continue-same (ok a) f h k = (k a).same h
  continue-same (err e) f h k = refl
  continue-same panic f h k = refl

  pub Quiet-bind :
      {A B : Type 0} (c : Handler W A) (f : A → Handler W B)
      → Quiet c
      → ((a : A) → Quiet (f a))
      → Quiet (c >>= f)
  unfolding ◌>>=◌
  Quiet-bind c f qc k = record { same = λ h. continue-same (c h).0 f (c h).1 k ∙ qc.same h }

module _ {W : Type 0} (m : Machine W) where
  pub Quiet-view : Quiet (view m)
  unfolding view
  Quiet-view = record { same = λ h. refl }

  pub Quiet-look : {A : Type 0} (f : W → A) → Quiet (look m f)
  unfolding look
  Quiet-look f = record { same = λ h. refl }

pub ruleset quiet_rules = (Quiet-pure, Quiet-check, Quiet-if, Quiet-bind, Quiet-view, Quiet-look)
