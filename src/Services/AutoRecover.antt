-- ===== src/Services/AutoRecover.antt =====
-- The automated recovery, src/ecallisto_ng/services/auto_recover.py: a watchdog for each
-- instrument with a budget of recoveries in a window. Running the host's hook and sending the
-- alert are entries of an effect log; the audit record and the log lines are left out.
use e_callisto_ng.Prelude.{
  ℕ, ◌+◌, Bool, true, false, not, Option, none, some, List, [], ◌∷◌, ◌++◌, length, put, leb, ltb,
  if◌then◌else◌,
}
use e_callisto_ng.Window.{expire}
use e_callisto_ng.Services.Runtime.{RecorderRuntime, is_late, stall_bound}
pub mod Budget
pub mod Escalation

pub record Settings : Type 0 where
  pub auto_recover : Bool
  pub stall_grace : ℕ
  pub auto_recover_budget : ℕ
  pub auto_recover_window : ℕ

pub data Effect : Type 0 where
  hook_recover : ℕ → ℕ → Effect
  alert : ℕ → Effect

pub record AutoRecover : Type 0 where
  pub history : ℕ → List ℕ
  pub alerted : ℕ → Bool

abbrev pub new_auto : AutoRecover
new_auto = record { history = λ i. []; alerted = λ i. false }

module _ (cfg : Settings) (i : ℕ) where
  unfoldable pub alert_once : AutoRecover → AutoRecover × List Effect
  alert_once a =
      if a.alerted i then (a, []) else (record a { alerted = put a.alerted i true }, alert i ∷ [])

  unfoldable pub attempt : ℕ → AutoRecover → AutoRecover × List Effect
  attempt now a = if leb cfg.auto_recover_budget (length (a.history i)) then alert_once a else (
    record a { history = put a.history i (a.history i ++ now ∷ []) },
    hook_recover i now ∷ [],
  )

  unfoldable pub expired : ℕ → AutoRecover → AutoRecover
  expired now a = record a {
    history = put a.history i (expire cfg.auto_recover_window now (a.history i));
  }

  unfoldable pub consider_row :
      ℕ → Option RecorderRuntime → ℕ → AutoRecover → AutoRecover × List Effect
  consider_row rate none now a = (a, [])
  consider_row rate (some r) now a =
      if is_late (stall_bound cfg.stall_grace rate) r now
      then attempt now (expired now a)
      else (record a { alerted = put a.alerted i false }, [])

  unfoldable pub consider : ℕ → Option RecorderRuntime → ℕ → AutoRecover → AutoRecover × List Effect
  consider rate row now a = if cfg.auto_recover then consider_row rate row now a else (a, [])
