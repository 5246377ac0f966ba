-- ===== src/Healing/Effects.antt =====
-- The calls that apps/runner/src/deployers/remediation-engine.ts makes to Docker, nginx and the
-- control plane. A call leaves a record in the log, and the host answers it as a function of the log.
use dev_ops_deployment_tool.Common.{ℕ, String, Bool, List, ◌∷◌, Option, none, some, if◌then◌else◌}

-- The healing events of packages/shared/src/types/enums.ts that the remediation engine records.
pub data HealingEventType : Type 0 where
  restart_started restart_succeeded restart_failed : HealingEventType
  rollback_started rollback_succeeded rollback_failed : HealingEventType

pub data Call : Type 0 where
  recorded : HealingEventType → (attempt : Option ℕ) → Call
  slept marked : Call
  restarted inspected removed stopped reloaded allocated : String → Call
  started : (name image : String) → Call
  wrote_proxy : (proxy upstream : String) → Call
  asked_running : String → Call
  probed : String → (passed : Bool) → Call

-- The calls made so far, the newest first.
abbrev pub Calls : Type 0
Calls = List Call

pub record Host : Type 0 where
  -- Whether the call throws.
  pub throws : Calls → Call → Bool
  pub running : Calls → String → Bool
  -- Whether the container answers its health check.
  pub passes : Calls → String → Bool
  -- `Date.now()`
  pub now : Calls → ℕ

-- `none`: an exception.
abbrev pub Action : Type 0 → Type 0
Action A = Calls → Option A × Calls

abbrev pub pure : {A : Type 0} → A → Action A
pure a log = (some a, log)

abbrev pub and_then : {A B : Type 0} → Option A → (A → Action B) → Action B
and_then (some a) f log = f a log
and_then none f log = (none, log)

infixl 5 ◌>>=◌ ◌>>◌
abbrev pub ◌>>=◌ : {A B : Type 0} → Action A → (A → Action B) → Action B
◌>>=◌ m f log = let (r, log') = m log in and_then r f log'

abbrev pub ◌>>◌ : {A B : Type 0} → Action A → Action B → Action B
m >> n = m >>= λ _. n

abbrev pub recover : {A : Type 0} → Option A → Action A → Action A
recover (some a) handler log = (some a, log)
recover none handler log = handler log

-- `try { body } catch { handler }`
abbrev pub try_catch : {A : Type 0} → Action A → Action A → Action A
try_catch body handler log = let (r, log') = body log in recover r handler log'

-- `recordHealingEvent`: never throws.
abbrev pub record_healing_event : HealingEventType → Option ℕ → Action (Unit {0})
record_healing_event event attempt log = (some tt, recorded event attempt ∷ log)

module _ (h : Host) where
  abbrev pub invoke : Call → Action (Unit {0})
  invoke c log = (if h.throws log c then none else some tt, c ∷ log)

  -- `isContainerRunning`
  abbrev pub is_container_running : String → Action Bool
  is_container_running name log =
      let c = asked_running name in
      (if h.throws log c then none else some (h.running log name), c ∷ log)

  -- `waitForHealthyViaDocker`
  abbrev pub wait_for_healthy : String → Action Bool
  wait_for_healthy name log =
      let c = probed name (h.passes log name) in
      (if h.throws log c then none else some (h.passes log name), c ∷ log)

  -- `checkHealthViaDocker`: a single probe.
  abbrev pub check_health : String → Action Bool
  check_health = wait_for_healthy

  -- `Date.now()`
  abbrev pub now : Action ℕ
  now log = (some (h.now log), log)
