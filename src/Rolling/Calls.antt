-- ===== src/Rolling/Calls.antt =====
-- The calls of the rolling deployer as actions on the state of Docker: the instances of one project
-- by their ordinal, and the upstreams that nginx is configured with. What a call does is decided by
-- the `Host`, as a function of the number of calls made before.
use dev_ops_deployment_tool.Healing.PreviousImage.{ContainerInspection}
use dev_ops_deployment_tool.Common.{
  ℕ, suc, Bool, true, false, Option, none, some, List, ◌==◌, ◌&&◌, if◌then◌else◌,
}

-- A container: what Docker says of it, and whether it has been started and not stopped.
pub record Instance : Type 0 where
  pub inspection : ContainerInspection
  pub is_up : Bool

pub record Docker : Type 0 where
  pub instances : ℕ → Option Instance
  -- The upstreams of the file, and those that nginx has loaded.
  pub written : List ℕ
  pub loaded : List ℕ
  pub has_proxy : Bool
  pub calls : ℕ

-- A command takes effect, or throws with or without having taken it.
pub data Answer : Type 0 where
  done throws throws_late : Answer

pub record Host : Type 0 where
  pub answer : ℕ → Answer
  -- Whether a container that should be up is seen as running.
  pub sees : ℕ → Bool
  -- Whether a container answers its health check in time.
  pub passes : ℕ → ℕ → Bool

-- `none`: an exception.
abbrev pub Action : Type 0 → Type 0
Action A = Docker → Option A × Docker

abbrev pub and_then : {A B : Type 0} → Option A → (A → Action B) → Action B
and_then (some a) f d = f a d
and_then none f d = (none, d)

infixl 5 ◌>>=◌ ◌>>◌
abbrev pub ◌>>=◌ : {A B : Type 0} → Action A → (A → Action B) → Action B
◌>>=◌ m f d = let (r, d') = m d in and_then r f d'

abbrev pub ◌>>◌ : {A B : Type 0} → Action A → Action B → Action B
m >> n = m >>= λ _. n

abbrev pub pure : {A : Type 0} → A → Action A
pure a d = (some a, d)

abbrev pub throw : {A : Type 0} → Action A
throw d = (none, d)

abbrev pub count_call : Docker → Docker
count_call d = record d { calls = suc d.calls }

abbrev pub answered : Answer → (Docker → Docker) → Action (Unit {0})
answered done change d = (some tt, change (count_call d))
answered throws change d = (none, count_call d)
answered throws_late change d = (none, change (count_call d))

-- A command of Docker or nginx.
abbrev pub command : Host → (Docker → Docker) → Action (Unit {0})
command h change d = answered (h.answer d.calls) change d

abbrev pub put : ℕ → Option Instance → (ℕ → Option Instance) → ℕ → Option Instance
put i c instances j = if i == j then c else instances j

abbrev pub set_instance : ℕ → Option Instance → Docker → Docker
set_instance i c d = record d { instances = put i c d.instances }

abbrev pub stopped : Option Instance → Option Instance
stopped none = none
stopped (some c) = some (record c { is_up = false })

abbrev pub seen_up : Bool → Option Instance → Bool
seen_up sees none = false
seen_up sees (some c) = c.is_up && sees

-- `isContainerRunning`: never throws.
unfoldable pub is_container_running : Host → ℕ → Action Bool
is_container_running h i d = (some (seen_up (h.sees d.calls) (d.instances i)), count_call d)

-- `inspectContainer` of a running container.
abbrev pub inspection_of : Option Instance → Option ContainerInspection
inspection_of none = none
inspection_of (some c) = some c.inspection

unfoldable pub inspect_running : Host → ℕ → Action (Option ContainerInspection)
inspect_running h i d = (
  some (if seen_up (h.sees d.calls) (d.instances i) then inspection_of (d.instances i) else none),
  count_call d,
)

unfoldable pub stop_container : Host → ℕ → Action (Unit {0})
stop_container h i d = command h (set_instance i (stopped (d.instances i))) d

-- `removeContainerIfExists`
unfoldable pub remove_container : Host → ℕ → Action (Unit {0})
remove_container h i = command h (set_instance i none)

abbrev pub run_free : Host → ℕ → Instance → Option Instance → Action (Unit {0})
run_free h i c none d = command h (set_instance i (some c)) d
run_free h i c (some taken) d = (none, count_call d)

-- `runContainer`: Docker refuses a name that is taken.
unfoldable pub run_container : Host → ℕ → Instance → Action (Unit {0})
run_container h i c d = run_free h i c (d.instances i) d

-- `waitForHealthyViaDocker`
unfoldable pub wait_for_healthy : Host → ℕ → Action Bool
wait_for_healthy h i d = (some (h.passes d.calls i), count_call d)

-- `writeNginxConfig` and `reloadNginx`.
abbrev pub write_config : List ℕ → Docker → Docker
write_config names d = record d { written = names }

abbrev pub load_config : Docker → Docker
load_config d = record d { loaded = d.written }

unfoldable pub write_and_reload_nginx : Host → List ℕ → Action (Unit {0})
write_and_reload_nginx h names = command h (write_config names) >> command h load_config

abbrev pub set_proxy : Bool → Docker → Docker
set_proxy b d = record d { has_proxy = b }

-- `ensureProxyContainer`
unfoldable pub start_proxy : Host → Action (Unit {0})
start_proxy h d =
    if d.has_proxy && h.sees d.calls
    then (some tt, count_call d)
    else (command h (set_proxy false) >> command h (set_proxy true)) (count_call d)

unfoldable pub remove_proxy : Host → Action (Unit {0})
remove_proxy h = command h (set_proxy false)

-- `checkHealthViaDocker` of an instance that is seen as running.
unfoldable pub check_health : Host → Bool → ℕ → Action Bool
check_health h false i d = (some false, d)
check_health h true i d = (some (h.passes d.calls i), count_call d)
