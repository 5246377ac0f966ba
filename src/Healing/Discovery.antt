-- ===== src/Healing/Discovery.antt =====
-- `discoverDeployments` and `reconcile` of apps/runner/src/deployers/health-monitor.ts (lines 125 to
-- 226). Left out are the warnings and the fields that are only passed on to the probes and the
-- reports: the run, the image, the path and the port of the health check.
use dev_ops_deployment_tool.Common.{
  ◌≡◌, ◌∙◌, refl, sym, String, Bool, false, ◌&&◌, ◌||◌, List, [], ◌∷◌, ◌++◌, Option, none, some,
  str_eq, eq_iff, if◌then◌else◌, Bool-cases, inl, inr, arith,
}
use mathlib.Core.Path.{subst}
use dev_ops_deployment_tool.Healing.Window.{create_window}
use dev_ops_deployment_tool.Healing.Remediation.{
  Color, blue, green, DeploymentRef, create_remediation_state,
}
use dev_ops_deployment_tool.Healing.Monitor.{MonitoredDeployment}

-- What Docker lists and says of a container with the label `deployx.role=app`.
pub record Inspection : Type 0 where
  pub label : String → Option String
  -- `readPreviousImage(inspection)`
  pub previous_image : Option String

pub record Container : Type 0 where
  pub name : String
  -- `c.status.toLowerCase().startsWith("up")`
  pub is_up : Bool
  pub inspection : Option Inspection

pub record DiscoveredContainer : Type 0 where
  pub container_name : String
  pub project_slug : String
  pub deployment_id : String
  pub color : Option Color
  pub strategy : String
  pub previous_image : Option String

-- `label ?? other`
abbrev pub or_else : Option String → String → String
or_else none other = other
or_else (some x) other = x

-- A label of another text than "blue" is treated as "green" is.
abbrev pub color_of : Option String → Option Color
color_of none = none
color_of (some x) = some (if str_eq x "blue" then blue else green)

-- One round of the loop, for a container that is up and has been inspected.
unfoldable pub discover_inspected : String → Inspection → List DiscoveredContainer
discover_inspected name i =
    let slug = or_else (i.label "deployx.project") "" in
    let id = or_else (i.label "deployx.deployment") "" in
    let strategy = or_else (i.label "deployx.strategy") "blue_green" in
    if str_eq slug "" || str_eq id "" || str_eq (or_else (i.label "deployx.runId") "") ""
    then []
    else (if str_eq (or_else (i.label "deployx.color") "") "" && str_eq strategy "blue_green"
        then []
        else record {
          container_name = name;
          project_slug = slug;
          deployment_id = id;
          color = color_of (i.label "deployx.color");
          strategy = strategy;
          previous_image = i.previous_image;
        }
          ∷ [])

abbrev pub discover_one : Container → List DiscoveredContainer
discover_one c =
    if c.is_up then (elim c.inspection [ none ↦ [] | some i ↦ discover_inspected c.name i ]) else []

-- `discoverDeployments`
unfoldable pub discover_deployments : List Container → List DiscoveredContainer
unfolding discover_inspected
discover_deployments [] = []
discover_deployments (c ∷ cs) = discover_one c ++ discover_deployments cs

-- The map `deployments`, in the order of its keys.
abbrev pub Deployments : Type 0
Deployments = List (String × MonitoredDeployment)

unfoldable pub get : Deployments → String → Option MonitoredDeployment
get [] id = none
get ((k, m) ∷ ms) id = if str_eq k id then some m else get ms id

-- `newMap.set(id, m)`: a key that is there keeps its place.
unfoldable pub set : String → MonitoredDeployment → Deployments → Deployments
set id m [] = (id, m) ∷ []
set id m ((k, n) ∷ ms) =
    let rest = set id m ms in if str_eq k id then (k, m) ∷ ms else (k, n) ∷ rest

abbrev pub effective_color : Option Color → Color
effective_color none = blue
effective_color (some c) = c

-- What `reconcile` keeps for a discovered container, if `existing` was kept for its deployment.
abbrev pub monitored_of : Option MonitoredDeployment → DiscoveredContainer → MonitoredDeployment
monitored_of (some existing) d = record existing {
  ref = record existing.ref {
    container_name = d.container_name;
    current_color = effective_color d.color;
    previous_image_tag = d.previous_image;
  };
}
monitored_of none d = record {
  ref = record {
    project_slug = d.project_slug;
    container_name = d.container_name;
    current_color = effective_color d.color;
    previous_image_tag = d.previous_image;
    strategy = some d.strategy;
  };
  window = create_window 10;
  remediation_state = create_remediation_state;
}

-- The loop of `reconcile`.
unfoldable pub reconcile_onto : Deployments → List DiscoveredContainer → Deployments → Deployments
unfolding get set
reconcile_onto old [] new = new
reconcile_onto old (d ∷ ds) new =
    reconcile_onto old ds (set d.deployment_id (monitored_of (get old d.deployment_id) d) new)

-- `reconcile`
unfoldable pub reconcile : Deployments → List DiscoveredContainer → Deployments
unfolding reconcile_onto
reconcile old discovered = reconcile_onto old discovered []

get-set :
    (id x : String) (m : MonitoredDeployment) (ms : Deployments)
    → get (set id m ms) x ≡ (if str_eq id x then some m else get ms x)
unfolding get set
get-set id x m [] = refl
get-set id x m ((k, n) ∷ ms) =
    ground (arith, eq_iff k id, eq_iff id x, eq_iff k x, get-set id x m ms)

-- The last container of the deployment `id` in the list.
abbrev pub last_container :
    String → List DiscoveredContainer → Option DiscoveredContainer → Option DiscoveredContainer
last_container id [] found = found
last_container id (d ∷ ds) found =
    last_container id ds (if str_eq d.deployment_id id then some d else found)

abbrev monitored :
    Option MonitoredDeployment → Option DiscoveredContainer → Option MonitoredDeployment
monitored existing none = none
monitored existing (some d) = some (monitored_of existing d)

get-set-monitored :
    (old new : Deployments) (id : String) (d : DiscoveredContainer)
    → get (set d.deployment_id (monitored_of (get old d.deployment_id) d) new) id
      ≡ (if str_eq d.deployment_id id then some (monitored_of (get old id) d) else get new id)
get-set-monitored old new id d = elim (Bool-cases (str_eq d.deployment_id id)) [
  | inl e ↦
      let same : d.deployment_id ≡ id = (eq_iff d.deployment_id id).0 e in
      get-set d.deployment_id id (monitored_of (get old d.deployment_id) d) new
      ∙ (rw (e, same) refl)
  | inr e ↦ get-set d.deployment_id id (monitored_of (get old d.deployment_id) d) new ∙ (rw e refl)
]

reconcile_onto-last :
    (old : Deployments) (id : String) (ds : List DiscoveredContainer) (new : Deployments)
    (found : Option DiscoveredContainer)
    → get new id ≡ monitored (get old id) found
    → get (reconcile_onto old ds new) id ≡ monitored (get old id) (last_container id ds found)
unfolding reconcile_onto
reconcile_onto-last old id [] new found e = e
reconcile_onto-last old id (d ∷ ds) new found e =
    reconcile_onto-last old id ds
      (set d.deployment_id (monitored_of (get old d.deployment_id) d) new)
      (if str_eq d.deployment_id id then some d else found)
      (get-set-monitored old new id d ∙ (elim (Bool-cases (str_eq d.deployment_id id)) [
        | inl same ↦ rw same refl
        | inr other ↦ rw other e
      ]))

abbrev pub IsShown : Option Color → Color → Type 0
IsShown none color = color ≡ blue
IsShown (some c) color = color ≡ c

IsShown-refl : (c : Option Color) → IsShown c (effective_color c)
IsShown-refl none = refl
IsShown-refl (some c) = refl

-- What the remediation engine is told of the container.
abbrev pub IsOf : DiscoveredContainer → DeploymentRef → Type 0
IsOf d ref =
    (ref.container_name ≡ d.container_name)
    × (ref.previous_image_tag ≡ d.previous_image)
    × IsShown d.color ref.current_color

-- The record of the container `d`, with the window and the counted restarts of the record before, or
-- with none where there was no record.
abbrev pub Follows :
    Option MonitoredDeployment → Option DiscoveredContainer → Option MonitoredDeployment → Type 0
Follows before none after = after ≡ none
Follows before (some d) none = ⊥
Follows (some m) (some d) (some n) =
    (n.window ≡ m.window)
    × (n.remediation_state ≡ m.remediation_state)
    × (n.ref.project_slug ≡ m.ref.project_slug)
    × (n.ref.strategy ≡ m.ref.strategy)
    × IsOf d n.ref
Follows none (some d) (some n) =
    (n.window.entries ≡ [])
    × (n.window.window_size ≡ 10)
    × (n.remediation_state.restart_count ≡ 0)
    × (n.remediation_state.is_remediating ≡ false)
    × (n.ref.project_slug ≡ d.project_slug)
    × (n.ref.strategy ≡ some d.strategy)
    × IsOf d n.ref

monitored-Follows :
    (before : Option MonitoredDeployment) (found : Option DiscoveredContainer)
    → Follows before found (monitored before found)
monitored-Follows before none = refl
monitored-Follows none (some d) =
    (refl, refl, refl, refl, refl, refl, (refl, refl, IsShown-refl d.color))
monitored-Follows (some m) (some d) = (refl, refl, refl, refl, (refl, refl, IsShown-refl d.color))

-- After `reconcile`, a deployment without a discovered container is forgotten. Any other one is
-- monitored through the last of its containers, with this container's name, color (blue if it has
-- none) and previous image: it keeps the window, the remediation state, the project and the strategy
-- that were kept for it, or starts with an empty window of ten results, no counted restart, and the
-- container's project and strategy.
pub reconcile_lem :
    (old : Deployments) (ds : List DiscoveredContainer) (id : String)
    → Follows (get old id) (last_container id ds none) (get (reconcile old ds) id)
unfolding reconcile get
reconcile_lem old ds id =
    subst (Follows (get old id) (last_container id ds none))
      (sym (reconcile_onto-last old id ds [] none refl))
      (monitored-Follows (get old id) (last_container id ds none))
