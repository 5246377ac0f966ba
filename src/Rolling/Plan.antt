-- ===== src/Rolling/Plan.antt =====
-- What a rolling deployment is given and plans, and the batches of its ordinals.
use dev_ops_deployment_tool.Common.{
  ℕ, zero, suc, ◌+◌, ◌-◌, Bool, Option, none, some, List, [], ◌∷◌, String, ltb, leb, ◌==◌,
  if◌then◌else◌, includes_of,
}
use dev_ops_deployment_tool.Healing.PreviousImage.{
  ContainerInspection, Labels, resolve_previous_image, read_previous_image,
}

abbrev pub rolling_default_instances : ℕ
rolling_default_instances = 2

abbrev pub rolling_max_unavailable : ℕ
rolling_max_unavailable = 1

abbrev pub rolling_max_instances : ℕ
rolling_max_instances = 10

-- What a deployment is given: the image, the configured numbers, and `buildLabels`.
pub record Deploy : Type 0 where
  pub image_tag : String
  pub instances : Option ℕ
  pub max_unavailable : Option ℕ
  pub labels : ℕ → Labels

-- `RolloutPlan`
pub record RolloutPlan : Type 0 where
  pub instance_count : ℕ
  pub previous_image : Option String
  pub outgoing_label : Option String

pub data DeployResult : Type 0 where
  succeeded unsuccessful : DeployResult

-- Either the failure, or the updated ordinals.
pub data Progress : Type 0 where
  stop_with : DeployResult → Progress
  updated_to : List ℕ → Progress

abbrev pub or_default {ℓ} : {A : Type ℓ} → Option A → A → A
or_default (some a) b = a
or_default none b = b

abbrev pub min : ℕ → ℕ → ℕ
min a b = if leb a b then a else b

abbrev pub max : ℕ → ℕ → ℕ
max a b = if leb a b then b else a

abbrev pub is_excluded : List ℕ → ℕ → Bool
is_excluded ordinals i = includes_of (λ a b. a == b) ordinals i

-- `count` ordinals from `i` on.
unfoldable pub ordinals_from : ℕ → ℕ → List ℕ
ordinals_from i zero = []
ordinals_from i (suc count) = i ∷ ordinals_from (suc i) count

-- The batches of a loop `for (let i = 0; i < count; i += max_unavailable)`.
unfoldable pub batches : ℕ → ℕ → ℕ → ℕ → List (List ℕ)
batches zero count max_unavailable i = []
batches (suc fuel) count max_unavailable i =
    let rest = batches fuel count max_unavailable (i + max_unavailable) in
    if ltb i count then ordinals_from i (min max_unavailable (count - i)) ∷ rest else []

-- `instances ?? 2`
unfoldable pub instance_count : Deploy → ℕ
instance_count ctx = or_default ctx.instances rolling_default_instances

unfoldable pub max_unavailable : Deploy → ℕ
max_unavailable ctx =
    min (or_default ctx.max_unavailable rolling_max_unavailable) (instance_count ctx)

unfoldable pub plan_of : Deploy → ContainerInspection → RolloutPlan
plan_of ctx outgoing = record {
  instance_count = instance_count ctx;
  previous_image = resolve_previous_image (some outgoing) ctx.image_tag;
  outgoing_label = read_previous_image (some outgoing);
}
