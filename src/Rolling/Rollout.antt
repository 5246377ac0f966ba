-- ===== src/Rolling/Rollout.antt =====
-- A rollout that succeeds has replaced every instance.
use dev_ops_deployment_tool.Common.{
  ℕ, zero, suc, ◌<◌, ◌≤◌, ◌≡◌, refl, ap, ◌∙◌, inl, inr, Bool, true, false, Option, none, some, List,
  [], ◌∷◌, arith, Bool-cases,
}
use dev_ops_deployment_tool.Rolling.Calls.{
  Docker, Host, Answer, done, throws, throws_late, Instance, Action, ◌>>=◌, and_then, answered,
  command, count_call, set_instance, seen_up, stopped, put, is_container_running, stop_container,
  remove_container, write_and_reload_nginx, write_config, load_config,
}
use dev_ops_deployment_tool.Rolling.Plan.{
  RolloutPlan, is_excluded, ordinals_from, max, rolling_max_instances,
}
use dev_ops_deployment_tool.Rolling.Steps.{
  running_names, write_names, update_nginx, stop_if, stop_batch,
}

-- What holds if no exception was thrown.
abbrev pub Then : {A : Type 0} → (A → Docker → Type 0) → Option A × Docker → Type 0
Then W (some a, d) = W a d
Then W (none, d) = Unit

Then-ended :
    {A B : Type 0} (V : A → Docker → Type 0) (W : B → Docker → Type 0) (f : A → Action B)
    (r : Option A) (d : Docker)
    → Then V (r, d)
    → ((a : A) (d' : Docker) → V a d' → Then W (f a d'))
    → Then W (and_then r f d)
Then-ended V W f (some a) d v h = h a d v
Then-ended V W f none d v h = tt

pub Then-rule :
    {A B : Type 0} (V : A → Docker → Type 0) (W : B → Docker → Type 0) (m : Action A)
    (f : A → Action B) (d : Docker)
    → Then V (m d)
    → ((a : A) (d' : Docker) → V a d' → Then W (f a d'))
    → Then W ((m >>= f) d)
Then-rule V W m f d v h = Then-ended V W f (m d).0 (m d).1 v h

answered-Then :
    (a : Answer) (change : Docker → Docker) (d : Docker)
    → Then (λ _ d'. d' ≡ change (count_call d)) (answered a change d)
answered-Then done change d = refl
answered-Then throws change d = tt
answered-Then throws_late change d = tt

-- The instances are left alone.
abbrev pub Leaves : {A : Type 0} → Docker → A → Docker → Type 0
Leaves d a d' = d'.instances ≡ d.instances

pub Then-left :
    {A : Type 0} (d d₁ : Docker)
    → d₁.instances ≡ d.instances
    → (r : Option A × Docker) → Then (Leaves d₁) r
    → Then (Leaves d) r
Then-left d d₁ e (some a, d') l = l ∙ e
Then-left d d₁ e (none, d') l = tt

pub Then-any : {A : Type 0} (r : Option A × Docker) → Then (λ _ _. Unit) r
Then-any (some a, d) = tt
Then-any (none, d) = tt

pub Then-map :
    {A : Type 0} {V W : A → Docker → Type 0}
    → ((a : A) (d : Docker) → V a d → W a d)
    → (r : Option A × Docker) → Then V r
    → Then W r
Then-map h (some a, d) v = h a d v
Then-map h (none, d) v = tt

-- The instances below `b` are left alone.
abbrev pub Below : ℕ → Docker → Docker → Type 0
Below b d d' = (j : ℕ) → j < b → d'.instances j ≡ d.instances j

pub put-ne :
    (i j : ℕ) (c : Option Instance) (f : ℕ → Option Instance) → (i ≡ j → ⊥) → put i c f j ≡ f j
put-ne i j c f ne = ground arith

put_below :
    (i b j : ℕ) (c c' : Option Instance) (f g k : ℕ → Option Instance)
    → b ≤ i
    → j < b
    → g ≡ put i c' f
    → k ≡ put i c g
    → k j ≡ f j
put_below i b j c c' f g k below lt e e' =
    rw e' (put-ne i j c g (λ s. omega arith) ∙ rw e (put-ne i j c' f (λ s. omega arith)))

module _ (h : Host) where
  write_and_reload_nginx-Leaves :
      (names : List ℕ) (d : Docker) → Then (Leaves d) (write_and_reload_nginx h names d)
  unfolding write_and_reload_nginx
  write_and_reload_nginx-Leaves names d =
      Then-rule (λ _ d'. d' ≡ write_config names (count_call d)) (Leaves d)
        (command h (write_config names)) _ d
        (answered-Then (h.answer d.calls) (write_config names) d)
        (λ _ d' e.
          Then-map
            (λ _ d'' e'. ap (λ (x : Docker). x.instances) e' ∙ ap (λ (x : Docker). x.instances) e)
            (command h load_config d') (answered-Then (h.answer d'.calls) load_config d'))

  running_names-Leaves :
      (exclude is : List ℕ) (d : Docker) → Then (Leaves d) (running_names h exclude is d)
  unfolding running_names is_container_running
  running_names-Leaves exclude [] d = refl
  running_names-Leaves exclude (i ∷ is) d = elim (Bool-cases (is_excluded exclude i)) [
    | inl e ↦ rw e (running_names-Leaves exclude is d)
    | inr e ↦ rw e (
        Then-rule (Leaves (count_call d)) (Leaves d) (running_names h exclude is) _ (count_call d)
          (running_names-Leaves exclude is (count_call d)) (λ _ d' same. same))
  ]

  write_names-Leaves : (names : List ℕ) (d : Docker) → Then (Leaves d) (write_names h names d)
  write_names-Leaves [] d = refl
  write_names-Leaves (i ∷ is) d = write_and_reload_nginx-Leaves (i ∷ is) d

  pub update_nginx-Leaves :
      (plan : RolloutPlan) (exclude : List ℕ) (d : Docker)
      → Then (Leaves d) (update_nginx h plan exclude d)
  unfolding update_nginx
  update_nginx-Leaves plan exclude d =
      let is = ordinals_from 0 (max plan.instance_count rolling_max_instances) in
      Then-rule (Leaves d) (Leaves d) (running_names h exclude is) (write_names h) d
        (running_names-Leaves exclude is d)
        (λ names d' same.
          Then-left d d' same (write_names h names d') (write_names-Leaves names d'))

  -- A command on one instance.
  pub set-command :
      (i : ℕ) (c : Option Instance) (d : Docker)
      → Then (λ _ d'. d'.instances ≡ put i c d.instances) (command h (set_instance i c) d)
  set-command i c d =
      Then-map (λ _ d' e. ap (λ (x : Docker). x.instances) e) (command h (set_instance i c) d)
        (answered-Then (h.answer d.calls) (set_instance i c) d)

  stop_if-Below :
      (up : Bool) (i b : ℕ) (d : Docker) → b ≤ i → Then (λ _ d'. Below b d d') (stop_if h up i d)
  unfolding stop_container remove_container
  stop_if-Below false i b d below = λ j lt. refl
  stop_if-Below true i b d below =
      let c = stopped (d.instances i) in
      Then-rule (λ _ d'. d'.instances ≡ put i c d.instances) (λ _ d'. Below b d d')
        (command h (set_instance i c)) _ d (set-command i c d)
        (λ _ d₁ e.
          Then-map
            (λ _ d₂ e' j lt.
              put_below i b j none c d.instances d₁.instances d₂.instances below lt e e')
            (command h (set_instance i none) d₁) (set-command i none d₁))

  -- The old containers of a batch are those from its first ordinal on.
  pub stop_batch-Below :
      (i k b : ℕ) (d : Docker)
      → b ≤ i
      → Then (λ _ d'. Below b d d') (stop_batch h (ordinals_from i k) d)
  unfolding ordinals_from stop_batch is_container_running
  stop_batch-Below i zero b d below = λ j lt. refl
  stop_batch-Below i (suc k) b d below =
      let d₁ = count_call d in
      let up = seen_up (h.sees d.calls) (d.instances i) in
      Then-rule (λ _ d'. Below b d d') (λ _ d'. Below b d d') (stop_if h up i) _ d₁
        (stop_if-Below up i b d₁ below)
        (λ _ d₂ same.
          Then-map (λ _ d₃ same' j lt. same' j lt ∙ same j lt)
            (stop_batch h (ordinals_from (suc i) k) d₂)
            (stop_batch-Below (suc i) k b d₂ (omega arith)))
