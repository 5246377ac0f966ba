-- ===== src/Status/Result.antt =====
-- `InvalidTransitionError` of packages/pipeline-engine/src/state-machine.ts (lines 20 to 34).
pub data Result {ℓ} (S : Type 0) (A : Type ℓ) : Type ℓ where
  ok : A → Result S A
  invalid_transition : (from to : S) → Result S A
