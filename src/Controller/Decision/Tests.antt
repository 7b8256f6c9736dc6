-- ===== src/Controller/Decision/Tests.antt =====
-- Decisions on concrete policies.
use mysql_keeper.Prelude.{◌≡◌, ◌≢◌, ◌↔◌, ◌⊎◌, refl, [], ◌∷◌, true, arith}
use mysql_keeper.Prelude.Int.{pos}
use mysql_keeper.Health.{writable_unknown, writable_no}
use mysql_keeper.Controller.HealthStatus.Counters.{Cycle}
use mysql_keeper.Controller.Decision.{evaluate_switchover}
use mysql_keeper.Controller.Decision.Criteria.{
  IsCooling, IsManual, MayFailOver, evaluate-should_iff,
}
use mysql_keeper.Controller.Decision.Sustained.{policy_after, sustained_silence_flips}
use mysql_keeper.Controller.Samples.{sample_policy, silent, replica}

evaluate-should_iff_example :
    ((evaluate_switchover sample_policy silent replica (pos 5)).should ≡ true) ↔ (
      ¬ (IsCooling sample_policy (pos 5))
      × (IsManual sample_policy ⊎ MayFailOver sample_policy silent replica))
evaluate-should_iff_example = evaluate-should_iff sample_policy silent replica (pos 5)

abbrev cycle : Cycle
cycle = record { now = pos 1; local_h = silent; remote_h = replica }

silent-unknown : writable_unknown ≢ writable_no
silent-unknown = λ p. cc

-- One silent cycle before, and two more.
sustained_silence_flips_example :
    (evaluate_switchover
      (policy_after (cycle ∷ cycle ∷ []) sample_policy)
      silent
      replica
      (pos 5)).should
    ≡ true
sustained_silence_flips_example =
    sustained_silence_flips sample_policy (cycle ∷ cycle ∷ []) 1 3 silent replica (pos 5) refl refl
      refl refl ((refl, refl), ((refl, refl), tt)) (omega arith) (omega arith) (λ k. k)
      (refl, refl, silent-unknown)
