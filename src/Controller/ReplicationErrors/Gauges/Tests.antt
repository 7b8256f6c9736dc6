-- ===== src/Controller/ReplicationErrors/Gauges/Tests.antt =====
-- Cycles in which an error comes and goes.
use mysql_keeper.Prelude.{◌≡◌, ◌↔◌, refl, [], ◌∷◌, true, false, some, none, arith, map, ◌+◌}
use mysql_keeper.Prelude.Int.{ℤ, pos, negsuc}
use mysql_keeper.Controller.ReplicationErrors.LabelKey.{
  Bytes, label_key, parse_label_key, split_n, cut, four,
}
use mysql_keeper.Controller.ReplicationErrors.Gauges.{
  LabelState, label_cycle, key_mem, bytes_eq, starts_with,
}
use mysql_keeper.Controller.ReplicationErrors.Gauges.Exact.{cycle-IsExact}
use Prim.Native.Nat.{◌/◌, ◌%◌}

-- Four digits.
abbrev digits : ℤ → Bytes
digits (pos n) = (48 + n / 1000) ∷ (48 + n / 100 % 10) ∷ (48 + n / 10 % 10) ∷ (48 + n % 10) ∷ []
digits (negsuc n) = 45 ∷ []

-- The labels "u", "v", "dc" and "dr".
abbrev uid : Bytes
uid = 117 ∷ []

abbrev other_uid : Bytes
other_uid = 118 ∷ []

abbrev role : Bytes
role = 100 ∷ 99 ∷ []

abbrev channel : Bytes
channel = 100 ∷ 114 ∷ []

abbrev unset : LabelState
unset = record { active = []; gauge = λ x. none }

abbrev with_1062 : LabelState
with_1062 = label_cycle digits uid role channel [] (some (pos 1062 ∷ [])) unset

abbrev then_1032 : LabelState
then_1032 = label_cycle digits uid role channel [] (some (pos 1032 ∷ [])) with_1062

gauge_cleared : then_1032.gauge (role, channel, digits (pos 1062)) ≡ some false
unfolding label_cycle label_key parse_label_key split_n cut four key_mem bytes_eq starts_with
gauge_cleared = refl

-- A policy of the same role and channel that finds nothing.
gauge_shared :
    (label_cycle digits other_uid role channel [] (some []) with_1062).gauge
      (role, channel, digits (pos 1062))
    ≡ some false
unfolding label_cycle label_key parse_label_key split_n cut four key_mem bytes_eq starts_with
gauge_shared = refl

cycle-IsExact_example : (then_1032.gauge (role, channel, digits (pos 1032)) ≡ some true) ↔ (
    (role ≡ role)
    × (channel ≡ channel)
    × (key_mem (digits (pos 1032)) (map digits (pos 1032 ∷ [])) ≡ true))
cycle-IsExact_example =
    (cycle-IsExact digits uid role channel (omega arith) (omega arith) (omega arith) []
        (pos 1032 ∷ []) with_1062
        (cycle-IsExact digits uid role channel (omega arith) (omega arith) (omega arith) []
          (pos 1062 ∷ []) unset (λ r c e h. cc)).1).0
      role channel (digits (pos 1032))
