-- ===== src/Switchover/PreFlight/Result.antt =====
-- The result of the checks: Severity, CheckResult, PreFlightResult, and the inputs PreFlight.
use Prim.Native.String.{len, slice, ◌++◌ as ◌+++◌}
use mysql_keeper.Prelude.{
  ℕ, String, List, [], ◌∷◌, ◌++◌, Bool, true, false, ◌&&◌, not, if◌then◌else◌, Option, keep, leb,
}
use mysql_keeper.Prelude.Int.{ℤ}
use mysql_keeper.Go.Time.{Duration}
use mysql_keeper.Go.Error.{text, Message}
use mysql_keeper.Pxc.Gtid.{GtidSnapshot}

pub data Severity : Type 0 where
  hard soft : Severity

abbrev pub is_hard : Severity → Bool
is_hard hard = true
is_hard soft = false

pub record CheckResult : Type 0 where
  pub name : String
  pub severity : Severity
  pub passed : Bool
  pub message : Message

pub record PreFlightResult : Type 0 where
  pub checks : List CheckResult
  pub local_snapshot : Option GtidSnapshot
  pub remote_snapshot : Option GtidSnapshot

-- OK: no hard check failed. The loop returns at the first that did.
unfoldable pub all_hard_passed : List CheckResult → Bool
all_hard_passed [] = true
all_hard_passed (c ∷ cs) = if not c.passed && is_hard c.severity then false else all_hard_passed cs

unfoldable pub is_ok : PreFlightResult → Bool
unfolding all_hard_passed
is_ok r = all_hard_passed r.checks

-- Failed: the checks that did not pass, hard or soft, in order.
pub failed : PreFlightResult → List CheckResult
failed r = keep (λ c. not c.passed) r.checks

abbrev pub severity_text : Severity → String
severity_text hard = "hard"
severity_text soft = "soft"

abbrev status_string : CheckResult → String
status_string c = if c.passed then "OK" else "FAIL"

abbrev part : CheckResult → Message
part c =
    text "["
    ∷ text (severity_text c.severity)
    ∷ text " "
    ∷ text (status_string c)
    ∷ text "] "
    ∷ text c.name
    ∷ text ": "
    ∷ c.message

-- strings.Join of the parts.
abbrev joined : List CheckResult → Message
joined [] = []
joined (c ∷ []) = part c
joined (c ∷ d ∷ cs) = part c ++ (text "; " ∷ joined (d ∷ cs))

pub summary : PreFlightResult → Message
summary r = summary_of (failed r)
  where
    summary_of : List CheckResult → Message
    summary_of [] = text "all checks passed" ∷ []
    summary_of (c ∷ cs) = joined (c ∷ cs)

pub record PreFlight : Type 0 where
  pub remote_pxc : Bool
  pub local_inspector : Bool
  pub remote_inspector : Bool
  pub channel : String
  pub catchup_timeout : Duration
  pub min_binlog_retention_second : ℤ
  pub allow_data_loss_failover : Bool
  pub local_replica_quarantined : Bool
  pub local_quarantine_reason : Message

-- `truncate(s, max)`, by bytes.
pub truncate : String → ℕ → String
truncate s max = if leb (len s) max then s else slice s 0 max +++ "…"

-- A check that passes or fails with its message.
abbrev pub pass : String → Severity → Message → CheckResult
pass n v m = record { name = n; severity = v; passed = true; message = m }

abbrev pub fail : String → Severity → Message → CheckResult
fail n v m = record { name = n; severity = v; passed = false; message = m }
