-- ===== src/Controller/ReplicationErrors/Skip/Limits.antt =====
-- What applyAutoSkipWith may skip: how much, and which transactions.
use mysql_keeper.Prelude.{
  ℕ, ◌≤◌, ◌≡◌, ◌≢◌, ◌⊎◌, refl, inl, inr, List, [], ◌∷◌, ◌++◌, true, false, Option, none, some,
  arith, eq_iff, Bool-cases, All, is_empty,
}
use mysql_keeper.Prelude.Int.{ℤ, eqb_ℤ, eq_of_parts, ◌-ℤ◌}
use mysql_keeper.Go.Time.{Time, Duration}
use mysql_keeper.Go.Error.{Outcome, ok, err}
use mysql_keeper.Api.{ClusterSwitchPolicy}
use mysql_keeper.Api.Spec.{AutoSkipConfig}
use mysql_keeper.Api.Status.{SkippedTransaction, ReplicationErrorEntry}
use mysql_keeper.Controller.ReplicationErrors.History.{count_skips_in_window}
use mysql_keeper.Controller.ReplicationErrors.Skip.{
  Skipper, SkipCall, Skips, no_skips, skip_one, skip_all, apply_auto_skip, whitelisted,
  historical_skips, is_currently_quarantined, called,
}
use mysql_keeper.Controller.ReplicationErrors.Skip.Window.{recent}

-- What the loop keeps to, in its own count.
abbrev IsCounted : ℕ → List SkippedTransaction → Duration → Time → List SkippedTransaction → Type 0
IsCounted m history window now skipped =
    (count_skips_in_window history skipped window now ≤ m) ⊎ (skipped ≡ [])

-- Of the history and this cycle's skips together at most as many as the limit lie in the window, or
-- this cycle skips nothing.
abbrev pub IsWithin :
    ℕ → List SkippedTransaction → Duration → Time → List SkippedTransaction → Type 0
IsWithin m history window now skipped =
    (recent (now -ℤ window) (history ++ skipped) ≤ m) ⊎ (skipped ≡ [])

-- The error is one of those in the list.
abbrev pub IsListed : ReplicationErrorEntry → List ReplicationErrorEntry → Type 0
IsListed e [] = ⊥
IsListed e (x ∷ xs) = (e ≡ x) ⊎ IsListed e xs

-- The number is one of those in the list.
abbrev pub IsWhitelisted : List ℤ → ℤ → Type 0
IsWhitelisted [] errno = ⊥
IsWhitelisted (e ∷ es) errno = (e ≡ errno) ⊎ IsWhitelisted es errno

whitelisted-IsWhitelisted :
    (es : List ℤ) (errno : ℤ) → whitelisted es errno ≡ true → IsWhitelisted es errno
unfolding whitelisted
whitelisted-IsWhitelisted [] errno h = cc
whitelisted-IsWhitelisted (e ∷ es) errno h = elim (Bool-cases (eqb_ℤ e errno)) [
  | inl same ↦ inl (eq_of_parts e errno (ground arith))
  | inr other ↦ inr (whitelisted-IsWhitelisted es errno (simp (other) at h))
]

-- The transaction of an error of this cycle, whose number is whitelisted and whose GTID is known.
abbrev pub IsAllowed : AutoSkipConfig → List ReplicationErrorEntry → SkipCall → Type 0
IsAllowed cfg errors c =
    (e : ReplicationErrorEntry) × IsListed e errors
    × (c ≡ record { channel = e.channel; gtid = e.gtid })
    × IsWhitelisted cfg.error_code_whitelist e.errno
    × (e.gtid ≢ "")
    × (cfg.dry_run ≡ false)

module _ (skipper : Skipper) (cfg : AutoSkipConfig) (history : List SkippedTransaction) (now : Time)
    (errors : List ReplicationErrorEntry) where
  called-calls :
      (e : ReplicationErrorEntry) (s : Skips) (o : Outcome)
      → (called skipper cfg history now e s o).calls
        ≡ record { channel = e.channel; gtid = e.gtid } ∷ s.calls
  called-calls e s (ok _) = refl
  called-calls e s (err _) = refl

  -- One turn makes no call, or one for an error that may be skipped.
  skip_one-calls :
      (e : ReplicationErrorEntry) (s : Skips)
      → let s' = skip_one skipper cfg history now e s in
        (s'.calls ≡ s.calls)
        ⊎ ((s'.calls ≡ record { channel = e.channel; gtid = e.gtid } ∷ s.calls)
            × (whitelisted cfg.error_code_whitelist e.errno ≡ true)
            × (e.gtid ≢ "")
            × (cfg.dry_run ≡ false))
  unfolding skip_one
  skip_one-calls e s = ground (
    arith,
    eq_iff e.gtid "",
    called-calls e s (skipper s.calls (record { channel = e.channel; gtid = e.gtid })),
  )

  skip_one-IsAllowed :
      (e : ReplicationErrorEntry) (s : Skips)
      → IsListed e errors
      → All (IsAllowed cfg errors) s.calls
      → All (IsAllowed cfg errors) (skip_one skipper cfg history now e s).calls
  skip_one-IsAllowed e s listed h = elim (skip_one-calls e s) [
    | inl same ↦ rw same h
    | inr (more, listed_errno, known, wet) ↦ rw more (
      (
        e,
        listed,
        refl,
        whitelisted-IsWhitelisted cfg.error_code_whitelist e.errno listed_errno,
        known,
        wet,
      ),
      h,
    )
  ]

  skip_all-IsAllowed :
      (es : List ReplicationErrorEntry) (s : Skips)
      → ((e : ReplicationErrorEntry) → IsListed e es → IsListed e errors)
      → All (IsAllowed cfg errors) s.calls
      → All (IsAllowed cfg errors) (skip_all skipper cfg history now es s).calls
  unfolding skip_all
  skip_all-IsAllowed [] s sub h = h
  skip_all-IsAllowed (e ∷ es) s sub h =
      skip_all-IsAllowed es (skip_one skipper cfg history now e s) (λ x k. sub x (inr k))
        (skip_one-IsAllowed e s (sub e (inl refl)) h)

-- Nothing is called, or the gates before the loop are open and each call may be made.
abbrev pub AreCallsAllowed :
    ClusterSwitchPolicy → AutoSkipConfig → List ReplicationErrorEntry → List SkipCall → Type 0
AreCallsAllowed policy cfg errors calls =
    (calls ≡ [])
    ⊎ ((cfg.enabled ≡ true)
        × (is_currently_quarantined policy ≡ false)
        × All (IsAllowed cfg errors) calls)

-- A cycle calls the skipper for nothing, or auto-skip is enabled, the replica is not quarantined,
-- dry-run is off, and each call is for the channel and the known GTID of an error of this cycle
-- whose number is whitelisted.
pub apply_auto_skip-AreCallsAllowed :
    (policy : ClusterSwitchPolicy) (skipper : Option Skipper) (cfg : AutoSkipConfig)
    (errors : List ReplicationErrorEntry) (now : Time)
    → AreCallsAllowed policy cfg errors (apply_auto_skip policy skipper cfg errors now).calls
unfolding apply_auto_skip
apply_auto_skip-AreCallsAllowed policy none cfg errors now = ground arith
apply_auto_skip-AreCallsAllowed policy (some call) cfg errors now =
    let allowed =
      skip_all-IsAllowed call cfg (historical_skips policy) now errors errors no_skips (λ e k. k)
        tt in
    elim (Bool-cases cfg.enabled) [
      | inr off ↦ simp (off) (inl refl)
      | inl on ↦ elim (Bool-cases (is_empty errors)) [
        | inl none_there ↦ simp (on, none_there) (inl refl)
        | inr more ↦ elim (Bool-cases (is_currently_quarantined policy)) [
          | inl held ↦ simp (on, more, held) (inl refl)
          | inr free ↦ simp (on, more, free) (inr (refl, refl, allowed))
        ]
      ]
    ]
