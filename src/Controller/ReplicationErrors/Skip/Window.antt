-- ===== src/Controller/ReplicationErrors/Skip/Window.antt =====
-- The skips that are not older than a window, and the count of countSkipsInWindow.
use mysql_keeper.Prelude.{
  ℕ, suc, ◌+◌, ◌≡◌, refl, List, [], ◌∷◌, ◌++◌, not, arith, length, keep, if◌then◌else◌, ◌∙◌, ap,
}
use mysql_keeper.Prelude.Int.{
  pos, ◌-ℤ◌, ◌+ℤ◌, ◌<ℤ◌, leb_ℤ, InInt64, wrap64_self, eq_of_parts, +ℤ_parts, -ℤ_parts,
}
use mysql_keeper.Go.Time.{Time, Duration, before, add, negate}
use mysql_keeper.Api.Status.{SkippedTransaction}
use mysql_keeper.Controller.ReplicationErrors.History.{count_skips_in_window, in_window}

-- How many of the skips are not older than an instant.
abbrev pub recent : Time → List SkippedTransaction → ℕ
recent since [] = 0
recent since (e ∷ es) =
    let rest = recent since es in if leb_ℤ since e.skipped_at then suc rest else rest

cutoff :
    (window : Duration) (now : Time)
    → pos 0 <ℤ window
    → InInt64 window
    → add now (negate window) ≡ now -ℤ window
unfolding add negate
cutoff window now positive fits =
    ap (λ d. now +ℤ d) (wrap64_self (pos 0 -ℤ window) (grind (arith, -ℤ_parts)))
    ∙ eq_of_parts (now +ℤ (pos 0 -ℤ window)) (now -ℤ window) (grind (arith, +ℤ_parts, -ℤ_parts))

not_before : (t c : Time) → not (before t c) ≡ leb_ℤ c t
not_before t c = ground arith

in_window-recent :
    (window : Duration) (now : Time) (e : SkippedTransaction)
    → pos 0 <ℤ window
    → InInt64 window
    → in_window window now e ≡ leb_ℤ (now -ℤ window) e.skipped_at
in_window-recent window now e positive fits =
    rw (cutoff window now positive fits) (not_before e.skipped_at (now -ℤ window))

keep-recent :
    (window : Duration) (now : Time) (xs : List SkippedTransaction)
    → pos 0 <ℤ window
    → InInt64 window
    → length (keep (in_window window now) xs) ≡ recent (now -ℤ window) xs
keep-recent window now [] positive fits = refl
keep-recent window now (x ∷ xs) positive fits =
    ground
      (arith, in_window-recent window now x positive fits, keep-recent window now xs positive fits)

recent-append :
    (since : Time) (xs ys : List SkippedTransaction)
    → recent since (xs ++ ys) ≡ recent since xs + recent since ys
recent-append since [] ys = ground arith
recent-append since (x ∷ xs) ys = ground (arith, recent-append since xs ys)

pub count-recent :
    (history skipped : List SkippedTransaction) (window : Duration) (now : Time)
    → pos 0 <ℤ window
    → InInt64 window
    → count_skips_in_window history skipped window now ≡ recent (now -ℤ window) (history ++ skipped)
unfolding count_skips_in_window
count-recent history skipped window now positive fits = ground (
  arith,
  keep-recent window now history positive fits,
  keep-recent window now skipped positive fits,
  recent-append (now -ℤ window) history skipped,
)
