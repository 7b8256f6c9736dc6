-- ===== src/Pxc/GtidSet.antt =====
-- CountGTIDTransactions of internal/pxc/gtid.go: how many transactions a GTID set stands for. A text
-- is its bytes; strings.TrimSpace and strconv.ParseInt are arguments.
pub mod Additive
pub mod Layout
pub mod Rendered
mod Tests
use mysql_keeper.Prelude.{ℕ, List, [], ◌∷◌, Option, none, some, if◌then◌else◌, ◌==◌, is_empty}
use mysql_keeper.Prelude.Int.{ℤ, pos, ◌+ℤ◌, ◌-ℤ◌, leb_ℤ, wrap64}

abbrev pub Bytes : Type 0
Bytes = List ℕ

-- strings.Split on one byte: the first part, and the others.
unfoldable pub split : ℕ → Bytes → Bytes × List Bytes
split sep [] = ([], [])
split sep (c ∷ cs) =
    let (part, parts) = split sep cs in if c == sep then ([], part ∷ parts) else (c ∷ part, parts)

abbrev pub nonempty : List Bytes → List Bytes
nonempty [] = []
nonempty (p ∷ ps) = let rest = nonempty ps in if is_empty p then rest else p ∷ rest

-- strings.FieldsFunc on one byte: the parts that are not empty.
unfoldable pub fields : ℕ → Bytes → List Bytes
unfolding split
fields sep s = let (part, parts) = split sep s in nonempty (part ∷ parts)

-- What stands before and after the first dash.
unfoldable pub at_dash : Bytes → Option (Bytes × Bytes)
at_dash [] = none
at_dash (c ∷ cs) =
    let rest = at_dash cs in
    if c == 45 then some ([], cs) else elim rest [ none ↦ none | some (lo, hi) ↦ some (c ∷ lo, hi) ]

module _ (trim_space : Bytes → Bytes) (parse_int : Bytes → Option ℤ) where
  unfoldable pub add_range : ℤ → Option ℤ → Option ℤ → ℤ
  add_range total (some lo) (some hi) =
      if leb_ℤ lo hi then wrap64 (total +ℤ wrap64 (wrap64 (hi -ℤ lo) +ℤ pos 1)) else total
  add_range total _ _ = total

  unfoldable pub add_single : ℤ → Option ℤ → ℤ
  add_single total none = total
  add_single total (some n) = wrap64 (total +ℤ pos 1)

  unfoldable pub add_interval : ℤ → Bytes → Option (Bytes × Bytes) → ℤ
  unfolding add_range add_single
  add_interval total iv (some (lo, hi)) = add_range total (parse_int lo) (parse_int hi)
  add_interval total iv none = add_single total (parse_int iv)

  unfoldable pub add_trimmed : ℤ → Bytes → ℤ
  unfolding add_interval at_dash
  add_trimmed total iv = if is_empty iv then total else add_interval total iv (at_dash iv)

  unfoldable pub add_intervals : ℤ → List Bytes → ℤ
  unfolding add_trimmed
  add_intervals total [] = total
  add_intervals total (iv ∷ ivs) = add_intervals (add_trimmed total (trim_space iv)) ivs

  -- The first part of an entry is its UUID.
  unfoldable pub add_entry : ℤ → Bytes → ℤ
  unfolding add_intervals split
  add_entry total entry = if is_empty entry then total else add_intervals total (split 58 entry).1

  unfoldable pub add_entries : ℤ → List Bytes → ℤ
  unfolding add_entry
  add_entries total [] = total
  add_entries total (e ∷ es) = add_entries (add_entry total (trim_space e)) es

  unfoldable pub count_gtid_transactions : Bytes → ℤ
  unfolding add_entries fields
  count_gtid_transactions s = if is_empty s then pos 0 else add_entries (pos 0) (fields 44 s)
