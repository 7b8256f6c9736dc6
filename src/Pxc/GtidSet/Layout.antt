-- ===== src/Pxc/GtidSet/Layout.antt =====
-- A GTID set, its size, and its text as a server prints it.
use mysql_keeper.Prelude.{
  ℕ, suc, false, ◌+◌, ◌-◌, ◌≤◌, ◌≡◌, ◌≢◌, List, [], ◌∷◌, ◌++◌, All, if◌then◌else◌, leb, is_empty,
}
use mysql_keeper.Pxc.GtidSet.{Bytes}

pub data Interval : Type 0 where
  one : ℕ → Interval
  range : ℕ → ℕ → Interval

-- A server, and the transactions of it.
pub record Entry : Type 0 where
  pub uuid : Bytes
  pub intervals : List Interval

abbrev pub interval_size : Interval → ℕ
interval_size (one n) = 1
interval_size (range lo hi) = if leb lo hi then suc (hi - lo) else 0

abbrev pub intervals_size : List Interval → ℕ
intervals_size [] = 0
intervals_size (i ∷ is) = interval_size i + intervals_size is

abbrev pub set_size : List Entry → ℕ
set_size [] = 0
set_size (e ∷ es) = intervals_size e.intervals + set_size es

abbrev pub IsDigit : ℕ → Type 0
IsDigit c = (48 ≤ c) × (c ≤ 57)

-- A byte that is printed, and is not a blank.
abbrev pub IsVisible : ℕ → Type 0
IsVisible c = (33 ≤ c) × (c ≤ 126)

abbrev pub IsPlain : ℕ → Type 0
IsPlain c = IsVisible c × (c ≢ 44) × (c ≢ 58)

abbrev pub IsUuid : Bytes → Type 0
IsUuid s = (is_empty s ≡ false) × All IsPlain s

module _ (print_int : ℕ → Bytes) where
  abbrev pub interval_text : Interval → Bytes
  interval_text (one n) = print_int n
  interval_text (range lo hi) = print_int lo ++ 45 ∷ print_int hi

  abbrev pub intervals_text : List Interval → Bytes
  intervals_text [] = []
  intervals_text (i ∷ is) = 58 ∷ interval_text i ++ intervals_text is

  abbrev pub entry_text : Entry → Bytes
  entry_text e = e.uuid ++ intervals_text e.intervals

  abbrev pub set_text : List Entry → Bytes
  set_text [] = []
  set_text (e ∷ []) = entry_text e
  set_text (e ∷ f ∷ es) = entry_text e ++ 44 ∷ set_text (f ∷ es)

-- The numbers that an int64 holds.
abbrev pub IsNumber : ℕ → Type 0
IsNumber n = n ≤ 9223372036854775807

abbrev pub IsInterval : Interval → Type 0
IsInterval (one n) = IsNumber n
IsInterval (range lo hi) = IsNumber lo × IsNumber hi

abbrev pub IsEntry : Entry → Type 0
IsEntry e = IsUuid e.uuid × All IsInterval e.intervals
