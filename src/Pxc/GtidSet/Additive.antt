-- ===== src/Pxc/GtidSet/Additive.antt =====
-- How the count of a GTID set is put together from the counts of its parts.
use mysql_keeper.Prelude.{
  ℕ, ◌≡◌, refl, List, [], ◌∷◌, ◌++◌, Bool, true, false, Option, none, some, arith, if◌then◌else◌,
  is_empty,
}
use mysql_keeper.Prelude.Int.{
  ℤ, pos, ◌+ℤ◌, ◌-ℤ◌, leb_ℤ, wrap, wrap64, wrap64_+ℤ, +ℤ_parts, eq_of_parts,
}
use mysql_keeper.Pxc.GtidSet.{
  Bytes, split, nonempty, fields, at_dash, add_range, add_single, add_interval, add_trimmed,
  add_intervals, add_entry, add_entries, count_gtid_transactions,
}

+ℤ_comm : (a b : ℤ) → a +ℤ b ≡ b +ℤ a
+ℤ_comm a b = eq_of_parts (a +ℤ b) (b +ℤ a) (grind (arith, +ℤ_parts))

+ℤ_assoc : (a b c : ℤ) → a +ℤ b +ℤ c ≡ a +ℤ (b +ℤ c)
+ℤ_assoc a b c = eq_of_parts (a +ℤ b +ℤ c) (a +ℤ (b +ℤ c)) (grind (arith, +ℤ_parts))

pub 0+ℤ : (a : ℤ) → pos 0 +ℤ a ≡ a
0+ℤ a = eq_of_parts (pos 0 +ℤ a) a (grind (arith, +ℤ_parts))

pub wrap64_right : (a b : ℤ) → wrap64 (a +ℤ wrap64 b) ≡ wrap64 (a +ℤ b)
wrap64_right a b = rw (+ℤ_comm a (wrap64 b)) (rw (wrap64_+ℤ b a) (rw (+ℤ_comm b a) refl))

-- What `f` adds does not depend on what it is added to.
abbrev IsAdding : (ℤ → ℤ) → Type 0
IsAdding f = (t : ℤ) → f (wrap64 t) ≡ wrap64 (t +ℤ f (pos 0))

nothing-IsAdding : IsAdding (λ t. t)
nothing-IsAdding t = rw (+ℤ_comm t (pos 0)) (rw (0+ℤ t) refl)

constant-IsAdding : (c : ℤ) → IsAdding (λ t. wrap64 (t +ℤ c))
constant-IsAdding c t = rw (wrap64_+ℤ t c) (rw (0+ℤ c) (rw (wrap64_right t c) refl))

-- A sum that starts at zero is in range.
in_range : (f : ℤ → ℤ) → IsAdding f → wrap64 (f (pos 0)) ≡ f (pos 0)
unfolding wrap
in_range f h =
    let e : f (pos 0) ≡ wrap64 (pos 0 +ℤ f (pos 0)) = h (pos 0) in let z = 0+ℤ (f (pos 0)) in cc

after_nothing :
    (f g : ℤ → ℤ) → IsAdding f → IsAdding g → g (f (pos 0)) ≡ wrap64 (f (pos 0) +ℤ g (pos 0))
after_nothing f g hf hg = let e = in_range f hf in let h = hg (f (pos 0)) in cc

both-IsAdding : (f g : ℤ → ℤ) → IsAdding f → IsAdding g → IsAdding (λ t. g (f t))
both-IsAdding f g hf hg t = rw (hf t) (
    rw (hg (t +ℤ f (pos 0))) (
      rw (after_nothing f g hf hg) (
        rw (wrap64_right t (f (pos 0) +ℤ g (pos 0)))
          (rw (+ℤ_assoc t (f (pos 0)) (g (pos 0))) refl))))

if-IsAdding :
    (b : Bool) (f g : ℤ → ℤ) → IsAdding f → IsAdding g → IsAdding (λ t. if b then f t else g t)
if-IsAdding true f g hf hg = hf
if-IsAdding false f g hf hg = hg

module _ (trim_space : Bytes → Bytes) (parse_int : Bytes → Option ℤ) where
  range-IsAdding : (lo hi : Option ℤ) → IsAdding (λ t. add_range trim_space parse_int t lo hi)
  unfolding add_range
  range-IsAdding none hi = nothing-IsAdding
  range-IsAdding (some lo) none = nothing-IsAdding
  range-IsAdding (some lo) (some hi) =
      if-IsAdding (leb_ℤ lo hi) (λ t. wrap64 (t +ℤ wrap64 (wrap64 (hi -ℤ lo) +ℤ pos 1))) (λ t. t)
        (constant-IsAdding (wrap64 (wrap64 (hi -ℤ lo) +ℤ pos 1))) nothing-IsAdding

  single-IsAdding : (n : Option ℤ) → IsAdding (λ t. add_single trim_space parse_int t n)
  unfolding add_single
  single-IsAdding none = nothing-IsAdding
  single-IsAdding (some n) = constant-IsAdding (pos 1)

  interval-IsAdding :
      (iv : Bytes) (at : Option (Bytes × Bytes))
      → IsAdding (λ t. add_interval trim_space parse_int t iv at)
  unfolding add_interval
  interval-IsAdding iv none = single-IsAdding (parse_int iv)
  interval-IsAdding iv (some (lo, hi)) = range-IsAdding (parse_int lo) (parse_int hi)

  trimmed-IsAdding : (iv : Bytes) → IsAdding (λ t. add_trimmed trim_space parse_int t iv)
  unfolding add_trimmed
  trimmed-IsAdding iv =
      if-IsAdding (is_empty iv) (λ t. t) (λ t. add_interval trim_space parse_int t iv (at_dash iv))
        nothing-IsAdding (interval-IsAdding iv (at_dash iv))

  intervals-IsAdding : (ivs : List Bytes) → IsAdding (λ t. add_intervals trim_space parse_int t ivs)
  unfolding add_intervals
  intervals-IsAdding [] = nothing-IsAdding
  intervals-IsAdding (iv ∷ ivs) =
      both-IsAdding (λ t. add_trimmed trim_space parse_int t (trim_space iv))
        (λ t. add_intervals trim_space parse_int t ivs) (trimmed-IsAdding (trim_space iv))
        (intervals-IsAdding ivs)

  entry-IsAdding : (e : Bytes) → IsAdding (λ t. add_entry trim_space parse_int t e)
  unfolding add_entry
  entry-IsAdding e =
      if-IsAdding (is_empty e) (λ t. t) (λ t. add_intervals trim_space parse_int t (split 58 e).1)
        nothing-IsAdding (intervals-IsAdding (split 58 e).1)

  entries-IsAdding : (es : List Bytes) → IsAdding (λ t. add_entries trim_space parse_int t es)
  unfolding add_entries
  entries-IsAdding [] = nothing-IsAdding
  entries-IsAdding (e ∷ es) =
      both-IsAdding (λ t. add_entry trim_space parse_int t (trim_space e))
        (λ t. add_entries trim_space parse_int t es) (entry-IsAdding (trim_space e))
        (entries-IsAdding es)

  add_entries-append :
      (xs ys : List Bytes) (t : ℤ)
      → add_entries trim_space parse_int t (xs ++ ys)
        ≡ add_entries trim_space parse_int (add_entries trim_space parse_int t xs) ys
  unfolding add_entries
  add_entries-append [] ys t = refl
  add_entries-append (x ∷ xs) ys t =
      add_entries-append xs ys (add_entry trim_space parse_int t (trim_space x))

  pub counted :
      (s : Bytes)
      → count_gtid_transactions trim_space parse_int s
        ≡ add_entries trim_space parse_int (pos 0) (fields 44 s)
  unfolding count_gtid_transactions
  counted [] = refl
  counted (c ∷ cs) = refl

nonempty-append : (xs ys : List Bytes) → nonempty (xs ++ ys) ≡ nonempty xs ++ nonempty ys
nonempty-append [] ys = refl
nonempty-append ([] ∷ xs) ys = nonempty-append xs ys
nonempty-append ((c ∷ cs) ∷ xs) ys = rw (nonempty-append xs ys) refl

-- Splitting before and after a separator.
pub split-append :
    (sep : ℕ) (a b : Bytes)
    → split sep (a ++ sep ∷ b)
      ≡ ((split sep a).0, (split sep a).1 ++ (split sep b).0 ∷ (split sep b).1)
unfolding split
split-append sep [] b = ground arith
split-append sep (c ∷ cs) b = let ih = split-append sep cs b in ground arith

fields-append : (a b : Bytes) → fields 44 (a ++ 44 ∷ b) ≡ fields 44 a ++ fields 44 b
unfolding fields
fields-append a b =
    rw (split-append 44 a b)
      (nonempty-append ((split 44 a).0 ∷ (split 44 a).1) ((split 44 b).0 ∷ (split 44 b).1))

-- Joining two texts with a comma adds the counts, as 64-bit words; whatever the texts are, and
-- however blanks and numbers are read.
pub count-joined :
    (trim_space : Bytes → Bytes) (parse_int : Bytes → Option ℤ) (a b : Bytes)
    → count_gtid_transactions trim_space parse_int (a ++ 44 ∷ b)
      ≡ wrap64 (
          count_gtid_transactions trim_space parse_int a
          +ℤ count_gtid_transactions trim_space parse_int b)
count-joined trim_space parse_int a b =
    let counted_by = counted trim_space parse_int in
    rw (counted_by (a ++ 44 ∷ b)) (
      rw (counted_by a) (
        rw (counted_by b) (
          rw (fields-append a b) (
            rw (add_entries-append trim_space parse_int (fields 44 a) (fields 44 b) (pos 0)) (
              after_nothing (λ t. add_entries trim_space parse_int t (fields 44 a))
                (λ t. add_entries trim_space parse_int t (fields 44 b))
                (entries-IsAdding trim_space parse_int (fields 44 a))
                (entries-IsAdding trim_space parse_int (fields 44 b)))))))
