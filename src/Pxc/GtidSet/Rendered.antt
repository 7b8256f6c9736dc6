-- ===== src/Pxc/GtidSet/Rendered.antt =====
-- The count of a GTID set in the form that a server prints.
use mysql_keeper.Prelude.{
  ℕ, suc, false, ◌+◌, ◌-◌, ◌≤◌, ◌≡◌, ◌≢◌, refl, ap, ◌∙◌, List, [], ◌∷◌, ◌++◌, Option, none, some,
  arith, All, All-append, map, is_empty, append-nil,
}
use mysql_keeper.Prelude.Int.{ℤ, pos, ◌+ℤ◌, ◌-ℤ◌, wrap, wrap64, wrap64_+ℤ, +ℤ_parts, eq_of_parts}
use mysql_keeper.Pxc.GtidSet.{
  Bytes, split, fields, at_dash, add_range, add_single, add_interval, add_trimmed, add_intervals,
  add_entry, add_entries, count_gtid_transactions,
}
use mysql_keeper.Pxc.GtidSet.Additive.{split-append, count-joined, wrap64_right, counted, 0+ℤ}
use mysql_keeper.Pxc.GtidSet.Layout.{
  Interval, one, range, Entry, interval_size, intervals_size, set_size, IsDigit, IsVisible, IsPlain,
  interval_text, intervals_text, entry_text, set_text, IsNumber, IsInterval, IsEntry,
}

All-with : {P Q : ℕ → Type 0} → ((c : ℕ) → P c → Q c) → (s : Bytes) → All P s → All Q s
All-with f [] h = tt
All-with f (c ∷ cs) (h, hs) = (f c h, All-with f cs hs)

split-free : (sep : ℕ) (s : Bytes) → All (λ c. c ≢ sep) s → split sep s ≡ (s, [])
unfolding split
split-free sep [] h = refl
split-free sep (c ∷ cs) (h, hs) = let ih = split-free sep cs hs in ground arith

no_dash : (s : Bytes) → All (λ c. c ≢ 45) s → at_dash s ≡ none
unfolding at_dash
no_dash [] h = refl
no_dash (c ∷ cs) (h, hs) = let ih = no_dash cs hs in ground arith

one_dash : (s t : Bytes) → All (λ c. c ≢ 45) s → at_dash (s ++ 45 ∷ t) ≡ some (s, t)
unfolding at_dash
one_dash [] t h = ground arith
one_dash (c ∷ cs) t (h, hs) = let ih = one_dash cs t hs in ground arith

width : (lo hi : ℕ) → lo ≤ hi → pos hi -ℤ pos lo +ℤ pos 1 ≡ pos (suc (hi - lo))
unfolding ◌+ℤ◌ ◌-ℤ◌
width lo hi h = ground arith

wide :
    (t : ℤ) (lo hi : ℕ)
    → lo ≤ hi
    → wrap64 (wrap64 t +ℤ wrap64 (wrap64 (pos hi -ℤ pos lo) +ℤ pos 1))
      ≡ wrap64 (t +ℤ pos (suc (hi - lo)))
wide t lo hi h = rw (wrap64_+ℤ (pos hi -ℤ pos lo) (pos 1)) (
    rw (width lo hi h)
      (rw (wrap64_right (wrap64 t) (pos (suc (hi - lo)))) (wrap64_+ℤ t (pos (suc (hi - lo))))))

add_zero : (t : ℤ) → t +ℤ pos 0 ≡ t
add_zero t = eq_of_parts (t +ℤ pos 0) t (grind (arith, +ℤ_parts))

append-nonempty : (s t : Bytes) → is_empty s ≡ false → is_empty (s ++ t) ≡ false
append-nonempty [] t h = cc
append-nonempty (c ∷ cs) t h = refl

pos_sum : (t : ℤ) (a b : ℕ) → t +ℤ pos a +ℤ pos b ≡ t +ℤ pos (a + b)
pos_sum t a b = eq_of_parts (t +ℤ pos a +ℤ pos b) (t +ℤ pos (a + b)) (grind (arith, +ℤ_parts))

two_words : (a b : ℕ) → wrap64 (wrap64 (pos a) +ℤ wrap64 (pos b)) ≡ wrap64 (pos (a + b))
two_words a b = rw (wrap64_right (wrap64 (pos a)) (pos b)) (
    rw (wrap64_+ℤ (pos a) (pos b))
      (rw (eq_of_parts (pos a +ℤ pos b) (pos (a + b)) (grind (arith, +ℤ_parts))) refl))

one_field : (s : Bytes) → is_empty s ≡ false → All (λ c. c ≢ 44) s → fields 44 s ≡ s ∷ []
unfolding fields
one_field s h free = rw (split-free 44 s free) (rw h refl)

module _ (trim_space : Bytes → Bytes) (parse_int : Bytes → Option ℤ) (print_int : ℕ → Bytes)
    (trims : (s : Bytes) → All IsVisible s → trim_space s ≡ s)
    (digits : (n : ℕ) → All IsDigit (print_int n))
    (printed : (n : ℕ) → is_empty (print_int n) ≡ false)
    (parses : (n : ℕ) → IsNumber n → parse_int (print_int n) ≡ some (pos n)) where
  no_dashes : (n : ℕ) → All (λ c. c ≢ 45) (print_int n)
  no_dashes n = All-with (λ c h. omega arith) (print_int n) (digits n)

  range_adds :
      (t : ℤ) (lo hi : ℕ)
      → add_range trim_space parse_int (wrap64 t) (some (pos lo)) (some (pos hi))
        ≡ wrap64 (t +ℤ pos (interval_size (range lo hi)))
  unfolding add_range
  range_adds t lo hi = let w = wide t lo hi in let z = add_zero t in ground arith

  interval_adds :
      (t : ℤ) (i : Interval)
      → IsInterval i
      → add_trimmed trim_space parse_int (wrap64 t) (interval_text print_int i)
        ≡ wrap64 (t +ℤ pos (interval_size i))
  unfolding add_trimmed add_interval add_single
  interval_adds t (one n) h =
      rw (printed n)
        (rw (no_dash (print_int n) (no_dashes n)) (rw (parses n h) (wrap64_+ℤ t (pos 1))))
  interval_adds t (range lo hi) (hl, hh) =
      rw (append-nonempty (print_int lo) (45 ∷ print_int hi) (printed lo)) (
        rw (one_dash (print_int lo) (print_int hi) (no_dashes lo))
          (rw (parses lo hl) (rw (parses hi hh) (range_adds t lo hi))))

  number-IsPlain : (n : ℕ) → All IsPlain (print_int n)
  number-IsPlain n =
      All-with (λ c h. ((omega arith, omega arith), omega arith, omega arith)) (print_int n)
        (digits n)

  interval-IsPlain : (i : Interval) → All IsPlain (interval_text print_int i)
  interval-IsPlain (one n) = number-IsPlain n
  interval-IsPlain (range lo hi) =
      All-append IsPlain (print_int lo) (45 ∷ print_int hi) (number-IsPlain lo)
        (((omega arith, omega arith), omega arith, omega arith), number-IsPlain hi)

  intervals_split :
      (p : Bytes) (is : List Interval)
      → All IsPlain p
      → split 58 (p ++ intervals_text print_int is) ≡ (p, map (interval_text print_int) is)
  intervals_split p [] h = rw (append-nil p) (split-free 58 p (All-with (λ c h. h.2) p h))
  intervals_split p (i ∷ is) h =
      rw (split-append 58 p (interval_text print_int i ++ intervals_text print_int is)) (
        rw (split-free 58 p (All-with (λ c h. h.2) p h))
          (rw (intervals_split (interval_text print_int i) is (interval-IsPlain i)) refl))

  intervals_add :
      (t : ℤ) (is : List Interval)
      → All IsInterval is
      → add_intervals trim_space parse_int (wrap64 t) (map (interval_text print_int) is)
        ≡ wrap64 (t +ℤ pos (intervals_size is))
  unfolding add_intervals
  intervals_add t [] h = rw (add_zero t) refl
  intervals_add t (i ∷ is) (h, hs) =
      rw
        (
          add_intervals,
          trims (interval_text print_int i)
              (All-with (λ c h. h.0) (interval_text print_int i) (interval-IsPlain i)),
        )
        (rw (interval_adds t i h) (
          rw (intervals_add (t +ℤ pos (interval_size i)) is hs)
            (rw (pos_sum t (interval_size i) (intervals_size is)) refl)))

  add_from_zero :
      (is : List Interval)
      → All IsInterval is
      → add_intervals trim_space parse_int (pos 0) (map (interval_text print_int) is)
        ≡ wrap64 (pos (intervals_size is))
  unfolding wrap
  add_from_zero is h = intervals_add (pos 0) is h ∙ ap wrap64 (0+ℤ (pos (intervals_size is)))

  intervals-IsVisible :
      (is : List Interval) → All (λ c. IsVisible c × (c ≢ 44)) (intervals_text print_int is)
  intervals-IsVisible [] = tt
  intervals-IsVisible (i ∷ is) = (
    ((omega arith, omega arith), omega arith),
    All-append (λ c. IsVisible c × (c ≢ 44)) (interval_text print_int i)
        (intervals_text print_int is)
        (All-with (λ c h. (h.0, h.1)) (interval_text print_int i) (interval-IsPlain i))
        (intervals-IsVisible is),
  )

  entry-IsVisible :
      (e : Entry) → IsEntry e → All (λ c. IsVisible c × (c ≢ 44)) (entry_text print_int e)
  entry-IsVisible e h =
      All-append (λ c. IsVisible c × (c ≢ 44)) e.uuid (intervals_text print_int e.intervals)
        (All-with (λ c h. (h.0, h.1)) e.uuid h.0.1) (intervals-IsVisible e.intervals)

  entry_adds :
      (e : Entry)
      → IsEntry e
      → add_entries trim_space parse_int (pos 0) (entry_text print_int e ∷ [])
        ≡ wrap64 (pos (intervals_size e.intervals))
  unfolding add_entries add_entry
  entry_adds e h =
      rw
        (trims (entry_text print_int e)
          (All-with (λ c h. h.0) (entry_text print_int e) (entry-IsVisible e h)))
        (rw (append-nonempty e.uuid (intervals_text print_int e.intervals) h.0.0)
          (rw (intervals_split e.uuid e.intervals h.0.1) (add_from_zero e.intervals h.1)))

  entry_counts :
      (e : Entry)
      → IsEntry e
      → count_gtid_transactions trim_space parse_int (entry_text print_int e)
        ≡ wrap64 (pos (intervals_size e.intervals))
  entry_counts e h = rw (counted trim_space parse_int (entry_text print_int e)) (
      rw
        (one_field (entry_text print_int e)
          (append-nonempty e.uuid (intervals_text print_int e.intervals) h.0.0)
          (All-with (λ c h. h.1) (entry_text print_int e) (entry-IsVisible e h)))
        (entry_adds e h))

  -- The count of a set that is written as a server prints it, its entries apart by commas and each
  -- a UUID and its intervals, is the number of its transactions as a 64-bit word, where the numbers
  -- fit an int64 and a UUID is not empty and has printed ASCII bytes, with no comma or colon. An
  -- interval that ends before it begins has no transactions. TrimSpace is taken to keep a text of
  -- printed ASCII bytes, and ParseInt to read back what is printed of such a number: digits, and at
  -- least one.
  pub count-set_text :
      (es : List Entry)
      → All IsEntry es
      → count_gtid_transactions trim_space parse_int (set_text print_int es)
        ≡ wrap64 (pos (set_size es))
  unfolding count_gtid_transactions wrap
  count-set_text [] h = refl
  count-set_text (e ∷ []) (h, _) = rw (entry_counts e h) (ap (λ n. wrap64 (pos n)) (omega arith))
  count-set_text (e ∷ f ∷ es) (h, hs) =
      rw (count-joined trim_space parse_int (entry_text print_int e) (set_text print_int (f ∷ es)))
        (rw (entry_counts e h) (
          rw (count-set_text (f ∷ es) hs)
            (two_words (intervals_size e.intervals) (set_size (f ∷ es)))))
