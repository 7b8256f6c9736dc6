-- ===== src/Pxc/GtidSet/Tests.antt =====
-- Tests and witnesses of the count of a GTID set. Numbers are printed in decimal, and blanks are
-- not trimmed.
use mysql_keeper.Prelude.{
  ℕ, zero, suc, Bool, true, false, ap, ◌+◌, ◌*◌, ◌-◌, ◌≤◌, ◌≡◌, refl, List, [], ◌∷◌, ◌++◌, some,
  arith, All, All-append, if◌then◌else◌, ltb, is_empty,
}
use Prim.Native.Nat.{◌/◌, ◌%◌}
use mysql_keeper.Prelude.Int.{pos, wrap64}
use mysql_keeper.Pxc.GtidSet.{Bytes, count_gtid_transactions}
use mysql_keeper.Pxc.GtidSet.Layout.{one, range, Entry, IsDigit, set_text}
use mysql_keeper.Pxc.GtidSet.Rendered.{count-set_text}

-- The digits of `n`, given as many steps.
decimal : ℕ → ℕ → Bytes
decimal zero n = (48 + n % 10) ∷ []
decimal (suc k) n =
    let front = decimal k (n / 10) in
    if ltb n 10 then (48 + n % 10) ∷ [] else front ++ (48 + n % 10) ∷ []

value : ℕ → Bytes → ℕ
value v [] = v
value v (c ∷ cs) = value (10 * v + (c - 48)) cs

value-snoc : (v : ℕ) (s : Bytes) (c : ℕ) → value v (s ++ c ∷ []) ≡ 10 * value v s + (c - 48)
unfolding value
value-snoc v [] c = refl
value-snoc v (d ∷ s) c = value-snoc (10 * v + (d - 48)) s c

value-decimal : (k n : ℕ) → n ≤ k → value 0 (decimal k n) ≡ n
unfolding value decimal
value-decimal zero n h = ground arith
value-decimal (suc k) n h =
    let ih = value-decimal k (n / 10) (omega arith) in
    let snoc = value-snoc 0 (decimal k (n / 10)) (48 + n % 10) in ground arith

digit : (n : ℕ) → IsDigit (48 + n % 10)
digit n = (omega arith, omega arith)

digits_if :
    (b : Bool) (s t : Bytes) → All IsDigit s → All IsDigit t → All IsDigit (if b then s else t)
digits_if true s t h k = h
digits_if false s t h k = k

decimal-IsDigit : (k n : ℕ) → All IsDigit (decimal k n)
unfolding decimal
decimal-IsDigit zero n = (digit n, tt)
decimal-IsDigit (suc k) n =
    digits_if (ltb n 10) ((48 + n % 10) ∷ []) (decimal k (n / 10) ++ (48 + n % 10) ∷ [])
      (digit n, tt)
      (All-append IsDigit (decimal k (n / 10)) ((48 + n % 10) ∷ []) (decimal-IsDigit k (n / 10))
        (digit n, tt))

snoc-nonempty : (s : Bytes) (c : ℕ) → is_empty (s ++ c ∷ []) ≡ false
snoc-nonempty [] c = refl
snoc-nonempty (d ∷ s) c = refl

decimal-nonempty : (k n : ℕ) → is_empty (decimal k n) ≡ false
unfolding decimal
decimal-nonempty zero n = refl
decimal-nonempty (suc k) n =
    let h = snoc-nonempty (decimal k (n / 10)) (48 + n % 10) in ground arith

kept : Bytes → Bytes
kept s = s

abbrev two_servers : List Entry
two_servers =
    record { uuid = 97 ∷ 45 ∷ 49 ∷ []; intervals = range 1 12 ∷ one 20 ∷ [] }
    ∷ record { uuid = 98 ∷ []; intervals = range 3 3 ∷ [] }
    ∷ []

count-set_text_example :
    count_gtid_transactions kept
      (λ s. some (pos (value 0 s)))
      (set_text (λ n. decimal n n) two_servers)
    ≡ wrap64 (pos 14)
unfolding kept
count-set_text_example =
    count-set_text kept (λ s. some (pos (value 0 s))) (λ n. decimal n n) (λ s h. refl)
      (λ n. decimal-IsDigit n n) (λ n. decimal-nonempty n n)
      (λ n h. ap (λ v. some (pos v)) (value-decimal n n (omega arith))) two_servers
      (
        (
          (
            refl,
            (
              ((omega arith, omega arith), omega arith, omega arith),
              (
                ((omega arith, omega arith), omega arith, omega arith),
                (((omega arith, omega arith), omega arith, omega arith), tt),
              ),
            ),
          ),
          ((omega arith, omega arith), (omega arith, tt)),
        ),
        (
          (
            (refl, (((omega arith, omega arith), omega arith, omega arith), tt)),
            ((omega arith, omega arith), tt),
          ),
          tt,
        ),
      )
