-- ===== src/Pxc/Skip/Quoting.antt =====
-- What goes into the text of a statement cannot leave its quotes.
use mysql_keeper.Prelude.{
  ℕ, ◌≡◌, ◌≢◌, refl, ◌⊎◌, [], ◌∷◌, ◌++◌, Option, none, some, arith, if◌then◌else◌, ◌==◌,
  append_assoc,
}
use mysql_keeper.Pxc.Skip.{Bytes, escaped, quote_channel}

-- How a server reads a literal in single quotes: two quotes stand for one, a backslash takes the
-- byte after it, which `unescape` gives, and any other quote ends the literal.
module _ (unescape : ℕ → ℕ) where
  abbrev prepend : ℕ → Option (Bytes × Bytes) → Option (Bytes × Bytes)
  prepend c none = none
  prepend c (some (s, rest)) = some (c ∷ s, rest)

  unfoldable pub read_inside : Bytes → Option (Bytes × Bytes)
  read_inside [] = none
  read_inside (c ∷ []) = if c == 39 then some ([], []) else none
  read_inside (c ∷ d ∷ cs) =
      let after_both = prepend (if c == 39 then 39 else unescape d) (read_inside cs) in
      let after_one = prepend c (read_inside (d ∷ cs)) in
      if c == 39
      then (if d == 39 then after_both else some ([], d ∷ cs))
      else if c == 92
      then after_both
      else after_one

  unfoldable pub read_literal : Bytes → Option (Bytes × Bytes)
  read_literal [] = none
  read_literal (c ∷ cs) = if c == 39 then read_inside cs else none

  -- What follows the literal does not begin with a quote.
  abbrev pub IsApart : Bytes → Type 0
  IsApart [] = Unit
  IsApart (c ∷ cs) = c ≢ 39

  ending : (rest : Bytes) → IsApart rest → read_inside (39 ∷ rest) ≡ some ([], rest)
  unfolding read_inside
  ending [] h = refl
  ending (c ∷ cs) h = ground arith

  one :
      (c : ℕ) (cs : Bytes)
      → c ≢ 39
      → c ≢ 92
      → cs ≢ []
      → read_inside (c ∷ cs) ≡ prepend c (read_inside cs)
  unfolding read_inside
  one c [] h k n = absurd (n refl)
  one c (d ∷ cs) h k n = ground arith

  nonempty : (xs : Bytes) (y : ℕ) (ys : Bytes) → xs ++ (y ∷ ys) ≢ []
  nonempty [] y ys = ground arith
  nonempty (x ∷ xs) y ys = ground arith

  module _ (plain : unescape 92 ≡ 92) where
    doubled :
        (c : ℕ) (cs : Bytes)
        → (c ≡ 39) ⊎ (c ≡ 92)
        → read_inside (c ∷ c ∷ cs) ≡ prepend c (read_inside cs)
    unfolding read_inside
    doubled c cs h = ground arith

    inside :
        (s rest : Bytes) → IsApart rest → read_inside (escaped s ++ (39 ∷ rest)) ≡ some (s, rest)
    unfolding escaped
    inside [] rest h = ending rest h
    inside (c ∷ cs) rest h =
        let ih = inside cs rest h in
        ground (
          arith,
          ih,
          doubled 39 (escaped cs ++ (39 ∷ rest)),
          doubled 92 (escaped cs ++ (39 ∷ rest)),
          one c (escaped cs ++ (39 ∷ rest)),
          nonempty (escaped cs) 39 rest,
        )

    -- A server that reads a literal in single quotes, where two quotes stand for one, a backslash
    -- takes the byte after it and stands for itself before a second one, reads a quoted channel
    -- name, with any bytes in it, as that name, and goes on right after the closing quote, where
    -- what follows does not begin with a quote.
    pub read_literal-quote_channel :
        (name rest : Bytes)
        → IsApart rest
        → read_literal (quote_channel name ++ rest) ≡ some (name, rest)
    unfolding quote_channel read_literal
    read_literal-quote_channel name rest h =
        rw (append_assoc (escaped name) (39 ∷ []) rest) (inside name rest h)
