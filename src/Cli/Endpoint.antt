-- ===== src/Cli/Endpoint.antt =====
-- hostOnly and portOnly of cmd/switchover-cli/main.go: the parts of "host:port", by the last colon.
-- A text is its bytes. A byte that is no digit is one in every rune that it is part of.
pub mod RoundTrip
use mysql_keeper.Prelude.{
  ℕ, ◌-◌, ◌*◌, ◌+◌, List, [], ◌∷◌, Bool, true, false, ◌&&◌, Option, none, some, if◌then◌else◌, leb,
  ◌==◌,
}
use mysql_keeper.Prelude.Int.{ℤ, pos, negsuc, ◌+ℤ◌, wrap32}

abbrev pub Bytes : Type 0
Bytes = List ℕ

-- What stands before and after the last colon.
unfoldable pub at_colon : Bytes → Option (Bytes × Bytes)
at_colon [] = none
at_colon (c ∷ cs) = elim (at_colon cs) [
  | some (host, port) ↦ some (c ∷ host, port)
  | none ↦ if c == 58 then some ([], cs) else none
]

unfoldable pub host_only : Bytes → Bytes
unfolding at_colon
host_only hp = elim (at_colon hp) [ none ↦ hp | some (host, port) ↦ host ]

-- `p*10`
times_ten : ℤ → ℤ
times_ten (pos n) = pos (10 * n)
times_ten (negsuc n) = negsuc (10 * n + 9)

-- One digit more, on an int32.
unfoldable pub next_digit : ℤ → ℕ → ℤ
unfolding times_ten
next_digit p c = wrap32 (wrap32 (times_ten p) +ℤ pos (c - 48))

unfoldable pub read_port : ℤ → Bytes → ℤ
unfolding next_digit
read_port p [] = p
read_port p (c ∷ cs) =
    let rest = read_port (next_digit p c) cs in if leb 48 c && leb c 57 then rest else pos 6032

unfoldable pub port_only : Bytes → ℤ
unfolding at_colon read_port
port_only hp = elim (at_colon hp) [ none ↦ pos 6032 | some (host, port) ↦ read_port (pos 0) port ]
