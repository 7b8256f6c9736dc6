-- ===== src/Cli/Endpoint/RoundTrip.antt =====
-- What hostOnly and portOnly make of a host, a colon and digits.
use mysql_keeper.Prelude.{
  ℕ, ◌+◌, ◌-◌, ◌*◌, ◌≤◌, ◌≡◌, refl, [], ◌∷◌, ◌++◌, none, some, arith, All, leb, ◌&&◌, true,
}
use mysql_keeper.Prelude.Int.{pos, wrap, wrap32, ◌+ℤ◌}
use mysql_keeper.Cli.Endpoint.{
  Bytes, at_colon, host_only, port_only, read_port, next_digit, times_ten,
}

abbrev pub IsDigit : ℕ → Type 0
IsDigit c = (48 ≤ c) × (c ≤ 57)

-- The number that digits spell behind `v`.
abbrev pub value : ℕ → Bytes → ℕ
value v [] = v
value v (c ∷ cs) = value (10 * v + (c - 48)) cs

digits-at_colon : (ds : Bytes) → All IsDigit ds → at_colon ds ≡ none
unfolding at_colon
digits-at_colon [] h = refl
digits-at_colon (c ∷ cs) (h, hs) = let ih = digits-at_colon cs hs in ground arith

host_port : (host ds : Bytes) → All IsDigit ds → at_colon (host ++ 58 ∷ ds) ≡ some (host, ds)
unfolding at_colon
host_port [] ds h = let ih = digits-at_colon ds h in ground arith
host_port (c ∷ cs) ds h = let ih = host_port cs ds h in ground arith

is_digit : (c : ℕ) → IsDigit c → (leb 48 c && leb c 57) ≡ true
is_digit c h = ground arith

-- A word that wraps at each digit keeps the number modulo 2^32.
digit_wraps :
    (v c : ℕ) → IsDigit c → next_digit (wrap32 (pos v)) c ≡ wrap32 (pos (10 * v + (c - 48)))
unfolding next_digit times_ten wrap ◌+ℤ◌
digit_wraps v c h = ground arith

read_port-digits :
    (v : ℕ) (ds : Bytes)
    → All IsDigit ds
    → read_port (wrap32 (pos v)) ds ≡ wrap32 (pos (value v ds))
unfolding read_port
read_port-digits v [] h = refl
read_port-digits v (c ∷ cs) (h, hs) =
    let step = digit_wraps v c h in
    let ih = read_port-digits (10 * v + (c - 48)) cs hs in rw (is_digit c h) (rw step ih)

-- Of a host, a colon and digits, hostOnly reads the host, with any colons in it, and portOnly the
-- number that the digits spell, as an int32, whatever their number.
pub endpoint_read :
    (host ds : Bytes)
    → All IsDigit ds
    → (host_only (host ++ 58 ∷ ds) ≡ host)
      × (port_only (host ++ 58 ∷ ds) ≡ wrap32 (pos (value 0 ds)))
unfolding host_only port_only wrap
endpoint_read host ds h =
    let split = host_port host ds h in
    let read = read_port-digits 0 ds h in (rw (split, host_only) refl, rw (split, port_only) read)
