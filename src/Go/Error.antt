-- ===== src/Go/Error.antt =====
-- Formatted text as the pieces that fmt prints (the empty string is the empty list), and errors as the chain that errors.Is walks.
use mysql_keeper.Prelude.{String, ◌≡◌, refl, List, [], ◌∷◌, ◌++◌, Bool, true, false}
use mysql_keeper.Prelude.Int.{ℤ}
use mysql_keeper.Go.Time.{Time, Duration}

-- One verb of a format, or the text between two.
pub data Piece : Type 0 where
  text : String → Piece  -- text, %s and %v of a string
  quoted : String → Piece  -- %q
  number : ℤ → Piece  -- %d
  span : Duration → Piece  -- %s of a duration
  flag : Bool → Piece  -- %v and %t of a boolean
  moment : Time → Piece  -- an instant, formatted

abbrev pub Message : Type 0
Message = List Piece

pub data Error : Type 0 where
  -- an error of a driver, a server or a client library, known by what it prints
  foreign : String → Error
  -- sql.ErrNoRows, and the package's own sentinels
  no_rows lease_held_elsewhere peer_lease_fresh : Error
  -- errors.New, and fmt.Errorf without %w
  raised : Message → Error
  -- fmt.Errorf("…: %w", err)
  wrapped : Message → Error → Error
  -- fmt.Errorf("%w…", err)
  detailed : Error → Message → Error
  -- two errors after a text each, the first printed by %v, the second wrapped by %w
  wrapped_both : Message → Error → Message → Error → Error

-- `errors.Is(err, sql.ErrNoRows)`
abbrev pub is_no_rows : Error → Bool
is_no_rows no_rows = true
is_no_rows (wrapped _ e) = is_no_rows e
is_no_rows (detailed e _) = is_no_rows e
is_no_rows (wrapped_both _ _ _ e) = is_no_rows e
is_no_rows _ = false

-- `err.Error()`, and %v of an error.
abbrev pub printed : Error → Message
printed (foreign s) = text s ∷ []
printed no_rows = text "sql: no rows in result set" ∷ []
printed lease_held_elsewhere = text "leader lease is held by another controller" ∷ []
printed peer_lease_fresh = text "peer controller holds a fresh lease" ∷ []
printed (raised m) = m
printed (wrapped m e) = m ++ (text ": " ∷ printed e)
printed (detailed e m) = printed e ++ m
printed (wrapped_both m first n second) = m ++ (printed first ++ (n ++ printed second))

-- A value and a nil error, or an error.
pub data Result {ℓ} (A : Type ℓ) : Type ℓ where
  ok : A → Result A
  err : Error → Result A

-- A plain `error` result: nil, or an error.
abbrev pub Outcome : Type 0
Outcome = Result (Unit {0})

abbrev pub done : Outcome
done = ok tt

infixl 5 ◌>>=◌ ◌>>◌
abbrev pub ◌>>=◌ {ℓ κ} : {A : Type ℓ} {B : Type κ} → Result A → (A → Result B) → Result B
ok a >>= f = f a
err e >>= f = err e

abbrev pub ◌>>◌ {ℓ κ} : {A : Type ℓ} {B : Type κ} → Result A → Result B → Result B
m >> k = m >>= λ _. k

-- `if err != nil { return fmt.Errorf("…: %w", err) }`
abbrev pub annotate {ℓ} : {A : Type ℓ} → Message → Result A → Result A
annotate m (ok a) = ok a
annotate m (err e) = err (wrapped m e)

-- The step before and the step after, of a chain without an error.
pub chain-ok {ℓ κ} :
    {A : Type ℓ} {B : Type κ} (before : Result A) (after : A → Result B) {result : B}
    → (before >>= after) ≡ ok result
    → (x : A) × (before ≡ ok x) × (after x ≡ ok result)
chain-ok (err e) after ended = cc
chain-ok (ok x) after ended = (x, refl, ended)

pub annotate-ok {ℓ} :
    {A : Type ℓ} (m : Message) (r : Result A) {a : A} → annotate m r ≡ ok a → r ≡ ok a
annotate-ok m (ok x) h = h
annotate-ok m (err e) h = cc
