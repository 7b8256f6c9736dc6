-- ===== src/Pxc/Skip/Tests.antt =====
-- A skip whose commit fails, and a channel whose name has a quote in it.
use mysql_keeper.Prelude.{◌≡◌, refl, inl, [], ◌∷◌, ◌++◌, some, arith, true, false}
use mysql_keeper.Go.Error.{Outcome, done, err, foreign}
use mysql_keeper.Pxc.Skip.{
  Bytes, Statement, Server, commit_transaction, quote_channel, skip_next_transaction,
  valid_gtid_literal, all_valid, valid_byte,
}
use mysql_keeper.Pxc.Skip.Restored.{IsSkipped, skip-IsSkipped}
use mysql_keeper.Pxc.Skip.Quoting.{read_literal, read_literal-quote_channel}

abbrev answer : Statement → Outcome
answer commit_transaction = err (foreign "Error 1837")
answer _ = done

abbrev server : Server
server = record { open_db = done; conn = done; exec = λ t s. answer s }

-- "dr" and "a:10", in bytes.
abbrev channel : Bytes
channel = 100 ∷ 114 ∷ []

abbrev gtid : Bytes
gtid = 97 ∷ 58 ∷ 49 ∷ 48 ∷ []

gtid-valid : valid_gtid_literal gtid ≡ true
unfolding valid_gtid_literal all_valid valid_byte
gtid-valid = refl

-- A quote is no part of a GTID.
quote-invalid : valid_gtid_literal (97 ∷ 39 ∷ []) ≡ false
unfolding valid_gtid_literal all_valid valid_byte
quote-invalid = refl

skip-IsSkipped_example : IsSkipped gtid (skip_next_transaction (λ b. "") server channel gtid [])
skip-IsSkipped_example = skip-IsSkipped (λ b. "") server channel gtid (λ t. (refl, inl refl))

-- it's
abbrev awkward : Bytes
awkward = 105 ∷ 116 ∷ 39 ∷ 115 ∷ []

read_literal-quote_channel_example :
    read_literal (λ c. c) (quote_channel awkward ++ (59 ∷ [])) ≡ some (awkward, 59 ∷ [])
read_literal-quote_channel_example =
    read_literal-quote_channel (λ c. c) refl awkward (59 ∷ []) (ground arith)
