-- ===== src/Mano/Manager/Tests.antt =====
-- An operation that is still running in the first round and completed in the second.
use mysql_keeper.Prelude.{ℕ, zero, suc, ◌*◌, ◌≡◌, ◌≢◌, refl, String, none, some, arith}
use mysql_keeper.Prelude.Int.{pos, ◌+ℤ◌}
use mysql_keeper.Go.Time.{add}
use mysql_keeper.Go.Error.{done, ok}
use mysql_keeper.Mano.{
  Client, Round, value, ensure_token, poll_round, poll_from, poll_lcm_op_occ, judge, response_step,
  decoded_step, wait_step,
}
use mysql_keeper.Mano.Polling.{Waits, poll-stops}
use mysql_keeper.Mano.Manager.{
  PxcManager, SourceAnswers, set_is_source, set_read_write, with_token, submit, accepted,
  poll_submitted, probed, verify_write,
}
use mysql_keeper.Mano.Manager.Opened.{IsApplied, set_read_write-IsApplied}

abbrev client : Client
client = record {
  base_url = "https://mano";
  static_token = "secret";
  cached_token = "";
  token_expiry = pos 0;
}

abbrev manager : PxcManager
manager = record { mano = client; cnf_name = "pxc"; vdu_name = "vdu"; poll_timeout = pos 100 }

abbrev state : ℕ → String
state zero = "PROCESSING"
state (suc n) = "COMPLETED"

-- A round every ten units of time.
abbrev rounds : ℕ → Round
rounds n = record {
  now = pos (n * 10);
  build = done;
  response = ok (record {
    status_code = pos 200;
    decoded = value (record { id = "op"; operation_state = state n; error = none });
  });
  waited = done;
}

rounds-Waits : Waits rounds (pos 0) 10
unfolding ◌+ℤ◌
rounds-Waits n = ground arith

poll-stops_example : poll_lcm_op_occ "https://mano" "op" (pos 100) 12 (pos 0) rounds ≢ none
poll-stops_example =
    poll-stops "https://mano" "op" (pos 100) rounds (pos 0) 10 11 100 refl rounds-Waits
      (omega arith)

abbrev answers : SourceAnswers
answers = record {
  login = record {
    now = pos 0;
    marshal = done;
    build = done;
    response = ok (record {
      status_code = pos 200;
      decoded = ok (record { access_token = "t"; expires_in = ""; parsed = none });
    });
    later = pos 0;
  };
  marshal = λ r. done;
  build = done;
  update = λ r. ok (record { status_code = pos 202; lcm_op_occ_id = "op" });
  started = pos 0;
  rounds = rounds;
}

opened : (set_read_write (λ d. pos 0) 12 manager answers done done).0 ≡ some done
unfolding set_read_write set_is_source ensure_token with_token submit accepted poll_submitted
    poll_lcm_op_occ poll_from poll_round judge response_step decoded_step wait_step probed
    verify_write add ◌+ℤ◌
opened = refl

set_read_write-IsApplied_example :
    IsApplied 12 manager "true" answers × (done ≡ done) × (done ≡ done)
set_read_write-IsApplied_example =
    set_read_write-IsApplied (λ d. pos 0) 12 manager answers done done opened
