-- ===== src/Mano/Manager.antt =====
-- SetIsSource of client.go, and SetReadOnly and SetReadWrite of pxc_manager.go.
pub mod Opened
mod Tests
use mysql_keeper.Prelude.{
  ℕ, String, [], ◌∷◌, Bool, true, false, Option, none, some, not, if◌then◌else◌, str_eq,
}
use mysql_keeper.Prelude.Int.{ℤ, pos, eqb_ℤ}
use mysql_keeper.Go.Time.{Time, Duration}
use mysql_keeper.Go.Error.{
  Message, text, number, raised, Outcome, Result, ok, err, ◌>>=◌, ◌>>◌, annotate, wrapped,
}
use mysql_keeper.Mano.{Client, LoginAnswers, ensure_token, Round, poll_lcm_op_occ}

-- updateRequest, with its one field replicationChannels[0].isSource.
pub record UpdateRequest : Type 0 where
  pub cnf_name : String
  pub vdu_name : String
  pub description : Message
  pub timeout_timer : Message
  pub is_source : String

-- The status, and the header lcmOpOccId ("" where it is missing).
pub record UpdateResponse : Type 0 where
  pub status_code : ℤ
  pub lcm_op_occ_id : String

-- What the calls of one SetIsSource answer; the rounds of the loop by their number.
pub record SourceAnswers : Type 0 where
  pub login : LoginAnswers
  pub marshal : UpdateRequest → Outcome
  pub build : Outcome
  pub update : UpdateRequest → Result UpdateResponse
  pub started : Time
  pub rounds : ℕ → Round

-- PXCManager; the poll's interval is part of how a round waits.
pub record PxcManager : Type 0 where
  pub mano : Client
  pub cnf_name : String
  pub vdu_name : String
  pub poll_timeout : Duration

accepted : UpdateResponse → Result String
accepted r =
    if not (eqb_ℤ r.status_code (pos 202))
    then err (
        raised
          (text "MANO update returned HTTP " ∷ number r.status_code ∷ text " (expected 202)" ∷ []))
    else if str_eq r.lcm_op_occ_id ""
    then err (raised (text "MANO 202 response missing lcmOpOccId header" ∷ []))
    else ok r.lcm_op_occ_id

-- `int(d.Seconds())`, through a float64.
module _ (whole_seconds : Duration → ℤ) where
  unfoldable pub request_of : PxcManager → Bool → UpdateRequest
  request_of m is_source =
      let flag = if is_source then "true" else "false" in
      record {
        cnf_name = m.cnf_name;
        vdu_name = m.vdu_name;
        description = text "mysql-keeper: set isSource=" ∷ text flag ∷ [];
        timeout_timer = number (whole_seconds m.poll_timeout) ∷ text "s" ∷ [];
        is_source = flag;
      }

  -- The update, up to the name of its operation.
  submit : PxcManager → Bool → SourceAnswers → Result String
  unfolding request_of accepted
  submit m is_source a =
      annotate (text "marshal MANO request" ∷ []) (a.marshal (request_of m is_source))
      >> annotate (text "build MANO update request" ∷ []) a.build
      >> annotate
          (text "POST "
            ∷ text m.mano.base_url
            ∷ text "/cnflcm/v1/custom-resources/cnf/vdu/update"
            ∷ [])
          (a.update (request_of m is_source))
      >>= accepted

  poll_submitted : ℕ → PxcManager → SourceAnswers → Result String → Option Outcome
  poll_submitted fuel m a (err e) = some (err e)
  poll_submitted fuel m a (ok id) =
      poll_lcm_op_occ m.mano.base_url id m.poll_timeout fuel a.started a.rounds

  with_token : ℕ → PxcManager → Bool → SourceAnswers → Result String → Option Outcome
  unfolding submit poll_submitted
  with_token fuel m is_source a (err e) = some (err (wrapped (text "obtain MANO token" ∷ []) e))
  with_token fuel m is_source a (ok token) = poll_submitted fuel m a (submit m is_source a)

  -- The outcome, `none` where the fuel is used up, and the manager with the token that it keeps.
  unfoldable pub set_is_source : ℕ → PxcManager → Bool → SourceAnswers → Option Outcome × PxcManager
  unfolding with_token
  set_is_source fuel m is_source a =
      let (token, client) = ensure_token m.mano a.login in
      (with_token fuel m is_source a token, record m { mano = client })

  unfoldable pub set_read_only : ℕ → PxcManager → SourceAnswers → Option Outcome × PxcManager
  unfolding set_is_source
  set_read_only fuel m a = set_is_source fuel m false a

  -- How the write probe's two statements end: EnsureKeeperSchema and VerifyWrite.
  unfoldable pub verify_write : Outcome → Outcome → Outcome
  verify_write schema probe =
      annotate (text "ensure keeper schema before write verification" ∷ []) schema
      >> annotate (text "write probe after MANO promotion" ∷ []) probe

  probed : Outcome → Outcome → Option Outcome → Option Outcome
  unfolding verify_write
  probed schema probe none = none
  probed schema probe (some (err e)) = some (err e)
  probed schema probe (some (ok _)) = some (verify_write schema probe)

  unfoldable pub set_read_write :
      ℕ → PxcManager → SourceAnswers → Outcome → Outcome → Option Outcome × PxcManager
  unfolding probed set_is_source
  set_read_write fuel m a schema probe =
      let (o, m') = set_is_source fuel m true a in (probed schema probe o, m')
