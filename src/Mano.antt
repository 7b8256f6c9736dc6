-- ===== src/Mano.antt =====
-- internal/mano: the client of the MANO API and the manager that opens and closes a cluster through
-- it. A call is a function of the answers that it gets: what net/http, encoding/json and the clock
-- return, one record of answers for each request.
pub mod Polling
pub mod Manager
use mysql_keeper.Prelude.{
  ℕ, zero, suc, ◌-◌, ◌*◌, String, [], ◌∷◌, Bool, true, false, not, ◌&&◌, ◌||◌, Option, none, some,
  if◌then◌else◌, str_eq,
}
use mysql_keeper.Prelude.Int.{ℤ, pos, negsuc, eqb_ℤ, wrap64}
use mysql_keeper.Go.Time.{Time, Duration, minute, add, before, after}
use mysql_keeper.Go.Error.{
  Message, text, number, span, Error, raised, wrapped, Outcome, Result, ok, err, done, ◌>>=◌, ◌>>◌,
  annotate,
}

-- The fields of Client that change a result; the password only goes into a header.
pub record Client : Type 0 where
  pub base_url : String
  pub static_token : String
  pub cached_token : String
  pub token_expiry : Time

-- time.Duration(n) * time.Second
abbrev pub seconds : ℤ → Duration
seconds (pos n) = wrap64 (pos (n * 1000000000))
seconds (negsuc n) = wrap64 (negsuc (suc n * 1000000000 - 1))

-- accessTokenResponse, with what strconv.ParseInt makes of expires_in.
pub record AccessToken : Type 0 where
  pub access_token : String
  pub expires_in : String
  pub parsed : Option ℤ

pub record LoginResponse : Type 0 where
  pub status_code : ℤ
  pub decoded : Result AccessToken

-- How a login ends, and the clock before and after it.
pub record LoginAnswers : Type 0 where
  pub now : Time
  pub marshal : Outcome
  pub build : Outcome
  pub response : Result LoginResponse
  pub later : Time

-- Eight hours, where the answer does not say.
abbrev pub expires_in_of : AccessToken → ℤ
expires_in_of a =
    if str_eq a.expires_in "" then pos 28800 else elim a.parsed [ none ↦ pos 28800 | some n ↦ n ]

token_of : Time → AccessToken → Result (String × Time)
token_of now a =
    if str_eq a.access_token ""
    then err (raised (text "MANO login response missing access_token" ∷ []))
    else ok (a.access_token, add now (seconds (expires_in_of a)))

login_reply : Time → LoginResponse → Result (String × Time)
unfolding token_of
login_reply now r =
    if not (eqb_ℤ r.status_code (pos 200))
    then err (
        raised
          (text "MANO login returned HTTP " ∷ number r.status_code ∷ text " (expected 200)" ∷ []))
    else annotate (text "decode login response" ∷ []) r.decoded >>= token_of now

unfoldable pub login : Client → LoginAnswers → Result (String × Time)
unfolding login_reply
login c a =
    annotate (text "marshal login request" ∷ []) a.marshal
    >> annotate (text "build login request" ∷ []) a.build
    >> annotate (text "POST " ∷ text c.base_url ∷ text "/users/auth" ∷ []) a.response
    >>= login_reply a.later

-- What a login leaves: the token, and the client that keeps it.
logged_in : Client → Result (String × Time) → Result String × Client
logged_in c (err e) = (err e, c)
logged_in c (ok (token, expiry)) =
    (ok token, record c { cached_token = token; token_expiry = expiry })

-- The static token, a cached one with more than a minute left, or a login.
unfoldable pub ensure_token : Client → LoginAnswers → Result String × Client
unfolding login logged_in
ensure_token c a =
    if not (str_eq c.static_token "")
    then (ok c.static_token, c)
    else if not (str_eq c.cached_token "") && before (add a.now minute) c.token_expiry
    then (ok c.cached_token, c)
    else logged_in c (login c a)

pub record ProblemDetails : Type 0 where
  pub status : ℤ
  pub detail : String

pub record LcmOpOcc : Type 0 where
  pub id : String
  pub operation_state : String
  pub error : Option ProblemDetails

-- What json.Decoder makes of a body: the value, io.EOF for an empty body, or another error.
pub data Decoded : Type 0 where
  value : LcmOpOcc → Decoded
  eof : Decoded
  invalid : Error → Decoded

pub record PollResponse : Type 0 where
  pub status_code : ℤ
  pub decoded : Decoded

-- One round of the loop: the clock, the request, its answer, and the wait for the next round, which
-- ends early, with the error of the context, when that is done.
pub record Round : Type 0 where
  pub now : Time
  pub build : Outcome
  pub response : Result PollResponse
  pub waited : Outcome

module _ (base_url id : String) (timeout : Duration) where
  op_failed : String → Outcome
  op_failed detail =
      err (raised (text "MANO LCM op " ∷ text id ∷ text " failed: " ∷ text detail ∷ []))

  -- `none` to wait and go round again.
  judge : LcmOpOcc → Option Outcome
  unfolding op_failed
  judge occ =
      if str_eq occ.operation_state "COMPLETED"
      then some done
      else if str_eq occ.operation_state "FAILED"
          || str_eq occ.operation_state "FAILED_TEMP"
          || str_eq occ.operation_state "ROLLED_BACK"
      then some (op_failed (elim occ.error [ none ↦ occ.operation_state | some p ↦ p.detail ]))
      else none

  decoded_step : ℤ → Decoded → Option Outcome
  unfolding judge
  decoded_step code (value occ) = judge occ
  decoded_step code eof = none
  decoded_step code (invalid e) =
      some
        (err (wrapped (text "decode lcm-op-occ response (HTTP " ∷ number code ∷ text ")" ∷ []) e))

  response_step : Result PollResponse → Option Outcome
  unfolding decoded_step
  response_step (err e) =
      some (
        err
          (wrapped (text "GET " ∷ text base_url ∷ text "/cnflcm/v1/lcm-op-occ/" ∷ text id ∷ []) e))
  response_step (ok r) = decoded_step r.status_code r.decoded

  wait_step : Outcome → Option Outcome → Option Outcome
  wait_step waited (some o) = some o
  wait_step (err e) none = some (err e)
  wait_step (ok _) none = none

  -- One round: its end, or `none` to go round again.
  unfoldable pub poll_round : Time → Round → Option Outcome
  unfolding response_step wait_step
  poll_round deadline r =
      if after r.now deadline
      then some (
          err (
            raised (
              text "MANO LCM op "
              ∷ text id
              ∷ text " did not complete within "
              ∷ span timeout
              ∷ [])))
      else elim r.build [
        | err e ↦ some (err (wrapped (text "build poll request" ∷ []) e))
        | ok _ ↦ wait_step r.waited (response_step r.response)
      ]

  -- The loop from round `n`; `none` where the fuel is used up.
  unfoldable pub poll_from : (ℕ → Round) → Time → ℕ → ℕ → Option Outcome
  unfolding poll_round
  poll_from rounds deadline zero n = none
  poll_from rounds deadline (suc fuel) n =
      let rest = poll_from rounds deadline fuel (suc n) in
      elim (poll_round deadline (rounds n)) [ none ↦ rest | some o ↦ some o ]

  unfoldable pub poll_lcm_op_occ : ℕ → Time → (ℕ → Round) → Option Outcome
  unfolding poll_from
  poll_lcm_op_occ fuel now rounds = poll_from rounds (add now timeout) fuel 0
