-- ===== src/TsSdk/Client/Polling.antt =====
-- sdks/typescript/src/client.ts: `waitForDecision`, which asks again until a decision has an outcome.
pub mod Deadline
use cryptokorr.Common.{
  ℕ, zero, suc, ◌+◌, ◌*◌, Text, codes, to_string, nonempty, or_else, leb, Bool, true, false, Option,
  none, some, List, [], ◌∷◌, ◌++◌, if◌then◌else◌,
}
use cryptokorr.TsSdk.Case.{Json, json_null, json_string, json_object, Fields}
use cryptokorr.TsSdk.Wire.{
  RequestOptions, ResolvedConfig, slept, Log, SdkEnv, Failure, plain_error, End, returned, rejected,
  find_field, string_or, is_truthy,
}
use cryptokorr.TsSdk.Transport.{request}
use cryptokorr.TsSdk.Client.{get_intent, get_decision}

abbrev pub default_wait_timeout_s : ℕ
default_wait_timeout_s = 60

abbrev pub default_wait_poll_ms : ℕ
default_wait_poll_ms = 500

-- The property of a value, which is undefined for all but objects.
unfoldable pub property : Text → Json → Option Json
unfolding find_field
property key (json_object fields) = find_field key fields
property key _ = none

-- Reading a property of null throws.
unfoldable pub is_null : Json → Bool
is_null json_null = true
is_null _ = false

-- What one round comes to: the end, or another round.
pub data Poll : Type 0 where
  settled : End → Poll
  pending : Poll

abbrev type_error : Text → Poll
type_error name = settled (
    rejected
      (plain_error (codes "Cannot read properties of null (reading '" ++ name ++ codes "')")))

unfoldable pub check_outcome : Json → Poll
unfolding is_null property is_truthy
check_outcome decision =
    if is_null decision
    then type_error (codes "outcome")
    else if is_truthy (property (codes "outcome") decision)
    then settled (returned decision)
    else pending

unfoldable pub on_decision : Option (End × Log) → Option (Poll × Log)
unfolding check_outcome
on_decision none = none
on_decision (some (rejected failure, log)) = some (settled (rejected failure), log)
on_decision (some (returned decision, log)) = some (check_outcome decision, log)

-- The end of the loop, the timeout, or the next round after the sleep.
unfoldable pub after_poll :
    (Log → ℕ)
    → ℕ
    → ℕ
    → Failure
    → (Log → Option (End × Log))
    → Option (Poll × Log)
    → Option (End × Log)
after_poll now deadline interval late rest none = none
after_poll now deadline interval late rest (some (settled end, log)) = some (end, log)
after_poll now deadline interval late rest (some (pending, log)) =
    if leb deadline (now log) then some (rejected late, log) else rest (slept interval ∷ log)

module _ (env : SdkEnv) (cfg : ResolvedConfig) (encode : Text → Text) (intent_id : Text)
    (request_fuel : ℕ) where
  -- Ask for the decision that the intent names, if it names one.
  unfoldable pub follow_intent : Json → Log → Option (Poll × Log)
  unfolding is_null property on_decision get_decision
  follow_intent intent log =
      let decision_id = string_or (property (codes "currentDecisionId") intent) [] in
      if is_null intent
      then some (type_error (codes "currentDecisionId"), log)
      else if nonempty decision_id
      then on_decision (request env cfg request_fuel (get_decision encode decision_id) log)
      else some (pending, log)

  unfoldable pub on_intent : Option (End × Log) → Option (Poll × Log)
  unfolding follow_intent
  on_intent none = none
  on_intent (some (rejected failure, log)) = some (settled (rejected failure), log)
  on_intent (some (returned intent, log)) = follow_intent intent log

  unfoldable pub timed_out : ℕ → Failure
  unfolding to_string
  timed_out timeout_ms = plain_error (
      codes "CryptoKorr.waitForDecision: timed out after "
      ++ to_string 10 timeout_ms
      ++ codes "ms waiting for a decision on intent "
      ++ intent_id)

  unfoldable pub wait_loop : ℕ → ℕ → ℕ → ℕ → Log → Option (End × Log)
  unfolding after_poll on_intent timed_out get_intent
  wait_loop zero timeout_ms interval deadline log = none
  wait_loop (suc fuel) timeout_ms interval deadline log =
      after_poll env.now deadline interval (timed_out timeout_ms)
        (λ later. wait_loop fuel timeout_ms interval deadline later)
        (on_intent (request env cfg request_fuel (get_intent encode intent_id) log))

  unfoldable pub wait_for_decision : ℕ → Option ℕ → Option ℕ → Log → Option (End × Log)
  unfolding wait_loop
  wait_for_decision fuel timeout_seconds poll_interval_ms log =
      let timeout_ms = or_else timeout_seconds default_wait_timeout_s * 1000 in
      wait_loop fuel timeout_ms (or_else poll_interval_ms default_wait_poll_ms)
        (env.now log + timeout_ms) log
