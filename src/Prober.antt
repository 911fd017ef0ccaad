-- ===== src/Prober.antt =====
-- The prober's holds (lib/prober/runner.go): a seat that KTMB has just held is queued for the buyer,
-- or given back; and holds that could not be given back are released later.
pub mod Slot
pub mod Fleet
pub mod Held
pub mod Released
mod Tests
use nitroso_tin.Base.{
  ℕ, zero, suc, String, Bool, true, false, not, ◌||◌, ◌&&◌, Option, none, some, List, [], ◌∷◌, map,
  any, is_empty, ◌==◌, if◌then◌else◌, str_eq, codes, lower_code, to_lower, trim_space, contains,
  Result, ok, err,
}
use nitroso_tin.Ktmb.{KtmbError, http_status, rejected, GenericRes}
use nitroso_tin.Buyer.Client.{ReserveDto}

pub data Call : Type 0 where
  enqueue : ReserveDto → Call
  cancel : String → String → Call
  persist_release : ReserveDto → Call
  remove_release : String → Call
  signal_session_dead : String → Call

-- Why a hold was not delivered, or not given back.
pub data Problem : Type 0 where
  dry_run not_encrypted not_enqueued : Problem
  not_cancelled : KtmbError → Problem
  release_not_encrypted release_not_persisted release_queued : Problem

pub record Env : Type 0 where
  pub is_dry_run : Bool
  pub session_patterns : List String
  pub terminal_patterns : List String
  pub encrypts : List Call → ReserveDto → Bool
  pub decrypt : String → Option ReserveDto
  pub on_enqueue : List Call → ReserveDto → Bool
  pub on_cancel : List Call → String → String → Result KtmbError (GenericRes (Unit {0}))
  pub on_persist : List Call → ReserveDto → Bool
  pub on_list : List Call → ℕ → Option (List String)
  pub on_remove : List Call → String → Bool
  -- The budget of the cleanup is used up.
  pub expired_at : List Call → Bool

-- `Matches` of lib/prober/model.go: the pattern is trimmed, and a blank one matches nothing.
pub occurs_in : String → String → Bool
occurs_in message pattern =
    let p = trim_space (to_lower pattern) in not (is_empty p) && contains (to_lower message) p

unfoldable pub matches : List String → List String → Bool
unfolding occurs_in
matches messages patterns = any (λ m. any (occurs_in m) patterns) messages

-- Why KTMB did not confirm a cancellation, or none.
unfoldable pub cancel_error : Result KtmbError (GenericRes (Unit {0})) → Option KtmbError
cancel_error (err e) = some e
cancel_error (ok r) = if r.status then none else some (rejected r.messages)

-- What is done with one entry: it stays, it is removed, or the drain ends.
pub data Fate : Type 0 where
  stays goes ends : Fate

module _ (env : Env) where
  unfoldable pub or_persist :
      Problem → ReserveDto → Option KtmbError → List Call → (Bool × List Problem) × List Call
  or_persist cause dto none h = ((false, if env.is_dry_run then [] else cause ∷ []), h)
  or_persist cause dto (some e) h =
      if not (env.encrypts h dto)
      then ((true, cause ∷ not_cancelled e ∷ release_not_encrypted ∷ []), h)
      else if env.on_persist h dto
      then ((true, cause ∷ not_cancelled e ∷ release_queued ∷ []), persist_release dto ∷ h)
      else ((true, cause ∷ not_cancelled e ∷ release_not_persisted ∷ []), persist_release dto ∷ h)

  -- Whether the release failed, and the problems joined in the error; no problem is no error.
  unfoldable pub compensate_hold :
      ReserveDto → Problem → List Call → (Bool × List Problem) × List Call
  unfolding or_persist cancel_error
  compensate_hold dto cause h =
      or_persist cause dto (cancel_error (env.on_cancel h dto.user_data dto.booking_data))
        (cancel dto.user_data dto.booking_data ∷ h)

  unfoldable pub accept_hold : ReserveDto → List Call → (Bool × List Problem) × List Call
  unfolding compensate_hold
  accept_hold dto h =
      if env.is_dry_run
      then compensate_hold dto dry_run h
      else if not (env.encrypts h dto)
      then compensate_hold dto not_encrypted h
      else if env.on_enqueue h dto
      then ((false, []), enqueue dto ∷ h)
      else compensate_hold dto not_enqueued (enqueue dto ∷ h)

  -- KTMB rejected the session with which the cancellation was asked.
  unfoldable pub session_rejected : Result KtmbError (GenericRes (Unit {0})) → Bool
  unfolding matches
  session_rejected (ok r) = matches r.messages env.session_patterns
  session_rejected (err (http_status status body)) =
      status == 401 || status == 403 || matches (body ∷ []) env.session_patterns
  session_rejected (err e) = false

  unfoldable pub is_final : Result KtmbError (GenericRes (Unit {0})) → Bool
  unfolding matches
  is_final (ok r) = matches r.messages env.terminal_patterns
  is_final (err e) = false

  unfoldable pub fate : Result KtmbError (GenericRes (Unit {0})) → Fate
  unfolding cancel_error session_rejected is_final
  fate answer = elim (cancel_error answer) [
    | none ↦ goes
    | some e ↦ if session_rejected answer then ends else if is_final answer then goes else stays
  ]

  unfoldable pub user_for : String → ReserveDto → String
  user_for current dto = if str_eq current "" then dto.user_data else current

  -- `true` is success.
  unfoldable pub remove_then :
      String → (List Call → Bool × List Call) → List Call → Bool × List Call
  remove_then v next h =
      let rest = next (remove_release v ∷ h) in
      if env.on_remove h v then rest else (false, remove_release v ∷ h)

  unfoldable pub by_fate :
      Fate → String → String → (List Call → Bool × List Call) → List Call → Bool × List Call
  unfolding remove_then
  by_fate stays user v next h = next h
  by_fate goes user v next h = remove_then v next h
  by_fate ends user v next h = (true, signal_session_dead user ∷ h)

  unfoldable pub drain_entry :
      String
      → String
      → Option ReserveDto
      → (List Call → Bool × List Call)
      → List Call
      → Bool × List Call
  unfolding remove_then by_fate fate user_for
  drain_entry current v none next h = remove_then v next h
  drain_entry current v (some dto) next h =
      let user = user_for current dto in
      by_fate (fate (env.on_cancel h user dto.booking_data)) user v next
        (cancel user dto.booking_data ∷ h)

  unfoldable pub drain_entries : String → ℕ → List String → List Call → Bool × List Call
  unfolding drain_entry
  drain_entries current zero vs h = (true, h)
  drain_entries current (suc left) [] h = (true, h)
  drain_entries current (suc left) (v ∷ vs) h =
      let rest = drain_entry current v (env.decrypt v) (drain_entries current left vs) h in
      if env.expired_at h then (true, h) else rest

  unfoldable pub drain_listed : String → ℕ → Option (List String) → List Call → Bool × List Call
  unfolding drain_entries
  drain_listed current limit none h = (false, h)
  drain_listed current limit (some vs) h = drain_entries current limit vs h

  -- `setting` is the configured limit; 0, as any value below 1, stands for 10.
  unfoldable pub drain_releases : ℕ → String → List Call → Bool × List Call
  unfolding drain_listed
  drain_releases setting current h =
      let limit = if setting == 0 then 10 else setting in
      drain_listed current limit (env.on_list h limit) h
