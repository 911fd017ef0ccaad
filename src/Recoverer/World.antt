-- ===== src/Recoverer/World.antt =====
-- What the recoverer asks of zinc, of KTMB, of the session and of the clock. `Env` answers each
-- request as it likes, in view of all requests made before; the requests made are the world.
use nitroso_tin.Base.{ℕ, String, Bool, Option, List, if◌then◌else◌, ◌==◌, Result, ok, err, Prog}
use nitroso_tin.Ktmb.{KtmbError, GenericRes, TicketList}
use nitroso_tin.Zinc.{Reply, unreached, answered, Principal, RecoverDto}
use nitroso_tin.Recoverer.Scan.{ScanError}

pub data Call : Type 0 where
  get_booking : String → Call
  mark_recovering mark_duplicate mark_manual recover_revert : String → Call
  complete : String → String → String → String → Call
  search_completed : String → String → String → String → Call
  login : Call
  list_page : ℕ → Call
  print_ticket : String → String → Call
  attach_ticket : String → String → String → String → Call
  push_recover : RecoverDto → Call
  pop_recover : Call

-- The requests made so far, the latest first.
abbrev pub History : Type 0
History = List Call

pub data Error : Type 0 where
  bad_id unreachable undecodable : Error
  bad_status : String → ℕ → Error
  ktmb_failed : KtmbError → Error
  inconclusive : ScanError → Error

pub record Env : Type 0 where
  -- `uuid.Parse` succeeds.
  pub is_id : String → Bool
  -- `time.ParseInLocation` with KTMB's and with zinc's layout, in the configured location.
  pub ktmb_time : String → Option ℕ
  pub zinc_time : String → String → Option ℕ
  pub now : History → ℕ
  pub cancelled_at : History → Bool
  pub on_booking : History → String → Reply Principal
  pub on_recovering : History → String → Reply String
  pub on_duplicate : History → String → Reply String
  pub on_manual : History → String → Reply String
  pub on_revert : History → String → Reply String
  pub on_complete : History → String → String → String → String → Reply String
  pub on_search : History → String → String → String → String → Reply (List Principal)
  pub on_login : History → Result KtmbError String
  pub on_list : History → String → ℕ → Result KtmbError (GenericRes TicketList)
  pub on_print : History → String → String → String → Result KtmbError String
  pub on_attach : History → String → String → String → String → Reply String

-- A program of the recoverer.
abbrev pub M : Type 0 → Type 0
M A = Prog History Error A

-- A post that wants 200.
abbrev pub wants_ok : String → Reply String → Result Error (Unit {0})
wants_ok name unreached = err unreachable
wants_ok name (answered status body) = if status == 200 then ok tt else err (bad_status name status)

abbrev pub of_ktmb : {A : Type 0} → Result KtmbError A → Result Error A
of_ktmb (ok a) = ok a
of_ktmb (err e) = err (ktmb_failed e)

abbrev pub of_scan : {A : Type 0} → Result ScanError A × History → Result Error A × History
of_scan (ok a, h) = (ok a, h)
of_scan (err e, h) = (err (inconclusive e), h)
