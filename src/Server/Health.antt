-- ===== src/Server/Health.antt =====
-- apps/server/src/routes/health.ts and middleware/errorHandler.ts, without the version, the uptime and
-- the memory that the process reports.
mod Tests
use pm_chat.Base.{
  ℕ, String, Bool, true, false, not, ◌&&◌, ◌||◌, Option, none, some, if◌then◌else◌, ltb, ◌==◌,
  ◌===◌,
}
use pm_chat.Services.{Answer, failed, got}
use pm_chat.Utils.SecurityMonitor.{Monitor, Summary, get_security_metrics_json}
use pm_chat.Utils.ErrorTracker.{Tracker, ErrorSummary, get_error_summary}

pub data MongoStatus : Type 0 where
  mongo_connected mongo_connecting mongo_disconnected : MongoStatus

pub data RedisStatus : Type 0 where
  redis_connected redis_degraded redis_disconnected : RedisStatus

pub record Health : Type 0 where
  pub status_code : ℕ
  pub healthy : Bool
  pub mongodb : MongoStatus
  pub redis : RedisStatus

abbrev pub mongo_status : (ready_state : ℕ) → MongoStatus
mongo_status ready_state =
    if ready_state == 1
    then mongo_connected
    else if ready_state == 2
    then mongo_connecting
    else mongo_disconnected

-- of what `ping` answers, where a failure is caught
abbrev pub redis_status : Answer String → RedisStatus
redis_status failed = redis_disconnected
redis_status (got pong) = if pong === "PONG" then redis_connected else redis_degraded

abbrev pub is_up : RedisStatus → Bool
is_up redis_connected = true
is_up redis_degraded = false
is_up redis_disconnected = false

-- GET /
unfoldable pub health : (ready_state : ℕ) → (ping : Answer String) → Health
health ready_state ping =
    let healthy = ready_state == 1 && is_up (redis_status ping) in
    record {
      status_code = if healthy then 200 else 503;
      healthy = healthy;
      mongodb = mongo_status ready_state;
      redis = redis_status ping;
    }

pub record Details : Type 0 where
  pub security : Summary
  pub errors : ErrorSummary

-- GET /detailed: `none` is the refusal with status 403.
unfoldable pub detailed : (is_production : Bool) → Monitor → Tracker → Option Details
detailed is_production monitor tracker =
    if is_production
    then none
    else some (record {
      security = get_security_metrics_json monitor;
      errors = get_error_summary tracker;
    })

pub record AppError : Type 0 where
  pub message : String
  pub status_code : Option ℕ
  pub expose : Option Bool

-- `createError`
unfoldable pub create_error : (message : String) (status_code : ℕ) → AppError
create_error message status_code = record {
  message = message;
  status_code = some status_code;
  expose = some (ltb status_code 500);
}

abbrev pub code_or_500 : Option ℕ → ℕ
code_or_500 none = 500
code_or_500 (some code) = code

-- `errorHandler`: the status and the message of the answer
unfoldable pub error_handler : (is_production : Bool) → AppError → ℕ × String
error_handler is_production err =
    let status_code = code_or_500 err.status_code in
    (
      status_code,
      if ltb status_code 500 || not is_production then err.message else "Erreur interne du serveur",
    )
