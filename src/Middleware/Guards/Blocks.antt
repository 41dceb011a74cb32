-- ===== src/Middleware/Guards/Blocks.antt =====
-- Which requests the guards in front of the routes let through, over any run of requests and of other
-- calls of the security monitor: the handlers of sockets and their limiter share it.
use pm_chat.Base.{ℕ, ◌+◌, ◌≡◌, min, String, some, List, [], ◌∷◌, if◌then◌else◌}
use pm_chat.Dict
use pm_chat.NameSet
use pm_chat.Utils.SecurityMonitor
use pm_chat.Utils.SecurityMonitor.{Monitor, auto_block_threshold}
use pm_chat.Utils.SecurityMonitor.Blocking.{Violation, named, count_of, IsExact, names}
use pm_chat.Utils.SecurityMonitor.Blocking
use pm_chat.Utils.ErrorTracker
use pm_chat.Middleware.Guards.{World, Request, address, is_unsupported, sanitized, front}

abbrev pub start : World
start = record {
  monitor = SecurityMonitor.initial;
  tracker = ErrorTracker.initial;
  session_counts = [];
}

-- What reaches the monitor: a request through the guards, or a violation that is recorded elsewhere.
pub data Event : Type 0 where
  request : Request → Event
  elsewhere : Violation → Event

unfoldable pub happen : World → Event → World
happen w (request r) = (front r w).0
happen w (elsewhere v) = record w { monitor = Blocking.step w.monitor v }

unfoldable pub run : World → List Event → World
run w [] = w
run w (e ∷ es) = run (happen w e) es

-- 1 if the event names the address, which is not empty, as an offender: a request from there with a
-- body of an unsupported type, or a violation of any kind that is recorded of it.
abbrev pub offence : String → Event → ℕ
offence ip (request r) = if is_unsupported (sanitized r) then names (some (address r)) ip else 0
offence ip (elsewhere v) = names (named v) ip

unfoldable pub offences : String → List Event → ℕ
offences ip [] = 0
offences ip (e ∷ es) = offence ip e + offences ip es

-- The monitor knows of the address as many offences as there were, up to the threshold.
record Knows (ip : String) (n : ℕ) (m : Monitor) : Type 0 where
  exact : IsExact ip m
  count : min auto_block_threshold (count_of ip m) ≡ min auto_block_threshold n
