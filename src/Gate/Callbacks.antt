-- ===== src/Gate/Callbacks.antt =====
-- processCallback and validateCallback of internal/gate/telegram.go.
use azath.Prelude.{
  ltb, ◌==◌, if◌then◌else◌, Text, lookup, insert, size, ℕ, ◌+◌, ◌-◌, ◌^◌, min, Bool, true, false,
  not, ◌&&◌, ◌||◌, Option, none, some,
}
use azath.Prelude.Int.{ℤ, pos, negsuc}
use azath.Gate.{Decision, max_tracked_devices, TelegramGate, denied, approved}
use azath.Gate.Requests.{finish_pending}

-- The Action of callbackData: "approve", "deny", or any other text.
pub data CallbackAction : Type 0 where
  approve deny : CallbackAction
  other_action : Text → CallbackAction

pub record CallbackData : Type 0 where
  pub device_uuid : Text
  pub action : CallbackAction
  pub timestamp : ℤ
  pub token : Text

-- The clock readings of one call: for After, for Since, and for the cache entry.
pub record Readings : Type 0 where
  pub after_at : ℕ
  pub since_at : ℕ
  pub cache_at : ℕ

-- time.Unix(0, t).After(now)
abbrev pub is_after : ℤ → ℕ → Bool
is_after (pos t) now = ltb now t
is_after (negsuc n) now = false

-- The largest time.Duration, where time.Since saturates.
abbrev pub max_duration : ℕ
max_duration = 2 ^ 63 - 1

-- time.Since(time.Unix(0, t)); a time to come counts as 0.
abbrev pub since : ℤ → ℕ → ℕ
since (pos t) now = min max_duration (now - t)
since (negsuc n) now = min max_duration (now + n + 1)

-- `created.After(time.Now()) || time.Since(created) > g.cfg.approvalTTL`
unfoldable pub is_stale : ℤ → ℕ → ℕ → ℕ → Bool
is_stale t after_at since_at ttl = is_after t after_at || ltb ttl (since t since_at)

abbrev pub is_known : CallbackAction → Bool
is_known approve = true
is_known deny = true
is_known (other_action t) = false

abbrev pub decision_of : CallbackAction → Decision
decision_of approve = approved
decision_of deny = denied
decision_of (other_action t) = denied

-- `if data.Action == "approve" { ... }` at the end.
cache_approval : CallbackData → Readings → TelegramGate → TelegramGate
cache_approval d now g =
    if not (ltb 0 g.cfg.approval_cache_ttl && ltb (size g.approved_cache) max_tracked_devices)
    then g
    else record g {
      approved_cache =
          insert d.device_uuid (now.cache_at + g.cfg.approval_cache_ttl) g.approved_cache;
    }

unfoldable pub record_action :
    CallbackAction → CallbackData → Readings → TelegramGate → TelegramGate
unfolding cache_approval
record_action approve d now g = cache_approval d now g
record_action deny d now g = g
record_action (other_action t) d now g = g

abbrev pub matches : ℕ → ℤ → Bool
matches created (pos t) = created == t
matches created (negsuc n) = false

unfoldable pub process_pending : Option ℕ → CallbackData → Readings → TelegramGate → TelegramGate
unfolding record_action
process_pending none d now g = record_action d.action d now g
process_pending (some ref) d now g =
    if not (matches (g.heap ref).created_at d.timestamp)
    then g
    else record_action d.action d now (finish_pending g ref (decision_of d.action))

-- processCallback
unfoldable pub process_callback : CallbackData → Readings → TelegramGate → TelegramGate
unfolding process_pending
process_callback d now g =
    if is_stale d.timestamp now.after_at now.since_at g.cfg.approval_ttl
    then g
    else if g.closed
    then g
    else if not (is_known d.action)
    then g
    else process_pending (lookup d.device_uuid g.pending_requests) d now g
