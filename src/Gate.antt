-- ===== src/Gate.antt =====
-- internal/gate/gate.go and the state of the Telegram gate of telegram.go. A pending request is an
-- object on a heap, since waiters and goroutines keep pointers to it. Times are nanoseconds.
pub mod Requests
pub mod Callbacks
pub mod Codec
pub mod Updates
pub mod Prompts
pub mod Construction
pub mod Steps
pub mod Bounds
pub mod Pointers
pub mod Approvals
use azath.Prelude.{◌==◌, if◌then◌else◌, Text, Assoc, ℕ, Bool, false, []}
use azath.Prelude.Int.{ℤ, pos}

pub record Device : Type 0 where
  pub name : Text
  pub uuid : Text

pub data Decision : Type 0 where
  denied approved : Decision

-- The limits of telegram.go.
abbrev pub max_pending_requests : ℕ
max_pending_requests = 64

abbrev pub max_waiters_per_device : ℕ
max_waiters_per_device = 32

abbrev pub max_concurrent_sends : ℕ
max_concurrent_sends = 8

abbrev pub max_tracked_devices : ℕ
max_tracked_devices = 1024

-- telegramGateConfig, less the texts that only go into a message.
pub record TelegramGateConfig : Type 0 where
  pub chat_id_int : ℤ
  pub authorized_user_id : ℤ
  pub approval_ttl : ℕ
  pub approval_cache_ttl : ℕ

-- `done` says that the channel is closed, `cancelled` that the context of the goroutine is.
pub record PendingRequest : Type 0 where
  pub device : Device
  pub created_at : ℕ
  pub done : Bool
  pub decision : Decision
  pub waiters : ℕ
  pub cancelled : Bool

-- The pointers to pending requests are numbers; `next_ref` is the next one to be allocated.
pub record TelegramGate : Type 0 where
  pub cfg : TelegramGateConfig
  pub pending_requests : Assoc ℕ
  pub heap : ℕ → PendingRequest
  pub next_ref : ℕ
  pub last_prompt : Assoc ℕ
  pub prompt_interval : ℕ
  pub sends : ℕ  -- how many tokens the channel holds
  pub approved_cache : Assoc ℕ  -- expiresAt
  pub closed : Bool
  pub cleared : Bool  -- Close has run to its end
  pub last_update_id : ℤ

abbrev blank : PendingRequest
blank = record {
  device = record { name = []; uuid = [] };
  created_at = 0;
  done = false;
  decision = denied;
  waiters = 0;
  cancelled = false;
}

-- The gate as NewTelegramGate makes it.
unfoldable pub new : TelegramGateConfig → ℕ → TelegramGate
new cfg interval = record {
  cfg = cfg;
  pending_requests = [];
  heap = λ _. blank;
  next_ref = 0;
  last_prompt = [];
  prompt_interval = interval;
  sends = 0;
  approved_cache = [];
  closed = false;
  cleared = false;
  last_update_id = pos 0;
}

-- A write through a pointer.
unfoldable pub update : (ℕ → PendingRequest) → ℕ → PendingRequest → ℕ → PendingRequest
update h r p q = if r == q then p else h q
