-- ===== src/Broker.antt =====
-- The state that the broker's parts share, and what it takes from its surroundings.
use claude_ipc.Base.{ℕ, Text, Bool, Option, List}
use claude_ipc.Base.Map.{Map}
use claude_ipc.Models.{RegistryEntry}
use claude_ipc.Storage.State.{Backend}

-- The storage, the roster (`entries` of `Registry`), the aliases that `notify` was called with (the
-- latest first), and how many ids and tokens have been drawn.
pub record Broker : Type 0 where
  pub backend : Backend
  pub entries : Map RegistryEntry
  pub notified : List Text
  pub ids_drawn : ℕ
  pub tokens_drawn : ℕ

-- The clock, which is read once for each operation; the id source and `crypto.randomUUID`; the
-- settings of src/config.ts that the broker is built with; the terminal of a process.
pub record Env : Type 0 where
  pub now : ℕ
  pub new_id : ℕ → Text
  pub new_token : ℕ → Text
  pub idle_s : ℕ
  pub offline_s : ℕ
  pub default_ttl_s : Option ℕ
  pub allowlist : Map (List Text)
  pub strict : Bool
  pub default_reply_by_s : Option ℕ
  pub final_grace_s : ℕ
  pub tty_for_pid : ℕ → Option Text
