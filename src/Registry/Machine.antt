-- ===== src/Registry/Machine.antt =====
-- The writes of `Registry` as one data type: every method of src/broker/registry.ts that changes
-- the roster.
use claude_ipc.Base.{ℕ, Text, Option, List, [], ◌∷◌}
use claude_ipc.Broker.{Broker, Env}
use claude_ipc.Registry.{
  RegisterInfo, register, heartbeat, touch_by_act, leave, prune_offline, restore_outbox_owner,
  drop_restored_outbox_owner,
}

pub data Write : Type 0 where
  registers : Text → RegisterInfo → Option Text → Write
  heartbeats : Text → Write
  touches : Text → Write
  leaves : Text → Write
  prunes : ℕ → Write
  restores_owner : Text → Text → Text → Option Text → Write
  drops_owner : Text → Text → Write

unfoldable pub apply : Env → Broker → Write → Broker
apply env b (registers alias info presented) = (register env b alias info presented).0
apply env b (heartbeats alias) = heartbeat env b alias
apply env b (touches alias) = touch_by_act env b alias
apply env b (leaves alias) = leave b alias
apply env b (prunes before_ts) = (prune_offline env b before_ts).0
apply env b (restores_owner alias session_id cwd preserved) =
    (restore_outbox_owner env b alias session_id cwd preserved).0
apply env b (drops_owner alias token) = drop_restored_outbox_owner b alias token

-- A history, each write at its own time.
unfoldable pub run : Broker → List (Env × Write) → Broker
unfolding apply
run b [] = b
run b ((env, w) ∷ ws) = run (apply env b w) ws
