-- ===== src/Diagnostics/Backend.antt =====
-- controlplane/services.py: `RuntimeGatewayBackend`, as far as it reads the gateway, and `agent_state`. The
-- runtime holds no gateway until one is registered. The readers run outside the gateway's event loop, so
-- each query may find another state of it.
use Prim.Native.Nat.{◌/◌}
use django_ops.Common.{
  ℕ, Bool, true, false, Option, none, some, List, [], String, if◌then◌else◌, Result, ok, err,
}
use django_ops.Gateway.State.{Gateway, GatewayError}
use django_ops.Gateway.Sessions
use django_ops.Gateway.Sessions.{is_connected, heartbeat_age, protocol_version, query}

-- `connected`
unfoldable pub connected : Option Gateway → String → Bool
connected none agent_id = false
connected (some g) agent_id = is_connected g agent_id

-- The value, or the one that stands in the `except` clause.
abbrev or_default {ℓ} : {A : Type ℓ} → A → Result GatewayError A → A
or_default d (ok a) = a
or_default d (err e) = d

-- `int(age)`, for an age in nanoseconds
abbrev seconds : Result GatewayError ℕ → Option ℕ
seconds (ok n) = some (n / 1000000000)
seconds (err e) = none

-- `heartbeat_age`, in whole seconds
unfoldable pub backend_heartbeat_age : Option Gateway → String → ℕ → Option ℕ
backend_heartbeat_age none agent_id now = none
backend_heartbeat_age (some g) agent_id now = seconds (heartbeat_age g agent_id now)

-- `capabilities`
unfoldable pub backend_capabilities : Option Gateway → String → List String
backend_capabilities none agent_id = []
backend_capabilities (some g) agent_id = or_default [] (Sessions.capabilities g agent_id)

-- `protocol_version`
unfoldable pub backend_protocol_version : Option Gateway → String → ℕ × ℕ
backend_protocol_version none agent_id = (0, 0)
backend_protocol_version (some g) agent_id = or_default (0, 0) (protocol_version g agent_id)

-- `AgentState`
pub record AgentState : Type 0 where
  pub is_online : Bool
  pub age : Option ℕ
  pub capabilities : List String
  pub protocol_major : Option ℕ
  pub protocol_minor : Option ℕ

abbrev pub offline_state : List String → AgentState
offline_state stored = record {
  is_online = false;
  age = none;
  capabilities = stored;
  protocol_major = none;
  protocol_minor = none;
}

-- `agent_state`, with the states of the runtime that its four queries find; `stored` are the capabilities
-- in the agent's row.
unfoldable pub agent_state :
    Option Gateway
    → Option Gateway
    → Option Gateway
    → Option Gateway
    → String
    → List String
    → ℕ
    → AgentState
agent_state first second third fourth agent_id stored now =
    if connected first agent_id
    then record {
      is_online = true;
      age = backend_heartbeat_age fourth agent_id now;
      capabilities = backend_capabilities third agent_id;
      protocol_major = some (backend_protocol_version second agent_id).0;
      protocol_minor = some (backend_protocol_version second agent_id).1;
    }
    else offline_state stored
