-- ===== src/Gateway/Admission.antt =====
-- What `_open_job` and `Connect` of controlplane/gateway.py have checked when they succeed.
use django_ops.Common.{
  ℕ, ◌≡◌, refl, eq_iff, Bool, true, false, not, Option, none, some, [], String, arith, ok, member,
  ◌&&◌, ◌<◌, ◌+◌, ap,
}
use django_ops.Common.Dict.{lookup, insert}
use django_ops.Gateway.State.{
  AgentFrame, AgentHello, hello, heartbeat, progress, result, kubernetes_progress,
  kubernetes_result, unset, JobState, AgentSession, Gateway,
}
use django_ops.Gateway.Jobs.{open_job, validate_job_id, inflight, matches_id}
use django_ops.Common.Text.{codes}
use django_ops.Gateway.Sessions.{admit, authenticate, connect, diagnostic_capability, is_ascii}

-- What a successful `open_job` has checked, and the gateway that it leaves.
pub record Opened (g : Gateway) (a j kind : String) (reuse : Bool) (g' : Gateway) (s : AgentSession)
    (st : JobState) : Type 0 where
  pub valid : matches_id (codes j) ≡ true
  pub fresh : lookup j g.jobs ≡ none
  pub unused : (member j g.completed_jobs && not reuse) ≡ false
  pub connected : lookup a g.sessions ≡ some s
  pub room : inflight a g.jobs < g.max_inflight_per_agent
  pub state :
      st ≡ record { agent_id = a; kind = kind; queue = []; next_sequence = 1; cancel_sent = false }
  pub changed : g' ≡ record g { jobs = insert j st g.jobs }

pub open_job-Opened :
    (g : Gateway) (a j kind : String) (reuse : Bool) {g' : Gateway} {s : AgentSession}
    {st : JobState}
    → open_job g a j kind reuse ≡ ok (g', s, st)
    → Opened g a j kind reuse g' s st
unfolding open_job validate_job_id
open_job-Opened g a j kind reuse h = ground (arith)

-- What an accepted hello has passed, and the gateway and session that it leaves.
pub record Admitted (g : Gateway) (h : AgentHello) (now : ℕ) (g' : Gateway) (s : AgentSession)
    : Type 0 where
  pub identity : matches_id (codes h.agent_id) ≡ true
  pub version : h.major ≡ 1
  pub capable : member diagnostic_capability h.capabilities ≡ true
  pub ascii : (is_ascii h.auth_token) ≡ true
  pub token : lookup h.agent_id g.agent_tokens ≡ some h.auth_token
  pub absent : lookup h.agent_id g.sessions ≡ none
  pub session : s ≡ record {
    ident = g.next_ident;
    agent_id = h.agent_id;
    capabilities = h.capabilities;
    protocol_major = h.major;
    protocol_minor = h.minor;
    outgoing = [];
    last_heartbeat = now;
  }
  pub changed :
      g' ≡ record g { sessions = insert h.agent_id s g.sessions; next_ident = g.next_ident + 1 }

authenticate-eq-ok :
    (expected : Option String) (token : String)
    → authenticate expected token ≡ ok tt
    → (expected ≡ some token) × (is_ascii token ≡ true)
unfolding authenticate
authenticate-eq-ok none token h = ground arith
authenticate-eq-ok (some e) token h =
    let known : is_ascii token ≡ true = ground arith in
    let same : e ≡ token = ground (arith, eq_iff e token) in (ap some same, known)

pub admit-Admitted :
    (g : Gateway) (h : AgentHello) (now : ℕ) {g' : Gateway} {s : AgentSession}
    → admit g h now ≡ ok (g', s)
    → Admitted g h now g' s
unfolding admit
admit-Admitted g h now e =
    ground (arith, authenticate-eq-ok (lookup h.agent_id g.agent_tokens) h.auth_token)

pub connect-Admitted :
    (g : Gateway) (first : Option AgentFrame) (now : ℕ) {g' : Gateway} {s : AgentSession}
    → connect g first now ≡ ok (g', s)
    → (h : AgentHello) × (first ≡ some (hello h)) × Admitted g h now g' s
unfolding connect
connect-Admitted g (some (hello h)) now e = (h, refl, admit-Admitted g h now e)
connect-Admitted g none now e = cc
connect-Admitted g (some heartbeat) now e = cc
connect-Admitted g (some (progress _ _ _ _)) now e = cc
connect-Admitted g (some (result _ _ _ _)) now e = cc
connect-Admitted g (some (kubernetes_progress _ _ _ _)) now e = cc
connect-Admitted g (some (kubernetes_result _)) now e = cc
connect-Admitted g (some unset) now e = cc
