-- ===== src/Gateway/Calls.antt =====
-- How the calls of the gateway (controlplane/gateway.py) can end, one rule for each.
use django_ops.Common.{
  ◌≡◌, inl, inr, Bool, true, false, Option, none, some, List, ◌∷◌, String, Bool-cases, Option-cases,
  Result, ok, err, member, Result-cases, List-cases, if◌then◌else◌,
}
use django_ops.Common.Dict.{lookup, erase}
use django_ops.Gateway.State.{
  AgentFrame, no_capability, GatewayError, ControlFrame, diagnostics, cancel, kubernetes_release,
  JobState, AgentSession, Gateway, KubernetesReleaseRequest, Put, done, is_terminal,
}
use django_ops.Gateway.Jobs.{
  send, open_job, take_event, close_events, next_event, start_diagnostics, start_kubernetes_release,
  cancel_job, set_job, set_session, with_queue, with_outgoing, validate_release_root, then_put,
  kubernetes_capability,
}
use django_ops.Gateway.Steps.{take_outgoing}
use django_ops.Gateway.Admission.{Opened, open_job-Opened}

pub start_diagnostics_cases {κ} :
    (P : Result GatewayError (Put Gateway) → Type κ) (g : Gateway) (a j root : String)
    → ((e : GatewayError) → P (err e))
    → ((g' : Gateway) (s : AgentSession) (st : JobState)
        → validate_release_root root ≡ ok tt
        → Opened g a j "diagnostic" false g' s st
        → P (ok (send g' s (some (diagnostics j root)))))
    → P (start_diagnostics g a j root)
unfolding start_diagnostics
start_diagnostics_cases P g a j root failed sent =
    elim (Result-cases (validate_release_root root)) [
      | inr (e, bad) ↦ rw (bad, start_diagnostics) (failed e)
      | inl (u, good) ↦ elim (Result-cases (open_job g a j "diagnostic" false)) [
        | inr (e, bad) ↦ rw (good, bad, start_diagnostics) (failed e)
        | inl ((g', s, st), opened) ↦
            rw (good, opened, start_diagnostics)
              (sent g' s st good (open_job-Opened g a j "diagnostic" false opened))
      ]
    ]

pub start_kubernetes_release_cases {κ} :
    (P : Result (GatewayError × Gateway) (Put Gateway) → Type κ) (g : Gateway) (a : String)
    (r : KubernetesReleaseRequest)
    → ((e : GatewayError) → P (err (e, g)))
    → ((g' : Gateway) (s : AgentSession) (st : JobState)
        → Opened g a r.job_id "kubernetes" true g' s st
        → P (err (no_capability, record g' { jobs = erase r.job_id g'.jobs })))
    → ((g' : Gateway) (s : AgentSession) (st : JobState)
        → member kubernetes_capability s.capabilities ≡ true
        → Opened g a r.job_id "kubernetes" true g' s st
        → P (ok (send g' s (some (kubernetes_release r)))))
    → P (start_kubernetes_release g a r)
unfolding start_kubernetes_release
start_kubernetes_release_cases P g a r failed taken_back sent =
    elim (Result-cases (open_job g a r.job_id "kubernetes" true)) [
      | inr (e, bad) ↦ rw (bad, start_kubernetes_release) (failed e)
      | inl ((g', s, st), opened) ↦
          let o = open_job-Opened g a r.job_id "kubernetes" true opened in
          elim (Bool-cases (member kubernetes_capability s.capabilities)) [
            | inl able ↦ rw (opened, able, start_kubernetes_release) (sent g' s st able o)
            | inr unable ↦ rw (opened, unable, start_kubernetes_release) (taken_back g' s st o)
          ]
    ]

pub cancel_job_cases {κ} :
    (P : Put (Gateway × Bool) → Type κ) (g : Gateway) (j : String)
    → P (done (g, false))
    → ((st : JobState) → lookup j g.jobs ≡ some st → st.cancel_sent ≡ true → P (done (g, true)))
    → ((st : JobState) (s : AgentSession)
        → lookup j g.jobs ≡ some st
        → st.cancel_sent ≡ false
        → lookup st.agent_id g.sessions ≡ some s
        → P (
            then_put
              (λ g'. (g', true))
              (λ g'. done (g', true))
              (send (set_job g j (λ t. record t { cancel_sent = true })) s (some (cancel j)))))
    → P (cancel_job g j)
unfolding cancel_job
cancel_job_cases P g j unsent again sent = elim (Option-cases (lookup j g.jobs)) [
  | inl e ↦ rw (e, cancel_job) unsent
  | inr (st, e) ↦ elim (Bool-cases st.cancel_sent) [
    | inl before ↦ rw (e, before, cancel_job) (again st e before)
    | inr first ↦ elim (Option-cases (lookup st.agent_id g.sessions)) [
      | inl gone ↦ rw (e, first, gone, cancel_job) unsent
      | inr (s, here) ↦ rw (e, first, here, cancel_job) (sent st s e first here)
    ]
  ]
]

pub next_event_cases {κ} :
    (P : Option (AgentFrame × Gateway) → Type κ) (g : Gateway) (j : String)
    → P none
    → ((st : JobState) (f : AgentFrame) (rest : List AgentFrame)
        → lookup j g.jobs ≡ some st
        → st.queue ≡ f ∷ rest
        → let g' = set_job g j (with_queue rest) in
          P (some (f, if is_terminal f then close_events g' j else g')))
    → P (next_event g j)
unfolding next_event take_event
next_event_cases P g j waiting taken = elim (Option-cases (lookup j g.jobs)) [
  | inl e ↦ rw (e, next_event, take_event) waiting
  | inr (st, e) ↦ elim (List-cases st.queue) [
    | inl empty ↦ rw (e, empty, next_event, take_event) waiting
    | inr (f, rest, q) ↦ rw (e, q, next_event, take_event) (taken st f rest e q)
  ]
]

pub take_outgoing_cases {κ} :
    (P : Gateway → Type κ) (g : Gateway) (s : AgentSession)
    → P g
    → ((f : Option ControlFrame) (rest : List (Option ControlFrame))
        → s.outgoing ≡ f ∷ rest
        → P (set_session g s.agent_id (with_outgoing rest)))
    → P (take_outgoing g s)
unfolding take_outgoing
take_outgoing_cases P g s waiting taken = elim (List-cases s.outgoing) [
  | inl empty ↦ rw (empty, take_outgoing) waiting
  | inr (f, rest, q) ↦ rw (q, take_outgoing) (taken f rest q)
]
