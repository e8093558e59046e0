-- ===== src/Gateway/Presence.antt =====
-- How a session begins and ends: `Connect` and `_disconnect`.
use django_ops.Common.{
  ℕ, ◌≡◌, ◌↔◌, ◌==◌, eq_iff, eq_refl, true, Option, none, some, [], ◌∷◌, ◌++◌, String, arith, ok,
  err, if◌then◌else◌, eqb, inl, inr, ◌&&◌,
}
use mathlib.Core.Option
use django_ops.Common.Dict.{Dict, lookup, lookup-insert, lookup-erase}
use django_ops.Gateway.State.{
  AgentFrame, AgentHello, hello, JobState, AgentSession, Gateway, done, after, Put-cases,
  already_connected, offer,
}
use django_ops.Gateway.Jobs.{failure_frame, with_queue}
use django_ops.Gateway.Sessions.{
  admit, authenticate, connect, fail_jobs, unregister, disconnect, is_ascii,
}
use django_ops.Gateway.Admission.{Admitted, connect-Admitted}

authenticate-known :
    (token : String) → is_ascii token ≡ true → authenticate (some token) token ≡ ok tt
unfolding authenticate
authenticate-known token h = ground (arith, eq_refl token)

Admitted-connect :
    (g : Gateway) (h : AgentHello) (now : ℕ) {g' : Gateway} {s : AgentSession}
    → Admitted g h now g' s
    → connect g (some (hello h)) now ≡ ok (g', s)
unfolding connect admit
Admitted-connect g h now a = ground (arith, authenticate-known h.auth_token a.ascii)

-- `Connect` accepts a stream exactly when its first frame is a hello with a well-formed identity, the
-- supported protocol, the diagnostics capability, the token configured for that identity and in
-- ASCII, and no session for the identity exists; it then registers a session with what the hello says.
pub connect_iff :
    (g : Gateway) (first : Option AgentFrame) (now : ℕ) (g' : Gateway) (s : AgentSession)
    → (connect g first now ≡ ok (g', s))
      ↔ ((h : AgentHello) × (first ≡ some (hello h)) × Admitted g h now g' s)
connect_iff g first now g' s =
    (connect-Admitted g first now, λ (h, e, a). rw e (Admitted-connect g h now a))

Admitted-again :
    (g : Gateway) (h : AgentHello) (now later : ℕ) {g' : Gateway} {s : AgentSession}
    → Admitted g h now g' s
    → connect g' (some (hello h)) later ≡ err already_connected
unfolding connect admit
Admitted-again g h now later {s = s} a = ground (
  arith,
  authenticate-known h.auth_token a.ascii,
  lookup-insert h.agent_id h.agent_id s g.sessions,
  eq_refl h.agent_id,
)

-- After `Connect` has accepted a stream, another stream with the same first frame is refused as already
-- connected.
pub connect_twice :
    (g g' : Gateway) (first : Option AgentFrame) (now later : ℕ) (s : AgentSession)
    → connect g first now ≡ ok (g', s)
    → connect g' first later ≡ err already_connected
connect_twice g g' first now later s e =
    let (h, e', a) = connect-Admitted g first now e in rw e' (Admitted-again g h now later a)

-- What `_disconnect` leaves of a job.
abbrev pub disconnected : String → String → JobState → JobState
disconnected a j st =
    if st.agent_id == a
    then with_queue
        (st.queue
          ++ failure_frame st j st.next_sequence "AGENT_DISCONNECTED" "agent_disconnected" ∷ [])
        st
    else st

fail_jobs-lookup :
    (a k : String) (d d' : Dict JobState)
    → fail_jobs a d ≡ done d'
    → lookup k d' ≡ Option.map (disconnected a k) (lookup k d)
unfolding fail_jobs offer lookup
fail_jobs-lookup a k [] d' h = ground arith
fail_jobs-lookup a k ((j, st) ∷ d) d' h = elim (Put-cases (fail_jobs a d)) [
  | inl (r, e) ↦ ground (arith, fail_jobs-lookup a k d r e, eq_iff j k)
  | inr (r, e) ↦ ground arith
]

unregister-jobs : (g : Gateway) (s : AgentSession) → (unregister g s).jobs ≡ g.jobs
unfolding unregister
unregister-jobs g s = ground arith

-- When `_disconnect` runs to its end, each of the agent's active jobs has a failure frame at the end of
-- its queue and is otherwise unchanged, and every other job is unchanged.
pub disconnect-jobs :
    (g g' : Gateway) (s : AgentSession) (j : String)
    → disconnect g s ≡ done g'
    → lookup j g'.jobs ≡ Option.map (disconnected s.agent_id j) (lookup j g.jobs)
unfolding disconnect
disconnect-jobs g g' s j h = elim (Put-cases (fail_jobs s.agent_id (unregister g s).jobs)) [
  | inl (r, e) ↦
      ground (arith, fail_jobs-lookup s.agent_id j (unregister g s).jobs r e, unregister-jobs g s)
  | inr (r, e) ↦ ground arith
]

-- `_disconnect` removes the session that it is given and no other: if the registered session of that
-- agent is another object, it stays.
pub disconnect-sessions :
    (g : Gateway) (s t : AgentSession) (a : String)
    → lookup s.agent_id g.sessions ≡ some t
    → lookup a (after (disconnect g s)).sessions
      ≡ (if eqb t.ident s.ident && s.agent_id == a then none else lookup a g.sessions)
unfolding disconnect unregister
disconnect-sessions g s t a h = elim (Put-cases (fail_jobs s.agent_id (unregister g s).jobs)) [
  | inl (r, e) ↦ ground (arith, lookup-erase s.agent_id a g.sessions)
  | inr (r, e) ↦ ground (arith, lookup-erase s.agent_id a g.sessions)
]
