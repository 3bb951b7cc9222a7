-- ===== src/WorkerProtocol/Accept.antt =====
-- What `accept` and the early returns of the operations do to a valid snapshot.
use localshell_web_superviso.Base.{ℕ, ◌+◌, ◌≡◌, true, List, ok, arith}
use localshell_web_superviso.WorkerProtocol.State.{
  DecisionCode, WorkerTaskState, ProtocolEvent, ProtocolDecision,
}
use localshell_web_superviso.WorkerProtocol.Checks.{accept, stamp}
use localshell_web_superviso.WorkerProtocol.Validity.{IsValid, validate_of-IsValid}

abbrev pub next_state : WorkerTaskState → WorkerTaskState → WorkerTaskState
next_state previous target = record target { revision = previous.revision + 1 }

-- the decision that `accept` returns
abbrev pub accepted_decision :
    WorkerTaskState → WorkerTaskState → DecisionCode → List ProtocolEvent → ProtocolDecision
accepted_decision previous target code events = record {
  accepted = true;
  code = code;
  expected_revision = previous.revision;
  state = next_state previous target;
  events = stamp (previous.revision + 1) events;
}

pub IsValid-revision :
    (s : WorkerTaskState) (n : ℕ) → IsValid s → IsValid (record s { revision = n })
IsValid-revision s n v = record {
  rooted = v.rooted;
  unique = v.unique;
  registered = v.registered;
  current = v.current;
  handoff = v.handoff;
  completion = v.completion;
}

-- A valid target is accepted.
pub accept_of-IsValid :
    (previous target : WorkerTaskState) (code : DecisionCode) (events : List ProtocolEvent)
    → IsValid target
    → accept previous target code events ≡ ok (accepted_decision previous target code events)
unfolding accept
accept_of-IsValid p t code events v =
    rw (validate_of-IsValid (IsValid-revision t (p.revision + 1) v))

pub accept-eq-ok :
    (previous target : WorkerTaskState) (code : DecisionCode) (events : List ProtocolEvent)
    {d : ProtocolDecision}
    → accept previous target code events ≡ ok d
    → d ≡ accepted_decision previous target code events
unfolding accept
accept-eq-ok p t code events h = ground arith
