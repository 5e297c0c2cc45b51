-- ===== src/Job/Manager/Delay.antt =====
-- src/job/manager.rs: the receive loop of start_background_tasks, and what it does to the jobs.
use text.Mathlib.Text.{◌==◌ as str_eq}
use text.Mathlib.TextEquality.{eq_iff}
use nusa_launchd.Shared.{
  String, ◌≡◌, refl, sym, subst, ◌∙◌, ◌||◌, Bool, true, false, Option, none, some, List, [], ◌∷◌,
  ◌++◌, Bool-cases, Option-cases, inl, inr, if◌then◌else◌,
}
use nusa_launchd.Dict.{lookup, insert, lookup-insert}
use nusa_launchd.Job.State.{
  System, JobInstance, stopped, JobEvent, RestartRequest, job_ready_for_restart,
}
use nusa_launchd.Task.{Task, ◌>>◌, pure, Channels, taken, done}
use nusa_launchd.Event.{send}
use nusa_launchd.Job.Manager.Changes.{Jobs}
use nusa_launchd.Job.Manager.{handle_restart_request, awaits_restart}

-- The loop over the requests that the channel delivers, in their order, until the channel closes.
unfoldable pub serve_requests : Channels → List RestartRequest → Task Unit
serve_requests ch [] = pure tt
serve_requests ch (r ∷ rs) = handle_restart_request ch r >> serve_requests ch rs

-- Is a restart of the label requested?
abbrev pub requested : String → List RestartRequest → Bool
requested label [] = false
requested label (r ∷ rs) = str_eq r.label label || requested label rs

-- A job that waits for its restart becomes Stopped; any other stays as it is.
abbrev pub settled : Bool → Option JobInstance → Option JobInstance
settled false o = o
settled true none = none
settled true (some i) = some (if awaits_restart i.state then record i { state = stopped } else i)

settled_twice : (a b : Bool) (o : Option JobInstance) → settled a (settled b o) ≡ settled (b || a) o
settled_twice false false o = refl
settled_twice true false o = refl
settled_twice false true o = refl
settled_twice true true none = refl
settled_twice true true (some i) = elim (Bool-cases (awaits_restart i.state)) [
  | inl a ↦ rw a
  | inr a ↦ rw (a, a)
]

settled-same :
    (key label : String) (jobs : Jobs)
    → settled true (lookup key jobs) ≡ lookup key jobs
    → lookup label jobs ≡ settled (str_eq key label) (lookup label jobs)
settled-same key label jobs p = elim (Bool-cases (str_eq key label)) [
  | inl q ↦
      rw q
        (subst (λ l. lookup l jobs ≡ settled true (lookup l jobs)) ((eq_iff key label).0 q) (sym p))
  | inr q ↦ rw q
]

settled-insert :
    (key label : String) (i : JobInstance) (jobs : Jobs)
    → lookup key jobs ≡ some i
    → awaits_restart i.state ≡ true
    → lookup label (insert key (record i { state = stopped }) jobs)
      ≡ settled (str_eq key label) (lookup label jobs)
settled-insert key label i jobs e a = elim (Bool-cases (str_eq key label)) [
  | inl q ↦ rw (lookup-insert, q, ← (eq_iff key label).0 q, e, a)
  | inr q ↦ rw (lookup-insert, q)
]

module _ (ch : Channels) (takes : (e : JobEvent) → ch.to_event e ≡ taken) where
  pub serves_one :
      (r : RestartRequest) (s : System)
      → (t : System) × (handle_restart_request ch r s ≡ (done tt, t))
        × ((label : String)
            → lookup label t.jobs ≡ settled (str_eq r.label label) (lookup label s.jobs))
  unfolding handle_restart_request send
  serves_one r s = elim (Option-cases (lookup r.label s.jobs)) [
    | inl e ↦ (s, rw e, λ label. settled-same r.label label s.jobs (rw e))
    | inr (i, e) ↦ elim (Bool-cases (awaits_restart i.state)) [
      | inr a ↦ (s, rw (e, a), λ label. settled-same r.label label s.jobs (rw (e, a)))
      | inl a ↦ (
        record s {
          jobs = insert r.label (record i { state = stopped }) s.jobs;
          events = s.events ++ job_ready_for_restart r.label ∷ [];
        },
        rw (e, a, takes),
        λ label. settled-insert r.label label i s.jobs e a,
      )
    ]
  ]

  -- Where the event channel takes events and no other call runs in between, the restart task serves
  -- any sequence of requests without an error, a wait or a panic. A job in Backoff or Restarting whose restart is requested is Stopped
  -- afterwards, ready to be started again, with all else kept, and every other job is as it was.
  pub serve_requests_lem :
      (rs : List RestartRequest) (s : System)
      → (t : System) × (serve_requests ch rs s ≡ (done tt, t))
        × ((label : String)
            → lookup label t.jobs ≡ settled (requested label rs) (lookup label s.jobs))
  unfolding serve_requests
  serve_requests_lem [] s = (s, refl, λ label. refl)
  serve_requests_lem (r ∷ rs) s =
      let (t, e, one) = serves_one r s in
      let (u, f, rest) = serve_requests_lem rs t in
      (
        u,
        rw e f,
        λ label.
            rest label
            ∙ rw (one label) (settled_twice (requested label rs) (str_eq r.label label) _),
      )
