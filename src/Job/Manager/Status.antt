-- ===== src/Job/Manager/Status.antt =====
-- What the two queries of the manager report.
use text.Mathlib.Text.{◌==◌ as str_eq}
use text.Mathlib.TextEquality.{eq_iff}
use nusa_launchd.Shared.{
  ℕ, String, ◌≡◌, refl, Option, none, some, List, [], ◌∷◌, map, arith, if◌then◌else◌,
}
use nusa_launchd.Dict.{lookup}
use nusa_launchd.Job.State.{System, JobInstance, JobStatus}
use nusa_launchd.Job.Manager.{get_job_status, list_jobs, status}
use nusa_launchd.Job.Manager.Changes.{Jobs}

-- The first status under a label.
unfoldable pub find_status : String → List JobStatus → Option JobStatus
find_status label [] = none
find_status label (st ∷ rest) = if str_eq st.label label then some st else find_status label rest

listed :
    (now : ℕ) (label : String) (jobs : Jobs)
    → find_status label (map (λ (p : String × JobInstance). status now p.0 p.1) jobs)
      ≡ elim (lookup label jobs) [ none ↦ none | some i ↦ some (status now label i) ]
unfolding find_status lookup status
listed now label [] = refl
listed now label ((l, i) ∷ rest) = ground (arith, eq_iff l label, listed now label rest)

-- In list_jobs, the first status under a label is the one that get_job_status reports for the label
-- at the same time, and there is none under the label of a job that is not loaded.
pub find_status-list_jobs :
    (now : ℕ) (s : System) (label : String)
    → find_status label (list_jobs now s) ≡ get_job_status now label s
unfolding list_jobs get_job_status
find_status-list_jobs now s label = listed now label s.jobs
