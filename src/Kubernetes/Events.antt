-- ===== src/Kubernetes/Events.antt =====
-- The writes that concurrent requests make to the table of releases (controlplane/kubernetes.py), one
-- event for each transaction or update.
use django_ops.Common.{ℕ, ◌+◌, ◌≤◌, ◌<◌, Bool, ◌&&◌, List, [], ◌∷◌, String, if◌then◌else◌}
use django_ops.Kubernetes.State.{KubernetesRelease, Releases}
use django_ops.Kubernetes.Releases.{
  ReleaseKey, is_release, is_open, open_release, StartAnswer, finish_release, cancel_release,
}

pub data Event : Type 0 where
  opens : ReleaseKey → ℕ → String → String → Event
  finishes : KubernetesRelease → StartAnswer → Event
  cancels : KubernetesRelease → Bool → Event

unfoldable pub step : Releases → Event → Releases
step t (opens key project operation_id compatibility) =
    (open_release t key project operation_id compatibility).table
step t (finishes release answer) = finish_release t release answer
step t (cancels seen accepted) = cancel_release t seen accepted

unfoldable pub run : Releases → List Event → Releases
run t [] = t
run t (e ∷ es) = run (step t e) es

-- The rows' keys fall from the front, and all are below the bound.
abbrev pub Below : ℕ → List KubernetesRelease → Type 0
Below n [] = Unit
Below n (r ∷ rs) = (r.pk < n) × Below r.pk rs

-- how many open rows there are for the release
unfoldable pub count_open : ReleaseKey → List KubernetesRelease → ℕ
count_open key [] = 0
count_open key (r ∷ rs) = (if is_release key r && is_open r then 1 else 0) + count_open key rs

-- Keys of rows are different and below the next one, and each release has at most one open row.
pub record IsValid (t : Releases) : Type 0 where
  pub distinct : Below t.next_pk t.rows
  pub single : (key : ReleaseKey) → count_open key t.rows ≤ 1
