-- ===== src/DropPoint/Merge/Follows.antt =====
-- src-tauri/src/drop_point/session.rs: what may become of a stored state.
use procnote.Prelude.{String, ◌≡◌, refl, ◌∙◌, ◌≤◌, arith, true, false, some, Keyed, get}
use procnote.DropPoint.Session.{SubmissionState, ActiveDropPointSession, is_resumable}
use procnote.DropPoint.Merge.{phase_rank}

-- The submission keeps its bundle, and no mark on it is lost.
abbrev pub KeepsSubmission : SubmissionState → SubmissionState → Type 0
KeepsSubmission x x' =
    (x'.bundle.identity ≡ x.bundle.identity)
    × (x'.bundle.path ≡ x.bundle.path)
    × (x.recorded ≡ true → x'.recorded ≡ true)
    × (x.acknowledged ≡ true → x'.acknowledged ≡ true)

abbrev pub KeepsSubmissions : Keyed SubmissionState → Keyed SubmissionState → Type 0
KeepsSubmissions m m' =
    (id : String) (x : SubmissionState)
    → get id m ≡ some x
    → (x' : SubmissionState) × (get id m' ≡ some x') × KeepsSubmission x x'

-- The fields of a stored state that no writer changes.
abbrev pub SameSession : ActiveDropPointSession → ActiveDropPointSession → Type 0
SameSession s s' =
    (s'.session_id ≡ s.session_id)
    × (s'.execution_id ≡ s.execution_id)
    × (s'.step_id ≡ s.step_id)
    × (s'.input_id ≡ s.input_id)
    × (s'.execution_dir ≡ s.execution_dir)
    × (s'.drop_point_id ≡ s.drop_point_id)

-- What may have become of a stored state: it is the same session, in the same or a later phase, with
-- its submissions; and a complete session is final.
abbrev pub Follows : ActiveDropPointSession → ActiveDropPointSession → Type 0
Follows s s' =
    SameSession s s'
    × (phase_rank s.phase ≤ phase_rank s'.phase)
    × KeepsSubmissions s.submissions s'.submissions
    × (is_resumable s ≡ false → s' ≡ s)

pub KeepsSubmission-refl : (x : SubmissionState) → KeepsSubmission x x
KeepsSubmission-refl x = (refl, refl, λ h. h, λ h. h)

pub KeepsSubmission-trans :
    (x y z : SubmissionState) → KeepsSubmission x y → KeepsSubmission y z → KeepsSubmission x z
KeepsSubmission-trans x y z (i, p, r, a) (i', p', r', a') =
    (i' ∙ i, p' ∙ p, λ h. r' (r h), λ h. a' (a h))

pub KeepsSubmissions-refl : (m : Keyed SubmissionState) → KeepsSubmissions m m
KeepsSubmissions-refl m id x h = (x, h, KeepsSubmission-refl x)

pub KeepsSubmissions-trans :
    (m n k : Keyed SubmissionState)
    → KeepsSubmissions m n
    → KeepsSubmissions n k
    → KeepsSubmissions m k
KeepsSubmissions-trans m n k f g id x h =
    let (y, hy, xy) = f id x h in
    let (z, hz, yz) = g id y hy in (z, hz, KeepsSubmission-trans x y z xy yz)

pub Follows-refl : (s : ActiveDropPointSession) → Follows s s
Follows-refl s = (
  (refl, refl, refl, refl, refl, refl),
  omega arith,
  KeepsSubmissions-refl s.submissions,
  λ h. refl,
)
