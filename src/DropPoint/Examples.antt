-- ===== src/DropPoint/Examples.antt =====
-- The session state of src-tauri/src/drop_point/session.rs on concrete calls.
use procnote.Prelude.{◌≡◌, refl, true, false, some, List, [], ◌∷◌, get, insert}
use procnote.DropPoint.Session.{
  closed_successfully, ActiveDropPointSession, with_complete, recorded_as, changed, is_resumable,
}
use procnote.DropPoint.Validate.{validate}
use procnote.DropPoint.Merge.{merge_transition}
use procnote.DropPoint.Merge.Follows.{Follows}
use procnote.DropPoint.Sessions.{StateFiles, Call, inserted, persisted, after_calls}
use procnote.DropPoint.Sessions.Follows.{after_calls-AllFollow}
use procnote.DropPoint.Merge.Valid.{IsValid}
use procnote.DropPoint.Sessions.Reads.{ReadsBack, after_calls-ReadsBack}
use procnote.DropPoint.Sessions.Changes.{changed-IsValid}
use procnote.DropPoint.Fixture.{libraries, workspace, session, bundle}

abbrev recorded_session : ActiveDropPointSession
recorded_session = record session {
  submissions = ("sub_1", record { bundle = bundle; recorded = true; acknowledged = false }) ∷ [];
}

abbrev stored : StateFiles
stored = ("s1", session) ∷ []

-- A writer that has not seen the recorded mark persists the state of before, and is followed by one
-- that completes the session.
abbrev calls : List Call
calls =
    persisted recorded_session
    ∷ persisted session
    ∷ inserted session
    ∷ persisted (with_complete closed_successfully recorded_session)
    ∷ []

session-IsValid : IsValid libraries workspace session
unfolding validate
session-IsValid = refl

after_calls-AllFollow_example :
    (s' : ActiveDropPointSession) × (get "s1"
        (after_calls libraries workspace "no such file" calls stored)
      ≡ some s')
    × Follows session s'
unfolding get
after_calls-AllFollow_example =
    after_calls-AllFollow libraries workspace "no such file" calls stored "s1" session refl

-- The mark that the second writer had not seen stays.
recorded_kept_test :
    after_calls libraries workspace "no such file"
      (persisted recorded_session ∷ persisted session ∷ [])
      stored
    ≡ ("s1", recorded_session) ∷ []
unfolding after_calls validate get merge_transition insert
recorded_kept_test = refl

none-ReadsBack : ReadsBack libraries workspace "no such file" []
unfolding get
none-ReadsBack id s h = cc

after_calls-ReadsBack_example :
    ReadsBack libraries workspace "no such file"
      (after_calls libraries workspace "no such file" (inserted session ∷ calls) [])
after_calls-ReadsBack_example =
    after_calls-ReadsBack libraries workspace "no such file" (inserted session ∷ calls) []
      none-ReadsBack

changed-IsValid_example : IsValid libraries workspace recorded_session
unfolding changed is_resumable get insert
changed-IsValid_example =
    changed-IsValid libraries workspace (recorded_as "sub_1") session recorded_session
      session-IsValid refl refl
