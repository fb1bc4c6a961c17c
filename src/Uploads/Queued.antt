-- ===== src/Uploads/Queued.antt =====
-- `complete_evidence_upload`, and the jobs of the sessions whose upload is complete.
use mathlib.Core.Option
use mathlib.Core.List.{append-nil}
use site_proof.Prelude.{
  ℕ, ◌≡◌, refl, String, Bool, true, false, not, none, some, List, [], ◌∷◌, ◌++◌, map, All, arith,
  ap, sym, subst, Bool-cases, Option-cases, inl, inr, if_both, ◌==◌, ◌⊎◌, ◌∙◌, if◌then◌else◌,
  eq_iff,
}
use site_proof.Prelude.Reply.{Reply, Check, ok, err, is_ok}
use site_proof.Sessions.Session.{Session}
use site_proof.Sessions.Site.{Site, Caller, owned_session, update}
use site_proof.Jobs.Job.{Job, reuse, new_job}
use site_proof.Jobs.Table as Table
use site_proof.Jobs.Table.{get, has_key, find_key}
use site_proof.Jobs.Queue.{enqueue, insert_or_reuse}
use site_proof.Jobs.Rows.{cond-KeepsKey, find_key-map, find_key-append}
use site_proof.Jobs.Carries.{IsValid}
use site_proof.Jobs.Enqueue.{reuse-KeepsKey, enqueue_existing, find_key-reuse}
use site_proof.Uploads.Complete.{
  Desk, Arrival, pipeline_version, is_complete, is_uploading, is_text, mark_uploaded, uploaded_site,
  commit_enqueued, after_check, check_records, complete_session, with_owned,
  complete_evidence_upload,
}

abbrev pub HasJob : ℕ → List Job → Type 0
HasJob session jobs = (j : Job) × (find_key session pipeline_version jobs ≡ some j)

abbrev pub IsServed : List Job → Session → Type 0
IsServed jobs s = is_complete s.status ≡ true → HasJob s.id jobs

-- Every complete upload has its job.
abbrev pub IsQueued : Desk → Type 0
IsQueued desk = All (IsServed desk.jobs) desk.site.sessions

-- The rows that an enqueue leaves.
record Enqueued (jobs jobs' : List Job) (session : ℕ) : Type 0 where
  pub there : HasJob session jobs'
  pub kept : (k : ℕ) → HasJob k jobs → HasJob k jobs'

enqueue-Enqueued :
    (jobs : List Job) (id session now created : ℕ)
    → IsValid jobs
    → get id jobs ≡ none
    → (j : Job) × (jobs' : List Job) × (enqueue jobs [] true id session pipeline_version now created
        ≡ some (j, jobs'))
      × Enqueued jobs jobs' session
unfolding enqueue insert_or_reuse Table.update
enqueue-Enqueued jobs id session now created v e =
    elim (Option-cases (find_key session pipeline_version jobs)) [
      | inl q ↦ (
        job,
        jobs ++ job ∷ [],
        rw (append-nil, q) (unfold new_job in rw (e, q)),
        record {
          there = (
            job,
            rw (find_key-append, q)
                (unfold new_job find_key has_key Option.or_else in
                  ground (arith, eq_iff pipeline_version pipeline_version)),
          );
          kept = λ k (i, h). (i, rw (find_key-append, h) (unfold Option.or_else in refl));
        },
      )
      | inr (j, q) ↦ (
        j,
        Table.update j.id (reuse now) jobs,
        enqueue_existing jobs true id session pipeline_version now created j v q,
        record {
          there = (j, find_key-reuse session pipeline_version now jobs j v q);
          kept = λ k (i, h). (
            _,
            find_key-map _ (cond-KeepsKey (λ x. x.id == j.id) (reuse now) (reuse-KeepsKey now)) k
                  pipeline_version jobs
                ∙ ap (Option.map _) h,
          );
        },
      )
    ]
  where
    job : Job
    job = new_job id session pipeline_version now created

All-imp :
    {A : Type 0} (P Q : A → Type 0) (g : A → A) (xs : List A)
    → ((x : A) → P x → Q (g x))
    → All P xs
    → All Q (map g xs)
All-imp P Q g [] h a = tt
All-imp P Q g (x ∷ xs) h a = (h x a.0, All-imp P Q g xs h a.1)

All-into :
    {A : Type 0} (P Q : A → Type 0) (xs : List A) → ((x : A) → P x → Q x) → All P xs → All Q xs
All-into P Q [] h a = tt
All-into P Q (x ∷ xs) h a = (h x a.0, All-into P Q xs h a.1)

-- What a completion promises: complete uploads have jobs, an accepted one has its own, and a refused one
-- leaves the tables as they were.
abbrev pub Completes : Desk → Reply Session × Desk → Type 0
Completes desk x =
    IsQueued x.1
    × ((s : Session) → x.0 ≡ ok s → HasJob s.id x.1.jobs)
    × (is_ok x.0 ≡ false → x.1 ≡ desk)

refused-Completes :
    (desk : Desk) (status : ℕ) (code : String)
    → IsQueued desk
    → Completes desk (err status code, desk)
refused-Completes desk status code q = (q, λ s e. cc, λ _. refl)

-- Served already, or the session at hand.
abbrev IsDue : ℕ → List Job → Session → Type 0
IsDue id jobs x = is_complete x.status ≡ true → (x.id ≡ id) ⊎ HasJob x.id jobs

commit_enqueued-Completes :
    (arrival : Arrival) (desk : Desk) (site : Site) (s : Session)
    → IsValid desk.jobs
    → get arrival.job_id desk.jobs ≡ none
    → All (IsDue s.id desk.jobs) site.sessions
    → Completes desk (commit_enqueued arrival desk site s)
unfolding commit_enqueued
commit_enqueued-Completes arrival desk site s v new due =
    let (j, jobs', e, queued) =
      enqueue-Enqueued desk.jobs arrival.job_id s.id arrival.now arrival.created_at v new in
    rw e (
      All-into (IsDue s.id desk.jobs) (IsServed jobs') site.sessions
          (λ x d c. elim (d c) [
            | inl same ↦ subst (λ (n : ℕ). HasJob n jobs') (sym same) queued.there
            | inr has ↦ queued.kept x.id has
          ])
          due,
      λ t same.
          let rows_eq : s ≡ t = cc same in
          subst (λ (x : Session). HasJob x.id jobs') rows_eq queued.there,
      λ refused. cc refused,
    )

served-IsDue : (id : ℕ) (jobs : List Job) (x : Session) → IsServed jobs x → IsDue id jobs x
served-IsDue id jobs x h c = inr (h c)

marked-IsDue :
    (now : ℕ) (sha : String) (id : ℕ) (jobs : List Job) (x : Session)
    → IsServed jobs x
    → IsDue id jobs (if x.id == id then mark_uploaded now sha x else x)
marked-IsDue now sha id jobs x h = elim (Bool-cases (x.id == id)) [
  | inl t ↦ λ c. inl (rw t (ground arith))
  | inr t ↦ λ c. rw t (inr (h (rw t at c)))
]

checked-Completes :
    (desk : Desk) (rest : Reply Session × Desk) (k : Check)
    → IsQueued desk
    → Completes desk rest
    → Completes desk (after_check desk rest k)
checked-Completes desk rest (err status code) q r = refused-Completes desk status code q
checked-Completes desk rest (ok _) q r = r

complete_session-Completes :
    (arrival : Arrival) (sha : String) (desk : Desk) (s : Session)
    → IsValid desk.jobs
    → get arrival.job_id desk.jobs ≡ none
    → IsQueued desk
    → Completes desk (complete_session arrival sha desk s)
unfolding complete_session
complete_session-Completes arrival sha desk s v new q =
    if_both (Completes desk) (is_complete s.status)
      (if is_text sha s.manifest_sha256
        then commit_enqueued arrival desk desk.site s
        else (err 409 "UPLOAD_ALREADY_COMPLETED", desk))
      _
      (if_both (Completes desk) (is_text sha s.manifest_sha256)
        (commit_enqueued arrival desk desk.site s) (err 409 "UPLOAD_ALREADY_COMPLETED", desk)
        (commit_enqueued-Completes arrival desk desk.site s v new (
          All-into (IsServed desk.jobs) (IsDue s.id desk.jobs) desk.site.sessions
            (served-IsDue s.id desk.jobs) q))
        (refused-Completes desk 409 "UPLOAD_ALREADY_COMPLETED" q))
      (if_both (Completes desk) (not (is_uploading s.status))
        (err 409 "INVALID_STATUS_TRANSITION", desk) _
        (refused-Completes desk 409 "INVALID_STATUS_TRANSITION" q)
        (checked-Completes desk _ (check_records sha s desk.files) q (
          checked-Completes desk _ (arrival.validate s desk.files) q (
            commit_enqueued-Completes arrival desk (uploaded_site arrival.now sha s desk.site)
              (mark_uploaded arrival.now sha s) v new
              (unfold uploaded_site update in
                All-imp (IsServed desk.jobs) (IsDue s.id desk.jobs) _ desk.site.sessions
                  (marked-IsDue arrival.now sha s.id desk.jobs) q)))))

-- If the queue is valid, the new job's id is unused and every session whose upload is complete has a job
-- of the pipeline, then after complete_evidence_upload every such session has one, an accepted call's
-- session too, and a refused call has changed nothing.
pub complete_evidence_upload-Completes :
    (is_assigned : ℕ → ℕ → Bool) (caller : Caller) (arrival : Arrival) (session_id : ℕ)
    (sha : String) (desk : Desk)
    → IsValid desk.jobs
    → get arrival.job_id desk.jobs ≡ none
    → IsQueued desk
    → Completes desk (complete_evidence_upload is_assigned caller arrival session_id sha desk)
unfolding complete_evidence_upload
complete_evidence_upload-Completes is_assigned caller arrival session_id sha desk v new q =
    by_session (owned_session true is_assigned caller session_id desk.site.sessions)
  where
    by_session :
        (o : Reply Session) → Completes desk (with_owned desk (complete_session arrival sha desk) o)
    by_session (err status code) = refused-Completes desk status code q
    by_session (ok s) = complete_session-Completes arrival sha desk s v new q
