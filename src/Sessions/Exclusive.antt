-- ===== src/Sessions/Exclusive.antt =====
-- `create_verification_session` and the number of active sessions of an inspection.
use site_proof.Prelude.{
  ℕ, ◌≤◌, ◌≡◌, ◌⊎◌, inl, inr, refl, ap, sym, subst, String, Bool, false, not, ◌&&◌, ◌||◌, Option,
  none, some, List, [], ◌∷◌, ◌++◌, arith, ◌==◌, str_eq, if◌then◌else◌, if_both, Bool-cases,
}
use site_proof.Prelude.Reply.{Reply, ok, err}
use site_proof.Inspections.Inspection.{Inspection, is_cancelled, ready}
use site_proof.Sessions.Session.{Session, is_active}
use site_proof.Sessions.Site.{
  Site, Caller, get_inspector_for_user, find_session, update, mark_expired, needs_expiry, expire,
  move_inspection,
}
use site_proof.Sessions.Capture.{Settings}
use site_proof.Sessions.Creation.{
  create_by, create_inspected, is_active_of, abort_changed, new_session, insert_session,
  replace_existing, reuse_device, create_verification_session,
}
use site_proof.Sessions.OneActive.{
  count_active, IsExclusive, Deactivates, count-update, count-append, count_none, count_last,
}

expire-Deactivates : Deactivates mark_expired
unfolding is_active
expire-Deactivates s = (refl, λ e. refl)

abort-Deactivates : Deactivates abort_changed
unfolding is_active
abort-Deactivates s = (refl, λ e. refl)

expired_idle : (s : Session) → is_active (mark_expired s).status ≡ false
unfolding is_active
expired_idle s = refl

aborted_idle : (s : Session) → is_active (abort_changed s).status ≡ false
unfolding is_active
aborted_idle s = refl

update-IsExclusive :
    (id : ℕ) (f : Session → Session) (sessions : List Session)
    → Deactivates f
    → ((i : ℕ) → count_active i sessions ≤ 1)
    → (i : ℕ) → count_active i (update id f sessions) ≤ 1
update-IsExclusive id f sessions h v i = omega (arith, count-update i id f sessions h, v i)

expire-IsExclusive : (s : Session) (site : Site) → IsExclusive site → IsExclusive (expire s site)
unfolding expire
expire-IsExclusive s site v =
    update-IsExclusive s.id mark_expired site.sessions expire-Deactivates v

inspection_id-expire :
    (s : Session) (i : Inspection) (site : Site)
    → site.inspection ≡ some i
    → (j : Inspection) × ((expire s site).inspection ≡ some j) × (j.id ≡ i.id)
unfolding expire move_inspection
inspection_id-expire s i site e = (
  if is_cancelled i.status then i else record i { status = ready },
  ap (move_inspection ready) e,
  if_both (λ (j : Inspection). j.id ≡ i.id) (is_cancelled i.status) i (record i { status = ready })
      refl refl,
)

-- What the insert does: nothing, or one more active session, of the inspection at hand.
insert_sessions :
    (settings : Settings) (now id organization inspector : ℕ) (device : String) (before site : Site)
    (i : Inspection)
    → site.inspection ≡ some i
    → let after =
        (insert_session settings now id organization inspector device before site).1.sessions in
      (after ≡ before.sessions)
      ⊎ (after ≡ site.sessions ++ new_session settings now id organization inspector device i ∷ [])
unfolding insert_session
insert_sessions settings now id organization inspector device before site i e = rw e (ground arith)

one_more :
    (ss : List Session) (s : Session) (k : ℕ)
    → count_active k ss ≤ 1
    → count_active s.inspection_id ss ≡ 0
    → count_active k (ss ++ s ∷ []) ≤ 1
one_more ss s k b z = elim (Bool-cases (s.inspection_id == k)) [
  | inl here ↦
      let same : s.inspection_id ≡ k = ground arith in
      let none_there = subst (λ n. count_active n ss ≡ 0) same z in
      ground (arith, count-append k ss s)
  | inr elsewhere ↦ ground (arith, count-append k ss s)
]

new_inspection :
    (settings : Settings) (now id organization inspector : ℕ) (device : String) (i : Inspection)
    → (new_session settings now id organization inspector device i).inspection_id ≡ i.id
unfolding new_session
new_inspection settings now id organization inspector device i = refl

insert-IsExclusive :
    (settings : Settings) (now id organization inspector : ℕ) (device : String) (before site : Site)
    (i : Inspection)
    → site.inspection ≡ some i
    → IsExclusive before
    → IsExclusive site
    → count_active i.id site.sessions ≡ 0
    → IsExclusive (insert_session settings now id organization inspector device before site).1
insert-IsExclusive settings now id organization inspector device before site i e b v z k =
    elim (insert_sessions settings now id organization inspector device before site i e) [
      | inl kept ↦ subst (λ ss. count_active k ss ≤ 1) (sym kept) (b k)
      | inr added ↦
          subst (λ ss. count_active k ss ≤ 1) (sym added)
            (one_more site.sessions (new_session settings now id organization inspector device i) k
              (v k)
              (subst (λ n. count_active n site.sessions ≡ 0)
                (sym (new_inspection settings now id organization inspector device i)) z))
    ]

expired_last :
    (settings : Settings) (s : Session) (n : ℕ) (site : Site)
    → count_active n (update s.id mark_expired site.sessions) ≡ 0
    → count_active n (expire s site).sessions ≡ 0
unfolding expire
expired_last settings s n site e = e

replace-IsExclusive :
    (settings : Settings) (now id organization inspector : ℕ) (device : String) (site : Site)
    (i : Inspection)
    → site.inspection ≡ some i
    → IsExclusive site
    → (o : Option Session) → find_session (is_active_of i.id) site.sessions ≡ o
    → IsExclusive (replace_existing settings now id organization inspector device site o).1
unfolding replace_existing
replace-IsExclusive settings now id organization inspector device site i e v none q =
    insert-IsExclusive settings now id organization inspector device site site i e v v
      (count_none i.id site.sessions q)
replace-IsExclusive settings now id organization inspector device site i e v (some s) q =
    if_both Keeps (needs_expiry now s)
      (insert_session settings now id organization inspector device site (expire s site)) rest
      (after_expiry (inspection_id-expire s i site e))
      (if_both Keeps (not (s.inspector_id == inspector))
        (insert_session settings now id organization inspector device site aborted_site)
        (err 409 "ACTIVE_SESSION_EXISTS", site)
        (insert-IsExclusive settings now id organization inspector device site aborted_site i e v
          (update-IsExclusive s.id abort_changed site.sessions abort-Deactivates v)
          (count_last i.id site.sessions s abort_changed (v i.id) q abort-Deactivates
            (aborted_idle s)))
        v)
  where
    Keeps : Reply Session × Site → Type 0
    Keeps after = IsExclusive after.1

    aborted_site : Site
    aborted_site = record site { sessions = update s.id abort_changed site.sessions }

    rest : Reply Session × Site
    rest =
        if not (s.inspector_id == inspector)
        then insert_session settings now id organization inspector device site aborted_site
        else (err 409 "ACTIVE_SESSION_EXISTS", site)

    none_left : count_active i.id (expire s site).sessions ≡ 0
    none_left = expired_last settings s i.id site (
        count_last i.id site.sessions s mark_expired (v i.id) q expire-Deactivates (expired_idle s))

    after_expiry :
        (j : Inspection) × ((expire s site).inspection ≡ some j) × (j.id ≡ i.id)
        → IsExclusive
            (insert_session settings now id organization inspector device site (expire s site)).1
    after_expiry moved =
        insert-IsExclusive settings now id organization inspector device site (expire s site)
          moved.0 moved.1 v (expire-IsExclusive s site v)
          (subst (λ n. count_active n (expire s site).sessions ≡ 0) (sym moved.2) none_left)

reuse-IsExclusive :
    (settings : Settings) (now id organization inspector : ℕ) (device : String) (site : Site)
    (i : Inspection)
    → site.inspection ≡ some i
    → IsExclusive site
    → (o : Option Session)
    → IsExclusive (reuse_device settings now id organization inspector device site i o).1
unfolding reuse_device
reuse-IsExclusive settings now id organization inspector device site i e v none =
    replace-IsExclusive settings now id organization inspector device site i e v _ refl
reuse-IsExclusive settings now id organization inspector device site i e v (some s) =
    if_both Keeps (not (s.inspection_id == i.id) || not (s.inspector_id == inspector))
      (err 409 "DEVICE_SESSION_CONFLICT", site)
      (if needs_expiry now s then (err 409 "SESSION_EXPIRED", expire s site) else (ok s, site)) v
      (if_both Keeps (needs_expiry now s) (err 409 "SESSION_EXPIRED", expire s site) (ok s, site)
        (expire-IsExclusive s site v) v)
  where
    Keeps : Reply Session × Site → Type 0
    Keeps after = IsExclusive after.1

-- If no inspection has two active sessions, none has after `create_verification_session`, whatever
-- it answers.
pub create_verification_session-IsExclusive :
    (settings : Settings) (is_assigned : ℕ → ℕ → Bool) (caller : Caller) (now id : ℕ)
    (device : String) (site : Site)
    → IsExclusive site
    → IsExclusive (create_verification_session settings is_assigned caller now id device site).1
unfolding create_verification_session
create_verification_session-IsExclusive settings is_assigned caller now id device site v =
    by_inspector (get_inspector_for_user caller)
  where
    Keeps : Reply Session × Site → Type 0
    Keeps after = IsExclusive after.1

    created : ℕ → Option Inspection → Reply Session × Site
    created = create_inspected settings is_assigned now id caller.organization_id device site

    by_inspection :
        (inspector : ℕ) (o : Option Inspection) → site.inspection ≡ o → Keeps (created inspector o)
    by_inspection inspector none e = v
    by_inspection inspector (some i) e =
        let reused = reuse_device settings now id caller.organization_id inspector device site i (
          find_session
            (λ s. s.organization_id == caller.organization_id && str_eq s.device_session_id device)
            site.sessions) in
        if_both Keeps (not (i.organization_id == caller.organization_id))
          (err 404 "INSPECTION_NOT_FOUND", site)
          (if not (is_assigned i.id inspector)
            then (err 403 "NOT_ASSIGNED", site)
            else if is_cancelled i.status
            then (err 409 "INSPECTION_CANCELLED", site)
            else reused)
          v
          (if_both Keeps (not (is_assigned i.id inspector)) (err 403 "NOT_ASSIGNED", site)
            (if is_cancelled i.status then (err 409 "INSPECTION_CANCELLED", site) else reused) v
            (if_both Keeps (is_cancelled i.status) (err 409 "INSPECTION_CANCELLED", site) reused v
              (reuse-IsExclusive settings now id caller.organization_id inspector device site i e v
                _)))

    by_inspector :
        (r : Reply ℕ) → Keeps (create_by (λ inspector. created inspector site.inspection) site r)
    by_inspector (err status code) = v
    by_inspector (ok inspector) = by_inspection inspector site.inspection refl
