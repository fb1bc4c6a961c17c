-- ===== src/Sessions/OneActive.antt =====
-- The active sessions of an inspection, and what a write to the sessions does to their number.
use site_proof.Prelude.{
  ℕ, ◌+◌, ◌≤◌, ◌≡◌, ◌⊎◌, inl, inr, refl, ap, ◌∙◌, subst, Bool, true, false, none, some, List, [],
  ◌∷◌, ◌++◌, arith, if◌then◌else◌, Bool-cases,
}
use site_proof.Sessions.Session.{Session, is_active}
use site_proof.Sessions.Site.{Site, find_session, update}
use site_proof.Sessions.Creation.{is_active_of}

-- The active sessions of an inspection.
unfoldable pub count_active : ℕ → List Session → ℕ
count_active i [] = 0
count_active i (s ∷ ss) = if is_active_of i s then 1 + count_active i ss else count_active i ss

abbrev pub IsExclusive : Site → Type 0
IsExclusive site = (i : ℕ) → count_active i site.sessions ≤ 1

-- A write that keeps the inspection and activates nothing.
abbrev pub Deactivates : (Session → Session) → Type 0
Deactivates f =
    (s : Session)
    → ((f s).inspection_id ≡ s.inspection_id)
      × (is_active s.status ≡ false → is_active (f s).status ≡ false)

pub count-update :
    (i id : ℕ) (f : Session → Session) (ss : List Session)
    → Deactivates f
    → count_active i (update id f ss) ≤ count_active i ss
unfolding count_active update
count-update i id f [] h = ground arith
count-update i id f (s ∷ ss) h =
    ground (arith, count-update i id f ss h, h s, Bool-cases (is_active s.status))

pub count-append :
    (i : ℕ) (ss : List Session) (s : Session)
    → count_active i (ss ++ s ∷ []) ≡ count_active i ss + (if is_active_of i s then 1 else 0)
unfolding count_active
count-append i [] s = ground arith
count-append i (t ∷ ss) s = ground (arith, count-append i ss s)

pub count_none :
    (i : ℕ) (ss : List Session) → find_session (is_active_of i) ss ≡ none → count_active i ss ≡ 0
unfolding count_active find_session
count_none i [] e = refl
count_none i (s ∷ ss) e = ground (arith, count_none i ss)

find-cons :
    (p : Session → Bool) (t s : Session) (ss : List Session)
    → find_session p (t ∷ ss) ≡ some s
    → ((t ≡ s) × (p t ≡ true)) ⊎ ((p t ≡ false) × (find_session p ss ≡ some s))
unfolding find_session
find-cons p t s ss e = by_test (p t) refl e
  where
    by_test :
        (b : Bool)
        → p t ≡ b
        → (if b then some t else find_session p ss) ≡ some s
        → ((t ≡ s) × (p t ≡ true)) ⊎ ((p t ≡ false) × (find_session p ss ≡ some s))
    by_test true q h = inl (cc h, q)
    by_test false q h = inr (q, h)

pub find-holds :
    (p : Session → Bool) (ss : List Session) (s : Session) → find_session p ss ≡ some s → p s ≡ true
unfolding find_session
find-holds p [] s e = ground arith
find-holds p (t ∷ ss) s e = elim (find-cons p t s ss e) [
  | inl found ↦ subst (λ (x : Session). p x ≡ true) found.0 found.1
  | inr other ↦ find-holds p ss s other.1
]

update-same :
    (s : Session) (f : Session → Session) (ss : List Session)
    → update s.id f (s ∷ ss) ≡ f s ∷ update s.id f ss
unfolding update
update-same s f ss = ground arith

update-either :
    (id : ℕ) (t : Session) (f : Session → Session) (ss : List Session)
    → (update id f (t ∷ ss) ≡ f t ∷ update id f ss) ⊎ (update id f (t ∷ ss) ≡ t ∷ update id f ss)
unfolding update
update-either id t f ss = ground arith

count-idle :
    (i : ℕ) (t : Session) (ss : List Session)
    → is_active_of i t ≡ false
    → count_active i (t ∷ ss) ≡ count_active i ss
unfolding count_active
count-idle i t ss e = ground arith

count-busy :
    (i : ℕ) (t : Session) (ss : List Session)
    → is_active_of i t ≡ true
    → count_active i (t ∷ ss) ≡ 1 + count_active i ss
unfolding count_active
count-busy i t ss e = ground arith

still_idle :
    (i : ℕ) (t : Session) (f : Session → Session)
    → Deactivates f
    → is_active_of i t ≡ false
    → is_active_of i (f t) ≡ false
still_idle i t f h e = ground (arith, h t, Bool-cases (is_active t.status))

find-nothing : {A : Type 0} (p : Session → Bool) (s : Session) → find_session p [] ≡ some s → A
unfolding find_session
find-nothing p s e = ground arith

-- If the only active session of an inspection is deactivated, none is left.
pub count_last :
    (i : ℕ) (ss : List Session) (s : Session) (f : Session → Session)
    → count_active i ss ≤ 1
    → find_session (is_active_of i) ss ≡ some s
    → Deactivates f
    → is_active (f s).status ≡ false
    → count_active i (update s.id f ss) ≡ 0
count_last i [] s f b e h d = find-nothing (is_active_of i) s e
count_last i (t ∷ ss) s f b e h d =
    after (λ b' e'. count_last i ss s f b' e' h d) (find-cons (is_active_of i) t s ss e)
  where
    after :
        (count_active i ss ≤ 1
          → find_session (is_active_of i) ss ≡ some s
          → count_active i (update s.id f ss) ≡ 0)
        → ((t ≡ s) × (is_active_of i t ≡ true))
          ⊎ ((is_active_of i t ≡ false) × (find_session (is_active_of i) ss ≡ some s))
        → count_active i (update s.id f (t ∷ ss)) ≡ 0
    after rest (inl found) =
        let busy = count-busy i t ss found.1 in
        let less = count-update i s.id f ss h in
        let gone : is_active_of i (f s) ≡ false = ground arith in
        ap (λ (x : Session). count_active i (update s.id f (x ∷ ss))) found.0
        ∙ ap (count_active i) (update-same s f ss)
        ∙ count-idle i (f s) (update s.id f ss) gone
        ∙ omega arith
    after rest (inr other) =
        let idle = count-idle i t ss other.0 in
        let none_left = rest (omega arith) other.1 in
        elim (update-either s.id t f ss) [
          | inl hit ↦
              ap (count_active i) hit
              ∙ count-idle i (f t) (update s.id f ss) (still_idle i t f h other.0)
              ∙ none_left
          | inr missed ↦
              ap (count_active i) missed ∙ count-idle i t (update s.id f ss) other.0 ∙ none_left
        ]
