-- ===== src/Challenges/Sequence.antt =====
-- The order in which the challenges of a session follow one another, and what the code's counts
-- come to on rows in such an order.
use site_proof.Prelude.{
  ℕ, ◌+◌, ◌≤◌, ◌<◌, ◌≡◌, ◌≢◌, ◌⊎◌, inl, inr, refl, ap, ◌∙◌, sym, subst, true, false, List, [], ◌∷◌,
  ◌++◌, arith, All, length, ◌==◌, if◌then◌else◌,
}
use site_proof.Challenges.Challenge.{Challenge, Settings, is_active, is_retryable}
use site_proof.Challenges.Rows.{put_latest, latest_by_sequence, max_sequence}

-- `c` may come after `p`: a retry while there is a budget, or else the next sequence.
abbrev pub Follows : Settings → Challenge → Challenge → Type 0
Follows settings p c =
    ((c.sequence_number ≡ p.sequence_number)
      × (c.attempt_number ≡ p.attempt_number + 1)
      × (p.attempt_number ≤ settings.challenge_max_retries)
      × (is_retryable p.result ≡ true))
    ⊎ ((c.sequence_number ≡ p.sequence_number + 1)
        × (c.attempt_number ≡ 1)
        × ((is_retryable p.result ≡ false)
            ⊎ (p.attempt_number ≡ settings.challenge_max_retries + 1)))

-- The rows are one sequence of challenges, the last first: within the settings' numbers, with
-- different ids, and only the last one may still be active.
abbrev pub IsSequence : Settings → List Challenge → Type 0
IsSequence settings [] = Unit
IsSequence settings (c ∷ []) =
    (c.sequence_number ≡ 1) × (c.attempt_number ≡ 1) × (1 ≤ settings.challenge_count)
IsSequence settings (c ∷ p ∷ older) =
    Follows settings p c
    × (is_active p.status ≡ false)
    × (c.sequence_number ≤ settings.challenge_count)
    × All (λ d. d.id ≢ c.id) (p ∷ older)
    × IsSequence settings (p ∷ older)

-- The last rows of the sequences before that of the last row.
unfoldable pub settled : List Challenge → List Challenge
settled [] = []
settled (c ∷ []) = []
settled (c ∷ p ∷ older) =
    let rest = settled (p ∷ older) in
    if c.sequence_number == p.sequence_number then rest else rest ++ p ∷ []

All-append_one :
    {A : Type 0} (P : A → Type 0) (xs : List A) (x : A) → All P xs → P x → All P (xs ++ x ∷ [])
All-append_one P [] x h p = (p, tt)
All-append_one P (y ∷ xs) x h p = (h.0, All-append_one P xs x h.1 p)

pub length-append_one : {A : Type 0} (xs : List A) (x : A) → length (xs ++ x ∷ []) ≡ length xs + 1
length-append_one [] x = refl
length-append_one (y ∷ xs) x = omega (arith, length-append_one xs x)

below_more :
    (m n : ℕ) (ds : List Challenge)
    → m ≤ n
    → All (λ d. d.sequence_number < m) ds
    → All (λ d. d.sequence_number < n) ds
below_more m n [] h b = tt
below_more m n (d ∷ ds) h b = (omega arith, below_more m n ds h b.1)

put_latest_new :
    (c : Challenge) (ds : List Challenge)
    → All (λ d. d.sequence_number < c.sequence_number) ds
    → put_latest c ds ≡ ds ++ c ∷ []
unfolding put_latest
put_latest_new c [] b = refl
put_latest_new c (d ∷ ds) b = ground (arith, put_latest_new c ds b.1)

put_latest_again :
    (c p : Challenge) (ds : List Challenge)
    → All (λ d. d.sequence_number < c.sequence_number) ds
    → p.sequence_number ≡ c.sequence_number
    → p.attempt_number < c.attempt_number
    → put_latest c (ds ++ p ∷ []) ≡ ds ++ c ∷ []
unfolding put_latest
put_latest_again c p [] b e h = ground arith
put_latest_again c p (d ∷ ds) b e h = ground (arith, put_latest_again c p ds b.1 e h)

pub max_sequence-append :
    (c : Challenge) (ds : List Challenge)
    → All (λ d. d.sequence_number < c.sequence_number) ds
    → max_sequence (ds ++ c ∷ []) ≡ c.sequence_number
unfolding max_sequence
max_sequence-append c [] b = ground arith
max_sequence-append c (d ∷ ds) b = ground (arith, max_sequence-append c ds b.1)

settled-again :
    (c p : Challenge) (older : List Challenge)
    → c.sequence_number ≡ p.sequence_number
    → settled (c ∷ p ∷ older) ≡ settled (p ∷ older)
unfolding settled
settled-again c p older e = ground arith

settled-next :
    (c p : Challenge) (older : List Challenge)
    → c.sequence_number ≡ p.sequence_number + 1
    → settled (c ∷ p ∷ older) ≡ settled (p ∷ older) ++ p ∷ []
unfolding settled
settled-next c p older e = ground arith

latest-cons :
    (c : Challenge) (rows : List Challenge)
    → latest_by_sequence (c ∷ rows) ≡ put_latest c (latest_by_sequence rows)
unfolding latest_by_sequence
latest-cons c rows = refl

-- What `latest_by_sequence` returns: the settled rows and the last one, one for each number up to
-- that of the last.
abbrev pub IsLatest : Challenge → List Challenge → List Challenge → Type 0
IsLatest c rows ds =
    All (λ d. d.sequence_number < c.sequence_number) ds
    × (length ds + 1 ≡ c.sequence_number)
    × (latest_by_sequence rows ≡ ds ++ c ∷ [])

module _ (settings : Settings) where
  pub settled_lem :
      (c : Challenge) (older : List Challenge)
      → IsSequence settings (c ∷ older)
      → IsLatest c (c ∷ older) (settled (c ∷ older))
  unfolding settled latest_by_sequence put_latest
  settled_lem c [] v = (tt, omega arith, refl)
  settled_lem c (p ∷ older) v = after (settled_lem p older v.4) v.0
    where
      ds : List Challenge
      ds = settled (p ∷ older)

      after :
          IsLatest p (p ∷ older) ds
          → Follows settings p c
          → IsLatest c (c ∷ p ∷ older) (settled (c ∷ p ∷ older))
      after old (inl again) =
          let below : All (λ d. d.sequence_number < c.sequence_number) ds =
            below_more p.sequence_number c.sequence_number ds (omega arith) old.0 in
          subst (IsLatest c (c ∷ p ∷ older)) (sym (settled-again c p older again.0)) (
            below,
            omega arith,
            ap (put_latest c) old.2 ∙ put_latest_again c p ds below (sym again.0) (omega arith),
          )
      after old (inr next) =
          let below : All (λ d. d.sequence_number < c.sequence_number) (ds ++ p ∷ []) =
            All-append_one _ ds p
              (below_more p.sequence_number c.sequence_number ds (omega arith) old.0)
              (omega arith) in
          subst (IsLatest c (c ∷ p ∷ older)) (sym (settled-next c p older next.0)) (
            below,
            omega (arith, length-append_one ds p),
            ap (put_latest c) old.2 ∙ put_latest_new c (ds ++ p ∷ []) below,
          )
