-- ===== src/Challenges/Places.antt =====
-- Where the next challenge of a sequence goes, and the order after a change of the last row.
use site_proof.Prelude.{
  ℕ, ◌≤◌, ◌≡◌, ◌≢◌, refl, ap, ◌∙◌, sym, subst, false, none, some, List, [], ◌∷◌, arith, All,
  if◌then◌else◌,
}
use site_proof.Challenges.Challenge.{Challenge, Settings, is_active}
use site_proof.Challenges.Rows.{
  is_later, add, update, active_challenge, latest_by_sequence, max_sequence,
}
use site_proof.Challenges.Sequence.{Follows, IsSequence, settled, settled_lem, max_sequence-append}
use site_proof.Challenges.Counts.{retry_count_lem, attempt_bounds}
use site_proof.Challenges.Service.{next_place}

abbrev pub Unused : ℕ → List Challenge → Type 0
Unused id = All λ d. d.id ≢ id

pub update-Unused :
    (id : ℕ) (f : Challenge → Challenge) (rows : List Challenge)
    → Unused id rows
    → update id f rows ≡ rows
unfolding update
update-Unused id f [] u = refl
update-Unused id f (c ∷ rows) u = ground (arith, update-Unused id f rows u.1)

module _ (settings : Settings) where
  pub tail-Unused :
      (c : Challenge) (older : List Challenge) → IsSequence settings (c ∷ older) → Unused c.id older
  tail-Unused c [] v = tt
  tail-Unused c (p ∷ older) v = v.3

  -- A write to the last row writes to no other.
  pub update-last :
      (c : Challenge) (older : List Challenge) (f : Challenge → Challenge)
      → IsSequence settings (c ∷ older)
      → update c.id f (c ∷ older) ≡ f c ∷ older
  unfolding update
  update-last c older f v = ground (arith, update-Unused c.id f older (tail-Unused c older v))

  -- A write to the last row that keeps its numbers keeps the sequence.
  pub last-IsSequence :
      (c c' : Challenge) (older : List Challenge)
      → c'.id ≡ c.id
      → c'.sequence_number ≡ c.sequence_number
      → c'.attempt_number ≡ c.attempt_number
      → IsSequence settings (c ∷ older)
      → IsSequence settings (c' ∷ older)
  last-IsSequence c c' [] i s a v = (omega arith, omega arith, v.2)
  last-IsSequence c c' (p ∷ older) i s a v =
      (ground arith, v.1, omega arith, subst (λ n. Unused n (p ∷ older)) (sym i) v.3, v.4)

  active_none :
      (c : Challenge) (older : List Challenge)
      → IsSequence settings (c ∷ older)
      → active_challenge older ≡ none
  unfolding active_challenge
  active_none c [] v = refl
  active_none c (p ∷ older) v = ground (arith, active_none p older v.4)

  -- Only the last row can be active.
  pub active_lem :
      (c : Challenge) (older : List Challenge)
      → IsSequence settings (c ∷ older)
      → active_challenge (c ∷ older) ≡ (if is_active c.status then some c else none)
  unfolding active_challenge
  active_lem c older v = ground (arith, active_none c older v)

  max_sequence_lem :
      (c : Challenge) (older : List Challenge)
      → IsSequence settings (c ∷ older)
      → max_sequence (latest_by_sequence (c ∷ older)) ≡ c.sequence_number
  max_sequence_lem c older v =
      let latest = settled_lem settings c older v in
      ap max_sequence latest.2 ∙ max_sequence-append c (settled (c ∷ older)) latest.0

  -- The place that the code computes after the last row `c` is one that may follow it.
  pub next_place-Follows :
      (c c' : Challenge) (older : List Challenge)
      → IsSequence settings (c ∷ older)
      → c'.sequence_number ≡ (next_place settings (c ∷ older)).0
      → c'.attempt_number ≡ (next_place settings (c ∷ older)).1
      → Follows settings c c'
  unfolding next_place
  next_place-Follows c c' older v s a = ground (
    arith,
    retry_count_lem settings c older v,
    max_sequence_lem c older v,
    attempt_bounds settings c older v,
  )

  -- A row that may follow the last one is added after it.
  pub add-last :
      (c c' : Challenge) (older : List Challenge)
      → Follows settings c c'
      → add c' (c ∷ older) ≡ c' ∷ c ∷ older
  unfolding add is_later
  add-last c c' older h = ground arith

  pub add-IsSequence :
      (c c' : Challenge) (older : List Challenge)
      → IsSequence settings (c ∷ older)
      → is_active c.status ≡ false
      → Follows settings c c'
      → c'.sequence_number ≤ settings.challenge_count
      → Unused c'.id (c ∷ older)
      → IsSequence settings (add c' (c ∷ older))
  add-IsSequence c c' older v idle h b u =
      subst (IsSequence settings) (sym (add-last c c' older h)) (h, idle, b, u, v)
