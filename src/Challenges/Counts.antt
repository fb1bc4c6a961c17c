-- ===== src/Challenges/Counts.antt =====
-- The retries, the attempts and the number of the challenges of a sequence.
use site_proof.Prelude.{
  ℕ, ◌+◌, ◌*◌, ◌≤◌, zero, suc, ◌<◌, ◌≡◌, inl, inr, refl, ap, sym, List, [], ◌∷◌, arith, All, length,
}
use site_proof.Challenges.Challenge.{Challenge, Settings}
use site_proof.Challenges.Rows.{retry_count}
use site_proof.Challenges.Sequence.{Follows, IsSequence}

below_of_le :
    (m n : ℕ) (ds : List Challenge)
    → m < n
    → All (λ d. d.sequence_number ≤ m) ds
    → All (λ d. d.sequence_number < n) ds
below_of_le m n [] h b = tt
below_of_le m n (d ∷ ds) h b = (omega arith, below_of_le m n ds h b.1)

mul_le : (m n k : ℕ) → m ≤ n → m * k ≤ n * k
mul_le m n zero h = omega arith
mul_le m n (suc k) h = omega (arith, mul_le m n k h)

module _ (settings : Settings) where
  -- The numbers of the rows never exceed that of the last row.
  pub sequence_le :
      (c : Challenge) (older : List Challenge)
      → IsSequence settings (c ∷ older)
      → All (λ d. d.sequence_number ≤ c.sequence_number) older
  sequence_le c [] v = tt
  sequence_le c (p ∷ older) v =
      (ground arith, le_more older (ground arith) (sequence_le p older v.4))
    where
      le_more :
          (ds : List Challenge)
          → p.sequence_number ≤ c.sequence_number
          → All (λ d. d.sequence_number ≤ p.sequence_number) ds
          → All (λ d. d.sequence_number ≤ c.sequence_number) ds
      le_more [] h b = tt
      le_more (d ∷ ds) h b = (omega arith, le_more ds h b.1)

  retry_count_none :
      (n : ℕ) (ds : List Challenge) → All (λ d. d.sequence_number < n) ds → retry_count ds n ≡ 0
  unfolding retry_count
  retry_count_none n [] b = refl
  retry_count_none n (d ∷ ds) b = ground (arith, retry_count_none n ds b.1)

  retry_count-again :
      (c : Challenge) (rows : List Challenge)
      → 1 < c.attempt_number
      → retry_count (c ∷ rows) c.sequence_number ≡ 1 + retry_count rows c.sequence_number
  unfolding retry_count
  retry_count-again c rows h = ground arith

  retry_count-first :
      (c : Challenge) (rows : List Challenge) (n : ℕ)
      → c.attempt_number ≡ 1
      → retry_count (c ∷ rows) n ≡ retry_count rows n
  unfolding retry_count
  retry_count-first c rows n h = ground arith

  -- The retries that `_retry_count` counts for the last row are all attempts but the first.
  pub retry_count_lem :
      (c : Challenge) (older : List Challenge)
      → IsSequence settings (c ∷ older)
      → retry_count (c ∷ older) c.sequence_number + 1 ≡ c.attempt_number
  retry_count_lem c [] v =
      rw (retry_count-first c [] c.sequence_number v.1, retry_count_none c.sequence_number [] tt)
        (sym v.1)
  retry_count_lem c (p ∷ older) v = after (retry_count_lem p older v.4) v.0
    where
      after :
          retry_count (p ∷ older) p.sequence_number + 1 ≡ p.attempt_number
          → Follows settings p c
          → retry_count (c ∷ p ∷ older) c.sequence_number + 1 ≡ c.attempt_number
      after old (inl again) =
          let step = retry_count-again c (p ∷ older) (omega arith) in
          let same = ap (retry_count (p ∷ older)) again.0 in omega arith
      after old (inr next) =
          let lower : All (λ d. d.sequence_number < c.sequence_number) (p ∷ older) =
            (omega arith, below_of_le _ _ older (omega arith) (sequence_le p older v.4)) in
          let step = retry_count-first c (p ∷ older) c.sequence_number next.1 in
          let zero_count = retry_count_none c.sequence_number (p ∷ older) lower in omega arith

  -- Each number is at least 1, and no attempt goes past the budget.
  pub attempt_bounds :
      (c : Challenge) (older : List Challenge)
      → IsSequence settings (c ∷ older)
      → (1 ≤ c.sequence_number)
        × (c.sequence_number ≤ settings.challenge_count)
        × (1 ≤ c.attempt_number)
        × (c.attempt_number ≤ settings.challenge_max_retries + 1)
  attempt_bounds c [] v = (omega arith, omega arith, omega arith, omega arith)
  attempt_bounds c (p ∷ older) v =
      let old = attempt_bounds p older v.4 in
      (ground arith, ground arith, ground arith, ground arith)

  -- The number of the rows, by the place of the last one.
  length_le :
      (c : Challenge) (older : List Challenge)
      → IsSequence settings (c ∷ older)
      → length (c ∷ older) + (settings.challenge_max_retries + 1)
        ≤ c.sequence_number * (settings.challenge_max_retries + 1) + c.attempt_number
  length_le c [] v =
      let one : c.sequence_number * (settings.challenge_max_retries + 1)
          ≡ 1 * (settings.challenge_max_retries + 1) =
        ap (λ n. n * (settings.challenge_max_retries + 1)) v.0 in
      omega arith
  length_le c (p ∷ older) v = after (length_le p older v.4) (attempt_bounds p older v.4).3 v.0
    where
      budget : ℕ
      budget = settings.challenge_max_retries + 1

      after :
          length (p ∷ older) + budget ≤ p.sequence_number * budget + p.attempt_number
          → p.attempt_number ≤ budget
          → Follows settings p c
          → length (c ∷ p ∷ older) + budget ≤ c.sequence_number * budget + c.attempt_number
      after old b (inl again) =
          let same : c.sequence_number * budget ≡ p.sequence_number * budget =
            ap (λ n. n * budget) again.0 in
          omega arith
      after old b (inr next) =
          let same : c.sequence_number * budget ≡ (p.sequence_number + 1) * budget =
            ap (λ n. n * budget) next.0 in
          omega arith

  -- A session never has more challenges than the settings' count of sequences times their attempts.
  pub length_bound :
      (rows : List Challenge)
      → IsSequence settings rows
      → length rows ≤ settings.challenge_count * (settings.challenge_max_retries + 1)
  length_bound [] v = omega arith
  length_bound (c ∷ older) v =
      let b = attempt_bounds c older v in
      let most = mul_le _ _ (settings.challenge_max_retries + 1) b.1 in
      omega (arith, length_le c older v, b.3)
