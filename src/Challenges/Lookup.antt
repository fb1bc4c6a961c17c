-- ===== src/Challenges/Lookup.antt =====
-- Finding a row by its id.
use site_proof.Prelude.{
  ℕ, ◌≡◌, ◌≢◌, ◌⊎◌, inl, inr, refl, ap, ◌∙◌, subst, Bool, true, false, some, List, [], ◌∷◌, arith,
  All, ◌==◌, if◌then◌else◌,
}
use site_proof.Challenges.Challenge.{Challenge, Settings, is_active}
use site_proof.Challenges.Rows.{get, update}
use site_proof.Challenges.Sequence.{IsSequence}
use site_proof.Challenges.Places.{Unused, update-Unused, tail-Unused}

pub get-cons :
    (id : ℕ) (d c : Challenge) (older : List Challenge)
    → get id (d ∷ older) ≡ some c
    → ((d ≡ c) × (d.id ≡ id)) ⊎ ((d.id ≢ id) × (get id older ≡ some c))
unfolding get
get-cons id d c older e = by_test (d.id == id) refl e
  where
    by_test :
        (b : Bool)
        → (d.id == id) ≡ b
        → (if b then some d else get id older) ≡ some c
        → ((d ≡ c) × (d.id ≡ id)) ⊎ ((d.id ≢ id) × (get id older ≡ some c))
    by_test true t h = inl (cc h, ground arith)
    by_test false t h = inr (ground arith, h)

pub update-cons :
    (id : ℕ) (d : Challenge) (older : List Challenge) (f : Challenge → Challenge)
    → ((d.id ≡ id) → update id f (d ∷ older) ≡ f d ∷ update id f older)
      × ((d.id ≢ id) → update id f (d ∷ older) ≡ d ∷ update id f older)
unfolding update
update-cons id d older f = (λ h. ground arith, λ h. ground arith)

module _ (settings : Settings) where
  pub tail-IsSequence :
      (c : Challenge) (older : List Challenge)
      → IsSequence settings (c ∷ older)
      → IsSequence settings older
  tail-IsSequence c [] v = tt
  tail-IsSequence c (p ∷ older) v = v.4

  -- A write that changes nothing.
  pub update_same :
      (rows : List Challenge) (id : ℕ) (c : Challenge) (f : Challenge → Challenge)
      → IsSequence settings rows
      → get id rows ≡ some c
      → f c ≡ c
      → update id f rows ≡ rows
  unfolding update
  update_same [] id c f v e h = refl
  update_same (d ∷ older) id c f v e h =
      after (update_same older id c f (tail-IsSequence d older v)) (get-cons id d c older e)
    where
      after :
          (get id older ≡ some c → f c ≡ c → update id f older ≡ older)
          → ((d ≡ c) × (d.id ≡ id)) ⊎ ((d.id ≢ id) × (get id older ≡ some c))
          → update id f (d ∷ older) ≡ d ∷ older
      after rest (inl found) =
          let unused = subst (λ n. Unused n older) found.1 (tail-Unused settings d older v) in
          (update-cons id d older f).0 found.1 ∙ cc (update-Unused id f older unused, h, found.0)
      after rest (inr other) = (update-cons id d older f).1 other.0 ∙ cc (rest other.1 h)

  pub get_idle :
      (older : List Challenge) (id : ℕ) (c : Challenge)
      → All (λ d. is_active d.status ≡ false) older
      → get id older ≡ some c
      → is_active c.status ≡ false
  unfolding get
  get_idle [] id c h e = ground arith
  get_idle (d ∷ older) id c h e = elim (get-cons id d c older e) [
    | inl found ↦ subst (λ (x : Challenge). is_active x.status ≡ false) found.0 h.0
    | inr other ↦ get_idle older id c h.1 other.1
  ]

  pub tail_idle :
      (c : Challenge) (older : List Challenge)
      → IsSequence settings (c ∷ older)
      → All (λ d. is_active d.status ≡ false) older
  tail_idle c [] v = tt
  tail_idle c (p ∷ older) v = (v.1, tail_idle p older v.4)

  -- A row that is found by its id and is active is the last one.
  pub get-last :
      (rows : List Challenge) (id : ℕ) (c : Challenge)
      → IsSequence settings rows
      → get id rows ≡ some c
      → is_active c.status ≡ true
      → (older : List Challenge) × (rows ≡ c ∷ older) × (c.id ≡ id)
  unfolding get
  get-last [] id c v e a = ground arith
  get-last (d ∷ older) id c v e a = elim (get-cons id d c older e) [
    | inl found ↦
        (older, ap (λ x. x ∷ older) found.0, subst (λ (x : Challenge). x.id ≡ id) found.0 found.1)
    | inr other ↦ let idle = get_idle older id c (tail_idle d older v) other.1 in ground arith
  ]

  pub get_id : (rows : List Challenge) (id : ℕ) (c : Challenge) → get id rows ≡ some c → c.id ≡ id
  unfolding get
  get_id [] id c e = ground arith
  get_id (d ∷ older) id c e = elim (get-cons id d c older e) [
    | inl found ↦ subst (λ (x : Challenge). x.id ≡ id) found.0 found.1
    | inr other ↦ get_id older id c other.1
  ]
