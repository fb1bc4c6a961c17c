-- ===== src/Prelude/Reply.antt =====
-- What a handler answers: a value, or a SiteProofError with its HTTP status and its code.
use site_proof.Prelude.{ℕ, String, Bool, true, false}

pub data Reply {ℓ} (A : Type ℓ) : Type ℓ where
  ok : A → Reply A
  err : ℕ → String → Reply A

abbrev pub is_ok {ℓ} : {A : Type ℓ} → Reply A → Bool
is_ok (ok _) = true
is_ok (err _ _) = false

-- The reply of a check that answers nothing.
abbrev pub Check : Type 0
Check = Reply {0} Unit
