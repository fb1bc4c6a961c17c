-- ===== src/Prelude/Dict.antt =====
-- An ordered `dict` as its values, each of which holds its key: an assignment replaces the value of
-- an equal key in its place, or goes to the end.
use Prim.Native.Nat.{ℕ}
use mathlib.Core.Path.{◌≡◌, refl, ◌∙◌}
use mathlib.Core.Bool.{Bool, true, false, ◌&&◌, ◌||◌}
use mathlib.Core.Option.{Option, none, some}
use mathlib.Core.List.{List, [], ◌∷◌, ◌++◌}
use mathlib.Core.Logic.{inl, inr}
use native.Mathlib.Omega.{arith}
use site_proof.Prelude.Lists.{All}
use site_proof.Prelude.Tests.{Bool-cases, ◌==◌, if◌then◌else◌}

module _ {A : Type 0} (same : A → A → Bool) where
  unfoldable pub put : A → List A → List A
  put x [] = x ∷ []
  put x (y ∷ ys) = if same x y then x ∷ ys else y ∷ put x ys

  -- `{key(x): x for x in xs}`, on top of what is there
  unfoldable pub put_all : List A → List A → List A
  unfolding put
  put_all ys [] = ys
  put_all ys (x ∷ xs) = put_all (put x ys) xs

-- The first that passes a test: `d.get(k)` for the test of one key.
unfoldable pub find {ℓ} : {A : Type ℓ} → (A → Bool) → List A → Option A
find p [] = none
find p (x ∷ xs) = if p x then some x else find p xs

unfoldable pub filter {ℓ} : {A : Type ℓ} → (A → Bool) → List A → List A
filter p [] = []
filter p (x ∷ xs) = let rest = filter p xs in if p x then x ∷ rest else rest

unfoldable pub any {ℓ} : {A : Type ℓ} → (A → Bool) → List A → Bool
any p [] = false
any p (x ∷ xs) = if p x then true else any p xs

-- The last that passes a test.
abbrev pub later {ℓ} : {A : Type ℓ} → Option A → Option A → Option A
later (some a) b = some a
later none b = b

unfoldable pub find_last {ℓ} : {A : Type ℓ} → (A → Bool) → List A → Option A
find_last p [] = none
find_last p (x ∷ xs) = later (find_last p xs) (if p x then some x else none)

-- A dictionary built from a list has under each key the list's last value of this key.
module _ {A : Type 0} (key : A → ℕ) where
  abbrev same_key : A → A → Bool
  same_key a b = key a == key b

  find-put :
      (k : ℕ) (x : A) (d : List A)
      → find (λ a. key a == k) (put same_key x d)
        ≡ (if key x == k then some x else find (λ a. key a == k) d)
  unfolding find put
  find-put k x [] = refl
  find-put k x (y ∷ d) = ground (arith, find-put k x d)

  find-put_all :
      (k : ℕ) (d xs : List A)
      → find (λ a. key a == k) (put_all same_key d xs)
        ≡ later (find_last (λ a. key a == k) xs) (find (λ a. key a == k) d)
  unfolding put_all find_last
  find-put_all k d [] = refl
  find-put_all k d (x ∷ xs) = find-put_all k (put same_key x d) xs ∙ ground (arith, find-put k x d)

  pub find-put_all_nil :
      (k : ℕ) (xs : List A)
      → find (λ a. key a == k) (put_all same_key [] xs) ≡ find_last (λ a. key a == k) xs
  unfolding find
  find-put_all_nil k xs = find-put_all k [] xs ∙ ground arith

-- A filter that agrees with `c` where `q` holds keeps what `q` finds exactly if `c` is true.
pub any-filter {ℓ} :
    {A : Type ℓ} (q p : A → Bool) (c : Bool) (xs : List A)
    → ((x : A) → q x ≡ true → p x ≡ c)
    → any q (filter p xs) ≡ (any q xs && c)
unfolding any filter
any-filter q p c [] h = refl
any-filter q p c (x ∷ xs) h = ground (arith, h x, any-filter q p c xs h)

pub any-append {ℓ} :
    {A : Type ℓ} (q : A → Bool) (xs ys : List A) → any q (xs ++ ys) ≡ (any q xs || any q ys)
unfolding any
any-append q [] ys = refl
any-append q (x ∷ xs) ys = ground (arith, any-append q xs ys)

-- A test of the keys alone holds of some value of the dictionary exactly if it holds of some value
-- that was put.
module _ {A : Type 0} (same : A → A → Bool) (q : A → Bool)
    (by_key : (x y : A) → same x y ≡ true → q x ≡ q y) where
  any-put : (x : A) (d : List A) → any q (put same x d) ≡ (q x || any q d)
  unfolding any put
  any-put x [] = ground arith
  any-put x (y ∷ d) = ground (arith, by_key x y, any-put x d)

  pub any-put_all : (d xs : List A) → any q (put_all same d xs) ≡ (any q d || any q xs)
  unfolding any put_all
  any-put_all d [] = ground arith
  any-put_all d (x ∷ xs) = any-put_all (put same x d) xs ∙ ground (arith, any-put x d)

-- What holds of all values that are put holds of the dictionary's.
module _ {A : Type 0} (same : A → A → Bool) (P : A → Type 0) where
  All-put : (x : A) (d : List A) → P x → All P d → All P (put same x d)
  unfolding put
  All-put x [] h a = (h, tt)
  All-put x (y ∷ d) h a = elim (Bool-cases (same x y)) [
    | inl e ↦ rw e (h, a.1)
    | inr e ↦ rw e (a.0, All-put x d h a.1)
  ]

  pub All-put_all : (d xs : List A) → All P d → All P xs → All P (put_all same d xs)
  unfolding put_all
  All-put_all d [] a b = a
  All-put_all d (x ∷ xs) a b = All-put_all (put same x d) xs (All-put x d b.0 a) b.1
