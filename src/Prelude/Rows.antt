-- ===== src/Prelude/Rows.antt =====
-- A table as the list of its rows, with a unique number of each row.
use Prim.Native.Nat.{ℕ}
use mathlib.Core.Path.{◌≡◌, refl}
use mathlib.Core.Bool.{Bool, true}
use mathlib.Core.Option
use mathlib.Core.Option.{Option, none, some}
use mathlib.Core.List.{List, [], ◌∷◌, ◌++◌, map}
use native.Mathlib.Omega.{arith}
use site_proof.Prelude.Tests.{◌==◌}
use site_proof.Prelude.Lists.{All}
use site_proof.Prelude.Dict.{find}

module _ {A : Type 0} where
  -- A write that a test does not see.
  pub find-map :
      (q : A → Bool) (g : A → A) (xs : List A)
      → ((x : A) → q (g x) ≡ q x)
      → find q (map g xs) ≡ Option.map g (find q xs)
  unfolding find
  find-map q g [] h = refl
  find-map q g (x ∷ xs) h = ground (arith, h x, find-map q g xs h)

  pub find-append :
      (q : A → Bool) (xs ys : List A) → find q (xs ++ ys) ≡ Option.or_else (find q xs) (find q ys)
  unfolding find Option.or_else
  find-append q [] ys = refl
  find-append q (x ∷ xs) ys = ground (arith, find-append q xs ys)

  pub find-true : (q : A → Bool) (xs : List A) {a : A} → find q xs ≡ some a → q a ≡ true
  unfolding find
  find-true q [] e = cc
  find-true q (x ∷ xs) {a} e = ground (arith, find-true q xs {a = a})

  pub All-find :
      (P : A → Type 0) (q : A → Bool) (xs : List A) {a : A} → All P xs → find q xs ≡ some a → P a
  unfolding find
  All-find P q [] all e = cc
  All-find P q (x ∷ xs) {a} all e = ground (arith, All-find P q xs {a = a} all.1, all.0)

  pub All-append : (P : A → Type 0) (xs ys : List A) → All P xs → All P ys → All P (xs ++ ys)
  All-append P [] ys a b = b
  All-append P (x ∷ xs) ys a b = (a.0, All-append P xs ys a.1 b)

  pub All-map :
      (P : A → Type 0) (g : A → A) (xs : List A)
      → ((x : A) → P x → P (g x))
      → All P xs
      → All P (map g xs)
  All-map P g [] h a = tt
  All-map P g (x ∷ xs) h a = (h x a.0, All-map P g xs h a.1)

module _ {A : Type 0} (id : A → ℕ) where
  abbrev pub with_id : ℕ → A → Bool
  with_id k a = id a == k

  abbrev pub Distinct : List A → Type 0
  Distinct [] = Unit {0}
  Distinct (x ∷ xs) = (find (with_id (id x)) xs ≡ none) × Distinct xs

  -- What a query returns is the row with its number.
  pub find-id :
      (q : A → Bool) (xs : List A) {a : A}
      → Distinct xs
      → find q xs ≡ some a
      → find (with_id (id a)) xs ≡ some a
  unfolding find
  find-id q [] d e = cc
  find-id q (x ∷ xs) {a} d e = ground (arith, find-id q xs {a = a} d.1)

  pub map-Distinct :
      (g : A → A) (xs : List A) → ((x : A) → id (g x) ≡ id x) → Distinct xs → Distinct (map g xs)
  map-Distinct g [] h d = tt
  map-Distinct g (x ∷ xs) h d = (
    rw (h x, find-map (with_id (id x)) g xs (λ y. rw (h y) refl), d.0) refl,
    map-Distinct g xs h d.1,
  )

  pub append-Distinct :
      (xs : List A) (a : A)
      → find (with_id (id a)) xs ≡ none
      → Distinct xs
      → Distinct (xs ++ a ∷ [])
  append-Distinct [] a n d = unfold find in (refl, tt)
  append-Distinct (x ∷ xs) a n d = (new_id, append-Distinct xs a (unfold find in ground arith) d.1)
    where
      new_id : find (with_id (id x)) (xs ++ a ∷ []) ≡ none
      new_id =
          rw (find-append (with_id (id x)) xs (a ∷ []), d.0)
            (unfold find Option.or_else in ground arith)
