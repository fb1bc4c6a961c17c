-- ===== src/Receipts/Keys.antt =====
-- What `ensure_key_metadata` answers and leaves.
use mathlib.Core.Option
use site_proof.Prelude.{
  ℕ, ◌≡◌, refl, String, Bool, true, false, not, ◌||◌, Option, none, some, List, [], ◌∷◌, ◌++◌, map,
  arith, subst, Bool-cases, inl, inr, str_eq, eq_iff, ◌∙◌,
}
use site_proof.Prelude.Dict.{find}
use site_proof.Prelude.Rows.{find-map, find-append}
use site_proof.Prelude.Reply.{ok}
use site_proof.Receipts.Receipt.{
  SigningKey, KeyStatus, is_active_key, is_compromised, active, retired, compromised,
}
use site_proof.Receipts.Crypto.{PublicKeyInfo}
use site_proof.Receipts.Service.{
  find_signing_key, retire, new_key, check_key, key_or_new, ensure_key_metadata,
}

pub active-not_compromised : (s : KeyStatus) → is_active_key s ≡ true → is_compromised s ≡ false
unfolding is_active_key is_compromised
active-not_compromised active e = refl
active-not_compromised retired e = refl
active-not_compromised compromised e = cc

-- The key is the provider's, active, and the one that its id names.
pub record Ensured (public : PublicKeyInfo) (key : SigningKey) (keys : List SigningKey)
    : Type 0 where
  pub found : find_signing_key public.key_id keys ≡ some key
  pub material : key.public_key_base64 ≡ public.public_key_base64
  pub is_active : is_active_key key.status ≡ true

new_key-Ensured :
    (now : ℕ) (public : PublicKeyInfo) (keys : List SigningKey)
    → find_signing_key public.key_id keys ≡ none
    → Ensured public (new_key now public) (map (retire now) keys ++ new_key now public ∷ [])
unfolding find_signing_key new_key is_active_key Option.or_else retire
new_key-Ensured now public keys e = record {
  found =
      find-append (named public.key_id) (map (retire now) keys) (new_key now public ∷ [])
      ∙ rw (find-map (named public.key_id) (retire now) keys (λ k. ground arith), e)
          (unfold find in ground (arith, eq_iff public.key_id public.key_id));
  material = refl;
  is_active = refl;
}
  where
    named : String → SigningKey → Bool
    named id k = str_eq k.key_id id

check_key-Ensured :
    (public : PublicKeyInfo) (keys keys' : List SigningKey) (k key : SigningKey)
    → find_signing_key public.key_id keys ≡ some k
    → check_key public keys k ≡ ok (key, keys')
    → Ensured public key keys'
check_key-Ensured public keys keys' k key e h =
    elim (Bool-cases (
      not (str_eq k.algorithm public.algorithm)
      || not (str_eq k.public_key_base64 public.public_key_base64))) [
        | inl t ↦ cc (rw t at h)
        | inr t ↦ elim (Bool-cases (is_active_key k.status)) [
          | inl u ↦
              let there = rw (t, u) at h in
              let same : k ≡ key = cc there in
              let tables : keys ≡ keys' = cc there in
              let ensured : Ensured public k keys = record {
                found = e;
                material = ground (arith, eq_iff k.public_key_base64 public.public_key_base64);
                is_active = u;
              } in
              subst (λ (x : SigningKey). Ensured public x keys') same
                (subst (λ (x : List SigningKey). Ensured public k x) tables ensured)
          | inr u ↦ cc (rw (t, u) at h)
        ]
      ]

pub check_key-keys :
    (public : PublicKeyInfo) (keys keys' : List SigningKey) (k key : SigningKey)
    → check_key public keys k ≡ ok (key, keys')
    → keys' ≡ keys
check_key-keys public keys keys' k key h =
    elim (Bool-cases (
      not (str_eq k.algorithm public.algorithm)
      || not (str_eq k.public_key_base64 public.public_key_base64))) [
        | inl t ↦ cc (rw t at h)
        | inr t ↦ elim (Bool-cases (is_active_key k.status)) [
          | inl u ↦ cc (rw (t, u) at h)
          | inr u ↦ cc (rw (t, u) at h)
        ]
      ]

pub ensure_key_metadata-Ensured :
    (now : ℕ) (public : PublicKeyInfo) (keys keys' : List SigningKey) (key : SigningKey)
    → ensure_key_metadata now public keys ≡ ok (key, keys')
    → Ensured public key keys'
unfolding ensure_key_metadata
ensure_key_metadata-Ensured now public keys keys' key e =
    by_key (find_signing_key public.key_id keys) refl e
  where
    by_key :
        (o : Option SigningKey)
        → find_signing_key public.key_id keys ≡ o
        → key_or_new now public keys o ≡ ok (key, keys')
        → Ensured public key keys'
    by_key none a h =
        let same : new_key now public ≡ key = cc h in
        let tables : map (retire now) keys ++ new_key now public ∷ [] ≡ keys' = cc h in
        subst (λ (x : SigningKey). Ensured public x keys') same
          (subst (λ (x : List SigningKey). Ensured public (new_key now public) x) tables
            (new_key-Ensured now public keys a))
    by_key (some k) a h = check_key-Ensured public keys keys' k key a h
