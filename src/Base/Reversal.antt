-- ===== src/Base/Reversal.antt =====
-- Reversed and repeated lists.
use mathlib.Core.List.{reverse, reverse-append, map-append, append-nil}
use aeon_backend.Base.{
  ℕ, All, List, [], ap, map, refl, replicate, suc, sym, zero, ◌++◌, ◌∙◌, ◌∷◌, ◌≡◌,
}

module _ {ℓ} {A : Type ℓ} where
  pub replicate_push :
      (k : ℕ) (x : A) (xs : List A) → replicate k x ++ x ∷ xs ≡ x ∷ (replicate k x ++ xs)
  replicate_push zero x xs = refl
  replicate_push (suc k) x xs = ap (λ r. x ∷ r) (replicate_push k x xs)

  pub reverse-replicate : (k : ℕ) (x : A) → reverse (replicate k x) ≡ replicate k x
  reverse-replicate zero x = refl
  reverse-replicate (suc k) x =
      rw (reverse-append (x ∷ []) (replicate k x))
        (rw (reverse-replicate k x) (replicate_push k x [] ∙ ap (λ r. x ∷ r) (append-nil _)))

  pub All-append {κ} : (P : A → Type κ) (xs ys : List A) → All P xs → All P ys → All P (xs ++ ys)
  All-append P [] ys h k = k
  All-append P (x ∷ xs) ys h k = (h.0, All-append P xs ys h.1 k)

  pub All-reverse {κ} : (P : A → Type κ) (xs : List A) → All P xs → All P (reverse xs)
  All-reverse P [] h = tt
  All-reverse P (x ∷ xs) h =
      rw (reverse-append (x ∷ []) xs)
        (All-append P (reverse xs) (x ∷ []) (All-reverse P xs h.1) (h.0, tt))

  pub All-replicate {κ} : (P : A → Type κ) (k : ℕ) (x : A) → P x → All P (replicate k x)
  All-replicate P zero x p = tt
  All-replicate P (suc k) x p = (p, All-replicate P k x p)

module _ {ℓ κ} {A : Type ℓ} {B : Type κ} (f : A → B) where
  pub map-reverse : (xs : List A) → map f (reverse xs) ≡ reverse (map f xs)
  map-reverse [] = refl
  map-reverse (x ∷ xs) =
      ap (map f) (reverse-append (x ∷ []) xs)
      ∙ map-append f (reverse xs) (x ∷ [])
      ∙ ap (λ r. r ++ f x ∷ []) (map-reverse xs)
      ∙ sym (reverse-append (f x ∷ []) (map f xs))

  pub map-replicate : (k : ℕ) (x : A) → map f (replicate k x) ≡ replicate k (f x)
  map-replicate zero x = refl
  map-replicate (suc k) x = ap (λ r. f x ∷ r) (map-replicate k x)

  pub All-map_of {μ} :
      (P : A → Type μ) (Q : B → Type μ)
      → ((x : A) → P x → Q (f x))
      → (xs : List A) → All P xs
      → All Q (map f xs)
  All-map_of P Q g [] h = tt
  All-map_of P Q g (x ∷ xs) h = (g x h.0, All-map_of P Q g xs h.1)
