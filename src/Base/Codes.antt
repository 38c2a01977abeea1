-- ===== src/Base/Codes.antt =====
-- `strings.TrimSpace` on a text that is given by its code points.
use aeon_backend.Base.{ℕ, All, List, [], false, if◌then◌else◌, refl, ◌∙◌, ◌∷◌, ◌≡◌, ap}
use aeon_backend.Base.Text.{is_space}

pub trim_codes_left : List ℕ → List ℕ
trim_codes_left [] = []
trim_codes_left (c ∷ s) = if is_space c then trim_codes_left s else c ∷ s

abbrev pub keep_code : ℕ → List ℕ → List ℕ
keep_code c [] = if is_space c then [] else c ∷ []
keep_code c (d ∷ r) = c ∷ d ∷ r

pub trim_codes_right : List ℕ → List ℕ
trim_codes_right [] = []
trim_codes_right (c ∷ s) = keep_code c (trim_codes_right s)

unfoldable pub trim_codes : List ℕ → List ℕ
unfolding trim_codes_left trim_codes_right is_space
trim_codes s = trim_codes_right (trim_codes_left s)

-- A text with no space in it is left as it is.
trim_right-id : (s : List ℕ) → All (λ c. is_space c ≡ false) s → trim_codes_right s ≡ s
unfolding trim_codes_right
trim_right-id [] h = refl
trim_right-id (c ∷ []) h = rw h.0
trim_right-id (c ∷ d ∷ r) h = rw (trim_right-id (d ∷ r) h.1)

trim_left-id : (s : List ℕ) → All (λ c. is_space c ≡ false) s → trim_codes_left s ≡ s
unfolding trim_codes_left
trim_left-id [] h = refl
trim_left-id (c ∷ s) h = rw h.0

pub trim_codes-id : (s : List ℕ) → All (λ c. is_space c ≡ false) s → trim_codes s ≡ s
trim_codes-id s h = opened s ∙ ap trim_codes_right (trim_left-id s h) ∙ trim_right-id s h
  where
    opened : (s : List ℕ) → trim_codes s ≡ trim_codes_right (trim_codes_left s)
    opened s = unfold trim_codes in refl
