-- ===== src/Players/Levels/Climb.antt =====
-- The level that a character reaches.
use aeon_backend.Players.Levels.{
  LevelProgress, LevelProgressionRules, climb, enabled, exp_to_reach_level, progress, start_exp,
  start_level, stops,
}
use aeon_backend.Base.Int.{pos, pos_part, ℤ, negsuc, sub64, ◌<ℤ◌, ◌≤ℤ◌, leb_ℤ, ltb_ℤ}
use aeon_backend.Base.{
  ap, ◌∙◌, refl, Bool-cases, arith, inl, inr, suc, true, zero, ℕ, ◌+◌, ◌<◌, ◌≡◌, ◌≤◌, ◌⊎◌, false,
  nat_eq, nat_key, subst, sym, ◌-◌, ◌||◌,
}

-- Every level above `low`, up to `level`, has a threshold that is positive and within the experience.
abbrev pub Reached : LevelProgressionRules → ℤ → ℕ → ℕ → Type 0
Reached r exp low level =
    (k : ℕ)
    → low < k
    → k ≤ level
    → (pos 0 <ℤ exp_to_reach_level r k) × (exp_to_reach_level r k ≤ℤ exp)

-- No level is left, or the next threshold is not positive or beyond the experience.
abbrev pub Ends : LevelProgressionRules → ℤ → ℕ → ℕ → Type 0
Ends r exp top level = (top ≤ level) ⊎ (stops r exp level ≡ true)

climb_lem :
    (r : LevelProgressionRules) (exp : ℤ) (start left level : ℕ)
    → let top = (climb r exp start left level).level in
      (level ≤ top) × (top ≤ level + left) × Reached r exp level top × Ends r exp (level + left) top
unfolding climb
climb_lem r exp start zero level =
    (omega arith, omega arith, λ k a b. absurd (omega arith), inl (omega arith))
climb_lem r exp start (suc left) level = elim (Bool-cases (stops r exp level)) [
  | inl t ↦ rw t (omega arith, omega arith, λ k a b. absurd (omega arith), inr t)
  | inr f ↦
      rw f (
        higher f (climb r exp start left (suc level)).level
          (climb_lem r exp start left (suc level)))
]
  where
    passed :
        (threshold : ℤ)
        → (leb_ℤ threshold (pos 0) || ltb_ℤ exp threshold) ≡ false
        → (pos 0 <ℤ threshold) × (threshold ≤ℤ exp)
    passed threshold f = ground arith

    reached :
        (top : ℕ)
        → stops r exp level ≡ false
        → Reached r exp (suc level) top
        → Reached r exp level top
    reached top f c k a b = elim (Bool-cases (nat_eq k (suc level))) [
      | inl e ↦
          subst (λ x. (pos 0 <ℤ exp_to_reach_level r x) × (exp_to_reach_level r x ≤ℤ exp))
            (sym ((nat_key.agrees k (suc level)).0 e)) (passed (exp_to_reach_level r (suc level)) f)
      | inr n ↦ c k (ground arith) b
    ]

    higher :
        stops r exp level ≡ false
        → (top : ℕ)
        → (suc level ≤ top)
          × (top ≤ suc level + left)
          × Reached r exp (suc level) top
          × Ends r exp (suc level + left) top
        → (level ≤ top)
          × (top ≤ level + suc left)
          × Reached r exp level top
          × Ends r exp (level + suc left) top
    higher f top h = (
      omega (arith, h.0),
      omega (arith, h.1),
      reached top f h.2,
      elim (h.3) [ inl a ↦ inl (omega (arith, a)) | inr b ↦ inr b ],
    )

-- What the loop states besides the level, where it ends at the last level and where it stops.
abbrev pub Stated : LevelProgressionRules → ℤ → ℕ → LevelProgress → Type 0
Stated r exp top p =
    ((top ≤ p.level) × (p.exp_to_next_level ≡ negsuc 0))
    ⊎ ((p.level < top) × (p.exp_to_next_level ≡ sub64 (exp_to_reach_level r (suc p.level)) exp))

climb-Stated :
    (r : LevelProgressionRules) (exp : ℤ) (start left level : ℕ)
    → let p = climb r exp start left level in
      (p.levels_gained ≡ p.level - start) × Stated r exp (level + left) p
unfolding climb
climb-Stated r exp start zero level = (refl, inl (omega arith, refl))
climb-Stated r exp start (suc left) level = elim (Bool-cases (stops r exp level)) [
  | inl t ↦ rw t (refl, inr (omega arith, refl))
  | inr f ↦ rw f (
      let h = climb-Stated r exp start left (suc level) in
      (
        h.0,
        elim (h.1) [
          | inl a ↦ inl (omega (arith, a.0), a.1)
          | inr a ↦ inr (omega (arith, a.0), a.1)
        ],
      ))
]

start_level-pos : (n : ℕ) → 1 ≤ n → start_level (pos n) ≡ n
start_level-pos n le = ground arith

start_exp-pos : (n : ℕ) → start_exp (pos n) ≡ pos n
start_exp-pos n = ground arith

progress-enabled :
    (r : LevelProgressionRules) (low exp : ℕ)
    → enabled r ≡ true
    → 1 ≤ low
    → progress r (pos low) (pos exp) ≡ climb r (pos exp) low (pos_part r.max_level - low) low
unfolding progress
progress-enabled r low exp able le = rw able (
    ap
      (λ e.
        climb r e (start_level (pos low)) (pos_part r.max_level - start_level (pos low))
          (start_level (pos low)))
      (start_exp-pos exp)
    ∙ ap (λ n. climb r (pos exp) n (pos_part r.max_level - n) n) (start_level-pos low le))

-- How `Progress` leaves the loop from a level on.
abbrev pub Climbed : LevelProgressionRules → ℕ → ℕ → LevelProgress → Type 0
Climbed r low exp p =
    (low ≤ p.level)
    × (p.level ≤ low + (pos_part r.max_level - low))
    × Reached r (pos exp) low p.level
    × Ends r (pos exp) (low + (pos_part r.max_level - low)) p.level
    × (p.levels_gained ≡ p.level - low)
    × Stated r (pos exp) (low + (pos_part r.max_level - low)) p

pub progress-Climbed :
    (r : LevelProgressionRules) (low exp : ℕ)
    → enabled r ≡ true
    → 1 ≤ low
    → Climbed r low exp (progress r (pos low) (pos exp))
progress-Climbed r low exp able le =
    let left = pos_part r.max_level - low in
    let a = climb_lem r (pos exp) low left low in
    let b = climb-Stated r (pos exp) low left low in
    subst (Climbed r low exp) (sym (progress-enabled r low exp able le))
      (a.0, a.1, a.2, a.3, b.0, b.1)
