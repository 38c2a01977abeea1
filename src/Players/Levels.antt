-- ===== src/Players/Levels.antt =====
-- `LevelProgressionRules` and its methods `Progress`, `enabled`, `expRequiredToReachLevel` and
-- `expRequiredForNextLevel` of internal/platform/store/store.go. An `int` has 64 bits; a level is a
-- natural number once it is at least 1.
pub mod Climb
pub mod Thresholds
pub mod Progression
use aeon_backend.Base.{Bool, if◌then◌else◌, leb, not, suc, zero, ℕ, ◌&&◌, ◌-◌, ◌||◌}
use aeon_backend.Base.Int.{add64, leb_ℤ, ltb_ℤ, mul64, negsuc, pos, pos_part, sub64, ℤ}

pub record LevelProgressionRules : Type 0 where
  pub max_level : ℤ
  pub base : ℤ
  pub linear : ℤ
  pub quadratic : ℤ

pub record LevelProgress : Type 0 where
  pub level : ℕ
  pub levels_gained : ℕ
  pub exp_to_next_level : ℤ

unfoldable pub exp_for_next_level : LevelProgressionRules → ℕ → ℤ
exp_for_next_level r level =
    add64 (add64 r.base (mul64 r.linear (pos level)))
      (mul64 (mul64 r.quadratic (pos level)) (pos level))

-- The loop of `expRequiredToReachLevel`, over `count` levels from `current` on.
unfoldable pub exp_loop : LevelProgressionRules → ℕ → ℕ → ℤ → ℤ
unfolding exp_for_next_level
exp_loop r zero current total = total
exp_loop r (suc count) current total =
    exp_loop r count (suc current) (add64 total (exp_for_next_level r current))

unfoldable pub exp_to_reach_level : LevelProgressionRules → ℕ → ℤ
unfolding exp_loop
exp_to_reach_level r level = if leb level 1 then pos 0 else exp_loop r (level - 1) 1 (pos 0)

unfoldable pub enabled : LevelProgressionRules → Bool
enabled r =
    ltb_ℤ (pos 0) r.max_level
    && (ltb_ℤ (pos 0) r.base || ltb_ℤ (pos 0) r.linear || ltb_ℤ (pos 0) r.quadratic)

abbrev pub at_level : ℕ → ℕ → ℤ → LevelProgress
at_level start level to_next = record {
  level = level;
  levels_gained = level - start;
  exp_to_next_level = to_next;
}

-- The test that ends the loop below the maximum.
abbrev pub stops : LevelProgressionRules → ℤ → ℕ → Bool
stops r exp level =
    leb_ℤ (exp_to_reach_level r (suc level)) (pos 0) || ltb_ℤ exp (exp_to_reach_level r (suc level))

-- The loop of `Progress`, on the number of levels below the maximum, which is positive since the
-- rules are enabled.
unfoldable pub climb : LevelProgressionRules → ℤ → ℕ → ℕ → ℕ → LevelProgress
unfolding exp_to_reach_level
climb r exp start zero level = at_level start level (negsuc 0)
climb r exp start (suc left) level =
    let higher = climb r exp start left (suc level) in
    if stops r exp level
    then at_level start level (sub64 (exp_to_reach_level r (suc level)) exp)
    else higher

abbrev pub start_level : ℤ → ℕ
start_level level = if leb_ℤ level (pos 0) then 1 else pos_part level

abbrev pub start_exp : ℤ → ℤ
start_exp exp = if ltb_ℤ exp (pos 0) then pos 0 else exp

-- `Progress`
unfoldable pub progress : LevelProgressionRules → ℤ → ℤ → LevelProgress
unfolding enabled climb
progress r level exp =
    if not (enabled r)
    then record { level = start_level level; levels_gained = 0; exp_to_next_level = pos 0 }
    else climb r (start_exp exp) (start_level level) (pos_part r.max_level - start_level level)
        (start_level level)
