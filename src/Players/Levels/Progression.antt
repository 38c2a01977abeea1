-- ===== src/Players/Levels/Progression.antt =====
-- The level that an experience gives.
use aeon_backend.Players.Levels.{LevelProgress, LevelProgress}
use aeon_backend.Players.Levels.Thresholds.{threshold}
use aeon_backend.Base.Int.{negsuc, pos}
use aeon_backend.Base.{suc, ℕ, ◌-◌, ◌<◌, ◌≡◌, ◌≤◌, ◌⊎◌}

-- What `Progress` states of an experience: the level, how many were gained, and what is missing.
pub record Progresses (m b l q low exp : ℕ) (p : LevelProgress) : Type 0 where
  pub no_loss : low ≤ p.level
  pub capped : (p.level ≤ low) ⊎ (p.level ≤ m)
  pub gained : p.levels_gained ≡ p.level - low
  pub earned : (k : ℕ) → low < k → k ≤ p.level → threshold b l q k ≤ exp
  pub next :
      ((m ≤ p.level) × (p.exp_to_next_level ≡ negsuc 0))
      ⊎ ((p.level < m)
          × (exp < threshold b l q (suc p.level))
          × (p.exp_to_next_level ≡ pos (threshold b l q (suc p.level) - exp)))
