-- ===== src/Rules/Samples/Configs.antt =====
-- The sample, and one with another lottery.
use aeon_backend.Base.{[], ◌∷◌}
use aeon_backend.Rules.Types.{Config}
use aeon_backend.Rules.Samples.Gear.{equipment, item_rows, plain_pool}
use aeon_backend.Rules.Samples.Places.{floors_from, chest, boss}
use aeon_backend.Rules.Samples.Prizes.{bounties, lottery, stocked_lottery}
use aeon_backend.Rules.Samples.Rates.{economy, market}

abbrev pub sample : Config
sample = record {
  dir = "configs/economy";
  items = item_rows;
  shops = [];
  floors = floors_from 1 30;
  loot_pools = ("chest", chest) ∷ [];
  affix_pools = ("plain", plain_pool) ∷ [];
  gather_nodes = [];
  crops = [];
  bosses = ("ogre", boss) ∷ [];
  recipes = [];
  marketplace = market;
  rules = economy;
  equipment = equipment;
  lottery = lottery;
  bounties = bounties;
}

abbrev pub stocked : Config
stocked = record sample { lottery = stocked_lottery }
