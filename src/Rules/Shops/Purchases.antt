-- ===== src/Rules/Shops/Purchases.antt =====
-- What a purchase gives: ShopPurchasePlan of internal/economy/rules/config.go.
use aeon_backend.Base.{
  ℕ, some, List, [], ◌∷◌, zero, suc, ◌+◌, String, text_key, true, false, All, ◌≡◌, refl, arith, ◌∙◌,
  ap, Bool, if◌then◌else◌, not, Option, none,
}
use aeon_backend.Base.Int.{ℤ, pos, negsuc, pos_part, ltb_ℤ, ◌≤ℤ◌, ◌<ℤ◌, ◌+ℤ◌, int_laws}
use aeon_backend.Base.Dict.{lookup}
use aeon_backend.Base.Text.{trim_space}
use aeon_backend.Dungeon.Items.{DungeonRewardGrant, DungeonRewardPlan}
use aeon_backend.Rules.Outcome.{returned, Gives, ◌>>=◌}
use aeon_backend.Rules.Runtime.{Runtime}
use aeon_backend.Rules.Types.{Config, Item, EquipmentTemplate}
use aeon_backend.Rules.Affixes.{equipment_template}
use aeon_backend.Rules.Affixes.Total.{Pools, Rarities, roll_equipment_affixes-Gives}
use aeon_backend.Rules.Names.{seed}
use aeon_backend.Rules.Loot.Pools.{no_plan, with_items}
use aeon_backend.Rules.Shops.{
  known_affixes, shop_piece, shop_pieces, bought_rarity, bought_item, shop_purchase_plan,
}

-- The number of things in some grants.
abbrev pub quantities : List DungeonRewardGrant → ℤ
quantities [] = pos 0
quantities (grant ∷ more) = grant.quantity +ℤ quantities more

abbrev pub Of : String → DungeonRewardGrant → Type 0
Of item_id grant = grant.item_id ≡ item_id

known_affixes-Gives :
    (go : Runtime) (c : Config) (item_id : String) (rarity : ℤ) (rng : ℕ)
    (template : Option EquipmentTemplate)
    → Pools c
    → Rarities c
    → Gives (known_affixes go c item_id rarity rng template)
known_affixes-Gives go c item_id rarity rng none pools rarities = (([], 0), refl)
known_affixes-Gives go c item_id rarity rng (some template) pools rarities =
    roll_equipment_affixes-Gives go c item_id rarity rng pools rarities

shop_pieces_lem :
    (go : Runtime) (c : Config) (op_id : String) (character_id : ℤ) (item : Item) (rarity : ℤ)
    (left i : ℕ)
    → Pools c
    → Rarities c
    → (pieces : List DungeonRewardGrant) × (shop_pieces go c op_id character_id item rarity left i
        ≡ returned pieces)
      × (quantities pieces ≡ pos left)
      × All (Of item.item_id) pieces
unfolding shop_pieces
shop_pieces_lem go c op_id character_id item rarity zero i pools rarities = ([], refl, refl, tt)
shop_pieces_lem go c op_id character_id item rarity (suc left) i pools rarities =
    let affixes =
      known_affixes-Gives go c item.item_id rarity
        (go.pcg (seed op_id "shop" character_id (pos i) (pos 0)) 0x4cf5ad432745937f)
        (equipment_template c item.item_id) pools rarities in
    let rest = shop_pieces_lem go c op_id character_id item rarity left (i + 1) pools rarities in
    (
      shop_piece c op_id item rarity i affixes.0.0 ∷ rest.0,
      rw affixes.1 (rw rest.1 refl),
      ap (λ n. pos 1 +ℤ n) rest.2 ∙ one_more left,
      (refl, rest.3),
    )
  where
    one_more : (n : ℕ) → pos 1 +ℤ pos n ≡ pos (suc n)
    one_more n = omega int_laws

-- A purchase of a positive quantity of an item that is known, and that stands for no gold and no
-- tokens, returns a plan that gives exactly that quantity, of that item only, and no tokens, where the
-- affix pools and the rarities are in order.
pub shop_purchase_plan_lem :
    (go : Runtime) (c : Config) (op_id : String) (character_id : ℤ) (item_id : String)
    (quantity override : ℤ) (item : Item)
    → Pools c
    → Rarities c
    → lookup (trim_space item_id) c.items ≡ some item
    → pos 0 <ℤ quantity
    → item.grant_gold ≤ℤ pos 0
    → item.grant_locked_aeb ≤ℤ pos 0
    → (plan : DungeonRewardPlan) × (shop_purchase_plan go c op_id character_id item_id quantity
          override
        ≡ returned plan)
      × (quantities plan.items ≡ quantity)
      × All (Of item.item_id) plan.items
      × (plan.token_reward ≡ pos 0)
unfolding shop_purchase_plan
shop_purchase_plan_lem go c op_id character_id item_id quantity override item pools rarities found
      positive gold aeb =
    let is_gold : ltb_ℤ (pos 0) item.grant_gold ≡ false = not_positive item.grant_gold gold in
    let is_aeb : ltb_ℤ (pos 0) item.grant_locked_aeb ≡ false =
      not_positive item.grant_locked_aeb aeb in
    let wanted : ltb_ℤ (pos 0) quantity ≡ true = is_positive quantity positive in
    let bought = goods item.is_equipment in
    (bought.0, rw found (rw wanted (rw is_gold (rw is_aeb bought.1))), bought.2, bought.3, bought.4)
  where
    not_positive : (n : ℤ) → n ≤ℤ pos 0 → ltb_ℤ (pos 0) n ≡ false
    not_positive n h = ground arith

    is_positive : (n : ℤ) → pos 0 <ℤ n → ltb_ℤ (pos 0) n ≡ true
    is_positive n h = ground arith

    whole : (n : ℤ) → pos 0 <ℤ n → pos (pos_part n) ≡ n
    whole (pos n) h = refl
    whole (negsuc n) h = absurd (omega arith)

    alone : (n : ℤ) → n +ℤ pos 0 ≡ n
    alone n = omega int_laws

    goods :
        (is_equipment : Bool)
        → (plan : DungeonRewardPlan) × ((if not is_equipment
              then returned (with_items no_plan (bought_item item quantity ∷ []))
              else (shop_pieces go c op_id character_id item
                    (bought_rarity item override)
                    (pos_part quantity)
                    0
                  >>= λ found. returned (with_items no_plan found)))
            ≡ returned plan)
          × (quantities plan.items ≡ quantity)
          × All (Of item.item_id) plan.items
          × (plan.token_reward ≡ pos 0)
    goods true =
        let pieces =
          shop_pieces_lem go c op_id character_id item (bought_rarity item override)
            (pos_part quantity) 0 pools rarities in
        (
          with_items no_plan pieces.0,
          rw pieces.1 refl,
          pieces.2 ∙ whole quantity positive,
          pieces.3,
          refl,
        )
    goods false = (
      with_items no_plan (bought_item item quantity ∷ []),
      refl,
      alone quantity,
      (refl, tt),
      refl,
    )
