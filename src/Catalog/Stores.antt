-- ===== src/Catalog/Stores.antt =====
-- The operations of internal/store/custom_equipment.go and custom_spell.go on their collections, and
-- the updates of internal/store/player.go that take an entry away from players. `now` is
-- `time.Now()`, and `$pull` and `$set` are given by their effect.
use rolebook_backend.Common.{
  ℕ, String, Bool, false, not, ◌&&◌, ◌||◌, List, [], ◌∷◌, Option, contains, ◌==◌, if◌then◌else◌,
}
use rolebook_backend.Common.Int.{ℤ}
use rolebook_backend.Http.{Fetched}
use rolebook_backend.Documents.{Collection, Inserted}
use rolebook_backend.Catalog.{CustomEquipment, CustomSpell, of_campaign, spell_of_campaign}

module _ (equipment : Collection CustomEquipment) where
  open equipment use {Db, find_one, find_all, insert_one, find_one_and_update, delete_one}

  abbrev pub create_equipment : CustomEquipment → Db → Inserted × Db
  create_equipment item db = insert_one item.id item db

  abbrev pub get_equipment : String → String → Db → Fetched (Option CustomEquipment)
  get_equipment campaign id db = find_one id (of_campaign campaign) db

  abbrev pub list_equipment : String → Db → Fetched (List CustomEquipment)
  list_equipment campaign db = find_all (of_campaign campaign) db

  -- `updatedAt` is set over the patch.
  abbrev pub update_equipment :
      (now : ℕ)
      → String
      → String
      → (CustomEquipment → CustomEquipment)
      → Db
      → Fetched (Option CustomEquipment) × Db
  update_equipment now campaign id patch db =
      find_one_and_update id (of_campaign campaign) (λ e. record (patch e) { updated_at = now }) db

  abbrev pub delete_equipment : String → String → Db → Fetched Bool × Db
  delete_equipment campaign id db = delete_one id (of_campaign campaign) db

module _ (spells : Collection CustomSpell) where
  open spells use {Db, find_one, find_all, insert_one, find_one_and_update, delete_one}

  abbrev pub create_spell : CustomSpell → Db → Inserted × Db
  create_spell spell db = insert_one spell.id spell db

  abbrev pub get_spell : String → String → Db → Fetched (Option CustomSpell)
  get_spell campaign id db = find_one id (spell_of_campaign campaign) db

  abbrev pub list_spells : String → Db → Fetched (List CustomSpell)
  list_spells campaign db = find_all (spell_of_campaign campaign) db

  abbrev pub update_spell :
      (now : ℕ)
      → String
      → String
      → (CustomSpell → CustomSpell)
      → Db
      → Fetched (Option CustomSpell) × Db
  update_spell now campaign id patch db =
      find_one_and_update id (spell_of_campaign campaign)
        (λ s. record (patch s) { updated_at = now }) db

  abbrev pub delete_spell : String → String → Db → Fetched Bool × Db
  delete_spell campaign id db = delete_one id (spell_of_campaign campaign) db

-- The filter of `ListVisibleToPlayer`: `$ne` on the mode, or the player is among the listed.
unfoldable pub visible_to_player : String → String → Bool → CustomEquipment → Bool
visible_to_player campaign player is_dm e =
    of_campaign campaign e
    && (is_dm || (not (e.visibility_mode == "players") || contains e.visible_player_ids player))

unfoldable pub spell_visible_to_player : String → String → Bool → CustomSpell → Bool
spell_visible_to_player campaign player is_dm s =
    spell_of_campaign campaign s
    && (is_dm || (not (s.visibility_mode == "players") || contains s.visible_player_ids player))

pub record InventoryItem : Type 0 where
  pub equipment_id : String
  pub name : String
  pub quantity : ℤ

pub record PlayerSpell : Type 0 where
  pub spell_id : String
  pub name : String
  pub is_prepared : Bool

-- What these operations read and write of a player.
pub record PlayerSheet : Type 0 where
  pub id : String
  pub campaign_id : String
  pub name : String
  pub linked_user_id : String
  pub kind : String
  pub inventory : List InventoryItem
  pub spells : List PlayerSpell
  pub updated_at : ℕ

unfoldable pub carries : String → List InventoryItem → Bool
carries id [] = false
carries id (x ∷ xs) = x.equipment_id == id || carries id xs

unfoldable pub without_item : String → List InventoryItem → List InventoryItem
without_item id [] = []
without_item id (x ∷ xs) =
    let rest = without_item id xs in if x.equipment_id == id then rest else x ∷ rest

unfoldable pub knows : String → List PlayerSpell → Bool
knows id [] = false
knows id (x ∷ xs) = x.spell_id == id || knows id xs

unfoldable pub without_spell : String → List PlayerSpell → List PlayerSpell
without_spell id [] = []
without_spell id (x ∷ xs) =
    let rest = without_spell id xs in if x.spell_id == id then rest else x ∷ rest

module _ (players : Collection PlayerSheet) where
  open players use {Db, find_all, update_many}

  unfoldable pub remove_equipment_from_all_inventories :
      (now : ℕ) → String → String → Db → Fetched ℕ × Db
  remove_equipment_from_all_inventories now campaign id db =
      update_many (λ p. p.campaign_id == campaign && carries id p.inventory)
        (λ p. record p { inventory = without_item id p.inventory; updated_at = now }) db

  unfoldable pub remove_equipment_from_players_except :
      (now : ℕ) → String → String → List String → Db → Fetched ℕ × Db
  remove_equipment_from_players_except now campaign id allowed db =
      update_many
        (λ p. p.campaign_id == campaign && (carries id p.inventory && not (contains allowed p.id)))
        (λ p. record p { inventory = without_item id p.inventory; updated_at = now }) db

  unfoldable pub remove_spell_from_players_except :
      (now : ℕ) → String → String → List String → Db → Fetched ℕ × Db
  remove_spell_from_players_except now campaign id allowed db =
      update_many
        (λ p. p.campaign_id == campaign && (knows id p.spells && not (contains allowed p.id)))
        (λ p. record p { spells = without_spell id p.spells; updated_at = now }) db

  unfoldable pub remove_spell_from_all_players : (now : ℕ) → String → String → Db → Fetched ℕ × Db
  remove_spell_from_all_players now campaign id db =
      update_many (λ p. p.campaign_id == campaign && knows id p.spells)
        (λ p. record p { spells = without_spell id p.spells; updated_at = now }) db

  unfoldable pub list_inventory_summaries : String → Db → Fetched (List PlayerSheet)
  list_inventory_summaries campaign db =
      find_all (λ p. p.campaign_id == campaign && not (p.kind == "companion")) db
