-- ===== src/Catalog/Cascade.antt =====
-- Who sees a custom entry, and who still carries it after its visibility was narrowed.
use rolebook_backend.Common.{
  ℕ, String, ◌≡◌, refl, sym, ◌∙◌, ap, Bool, true, false, not, ◌&&◌, ◌||◌, Option, none, some, List,
  [], ◌∷◌, ◌==◌, contains, if◌then◌else◌, arith, Bool-cases, inl, inr, eq_iff,
}
use mathlib.Core.Path.{subst}
use rolebook_backend.Http.{fetched}
use rolebook_backend.Documents.{Collection, changed}
use rolebook_backend.Sharing.{
  normalize_visibility_mode, can_player_see_entry, allowed_player_ids_for_cascade,
}
use rolebook_backend.Sharing.Laws.{keeps, can_player_see_entry-keeps}
use rolebook_backend.Catalog.{CustomEquipment}
use rolebook_backend.Catalog.Stores.{
  InventoryItem, PlayerSheet, carries, without_item, remove_equipment_from_players_except,
  visible_to_player,
}

other_mode :
    (known listed : Bool) (m : String)
    → listed ≡ false
    → (m == "players") ≡ false
    → ((if known then "campaign" else if listed then "players" else m) == "players") ≡ false
other_mode true listed m l h = refl
other_mode false true m l h = cc
other_mode false false m l h = h

-- Normalizing leaves a clean mode in its class.
normalized_players :
    (clean : String → String) (m : String)
    → clean m ≡ m
    → (normalize_visibility_mode clean m == "players") ≡ (m == "players")
unfolding normalize_visibility_mode
normalized_players clean m h = elim (Bool-cases (m == "players")) [
  | inl t ↦ ap (λ x. normalize_with x m == "players") h ∙ listed ((eq_iff m "players").0 t)
  | inr f ↦
      other_mode (clean m == "" || clean m == "campaign") (clean m == "players") m
        (ap (λ x. x == "players") h ∙ f) f
      ∙ sym f
]
  where
    normalize_with : String → String → String
    normalize_with lowered x =
        if lowered == "" || lowered == "campaign"
        then "campaign"
        else if lowered == "players"
        then "players"
        else x

    listed : m ≡ "players" → (normalize_with m m == "players") ≡ (m == "players")
    listed e = ap (λ x. normalize_with x x == "players") e ∙ sym (ap (λ x. x == "players") e)

by_listed :
    (scoped is_dm listed allowed : Bool)
    → scoped ≡ true
    → (scoped && (is_dm || (not listed || allowed)))
      ≡ (if is_dm then true else if not listed then true else allowed)
by_listed true true listed allowed h = refl
by_listed true false true allowed h = refl
by_listed true false false allowed h = refl
by_listed false is_dm listed allowed h = cc

-- For an entry of the campaign whose mode is stored without blanks and in lower case, the list of
-- visible entries and the test of a single entry agree.
pub visible_to_player-can_player_see_entry :
    (clean : String → String) (campaign player : String) (is_dm : Bool) (e : CustomEquipment)
    → e.campaign_id ≡ campaign
    → clean e.visibility_mode ≡ e.visibility_mode
    → visible_to_player campaign player is_dm e
      ≡ can_player_see_entry clean e.visibility_mode e.visible_player_ids player is_dm
unfolding visible_to_player can_player_see_entry normalize_visibility_mode
visible_to_player-can_player_see_entry clean campaign player is_dm e h c =
    by_listed (e.campaign_id == campaign) is_dm (e.visibility_mode == "players")
      (contains e.visible_player_ids player) ((eq_iff e.campaign_id campaign).1 h)
    ∙ ap
        (λ listed.
          if is_dm then true else if not listed then true else contains e.visible_player_ids player)
        (sym (normalized_players clean e.visibility_mode c))

carries-without_item :
    (id : String) (xs : List InventoryItem) → carries id (without_item id xs) ≡ false
unfolding carries without_item
carries-without_item id [] = refl
carries-without_item id (x ∷ xs) = ground (arith, carries-without_item id xs)

module _ (campaign id : String) (allowed : List String) where
  -- A sheet of the campaign that carries the entry only where it is allowed to.
  abbrev pub IsAllowed : Option PlayerSheet → Type 0
  IsAllowed none = Unit
  IsAllowed (some p) =
      p.campaign_id ≡ campaign → carries id p.inventory ≡ true → contains allowed p.id ≡ true

  pulled_IsAllowed :
      (now : ℕ) (q : PlayerSheet) (hit : Bool)
      → hit ≡ (q.campaign_id == campaign && (carries id q.inventory && not (contains allowed q.id)))
      → IsAllowed (
          some (
            if hit
            then record q { inventory = without_item id q.inventory; updated_at = now }
            else q))
  pulled_IsAllowed now q true h c carried =
      let never : true ≡ false = sym carried ∙ carries-without_item id q.inventory in cc
  pulled_IsAllowed now q false h c carried =
      ground (arith, h, carried, (eq_iff q.campaign_id campaign).1 c)

  changed-IsAllowed :
      (now : ℕ) (o : Option PlayerSheet)
      → IsAllowed (
          changed
            (λ q.
              q.campaign_id == campaign && (carries id q.inventory && not (contains allowed q.id)))
            (λ q. record q { inventory = without_item id q.inventory; updated_at = now })
            o)
  changed-IsAllowed now none = tt
  changed-IsAllowed now (some q) = pulled_IsAllowed now q _ refl

  -- After a successful removal, whoever of the campaign still carries the entry is allowed to.
  pub remove_equipment_from_players_except-IsAllowed :
      (players : Collection PlayerSheet) (now : ℕ) (db : players.Db) (n : ℕ)
      → (remove_equipment_from_players_except players now campaign id allowed db).0 ≡ fetched n
      → (k : String)
      → IsAllowed (
          players.stored
            (remove_equipment_from_players_except players now campaign id allowed db).1
            k)
  unfolding remove_equipment_from_players_except
  remove_equipment_from_players_except-IsAllowed players now db n e k =
      subst IsAllowed (sym (players.update_many_lem _ _ db n e k))
        (changed-IsAllowed now (players.stored db k))

-- After the cascade of an entry's visibility, whoever of the campaign still carries the entry may
-- see it.
pub cascade_sees :
    (players : Collection PlayerSheet) (clean : String → String) (now : ℕ)
    (campaign id mode : String) (ids allowed : List String) (db : players.Db) (n : ℕ)
    → allowed_player_ids_for_cascade clean mode ids ≡ some allowed
    → (remove_equipment_from_players_except players now campaign id allowed db).0 ≡ fetched n
    → (k : String) (p : PlayerSheet)
    → players.stored (remove_equipment_from_players_except players now campaign id allowed db).1 k
      ≡ some p
    → p.campaign_id ≡ campaign
    → carries id p.inventory ≡ true
    → can_player_see_entry clean mode ids p.id false ≡ true
cascade_sees players clean now campaign id mode ids allowed db n a e k p here c carried =
    can_player_see_entry-keeps clean mode ids p.id
    ∙ ap (λ o. keeps o p.id) a
    ∙ subst (IsAllowed campaign id allowed) here
        (remove_equipment_from_players_except-IsAllowed campaign id allowed players now db n e k) c
        carried
