-- ===== src/Scenarios/Racks.antt =====
-- Custom entries changed directly, at concrete inputs.
use rolebook_backend.Common.{
  ℕ, String, ◌≡◌, refl, false, none, some, [], ◌∷◌, contains, ◌==◌, if◌then◌else◌, arith,
}
use mathlib.Core.Option
use rolebook_backend.Http.{pass}
use rolebook_backend.Documents.{Collection}
use rolebook_backend.Catalog.{CustomEquipment}
use rolebook_backend.Catalog.Stores.{PlayerSheet}
use rolebook_backend.Catalog.Entries.{PatchValue, text, Patch, equipment_shelf, ContentNote}
use rolebook_backend.Catalog.Handlers.{Rack, update_entry}
use rolebook_backend.Catalog.Guarded.{
  server_keys, serve_entry, delete_call, serve_entry_guarded, update_entry-owned,
}
use rolebook_backend.Scenarios.Shelves.{shelf}
use rolebook_backend.Scenarios.Queues.{sword, master, ana}

-- Of the keys of an entry this one knows the name and those of its identity, campaign and creator.
abbrev set_text : String → PatchValue → CustomEquipment → CustomEquipment
set_text key (text s) e = record e {
  name = if key == "name" then s else e.name;
  id = if "id" == key then s else e.id;
  campaign_id = if "campaignId" == key then s else e.campaign_id;
  created_by = if "createdBy" == key then s else e.created_by;
}
set_text key other e = e

abbrev Owned : Type 0
Owned = String × String × String × ℕ

abbrev owned : CustomEquipment → Owned
owned e = (e.id, e.campaign_id, e.created_by, e.created_at)

abbrev armoury : Collection CustomEquipment
armoury = shelf ("e1" ∷ [])

abbrev players : Collection PlayerSheet
players = shelf []

abbrev notes : Collection ContentNote
notes = shelf []

abbrev stocked : Rack armoury players notes
stocked = record {
  entries_db =
      λ k. if k == "e1" then some (record sword { id = "e1"; campaign_id = "camp" }) else none;
  players_db = λ k. none;
  notes_db = λ k. none;
}

set_text-owned :
    (key : String) (v : PatchValue) (e : CustomEquipment)
    → contains server_keys key ≡ false
    → owned ((equipment_shelf set_text).set key v e) ≡ owned e
unfolding equipment_shelf
set_text-owned key (text s) e h = ground arith
set_text-owned key (PatchValue.ids xs) e h = refl
set_text-owned key PatchValue.other_value e h = refl

touched_owned :
    (now : ℕ) (e : CustomEquipment) → owned ((equipment_shelf set_text).touched now e) ≡ owned e
unfolding equipment_shelf
touched_owned now e = refl

abbrev theft : Patch
theft = ("createdBy", text "u9") ∷ ("name", text "Sun Sword") ∷ []

update_entry-owned_example :
    Option.map owned (
      armoury.stored
        (update_entry
          (equipment_shelf set_text)
          armoury
          players
          notes
          (λ s. s)
          (λ e. e)
          (λ s n. none)
          9
          "camp"
          (pass master)
          "e1"
          (some theft)
          stocked).1.entries_db
        "e1")
    ≡ Option.map owned (armoury.stored stocked.entries_db "e1")
update_entry-owned_example =
    update_entry-owned (equipment_shelf set_text) owned set_text-owned touched_owned armoury players
      notes (λ s. s) (λ e. e) (λ s n. none) 9 "camp" (pass master) "e1" (some theft) stocked "e1"

serve_entry_guarded_example :
    serve_entry
      (equipment_shelf set_text)
      armoury
      players
      notes
      (λ s. s)
      (λ e. e)
      (λ s n. none)
      9
      "camp"
      (pass ana)
      (delete_call "e1")
      stocked
    ≡ stocked
serve_entry_guarded_example =
    serve_entry_guarded (equipment_shelf set_text) armoury players notes (λ s. s) (λ e. e)
      (λ s n. none) 9 "camp" (pass ana) (delete_call "e1") stocked refl
