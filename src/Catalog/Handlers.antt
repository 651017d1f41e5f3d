-- ===== src/Catalog/Handlers.antt =====
-- List, Create, Update and Delete of internal/handler/custom_equipment.go and custom_spell.go, over the
-- `Shelf` of the entries' type. `resolve_image` is the avatar store's and only changes a reply.
use rolebook_backend.Common.{
  ℕ, String, Bool, true, false, not, Option, none, some, List, [], ◌∷◌, map, ◌==◌, if◌then◌else◌,
}
use rolebook_backend.Http.{
  Fetched, fetched, failed, Checked, pass, deny, deny_if, deny_internal, ◌>>=◌, ◌>>◌, check_read,
}
use rolebook_backend.Access.{CampaignMembership}
use rolebook_backend.Sharing.{
  normalize_visibility_mode, is_valid_visibility_mode, allowed_player_ids_for_cascade,
}
use rolebook_backend.Documents.{Collection, Inserted, inserted, duplicate, insert_failed}
use rolebook_backend.Catalog.{max_attempts}
use rolebook_backend.Catalog.Stores.{PlayerSheet}
use rolebook_backend.Catalog.Entries.{
  Patch, check_patch, touches_visibility, read_body, find_free_id, check_allocation, Shelf,
  ContentNote, note_of,
}

-- The collections of one handler, by their databases.
pub record Rack {E : Type 0} (entries : Collection E) (players : Collection PlayerSheet)
    (notes : Collection ContentNote) : Type 0 where
  pub entries_db : entries.Db
  pub players_db : players.Db
  pub notes_db : notes.Db

module _ {E : Type 0} (shelf : Shelf E) (entries : Collection E) (players : Collection PlayerSheet)
    (notes : Collection ContentNote) (clean : String → String) (resolve_image : E → E)
    (generated : String → ℕ → Option String) (now : ℕ) (campaign : String) where
  open shelf use {
    name, id, in_campaign, visible, check_content, visibility, with_visibility, stamped, touched,
    set, remove_except, remove_all, note_type, only_dm_creates, only_dm_edits, only_dm_deletes,
    not_found, already_exists,
  }

  unfoldable pub list_visible :
      Checked CampaignMembership → Rack entries players notes → Checked (List E)
  list_visible membership k = do
    m ← membership
    es ← check_read (entries.find_all (visible campaign m.player_id m.is_dm) k.entries_db)
    pass (map resolve_image es)

  -- The checks of `Create`, with the visibility that they settle.
  unfoldable pub check_new :
      Checked CampaignMembership → Option E → Checked (CampaignMembership × E)
  check_new membership sent = do
    m ← membership
    deny_if (not m.is_dm) 403 only_dm_creates "FORBIDDEN"
    e ← read_body sent
    deny_if (name e == "") 400 "name is required" "BAD_REQUEST"
    u ← check_content e
    let mode = normalize_visibility_mode clean (visibility e).0
    deny_if (not (is_valid_visibility_mode mode)) 400
        "visibilityMode must be 'campaign' or 'players'" "BAD_REQUEST"
    pass (m, with_visibility mode (if mode == "players" then (visibility e).1 else []) e)

  abbrev pub check_added : Inserted → E → Checked E
  check_added inserted e = pass (resolve_image e)
  check_added duplicate e = deny 409 already_exists "DUPLICATE"
  check_added insert_failed e = deny_internal

  abbrev pub add_new :
      Checked E → Rack entries players notes → Checked E × Rack entries players notes
  add_new (deny status message code) k = (deny status message code, k)
  add_new (pass e) k =
      let (reply, db) = entries.insert_one (id e) e k.entries_db in
      (check_added reply e, record k { entries_db = db })

  unfoldable pub create_entry :
      Checked CampaignMembership
      → Option E
      → Rack entries players notes
      → Checked E × Rack entries players notes
  create_entry membership sent k =
      add_new
        (check_new membership sent >>= λ (m, e).
          check_allocation (
            find_free_id (generated (name e))
              (λ candidate. entries.find_one candidate (in_campaign campaign) k.entries_db)
              max_attempts)
          >>= λ new. pass (stamped now campaign new m.user_id e))
        k

  abbrev pub check_entry : Fetched (Option E) → Checked E
  check_entry failed = deny_internal
  check_entry (fetched none) = deny 404 not_found "NOT_FOUND"
  check_entry (fetched (some e)) = pass e

  unfoldable pub check_update :
      Checked CampaignMembership → Fetched (Option E) → Option Patch → Checked Patch
  check_update membership existing sent = do
    m ← membership
    e ← check_entry existing
    deny_if (not m.is_dm) 403 only_dm_edits "FORBIDDEN"
    check_patch clean sent

  -- `$set` of every key of the patch, in order.
  unfoldable pub set_all : Patch → E → E
  set_all [] e = e
  set_all ((key, v) ∷ ps) e = set_all ps (set key v e)

  abbrev pub cascade :
      String → Option (List String) → Rack entries players notes → Rack entries players notes
  cascade entry none k = k
  cascade entry (some allowed) k = record k {
    players_db = remove_except players now campaign entry allowed k.players_db;
  }

  abbrev pub after_update :
      String
      → Patch
      → Fetched (Option E)
      → Rack entries players notes
      → Checked E × Rack entries players notes
  after_update entry ps failed k = (deny_internal, k)
  after_update entry ps (fetched none) k = (deny 404 not_found "NOT_FOUND", k)
  after_update entry ps (fetched (some e)) k = (
    pass (resolve_image e),
    if touches_visibility ps
        then cascade entry (allowed_player_ids_for_cascade clean (visibility e).0 (visibility e).1)
            k
        else k,
  )

  abbrev pub write_update :
      String → Checked Patch → Rack entries players notes → Checked E × Rack entries players notes
  write_update entry (deny status message code) k = (deny status message code, k)
  write_update entry (pass ps) k =
      let (reply, db) =
        entries.find_one_and_update entry (in_campaign campaign) (λ e. touched now (set_all ps e))
          k.entries_db in
      after_update entry ps reply (record k { entries_db = db })

  unfoldable pub update_entry :
      Checked CampaignMembership
      → String
      → Option Patch
      → Rack entries players notes
      → Checked E × Rack entries players notes
  update_entry membership entry sent k =
      write_update entry
        (check_update membership (entries.find_one entry (in_campaign campaign) k.entries_db) sent)
        k

  -- After the deletion: the cleanup of the sheets, and then of the notes, whose failures are only
  -- logged.
  abbrev pub after_delete :
      String
      → Fetched Bool
      → Rack entries players notes
      → Checked (Unit {0}) × Rack entries players notes
  after_delete entry failed k = (deny_internal, k)
  after_delete entry (fetched false) k = (deny 404 not_found "NOT_FOUND", k)
  after_delete entry (fetched true) k = (
    pass tt,
    record k {
      players_db = remove_all players now campaign entry k.players_db;
      notes_db = (notes.delete_many (note_of campaign note_type entry) k.notes_db).1;
    },
  )

  abbrev pub delete_checked :
      String
      → Checked (Unit {0})
      → Rack entries players notes
      → Checked (Unit {0}) × Rack entries players notes
  delete_checked entry (deny status message code) k = (deny status message code, k)
  delete_checked entry (pass u) k =
      let (reply, db) = entries.delete_one entry (in_campaign campaign) k.entries_db in
      after_delete entry reply (record k { entries_db = db })

  unfoldable pub delete_entry :
      Checked CampaignMembership
      → String
      → Rack entries players notes
      → Checked (Unit {0}) × Rack entries players notes
  delete_entry membership entry k =
      delete_checked entry
        (membership >>= λ m. deny_if (not m.is_dm) 403 only_dm_deletes "FORBIDDEN") k
