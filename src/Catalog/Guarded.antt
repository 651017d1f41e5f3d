-- ===== src/Catalog/Guarded.antt =====
-- Who changes the custom catalog, and what no patch changes.
use rolebook_backend.Common.{
  ℕ, String, ◌≡◌, refl, sym, ◌∙◌, ap, Bool, true, false, not, Option, none, some, List, [], ◌∷◌,
  contains, All, ◌==◌, if◌then◌else◌,
}
use mathlib.Core.Option
use mathlib.Core.Path.{subst}
use rolebook_backend.Http.{
  Fetched, fetched, failed, Checked, pass, deny, pass_inj, >>=-eq-pass, >>-eq-pass,
}
use rolebook_backend.Access.{CampaignMembership}
use rolebook_backend.Sharing.{
  normalize_visibility_mode, is_valid_visibility_mode, allowed_player_ids_for_cascade,
}
use rolebook_backend.Documents.{Collection}
use rolebook_backend.Documents.Laws.{find_one_and_update_keeps}
use rolebook_backend.Catalog.Stores.{PlayerSheet}
use rolebook_backend.Catalog.Entries.{
  Patch, PatchValue, text, ids, other_value, server_owned, stripped, value_at, without_key,
  with_key, with_mode, check_mode, not_empty, read_body, check_patch, touches_visibility, Shelf,
  ContentNote,
}
use rolebook_backend.Catalog.Handlers.{
  Rack, cascade, check_new, create_entry, check_entry, check_update, set_all, after_update,
  write_update, update_entry, delete_entry,
}

-- The identity of an entry, its campaign, its creator and its times: what no patch may set.
abbrev pub server_keys : List String
server_keys = "id" ∷ "_id" ∷ "campaignId" ∷ "createdBy" ∷ "createdAt" ∷ "updatedAt" ∷ []

-- No key of the patch is a field of the server.
abbrev pub IsClean : Patch → Type 0
IsClean ps = All (λ (p : String × PatchValue). contains server_keys p.0 ≡ false) ps

stripped-IsClean : (ps : Patch) → IsClean (stripped ps)
unfolding stripped
stripped-IsClean [] = tt
stripped-IsClean ((k, v) ∷ ps) = kept (contains server_owned k) refl (stripped-IsClean ps)
  where
    kept :
        (b : Bool)
        → contains server_owned k ≡ b
        → IsClean (stripped ps)
        → IsClean (if b then stripped ps else (k, v) ∷ stripped ps)
    kept true e h = h
    kept false e h = (e, h)

without_key-IsClean : (key : String) (ps : Patch) → IsClean ps → IsClean (without_key key ps)
unfolding without_key
without_key-IsClean key [] h = tt
without_key-IsClean key ((k, v) ∷ ps) (p, h) = left (k == key) (without_key-IsClean key ps h)
  where
    left :
        (b : Bool)
        → IsClean (without_key key ps)
        → IsClean (if b then without_key key ps else (k, v) ∷ without_key key ps)
    left true r = r
    left false r = (p, r)

with_mode-IsClean : (mode : String) (ps : Patch) → IsClean ps → IsClean (with_mode mode ps)
unfolding without_key
with_mode-IsClean mode ps h = by_mode (mode == "players")
  where
    moded : IsClean (with_key "visibilityMode" (text mode) ps)
    moded = (refl, without_key-IsClean "visibilityMode" ps h)

    by_mode :
        (b : Bool)
        → IsClean (
            if b
            then with_key "visibilityMode" (text mode) ps
            else with_key "visiblePlayerIds" (ids []) (with_key "visibilityMode" (text mode) ps))
    by_mode true = moded
    by_mode false = (
      refl,
      without_key-IsClean "visiblePlayerIds" (with_key "visibilityMode" (text mode) ps) moded,
    )

check_mode-IsClean :
    (clean : String → String) (o : Option PatchValue) (ps qs : Patch)
    → IsClean ps
    → check_mode clean o ps ≡ pass qs
    → IsClean qs
check_mode-IsClean clean none ps qs h e = subst IsClean (pass_inj e) h
check_mode-IsClean clean (some (ids xs)) ps qs h e = cc
check_mode-IsClean clean (some other_value) ps qs h e = cc
check_mode-IsClean clean (some (text sent)) ps qs h e =
    let (d, k) =
      >>-eq-pass (not (is_valid_visibility_mode (normalize_visibility_mode clean sent))) _ _ _ _
        e in
    subst IsClean (pass_inj k) (with_mode-IsClean (normalize_visibility_mode clean sent) ps h)

not_empty_same : (ps qs : Patch) → not_empty ps ≡ pass qs → ps ≡ qs
not_empty_same [] qs e = cc
not_empty_same (p ∷ ps) qs e = pass_inj e

check_patch-IsClean :
    (clean : String → String) (sent : Option Patch) (qs : Patch)
    → check_patch clean sent ≡ pass qs
    → IsClean qs
unfolding check_patch
check_patch-IsClean clean sent qs e =
    let (body, e1, k1) = >>=-eq-pass (read_body sent) _ e in
    let (ps, e2, k2) = >>=-eq-pass (not_empty (stripped body)) _ k1 in
    check_mode-IsClean clean (value_at "visibilityMode" ps) ps qs
      (subst IsClean (not_empty_same (stripped body) ps e2) (stripped-IsClean body)) k2

module _ {E : Type 0} {O : Type 0} (shelf : Shelf E) (owned : E → O)
    (set_owned : (key : String) (v : PatchValue) (e : E)
      → contains server_keys key ≡ false
      → owned (shelf.set key v e) ≡ owned e)
    (touched_owned : (now : ℕ) (e : E) → owned (shelf.touched now e) ≡ owned e)
    (entries : Collection E) (players : Collection PlayerSheet) (notes : Collection ContentNote)
    (clean : String → String) (resolve_image : E → E) (generated : String → ℕ → Option String)
    (now : ℕ) (campaign : String) where
  owned-set_all :
      (ps : Patch) (e : E)
      → IsClean ps
      → owned (set_all shelf entries players notes clean resolve_image generated now campaign ps e)
        ≡ owned e
  unfolding set_all
  owned-set_all [] e h = refl
  owned-set_all ((key, v) ∷ ps) e (p, h) =
      owned-set_all ps (shelf.set key v e) h ∙ set_owned key v e p

  after_update_entries :
      (entry : String) (ps : Patch) (o : Fetched (Option E)) (k : Rack entries players notes)
      → (after_update shelf entries players notes clean resolve_image generated now campaign entry
          ps o k).1.entries_db
        ≡ k.entries_db
  after_update_entries entry ps failed k = refl
  after_update_entries entry ps (fetched none) k = refl
  after_update_entries entry ps (fetched (some e)) k =
      touched_or_not (touches_visibility ps)
        (allowed_player_ids_for_cascade clean (shelf.visibility e).0 (shelf.visibility e).1)
    where
      cascaded :
          (o : Option (List String))
          → (cascade shelf entries players notes clean resolve_image generated now campaign entry o
              k).entries_db
            ≡ k.entries_db
      cascaded none = refl
      cascaded (some allowed) = refl

      touched_or_not :
          (b : Bool) (o : Option (List String))
          → (if b
              then cascade shelf entries players notes clean resolve_image generated now campaign
                  entry o k
              else k).entries_db
            ≡ k.entries_db
      touched_or_not true o = cascaded o
      touched_or_not false o = refl

  -- Whatever the patch of an update, whether it is carried out, refused or fails, every stored entry
  -- keeps each part of it that only the keys of its identity, campaign, creator or times can set, and
  -- that the stamp of the update does not.
  pub update_entry-owned :
      (membership : Checked CampaignMembership) (entry : String) (sent : Option Patch)
      (k : Rack entries players notes) (j : String)
      → Option.map owned (
          entries.stored
            (update_entry shelf entries players notes clean resolve_image generated now campaign
              membership entry sent k).1.entries_db
            j)
        ≡ Option.map owned (entries.stored k.entries_db j)
  unfolding update_entry check_update
  update_entry-owned membership entry sent k j =
      written
        (check_update shelf entries players notes clean resolve_image generated now campaign
          membership (entries.find_one entry (shelf.in_campaign campaign) k.entries_db) sent)
        (λ ps e.
          let (m, e1, k1) = >>=-eq-pass membership _ e in
          let (x, e2, k2) =
            >>=-eq-pass
              (check_entry shelf entries players notes clean resolve_image generated now campaign
                (entries.find_one entry (shelf.in_campaign campaign) k.entries_db))
              _ k1 in
          let (d, k3) = >>-eq-pass (not m.is_dm) _ _ _ _ k2 in check_patch-IsClean clean sent ps k3)
    where
      written :
          (checked : Checked Patch)
          → ((ps : Patch) → checked ≡ pass ps → IsClean ps)
          → Option.map owned (
              entries.stored
                (write_update shelf entries players notes clean resolve_image generated now campaign
                  entry checked k).1.entries_db
                j)
            ≡ Option.map owned (entries.stored k.entries_db j)
      written (deny status message code) h = refl
      written (pass ps) h =
          ap (λ db. Option.map owned (entries.stored db j)) (after_update_entries entry ps _ _)
          ∙ find_one_and_update_keeps owned entries entry (shelf.in_campaign campaign)
              (λ e. shelf.touched now (
                set_all shelf entries players notes clean resolve_image generated now campaign ps
                  e))
              k.entries_db j (λ e. touched_owned now _ ∙ owned-set_all ps e (h ps refl))

module _ {E : Type 0} (shelf : Shelf E) (entries : Collection E) (players : Collection PlayerSheet)
    (notes : Collection ContentNote) (clean : String → String) (resolve_image : E → E)
    (generated : String → ℕ → Option String) (now : ℕ) (campaign : String) where
  -- A request to one of the handlers that write.
  pub data EntryCall : Type 0 where
    create_call : Option E → EntryCall
    update_call : String → Option Patch → EntryCall
    delete_call : String → EntryCall

  unfoldable pub serve_entry :
      Checked CampaignMembership
      → EntryCall
      → Rack entries players notes
      → Rack entries players notes
  serve_entry m (create_call sent) k =
      (create_entry shelf entries players notes clean resolve_image generated now campaign m sent
        k).1
  serve_entry m (update_call entry sent) k =
      (update_entry shelf entries players notes clean resolve_image generated now campaign m entry
        sent k).1
  serve_entry m (delete_call entry) k =
      (delete_entry shelf entries players notes clean resolve_image generated now campaign m entry
        k).1

  abbrev pub is_dm_of_campaign : Checked CampaignMembership → Bool
  is_dm_of_campaign (deny status message code) = false
  is_dm_of_campaign (pass m) = m.is_dm

  update_refused :
      (by : CampaignMembership) (entry : String) (sent : Option Patch)
      (k : Rack entries players notes) (o : Fetched (Option E))
      → (write_update shelf entries players notes clean resolve_image generated now campaign entry
          (check_update shelf entries players notes clean resolve_image generated now campaign
            (pass (record by { is_dm = false }))
            o
            sent)
          k).1
        ≡ k
  unfolding check_update
  update_refused by entry sent k failed = refl
  update_refused by entry sent k (fetched none) = refl
  update_refused by entry sent k (fetched (some e)) = refl

  -- A request of whoever is not the DM of the campaign changes no entry, sheet or note.
  pub serve_entry_guarded :
      (m : Checked CampaignMembership) (call : EntryCall) (k : Rack entries players notes)
      → is_dm_of_campaign m ≡ false
      → serve_entry m call k ≡ k
  unfolding serve_entry create_entry update_entry delete_entry check_new check_update
  serve_entry_guarded (deny status message code) (create_call sent) k h = refl
  serve_entry_guarded (deny status message code) (update_call entry sent) k h = refl
  serve_entry_guarded (deny status message code) (delete_call entry) k h = refl
  serve_entry_guarded (pass by) call k h =
      subst (λ b. serve_entry (pass (record by { is_dm = b })) call k ≡ k) (sym h) (as_player call)
    where
      as_player : (call : EntryCall) → serve_entry (pass (record by { is_dm = false })) call k ≡ k
      as_player (create_call sent) = refl
      as_player (update_call entry sent) =
          update_refused by entry sent k
            (entries.find_one entry (shelf.in_campaign campaign) k.entries_db)
      as_player (delete_call entry) = refl
