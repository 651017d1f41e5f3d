-- ===== src/Requests/Approvals.antt =====
-- What a decision leaves: the resolved request, and the live entry of an approved one.
use rolebook_backend.Common.{
  ℕ, String, ◌≡◌, refl, ◌==◌, sym, ◌∙◌, ap, Bool, false, Option, none, some, if◌then◌else◌, eq_iff,
}
use mathlib.Core.Path.{subst}
use rolebook_backend.Http.{fetched, Checked, pass, deny, ◌>>=◌}
use rolebook_backend.Access.{CampaignMembership}
use rolebook_backend.Documents.{Collection}
use rolebook_backend.Documents.Laws.{at_same}
use rolebook_backend.Catalog.{CustomEquipment}
use rolebook_backend.Catalog.{max_attempts}
use rolebook_backend.Catalog.Laws.{allocate_id_fresh}
use rolebook_backend.Catalog.Stores.{create_equipment, get_equipment, list_inventory_summaries}
use rolebook_backend.Requests.Propose.{resolve_name}
use rolebook_backend.Requests.{
  ContentRequest, resolved, resolve_request, is_edit_request, in_campaign, Collections, Desk,
}
use rolebook_backend.Requests.Decide.{
  ApproveBody, Outcome, live, live_item, check_updated, check_outcome, settle, insert_item,
  materialise_item, materialise_spell, materialise, apply_edit, approve_checked, deny_checked,
}
use rolebook_backend.Requests.Settled.{created-live, outcome_live, settle-pass, settle_scoped}

-- A collection whose updates are answered.
abbrev pub AnswersUpdates : Collection ContentRequest → Type 0
AnswersUpdates c =
    (id : String) (test : ContentRequest → Bool) (f : ContentRequest → ContentRequest) (db : c.Db)
    → (o : Option ContentRequest) × ((c.find_one_and_update id test f db).0 ≡ fetched o)

module _ (c : Collections) (clean : String → String) (generated : String → ℕ → Option String)
    (now : ℕ) where
  -- A denial whose checks have read the request while it was pending, and whose write finds it
  -- approved since: where the collection answers, the denial succeeds, and the request is stored as
  -- denied, by this caller, still with the result of the approval.
  pub deny_checked_overrides :
      (campaign id : String) (m : CampaignMembership) (r d : ContentRequest) (w : Desk c)
      → AnswersUpdates c.requests
      → c.requests.stored w.requests id ≡ some d
      → d.campaign_id ≡ campaign
      → r.status ≡ "pending"
      → d.status ≡ "approved"
      → (q : ContentRequest) × (name : String) × ((deny_checked c clean generated now campaign id
            (pass (m, r))
            w).0
          ≡ pass (q, name))
        × (c.requests.stored
              (deny_checked c clean generated now campaign id (pass (m, r)) w).1.requests
              id
            ≡ some q)
        × (q.status ≡ "denied")
        × (q.resolved_by_user_id ≡ m.user_id)
        × (q.result_id ≡ d.result_id)
  unfolding deny_checked resolved resolve_request
  deny_checked_overrides campaign id m r d w answers here scoped read since =
      let (o, answered) =
        answers id (in_campaign campaign) (resolved now "denied" m.user_id "") w.requests in
      let (found, put) =
        settle_scoped c clean generated now campaign id m.user_id "denied" w d o here scoped
          answered in
      (
        resolved now "denied" m.user_id "" d,
        resolve_name d.proposed_by_user_id (list_inventory_summaries c.players campaign w.players),
        ap
            (λ x. check_updated x >>= λ y. pass (
              y,
              resolve_name y.proposed_by_user_id
                  (list_inventory_summaries c.players campaign w.players),
            ))
            (answered ∙ ap fetched found),
        put,
        refl,
        refl,
        refl,
      )

  module _ (campaign : String) (r : ContentRequest) (body : ApproveBody) (w : Desk c) where
    -- The outcome put a new live entry into the catalog, made of the proposal and the decision.
    abbrev IsPut : CustomEquipment → String → Desk c → Type 0
    IsPut e new w' =
        (c.equipment.stored w.equipment new ≡ none)
        × (c.equipment.stored w'.equipment new
            ≡ some (live_item now campaign new r.proposed_by_user_id body e))

    insert_item-IsPut :
        (o : Option String) (e : CustomEquipment) (new : String)
        → (insert_item c clean generated now o campaign r body e w).0 ≡ live new
        → (o ≡ some new) × IsPut e new (insert_item c clean generated now o campaign r body e w).1
    unfolding live_item
    insert_item-IsPut none e new h = cc
    insert_item-IsPut (some id) e new h =
        let item : CustomEquipment = live_item now campaign id r.proposed_by_user_id body e in
        let (stored, same) =
          created-live (create_equipment c.equipment item w.equipment).0 id new h in
        let (free, put) = c.equipment.insert_one_lem id item w.equipment stored in
        subst
          (λ x.
            (some id ≡ some x)
            × IsPut e x (insert_item c clean generated now (some id) campaign r body e w).1)
          same (refl, (free, put id ∙ at_same id (some item) (c.equipment.stored w.equipment)))

    abbrev IsDone : CustomEquipment → String → Desk c → Type 0
    IsDone e new w' = IsPut e new w' × ((i : ℕ) × (generated e.name i ≡ some new))

    -- A live entry: the proposal's content, in the campaign and under the new id, the proposer as its
    -- creator, and the DM's visibility.
    abbrev pub IsLive : CustomEquipment → String → CustomEquipment → Type 0
    IsLive e new x =
        (x.id ≡ new)
        × (x.campaign_id ≡ campaign)
        × (x.created_by ≡ r.proposed_by_user_id)
        × (x.created_at ≡ now)
        × (x.visibility_mode ≡ body.visibility_mode)
        × (x.visible_player_ids ≡ body.visible_player_ids)
        × (record x {
          id = e.id;
          campaign_id = e.campaign_id;
          created_by = e.created_by;
          created_at = e.created_at;
          updated_at = e.updated_at;
          visibility_mode = e.visibility_mode;
          visible_player_ids = e.visible_player_ids;
        }
            ≡ e)

    materialise-IsDone :
        (e : CustomEquipment) (new : String)
        → r.target_type ≡ "item"
        → r.item_payload ≡ some e
        → (materialise c clean generated now campaign r body w).0 ≡ live new
        → IsDone e new (materialise c clean generated now campaign r body w).1
    unfolding materialise
    materialise-IsDone e new t p h =
        subst (λ o. o.0 ≡ live new → IsDone e new o.1) (sym at_item) from_item h
      where
        other : Outcome × Desk c
        other = materialise_spell c clean generated now campaign r body r.spell_payload w

        from_item :
            (materialise_item c clean generated now campaign r body (some e) w).0 ≡ live new
            → IsDone e new (materialise_item c clean generated now campaign r body (some e) w).1
        from_item q =
            let (made, put) = insert_item-IsPut _ e new q in
            let (free, (i, less, from)) =
              allocate_id_fresh (generated e.name)
                (λ id. get_equipment c.equipment campaign id w.equipment) max_attempts new made in
            (put, (i, from))

        at_item :
            (materialise c clean generated now campaign r body w)
            ≡ materialise_item c clean generated now campaign r body (some e) w
        at_item =
            ap
              (λ (b : Bool).
                if b
                then materialise_item c clean generated now campaign r body r.item_payload w
                else other)
              ((eq_iff r.target_type "item").1 t)
            ∙ ap (λ o. materialise_item c clean generated now campaign r body o w) p

    settle-equipment :
        (id user : String) (result : Checked String) (w' : Desk c)
        → (settle c clean generated now campaign id user "approved" result w').1.equipment
          ≡ w'.equipment
    settle-equipment id user (deny code message reason) w' = refl
    settle-equipment id user (pass new) w' = refl

    settle-IsDone :
        (id user : String) (e : CustomEquipment) (q : ContentRequest) (name : String)
        (o : Outcome × Desk c)
        → ((new : String) → o.0 ≡ live new → IsDone e new o.1)
        → (settle c clean generated now campaign id user "approved" (check_outcome o.0) o.1).0
          ≡ pass (q, name)
        → (new : String) × (d : ContentRequest) × (IsDone e new
            (settle c clean generated now campaign id user "approved" (check_outcome o.0) o.1).1)
          × (resolved now "approved" user new d ≡ q)
          × (c.requests.stored
                (settle c clean generated now campaign id user "approved"
                  (check_outcome o.0)
                  o.1).1.requests
                id
              ≡ some q)
    settle-IsDone id user e q name o entry h =
        let (new, d, same, here, scoped, made, put) =
          settle-pass c clean generated now campaign id user "approved" (check_outcome o.0) o.1 q
            name h in
        let ((free, at_new), named) = entry new (outcome_live o.0 new same) in
        (
          new,
          d,
          (
            (
              free,
              ap (λ db. c.equipment.stored db new)
                    (settle-equipment id user (check_outcome o.0) o.1)
                  ∙ at_new,
            ),
            named,
          ),
          made,
          put,
        )

    result_set :
        (status user new : String) (d q : ContentRequest)
        → (new == "") ≡ false
        → resolved now status user new d ≡ q
        → (q.status ≡ status) × (q.resolved_by_user_id ≡ user) × (q.result_id ≡ new)
    unfolding resolved
    result_set status user new d q named e = (
      ap (λ (x : ContentRequest). x.status) (sym e),
      ap (λ (x : ContentRequest). x.resolved_by_user_id) (sym e),
      ap (λ (x : ContentRequest). x.result_id) (sym e)
          ∙ ap (λ (b : Bool). if b then d.result_id else new) named,
    )

    -- Where generated ids are never empty and the approval of a request to create an item, whose
    -- checks have passed, is answered with success, a new entry is live under an id that was free:
    -- the proposal's content, its proposer as the creator, and the DM's visibility. The request is
    -- stored as approved by the caller, with that entry as its result.
    pub approve_checked-IsLive :
        (id : String) (m : CampaignMembership) (e : CustomEquipment) (q : ContentRequest)
        (name : String)
        → ((s : String) (i : ℕ) (new : String) → generated s i ≡ some new → (new == "") ≡ false)
        → is_edit_request r.kind ≡ false
        → r.target_type ≡ "item"
        → r.item_payload ≡ some e
        → (approve_checked c clean generated now campaign id (pass (m, r, body)) w).0
          ≡ pass (q, name)
        → (new : String) × (x : CustomEquipment) × (c.equipment.stored w.equipment new ≡ none)
          × (c.equipment.stored
                (approve_checked c clean generated now campaign id
                  (pass (m, r, body))
                  w).1.equipment
                new
              ≡ some x)
          × IsLive e new x
          × (c.requests.stored
                (approve_checked c clean generated now campaign id (pass (m, r, body)) w).1.requests
                id
              ≡ some q)
          × (q.status ≡ "approved")
          × (q.resolved_by_user_id ≡ m.user_id)
          × (q.result_id ≡ new)
    unfolding approve_checked live_item
    approve_checked-IsLive id m e q name named k t p h =
        let done : Outcome × Desk c = materialise c clean generated now campaign r body w in
        let edit : Outcome × Desk c = apply_edit c clean generated now campaign r body w in
        let (new, d, ((free, at_new), (i, from)), made, put) =
          settle-IsDone id m.user_id e q name (if is_edit_request r.kind then edit else done)
            (subst (λ o. (new : String) → o.0 ≡ live new → IsDone e new o.1)
              (sym (ap (λ (b : Bool). if b then edit else done) k))
              (λ new. materialise-IsDone e new t p))
            h in
        let (approved, by, result) =
          result_set "approved" m.user_id new d q (named e.name i new from) made in
        (
          new,
          live_item now campaign new r.proposed_by_user_id body e,
          free,
          at_new,
          (refl, refl, refl, refl, refl, refl, refl),
          put,
          approved,
          by,
          result,
        )
