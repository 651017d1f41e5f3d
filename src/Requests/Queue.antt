-- ===== src/Requests/Queue.antt =====
-- The calls of the queue's handlers as one type, and runs of them one after the other.
use rolebook_backend.Common.{
  ℕ, String, ◌≡◌, refl, sym, ◌∙◌, ap, Bool, true, false, Option, none, some, List, ◌==◌,
  if◌then◌else◌, ◌⊎◌, inl, inr, eq_iff,
}
use mathlib.Core.Path.{subst}
use rolebook_backend.Http.{Fetched, fetched, failed, Checked, pass, deny}
use rolebook_backend.Access.{CampaignMembership}
use rolebook_backend.Documents.{changed, unless_matched}
use rolebook_backend.Documents.Laws.{changed_some, kept_some, find_one-some}
use rolebook_backend.Catalog.{CustomEquipment, CustomSpell}
use rolebook_backend.Requests.{
  ContentRequest, resolved, is_edit_request, in_campaign, get_request, resolve_request, Collections,
  Desk,
}
use rolebook_backend.Requests.Decide.{
  ApproveBody, Outcome, broken, check_approval, check_denial, settle, approve_checked, deny_checked,
  approve, deny_request, materialise, apply_edit, check_outcome, insert_item, insert_spell,
  materialise_item, materialise_spell, cascade_item, cascade_spell, edited_item, edited_spell,
  edit_item, edit_spell,
}
use rolebook_backend.Requests.Moves.{Move, unmoved, decided}
use rolebook_backend.Requests.Steps.{by_id, check_approval-pass, check_denial-pass}

module _ (c : Collections) where
  -- Every stored request has made a move of the member in the campaign.
  abbrev pub Moved : Checked CampaignMembership → String → Desk c → Desk c → Type 0
  Moved m campaign w w' =
      (k : String)
      → Move m campaign (c.requests.stored w.requests k) (c.requests.stored w'.requests k)

  found :
      (campaign id : String) (w : Desk c) (r : ContentRequest)
      → get_request c.requests campaign id w.requests ≡ fetched (some r)
      → (c.requests.stored w.requests id ≡ some r) × (in_campaign campaign r ≡ true)
  found campaign id w r g = find_one-some c.requests id (in_campaign campaign) w.requests r g

  -- A write that takes the request it found along a move takes every request along one.
  pub update_Moved :
      (m : Checked CampaignMembership) (campaign id : String) (f : ContentRequest → ContentRequest)
      (w : Desk c) (r : ContentRequest)
      → get_request c.requests campaign id w.requests ≡ fetched (some r)
      → (r.campaign_id ≡ campaign → Move m campaign (some r) (some (f r)))
      → Moved m campaign w (record w {
        requests = (c.requests.find_one_and_update id (in_campaign campaign) f w.requests).1;
      })
  update_Moved m campaign id f w r g move =
      let (here, scoped) = found campaign id w r g in
      by_id (Move m campaign) _ _ id _ (λ o. unmoved refl)
        (subst (λ o. Move m campaign o (changed (in_campaign campaign) f o)) (sym here)
          (subst (Move m campaign (some r)) (sym (changed_some (in_campaign campaign) f r scoped))
            (move ((eq_iff r.campaign_id campaign).0 scoped))))
        (c.requests.find_one_and_update_stored id (in_campaign campaign) f w.requests)

  pub remove_request-Moved :
      (m : Checked CampaignMembership) (campaign id : String) (w : Desk c) (r : ContentRequest)
      → get_request c.requests campaign id w.requests ≡ fetched (some r)
      → (r.campaign_id ≡ campaign → Move m campaign (some r) none)
      → Moved m campaign w
          (record w { requests = (c.requests.delete_one id (in_campaign campaign) w.requests).1 })
  remove_request-Moved m campaign id w r g move =
      let (here, scoped) = found campaign id w r g in
      by_id (Move m campaign) _ _ id _ (λ o. unmoved refl)
        (subst (λ o. Move m campaign o (unless_matched (in_campaign campaign) o)) (sym here)
          (subst (Move m campaign (some r)) (sym (kept_some (in_campaign campaign) r scoped))
            (move ((eq_iff r.campaign_id campaign).0 scoped))))
        (c.requests.delete_one_stored id (in_campaign campaign) w.requests)

  pub insert_Moved :
      (m : Checked CampaignMembership) (campaign : String) (w : Desk c) (r : ContentRequest)
      → Move m campaign none (some r)
      → Moved m campaign w (record w { requests = (c.requests.insert_one r.id r w.requests).1 })
  insert_Moved m campaign w r move k = elim (c.requests.insert_one_stored r.id r w.requests) [
    | inl same ↦ unmoved (same k)
    | inr (fresh, put) ↦
        by_id (Move m campaign) _ _ r.id _ (λ o. unmoved refl)
          (subst (λ o. Move m campaign o (some r)) (sym fresh) move) (inr put) k
  ]

  module _ (clean : String → String) (generated : String → ℕ → Option String) (now : ℕ) where
    settle-Moved :
        (membership : Checked CampaignMembership) (m : CampaignMembership)
        (campaign id status : String) (result : Checked String) (w : Desk c) (r : ContentRequest)
        → membership ≡ pass m
        → m.is_dm ≡ true
        → get_request c.requests campaign id w.requests ≡ fetched (some r)
        → r.status ≡ "pending"
        → (status ≡ "approved") ⊎ (status ≡ "denied")
        → Moved membership campaign w
            (settle c clean generated now campaign id m.user_id status result w).1
    unfolding resolve_request resolved
    settle-Moved membership m campaign id status (deny code message reason) w r p d g s ok k =
        unmoved refl
    settle-Moved membership m campaign id status (pass result) w r p d g s ok k =
        update_Moved membership campaign id (resolved now status m.user_id result) w r g
          (λ scoped. decided m r _ status p d refl s scoped ok (refl, refl, refl) refl) k

    -- An approval writes to the catalog and the sheets before it settles the request.
    either_requests :
        (b : Bool) (x y : Outcome × Desk c) (db : c.requests.Db)
        → x.1.requests ≡ db
        → y.1.requests ≡ db
        → (if b then x else y).1.requests ≡ db
    either_requests true x y db p q = p
    either_requests false x y db p q = q

    materialise-requests :
        (campaign : String) (r : ContentRequest) (body : ApproveBody) (w : Desk c)
        → (materialise c clean generated now campaign r body w).1.requests ≡ w.requests
    unfolding materialise
    materialise-requests campaign r body w =
        either_requests (r.target_type == "item")
          (materialise_item c clean generated now campaign r body r.item_payload w)
          (materialise_spell c clean generated now campaign r body r.spell_payload w) w.requests
          (item r.item_payload) (spell r.spell_payload)
      where
        inserted_item :
            (id : Option String) (e : CustomEquipment)
            → (insert_item c clean generated now id campaign r body e w).1.requests ≡ w.requests
        inserted_item none e = refl
        inserted_item (some id) e = refl

        inserted_spell :
            (id : Option String) (s : CustomSpell)
            → (insert_spell c clean generated now id campaign r body s w).1.requests ≡ w.requests
        inserted_spell none s = refl
        inserted_spell (some id) s = refl

        item :
            (o : Option CustomEquipment)
            → (materialise_item c clean generated now campaign r body o w).1.requests ≡ w.requests
        item none = refl
        item (some e) = inserted_item _ e

        spell :
            (o : Option CustomSpell)
            → (materialise_spell c clean generated now campaign r body o w).1.requests ≡ w.requests
        spell none = refl
        spell (some s) = inserted_spell _ s

    apply_edit-requests :
        (campaign : String) (r : ContentRequest) (body : ApproveBody) (w : Desk c)
        → (apply_edit c clean generated now campaign r body w).1.requests ≡ w.requests
    unfolding apply_edit
    apply_edit-requests campaign r body w =
        let edit_of_item =
          edit_item c clean generated now campaign r.result_id body r.item_payload w in
        let edit_of_spell =
          edit_spell c clean generated now campaign r.result_id body r.spell_payload w in
        either_requests (r.result_id == "") (broken, w)
          (if r.target_type == "item" then edit_of_item else edit_of_spell) w.requests refl
          (either_requests (r.target_type == "item") edit_of_item edit_of_spell w.requests
            (item r.item_payload) (spell r.spell_payload))
      where
        pulled_item :
            (allowed : Option (List String)) (v : Desk c)
            → (cascade_item c clean generated now campaign r.result_id allowed v).requests
              ≡ v.requests
        pulled_item none v = refl
        pulled_item (some ids) v = refl

        pulled_spell :
            (allowed : Option (List String)) (v : Desk c)
            → (cascade_spell c clean generated now campaign r.result_id allowed v).requests
              ≡ v.requests
        pulled_spell none v = refl
        pulled_spell (some ids) v = refl

        after_item :
            (o : Fetched (Option CustomEquipment)) (v : Desk c)
            → (edited_item c clean generated now campaign r.result_id o v).1.requests ≡ v.requests
        after_item failed v = refl
        after_item (fetched none) v = refl
        after_item (fetched (some e)) v = pulled_item _ v

        after_spell :
            (o : Fetched (Option CustomSpell)) (v : Desk c)
            → (edited_spell c clean generated now campaign r.result_id o v).1.requests ≡ v.requests
        after_spell failed v = refl
        after_spell (fetched none) v = refl
        after_spell (fetched (some e)) v = pulled_spell _ v

        item :
            (o : Option CustomEquipment)
            → (edit_item c clean generated now campaign r.result_id body o w).1.requests
              ≡ w.requests
        item none = refl
        item (some p) = after_item _ _

        spell :
            (o : Option CustomSpell)
            → (edit_spell c clean generated now campaign r.result_id body o w).1.requests
              ≡ w.requests
        spell none = refl
        spell (some p) = after_spell _ _

    -- The catalog's part of an approval leaves the queue as it is.
    settle_after-Moved :
        (membership : Checked CampaignMembership) (m : CampaignMembership) (campaign id : String)
        (w : Desk c) (r : ContentRequest) (o : Outcome × Desk c)
        → o.1.requests ≡ w.requests
        → membership ≡ pass m
        → m.is_dm ≡ true
        → get_request c.requests campaign id w.requests ≡ fetched (some r)
        → r.status ≡ "pending"
        → Moved membership campaign w
            (settle c clean generated now campaign id m.user_id "approved"
              (check_outcome o.0)
              o.1).1
    settle_after-Moved membership m campaign id w r o same p d g s k =
        subst
          (λ db. Move membership campaign (c.requests.stored db k) (
            c.requests.stored
              (settle c clean generated now campaign id m.user_id "approved" (check_outcome o.0)
                o.1).1.requests
              k))
          same
          (settle-Moved membership m campaign id "approved" (check_outcome o.0) o.1 r p d
            (ap (get_request c.requests campaign id) same ∙ g) s (inl refl) k)

    pub approve-Moved :
        (membership : Checked CampaignMembership) (campaign id : String) (body : Option ApproveBody)
        (w : Desk c)
        → Moved membership campaign w
            (approve c clean generated now membership campaign id body w).1
    unfolding approve approve_checked
    approve-Moved membership campaign id body w =
        approved
          (check_approval clean membership (get_request c.requests campaign id w.requests) body)
          (λ m r b e. check_approval-pass clean membership _ body m r b e)
      where
        approved :
            (checked : Checked (CampaignMembership × ContentRequest × ApproveBody))
            → ((m : CampaignMembership) (r : ContentRequest) (b : ApproveBody)
                → checked ≡ pass (m, r, b)
                → (membership ≡ pass m)
                  × (m.is_dm ≡ true)
                  × (get_request c.requests campaign id w.requests ≡ fetched (some r))
                  × (r.status ≡ "pending"))
            → Moved membership campaign w
                (approve_checked c clean generated now campaign id checked w).1
        approved (deny code message reason) h k = unmoved refl
        approved (pass (m, r, b)) h k =
            let (p, d, g, s) = h m r b refl in
            settle_after-Moved membership m campaign id w r
              (if is_edit_request r.kind
                then apply_edit c clean generated now campaign r b w
                else materialise c clean generated now campaign r b w)
              (either_requests (is_edit_request r.kind)
                (apply_edit c clean generated now campaign r b w)
                (materialise c clean generated now campaign r b w) w.requests
                (apply_edit-requests campaign r b w) (materialise-requests campaign r b w))
              p d g s k

    pub deny_request-Moved :
        (membership : Checked CampaignMembership) (campaign id : String) (w : Desk c)
        → Moved membership campaign w
            (deny_request c clean generated now membership campaign id w).1
    unfolding deny_request deny_checked
    deny_request-Moved membership campaign id w =
        denied (check_denial membership (get_request c.requests campaign id w.requests))
          (λ m r e. check_denial-pass membership _ m r e)
      where
        denied :
            (checked : Checked (CampaignMembership × ContentRequest))
            → ((m : CampaignMembership) (r : ContentRequest)
                → checked ≡ pass (m, r)
                → (membership ≡ pass m)
                  × (m.is_dm ≡ true)
                  × (get_request c.requests campaign id w.requests ≡ fetched (some r))
                  × (r.status ≡ "pending"))
            → Moved membership campaign w
                (deny_checked c clean generated now campaign id checked w).1
        denied (deny code message reason) h k = unmoved refl
        denied (pass (m, r)) h k =
            let (p, d, g, s) = h m r refl in
            settle-Moved membership m campaign id "denied" (pass "") w r p d g s (inr refl) k
