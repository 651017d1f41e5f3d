-- ===== src/Requests/Proposals.antt =====
-- What an accepted proposal looks like when it enters the queue.
use rolebook_backend.Common.{
  ℕ, String, ◌≡◌, refl, sym, ◌∙◌, ap, true, false, not, ◌&&◌, Option, none, some, ◌==◌,
}
use mathlib.Core.Path.{subst}
use rolebook_backend.Http.{Checked, pass, deny, pass_inj, >>=-eq-pass, >>-eq-pass}
use rolebook_backend.Access.{CampaignMembership}
use rolebook_backend.Sharing.{normalize_visibility_mode, is_valid_visibility_mode}
use rolebook_backend.Documents.{Inserted, inserted, duplicate, insert_failed}
use rolebook_backend.Documents.Laws.{at_same}
use rolebook_backend.Catalog.{CustomEquipment, CustomSpell, allocate_id, max_attempts}
use rolebook_backend.Requests.{
  ContentRequest, is_valid_request_target, is_valid_request_kind, get_request, Collections, Desk,
}
use rolebook_backend.Requests.Propose.{
  item_unnamed, item_uncategorized, spell_unnamed, decoded, proposal_name,
  scrub_payload_for_proposal, kind_of, check_proposal, check_edit_target, allocated, stamped,
  check_created, proposal, insert_proposal, create_proposal, scrubbed, scrubbed_spell,
}
use rolebook_backend.Requests.Steps.{not_denied}

-- The fields that an approval will need are there.
pub record IsComplete (r : ContentRequest) : Type 0 where
  pub target : is_valid_request_target r.target_type ≡ true
  pub named : (r.target_type == "item" && item_unnamed r.item_payload) ≡ false
  pub categorized : (r.target_type == "item" && item_uncategorized r.item_payload) ≡ false
  pub spell_named : (r.target_type == "spell" && spell_unnamed r.spell_payload) ≡ false
  pub mode : is_valid_visibility_mode r.suggested_visibility_mode ≡ true
  pub kind : is_valid_request_kind r.kind ≡ true

check_proposal-IsComplete :
    (clean : String → String) (sent r : ContentRequest)
    → check_proposal clean sent ≡ pass r
    → IsComplete r
unfolding check_proposal
check_proposal-IsComplete clean sent r e =
    let (d1, k1) = >>-eq-pass (not (is_valid_request_target sent.target_type)) _ _ _ _ e in
    let (d2, k2) =
      >>-eq-pass (sent.target_type == "item" && item_unnamed sent.item_payload) _ _ _ _ k1 in
    let (d3, k3) =
      >>-eq-pass (sent.target_type == "item" && item_uncategorized sent.item_payload) _ _ _ _ k2 in
    let (d4, k4) =
      >>-eq-pass (sent.target_type == "spell" && spell_unnamed sent.spell_payload) _ _ _ _ k3 in
    let (d5, k5) =
      >>-eq-pass
        (not (
          is_valid_visibility_mode
            (normalize_visibility_mode clean sent.suggested_visibility_mode)))
        _ _ _ _ k4 in
    let (d6, k6) = >>-eq-pass (not (is_valid_request_kind (kind_of sent.kind))) _ _ _ _ k5 in
    subst IsComplete (pass_inj k6) (record {
      target = not_denied _ d1;
      named = d2;
      categorized = d3;
      spell_named = d4;
      mode = not_denied _ d5;
      kind = not_denied _ d6;
    })

-- Scrubbing and stamping leave the content as it is.
stamped-IsComplete :
    (now : ℕ) (campaign id user : String) (q : ContentRequest)
    → IsComplete q
    → IsComplete (stamped now campaign id user q)
unfolding stamped scrub_payload_for_proposal
stamped-IsComplete now campaign id user q h = record {
  target = h.target;
  named = ap (λ b. q.target_type == "item" && b) (name q.item_payload) ∙ h.named;
  categorized = ap (λ b. q.target_type == "item" && b) (category q.item_payload) ∙ h.categorized;
  spell_named = ap (λ b. q.target_type == "spell" && b) (spell q.spell_payload) ∙ h.spell_named;
  mode = h.mode;
  kind = h.kind;
}
  where
    name : (o : Option CustomEquipment) → item_unnamed (scrubbed o) ≡ item_unnamed o
    name none = refl
    name (some e) = refl

    category : (o : Option CustomEquipment) → item_uncategorized (scrubbed o) ≡ item_uncategorized o
    category none = refl
    category (some e) = refl

    spell : (o : Option CustomSpell) → spell_unnamed (scrubbed_spell o) ≡ spell_unnamed o
    spell none = refl
    spell (some s) = refl

created_inserted :
    {A : Type 0} (reply : Inserted) (a b : A)
    → check_created reply a ≡ pass b
    → (reply ≡ inserted) × (a ≡ b)
created_inserted inserted a b e = (refl, pass_inj e)
created_inserted duplicate a b e = cc
created_inserted insert_failed a b e = cc

module _ (c : Collections) (clean : String → String) (now : ℕ)
    (generated : String → ℕ → Option String) (membership : Checked CampaignMembership)
    (campaign : String) (body : Option ContentRequest) (w : Desk c) where
  proposal-IsComplete :
      (r : ContentRequest)
      → proposal c clean now generated membership campaign body w ≡ pass r
      → IsComplete r × (r.status ≡ "pending") × (r.campaign_id ≡ campaign)
  unfolding proposal stamped scrub_payload_for_proposal
  proposal-IsComplete r e =
      let (m, e1, k1) = >>=-eq-pass membership _ e in
      let (sent, e2, k2) = >>=-eq-pass (decoded body) _ k1 in
      let (q, e3, k3) = >>=-eq-pass (check_proposal clean sent) _ k2 in
      let (u, e4, k4) = >>=-eq-pass (check_edit_target c clean m campaign q w) _ k3 in
      let (id, e5, k5) =
        >>=-eq-pass
          (allocated (
            allocate_id (generated (proposal_name q))
              (λ id. get_request c.requests campaign id w.requests) max_attempts))
          _ k4 in
      (
        subst IsComplete (pass_inj k5) (
            stamped-IsComplete now campaign id m.user_id q
              (check_proposal-IsComplete clean sent q e3)),
        ap (λ (x : ContentRequest). x.status) (sym (pass_inj k5)),
        ap (λ (x : ContentRequest). x.campaign_id) (sym (pass_inj k5)),
      )

  -- A proposal that is answered with success is stored under an id that no request had, pending and in
  -- the campaign, with a valid target, kind and mode and with the names that its approval needs.
  pub create_proposal-IsComplete :
      (r : ContentRequest) (name : String)
      → (create_proposal c clean now generated membership campaign body w).0 ≡ pass (r, name)
      → IsComplete r
        × (r.status ≡ "pending")
        × (r.campaign_id ≡ campaign)
        × (c.requests.stored w.requests r.id ≡ none)
        × (c.requests.stored
              (create_proposal c clean now generated membership campaign body w).1.requests
              r.id
            ≡ some r)
  unfolding create_proposal insert_proposal
  create_proposal-IsComplete r name =
      stored (proposal c clean now generated membership campaign body w) proposal-IsComplete
    where
      stored :
          (checked : Checked ContentRequest)
          → ((x : ContentRequest)
              → checked ≡ pass x
              → IsComplete x × (x.status ≡ "pending") × (x.campaign_id ≡ campaign))
          → (insert_proposal c clean campaign checked w).0 ≡ pass (r, name)
          → IsComplete r
            × (r.status ≡ "pending")
            × (r.campaign_id ≡ campaign)
            × (c.requests.stored w.requests r.id ≡ none)
            × (c.requests.stored (insert_proposal c clean campaign checked w).1.requests r.id
                ≡ some r)
      stored (deny status message code) h e = cc
      stored (pass x) h e =
          let (ok, pair) = created_inserted (c.requests.insert_one x.id x w.requests).0 _ _ e in
          let same : x ≡ r = ap (λ (y : ContentRequest × String). y.0) pair in
          let (free, put) = c.requests.insert_one_lem x.id x w.requests ok in
          let (whole, pending, here) = h x refl in
          subst
            (λ y.
              IsComplete y
              × (y.status ≡ "pending")
              × (y.campaign_id ≡ campaign)
              × (c.requests.stored w.requests y.id ≡ none)
              × (c.requests.stored (c.requests.insert_one x.id x w.requests).1 y.id ≡ some y))
            same
            (
              whole,
              pending,
              here,
              free,
              put x.id ∙ at_same x.id (some x) (c.requests.stored w.requests),
            )
