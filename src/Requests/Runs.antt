-- ===== src/Requests/Runs.antt =====
-- The queue's handlers as one transition function, and its runs.
use rolebook_backend.Common.{
  ℕ, String, ◌≡◌, refl, sym, ap, true, false, Option, some, List, [], ◌∷◌, ◌⊎◌,
}
use rolebook_backend.Http.{Fetched, fetched, Checked, pass, deny, pass_inj, >>=-eq-pass}
use rolebook_backend.Access.{Campaign, CampaignMembership, resolve_campaign_membership}
use rolebook_backend.Catalog.{allocate_id, max_attempts}
use rolebook_backend.Requests.{
  ContentRequest, PendingEdit, edited, can_resolve_request, get_request, remove_request,
  update_payload, Collections, Desk,
}
use rolebook_backend.Requests.Propose.{
  decoded, check_proposal, check_edit_target, proposal_name, stamped, allocated, proposal,
  scrub_payload_for_proposal, insert_proposal, create_proposal,
}
use rolebook_backend.Requests.Decide.{ApproveBody, approve, deny_request}
use rolebook_backend.Requests.Manage.{
  check_withdrawal, check_edit, withdraw_checked, withdraw, edit_checked, edit_pending,
}
use rolebook_backend.Requests.Moves.{unmoved, proposed, amended, withdrawn, Move-decided}
use rolebook_backend.Requests.Steps.{check_withdrawal-pass, check_edit-pass}
use rolebook_backend.Requests.Queue.{
  Moved, update_Moved, remove_request-Moved, insert_Moved, approve-Moved, deny_request-Moved,
}

-- A request to one of the handlers that write, with the time of its arrival.
pub data Call : Type 0 where
  create_call :
      (now : ℕ) (campaigns : String → Fetched (Option Campaign)) (user campaign : String)
      (body : Option ContentRequest)
      → Call
  approve_call :
      (now : ℕ) (campaigns : String → Fetched (Option Campaign)) (user campaign id : String)
      (body : Option ApproveBody)
      → Call
  deny_call :
      (now : ℕ) (campaigns : String → Fetched (Option Campaign)) (user campaign id : String) → Call
  edit_call :
      (campaigns : String → Fetched (Option Campaign)) (user campaign id : String)
      (body : Option ContentRequest)
      → Call
  withdraw_call :
      (campaigns : String → Fetched (Option Campaign)) (user campaign id : String) → Call

abbrev pub call_member : Call → Checked CampaignMembership
call_member (create_call now campaigns user campaign body) =
    resolve_campaign_membership user (campaigns campaign)
call_member (approve_call now campaigns user campaign id body) =
    resolve_campaign_membership user (campaigns campaign)
call_member (deny_call now campaigns user campaign id) =
    resolve_campaign_membership user (campaigns campaign)
call_member (edit_call campaigns user campaign id body) =
    resolve_campaign_membership user (campaigns campaign)
call_member (withdraw_call campaigns user campaign id) =
    resolve_campaign_membership user (campaigns campaign)

abbrev pub call_campaign : Call → String
call_campaign (create_call now campaigns user campaign body) = campaign
call_campaign (approve_call now campaigns user campaign id body) = campaign
call_campaign (deny_call now campaigns user campaign id) = campaign
call_campaign (edit_call campaigns user campaign id body) = campaign
call_campaign (withdraw_call campaigns user campaign id) = campaign

module _ (c : Collections) (clean resolve_image : String → String)
    (generated : String → ℕ → Option String) where
  unfoldable pub serve : Call → Desk c → Desk c
  serve (create_call now campaigns user campaign body) w =
      (create_proposal c clean now generated (resolve_campaign_membership user (campaigns campaign))
        campaign body w).1
  serve (approve_call now campaigns user campaign id body) w =
      (approve c clean generated now (resolve_campaign_membership user (campaigns campaign))
        campaign id body w).1
  serve (deny_call now campaigns user campaign id) w =
      (deny_request c clean generated now (resolve_campaign_membership user (campaigns campaign))
        campaign id w).1
  serve (edit_call campaigns user campaign id body) w =
      (edit_pending c clean resolve_image (resolve_campaign_membership user (campaigns campaign))
        campaign id body w).1
  serve (withdraw_call campaigns user campaign id) w =
      (withdraw c (resolve_campaign_membership user (campaigns campaign)) campaign id w).1

  unfoldable pub serve_all : List Call → Desk c → Desk c
  serve_all [] w = w
  serve_all (call ∷ calls) w = serve_all calls (serve call w)

  proposal-pass :
      (now : ℕ) (membership : Checked CampaignMembership) (campaign : String)
      (body : Option ContentRequest) (w : Desk c) (r : ContentRequest)
      → proposal c clean now generated membership campaign body w ≡ pass r
      → (m : CampaignMembership) × (id : String) × (q : ContentRequest) × (membership ≡ pass m)
        × (stamped now campaign id m.user_id q ≡ r)
  unfolding proposal
  proposal-pass now membership campaign body w r e =
      let (m, e1, k1) = >>=-eq-pass membership _ e in
      let (sent, e2, k2) = >>=-eq-pass (decoded body) _ k1 in
      let (q, e3, k3) = >>=-eq-pass (check_proposal clean sent) _ k2 in
      let (u, e4, k4) = >>=-eq-pass (check_edit_target c clean m campaign q w) _ k3 in
      let (id, e5, k5) =
        >>=-eq-pass
          (allocated (
            allocate_id (generated (proposal_name q))
              (λ id. get_request c.requests campaign id w.requests) max_attempts))
          _ k4 in
      (m, id, q, e1, pass_inj k5)

  create_proposal-Moved :
      (now : ℕ) (membership : Checked CampaignMembership) (campaign : String)
      (body : Option ContentRequest) (w : Desk c)
      → Moved c membership campaign w
          (create_proposal c clean now generated membership campaign body w).1
  unfolding create_proposal insert_proposal stamped scrub_payload_for_proposal
  create_proposal-Moved now membership campaign body w =
      made (proposal c clean now generated membership campaign body w)
        (proposal-pass now membership campaign body w)
    where
      made :
          (checked : Checked ContentRequest)
          → ((r : ContentRequest)
              → checked ≡ pass r
              → (m : CampaignMembership) × (id : String) × (q : ContentRequest) × (membership
                  ≡ pass m)
                × (stamped now campaign id m.user_id q ≡ r))
          → Moved c membership campaign w (insert_proposal c clean campaign checked w).1
      made (deny status message code) h k = unmoved refl
      made (pass r) h k =
          let (m, id, q, p, s) = h r refl in
          insert_Moved c membership campaign w r
            (proposed m r p refl refl (ap (λ (x : ContentRequest). x.status) (sym s))
              (ap (λ (x : ContentRequest). x.proposed_by_user_id) (sym s))
              (ap (λ (x : ContentRequest). x.campaign_id) (sym s)))
            k

  withdraw-Moved :
      (membership : Checked CampaignMembership) (campaign id : String) (w : Desk c)
      → Moved c membership campaign w (withdraw c membership campaign id w).1
  unfolding withdraw remove_request
  withdraw-Moved membership campaign id w =
      gone (check_withdrawal membership (get_request c.requests campaign id w.requests))
        (check_withdrawal-pass membership _)
    where
      gone :
          (checked : Checked ContentRequest)
          → ((r : ContentRequest)
              → checked ≡ pass r
              → (m : CampaignMembership) × (membership ≡ pass m)
                × (r.proposed_by_user_id ≡ m.user_id)
                × (get_request c.requests campaign id w.requests ≡ fetched (some r))
                × (r.status ≡ "pending"))
          → Moved c membership campaign w (withdraw_checked c campaign id checked w).1
      gone (deny status message code) h k = unmoved refl
      gone (pass r) h k =
          let (m, p, by, g, s) = h r refl in
          remove_request-Moved c membership campaign id w r g
            (λ scoped. withdrawn m r p by refl s scoped refl) k

  edit_pending-Moved :
      (membership : Checked CampaignMembership) (campaign id : String)
      (body : Option ContentRequest) (w : Desk c)
      → Moved c membership campaign w
          (edit_pending c clean resolve_image membership campaign id body w).1
  unfolding edit_pending update_payload edited
  edit_pending-Moved membership campaign id body w =
      changed (check_edit clean membership (get_request c.requests campaign id w.requests) body)
        (check_edit-pass clean membership _ body)
    where
      changed :
          (checked : Checked PendingEdit)
          → ((fields : PendingEdit)
              → checked ≡ pass fields
              → (m : CampaignMembership) × (r : ContentRequest) × (membership ≡ pass m)
                × ((m.is_dm ≡ true) ⊎ (r.proposed_by_user_id ≡ m.user_id))
                × (get_request c.requests campaign id w.requests ≡ fetched (some r))
                × (r.status ≡ "pending"))
          → Moved c membership campaign w (edit_checked c resolve_image campaign id checked w).1
      changed (deny status message code) h k = unmoved refl
      changed (pass fields) h k =
          let (m, r, p, allowed, g, s) = h fields refl in
          update_Moved c membership campaign id (edited fields) w r g
            (λ scoped. amended m r _ p allowed refl s scoped refl refl) k

  -- A handler of the queue that is served with no other call in between leaves each stored request as
  -- it is or takes it along one move of the call's campaign that the caller's membership of it
  -- allows: a member proposes, pending and under their own name; the DM approves or denies a pending
  -- request, which keeps all but its status, its result and who decided it when; the DM or the
  -- proposer changes the content and the suggested visibility of a pending one; the proposer
  -- withdraws a pending one.
  pub serve-Moved :
      (call : Call) (w : Desk c) → Moved c (call_member call) (call_campaign call) w (serve call w)
  unfolding serve
  serve-Moved (create_call now campaigns user campaign body) w =
      create_proposal-Moved now (resolve_campaign_membership user (campaigns campaign)) campaign
        body w
  serve-Moved (approve_call now campaigns user campaign id body) w =
      approve-Moved c clean generated now (resolve_campaign_membership user (campaigns campaign))
        campaign id body w
  serve-Moved (deny_call now campaigns user campaign id) w =
      deny_request-Moved c clean generated now
        (resolve_campaign_membership user (campaigns campaign)) campaign id w
  serve-Moved (edit_call campaigns user campaign id body) w =
      edit_pending-Moved (resolve_campaign_membership user (campaigns campaign)) campaign id body w
  serve-Moved (withdraw_call campaigns user campaign id) w =
      withdraw-Moved (resolve_campaign_membership user (campaigns campaign)) campaign id w

  -- A request that has been decided stays exactly as it is through every run of calls that are served
  -- one after the other.
  pub serve_all_decided :
      (calls : List Call) (w : Desk c) (id : String) (r : ContentRequest)
      → c.requests.stored w.requests id ≡ some r
      → can_resolve_request r.status ≡ false
      → c.requests.stored (serve_all calls w).requests id ≡ some r
  unfolding serve_all
  serve_all_decided [] w id r e s = e
  serve_all_decided (call ∷ calls) w id r e s =
      serve_all_decided calls (serve call w) id r (Move-decided r (serve-Moved call w id) e s) s
