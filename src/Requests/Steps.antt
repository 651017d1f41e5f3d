-- ===== src/Requests/Steps.antt =====
-- Every handler of the queue takes every stored request along one step of the step relation.
use rolebook_backend.Common.{
  String, ◌≡◌, refl, sym, ◌∙◌, ap, Bool, true, false, not, ◌&&◌, Option, none, some, ◌==◌, ◌⊎◌, inl,
  inr, eq_iff,
}
use mathlib.Core.Path.{subst}
use rolebook_backend.Http.{
  Fetched, fetched, failed, Checked, pass, deny, pass_inj, >>=-eq-pass, >>-eq-pass,
}
use rolebook_backend.Access.{CampaignMembership}
use rolebook_backend.Documents.{at}
use rolebook_backend.Documents.Laws.{at_cases}
use rolebook_backend.Requests.{
  ContentRequest, PendingEdit, can_resolve_request, can_withdraw_request,
}
use rolebook_backend.Requests.Propose.{decoded}
use rolebook_backend.Requests.Decide.{ApproveBody, check_existing, check_approval, check_denial}
use rolebook_backend.Requests.Manage.{check_withdrawal, check_edit}

-- What one of the writes by `_id` does to a document is what it does to any.
pub by_id :
    (P : Option ContentRequest → Option ContentRequest → Type 0)
    (before after : String → Option ContentRequest) (id : String) (o : Option ContentRequest)
    → ((r : Option ContentRequest) → P r r)
    → P (before id) o
    → (((k : String) → after k ≡ before k) ⊎ ((k : String) → after k ≡ at id o before k))
    → (k : String) → P (before k) (after k)
by_id P before after id o stay move (inl same) k =
    subst (λ x. P (before k) x) (sym (same k)) (stay (before k))
by_id P before after id o stay move (inr put) k = elim (at_cases id k o before) [
  | inl (here, e) ↦
      subst (λ x. P (before k) x) (sym (put k ∙ e)) (subst (λ j. P (before j) o) (sym here) move)
  | inr e ↦ subst (λ x. P (before k) x) (sym (put k ∙ e)) (stay (before k))
]

existing_found :
    (o : Fetched (Option ContentRequest)) (r : ContentRequest)
    → check_existing o ≡ pass r
    → o ≡ fetched (some r)
existing_found failed r e = cc
existing_found (fetched none) r e = cc
existing_found (fetched (some x)) r e = ap found e
  where
    found : Checked ContentRequest → Fetched (Option ContentRequest)
    found (deny status message code) = failed
    found (pass y) = fetched (some y)

pub not_denied : (b : Bool) → not b ≡ false → b ≡ true
not_denied true e = refl
not_denied false e = cc

pub still_pending :
    (r : ContentRequest) → can_resolve_request r.status ≡ true → r.status ≡ "pending"
unfolding can_resolve_request
still_pending r e = (eq_iff r.status "pending").0 e

-- What an accepted approval has read.
pub check_approval-pass :
    (clean : String → String) (membership : Checked CampaignMembership)
    (existing : Fetched (Option ContentRequest)) (sent : Option ApproveBody)
    (m : CampaignMembership) (r : ContentRequest) (body : ApproveBody)
    → check_approval clean membership existing sent ≡ pass (m, r, body)
    → (membership ≡ pass m)
      × (m.is_dm ≡ true)
      × (existing ≡ fetched (some r))
      × (r.status ≡ "pending")
unfolding check_approval
check_approval-pass clean membership existing sent m r body e =
    let (m1, e1, k1) = >>=-eq-pass membership _ e in
    let (d1, k2) = >>-eq-pass (not m1.is_dm) _ _ _ _ k1 in
    let (r1, e2, k3) = >>=-eq-pass (check_existing existing) _ k2 in
    let (d2, k4) = >>-eq-pass (not (can_resolve_request r1.status)) _ _ _ _ k3 in
    let (b1, e3, k5) = >>=-eq-pass (decoded sent) _ k4 in
    let (d3, k6) = >>-eq-pass _ _ _ _ _ k5 in
    let same : (m1, r1, _) ≡ (m, r, body) = pass_inj k6 in
    let member : m1 ≡ m =
      ap (λ (x : CampaignMembership × ContentRequest × ApproveBody). x.0) same in
    let request : r1 ≡ r =
      ap (λ (x : CampaignMembership × ContentRequest × ApproveBody). x.1) same in
    (
      e1 ∙ ap pass member,
      ap (λ (x : CampaignMembership). x.is_dm) (sym member) ∙ not_denied _ d1,
      existing_found existing r1 e2 ∙ ap (λ x. fetched (some x)) request,
      ap (λ (x : ContentRequest). x.status) (sym request) ∙ still_pending r1 (not_denied _ d2),
    )

pub check_denial-pass :
    (membership : Checked CampaignMembership) (existing : Fetched (Option ContentRequest))
    (m : CampaignMembership) (r : ContentRequest)
    → check_denial membership existing ≡ pass (m, r)
    → (membership ≡ pass m)
      × (m.is_dm ≡ true)
      × (existing ≡ fetched (some r))
      × (r.status ≡ "pending")
unfolding check_denial
check_denial-pass membership existing m r e =
    let (m1, e1, k1) = >>=-eq-pass membership _ e in
    let (d1, k2) = >>-eq-pass (not m1.is_dm) _ _ _ _ k1 in
    let (r1, e2, k3) = >>=-eq-pass (check_existing existing) _ k2 in
    let (d2, k4) = >>-eq-pass (not (can_resolve_request r1.status)) _ _ _ _ k3 in
    let same : (m1, r1) ≡ (m, r) = pass_inj k4 in
    let member : m1 ≡ m = ap (λ (x : CampaignMembership × ContentRequest). x.0) same in
    let request : r1 ≡ r = ap (λ (x : CampaignMembership × ContentRequest). x.1) same in
    (
      e1 ∙ ap pass member,
      ap (λ (x : CampaignMembership). x.is_dm) (sym member) ∙ not_denied _ d1,
      existing_found existing r1 e2 ∙ ap (λ x. fetched (some x)) request,
      ap (λ (x : ContentRequest). x.status) (sym request) ∙ still_pending r1 (not_denied _ d2),
    )

pub check_withdrawal-pass :
    (membership : Checked CampaignMembership) (existing : Fetched (Option ContentRequest))
    (r : ContentRequest)
    → check_withdrawal membership existing ≡ pass r
    → (m : CampaignMembership) × (membership ≡ pass m)
      × (r.proposed_by_user_id ≡ m.user_id)
      × (existing ≡ fetched (some r))
      × (r.status ≡ "pending")
unfolding check_withdrawal can_withdraw_request
check_withdrawal-pass membership existing r e =
    let (m, e1, k1) = >>=-eq-pass membership _ e in
    let (r1, e2, k2) = >>=-eq-pass (check_existing existing) _ k1 in
    let (d1, k3) = >>-eq-pass (not (r1.proposed_by_user_id == m.user_id)) _ _ _ _ k2 in
    let (d2, k4) = >>-eq-pass (not (r1.status == "pending")) _ _ _ _ k3 in
    let request : r1 ≡ r = pass_inj k4 in
    (
      m,
      e1,
      ap (λ (x : ContentRequest). x.proposed_by_user_id) (sym request)
          ∙ (eq_iff r1.proposed_by_user_id m.user_id).0 (not_denied _ d1),
      existing_found existing r1 e2 ∙ ap (λ x. fetched (some x)) request,
      ap (λ (x : ContentRequest). x.status) (sym request)
          ∙ (eq_iff r1.status "pending").0 (not_denied _ d2),
    )

dm_or_proposer :
    (is_dm : Bool) (by user : String)
    → (not is_dm && not (by == user)) ≡ false
    → (is_dm ≡ true) ⊎ (by ≡ user)
dm_or_proposer true by user e = inl refl
dm_or_proposer false by user e = inr ((eq_iff by user).0 (not_denied _ e))

pub check_edit-pass :
    (clean : String → String) (membership : Checked CampaignMembership)
    (existing : Fetched (Option ContentRequest)) (sent : Option ContentRequest)
    (fields : PendingEdit)
    → check_edit clean membership existing sent ≡ pass fields
    → (m : CampaignMembership) × (r : ContentRequest) × (membership ≡ pass m)
      × ((m.is_dm ≡ true) ⊎ (r.proposed_by_user_id ≡ m.user_id))
      × (existing ≡ fetched (some r))
      × (r.status ≡ "pending")
unfolding check_edit
check_edit-pass clean membership existing sent fields e =
    let (m, e1, k1) = >>=-eq-pass membership _ e in
    let (r, e2, k2) = >>=-eq-pass (check_existing existing) _ k1 in
    let (d1, k3) =
      >>-eq-pass (not m.is_dm && not (r.proposed_by_user_id == m.user_id)) _ _ _ _ k2 in
    let (d2, k4) = >>-eq-pass (not (can_resolve_request r.status)) _ _ _ _ k3 in
    (
      m,
      r,
      e1,
      dm_or_proposer m.is_dm r.proposed_by_user_id m.user_id d1,
      existing_found existing r e2,
      still_pending r (not_denied _ d2),
    )
