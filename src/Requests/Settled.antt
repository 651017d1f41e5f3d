-- ===== src/Requests/Settled.antt =====
-- What `Resolve` finds and leaves, behind Approve and Deny.
use rolebook_backend.Common.{
  ℕ, String, ◌≡◌, refl, true, ◌∙◌, ap, Bool, Option, none, some, if◌then◌else◌, eq_iff,
}
use rolebook_backend.Http.{Fetched, fetched, failed, Checked, pass, deny, pass_inj, >>=-eq-pass}
use mathlib.Core.Option
use rolebook_backend.Documents.{selected, changed, Inserted, inserted, duplicate, insert_failed}
use rolebook_backend.Documents.Laws.{at_same, changed_some, find_one_and_update-some}
use rolebook_backend.Requests.{
  ContentRequest, resolved, resolve_request, in_campaign, Collections, Desk,
}
use rolebook_backend.Requests.Decide.{
  Outcome, live, already_exists, target_gone, broken, created, check_updated, check_outcome, settle,
}

pub updated_found :
    (o : Fetched (Option ContentRequest)) (r : ContentRequest)
    → check_updated o ≡ pass r
    → o ≡ fetched (some r)
updated_found failed r e = cc
updated_found (fetched none) r e = cc
updated_found (fetched (some x)) r e = ap (λ y. fetched (some y)) (pass_inj e)

pub created-live :
    (reply : Inserted) (id new : String)
    → created reply id ≡ live new
    → (reply ≡ inserted) × (id ≡ new)
created-live inserted id new e = (refl, cc)
created-live duplicate id new e = cc
created-live insert_failed id new e = cc

pub outcome_live : (o : Outcome) (new : String) → check_outcome o ≡ pass new → o ≡ live new
outcome_live (live id) new e = ap live (pass_inj e)
outcome_live already_exists new e = cc
outcome_live target_gone new e = cc
outcome_live broken new e = cc

module _ (c : Collections) (clean : String → String) (generated : String → ℕ → Option String)
    (now : ℕ) where
  -- A settled request was stored, whatever its status was by then, and is now resolved as asked.
  pub settle-pass :
      (campaign id user status : String) (result : Checked String) (w : Desk c) (q : ContentRequest)
      (name : String)
      → (settle c clean generated now campaign id user status result w).0 ≡ pass (q, name)
      → (new : String) × (d : ContentRequest) × (result ≡ pass new)
        × (c.requests.stored w.requests id ≡ some d)
        × (d.campaign_id ≡ campaign)
        × (resolved now status user new d ≡ q)
        × (c.requests.stored
              (settle c clean generated now campaign id user status result w).1.requests
              id
            ≡ some q)
  unfolding resolve_request
  settle-pass campaign id user status (deny code message reason) w q name e = cc
  settle-pass campaign id user status (pass new) w q name e =
      let (r, e1, k) = >>=-eq-pass (check_updated _) _ e in
      let same : r ≡ q = ap (λ (x : ContentRequest × String). x.0) (pass_inj k) in
      let (d, here, scoped, made, put) =
        find_one_and_update-some c.requests id (in_campaign campaign) (resolved now status user new)
          w.requests r (updated_found _ r e1) in
      (
        new,
        d,
        refl,
        here,
        (eq_iff d.campaign_id campaign).0 scoped,
        made ∙ same,
        put ∙ ap some same,
      )

  -- The request that is found is resolved, whatever its status.
  pub settle_scoped :
      (campaign id user status : String) (w : Desk c) (d : ContentRequest)
      (o : Option ContentRequest)
      → c.requests.stored w.requests id ≡ some d
      → d.campaign_id ≡ campaign
      → (resolve_request c.requests now campaign id status user "" w.requests).0 ≡ fetched o
      → (o ≡ some (resolved now status user "" d))
        × (c.requests.stored
              (resolve_request c.requests now campaign id status user "" w.requests).1
              id
            ≡ some (resolved now status user "" d))
  unfolding resolve_request
  settle_scoped campaign id user status w d o here scoped answered =
      let test : ContentRequest → Bool = in_campaign campaign in
      let f : ContentRequest → ContentRequest = resolved now status user "" in
      let hit : test d ≡ true = (eq_iff d.campaign_id campaign).1 scoped in
      let (result, put) = c.requests.find_one_and_update_lem id test f w.requests o answered in
      (
        result
            ∙ ap (λ x. Option.map f (selected test x)) here
            ∙ ap (λ (b : Bool). Option.map f (if b then some d else none)) hit,
        put id
            ∙ at_same id (changed test f (c.requests.stored w.requests id))
                (c.requests.stored w.requests)
            ∙ ap (changed test f) here
            ∙ changed_some test f d hit,
      )
