-- ===== src/Requests/Moves.antt =====
-- What may happen to a request: the step relation of the moderation queue.
use rolebook_backend.Common.{
  String, ◌≡◌, sym, ◌∙◌, ap, true, false, Option, none, some, ◌⊎◌, arith, eq_iff,
}
use rolebook_backend.Http.{Checked, pass}
use rolebook_backend.Access.{CampaignMembership}
use rolebook_backend.Requests.{ContentRequest, can_resolve_request}

-- A decision: the new status, by whom and when; the result may be set, and the rest stays.
abbrev pub IsDecision : String → String → ContentRequest → ContentRequest → Type 0
IsDecision status user r q =
    (q.status ≡ status)
    × (q.resolved_by_user_id ≡ user)
    × (record q {
      status = r.status;
      resolved_at = r.resolved_at;
      resolved_by_user_id = r.resolved_by_user_id;
      result_id = r.result_id;
    }
        ≡ r)

-- An amendment: the content and the suggested visibility may be new, and the rest stays.
abbrev pub IsAmendment : ContentRequest → ContentRequest → Type 0
IsAmendment r q =
    record q {
      item_payload = r.item_payload;
      spell_payload = r.spell_payload;
      suggested_visibility_mode = r.suggested_visibility_mode;
      suggested_visible_player_ids = r.suggested_visible_player_ids;
    }
    ≡ r

-- A move of one request of the campaign, `none` where it does not exist, by a member `m` of it.
pub data Move (m : Checked CampaignMembership) (campaign : String)
    (before after : Option ContentRequest) : Type 0 where
  unmoved : after ≡ before → Move m campaign before after
  proposed :
      (by : CampaignMembership) (r : ContentRequest)
      → m ≡ pass by
      → before ≡ none
      → after ≡ some r
      → r.status ≡ "pending"
      → r.proposed_by_user_id ≡ by.user_id
      → r.campaign_id ≡ campaign
      → Move m campaign before after
  decided :
      (by : CampaignMembership) (r q : ContentRequest) (status : String)
      → m ≡ pass by
      → by.is_dm ≡ true
      → before ≡ some r
      → r.status ≡ "pending"
      → r.campaign_id ≡ campaign
      → (status ≡ "approved") ⊎ (status ≡ "denied")
      → IsDecision status by.user_id r q
      → after ≡ some q
      → Move m campaign before after
  amended :
      (by : CampaignMembership) (r q : ContentRequest)
      → m ≡ pass by
      → (by.is_dm ≡ true) ⊎ (r.proposed_by_user_id ≡ by.user_id)
      → before ≡ some r
      → r.status ≡ "pending"
      → r.campaign_id ≡ campaign
      → IsAmendment r q
      → after ≡ some q
      → Move m campaign before after
  withdrawn :
      (by : CampaignMembership) (r : ContentRequest)
      → m ≡ pass by
      → r.proposed_by_user_id ≡ by.user_id
      → before ≡ some r
      → r.status ≡ "pending"
      → r.campaign_id ≡ campaign
      → after ≡ none
      → Move m campaign before after

absurd_pending :
    {P : Type 0} (r q : ContentRequest)
    → some r ≡ some q
    → q.status ≡ "pending"
    → can_resolve_request r.status ≡ false
    → P
unfolding can_resolve_request
absurd_pending r q e p s =
    let same : r.status ≡ "pending" = ap status_of e ∙ p in
    ground (arith, eq_iff r.status "pending")
  where
    status_of : Option ContentRequest → String
    status_of none = ""
    status_of (some x) = x.status

-- A request that is no longer pending does not move.
pub Move-decided :
    {m : Checked CampaignMembership} {campaign : String} {before after : Option ContentRequest}
    (r : ContentRequest)
    → Move m campaign before after
    → before ≡ some r
    → can_resolve_request r.status ≡ false
    → after ≡ some r
unfolding can_resolve_request
Move-decided r (unmoved e) b s = e ∙ b
Move-decided r (proposed by q p none_before a q_pending owner scoped) b s = cc
Move-decided r (decided by q q' status p is_dm q_before q_pending scoped ok kept a) b s =
    absurd_pending r q (sym b ∙ q_before) q_pending s
Move-decided r (amended by q q' p allowed q_before q_pending scoped kept a) b s =
    absurd_pending r q (sym b ∙ q_before) q_pending s
Move-decided r (withdrawn by q p owner q_before q_pending scoped a) b s =
    absurd_pending r q (sym b ∙ q_before) q_pending s
