-- ===== src/Access.antt =====
-- internal/handler/access.go and the member types of internal/model/campaign.go: who may do what in
-- a campaign. The store's reads are given by their results; of a campaign and a player only what
-- the access rules read is kept.
pub mod Laws
use rolebook_backend.Common.{
  String, Bool, true, false, not, ◌&&◌, Option, none, some, List, [], ◌∷◌, ◌==◌, if◌then◌else◌,
}
use rolebook_backend.Http.{
  Fetched, fetched, failed, Checked, pass, deny, deny_if, deny_internal, ◌>>=◌, ◌>>◌,
}

pub data Role : Type 0 where
  dm player : Role

pub record CampaignMember : Type 0 where
  pub user_id : String
  pub player_id : String
  pub role : Role
  pub is_active : Bool

pub record Campaign : Type 0 where
  pub id : String
  pub members : List CampaignMember

abbrev pub is_dm_role : Role → Bool
is_dm_role dm = true
is_dm_role player = false

first_member : String → List CampaignMember → Option CampaignMember
first_member user [] = none
first_member user (m ∷ ms) = if m.user_id == user then some m else first_member user ms

unfoldable pub find_member : Campaign → String → Option CampaignMember
unfolding first_member
find_member c user = first_member user c.members

pub record CampaignMembership : Type 0 where
  pub campaign : Campaign
  pub is_dm : Bool
  pub is_member : Bool
  pub user_id : String
  pub player_id : String

membership_of : String → Campaign → Option CampaignMember → Checked CampaignMembership
membership_of user c none = deny 404 "campaign not found" "NOT_FOUND"
membership_of user c (some m) = pass (record {
  campaign = c;
  is_dm = is_dm_role m.role;
  is_member = true;
  user_id = user;
  player_id = m.player_id;
})

unfoldable pub resolve_campaign_membership :
    String → Fetched (Option Campaign) → Checked CampaignMembership
unfolding membership_of
resolve_campaign_membership user failed = deny_internal
resolve_campaign_membership user (fetched none) = deny 404 "campaign not found" "NOT_FOUND"
resolve_campaign_membership user (fetched (some c)) = membership_of user c (find_member c user)

-- The fields of a player that access depends on.
pub record PlayerRef : Type 0 where
  pub id : String
  pub campaign_id : String
  pub linked_user_id : String

pub record PlayerAccess : Type 0 where
  pub player : PlayerRef
  pub is_dm : Bool

abbrev is_dm_member : Option CampaignMember → Bool
is_dm_member none = false
is_dm_member (some m) = is_dm_role m.role

-- The campaign may be gone: then nobody is its DM.
abbrev pub is_dm_of : String → Option Campaign → Bool
is_dm_of user none = false
is_dm_of user (some c) = is_dm_member (find_member c user)

abbrev pub check_found : Fetched (Option PlayerRef) → Checked PlayerRef
check_found failed = deny_internal
check_found (fetched none) = deny 404 "player not found" "NOT_FOUND"
check_found (fetched (some p)) = pass p

abbrev pub check_fetched : Fetched (Option Campaign) → Checked (Option Campaign)
check_fetched failed = deny_internal
check_fetched (fetched c) = pass c

-- `campaigns` is the read of the player's campaign.
unfoldable pub resolve_player_access :
    String
    → Fetched (Option PlayerRef)
    → (String → Fetched (Option Campaign))
    → Checked PlayerAccess
resolve_player_access user found campaigns = do
  p ← check_found found
  campaign ← check_fetched (campaigns p.campaign_id)
  let is_dm = is_dm_of user campaign
  deny_if (not is_dm && not (p.linked_user_id == user)) 403 "forbidden" "FORBIDDEN"
  pass (record { player = p; is_dm = is_dm })
