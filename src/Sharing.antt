-- ===== src/Sharing.antt =====
-- Who may see an entry: internal/model/contentvisibility.go for the custom catalog, and the read filter
-- and the recipients of internal/handler/journal_share.go for the journal. `clean` is
-- `strings.ToLower(strings.TrimSpace(m))`; a Go map is a function into `Option`.
pub mod Laws
use rolebook_backend.Common.{
  ℕ, String, Bool, true, false, not, ◌&&◌, ◌||◌, Option, none, some, List, [], ◌∷◌, map, filter,
  contains, ◌==◌, if◌then◌else◌,
}
use Prim.Native.String.{◌++◌ as concat}
use mathlib.Core.Option
use rolebook_backend.Http.{Fetched, fetched, failed}
use rolebook_backend.Access.{CampaignMember, Campaign}

unfoldable pub normalize_visibility_mode : (String → String) → String → String
normalize_visibility_mode clean m =
    if clean m == "" || clean m == "campaign"
    then "campaign"
    else if clean m == "players"
    then "players"
    else m

unfoldable pub is_valid_visibility_mode : String → Bool
is_valid_visibility_mode m = m == "campaign" || m == "players"

unfoldable pub can_player_see_entry :
    (String → String) → String → List String → String → Bool → Bool
can_player_see_entry clean mode ids player is_dm =
    if is_dm
    then true
    else if not (normalize_visibility_mode clean mode == "players")
    then true
    else contains ids player

-- The players who keep an entry; `none` where nobody is to lose it.
unfoldable pub allowed_player_ids_for_cascade :
    (String → String) → String → List String → Option (List String)
allowed_player_ids_for_cascade clean mode ids =
    if not (normalize_visibility_mode clean mode == "players") then none else some ids

pub record Visibility : Type 0 where
  pub shared_with_all : Bool
  pub shared_player_ids : List String

unfoldable pub visibility_allows_read : String → Visibility → String → Bool
visibility_allows_read owner v caller =
    if owner == caller
    then true
    else if v.shared_with_all
    then true
    else contains v.shared_player_ids caller

pub record Recipient : Type 0 where
  pub player_id : String
  pub user_id : String

abbrev pub recipient_of : CampaignMember → Recipient
recipient_of m = record { player_id = m.player_id; user_id = m.user_id }

-- The other members, in order.
unfoldable pub all_recipients : String → List CampaignMember → List Recipient
all_recipients owner [] = []
all_recipients owner (m ∷ ms) =
    let rest = all_recipients owner ms in
    if m.player_id == owner then rest else recipient_of m ∷ rest

-- `byPlayerID[id]`: a later member of the same player replaces an earlier one.
unfoldable pub member_of_player : String → List CampaignMember → Option CampaignMember
member_of_player id [] = none
member_of_player id (m ∷ ms) =
    let later = member_of_player id ms in
    elim later [ some n ↦ some n | none ↦ if m.player_id == id then some m else none ]

pub data Recipients : Type 0 where
  recipients : List Recipient → Recipients
  refused : String → Recipients

abbrev pub with_recipient : String → Option CampaignMember → Recipients → Recipients
with_recipient id none rest = refused (concat "recipient not in campaign: " id)
with_recipient id (some m) (refused message) = refused message
with_recipient id (some m) (recipients rs) = recipients (recipient_of m ∷ rs)

unfoldable pub listed_recipients : String → List CampaignMember → List String → Recipients
listed_recipients owner ms [] = recipients []
listed_recipients owner ms (id ∷ ids) =
    let rest = listed_recipients owner ms ids in
    if id == owner then rest else with_recipient id (member_of_player id ms) rest

unfoldable pub resolve_share_recipients :
    Fetched (Option Campaign) → String → List String → Bool → Recipients
resolve_share_recipients failed owner ids all = refused "internal error"
resolve_share_recipients (fetched none) owner ids all = refused "campaign not found"
resolve_share_recipients (fetched (some c)) owner ids all =
    if all
    then recipients (all_recipients owner c.members)
    else listed_recipients owner c.members ids

abbrev pub rewritten : (String → Option String) → String → String
rewritten id_map id = elim (id_map id) [ none ↦ id | some next ↦ next ]

unfoldable pub rewrite_ids : List String → (String → Option String) → List String
rewrite_ids [] id_map = []
rewrite_ids (id ∷ ids) id_map = rewritten id_map id ∷ rewrite_ids ids id_map
