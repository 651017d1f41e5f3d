-- ===== src/Sharing/Laws.antt =====
-- Who sees an entry, and whom a share reaches.
use rolebook_backend.Common.{
  String, ◌≡◌, ◌≢◌, ◌↔◌, ◌⊎◌, inl, inr, refl, sym, ◌∙◌, Bool, true, false, Option, none, some, List,
  [], ◌∷◌, contains, ◌==◌, arith, eq_iff, Bool-cases, All, Option-cases,
}
use mathlib.Core.List.{Memᴰ}
use rolebook_backend.Http.{fetched}
use rolebook_backend.Access.{CampaignMember, Campaign}
use rolebook_backend.Sharing.{
  normalize_visibility_mode, can_player_see_entry, allowed_player_ids_for_cascade, Visibility,
  visibility_allows_read, Recipient, recipient_of, all_recipients, member_of_player, Recipients,
  recipients, refused, with_recipient, listed_recipients, resolve_share_recipients,
}

-- Whether a cascade leaves the entry with a player.
abbrev pub keeps : Option (List String) → String → Bool
keeps none player = true
keeps (some ids) player = contains ids player

-- A player who is not the DM may see an entry exactly where the cascade of its visibility leaves it
-- with them, whatever the mode.
pub can_player_see_entry-keeps :
    (clean : String → String) (mode : String) (ids : List String) (player : String)
    → can_player_see_entry clean mode ids player false
      ≡ keeps (allowed_player_ids_for_cascade clean mode ids) player
unfolding can_player_see_entry allowed_player_ids_for_cascade
can_player_see_entry-keeps clean mode ids player =
    elim (Bool-cases (normalize_visibility_mode clean mode == "players")) [
      | inl e ↦ rw e refl
      | inr e ↦ rw e refl
    ]

-- A journal entry is read by its owner, by everyone where it is shared with all, and by whoever it
-- is shared with; by nobody else.
pub visibility_allows_read_iff :
    (owner : String) (v : Visibility) (caller : String)
    → (visibility_allows_read owner v caller ≡ true) ↔ (
        (owner ≡ caller)
        ⊎ ((v.shared_with_all ≡ true) ⊎ (contains v.shared_player_ids caller ≡ true)))
unfolding visibility_allows_read
visibility_allows_read_iff owner v caller =
    (λ h. ground (arith, eq_iff owner caller), λ h. ground (arith, eq_iff owner caller))

-- Who a recipient is: a member of the campaign other than the owner.
abbrev pub IsOther : String → List CampaignMember → Recipient → Type 0
IsOther owner ms r = (m : CampaignMember) × Memᴰ m ms × (r ≡ recipient_of m) × (m.player_id ≢ owner)

-- What a resolution may return for the members of a campaign.
abbrev pub IsResolved : String → List CampaignMember → Recipients → Type 0
IsResolved owner ms (refused message) = Unit
IsResolved owner ms (recipients rs) = All (IsOther owner ms) rs

more_members :
    (owner : String) (m : CampaignMember) (ms : List CampaignMember) (rs : List Recipient)
    → All (IsOther owner ms) rs
    → All (IsOther owner (m ∷ ms)) rs
more_members owner m ms [] h = tt
more_members owner m ms (r ∷ rs) ((n, at, same, other), h) =
    ((n, Memᴰ.tail at, same, other), more_members owner m ms rs h)

all_recipients-IsOther :
    (owner : String) (ms : List CampaignMember) → All (IsOther owner ms) (all_recipients owner ms)
unfolding all_recipients
all_recipients-IsOther owner [] = tt
all_recipients-IsOther owner (m ∷ ms) =
    let rest = more_members owner m ms _ (all_recipients-IsOther owner ms) in
    elim (Bool-cases (m.player_id == owner)) [
      | inl e ↦ rw e rest
      | inr e ↦ rw e ((m, Memᴰ.head refl, refl, ground (arith, eq_iff m.player_id owner)), rest)
    ]

member_of_player_sound :
    (id : String) (ms : List CampaignMember) (m : CampaignMember)
    → member_of_player id ms ≡ some m
    → Memᴰ m ms × (m.player_id ≡ id)
unfolding member_of_player
member_of_player_sound id [] m e = cc
member_of_player_sound id (n ∷ ms) m e = elim (Option-cases (member_of_player id ms)) [
  | inl missing ↦
      (Memᴰ.head (ground (arith, missing)), ground (arith, missing, eq_iff n.player_id id))
  | inr (k, there) ↦
      let (at, same) = member_of_player_sound id ms m (ground (arith, there)) in
      (Memᴰ.tail at, same)
]

with_recipient-IsResolved :
    (owner id : String) (ms : List CampaignMember) (o : Option CampaignMember) (rest : Recipients)
    → ((m : CampaignMember) → o ≡ some m → Memᴰ m ms × (m.player_id ≡ id))
    → id ≢ owner
    → IsResolved owner ms rest
    → IsResolved owner ms (with_recipient id o rest)
with_recipient-IsResolved owner id ms none rest found other h = tt
with_recipient-IsResolved owner id ms (some m) (refused message) found other h = tt
with_recipient-IsResolved owner id ms (some m) (recipients rs) found other h =
    let (at, same) = found m refl in ((m, at, refl, λ e. other (sym same ∙ e)), h)

listed_recipients-IsResolved :
    (owner : String) (ms : List CampaignMember) (ids : List String)
    → IsResolved owner ms (listed_recipients owner ms ids)
unfolding listed_recipients
listed_recipients-IsResolved owner ms [] = tt
listed_recipients-IsResolved owner ms (id ∷ ids) = elim (Bool-cases (id == owner)) [
  | inl e ↦ rw e (listed_recipients-IsResolved owner ms ids)
  | inr e ↦ rw e (
      with_recipient-IsResolved owner id ms (member_of_player id ms)
        (listed_recipients owner ms ids) (λ m there. member_of_player_sound id ms m there)
        (ground (arith, eq_iff id owner)) (listed_recipients-IsResolved owner ms ids))
]

-- A share reaches members of the campaign only, and never the owner of the entry, whether it names
-- its recipients or goes to all.
pub resolve_share_recipients-IsResolved :
    (c : Campaign) (owner : String) (ids : List String) (all : Bool)
    → IsResolved owner c.members (resolve_share_recipients (fetched (some c)) owner ids all)
unfolding resolve_share_recipients
resolve_share_recipients-IsResolved c owner ids true = all_recipients-IsOther owner c.members
resolve_share_recipients-IsResolved c owner ids false =
    listed_recipients-IsResolved owner c.members ids
