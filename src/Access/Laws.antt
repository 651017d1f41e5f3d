-- ===== src/Access/Laws.antt =====
-- Who gets through `resolveCampaignMembership` and `resolvePlayerAccess`.
use rolebook_backend.Common.{
  String, ◌≡◌, refl, sym, ◌∙◌, ap, ◌⊎◌, inl, inr, ◌↔◌, Bool, true, false, Option, none, some, List,
  [], ◌∷◌, ◌==◌, eq_iff, arith, Bool-cases, Option-cases,
}
use mathlib.Core.List.{Memᴰ}
use mathlib.Core.Path.{subst}
use rolebook_backend.Http.{Fetched, fetched, failed, pass}
use rolebook_backend.Access.{
  Role, dm, player, CampaignMember, Campaign, is_dm_role, first_member, find_member,
  CampaignMembership, resolve_campaign_membership, PlayerRef, PlayerAccess, is_dm_of,
  resolve_player_access,
}

first_member_sound :
    (user : String) (ms : List CampaignMember) (m : CampaignMember)
    → first_member user ms ≡ some m
    → Memᴰ m ms × (m.user_id ≡ user)
unfolding first_member
first_member_sound user [] m e = cc
first_member_sound user (n ∷ ms) m e = elim (Bool-cases (n.user_id == user)) [
  | inl hit ↦ (Memᴰ.head (ground arith), ground (arith, eq_iff n.user_id user))
  | inr miss ↦ let (at, same) = first_member_sound user ms m (ground arith) in (Memᴰ.tail at, same)
]

-- Whoever passes the membership check stands in the member list of the campaign that was read, with
-- the role and the player that the membership carries; in particular a DM's membership is a DM's.
pub resolve_campaign_membership_sound :
    (user : String) (found : Fetched (Option Campaign)) (s : CampaignMembership)
    → resolve_campaign_membership user found ≡ pass s
    → (m : CampaignMember) × (found ≡ fetched (some s.campaign))
      × Memᴰ m s.campaign.members
      × (m.user_id ≡ user)
      × (s.user_id ≡ user)
      × (s.is_dm ≡ is_dm_role m.role)
      × (s.player_id ≡ m.player_id)
unfolding resolve_campaign_membership find_member
resolve_campaign_membership_sound user failed s e = cc
resolve_campaign_membership_sound user (fetched none) s e = cc
resolve_campaign_membership_sound user (fetched (some c)) s e =
    elim (Option-cases (first_member user c.members)) [
      | inl missing ↦ absurd (ground arith)
      | inr (m, there) ↦
          let (at, same) = first_member_sound user c.members m there in
          let here : c ≡ s.campaign = ground arith in
          (
            m,
            ground arith,
            subst (λ (k : Campaign). Memᴰ m k.members) here at,
            same,
            ground arith,
            ground arith,
            ground arith,
          )
    ]

-- The user's first entry among the members of the campaign is a DM's.
abbrev pub IsDm : String → Option Campaign → Type 0
IsDm user c =
    (k : Campaign) × (m : CampaignMember) × (c ≡ some k)
    × (find_member k user ≡ some m)
    × Memᴰ m k.members
    × (m.user_id ≡ user)
    × (m.role ≡ dm)

dm_role : (r : Role) → is_dm_role r ≡ true → r ≡ dm
dm_role dm e = refl
dm_role player e = cc

is_dm_of_sound : (user : String) (c : Option Campaign) → is_dm_of user c ≡ true → IsDm user c
unfolding find_member
is_dm_of_sound user none e = cc
is_dm_of_sound user (some k) e = found (first_member user k.members) refl e
  where
    found :
        (o : Option CampaignMember)
        → first_member user k.members ≡ o
        → elim o as (λ x. Bool) [ none ↦ false | some m ↦ is_dm_role m.role ] ≡ true
        → IsDm user (some k)
    found none f h = cc
    found (some m) f h =
        let (at, same) = first_member_sound user k.members m f in
        (k, m, refl, f, at, same, dm_role m.role h)

is_dm_of_complete : (user : String) (c : Option Campaign) → IsDm user c → is_dm_of user c ≡ true
unfolding find_member
is_dm_of_complete user c (k, m, e, f, at, same, r) =
    ap (is_dm_of user) e ∙ ap is_dm_found f ∙ ap is_dm_role r
  where
    is_dm_found : Option CampaignMember → Bool
    is_dm_found none = false
    is_dm_found (some x) = is_dm_role x.role

access_pass :
    (user : String) (p : PlayerRef) (campaigns : String → Fetched (Option Campaign))
    (c : Option Campaign)
    → campaigns p.campaign_id ≡ fetched c
    → ((a : PlayerAccess)
        → resolve_player_access user (fetched (some p)) campaigns ≡ pass a
        → (record { player = p; is_dm = is_dm_of user c } ≡ a)
          × ((is_dm_of user c ≡ true) ⊎ (p.linked_user_id ≡ user)))
      × ((is_dm_of user c ≡ true) ⊎ (p.linked_user_id ≡ user)
          → resolve_player_access user (fetched (some p)) campaigns
            ≡ pass (record { player = p; is_dm = is_dm_of user c }))
unfolding resolve_player_access
access_pass user p campaigns c e = (
  λ a h.
      (ground (arith, eq_iff p.linked_user_id user), ground (arith, eq_iff p.linked_user_id user)),
  λ h. ground (arith, eq_iff p.linked_user_id user),
)

-- Where the player and its campaign could be read, a player's sheet opens for the DM of its campaign
-- and for its own user, and for nobody else; whoever it opens for is taken for the DM exactly when
-- they are.
pub resolve_player_access_iff :
    (user : String) (p : PlayerRef) (campaigns : String → Fetched (Option Campaign))
    (c : Option Campaign)
    → campaigns p.campaign_id ≡ fetched c
    → (((a : PlayerAccess) × (resolve_player_access user (fetched (some p)) campaigns ≡ pass a))
        ↔ (IsDm user c ⊎ (p.linked_user_id ≡ user)))
      × ((a : PlayerAccess)
          → resolve_player_access user (fetched (some p)) campaigns ≡ pass a
          → (a.player ≡ p) × ((a.is_dm ≡ true) ↔ IsDm user c))
resolve_player_access_iff user p campaigns c e = (
  (
    λ (a, h). elim ((access_pass user p campaigns c e).0 a h).1 [
      | inl t ↦ inl (is_dm_of_sound user c t)
      | inr t ↦ inr t
    ],
    λ h. (
      record { player = p; is_dm = is_dm_of user c },
      (access_pass user p campaigns c e).1
          (elim h [ inl t ↦ inl (is_dm_of_complete user c t) | inr t ↦ inr t ]),
    ),
  ),
  λ a h.
      let same : record { player = p; is_dm = is_dm_of user c } ≡ a =
        ((access_pass user p campaigns c e).0 a h).0 in
      (
        ap (λ (x : PlayerAccess). x.player) (sym same),
        (
          λ t. is_dm_of_sound user c (ap (λ (x : PlayerAccess). x.is_dm) same ∙ t),
          λ t. ap (λ (x : PlayerAccess). x.is_dm) (sym same) ∙ is_dm_of_complete user c t,
        ),
      ),
)
