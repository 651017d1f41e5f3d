-- ===== src/Tracker/Start.antt =====
-- The call that `Start` of internal/handler/initiative.go stores.
use rolebook_backend.Common.{ℕ, String, false, none, List, [], ◌∷◌, ◌++◌}
use Prim.Native.String.{◌++◌ as concat}
use rolebook_backend.Initiative.{InitiativeParticipant, InitiativeCall}

-- The roster of a campaign, as far as `Start` reads it.
pub data PlayerKind : Type 0 where
  pc dm npc enemy companion other_kind : PlayerKind

pub record RosterPlayer : Type 0 where
  pub id : String
  pub kind : PlayerKind
  pub name : String
  pub avatar_uri : String

abbrev pub player_participant : RosterPlayer → InitiativeParticipant
player_participant p = record {
  id = concat "player-" p.id;
  participant_type = "player";
  name = p.name;
  initiative = none;
  player_id = p.id;
  avatar_uri = p.avatar_uri;
  submitted_by_player_id = "";
  submitted_at = none;
  is_skipped = false;
}

abbrev pub enemy_participant : RosterPlayer → InitiativeParticipant
enemy_participant p = record {
  id = concat "enemy-" p.id;
  participant_type = "enemy";
  name = p.name;
  initiative = none;
  player_id = "";
  avatar_uri = p.avatar_uri;
  submitted_by_player_id = "";
  submitted_at = none;
  is_skipped = false;
}

abbrev pub participants_of : PlayerKind → RosterPlayer → List InitiativeParticipant
participants_of pc p = player_participant p ∷ []
participants_of npc p = enemy_participant p ∷ []
participants_of enemy p = enemy_participant p ∷ []
participants_of _ p = []

unfoldable pub start_participants : List RosterPlayer → List InitiativeParticipant
start_participants [] = []
start_participants (p ∷ ps) = participants_of p.kind p ++ start_participants ps

unfoldable pub start_call : String → String → ℕ → String → List RosterPlayer → InitiativeCall
start_call campaign uuid now by players = record {
  campaign_id = campaign;
  id = uuid;
  status = "open";
  started_at = now;
  updated_at = now;
  started_by_player_id = by;
  participants = start_participants players;
  turn_order_participant_ids = [];
  current_turn_participant_id = "";
  has_turn_cycle_started = false;
  version = 0;
  resolved_at = none;
}
