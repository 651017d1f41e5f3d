-- ===== src/Scenarios/Memory.antt =====
-- A collection of calls in memory that never fails: what internal/store/initiative.go relies on holds
-- of it.
use rolebook_backend.Common.{
  String, ◌≡◌, refl, ap, false, Option, none, some, [], ◌∷◌, ◌==◌, if◌then◌else◌,
}
use mathlib.Core.Option
use rolebook_backend.Common.Int.{ℤ, pos}
use rolebook_backend.Http.{fetched}
use rolebook_backend.Initiative.{InitiativeParticipant, InitiativeCall}
use rolebook_backend.Tracker.Calls.{CallCollection, select, put_after, set_fields}
use rolebook_backend.Tracker.Timely.{IsUp}

abbrev pub Documents : Type 0
Documents = String → Option InitiativeCall

pub put_same :
    (a o : Option InitiativeCall) (id : String) (db : Documents)
    → fetched a ≡ fetched o
    → (o ≡ a) × ((k : String) → put_after a id db k ≡ put_after o id db k)
put_same a o id db e =
    let same : a ≡ o = cc in (cc, λ k. ap (λ (x : Option InitiativeCall). put_after x id db k) same)

abbrev pub memory : CallCollection
memory = record {
  Db = Documents;
  stored = λ db k. db k;
  find_one = λ f db. fetched (select f (db f.id));
  replace_one = λ f c db. (fetched tt, λ k. if k == f.id then some c else db k);
  find_one_and_replace = λ f c db. (
    fetched (Option.map (λ _. c) (select f (db f.id))),
    put_after (Option.map (λ _. c) (select f (db f.id))) f.id db,
  );
  find_one_and_update = λ f s db. (
    fetched (Option.map (set_fields s) (select f (db f.id))),
    put_after (Option.map (set_fields s) (select f (db f.id))) f.id db,
  );
  find_one_lem = λ f db o e. (put_same _ o f.id db e).0;
  replace_one_lem = λ f c db e k. refl;
  find_one_and_replace_lem = λ f c db o e. put_same _ o f.id db e;
  find_one_and_update_lem = λ f s db o e. put_same _ o f.id db e;
}

pub memory-IsUp : IsUp memory
memory-IsUp = record {
  find_up = λ f db. (_, refl);
  replace_up = λ f c db. (_, refl);
  update_up = λ f s db. (_, refl);
}

abbrev pub participant : String → String → String → Option ℤ → String → InitiativeParticipant
participant id type name roll player = record {
  id = id;
  participant_type = type;
  name = name;
  initiative = roll;
  player_id = player;
  avatar_uri = "";
  submitted_by_player_id = "";
  submitted_at = none;
  is_skipped = false;
}

abbrev pub ana : InitiativeParticipant
ana = participant "player-ana" "player" "Ana" (some (pos 15)) "ana"

abbrev pub bo : InitiativeParticipant
bo = participant "player-bo" "player" "Bo" none "bo"

abbrev pub goblin : InitiativeParticipant
goblin = participant "enemy-goblin" "enemy" "Goblin" (some (pos 18)) ""

abbrev pub fight : InitiativeCall
fight = record {
  campaign_id = "camp";
  id = "call";
  status = "open";
  started_at = 10;
  updated_at = 10;
  started_by_player_id = "dm";
  participants = ana ∷ bo ∷ goblin ∷ [];
  turn_order_participant_ids = [];
  current_turn_participant_id = "";
  has_turn_cycle_started = false;
  version = 1;
  resolved_at = none;
}

abbrev pub fight_db : Documents
fight_db k = if k == "camp" then some fight else none
