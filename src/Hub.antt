-- ===== src/Hub.antt =====
-- internal/initiativehub/hub.go: the broadcaster of initiative snapshots. A map is a function into
-- `Option`, a channel is the list of what it buffers, under the id of the subscriber it was made
-- for. A method runs under the hub's lock; `publish` sends after it, to the channels it listed.
pub mod Delivery
pub mod Invariant
use rolebook_backend.Common.{
  ℕ, ◌+◌, String, Bool, true, false, not, ◌||◌, Option, none, some, List, [], ◌∷◌, ◌++◌, ◌==◌,
  length, filter, ltb, nat_eq, if◌then◌else◌,
}

abbrev pub sub_buffer_size : ℕ
sub_buffer_size = 16

pub record Hub (A : Type 0) : Type 0 where
  pub subs : String → Option (List ℕ)
  pub chans : ℕ → List A
  pub next : ℕ

unfoldable pub new : {A : Type 0} → Hub A
new = record { subs = λ k. none; chans = λ i. []; next = 0 }

-- The subscribers of a campaign.
abbrev pub bucket_of : Option (List ℕ) → List ℕ
bucket_of none = []
bucket_of (some ids) = ids

-- A bucket that has become empty is deleted.
abbrev pub or_delete : List ℕ → Option (List ℕ)
or_delete [] = none
or_delete (i ∷ is) = some (i ∷ is)

module _ {A : Type 0} where
  abbrev pub put_bucket : Hub A → String → Option (List ℕ) → (String → Option (List ℕ))
  put_bucket h campaign bucket k = if k == campaign then bucket else h.subs k

  abbrev pub put_chan : (ℕ → List A) → ℕ → List A → (ℕ → List A)
  put_chan chans i buffer j = if nat_eq j i then buffer else chans j

  unfoldable pub subscribe : String → Hub A → ℕ × Hub A
  subscribe campaign h = (
    h.next,
    record h {
      subs = put_bucket h campaign (some (h.next ∷ bucket_of (h.subs campaign)));
      chans = put_chan h.chans h.next [];
      next = h.next + 1;
    },
  )

  unfoldable pub unsubscribe : String → ℕ → Hub A → Hub A
  unsubscribe campaign id h = elim (h.subs campaign) [
    | none ↦ h
    | some bucket ↦ record h {
      subs = put_bucket h campaign (or_delete (filter (λ i. not (nat_eq i id)) bucket));
    }
  ]

  -- The non-blocking send: a full buffer drops the message.
  abbrev pub offer : A → List A → List A
  offer call buffer = if ltb (length buffer) sub_buffer_size then buffer ++ call ∷ [] else buffer

  pub send_all : List ℕ → A → (ℕ → List A) → (ℕ → List A)
  send_all [] call chans = chans
  send_all (i ∷ is) call chans = send_all is call (put_chan chans i (offer call (chans i)))

  unfoldable pub publish : String → A → Hub A → Hub A
  unfolding send_all
  publish campaign call h = record h { chans = send_all (bucket_of (h.subs campaign)) call h.chans }

  -- A subscriber takes the oldest message of its channel.
  abbrev pub after_first : List A → List A
  after_first [] = []
  after_first (x ∷ xs) = xs

  unfoldable pub receive : ℕ → Hub A → Hub A
  receive id h = record h { chans = put_chan h.chans id (after_first (h.chans id)) }
