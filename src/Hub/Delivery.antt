-- ===== src/Hub/Delivery.antt =====
-- Whom a published snapshot reaches.
use rolebook_backend.Common.{
  ℕ, ◌+◌, String, ◌≡◌, refl, List, [], ◌∷◌, ◌++◌, length, ltb, nat_eq, if◌then◌else◌, arith, not,
  filter,
}
use rolebook_backend.Hub.{
  Hub, sub_buffer_size, bucket_of, put_chan, offer, send_all, publish, or_delete,
}

abbrev pub count_id : ℕ → List ℕ → ℕ
count_id i [] = 0
count_id i (j ∷ js) = let rest = count_id i js in if nat_eq j i then rest + 1 else rest

module _ {A : Type 0} where
  send_all_absent :
      (call : A) (i : ℕ) (ids : List ℕ) (chans : ℕ → List A)
      → count_id i ids ≡ 0
      → send_all ids call chans i ≡ chans i
  unfolding send_all
  send_all_absent call i [] chans h = refl
  send_all_absent call i (j ∷ js) chans h =
      ground (arith, send_all_absent call i js (put_chan chans j (offer call (chans j))))

  send_all_once :
      (call : A) (i : ℕ) (ids : List ℕ) (chans : ℕ → List A)
      → count_id i ids ≡ 1
      → send_all ids call chans i ≡ offer call (chans i)
  unfolding send_all
  send_all_once call i [] chans h = absurd (omega arith)
  send_all_once call i (j ∷ js) chans h =
      let chans' = put_chan chans j (offer call (chans j)) in
      ground (arith, send_all_absent call i js chans', send_all_once call i js chans')

  -- A publish to a campaign appends the snapshot to the channel of a subscriber of that campaign,
  -- or drops it if 16 are waiting there.
  pub publish_delivers :
      (campaign : String) (call : A) (h : Hub A) (i : ℕ)
      → count_id i (bucket_of (h.subs campaign)) ≡ 1
      → (publish campaign call h).chans i
        ≡ (if ltb (length (h.chans i)) sub_buffer_size then h.chans i ++ call ∷ [] else h.chans i)
  unfolding publish
  publish_delivers campaign call h i one = send_all_once call i _ h.chans one

  -- Anyone else's channel is as it was.
  pub publish_skips :
      (campaign : String) (call : A) (h : Hub A) (i : ℕ)
      → count_id i (bucket_of (h.subs campaign)) ≡ 0
      → (publish campaign call h).chans i ≡ h.chans i
  unfolding publish
  publish_skips campaign call h i absent = send_all_absent call i _ h.chans absent

pub count_id-filter :
    (i id : ℕ) (ids : List ℕ)
    → count_id i (filter (λ j. not (nat_eq j id)) ids) ≡ (if nat_eq i id then 0 else count_id i ids)
count_id-filter i id [] = ground arith
count_id-filter i id (j ∷ js) = ground (arith, count_id-filter i id js)

pub bucket_of-or_delete : (ids : List ℕ) → bucket_of (or_delete ids) ≡ ids
bucket_of-or_delete [] = refl
bucket_of-or_delete (i ∷ is) = refl
