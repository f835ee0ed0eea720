-- ===== src/Logout/Replaying.antt =====
-- What the replay route of apps/sso/worker/admin-logout-deliveries.ts does to a delivery that has
-- given up.
use sso_pg72_tw.Common.{
  ℕ, ◌+◌, ◌≡◌, refl, ==_iff, Bool, true, Option, some, List, [], ◌∷◌, arith, Bool-cases, inl, inr,
}
use sso_pg72_tw.Common.Table.{find_where, exists_where, find_where-test}
use sso_pg72_tw.Logout.{Delivery, Store, is_replayable}
use sso_pg72_tw.Logout.Claim.{is_claimable}
use sso_pg72_tw.Logout.Outbox.{
  replayed, first_set, is_replay_target, replay_delivery, is_replayed, replay_batch, replay_to,
  replay_row, replay_found, replay_logout_delivery,
}
use sso_pg72_tw.Logout.Exclusive.{has_key, IsUniqueKey}
use sso_pg72_tw.Logout.Claiming.{IsOfKey}
use sso_pg72_tw.Logout.Recovering.{one_row}

exists_where-found :
    {A : Type 0} (column test : A → Bool) (ds : List A) (x : A)
    → find_where column ds ≡ some x
    → test x ≡ true
    → exists_where test ds ≡ true
unfolding find_where exists_where
exists_where-found column test [] x e t = cc
exists_where-found column test (d ∷ ds) x e t = elim (Bool-cases (column d)) [
  | inl hit ↦
      let same : d ≡ x = ground (arith, rw hit at e) in
      let passes : test d ≡ true = rw same t in rw passes
  | inr miss ↦ elim (Bool-cases (test d)) [
    | inl here ↦ rw here
    | inr later ↦ rw later (exists_where-found column test ds x (rw miss at e) t)
  ]
]

module _ (key endpoint now : ℕ) (d : Delivery) where
  abbrev revived : Delivery
  revived = replay_delivery endpoint (d.replay_count + 1) now d

  is_replay_target-IsOfKey : IsOfKey key (is_replay_target key d.replay_count)
  unfolding is_replay_target
  is_replay_target-IsOfKey x h = rw h

  replay_delivery-keeps-key :
      (x : Delivery)
      → has_key key (replay_delivery endpoint (d.replay_count + 1) now x) ≡ has_key key x
  unfolding replay_delivery
  replay_delivery-keeps-key x = refl

  target-passes :
      has_key key d ≡ true
      → is_replayable d.status ≡ true
      → is_replay_target key d.replay_count d ≡ true
  unfolding is_replay_target
  target-passes h t = ground arith

  revived-replayed : has_key key d ≡ true → is_replayed key (d.replay_count + 1) now revived ≡ true
  unfolding is_replayed replay_delivery
  revived-replayed h = ground arith

  revived-claimable : has_key key d ≡ true → is_claimable key now revived ≡ true
  unfolding is_claimable replay_delivery
  revived-claimable h = ground arith

  -- The batch, for the row that the key finds.
  replay_batch-revives :
      (event : ℕ) (s : Store)
      → d.delivery_key ≡ key
      → IsUniqueKey key s
      → find_where (has_key key) s.deliveries ≡ some d
      → is_replayable d.status ≡ true
      → (t : Store) × (replay_batch endpoint now event d s ≡ (t, replayed (d.replay_count + 1)))
        × (find_where (has_key key) t.deliveries ≡ some revived)
        × (is_claimable key now revived ≡ true)
  unfolding replay_batch
  replay_batch-revives event s same unique found open_again =
      let keyed = find_where-test (has_key key) s.deliveries d found in
      let (once, _, row) =
        one_row key (is_replay_target key d.replay_count)
          (replay_delivery endpoint (d.replay_count + 1) now) s.deliveries d
          is_replay_target-IsOfKey replay_delivery-keeps-key (target-passes keyed open_again) unique
          found in
      let audited =
        exists_where-found (has_key key) (is_replayed key (d.replay_count + 1) now) _ revived row
          (revived-replayed keyed) in
      simp (same, once, audited) (_, refl, row, revived-claimable keyed)

-- A delivery that is dead or waits for a retry, whose key is unique, and for which the row or the
-- client has an endpoint: the replay is answered with the next replay count, the row has that count,
-- no attempts behind it and the endpoint, and a worker can claim it at once.
pub replay_logout_delivery-revives :
    (key endpoint now event : ℕ) (current : Option ℕ) (s : Store) (d : Delivery)
    → IsUniqueKey key s
    → find_where (has_key key) s.deliveries ≡ some d
    → is_replayable d.status ≡ true
    → first_set d.backchannel_logout_uri current ≡ some endpoint
    → (t : Store) × (replay_logout_delivery key current now event s
        ≡ (t, replayed (d.replay_count + 1)))
      × (find_where (has_key key) t.deliveries
          ≡ some (replay_delivery endpoint (d.replay_count + 1) now d))
      × (is_claimable key now (replay_delivery endpoint (d.replay_count + 1) now d) ≡ true)
unfolding replay_logout_delivery replay_found replay_row replay_to
replay_logout_delivery-revives key endpoint now event current s d unique found open_again uri =
    let keyed = find_where-test (has_key key) s.deliveries d found in
    let same : d.delivery_key ≡ key = (==_iff d.delivery_key key).0 keyed in
    let (t, answers, row, due) =
      replay_batch-revives key endpoint now d event s same unique found open_again in
    (t, rw (found, replay_found, open_again, uri) answers, row, due)
