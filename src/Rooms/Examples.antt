-- ===== src/Rooms/Examples.antt =====
-- The theorems about src/state.rs at a room with two people.
use parrhesia_backend.Common.{
  ℕ, ◌≡◌, ◌≢◌, refl, ◌⊎◌, Bool, true, false, none, some, List, [], ◌∷◌, String, string_eq, ok, err,
  ◌≤◌, ◌<◌, length,
}
use parrhesia_backend.Common.Int.{pos}
use parrhesia_backend.Common.Dict.{get, insert, remove}
use parrhesia_backend.Db.{DbError, Table, room_exists}
use parrhesia_backend.Broadcast.{Broadcast, Log, log_bus, log_laws}
use parrhesia_backend.Rooms.Events.{RoomEvent}
use parrhesia_backend.Rooms.Replay.{Agree}
use parrhesia_backend.Rooms.Histories.{
  Call, attaches, joins, detaches, step, run, fresh, seen, join_view,
}
use parrhesia_backend.Rooms.Creator.{join_lem, attach_lem, creator_reelected, or_caller, creator_of}
use parrhesia_backend.Rooms.{
  Participant, Room, App, joined, full, room_gone, PeerSnapshot, snapshot, attach, room_entry, join,
  detach,
}

abbrev bc : Broadcast RoomEvent
bc = log_bus RoomEvent

abbrev no_channels : Log RoomEvent
no_channels = record { next = 0; events = λ s. []; capacities = λ s. 0 }

abbrev table : Table
table = ("r", record { created_at = pos 1; last_activity = pos 1; password_hash = none }) ∷ []

abbrev alice : Participant
alice = record { public_key = "A"; pq_public_key = "a"; sig = none }

abbrev bob : Participant
bob = record { public_key = "B"; pq_public_key = "b"; sig = some "s" }

abbrev before : List (Call bc)
before = attaches none "r" "1" ∷ joins "r" "1" alice 16 ∷ attaches none "r" "2" ∷ []

abbrev later : List (Call bc)
later = detaches "r" "1" ∷ []

abbrev started : App bc
started = run bc (fresh bc table no_channels) before

abbrev with_bob : App bc
with_bob = run bc (join bc "r" "2" bob 16 started).1 later

abbrev alice_listed : PeerSnapshot
alice_listed = ("1", "A", "a", none) ∷ []

bob_joined : (join bc "r" "2" bob 16 started).0 ≡ joined (0, 1) alice_listed
unfolding run step join attach room_exists get insert snapshot
bob_joined = refl

abbrev bobs_room : Room ℕ
bobs_room = record { tx = 0; creator_id = some "1"; participants = ("2", bob) ∷ [] }

bob_alone : get "r" with_bob.rooms ≡ some bobs_room
unfolding run step join attach detach room_exists get insert remove snapshot
bob_alone = refl

join_view_example :
    Agree (("2", bob) ∷ []) (seen bc (log_laws RoomEvent) (0, 1) alice_listed with_bob.bus)
join_view_example =
    join_view bc (log_laws RoomEvent) table no_channels before later "r" "2" bob 16 (0, 1)
      alice_listed bobs_room bob_joined bob_alone (unfold log_laws in refl)

join_lem_example :
    let (reply, after) = join bc "r" "2" bob 1 started in
    ((get "r" started.rooms ≡ none) × (reply ≡ room_gone) × (after ≡ started))
    ⊎ ((r : Room ℕ) × (get "r" started.rooms ≡ some r)
        × (((1 ≤ length r.participants) × (reply ≡ full) × (after ≡ started))
            ⊎ ((length r.participants < 1)
                × (reply ≡ joined (bc.subscribe r.tx started.bus).0 (snapshot r.participants))
                × (get "r" after.rooms
                    ≡ some (record r { participants = insert "2" bob r.participants }))
                × (length (insert "2" bob r.participants) ≤ 1)
                × (after.db ≡ started.db))))
join_lem_example = join_lem bc "r" "2" bob 1 started

abbrev attached : App bc
attached = run bc (fresh bc table no_channels) (attaches none "r" "1" ∷ [])

attach_lem_example :
    let (reply, after) = attach bc none "r" "2" attached in
    ((room_exists none "r" attached.db ≡ ok true)
      × ((r : Room ℕ) × (get "r" after.rooms ≡ some r)
          × (r.participants ≡ (room_entry bc (get "r" attached.rooms) attached.bus).0.participants)
          × (reply ≡ (
              let (is_creator, creator) =
                or_caller bc (creator_of bc (get "r" attached.rooms)) "2" in
              ok (some (r.tx, is_creator, creator)))))
      × (after.db ≡ attached.db))
    ⊎ (((room_exists none "r" attached.db ≡ ok false) × (reply ≡ ok none) × (after ≡ attached))
        ⊎ ((e : DbError) × (room_exists none "r" attached.db ≡ err e)
            × (reply ≡ err e)
            × (after ≡ attached)))
attach_lem_example = attach_lem bc none "r" "2" attached

other_id : ◌≢◌ {A = String} "2" "1"
other_id e = let h : ◌≡◌ {A = Bool} false true = (string_eq.same_iff "2" "1").1 e in cc

creator_reelected_example :
    (attach bc none "r" "3" (detach bc "r" "2" attached)).0 ≡ ok (some (0, true, some "3"))
unfolding run step attach room_exists get insert
creator_reelected_example =
    creator_reelected bc "r" "2" "3" "1"
      (record { tx = 0; creator_id = some "1"; participants = [] }) attached refl refl refl other_id
      refl
