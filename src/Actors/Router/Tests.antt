-- ===== src/Actors/Router/Tests.antt =====
-- The router at work: server/src/node/actors/actor_router.rs.
use ypf_fleet_fuel_distribut.Prelude.{ℕ, ◌≡◌, refl, true, none, some, List, [], ◌∷◌, insert}
use ypf_fleet_fuel_distribut.Domain.{SocketAddr, Operation}
use ypf_fleet_fuel_distribut.Actors.Messages.{to_node, operation_result}
use ypf_fleet_fuel_distribut.Actors.Router.{ActorRouter, PendingDatabaseSnapshot, snapshot_result}
use ypf_fleet_fuel_distribut.Actors.Router.Snapshots.{
  Fragment, of_account, of_card, fragment_msgs, run_internal, with_all, snapshot_collected,
}

abbrev joining : SocketAddr
joining = SocketAddr.v4 127 0 0 1 9000

abbrev pending : PendingDatabaseSnapshot
pending = record {
  addr = joining;
  expected_accounts = 1;
  expected_cards = 2;
  accounts = [];
  cards = [];
}

abbrev router : ActorRouter
router = record {
  accounts = 7 ∷ [];
  cards = record { account_id = 7; card_id = 1 } ∷ record { account_id = 7; card_id = 2 } ∷ [];
  operations = insert 3 (Operation.get_database joining) [];
  pending_db_snapshots = insert 3 pending [];
}

abbrev card_fragment : ℕ → Fragment
card_fragment k =
    of_card (record { account_id = 7; card_id = k; limit = none; consumed = 0x41A00000 })

abbrev account_fragment : Fragment
account_fragment = of_account (record { account_id = 7; limit = none; consumed = 0x42480000 })

abbrev fragments : List Fragment
fragments = card_fragment 2 ∷ account_fragment ∷ card_fragment 1 ∷ []

snapshot_collected_example :
    (r' : ActorRouter) × (run_internal router (fragment_msgs 3 fragments)
      ≡ some (
        r',
        to_node (
              operation_result 3
                (Operation.get_database joining)
                (snapshot_result (with_all pending fragments))
                true
                none)
            ∷ [],
      ))
    × (r'.operations ≡ router.operations)
snapshot_collected_example =
    snapshot_collected router 3 pending (Operation.get_database joining) (card_fragment 2)
      (account_fragment ∷ card_fragment 1 ∷ []) refl refl (refl, refl)
