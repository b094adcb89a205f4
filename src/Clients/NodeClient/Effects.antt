-- ===== src/Clients/NodeClient/Effects.antt =====
-- What a handler of client/src/node_client/node_client.rs sent, by its receivers.
use ypf_fleet_fuel_distribut.Prelude.{◌≡◌, refl, ap, List, [], ◌∷◌, ◌++◌}
use ypf_fleet_fuel_distribut.Domain.{SocketAddr, Message}
use ypf_fleet_fuel_distribut.Station.{NodeToStationMsg}
use ypf_fleet_fuel_distribut.Clients.NodeClient.{ClientEffect, delivered, undelivered, to_station}

-- The messages that were sent, with their receivers.
abbrev pub deliveries : List ClientEffect → List (Message × SocketAddr)
deliveries [] = []
deliveries (delivered msg addr ∷ effects) = (msg, addr) ∷ deliveries effects
deliveries (undelivered msg addr ∷ effects) = deliveries effects
deliveries (to_station msg ∷ effects) = deliveries effects

-- The results that the station got.
abbrev pub answers : List ClientEffect → List NodeToStationMsg
answers [] = []
answers (to_station (NodeToStationMsg.charge_result id allowed error) ∷ effects) =
    NodeToStationMsg.charge_result id allowed error ∷ answers effects
answers (to_station NodeToStationMsg.debug ∷ effects) = answers effects
answers (delivered msg addr ∷ effects) = answers effects
answers (undelivered msg addr ∷ effects) = answers effects

pub deliveries-append :
    (xs ys : List ClientEffect) → deliveries (xs ++ ys) ≡ deliveries xs ++ deliveries ys
deliveries-append [] ys = refl
deliveries-append (delivered msg addr ∷ xs) ys = ap (◌∷◌ (msg, addr)) (deliveries-append xs ys)
deliveries-append (undelivered msg addr ∷ xs) ys = deliveries-append xs ys
deliveries-append (to_station msg ∷ xs) ys = deliveries-append xs ys

pub answers-append : (xs ys : List ClientEffect) → answers (xs ++ ys) ≡ answers xs ++ answers ys
answers-append [] ys = refl
answers-append (to_station (NodeToStationMsg.charge_result id allowed error) ∷ xs) ys =
    ap (◌∷◌ (NodeToStationMsg.charge_result id allowed error)) (answers-append xs ys)
answers-append (to_station NodeToStationMsg.debug ∷ xs) ys = answers-append xs ys
answers-append (delivered msg addr ∷ xs) ys = answers-append xs ys
answers-append (undelivered msg addr ∷ xs) ys = answers-append xs ys
