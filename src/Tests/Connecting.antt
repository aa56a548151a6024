-- ===== src/Tests/Connecting.antt =====
-- Two connections whose queries have one key and are both looked up before the first one is translated.
use mysql_redshift_agent.Prelude.{[], ◌∷◌, All}
use mysql_redshift_agent.Proxy.Server.{State}
use mysql_redshift_agent.Proxy.Cached.{IsKept}
use mysql_redshift_agent.Proxy.Connections.{
  Place, arrived, move, here, there, Reach, begun, stepped, connected,
}
use mysql_redshift_agent.Proxy.Concurrent.{IsHeld, Reach-IsKept}
use mysql_redshift_agent.Tests.LruMap.{lru}
use mysql_redshift_agent.Tests.Proxying.{
  ascii, as_is, plain, outside, parse_t, open_setup, fresh, fresh-IsKept, one, two,
}

abbrev next : Place plain → State plain outside lru → Place plain × State plain outside lru
next = move plain outside lru ascii as_is parse_t open_setup

abbrev first_routed : Place plain × State plain outside lru
first_routed = next (arrived one) fresh

abbrev second_routed : Place plain × State plain outside lru
second_routed = next (arrived two) first_routed.1

abbrev first_looked : Place plain × State plain outside lru
first_looked = next first_routed.0 second_routed.1

abbrev second_looked : Place plain × State plain outside lru
second_looked = next second_routed.0 first_looked.1

both :
    Reach plain outside lru ascii as_is parse_t open_setup fresh [] second_looked.1
      (first_looked.0 ∷ second_looked.0 ∷ [])
both =
    let arrived_both = connected one (connected two begun) in
    let a = stepped arrived_both (here (arrived one) (arrived two ∷ [])) in
    let b = stepped a (there first_routed.0 (here (arrived two) [])) in
    let c = stepped b (here first_routed.0 (second_routed.0 ∷ [])) in
    stepped c (there first_looked.0 (here second_routed.0 []))

Reach-IsKept_example :
    IsKept plain outside lru ascii as_is second_looked.1
    × All
        (IsHeld plain outside lru ascii as_is parse_t open_setup)
        (first_looked.0 ∷ second_looked.0 ∷ [])
Reach-IsKept_example =
    Reach-IsKept plain outside lru ascii as_is parse_t open_setup both fresh-IsKept tt
