-- ===== src/Session/Peers.antt =====
-- The reports of peers that come and go: the handlers of 'peer:connect' and 'peer:disconnect' that
-- start registers in packages/network/src/session.ts. The calls of maybeFetchPeerProfile,
-- trimExcessConnections and emitState in them are left out.
pub mod Seen
use text.Mathlib.Text.{find?}
use skypier_chat.Prelude.{
  String, Bool, true, false, List, [], ◌∷◌, ◌++◌, any, map, is_some, if◌then◌else◌, ◌==◌,
}
use skypier_chat.Protocol.{Reachability, direct, relayed, offline}
use skypier_chat.Session.{Connection}

-- A call of the listeners for reachability.
pub record Report : Type 0 where
  pub peer_id : String
  pub reachability : Reachability

-- seenPeerIds.has(peer)
abbrev pub has_seen : List String → String → Bool
has_seen seen peer = any (λ x. x == peer) seen

-- set.add(peer), which keeps the order in which peers were added
abbrev pub add_to_set : List String → String → List String
add_to_set seen peer = if has_seen seen peer then seen else seen ++ peer ∷ []

-- new Set(peers), onto a set
abbrev pub to_set_onto : List String → List String → List String
to_set_onto [] seen = seen
to_set_onto (peer ∷ peers) seen = to_set_onto peers (add_to_set seen peer)

abbrev pub reachability_of : Connection → Reachability
reachability_of c = if is_some (find? c.remote_addr "/p2p-circuit") then relayed else direct

abbrev pub report_new : Connection → Report
report_new c = record { peer_id = c.remote_peer; reachability = reachability_of c }

-- 'peer:connect': each peer among the connections that was not seen is reported, once.
unfoldable pub on_connect : List Connection → List String → List Report × List String
on_connect [] seen = ([], seen)
on_connect (c ∷ conns) seen =
    let known = on_connect conns seen in
    let new = on_connect conns (seen ++ c.remote_peer ∷ []) in
    if has_seen seen c.remote_peer then known else (report_new c ∷ new.0, new.1)

abbrev pub report_offline : String → Report
report_offline peer = record { peer_id = peer; reachability = offline }

unfoldable pub report_gone : List String → List String → List Report
report_gone current [] = []
report_gone current (peer ∷ seen) =
    let rest = report_gone current seen in
    if has_seen current peer then rest else report_offline peer ∷ rest

-- 'peer:disconnect': the peers that were seen and are connected no more are reported, and the
-- connected ones are those seen.
unfoldable pub on_disconnect : List Connection → List String → List Report × List String
on_disconnect conns seen =
    let current = to_set_onto (map (λ c. c.remote_peer) conns) [] in
    (report_gone current seen, current)
