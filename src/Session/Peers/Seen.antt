-- ===== src/Session/Peers/Seen.antt =====
-- What a listener knows of a peer after the reports, and which peers were seen.
use mathlib.Core.Path.{subst}
use skypier_chat.Prelude.{
  All, String, ◌≡◌, refl, sym, ap, ◌∙◌, Bool, true, false, not, ◌&&◌, ◌||◌, List, [], ◌∷◌, ◌++◌,
  any-append, map, arith, if◌then◌else◌, ◌==◌, eq_iff, Bool-cases, inl, inr,
}
use skypier_chat.Protocol.{Reachability, unknown, direct, relayed, offline}
use skypier_chat.Session.{Connection}
use skypier_chat.Session.Peers.{
  Report, has_seen, on_connect, add_to_set, to_set_onto, reachability_of, report_gone,
  on_disconnect,
}

abbrev pub is_online : Reachability → Bool
is_online unknown = false
is_online direct = true
is_online relayed = true
is_online offline = false

-- Whether the last report about the peer says that it is online; `b` is what was known before.
abbrev pub online_after : Bool → List Report → String → Bool
online_after b [] peer = b
online_after b (r ∷ rs) peer =
    online_after (if r.peer_id == peer then is_online r.reachability else b) rs peer

is_online-reachability_of : (c : Connection) → is_online (reachability_of c) ≡ true
is_online-reachability_of c = ground arith

-- If a listener takes a peer for online exactly where it was seen before a connect event, it does
-- so after the event: the last report about the peer says that it is online exactly where the peer
-- is seen.
pub online_after-on_connect :
    (conns : List Connection) (seen : List String) (peer : String)
    → online_after (has_seen seen peer) (on_connect conns seen).0 peer
      ≡ has_seen (on_connect conns seen).1 peer
unfolding on_connect
online_after-on_connect [] seen peer = refl
online_after-on_connect (c ∷ conns) seen peer = elim (Bool-cases (has_seen seen c.remote_peer)) [
  | inl known ↦ simp known (online_after-on_connect conns seen peer)
  | inr new ↦ simp new (
      ap (λ b. online_after b (on_connect conns (seen ++ c.remote_peer ∷ [])).0 peer)
        (step c seen peer)
      ∙ online_after-on_connect conns (seen ++ c.remote_peer ∷ []) peer)
]
  where
    step :
        (c : Connection) (seen : List String) (peer : String)
        → (if c.remote_peer == peer then is_online (reachability_of c) else has_seen seen peer)
          ≡ has_seen (seen ++ c.remote_peer ∷ []) peer
    step c seen peer =
        ground (
          arith,
          is_online-reachability_of c,
          any-append (λ x. x == peer) seen (c.remote_peer ∷ []),
        )

has_seen-to_set_onto :
    (peers seen : List String) (peer : String)
    → has_seen (to_set_onto peers seen) peer ≡ (has_seen peers peer || has_seen seen peer)
has_seen-to_set_onto [] seen peer = refl
has_seen-to_set_onto (x ∷ peers) seen peer = ground (
  arith,
  has_seen-to_set_onto peers (add_to_set seen x) peer,
  any-append (λ y. y == peer) seen (x ∷ []),
  eq_iff x peer,
)

-- A report of the gone peers leaves online those that are connected.
online_after-report_gone :
    (b : Bool) (current seen : List String) (peer : String)
    → online_after b (report_gone current seen) peer
      ≡ (if has_seen seen peer && not (has_seen current peer) then false else b)
unfolding report_gone
online_after-report_gone b current [] peer = refl
online_after-report_gone b current (x ∷ seen) peer = elim (Bool-cases (has_seen current x)) [
  | inl there ↦
      simp there (online_after-report_gone b current seen peer ∙ ground (arith, eq_iff x peer))
  | inr gone ↦ simp gone (
      online_after-report_gone (if x == peer then false else b) current seen peer
      ∙ ground (arith, eq_iff x peer))
]

-- If a listener takes a peer for online exactly where it was seen before a disconnect event, it
-- does so after the event, provided that the peer, if it is still connected, had been seen.
pub online_after-on_disconnect :
    (conns : List Connection) (seen : List String) (peer : String)
    → (has_seen (map (λ c. c.remote_peer) conns) peer ≡ true → has_seen seen peer ≡ true)
    → online_after (has_seen seen peer) (on_disconnect conns seen).0 peer
      ≡ has_seen (on_disconnect conns seen).1 peer
unfolding on_disconnect
online_after-on_disconnect conns seen peer known =
    let peers = map (λ c. c.remote_peer) conns in
    let current = to_set_onto peers [] in
    let same : has_seen current peer ≡ has_seen peers peer =
      ground (arith, has_seen-to_set_onto peers [] peer) in
    online_after-report_gone (has_seen seen peer) current seen peer
    ∙ elim (Bool-cases (has_seen current peer)) [
      | inl here ↦ simp (here, known (sym same ∙ here))
      | inr gone ↦ simp gone (ground arith)
    ]

-- The events of the node, with its connections at each.
pub data PeerEvent : Type 0 where
  connects disconnects : List Connection → PeerEvent

abbrev pub conns_at : PeerEvent → List Connection
conns_at (connects conns) = conns
conns_at (disconnects conns) = conns

abbrev pub on_peer_event : PeerEvent → List String → List Report × List String
on_peer_event (connects conns) seen = on_connect conns seen
on_peer_event (disconnects conns) seen = on_disconnect conns seen

-- The reports of a list of events, in their order.
abbrev pub peer_reports : List PeerEvent → List String → List Report
peer_reports [] seen = []
peer_reports (e ∷ es) seen = let r = on_peer_event e seen in r.0 ++ peer_reports es r.1

abbrev pub is_connected : String → List Connection → Bool
is_connected peer conns = has_seen (map (λ c. c.remote_peer) conns) peer

online_after-append :
    (b : Bool) (rs ss : List Report) (peer : String)
    → online_after b (rs ++ ss) peer ≡ online_after (online_after b rs peer) ss peer
online_after-append b [] ss peer = refl
online_after-append b (r ∷ rs) ss peer =
    online_after-append (if r.peer_id == peer then is_online r.reachability else b) rs ss peer

-- A peer that was seen is not reported by a connect event, and stays seen.
on_connect-seen :
    (conns : List Connection) (seen : List String) (peer : String) (b : Bool)
    → has_seen seen peer ≡ true
    → (online_after b (on_connect conns seen).0 peer ≡ b)
      × (has_seen (on_connect conns seen).1 peer ≡ true)
unfolding on_connect
on_connect-seen [] seen peer b h = (refl, h)
on_connect-seen (c ∷ conns) seen peer b h = elim (Bool-cases (has_seen seen c.remote_peer)) [
  | inl known ↦ simp known (on_connect-seen conns seen peer b h)
  | inr new ↦
      let other : (c.remote_peer == peer) ≡ false = unlike c.remote_peer new in
      let still : has_seen (seen ++ c.remote_peer ∷ []) peer ≡ true =
        (any-append (λ x. x == peer) seen (c.remote_peer ∷ []) ∙ ground (arith, h)) in
      let rest = on_connect-seen conns (seen ++ c.remote_peer ∷ []) peer b still in
      let same : (if c.remote_peer == peer then is_online (reachability_of c) else b) ≡ b =
        ground (arith, other) in
      simp new (
        ap (λ x. online_after x (on_connect conns (seen ++ c.remote_peer ∷ [])).0 peer) same
            ∙ rest.0,
        rest.1,
      )
]
  where
    unlike : (p : String) → has_seen seen p ≡ false → (p == peer) ≡ false
    unlike p new = elim (Bool-cases (p == peer)) [
      | inl same ↦
          absurd (cc (sym (subst (λ x. has_seen seen x ≡ false) ((eq_iff p peer).0 same) new) ∙ h))
      | inr other ↦ other
    ]

-- So does a connected one at a disconnect event.
on_disconnect-connected :
    (conns : List Connection) (seen : List String) (peer : String)
    → is_connected peer conns ≡ true
    → (online_after false (on_disconnect conns seen).0 peer ≡ false)
      × (has_seen (on_disconnect conns seen).1 peer ≡ true)
unfolding on_disconnect
on_disconnect-connected conns seen peer h = (
  online_after-report_gone false (to_set_onto (map (λ c. c.remote_peer) conns) []) seen peer
      ∙ ground arith,
  has_seen-to_set_onto (map (λ c. c.remote_peer) conns) [] peer ∙ ground (arith, h),
)

reports-seen :
    (es : List PeerEvent) (seen : List String) (peer : String)
    → All (λ e. is_connected peer (conns_at e) ≡ true) es
    → has_seen seen peer ≡ true
    → online_after false (peer_reports es seen) peer ≡ false
reports-seen [] seen peer there h = refl
reports-seen (connects conns ∷ es) seen peer there h =
    let one = on_connect-seen conns seen peer false h in
    let r = on_connect conns seen in
    online_after-append false r.0 (peer_reports es r.1) peer
    ∙ ap (λ b. online_after b (peer_reports es r.1) peer) one.0
    ∙ reports-seen es r.1 peer there.1 one.1
reports-seen (disconnects conns ∷ es) seen peer there h =
    let one = on_disconnect-connected conns seen peer there.0 in
    let r = on_disconnect conns seen in
    online_after-append false r.0 (peer_reports es r.1) peer
    ∙ ap (λ b. online_after b (peer_reports es r.1) peer) one.0
    ∙ reports-seen es r.1 peer there.1 one.1

-- A listener that does not take a peer for online which is connected at a disconnect event, as where
-- no connect event reported it before, does not come to do so as long as the peer stays connected:
-- neither by this event nor by any connect and disconnect events after it at which the peer is among
-- the connections.
pub missed_connect :
    (conns : List Connection) (es : List PeerEvent) (seen : List String) (peer : String)
    → is_connected peer conns ≡ true
    → All (λ e. is_connected peer (conns_at e) ≡ true) es
    → online_after false (peer_reports (disconnects conns ∷ es) seen) peer ≡ false
missed_connect conns es seen peer here there =
    let one = on_disconnect-connected conns seen peer here in
    let r = on_disconnect conns seen in
    online_after-append false r.0 (peer_reports es r.1) peer
    ∙ ap (λ b. online_after b (peer_reports es r.1) peer) one.0
    ∙ reports-seen es r.1 peer there one.1
