-- ===== src/Session/Groups.antt =====
-- Group topics and the end of a session: joinGroupTopic, leaveGroupTopic, publishGroupMessage and
-- stop in packages/network/src/session.ts. The payload of a group message is given as the text that
-- buildEnvelopePayload makes of it; the pubsub message listener is left out.
pub mod Topics
use skypier_chat.Prelude.{
  ℕ, String, Bool, true, false, not, ◌&&◌, ◌||◌, List, [], ◌∷◌, ◌++◌, any, select, if◌then◌else◌,
  ◌==◌,
}
use skypier_chat.Prelude.Text.{trim}
use skypier_chat.Protocol.{WireEnvelope, ChatMessage}
use skypier_chat.Session.{
  Host, Session, emit, called, dial_log, info, group_joined, group_left, delivery_status, sent,
  stopped, persist_queue, emit_state,
}
use skypier_chat.Session.Broadcast.{message_envelope}

-- The pubsub service of the node: whether the node has it, and whether its n-th call succeeds.
pub record Pubsub : Type 0 where
  pub present : Bool
  pub accepts : ℕ → Bool

-- A session with its group topics; `subscriptions` are the topics that the service of the node
-- holds, `published` what it was given to publish, the oldest first.
pub record GroupSession : Type 0 where
  pub session : Session
  pub active_group_topics : List String
  pub subscriptions : List String
  pub published : List (String × WireEnvelope)

-- How a call ends: with a result, or with the error of the service.
pub data GroupResult : Type 0 where
  returned : Bool → GroupResult
  thrown : GroupResult

abbrev pub has_topic : List String → String → Bool
has_topic topics t = any (λ x. x == t) topics

abbrev pub without_topic : List String → String → List String
without_topic topics t = select (λ x. not (x == t)) topics

-- A call of the service that fails changes nothing.
abbrev pub refused : GroupSession → GroupResult × GroupSession
refused g = (thrown, record g { session = called g.session })

-- A subscription that succeeds.
abbrev pub subscribed : String → GroupSession → GroupSession
subscribed t g = record g {
  session = called g.session;
  active_group_topics = t ∷ g.active_group_topics;
  subscriptions = t ∷ g.subscriptions;
}

abbrev pub log_group : GroupSession → Session → GroupSession
log_group g s = record g { session = s }

module _ (pubsub : Pubsub) where
  -- getPubsub() is not null
  abbrev pub has_pubsub : GroupSession → Bool
  has_pubsub g = g.session.has_node && pubsub.present

  abbrev pub join_trimmed : String → GroupSession → GroupResult × GroupSession
  join_trimmed t g =
      let joined = subscribed t g in
      if t == "" || not (has_pubsub g)
      then (returned false, g)
      else if has_topic g.active_group_topics t
      then (returned true, g)
      else if pubsub.accepts g.session.calls
      then (
        returned true,
        log_group joined (emit (dial_log "group" info (group_joined t)) joined.session),
      )
      else refused g

  unfoldable pub join_group_topic : String → GroupSession → GroupResult × GroupSession
  join_group_topic topic g = join_trimmed (trim topic) g

  abbrev pub left : String → GroupSession → GroupSession
  left t g = record g {
    session = emit (dial_log "group" info (group_left t)) (called g.session);
    active_group_topics = without_topic g.active_group_topics t;
    subscriptions = without_topic g.subscriptions t;
  }

  abbrev pub leave_trimmed : String → GroupSession → GroupResult × GroupSession
  leave_trimmed t g =
      if t == "" || not (has_topic g.active_group_topics t)
      then (returned true, g)
      else if has_pubsub g
      then if pubsub.accepts g.session.calls then (returned true, left t g) else refused g
      else (returned true, record g { active_group_topics = without_topic g.active_group_topics t })

  -- leaveGroupTopic; it returns nothing, for which `returned true` stands
  unfoldable pub leave_group_topic : String → GroupSession → GroupResult × GroupSession
  leave_group_topic topic g = leave_trimmed (trim topic) g

  -- The publication itself, once the topic is subscribed.
  abbrev pub publish_on :
      String → ChatMessage → WireEnvelope → GroupSession → GroupResult × GroupSession
  publish_on t m e g =
      if pubsub.accepts g.session.calls
      then (
        returned true,
        record g {
          session = emit (delivery_status m.id sent) (called g.session);
          published = g.published ++ (t, e) ∷ [];
        },
      )
      else refused g

  abbrev pub publish_trimmed :
      String → ChatMessage → WireEnvelope → GroupSession → GroupResult × GroupSession
  publish_trimmed t m e g =
      if t == "" || not (has_pubsub g)
      then (returned false, g)
      else if has_topic g.active_group_topics t
      then publish_on t m e g
      else if pubsub.accepts g.session.calls
      then publish_on t m e (subscribed t g)
      else refused g

  unfoldable pub publish_group_message :
      Host → ChatMessage → String → String → GroupSession → GroupResult × GroupSession
  publish_group_message host m payload topic g =
      publish_trimmed (trim topic) m (message_envelope host m payload g.session) g

-- The timers that `stop` clears first.
abbrev pub clear_timers : Session → Session
clear_timers s = record s { retry_loop = false; relay_keepalive = false; relay_check = false }

module _ (host : Host) where
  abbrev pub stop_node : Session → Session
  stop_node s = emit_state host (
      persist_queue (record (called s) {
        has_node = false;
        state = record s.state { status = stopped; connected_peers = [] };
      }))

  -- stop, where `node_stops` says whether the node's own stop succeeds: a node that is stopped holds
  -- no subscriptions any more; where its stop throws, the node stays, and the topics are cleared
  unfoldable pub stop : Bool → GroupSession → GroupResult × GroupSession
  stop node_stops g =
      let s = clear_timers g.session in
      if not g.session.has_node
      then (
        returned true,
        record g {
          session = emit_state host (record s { state = record s.state { status = stopped } });
        },
      )
      else if node_stops
      then (
        returned true,
        record g { session = stop_node s; active_group_topics = []; subscriptions = [] },
      )
      else (thrown, record g { session = called s; active_group_topics = [] })
