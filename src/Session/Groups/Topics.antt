-- ===== src/Session/Groups/Topics.antt =====
-- The session's group topics, beside the subscriptions of its pubsub service.
use skypier_chat.Prelude.{
  String, ◌≡◌, refl, ap, true, false, not, ◌||◌, List, [], ◌∷◌, ◌++◌, ◌==◌, Bool, Bool-cases, inl,
  inr, All, arith, eq_refl,
}
use skypier_chat.Prelude.Text.{trim}
use skypier_chat.Protocol.{WireEnvelope, ChatMessage}
use skypier_chat.Session.{Host, emit_state, persist_queue}
use skypier_chat.Session.Broadcast.{message_envelope}
use skypier_chat.Session.Groups.{
  Pubsub, GroupSession, GroupResult, returned, has_topic, without_topic, has_pubsub, subscribed,
  join_trimmed, join_group_topic, leave_trimmed, leave_group_topic, publish_on, publish_trimmed,
  publish_group_message, stop,
}

pub data GroupOperation : Type 0 where
  join leave : String → GroupOperation
  publish : ChatMessage → String → String → GroupOperation
  stopping : Bool → GroupOperation

-- The operation is no stop whose node throws.
abbrev pub IsClean : GroupOperation → Type 0
IsClean (stopping false) = true ≡ false
IsClean _ = Unit

-- The topics are those of the service; where there is no service there are none.
abbrev pub IsTracked : Pubsub → GroupSession → Type 0
IsTracked pubsub g =
    (g.active_group_topics ≡ g.subscriptions)
    × (has_pubsub pubsub g ≡ false → g.active_group_topics ≡ [])

module _ (pubsub : Pubsub) (host : Host) where
  abbrev pub perform : GroupOperation → GroupSession → GroupSession
  perform (join topic) g = (join_group_topic pubsub topic g).1
  perform (leave topic) g = (leave_group_topic pubsub topic g).1
  perform (publish m payload topic) g = (publish_group_message pubsub host m payload topic g).1
  perform (stopping node_stops) g = (stop host node_stops g).1

  abbrev pub perform_all : List GroupOperation → GroupSession → GroupSession
  perform_all [] g = g
  perform_all (op ∷ ops) g = perform_all ops (perform op g)

  subscribed-IsTracked :
      (t : String) (g : GroupSession)
      → has_pubsub pubsub g ≡ true
      → IsTracked pubsub g
      → IsTracked pubsub (subscribed t g)
  subscribed-IsTracked t g up h = (ap (λ ts. t ∷ ts) h.0, λ down. absurd (ground arith))

  join_trimmed-IsTracked :
      (t : String) (g : GroupSession)
      → IsTracked pubsub g
      → IsTracked pubsub (join_trimmed pubsub t g).1
  join_trimmed-IsTracked t g h = elim (Bool-cases (t == "" || not (has_pubsub pubsub g))) [
    | inl useless ↦ simp useless h
    | inr useful ↦ elim (Bool-cases (has_topic g.active_group_topics t)) [
      | inl known ↦ simp (useful, known) h
      | inr new ↦ elim (Bool-cases (pubsub.accepts g.session.calls)) [
        | inl ok ↦ simp (useful, new, ok) (subscribed-IsTracked t g (ground arith) h)
        | inr fails ↦ simp (useful, new, fails) h
      ]
    ]
  ]

  leave_trimmed-IsTracked :
      (t : String) (g : GroupSession)
      → IsTracked pubsub g
      → IsTracked pubsub (leave_trimmed pubsub t g).1
  leave_trimmed-IsTracked t g h =
      elim (Bool-cases (t == "" || not (has_topic g.active_group_topics t))) [
        | inl useless ↦ simp useless h
        | inr useful ↦ elim (Bool-cases (has_pubsub pubsub g)) [
          | inl up ↦ elim (Bool-cases (pubsub.accepts g.session.calls)) [
            | inl ok ↦
                simp (useful, up, ok)
                  (ap (λ ts. without_topic ts t) h.0, λ down. absurd (ground arith))
            | inr fails ↦ simp (useful, up, fails) (h.0, λ down. absurd (cc down))
          ]
          | inr down ↦ absurd (unknown-of_none g t (h.1 down) (ground arith))
        ]
      ]
    where
      unknown-of_none :
          (g : GroupSession) (t : String)
          → g.active_group_topics ≡ []
          → has_topic g.active_group_topics t ≡ true
          → ⊥
      unknown-of_none g t none_active has = ground arith

  publish_on-IsTracked :
      (t : String) (m : ChatMessage) (e : WireEnvelope) (g : GroupSession)
      → IsTracked pubsub g
      → IsTracked pubsub (publish_on pubsub t m e g).1
  publish_on-IsTracked t m e g h = elim (Bool-cases (pubsub.accepts g.session.calls)) [
    | inl ok ↦ simp ok h
    | inr fails ↦ simp fails h
  ]

  publish_trimmed-IsTracked :
      (t : String) (m : ChatMessage) (e : WireEnvelope) (g : GroupSession)
      → IsTracked pubsub g
      → IsTracked pubsub (publish_trimmed pubsub t m e g).1
  publish_trimmed-IsTracked t m e g h = elim (Bool-cases (t == "" || not (has_pubsub pubsub g))) [
    | inl useless ↦ simp useless h
    | inr useful ↦ elim (Bool-cases (has_topic g.active_group_topics t)) [
      | inl known ↦ simp (useful, known) (publish_on-IsTracked t m e g h)
      | inr new ↦ elim (Bool-cases (pubsub.accepts g.session.calls)) [
        | inl ok ↦
            simp (useful, new, ok)
              (publish_on-IsTracked t m e (subscribed t g)
                (subscribed-IsTracked t g (ground arith) h))
        | inr fails ↦ simp (useful, new, fails) h
      ]
    ]
  ]

  stop-IsTracked : (g : GroupSession) → IsTracked pubsub g → IsTracked pubsub (stop host true g).1
  unfolding stop emit_state persist_queue
  stop-IsTracked g h = elim (Bool-cases g.session.has_node) [
    | inl up ↦ simp up (refl, λ down. refl)
    | inr down ↦ simp down (h.0, λ k. h.1 (ground arith))
  ]

  perform-IsTracked :
      (op : GroupOperation) (g : GroupSession)
      → IsClean op
      → IsTracked pubsub g
      → IsTracked pubsub (perform op g)
  unfolding join_group_topic leave_group_topic publish_group_message
  perform-IsTracked (join topic) g c h = join_trimmed-IsTracked (trim topic) g h
  perform-IsTracked (leave topic) g c h = leave_trimmed-IsTracked (trim topic) g h
  perform-IsTracked (publish m payload topic) g c h =
      publish_trimmed-IsTracked (trim topic) m (message_envelope host m payload g.session) g h
  perform-IsTracked (stopping true) g c h = stop-IsTracked g h
  perform-IsTracked (stopping false) g c h = absurd (cc c)

  -- If the session's topics are exactly the subscriptions that the pubsub service holds, and there
  -- are none where there is no service, then so it is after any sequence of group operations and
  -- stops of the session, whether the service accepts them or not, if no stop of the node throws.
  pub perform_all-IsTracked :
      (ops : List GroupOperation) (g : GroupSession)
      → All IsClean ops
      → IsTracked pubsub g
      → IsTracked pubsub (perform_all ops g)
  perform_all-IsTracked [] g c h = h
  perform_all-IsTracked (op ∷ ops) g c h =
      perform_all-IsTracked ops (perform op g) c.1 (perform-IsTracked op g c.0 h)

module _ (pubsub : Pubsub) where
  -- What a publication that succeeds comes to.
  abbrev Published : String → WireEnvelope → GroupSession → GroupResult × GroupSession → Type 0
  Published t e g r =
      r.0 ≡ returned true
      → (r.1.published ≡ g.published ++ (t, e) ∷ []) × (has_topic r.1.active_group_topics t ≡ true)

  publish_on-Published :
      (t : String) (m : ChatMessage) (e : WireEnvelope) (g : GroupSession)
      → has_topic g.active_group_topics t ≡ true
      → Published t e g (publish_on pubsub t m e g)
  publish_on-Published t m e g known = elim (Bool-cases (pubsub.accepts g.session.calls)) [
    | inl ok ↦ simp ok (λ r. (refl, known))
    | inr fails ↦ simp fails (λ r. absurd (cc r))
  ]

  publish_trimmed-Published :
      (t : String) (m : ChatMessage) (e : WireEnvelope) (g : GroupSession)
      → Published t e g (publish_trimmed pubsub t m e g)
  publish_trimmed-Published t m e g = elim (Bool-cases (t == "" || not (has_pubsub pubsub g))) [
    | inl useless ↦ simp useless (λ r. absurd (cc r))
    | inr useful ↦ elim (Bool-cases (has_topic g.active_group_topics t)) [
      | inl known ↦ simp (useful, known) (publish_on-Published t m e g known)
      | inr new ↦ elim (Bool-cases (pubsub.accepts g.session.calls)) [
        | inl ok ↦
            simp (useful, new, ok)
              (publish_on-Published t m e (subscribed t g) (rw (eq_refl t) refl))
        | inr fails ↦ simp (useful, new, fails) (λ r. absurd (cc r))
      ]
    ]
  ]

  -- Where a group message reports success, the service was given it once, under the trimmed topic
  -- and as the message's envelope, and the session has joined that topic.
  pub publish_group_message-published :
      (host : Host) (m : ChatMessage) (payload topic : String) (g : GroupSession)
      → (publish_group_message pubsub host m payload topic g).0 ≡ returned true
      → ((publish_group_message pubsub host m payload topic g).1.published
          ≡ g.published ++ (trim topic, message_envelope host m payload g.session) ∷ [])
        × (has_topic
              (publish_group_message pubsub host m payload topic g).1.active_group_topics
              (trim topic)
            ≡ true)
  unfolding publish_group_message
  publish_group_message-published host m payload topic g =
      publish_trimmed-Published (trim topic) m (message_envelope host m payload g.session) g
