-- ===== src/Playback.antt =====
-- The playback of inbound call audio, from apps/web/src/hooks/useAudioCall.ts: the pipeline that
-- puts chunks in the order of their numbers and feeds them to a SourceBuffer. `Media` stands for
-- the browser's answers: the n-th call of appendBuffer takes its bytes or throws, and
-- addSourceBuffer works or throws; what appendBuffer takes opens an ended media source again. The microtask that a refused chunk leaves is run at once, since
-- every flush is the last thing that its caller does to the pipeline.
pub mod Maps
pub mod Drained
pub mod Bounds
pub mod Order
pub mod Forced
pub mod Played
pub mod Arrived
pub mod Handed
mod Tests
use skypier_chat.Prelude.{
  ℕ, zero, suc, ◌+◌, ◌-◌, ◌*◌, max, String, Bool, true, false, not, ◌&&◌, Option, none, some, List,
  [], ◌∷◌, ◌++◌, length, is_some, map, ltb, leb, if◌then◌else◌,
}
use Prim.Native.Nat.{compare, Ordering}

abbrev pub Bytes : Type 0
Bytes = List ℕ

abbrev pub max_playback_queue_bytes : ℕ
max_playback_queue_bytes = 3 * 1024 * 1024

abbrev pub max_pending_audio_chunks : ℕ
max_pending_audio_chunks = 64

abbrev pub same_number : ℕ → ℕ → Bool
same_number a b = elim (compare a b) [ Ordering.eq ↦ true | _ ↦ false ]

-- `Map<number, Uint8Array>` in the order of insertion.
abbrev pub Chunks : Type 0
Chunks = List (ℕ × Bytes)

abbrev pub get_chunk : Chunks → ℕ → Option Bytes
get_chunk [] n = none
get_chunk ((k, b) ∷ m) n = if same_number k n then some b else get_chunk m n

abbrev pub delete_chunk : Chunks → ℕ → Chunks
delete_chunk [] n = []
delete_chunk ((k, b) ∷ m) n =
    let rest = delete_chunk m n in if same_number k n then rest else (k, b) ∷ rest

-- Array.from(m.keys()).sort((a, b) => a - b)
abbrev pub insert_number : ℕ → List ℕ → List ℕ
insert_number n [] = n ∷ []
insert_number n (k ∷ ks) = let rest = insert_number n ks in if leb n k then n ∷ k ∷ ks else k ∷ rest

abbrev pub sorted_keys : Chunks → List ℕ
sorted_keys [] = []
sorted_keys ((k, b) ∷ m) = insert_number k (sorted_keys m)

-- `appended` collects what appendBuffer took.
pub record SourceBuffer : Type 0 where
  pub updating : Bool
  pub appended : List Bytes

-- `is_open` says that the media source's state is 'open'; `appends` counts the calls of
-- appendBuffer. The audio element and its URL are left out.
pub record Pipeline : Type 0 where
  pub call_id : String
  pub mime_type : String
  pub source_buffer : Option SourceBuffer
  pub queue : List Bytes
  pub queue_bytes : ℕ
  pub expected_sequence : ℕ
  pub pending_by_sequence : Chunks
  pub ended : Bool
  pub is_open : Bool
  pub appends : ℕ

pub record Media : Type 0 where
  pub is_type_supported : String → Bool
  pub add_source_buffer : String → Bool
  pub append_buffer : ℕ → Bool

unfoldable pub new_pipeline : String → String → Pipeline
new_pipeline call_id mime_type = record {
  call_id = call_id;
  mime_type = mime_type;
  source_buffer = none;
  queue = [];
  queue_bytes = 0;
  expected_sequence = 0;
  pending_by_sequence = [];
  ended = false;
  is_open = false;
  appends = 0;
}

-- queue.push(chunk), with the count of the bytes
abbrev pub push_chunk : Bytes → Pipeline → Pipeline
push_chunk b p = record p { queue = p.queue ++ b ∷ []; queue_bytes = p.queue_bytes + length b }

-- The chunk that is expected next goes from the waiting ones to the queue.
abbrev pub take_next : Bytes → Pipeline → Pipeline
take_next b p = push_chunk b (record p {
  pending_by_sequence = delete_chunk p.pending_by_sequence p.expected_sequence;
  expected_sequence = p.expected_sequence + 1;
})

abbrev pub next_chunk : Pipeline → Option Bytes
next_chunk p = get_chunk p.pending_by_sequence p.expected_sequence

abbrev pub when_some : Option Bytes → Pipeline → (Bytes → Pipeline) → Pipeline
when_some none p f = p
when_some (some b) p f = f b

-- The first loop of drainPendingIntoPlaybackQueue; each turn takes a chunk that waits.
abbrev pub drain_turns : ℕ → Pipeline → Pipeline
drain_turns zero p = p
drain_turns (suc n) p = when_some (next_chunk p) p (λ b. drain_turns n (take_next b p))

unfoldable pub drain : Pipeline → Pipeline
drain p = drain_turns (length p.pending_by_sequence) p

-- One turn of its second loop, for the end of the call's audio.
abbrev pub force_chunk : Option Bytes → ℕ → Pipeline → Pipeline
force_chunk none n p = p
force_chunk (some b) n p =
    let q =
      push_chunk b (record p { pending_by_sequence = delete_chunk p.pending_by_sequence n }) in
    record q { expected_sequence = max q.expected_sequence (n + 1) }

abbrev pub force_chunks : List ℕ → Pipeline → Pipeline
force_chunks [] p = p
force_chunks (n ∷ ns) p = force_chunks ns (force_chunk (get_chunk p.pending_by_sequence n) n p)

unfoldable pub drain_all : Pipeline → Pipeline
drain_all p = let q = drain p in force_chunks (sorted_keys q.pending_by_sequence) q

-- More chunks wait than are kept: the gap before the first of them is given up.
abbrev pub expect_first : List ℕ → Pipeline → Pipeline
expect_first [] p = p
expect_first (n ∷ ns) p = record p { expected_sequence = n }

unfoldable pub skip_gap : Pipeline → Pipeline
skip_gap p =
    if ltb max_pending_audio_chunks (length p.pending_by_sequence)
    then expect_first (sorted_keys p.pending_by_sequence) p
    else p

unfoldable pub keep_chunk : ℕ → Bytes → Pipeline → Pipeline
keep_chunk n b p = record p { pending_by_sequence = p.pending_by_sequence ++ (n, b) ∷ [] }

-- The oldest chunks of the queue go while it holds too many bytes and more than one chunk.
abbrev pub drop_chunks : List Bytes → Pipeline → Pipeline
drop_chunks [] p = p
drop_chunks (b ∷ []) p = p
drop_chunks (b ∷ c ∷ bs) p =
    let rest =
      drop_chunks (c ∷ bs) (record p { queue = c ∷ bs; queue_bytes = p.queue_bytes - length b }) in
    if ltb max_playback_queue_bytes p.queue_bytes then rest else p

unfoldable pub drop_excess : Pipeline → Pipeline
drop_excess p = drop_chunks p.queue p

abbrev pub append_chunk : Bytes → SourceBuffer → SourceBuffer
append_chunk b buffer = record { updating = true; appended = buffer.appended ++ b ∷ [] }

-- What happens to a pipeline.
pub data PlaybackEvent : Type 0 where
  opened finished marked_end : PlaybackEvent
  arrived : ℕ → Bytes → PlaybackEvent

-- The SourceBuffer is done with a chunk.
abbrev pub updated : Option SourceBuffer → Option SourceBuffer
updated none = none
updated (some buffer) = some (record buffer { updating = false })

module _ (media : Media) where
  abbrev pub flush_chunks : SourceBuffer → List Bytes → Pipeline → Pipeline
  flush_chunks buffer [] p = record p { is_open = p.is_open && not p.ended }
  flush_chunks buffer (b ∷ bs) p =
      let q = record p {
        queue = bs;
        queue_bytes = p.queue_bytes - length b;
        appends = p.appends + 1;
      } in
      let rest = flush_chunks buffer bs q in
      if media.append_buffer p.appends
      then record q { source_buffer = some (append_chunk b buffer); is_open = true }
      else rest

  abbrev pub flush_into : Option SourceBuffer → Pipeline → Pipeline
  flush_into none p = p
  flush_into (some buffer) p = if buffer.updating then p else flush_chunks buffer p.queue p

  unfoldable pub flush_playback_queue : Pipeline → Pipeline
  flush_playback_queue p = flush_into p.source_buffer p

  -- The handler of 'updateend'.
  unfoldable pub update_end : Pipeline → Pipeline
  update_end p = flush_playback_queue (record p { source_buffer = updated p.source_buffer })

  -- The handler of 'sourceopen', when the media source's state has become 'open'.
  unfoldable pub source_open : Pipeline → Pipeline
  source_open p =
      let q = record p { is_open = true } in
      if is_some p.source_buffer
      then q
      else if media.add_source_buffer p.mime_type
      then flush_playback_queue
          (record q { source_buffer = some (record { updating = false; appended = [] }) })
      else q

  -- handleIncomingAudioChunk for an end marker, where there is a pipeline.
  unfoldable pub handle_end : Pipeline → Pipeline
  handle_end p = flush_playback_queue (record (drain_all p) { ended = true })

  -- handleIncomingAudioChunk for a chunk with its number and its decoded bytes.
  unfoldable pub handle_chunk : ℕ → Bytes → Pipeline → Pipeline
  handle_chunk n b p =
      if ltb n p.expected_sequence
      then p
      else if is_some (get_chunk p.pending_by_sequence n)
      then p
      else flush_playback_queue (drop_excess (drain (skip_gap (keep_chunk n b p))))

  abbrev pub on_event : PlaybackEvent → Pipeline → Pipeline
  on_event opened p = source_open p
  on_event finished p = update_end p
  on_event marked_end p = handle_end p
  on_event (arrived n b) p = handle_chunk n b p

  abbrev pub on_events : List PlaybackEvent → Pipeline → Pipeline
  on_events [] p = p
  on_events (e ∷ es) p = on_events es (on_event e p)
