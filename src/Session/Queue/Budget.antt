-- ===== src/Session/Queue/Budget.antt =====
-- The retry loop, beside the attempts that the queue's entries have left.
use skypier_chat.Prelude.{
  ℕ, ◌+◌, ◌-◌, ◌*◌, ◌≤◌, ◌≡◌, refl, ap, ◌∙◌, Bool, true, false, not, Bool-cases, inl, inr, List, [],
  ◌∷◌, ◌++◌, arith, length, any, select, All, All-append, All-select,
}
use skypier_chat.Session.{Host, Session, QueuedEnvelope, emit_state, persist_queue, emit_delivery}
use skypier_chat.Session.Send.Frame.{send_envelope-SameQueue}
use skypier_chat.Session.Queue.{retry_tick, retry_one, retry_all, is_due, max_retries}
use skypier_chat.Session.Queue.Thinned.{Thinned, done, drop, keep, NextCount, All-Thinned}
use skypier_chat.Session.Queue.Passes.{Ticked, retry_tick-Ticked}

-- The ticks that may still try the entry: 50 retries, and the tick that gives it up.
abbrev left : QueuedEnvelope → ℕ
left q = max_retries + 1 - q.retry_count

abbrev pub budget : List QueuedEnvelope → ℕ
budget [] = 0
budget (q ∷ qs) = left q + budget qs

budget-append : (xs ys : List QueuedEnvelope) → budget (xs ++ ys) ≡ budget xs + budget ys
budget-append [] ys = omega arith
budget-append (x ∷ xs) ys = omega (arith, budget-append xs ys)

budget-select :
    (p : QueuedEnvelope → Bool) (xs : List QueuedEnvelope)
    → budget (select (λ x. not (p x)) xs) + budget (select p xs) ≡ budget xs
budget-select p [] = omega arith
budget-select p (x ∷ xs) = ground (arith, budget-select p xs)

pub budget_bound : (qs : List QueuedEnvelope) → budget qs ≤ 51 * length qs
budget_bound [] = omega arith
budget_bound (q ∷ qs) = omega (arith, budget_bound qs)

-- A pass over entries that are due uses up an attempt of each of them.
budget-Thinned :
    {xs ys : List QueuedEnvelope}
    → Thinned NextCount xs ys
    → All (λ q. q.retry_count ≤ max_retries) xs
    → budget ys + length xs ≤ budget xs
budget-Thinned done h = omega arith
budget-Thinned (drop t) h = omega (arith, budget-Thinned t h.1)
budget-Thinned (keep p e r t) h = omega (arith, budget-Thinned t h.1)

abbrev pub bit : Bool → ℕ
bit true = 1
bit false = 0

any-select :
    (p : QueuedEnvelope → Bool) (xs : List QueuedEnvelope) → bit (any p xs) ≤ length (select p xs)
any-select p [] = omega arith
any-select p (x ∷ xs) = elim (Bool-cases (p x)) [
  | inl e ↦ simp e (omega arith)
  | inr e ↦ simp e (any-select p xs)
]

abbrev pub IsCounted : Session → Type 0
IsCounted s = All (λ q. q.retry_count ≤ max_retries) s.queue

module _ (host : Host) where
  Ticked-budget :
      (now : ℕ) (qs zs : List QueuedEnvelope)
      → All (λ q. q.retry_count ≤ max_retries) qs
      → Ticked host now qs zs
      → bit (any (is_due now) qs) + budget zs ≤ budget qs
  Ticked-budget now qs zs h (new, e, t) = omega (
    arith,
    ap budget e,
    budget-append (select (λ x. not (is_due now x)) qs) new,
    budget-select (is_due now) qs,
    budget-Thinned t (All-select _ (is_due now) qs h),
    any-select (is_due now) qs,
  )

  Ticked-IsCounted :
      (now : ℕ) (qs zs : List QueuedEnvelope)
      → All (λ q. q.retry_count ≤ max_retries) qs
      → Ticked host now qs zs
      → All (λ q. q.retry_count ≤ max_retries) zs
  Ticked-IsCounted now qs zs h (new, e, t) = rw e (
      All-append _ (select (λ x. not (is_due now x)) qs) new (All-select _ _ qs h) (
        All-Thinned (λ q. q.retry_count ≤ max_retries) (λ x y p e' r k. omega arith) t
          (All-select _ (is_due now) qs h)))

  retry_one-node : (q : QueuedEnvelope) (s : Session) → (retry_one host q s).has_node ≡ s.has_node
  unfolding retry_one emit_delivery
  retry_one-node q s = ground (arith, send_envelope-SameQueue host q.peer_id q.envelope s)

  retry_all-node :
      (qs : List QueuedEnvelope) (s : Session) → (retry_all host qs s).has_node ≡ s.has_node
  unfolding retry_all
  retry_all-node [] s = refl
  retry_all-node (q ∷ qs) s = retry_all-node qs (retry_one host q s) ∙ retry_one-node q s

  retry_tick-node : (s : Session) → (retry_tick host s).has_node ≡ s.has_node
  unfolding retry_tick emit_state persist_queue
  retry_tick-node s =
      let now = host.now s.calls in
      ground (
        arith,
        retry_all-node (select (is_due now) s.queue)
            (record s { queue = select (λ x. not (is_due now x)) s.queue }),
      )

-- Ticks of the retry timer, each with the host as it is at that tick: its own time and its own
-- answers of the network.
abbrev pub tick_all : List Host → Session → Session
tick_all [] s = s
tick_all (host ∷ hosts) s = tick_all hosts (retry_tick host s)

-- How many of the ticks find an entry that is due.
abbrev pub busy_ticks : List Host → Session → ℕ
busy_ticks [] s = 0
busy_ticks (host ∷ hosts) s =
    bit (any (is_due (host.now s.calls)) s.queue) + busy_ticks hosts (retry_tick host s)

busy_ticks-budget :
    (hosts : List Host) (s : Session)
    → s.has_node ≡ true
    → IsCounted s
    → busy_ticks hosts s + budget (tick_all hosts s).queue ≤ budget s.queue
busy_ticks-budget [] s up c = omega arith
busy_ticks-budget (host ∷ hosts) s up c =
    let t = retry_tick-Ticked host s up in
    let now = host.now s.calls in
    omega (
      arith,
      Ticked-budget host now s.queue (retry_tick host s).queue c t,
      busy_ticks-budget hosts (retry_tick host s) (retry_tick-node host s ∙ up)
          (Ticked-IsCounted host now s.queue (retry_tick host s).queue c t),
    )

-- Whatever the clock and the network answer at each tick of the retry timer, of any number of ticks
-- at most 51 for each entry of the queue find anything to retry, however many idle ones lie between
-- them, where no other operation runs and no entry is past 50 retries at the beginning.
pub busy_ticks_bound :
    (hosts : List Host) (s : Session)
    → s.has_node ≡ true
    → IsCounted s
    → busy_ticks hosts s ≤ 51 * length s.queue
busy_ticks_bound hosts s up c = omega (arith, busy_ticks-budget hosts s up c, budget_bound s.queue)
