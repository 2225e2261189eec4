-- ===== src/Embedding/Queue/Tests.antt =====
-- Runs of the slot queue, and the instances of its theorems.
use openai_compatible_bridge.Prelude.{◌+◌, ◌-◌, ◌≤◌, ◌≡◌, refl, none, some, [], ◌∷◌, length}
use openai_compatible_bridge.Prelude.Int.{pos}
use openai_compatible_bridge.Embedding.Queue.{
  handed, World, Event, arrive, finish, interrupt, fail, step, new, Reach, initial, after,
  acquire_slot,
}
use openai_compatible_bridge.Embedding.Queue.Invariant.{handed_calls}
use openai_compatible_bridge.Embedding.Queue.Promises.{
  Reach-counters_exact, HandedOver, Reach-finish_oldest,
}

-- The world after an event that is possible.
abbrev advance : Event → World → World
advance e g = elim (step e g) [ none ↦ g | some g' ↦ g' ]

-- One slot: a request is served, three wait, and the oldest of them times out.
abbrev serving_one : World
serving_one = advance arrive (new 1)

abbrev crowded : World
crowded = advance arrive (advance arrive (advance arrive serving_one))

abbrev crowded_timeout : World
crowded_timeout = advance (interrupt 0) crowded

abbrev handed_on : World
handed_on = advance finish crowded_timeout

Reach-crowded_timeout : Reach 1 crowded_timeout
unfolding step new acquire_slot
Reach-crowded_timeout =
    after (interrupt 0)
      (after arrive (after arrive (after arrive (after arrive initial refl) refl) refl) refl) refl

-- The cancelled waiter is skipped, and the next one gets the slot.
handed_on_state :
    (handed_on.slots.future 1 ≡ handed)
    × (handed_on.slots.waiters ≡ 2 ∷ [])
    × (handed_on.slots.queue_depth ≡ pos 2)
unfolding step new acquire_slot
handed_on_state = (refl, refl, refl)

-- A timeout that meets the handover gives the slot to the next in line.
late_timeout : (advance (fail 1) handed_on).slots.future 2 ≡ handed
unfolding step new acquire_slot
late_timeout = refl

Reach-counters_exact_example :
    (crowded_timeout.slots.inflight ≡ pos (crowded_timeout.serving + handed_calls crowded_timeout))
    × (crowded_timeout.slots.queue_depth
        ≡ pos (length crowded_timeout.suspended - handed_calls crowded_timeout))
    × (crowded_timeout.serving + handed_calls crowded_timeout ≤ 1)
Reach-counters_exact_example = Reach-counters_exact 1 Reach-crowded_timeout

Reach-finish_oldest_example : HandedOver crowded_timeout handed_on
unfolding step new acquire_slot
Reach-finish_oldest_example = Reach-finish_oldest 1 1 Reach-crowded_timeout refl refl refl
