-- ===== src/Cost/Admission/Tests.antt =====
-- Two slots' worth of calls on one slot.
use openai_compatible_bridge.Prelude.{true, false, some, [], ◌∷◌, ◌≡◌, refl}
use openai_compatible_bridge.Prelude.Int.{pos}
use openai_compatible_bridge.Cost.Admission.{
  Admissions, new_admissions, Meets, with_slot, arrive, begins, gives_up, step, Reach, start, next,
  all_done,
}
use openai_compatible_bridge.Cost.Admission.Slots.{Reach-all_free}

abbrev in_time : Meets
in_time = record { late = false; submits = true }

-- The first call holds the slot and has given up, the second waits.
abbrev busy : Admissions
busy = record {
  closed = false;
  free = 0;
  waiting = 8 ∷ [];
  admission_waiters = pos 1;
  admissions = 7 ∷ [];
  admission_timeouts = 1;
  admission_rejected = 0;
}

abbrev first_running : Admissions
first_running = record (new_admissions 1) { free = 0; admissions = 7 ∷ [] }

abbrev second_waits : Admissions
second_waits = record first_running { waiting = 8 ∷ []; admission_waiters = pos 1 }

begins_first : step (begins 7 in_time) (new_admissions 1) ≡ some first_running
unfolding step arrive with_slot
begins_first = refl

begins_second : step (begins 8 in_time) first_running ≡ some second_waits
unfolding step arrive with_slot
begins_second = refl

first_gives_up : step (gives_up 7) second_waits ≡ some busy
unfolding step
first_gives_up = refl

Reach-busy : Reach 1 busy
Reach-busy =
    next (next (next start (begins 7 in_time) begins_first) (begins 8 in_time) begins_second)
      (gives_up 7) first_gives_up

Reach-all_free_example :
    (a' : Admissions) × (all_done busy.admissions busy ≡ some a') × (a'.free ≡ 1)
Reach-all_free_example = Reach-all_free 1 busy Reach-busy
