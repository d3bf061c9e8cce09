-- ===== src/Host/Handle/Tests.antt =====
-- A program that holds two slots, assigns one handle to the other, and releases what is left.
use shm.Base.{◌≡◌, refl, true, false, some, ◌==◌, if◌then◌else◌}
use shm.Host.Handle.{
  State, Reachable, starts, then_steps, acquires, assigns, handle_on, empty_handle, set_var, mark,
}
use shm.Host.Handle.Owns.{Owns, Reachable-Owns}

abbrev idle : State
idle = record { alive = true; vars = λ k. empty_handle; held = λ i. false }

abbrev one : State
one = record idle { vars = set_var idle.vars 0 (handle_on (some 3)); held = mark idle.held 3 }

abbrev two : State
two = record one { vars = set_var one.vars 1 (handle_on (some 5)); held = mark one.held 5 }

two-Reachable : Reachable two
two-Reachable =
    then_steps
      (then_steps (starts idle (λ k. refl) (λ i. refl)) (acquires {s = idle} 0 3 refl refl refl))
      (acquires {s = one} 1 5 refl refl refl)

abbrev assigned : State
assigned = record two {
  vars = set_var (set_var two.vars 0 (handle_on (some 5))) 1 empty_handle;
  held = λ j. if j == 3 then false else two.held j;
}

assigned-Reachable : Reachable assigned
assigned-Reachable = then_steps two-Reachable (assigns {s = two} 0 1 (λ q. cc))

-- Slot 3 was freed by the assignment, and slot 5 is still held.
assigned-held : (assigned.held 3 ≡ false) × (assigned.held 5 ≡ true)
assigned-held = (refl, refl)

Reachable-Owns_example : Owns assigned
Reachable-Owns_example = Reachable-Owns assigned-Reachable
