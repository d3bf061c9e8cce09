-- ===== src/Host/Handle.antt =====
-- include/shm/DirectHost.h: the handles `HeldSlot` and `ZeroCopySlot`, which own a claimed slot and
-- free it once. Both are moved, assigned, released and destroyed alike.
pub mod Owning
pub mod Owns
mod Tests
use shm.Base.{ℕ, ◌≡◌, ◌≢◌, Bool, true, false, ◌&&◌, Option, none, some, ◌==◌, if◌then◌else◌}
use shm.Slot.Exchange.{
  Error, timeout, buffer_too_small, invalid_args, not_connected, resource_exhausted, internal_error,
  protocol_violation,
}

-- A handle: whether it has a host, its slot, which is `none` for -1, and whether its weak pointer was
-- taken from a host.
pub record Handle : Type 0 where
  pub host : Bool
  pub slot_idx : Option ℕ
  pub weak_state : Bool

-- A handle that was moved from, and one made by the default constructor.
abbrev pub empty_handle : Handle
empty_handle = record { host = false; slot_idx = none; weak_state = false }

-- A handle on what an acquisition answered.
abbrev pub handle_on : Option ℕ → Handle
handle_on idx = record { host = true; slot_idx = idx; weak_state = true }

-- The slot of a handle whose host lives, as `alive` says.
abbrev pub slot_of : Bool → Handle → Option ℕ
slot_of alive h = if (alive && h.weak_state) && h.host then h.slot_idx else none

-- `IsValid`
abbrev pub is_valid : Bool → Handle → Bool
is_valid alive h = elim (slot_of alive h) [ none ↦ false | some i ↦ true ]

-- What an operation leaves of a handle, and the slot that it sets to FREE, if any.
pub record Released : Type 0 where
  pub handle : Handle
  pub freed : Option ℕ

-- `Release`, and the destructors.
abbrev pub release : Bool → Handle → Released
release alive h = record { handle = record h { slot_idx = none }; freed = slot_of alive h }

-- A move assignment from another handle: `this` is released, and has what the other had.
abbrev pub move_assign : Bool → Handle → Handle → Released
move_assign alive h other = record { handle = other; freed = (release alive h).freed }

-- An error behind which a handle gives its slot up: the transaction has freed it, or, on a timeout, it
-- is left to the reclaim.
abbrev pub drops : Error → Bool
drops timeout = true
drops protocol_violation = true
drops internal_error = true
drops buffer_too_small = false
drops invalid_args = false
drops not_connected = false
drops resource_exhausted = false

-- `Send`, by what the transaction answered: the handle behind it.
abbrev pub after_send : Bool → Handle → Option Error → Handle
after_send alive h none = h
after_send alive h (some x) =
    if is_valid alive h && drops x then record h { slot_idx = none } else h

-- A program with handles: the variables that hold them, whether the host lives, and the slots that
-- were claimed through handles and neither freed nor given up since.
pub record State : Type 0 where
  pub alive : Bool
  pub vars : ℕ → Handle
  pub held : ℕ → Bool

abbrev pub set_var : (ℕ → Handle) → ℕ → Handle → ℕ → Handle
set_var vars k h j = if j == k then h else vars j

abbrev pub no_longer : (ℕ → Bool) → Option ℕ → ℕ → Bool
no_longer held none j = held j
no_longer held (some i) j = if j == i then false else held j

abbrev pub mark : (ℕ → Bool) → ℕ → ℕ → Bool
mark held i j = if j == i then true else held j

-- The slot that a failed transaction took from its handle.
abbrev pub dropped : Bool → Handle → Option Error → Option ℕ
dropped alive h none = none
dropped alive h (some x) = if drops x then slot_of alive h else none

-- What a program can do. An acquisition claims a slot that no handle holds, since a held slot is not
-- FREE. A new handle goes to a variable whose handle is no longer valid.
pub data Step : State → State → Type 0 where
  acquires :
      {s : State} (k i : ℕ)
      → s.alive ≡ true
      → s.held i ≡ false
      → is_valid s.alive (s.vars k) ≡ false
      → Step s (record s { vars = set_var s.vars k (handle_on (some i)); held = mark s.held i })
  acquires_none :
      {s : State} (k : ℕ)
      → is_valid s.alive (s.vars k) ≡ false
      → Step s (record s { vars = set_var s.vars k (handle_on none) })
  moves :
      {s : State} (k j : ℕ)
      → k ≢ j
      → is_valid s.alive (s.vars k) ≡ false
      → Step s (record s { vars = set_var (set_var s.vars k (s.vars j)) j empty_handle })
  assigns :
      {s : State} (k j : ℕ)
      → k ≢ j
      → Step s (record s {
        vars =
            set_var
              (set_var s.vars k (move_assign s.alive (s.vars k) (s.vars j)).handle)
              j
              empty_handle;
        held = no_longer s.held (move_assign s.alive (s.vars k) (s.vars j)).freed;
      })
  assigns_itself : {s : State} (k : ℕ) → Step s s
  releases :
      {s : State} (k : ℕ)
      → Step s (record s {
        vars = set_var s.vars k (release s.alive (s.vars k)).handle;
        held = no_longer s.held (release s.alive (s.vars k)).freed;
      })
  sends :
      {s : State} (k : ℕ) (answer : Option Error)
      → Step s (record s {
        vars = set_var s.vars k (after_send s.alive (s.vars k) answer);
        held = no_longer s.held (dropped s.alive (s.vars k) answer);
      })
  shuts_down : {s : State} → Step s (record s { alive = false; held = λ i. false })

-- The states that a program reaches with no handle at its start.
pub data Reachable : State → Type 0 where
  starts :
      (s : State)
      → ((k : ℕ) → is_valid s.alive (s.vars k) ≡ false)
      → ((i : ℕ) → s.held i ≡ false)
      → Reachable s
  then_steps : {s s' : State} → Reachable s → Step s s' → Reachable s'
