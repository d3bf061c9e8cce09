-- ===== src/Host/Handle/Owns.antt =====
-- A held slot has exactly one valid handle, whatever a program does with its handles.
use shm.Base.{
  ℕ, ◌≡◌, ◌≢◌, refl, ap, sym, ◌∙◌, Bool, true, false, ◌&&◌, Option, none, some, ◌==◌, arith,
  ℕ_discrete, if-cases, Bool-cases, inl, inr,
}
use mathlib.Core.Path.{subst}
use shm.Slot.Exchange.{Error}
use shm.Host.Handle.{
  Handle, State, Step, Reachable, starts, then_steps, acquires, acquires_none, moves, assigns,
  assigns_itself, releases, sends, shuts_down, slot_of, is_valid, set_var, empty_handle, handle_on,
  release, after_send, dropped, drops, no_longer,
}
use shm.Host.Handle.Owning.{Owning, gives_up, takes, takes_over}

-- What the variables of a state have, and the invariant: the slots held are exactly those of the valid
-- handles, and no two of these have the same.
abbrev pub slots_of : Bool → (ℕ → Handle) → ℕ → Option ℕ
slots_of alive vars k = slot_of alive (vars k)

abbrev pub Owns : State → Type 0
Owns s = Owning (slots_of s.alive s.vars) s.held

set_var_self :
    (alive : Bool) (vars : ℕ → Handle) (k : ℕ) (h : Handle)
    → slot_of alive (set_var vars k h k) ≡ slot_of alive h
set_var_self alive vars k h =
    if-cases (λ x. slot_of alive x ≡ slot_of alive h) (k == k) _ _ (λ q. refl)
      (λ q. absurd (ground (arith, q)))

set_var_other :
    (alive : Bool) (vars : ℕ → Handle) (k j : ℕ) (h : Handle)
    → j ≢ k
    → slot_of alive (set_var vars k h j) ≡ slot_of alive (vars j)
set_var_other alive vars k j h ne =
    if-cases (λ x. slot_of alive x ≡ slot_of alive (vars j)) (j == k) _ _
      (λ q. absurd (ground (arith, ne, q))) (λ q. refl)

no_slot : (alive : Bool) (h : Handle) → is_valid alive h ≡ false → slot_of alive h ≡ none
no_slot alive h v = of (slot_of alive h) v
  where
    of :
        (o : Option ℕ) → (elim o as (λ x. Bool) [ none ↦ false | some i ↦ true ]) ≡ false → o ≡ none
    of none q = refl
    of (some i) q = absurd cc

released_none : (alive : Bool) (h : Handle) → slot_of alive (release alive h).handle ≡ none
released_none alive h =
    if-cases (λ x. x ≡ none) ((alive && h.weak_state) && h.host) _ _ (λ q. refl) (λ q. refl)

slot_of-empty_handle : (alive : Bool) → slot_of alive empty_handle ≡ none
slot_of-empty_handle true = refl
slot_of-empty_handle false = refl

slot_of-handle_on : (alive : Bool) → slot_of alive (handle_on none) ≡ none
slot_of-handle_on true = refl
slot_of-handle_on false = refl

module _ (alive : Bool) (vars : ℕ → Handle) (held : ℕ → Bool)
    (o : Owning (slots_of alive vars) held) where
  -- A variable is given a handle that has no slot.
  emptied :
      (k : ℕ) (h : Handle)
      → slot_of alive h ≡ none
      → Owning (slots_of alive (set_var vars k h)) (no_longer held (slot_of alive (vars k)))
  emptied k h e =
      gives_up (slots_of alive vars) (slots_of alive (set_var vars k h)) held o k
        (slot_of alive (vars k)) refl (set_var_self alive vars k h ∙ e)
        (λ j ne. set_var_other alive vars k j h ne)

  -- A variable that has no slot is given the handle of another one, which is emptied.
  passed :
      (k j : ℕ)
      → k ≢ j
      → slot_of alive (vars k) ≡ none
      → Owning (slots_of alive (set_var (set_var vars k (vars j)) j empty_handle)) held
  passed k j ne e =
      let there : j ≢ k = λ q. ne (sym q) in
      takes_over (slots_of alive vars)
        (slots_of alive (set_var (set_var vars k (vars j)) j empty_handle)) held o k j there e
        (set_var_other alive (set_var vars k (vars j)) j k empty_handle ne
          ∙ set_var_self alive vars k (vars j))
        (set_var_self alive (set_var vars k (vars j)) j empty_handle ∙ slot_of-empty_handle alive)
        (λ l a b.
          set_var_other alive (set_var vars k (vars j)) j l empty_handle b
          ∙ set_var_other alive vars k l (vars j) a)

  -- A variable gives its slot up, and is given the handle of another one, which is emptied.
  reassigned :
      (k j : ℕ)
      → k ≢ j
      → Owning
          (slots_of alive (set_var (set_var vars k (vars j)) j empty_handle))
          (no_longer held (slot_of alive (vars k)))
  reassigned k j ne =
      let there : j ≢ k = λ q. ne (sym q) in
      let vars' = set_var vars k empty_handle in
      let moved = set_var vars k (vars j) in
      takes_over (slots_of alive vars') (slots_of alive (set_var moved j empty_handle))
        (no_longer held (slot_of alive (vars k)))
        (emptied k empty_handle (slot_of-empty_handle alive)) k j there
        (set_var_self alive vars k empty_handle ∙ slot_of-empty_handle alive)
        (set_var_other alive moved j k empty_handle ne
          ∙ (set_var_self alive vars k (vars j)
              ∙ sym (set_var_other alive vars k j empty_handle there)))
        (set_var_self alive moved j empty_handle ∙ slot_of-empty_handle alive)
        (λ l a b.
          set_var_other alive moved j l empty_handle b
          ∙ (set_var_other alive vars k l (vars j) a
              ∙ sym (set_var_other alive vars k l empty_handle a)))

  -- A variable is given a handle with the same slot.
  kept :
      (k : ℕ) (h : Handle)
      → slot_of alive h ≡ slot_of alive (vars k)
      → Owning (slots_of alive (set_var vars k h)) held
  kept k h e = subst (λ f. Owning f held) (λ t j. sym (same j) t) o
    where
      same : (j : ℕ) → slot_of alive (set_var vars k h j) ≡ slot_of alive (vars j)
      same j = elim (ℕ_discrete j k) [
        | yes here ↦ rw here (set_var_self alive vars k h ∙ e)
        | no there ↦ set_var_other alive vars k j h there
      ]

sent_none :
    (alive : Bool) (h : Handle) (x : Error)
    → drops x ≡ true
    → slot_of alive (after_send alive h (some x)) ≡ none
sent_none alive h x d =
    if-cases (λ k. slot_of alive k ≡ none) (is_valid alive h && drops x) _ _
      (λ q. released_none alive h) (λ q. no_slot alive h (ground (arith, d, q)))

-- A send that fails with `x`.
sent :
    (alive : Bool) (vars : ℕ → Handle) (held : ℕ → Bool)
    → Owning (slots_of alive vars) held
    → (k : ℕ) (x : Error)
    → Owning
        (slots_of alive (set_var vars k (after_send alive (vars k) (some x))))
        (no_longer held (dropped alive (vars k) (some x)))
sent alive vars held o k x = elim (Bool-cases (drops x)) [
  | inl d ↦
      let e : dropped alive (vars k) (some x) ≡ slot_of alive (vars k) = rw d refl in
      subst
        (λ m.
          Owning (slots_of alive (set_var vars k (after_send alive (vars k) (some x))))
            (no_longer held m))
        (sym e)
        (emptied alive vars held o k (after_send alive (vars k) (some x))
          (sent_none alive (vars k) x d))
  | inr d ↦
      let e : dropped alive (vars k) (some x) ≡ none = rw d refl in
      let same : after_send alive (vars k) (some x) ≡ vars k =
        if-cases (λ h. h ≡ vars k) (is_valid alive (vars k) && drops x) _ _
          (λ q. absurd (ground (arith, d, q))) (λ q. refl) in
      subst
        (λ m.
          Owning (slots_of alive (set_var vars k (after_send alive (vars k) (some x))))
            (no_longer held m))
        (sym e)
        (kept alive vars held o k (after_send alive (vars k) (some x)) (ap (slot_of alive) same))
]

step-Owns : {s s' : State} → Owns s → Step s s' → Owns s'
step-Owns {s} o (acquires k i a f v) =
    takes (slots_of s.alive s.vars) (slots_of s.alive (set_var s.vars k (handle_on (some i))))
      s.held o k i (no_slot s.alive (s.vars k) v) f
      (set_var_self s.alive s.vars k (handle_on (some i)) ∙ rw a refl)
      (λ j ne. set_var_other s.alive s.vars k j (handle_on (some i)) ne)
step-Owns {s} o (acquires_none k v) =
    kept s.alive s.vars s.held o k (handle_on none)
      (slot_of-handle_on s.alive ∙ sym (no_slot s.alive (s.vars k) v))
step-Owns {s} o (moves k j ne v) =
    passed s.alive s.vars s.held o k j ne (no_slot s.alive (s.vars k) v)
step-Owns {s} o (assigns k j ne) = reassigned s.alive s.vars s.held o k j ne
step-Owns o (assigns_itself k) = o
step-Owns {s} o (releases k) =
    emptied s.alive s.vars s.held o k (release s.alive (s.vars k)).handle
      (released_none s.alive (s.vars k))
step-Owns {s} o (sends k none) = kept s.alive s.vars s.held o k (s.vars k) refl
step-Owns {s} o (sends k (some x)) = sent s.alive s.vars s.held o k x
step-Owns o shuts_down = record {
  claimed = λ k i h. cc;
  unique = λ k k' i h h'. absurd cc;
  no_leak = λ i h. absurd cc;
}

-- A program that starts with no handle, and takes a handle only on a slot that none of its handles
-- has, keeps this through any sequence of moves, assignments, releases and sends: a slot that was
-- claimed through a handle and neither freed nor given up since has exactly one valid handle, and a
-- valid handle has such a slot. So a handle frees its slot once, never one that another handle has,
-- and no slot is leaked while its host lives.
pub Reachable-Owns : {s : State} → Reachable s → Owns s
Reachable-Owns (starts s none_valid none_held) = record {
  claimed = λ k i h. cc (no_slot s.alive (s.vars k) (none_valid k), h);
  unique = λ k k' i h h'. cc (no_slot s.alive (s.vars k) (none_valid k), h);
  no_leak = λ i h. cc (none_held i, h);
}
Reachable-Owns (then_steps r t) = step-Owns (Reachable-Owns r) t
