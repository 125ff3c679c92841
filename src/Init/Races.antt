-- ===== src/Init/Races.antt =====
-- The threads around the callback of src/init_bridge.cc: Node's, which sets, removes and resets it, and
-- libfuse's, which stores what it gets and calls the callback, in steps between which the lock is free.
use mathlib.Core.List.{Mem, mem-cons_self}
use mathlib.Core.Path.{subst}
use fuse_native.Base.{
  ℕ, zero, suc, ◌≡◌, refl, Bool, true, false, Option, none, some, List, [], ◌∷◌, if◌then◌else◌,
  arith, Bool-cases, inl, inr, ap, sym,
}
use fuse_native.Init.{
  InitBridge, ConnectionInfo, FuseConfig, new_bridge, initialize, close_callback, set_init_callback,
  remove_init_callback, reset, store_init, read_init, may_call, called_function,
}

-- Where libfuse's thread stands in `FuseInitCallback`.
pub data Phase : Type 0 where
  idle stored : Phase
  calling checked : ConnectionInfo → FuseConfig → Phase

-- The calls that were posted, the latest first: the function, and whether it was open then.
pub record System : Type 0 where
  pub bridge : InitBridge
  pub phase : Phase
  pub posted : List (ℕ × Bool)

abbrev pub start_system : System
start_system = record { bridge = new_bridge; phase = idle; posted = [] }

abbrev pub with_bridge : System → InitBridge → System
with_bridge s b = record s { bridge = b }

-- The check in CallJavaScriptCallback, and the call after it.
unfoldable pub check : System → ConnectionInfo → FuseConfig → System
check s conn cfg = record s { phase = if may_call s.bridge then checked conn cfg else idle }

unfoldable pub post : System → System
post s = record s {
  phase = idle;
  posted = (called_function s.bridge, s.bridge.has_callback) ∷ s.posted;
}

abbrev pub next_phase : Option (ConnectionInfo × FuseConfig) → Phase
next_phase none = idle
next_phase (some (conn, cfg)) = calling conn cfg

pub data Step (s : System) : System → Type 0 where
  initializes : (has_ops : Bool) → Step s (with_bridge s (initialize s.bridge has_ops))
  sets : (is_function : Bool) → Step s (with_bridge s (set_init_callback s.bridge is_function))
  removes : Step s (with_bridge s (remove_init_callback s.bridge))
  resets : Step s (with_bridge s (reset s.bridge))
  stores :
      (conn : ConnectionInfo) (cfg : FuseConfig)
      → s.phase ≡ idle
      → Step s (record s { bridge = store_init s.bridge (some conn) (some cfg); phase = stored })
  reads : s.phase ≡ stored → Step s (record s { phase = next_phase (read_init s.bridge) })
  checks :
      (conn : ConnectionInfo) (cfg : FuseConfig)
      → s.phase ≡ calling conn cfg
      → Step s (check s conn cfg)
  posts : (conn : ConnectionInfo) (cfg : FuseConfig) → s.phase ≡ checked conn cfg → Step s (post s)

pub data Reach : System → Type 0 where
  start : Reach start_system
  later : {s s' : System} → Reach s → Step s s' → Reach s'

-- The numbers below `n`, from the top.
abbrev pub below : ℕ → List ℕ
below zero = []
below (suc n) = n ∷ below n

-- Whether a callback is set, its function, how many were made, and which are closed.
abbrev TidyAt : Bool → ℕ → ℕ → List ℕ → Type 0
TidyAt true function made closed = (made ≡ suc function) × (closed ≡ below function)
TidyAt false function made closed = closed ≡ below made

-- Every function that was made is closed, once, but for the one that is in use: the latest.
abbrev pub Tidy : InitBridge → Type 0
Tidy b = TidyAt b.has_callback b.function b.made b.closed

close_open :
    (b : InitBridge) → Tidy b → b.has_callback ≡ true → b.function ∷ b.closed ≡ below b.made
close_open b h e =
    let t : TidyAt true b.function b.made b.closed =
      subst (λ has. TidyAt has b.function b.made b.closed) (e) h in
    rw t.0 (ap (λ (l : List ℕ). b.function ∷ l) t.1)

abbrev closed_or_same : InitBridge → InitBridge
closed_or_same b = if b.has_callback then close_callback b else b

close-Tidy :
    (b : InitBridge) → Tidy b → ((closed_or_same b).closed ≡ below b.made) × Tidy (closed_or_same b)
close-Tidy b h = elim (Bool-cases b.has_callback) [
  | inl e ↦
      subst
        (λ has.
          ((if has then close_callback b else b).closed ≡ below b.made)
          × Tidy (if has then close_callback b else b))
        (sym e) (close_open b h e, close_open b h e)
  | inr e ↦
      subst
        (λ has.
          ((if has then close_callback b else b).closed ≡ below b.made)
          × Tidy (if has then close_callback b else b))
        (sym e) (subst (λ has. TidyAt has b.function b.made b.closed) (e) h, h)
]

closed_or_same-made : (b : InitBridge) → (closed_or_same b).made ≡ b.made
closed_or_same-made b = ground arith

set-Tidy : (b : InitBridge) (is_function : Bool) → Tidy b → Tidy (set_init_callback b is_function)
unfolding set_init_callback
set-Tidy b false h = h
set-Tidy b true h = (refl, (close-Tidy b h).0)

reset-Tidy : (b : InitBridge) → Tidy b → Tidy (reset b)
unfolding reset
reset-Tidy b h = (close-Tidy b h).1

Step-Tidy : {s s' : System} → Step s s' → Tidy s.bridge → Tidy s'.bridge
unfolding initialize remove_init_callback store_init check post
Step-Tidy (initializes false) h = h
Step-Tidy (initializes true) h = h
Step-Tidy {s} (sets is_function) h = set-Tidy s.bridge is_function h
Step-Tidy {s} removes h = (close-Tidy s.bridge h).1
Step-Tidy {s} resets h = reset-Tidy s.bridge h
Step-Tidy (stores conn cfg p) h = h
Step-Tidy (reads p) h = h
Step-Tidy (checks conn cfg p) h = h
Step-Tidy (posts conn cfg p) h = h

-- In every state that the two threads reach, each thread-safe function that was made has been aborted
-- and released exactly once, but for the one in use, which has not.
pub Reach-Tidy : {s : System} → Reach s → Tidy s.bridge
Reach-Tidy start = refl
Reach-Tidy (later r st) = Step-Tidy st (Reach-Tidy r)

remove_open : (b : InitBridge) → b.has_callback ≡ true → remove_init_callback b ≡ close_callback b
unfolding remove_init_callback
remove_open b e = rw e refl

-- A removal between the check and the call: from every state that is reached with a callback set and
-- libfuse's thread about to check, the call that follows goes to a function that is closed already.
pub post-remove :
    {s : System} (conn : ConnectionInfo) (cfg : FuseConfig)
    → Reach s
    → s.phase ≡ calling conn cfg
    → s.bridge.has_callback ≡ true
    → let checked_state = check s conn cfg in
      let removed = with_bridge checked_state (remove_init_callback checked_state.bridge) in
      (removed.phase ≡ checked conn cfg)
      × (s' : System) × Step removed s'
      × Reach s'
      × (s'.posted ≡ (s.bridge.function, false) ∷ s.posted)
      × Mem s.bridge.function s'.bridge.closed
unfolding check post called_function may_call
post-remove {s} conn cfg r p e =
    let going : (check s conn cfg).phase ≡ checked conn cfg = rw e refl in
    let gone = remove_open s.bridge e in
    (
      going,
      post (with_bridge (check s conn cfg) (remove_init_callback s.bridge)),
      posts conn cfg going,
      later (later (later r (checks conn cfg p)) removes) (posts conn cfg going),
      rw gone refl,
      rw gone mem-cons_self,
    )
