-- ===== src/Ops/Lock.antt =====
-- lib/workflow-lock.js: the lock of a workflow as a key of the store that expires, under processes that
-- interleave. Time and the tokens that `randomUUID` draws are arguments.
use portfolio_manager.Base.{
  ℕ, ◌+◌, ◌*◌, ◌<◌, ◌≡◌, refl, sym, ap, ◌∙◌, String, Bool, true, false, not, ◌&&◌, Option, none,
  some, List, [], ◌∷◌, filter, if◌then◌else◌, ltb, arith, All, All-imp, Bool-cases, inl, inr,
  Outcome, ok, thrown,
}
use portfolio_manager.Base.Text.{◌=s=◌}

-- A closure of `acquireWorkflowLock` that has not been called: its token, and the end of its key.
pub record Holder : Type 0 where
  pub token : String
  pub end : ℕ

pub record Lock : Type 0 where
  pub now : ℕ
  pub key : Option Holder
  pub holders : List Holder

pub data LockError : Type 0 where
  already_running : LockError

-- The key is there until its end.
unfoldable pub is_locked : Lock → Bool
is_locked s = elim s.key [ none ↦ false | some k ↦ ltb s.now k.end ]

-- `SET key token NX EX ttl`, and the closure
unfoldable pub acquire_workflow_lock : String → ℕ → Lock → Lock × Outcome LockError Holder
unfolding is_locked
acquire_workflow_lock token ttl s =
    let h : Holder = record { token = token; end = s.now + ttl * 1_000 } in
    if is_locked s
    then (s, thrown already_running)
    else (record s { key = some h; holders = h ∷ s.holders }, ok h)

-- RELEASE_IF_OWNER
unfoldable pub release_if_owner : String → ℕ → Option Holder → Option Holder
release_if_owner token now none = none
release_if_owner token now (some k) = if ltb now k.end && k.token =s= token then none else some k

abbrev pub is_other : String → Holder → Bool
is_other token h = not (h.token =s= token)

-- The closure: it runs its script once, and the script may fail.
unfoldable pub release : String → Bool → Lock → Lock
unfolding release_if_owner
release token delivered s = record s {
  key = if delivered then release_if_owner token s.now s.key else s.key;
  holders = filter (is_other token) s.holders;
}

pub data LockStep : Lock → Lock → Type 0 where
  acquiring :
      (token : String) (ttl : ℕ) (s : Lock) → LockStep s (acquire_workflow_lock token ttl s).0
  releasing :
      (token : String) (delivered : Bool) (s : Lock) → LockStep s (release token delivered s)
  waiting : (d : ℕ) (s : Lock) → LockStep s (record s { now = s.now + d })

pub data LockReached : Lock → Type 0 where
  at_start : (now : ℕ) → LockReached (record { now = now; key = none; holders = [] })
  then_lock : {s t : Lock} → LockReached s → LockStep s t → LockReached t

-- A holder before its end owns the key.
abbrev pub Owns : ℕ → Option Holder → Holder → Type 0
Owns now key h = now < h.end → key ≡ some h

abbrev pub Owned : Lock → Type 0
Owned s = All (Owns s.now s.key) s.holders

some_holder : {h k : Holder} → some h ≡ some k → h ≡ k
some_holder e = cc

locked_by : (s : Lock) (h : Holder) → s.key ≡ some h → s.now < h.end → is_locked s ≡ true
unfolding is_locked
locked_by s h e l = rw e (ground arith)

none_before :
    (s : Lock) (k : Option Holder) (h : Holder)
    → is_locked s ≡ false
    → Owns s.now s.key h
    → Owns s.now k h
none_before s k h e own l = cc (locked_by s h (own l) l, e)

acquire-Owned :
    (token : String) (ttl : ℕ) (s : Lock) → Owned s → Owned (acquire_workflow_lock token ttl s).0
unfolding acquire_workflow_lock
acquire-Owned token ttl s o = elim (Bool-cases (is_locked s)) [
  | inl e ↦ rw e o
  | inr e ↦
      let h : Holder = record { token = token; end = s.now + ttl * 1_000 } in
      let others : All (Owns s.now (some h)) s.holders =
        All-imp (λ k. none_before s (some h) k e) s.holders o in
      rw e (λ l. refl, others)
]

not_other : (token : String) (h : Holder) → is_other token h ≡ true → h.token =s= token ≡ false
not_other token h e = elim (Bool-cases (h.token =s= token)) [
  | inl k ↦ let g = rw k at e in cc g
  | inr k ↦ k
]

kept_key :
    (token : String) (now : ℕ) (key : Option Holder) (h : Holder)
    → is_other token h ≡ true
    → key ≡ some h
    → release_if_owner token now key ≡ some h
unfolding release_if_owner
kept_key token now none h other e = cc e
kept_key token now (some k) h other e =
    let n : k.token =s= token ≡ false =
      ap (λ x. x.token =s= token) (some_holder e) ∙ not_other token h other in
    elim (Bool-cases (ltb now k.end)) [ inl l ↦ rw (l, n) e | inr l ↦ rw l e ]

released_key :
    (token : String) (delivered : Bool) (s : Lock) (h : Holder)
    → is_other token h ≡ true
    → Owns s.now s.key h
    → Owns s.now (release token delivered s).key h
unfolding release
released_key token false s h other own l = own l
released_key token true s h other own l = kept_key token s.now s.key h other (own l)

kept-All :
    (token : String) (P Q : Holder → Type 0) (hs : List Holder)
    → ((h : Holder) → is_other token h ≡ true → P h → Q h)
    → All P hs
    → All Q (filter (is_other token) hs)
kept-All token P Q [] f o = tt
kept-All token P Q (h ∷ hs) f o = elim (Bool-cases (is_other token h)) [
  | inl e ↦ rw e (f h e o.0, kept-All token P Q hs f o.1)
  | inr e ↦ rw e (kept-All token P Q hs f o.1)
]

release-Owned :
    (token : String) (delivered : Bool) (s : Lock) → Owned s → Owned (release token delivered s)
unfolding release
release-Owned token delivered s o =
    kept-All token (Owns s.now s.key) (Owns s.now (release token delivered s).key) s.holders
      (released_key token delivered s) o

later : (d : ℕ) (s : Lock) (h : Holder) → Owns s.now s.key h → Owns (s.now + d) s.key h
later d s h own l = own (omega arith)

LockStep-Owned : {s t : Lock} → LockStep s t → Owned s → Owned t
LockStep-Owned (acquiring token ttl s) o = acquire-Owned token ttl s o
LockStep-Owned (releasing token delivered s) o = release-Owned token delivered s o
LockStep-Owned (waiting d s) o = All-imp (λ h. later d s h) s.holders o

LockReached-Owned : {s : Lock} → LockReached s → Owned s
LockReached-Owned (at_start now) = tt
LockReached-Owned (then_lock r st) = LockStep-Owned st (LockReached-Owned r)

one_owner :
    (now : ℕ) (key : Option Holder) (h k : Holder)
    → Owns now key h
    → Owns now key k
    → now < h.end
    → now < k.end
    → h ≡ k
one_owner now key h k p q l m = some_holder (sym (p l) ∙ q m)

-- The holders whose end has not come are one and the same.
abbrev pub Exclusive : Lock → Type 0
Exclusive s = All (λ h. All (λ k. s.now < h.end → s.now < k.end → h ≡ k) s.holders) s.holders

-- However processes acquire, release and wait, and whichever releases are lost, two closures that were not called and
-- whose ends have not come are the same: before its end, a holder of the lock is alone.
pub LockReached-Exclusive : {s : Lock} → LockReached s → Exclusive s
LockReached-Exclusive {s} r =
    let o = LockReached-Owned r in
    All-imp (λ h p. All-imp (λ k q. one_owner s.now s.key h k p q) s.holders o) s.holders o
