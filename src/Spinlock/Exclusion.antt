-- ===== src/Spinlock/Exclusion.antt =====
-- Tasks that take and release one lock of src/lib/spinlock.c in any order. The owner is written by
-- the holder alone, so its write counts as one step with the exchange before it.
use tbs_kernel.Base.{ℕ, ◌≡◌, ap, ◌∙◌, ◌≢◌, ◌⊎◌, inl, inr, none, some, arith}
use tbs_kernel.Spinlock.{Spinlock, spinlock_acquire, xchg, spinlock_release}
use tbs_kernel.Memory.State.{update}

-- A task is outside, in the loop of `spinlock_acquire`, or between its return and the release.
pub data Phase : Type 0 where
  outside spinning inside : Phase

pub record Run : Type 0 where
  pub lock : Spinlock
  pub phase : ℕ → Phase

abbrev pub in_phase : ℕ → Phase → Run → Run
in_phase n ph r = record r { phase = update r.phase n ph }

-- Any task may take the next step: enter the loop, get the lock, go round once more, or release.
pub data Step (r : Run) : Run → Type 0 where
  enter : (n : ℕ) → r.phase n ≡ outside → Step r (in_phase n spinning r)
  acquire :
      (n : ℕ) (lock' : Spinlock)
      → r.phase n ≡ spinning
      → spinlock_acquire n r.lock ≡ some lock'
      → Step r (in_phase n inside (record r { lock = lock' }))
  spin :
      (n : ℕ)
      → r.phase n ≡ spinning
      → spinlock_acquire n r.lock ≡ none
      → Step r (record r { lock = (xchg r.lock 1).1 })
  release :
      (n : ℕ)
      → r.phase n ≡ inside
      → Step r (in_phase n outside (record r { lock = spinlock_release r.lock }))

pub data Reach (r : Run) : Run → Type 0 where
  here : Reach r r
  further : {t u : Run} → Reach r t → Step t u → Reach r u

-- A free lock has no task inside, and a task inside is the owner of a lock that is taken.
pub record IsExclusive (r : Run) : Type 0 where
  pub taken : (n : ℕ) → r.phase n ≡ inside → r.lock.locked ≢ 0
  pub owned : (n : ℕ) → r.phase n ≡ inside → r.lock.owner ≡ some n

-- A task inside after another step than its own was inside before it.
kept :
    (f : ℕ → Phase) (n m : ℕ) (ph : Phase)
    → ph ≢ inside
    → update f n ph m ≡ inside
    → (f m ≡ inside) × (n ≢ m)
unfolding update
kept f n m ph other h = ground (arith, other, h)

newcomer :
    (f : ℕ → Phase) (n m : ℕ) (ph : Phase) → update f n ph m ≡ inside → (n ≡ m) ⊎ (f m ≡ inside)
unfolding update
newcomer f n m ph h = ground (arith, h)

acquired :
    (n : ℕ) (lock lock' : Spinlock)
    → spinlock_acquire n lock ≡ some lock'
    → (lock.locked ≡ 0) × (lock' ≡ record { locked = 1; owner = some n })
unfolding spinlock_acquire
acquired n lock lock' got = ground (arith, got)

Step-IsExclusive : {r u : Run} → Step r u → IsExclusive r → IsExclusive u
unfolding spinlock_release
Step-IsExclusive {r = r} (enter n out) inv = record {
  taken = λ m h. inv.taken m (kept r.phase n m spinning (ground arith) h).0;
  owned = λ m h. inv.owned m (kept r.phase n m spinning (ground arith) h).0;
}
Step-IsExclusive {r = r} (acquire n lock' waits got) inv =
    let (free, new) = acquired n r.lock lock' got in
    let only : (m : ℕ) → update r.phase n inside m ≡ inside → n ≡ m = λ m h.
      elim (newcomer r.phase n m inside h) [
        | inl same ↦ same
        | inr was ↦ absurd (inv.taken m was free)
      ] in
    record {
      taken = λ m h. ground (arith, new);
      owned = λ m h. ap (λ (l : Spinlock). l.owner) new ∙ ap some (only m h);
    }
Step-IsExclusive {r = r} (spin n waits held) inv = record {
  taken = λ m h. ground arith;
  owned = inv.owned;
}
Step-IsExclusive {r = r} (release n holds) inv =
    let none_inside : (m : ℕ) → update r.phase n outside m ≡ inside → ⊥ = λ m h.
      let (was, apart) = kept r.phase n m outside (ground arith) h in
      apart (ground (arith, inv.owned m was, inv.owned n holds)) in
    record { taken = λ m h. absurd (none_inside m h); owned = λ m h. absurd (none_inside m h) }

Reach-IsExclusive : {r u : Run} → IsExclusive r → Reach r u → IsExclusive u
Reach-IsExclusive start here = start
Reach-IsExclusive start (further before step) =
    Step-IsExclusive step (Reach-IsExclusive start before)

-- However the steps of the tasks are ordered, from a start where at most one task is inside and,
-- if one is, it owns the lock and the lock is taken (so from a free lock with no task inside):
-- at most one task is between `spinlock_acquire` and `spinlock_release`, the lock is then taken,
-- and its owner is that task.
pub Reach-exclusive :
    (r u : Run)
    → IsExclusive r
    → Reach r u
    → ((n m : ℕ) → u.phase n ≡ inside → u.phase m ≡ inside → n ≡ m)
      × ((n : ℕ) → u.phase n ≡ inside → (u.lock.locked ≢ 0) × (u.lock.owner ≡ some n))
Reach-exclusive r u start reached =
    let inv = Reach-IsExclusive start reached in
    (
      λ n m hn hm. ground (arith, inv.owned n hn, inv.owned m hm),
      λ n hn. (inv.taken n hn, inv.owned n hn),
    )
