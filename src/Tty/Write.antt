-- ===== src/Tty/Write.antt =====
-- What the writes of src/lib/tty.c do to a terminal.
use tbs_kernel.Base.{
  ℕ, ◌≡◌, refl, ◌∙◌, inl, inr, false, some, List, [], ◌∷◌, ◌++◌, arith, ℕ_discrete, ltb, ◌==◌,
  if◌then◌else◌, Bool-cases, length,
}
use tbs_kernel.Tty.{World, tty_write, next, wake_waiter, echo_all, echo_if, tty_write_line}
use tbs_kernel.Tty.Buffer.{
  Ring, IsRing, contents, put, contents-put, put-full, length-contents, put-IsRing,
}
use tbs_kernel.CString.Copy.Bounds.{IsText}
use tbs_kernel.Spinlock.{spinlock_acquire, spinlock_release}

-- One byte behind the others, unless 1023 of them wait.
abbrev pub push : ℕ → List ℕ → List ℕ
push c s = if ltb (length s) 1023 then s ++ c ∷ [] else s

abbrev pub push_all : List ℕ → List ℕ → List ℕ
push_all [] s = s
push_all (c ∷ cs) s = push_all cs (push c s)

-- The rings are well formed and no lock is held.
pub record IsIdle (w : World) : Type 0 where
  pub raw_ring : IsRing w.tty.raw_input
  pub input_ring : IsRing w.tty.input
  pub output_ring : IsRing w.tty.output
  pub raw_free : w.tty.raw_input_lock.locked ≡ 0
  pub input_free : w.tty.input_lock.locked ≡ 0
  pub output_free : w.tty.output_lock.locked ≡ 0

pub contents-push : (c : ℕ) (r : Ring) → IsRing r → contents (put c r) ≡ push c (contents r)
contents-push c r v = ground (arith, contents-put c v, length-contents r)

-- What a step that writes to the screen leaves alone.
pub record SameBut (w w' : World) : Type 0 where
  pub raw_same : w'.tty.raw_input ≡ w.tty.raw_input
  pub input_same : w'.tty.input ≡ w.tty.input
  pub echo_same : w'.tty.echo ≡ w.tty.echo
  pub task_same : w'.current_task ≡ w.current_task
  pub reader_same : w'.tty.task_read_wait ≡ w.tty.task_read_wait

-- With no lock held and well-formed rings, `tty_write` returns and appends the byte to the output
-- unless 1023 bytes wait there; it leaves both inputs, the echo, the running task and the waiting
-- reader alone.
pub tty_write-push :
    (c : ℕ) {w : World}
    → IsIdle w
    → (w' : World) × (tty_write c w ≡ some w')
      × IsIdle w'
      × SameBut w w'
      × (contents w'.tty.output ≡ push c (contents w.tty.output))
unfolding tty_write spinlock_acquire spinlock_release
tty_write-push c {w} v = elim (ℕ_discrete (next w.tty.output.head) w.tty.output.tail) [
  | yes full ↦ (
    record w {
      tty = record w.tty { output_lock = record { locked = 0; owner = some w.current_task } };
    },
    ground (arith, v.output_free),
    record {
      raw_ring = v.raw_ring;
      input_ring = v.input_ring;
      output_ring = v.output_ring;
      raw_free = v.raw_free;
      input_free = v.input_free;
      output_free = refl;
    },
    record {
      raw_same = refl;
      input_same = refl;
      echo_same = refl;
      task_same = refl;
      reader_same = refl;
    },
    ground (arith, put-full c w.tty.output full, contents-push c w.tty.output v.output_ring),
  )
  | no room ↦ (
    record w {
      tty = record w.tty {
        output = put c w.tty.output;
        output_lock = record { locked = 0; owner = some w.current_task };
      };
      states = wake_waiter w.tty.task_backend_wait w.states;
    },
    ground (arith, v.output_free),
    record {
      raw_ring = v.raw_ring;
      input_ring = v.input_ring;
      output_ring = put-IsRing c v.output_ring;
      raw_free = v.raw_free;
      input_free = v.input_free;
      output_free = refl;
    },
    record {
      raw_same = refl;
      input_same = refl;
      echo_same = refl;
      task_same = refl;
      reader_same = refl;
    },
    contents-push c w.tty.output v.output_ring,
  )
]

SameBut-trans : {u v w : World} → SameBut u v → SameBut v w → SameBut u w
SameBut-trans s t = record {
  raw_same = t.raw_same ∙ s.raw_same;
  input_same = t.input_same ∙ s.input_same;
  echo_same = t.echo_same ∙ s.echo_same;
  task_same = t.task_same ∙ s.task_same;
  reader_same = t.reader_same ∙ s.reader_same;
}

SameBut-refl : (w : World) → SameBut w w
SameBut-refl w = record {
  raw_same = refl;
  input_same = refl;
  echo_same = refl;
  task_same = refl;
  reader_same = refl;
}

echo_all-push_all :
    (s : List ℕ) {w : World}
    → IsIdle w
    → (w' : World) × (echo_all s w ≡ some w')
      × IsIdle w'
      × SameBut w w'
      × (contents w'.tty.output ≡ push_all s (contents w.tty.output))
unfolding echo_all
echo_all-push_all [] {w} v = (w, refl, v, SameBut-refl w, refl)
echo_all-push_all (c ∷ s) {w} v =
    let (w1, e1, v1, s1, o1) = tty_write-push c v in
    let (w2, e2, v2, s2, o2) = echo_all-push_all s v1 in
    (w2, rw e1 e2, v2, SameBut-trans s1 s2, rw o1 at o2)

-- The echo of `tty_worker`: nothing if the terminal does not echo.
pub echo_if-push_all :
    (s : List ℕ) {w : World}
    → IsIdle w
    → (w' : World) × (echo_if s w ≡ some w')
      × IsIdle w'
      × SameBut w w'
      × (contents w'.tty.output
          ≡ (if w.tty.echo == 1 then push_all s (contents w.tty.output) else contents w.tty.output))
unfolding echo_if
echo_if-push_all s {w} v = elim (Bool-cases (w.tty.echo == 1)) [
  | inl on ↦ rw on (echo_all-push_all s v)
  | inr off ↦ rw off (w, refl, v, SameBut-refl w, refl)
]

-- With no lock held and well-formed rings, `tty_write_line` of a terminated text returns and appends
-- its bytes in order, each unless the output is full.
pub tty_write_line-push_all :
    (s rest : List ℕ) {w : World}
    → IsText s
    → IsIdle w
    → (w' : World) × (tty_write_line (s ++ 0 ∷ rest) w ≡ some w')
      × IsIdle w'
      × (contents w'.tty.output ≡ push_all s (contents w.tty.output))
unfolding tty_write_line
tty_write_line-push_all [] rest {w} t v = (w, refl, v, refl)
tty_write_line-push_all (c ∷ s) rest {w} t v =
    let (w1, e1, v1, s1, o1) = tty_write-push c v in
    let (w2, e2, v2, o2) = tty_write_line-push_all s rest t.1 v1 in
    let e : (c == 0) ≡ false = ground arith in (w2, rw (e, e1) e2, v2, rw o1 at o2)
