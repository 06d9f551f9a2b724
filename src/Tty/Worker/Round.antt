-- ===== src/Tty/Worker/Round.antt =====
-- A round of `tty_worker` in src/lib/tty.c: it empties the raw input, byte by byte.
use tbs_kernel.Base.{
  ℕ, zero, suc, ◌<◌, ◌≡◌, refl, sym, ap, ap₂, ◌∙◌, ◌≢◌, true, false, some, List, [], ◌∷◌, ◌++◌,
  arith, ℕ_discrete, ◌==◌, length,
}
use tbs_kernel.Tty.{World, drain, take_raw, worker_round, wake_waiter}
use tbs_kernel.Tty.Buffer.{contents, get, get-IsRing, contents-get, contents-empty, length-contents}
use tbs_kernel.Tty.Write.{IsIdle, push_all}
use tbs_kernel.Spinlock.{spinlock_acquire, spinlock_release}
use tbs_kernel.Tty.Worker.{
  Edit, discipline, Follows, worker_char-Follows, echo_list, push_all-append,
}

-- The discipline on the bytes one after the other.
unfoldable pub edit_all : List ℕ → List ℕ → Edit
edit_all [] edit = record { edited = edit; sent = []; echoed = [] }
edit_all (c ∷ s) edit =
    let now = discipline c edit in
    let later = edit_all s now.edited in
    record {
      edited = later.edited;
      sent = now.sent ++ later.sent;
      echoed = now.echoed ++ later.echoed;
    }

pub record Drained (w w' : World) (sent echoed : List ℕ) : Type 0 where
  pub idle : IsIdle w'
  pub raw_empty : contents w'.tty.raw_input ≡ []
  pub input_gets : contents w'.tty.input ≡ push_all sent (contents w.tty.input)
  pub output_gets : contents w'.tty.output ≡ echo_list w.tty.echo echoed (contents w.tty.output)

-- The worker takes the oldest raw byte.
take_raw-Follows :
    {w : World}
    → IsIdle w
    → w.tty.raw_input.head ≢ w.tty.raw_input.tail
    → (c : ℕ) × (w' : World) × (take_raw w ≡ some (c, w'))
      × IsIdle w'
      × (contents w.tty.raw_input ≡ c ∷ contents w'.tty.raw_input)
      × (w'.tty.input ≡ w.tty.input)
      × (w'.tty.output ≡ w.tty.output)
      × (w'.tty.echo ≡ w.tty.echo)
unfolding take_raw spinlock_acquire spinlock_release
take_raw-Follows {w} v ne = (
  (get w.tty.raw_input).0,
  record w {
    tty = record w.tty {
      raw_input = (get w.tty.raw_input).1;
      raw_input_lock = record { locked = 0; owner = some w.current_task };
    };
  },
  rw (v.raw_free) refl,
  record {
    raw_ring = get-IsRing v.raw_ring;
    input_ring = v.input_ring;
    output_ring = v.output_ring;
    raw_free = refl;
    input_free = v.input_free;
    output_free = v.output_free;
  },
  contents-get v.raw_ring ne,
  refl,
  refl,
  refl,
)

echo_list-append :
    (echo : ℕ) (s t out : List ℕ)
    → echo_list echo (s ++ t) out ≡ echo_list echo t (echo_list echo s out)
echo_list-append echo s t out = ground (arith, push_all-append s t out)

Drained-cons :
    {w w1 w2 w3 : World} {sent echoed more_sent more_echoed : List ℕ}
    → w1.tty.input ≡ w.tty.input
    → w1.tty.output ≡ w.tty.output
    → w1.tty.echo ≡ w.tty.echo
    → Follows w1 w2 sent echoed
    → Drained w2 w3 more_sent more_echoed
    → Drained w w3 (sent ++ more_sent) (echoed ++ more_echoed)
Drained-cons {w} {w1} {w2} {w3} {sent} {echoed} {more_sent} {more_echoed} i o h f d = record {
  idle = d.idle;
  raw_empty = d.raw_empty;
  input_gets =
      d.input_gets
      ∙ ap (push_all more_sent) (f.input_gets ∙ ap (λ r. push_all sent (contents r)) i)
      ∙ sym (push_all-append sent more_sent (contents w.tty.input));
  output_gets =
      d.output_gets
      ∙ ap₂ (λ e. echo_list e more_echoed) (f.echo_same ∙ h)
          (f.output_gets ∙ ap₂ (λ e r. echo_list e echoed (contents r)) h o)
      ∙ sym (echo_list-append w.tty.echo echoed more_echoed (contents w.tty.output));
}

pub drain-edit_all :
    (fuel : ℕ) (edit : List ℕ) {w : World}
    → IsIdle w
    → length (contents w.tty.raw_input) < fuel
    → (w' : World) × (drain fuel edit w
        ≡ some ((edit_all (contents w.tty.raw_input) edit).edited, w'))
      × Drained w w'
          (edit_all (contents w.tty.raw_input) edit).sent
          (edit_all (contents w.tty.raw_input) edit).echoed
unfolding drain edit_all
drain-edit_all zero edit {w} v h = absurd (omega arith)
drain-edit_all (suc fuel) edit {w} v h =
    elim (ℕ_discrete w.tty.raw_input.head w.tty.raw_input.tail) [
      | yes empty ↦
          let e : contents w.tty.raw_input ≡ [] = contents-empty w.tty.raw_input empty in
          let t : (w.tty.raw_input.head == w.tty.raw_input.tail) ≡ true = ground arith in
          rw (e, t)
            (
              w,
              refl,
              record { idle = v; raw_empty = e; input_gets = refl; output_gets = ground arith },
            )
      | no more ↦
          let t : (w.tty.raw_input.head == w.tty.raw_input.tail) ≡ false = ground arith in
          let (c, w1, e1, v1, rest, i1, o1, h1) = take_raw-Follows v more in
          let (w2, e2, f) = worker_char-Follows c edit v1 in
          let small : length (contents w2.tty.raw_input) < fuel =
            rw f.raw_same (ground (arith, rest, ap length rest)) in
          let later = drain-edit_all fuel (discipline c edit).edited f.idle small in
          let (w3, e3, d) = rw f.raw_same at later in
          rw rest (w3, rw (t, e1, e2) e3, Drained-cons i1 o1 h1 f d)
    ]

-- With no lock held and well-formed rings, a round of the worker ends, with its 1024 rounds of fuel.
-- It leaves the raw input empty, the edit buffer as the discipline on the raw bytes leaves it, and
-- appends what that sends to the input and, if the terminal echoes, what it echoes to the output.
pub worker_round-edit_all :
    (edit : List ℕ) {w : World}
    → IsIdle w
    → (w' : World) × (worker_round edit w
        ≡ some ((edit_all (contents w.tty.raw_input) edit).edited, w'))
      × Drained w w'
          (edit_all (contents w.tty.raw_input) edit).sent
          (edit_all (contents w.tty.raw_input) edit).echoed
unfolding worker_round
worker_round-edit_all edit {w} v =
    let small : length (contents w.tty.raw_input) < 1024 =
      rw (length-contents w.tty.raw_input) (omega arith) in
    let (w1, e, d) = drain-edit_all 1024 edit v small in
    (
      record w1 { states = wake_waiter w1.tty.task_read_wait w1.states },
      rw e,
      record {
        idle = record {
          raw_ring = d.idle.raw_ring;
          input_ring = d.idle.input_ring;
          output_ring = d.idle.output_ring;
          raw_free = d.idle.raw_free;
          input_free = d.idle.input_free;
          output_free = d.idle.output_free;
        };
        raw_empty = d.raw_empty;
        input_gets = d.input_gets;
        output_gets = d.output_gets;
      },
    )
