-- ===== src/Tty/Worker.antt =====
-- The line editing of `tty_worker` in src/lib/tty.c against a discipline on plain lists.
pub mod Round
use tbs_kernel.Base.{
  ℕ, zero, suc, ◌+◌, ◌-◌, ◌*◌, ◌/◌, ◌%◌, ◌^◌, ◌≤◌, ◌<◌, ◌≡◌, refl, sym, ap, ap₂, ◌∙◌, ◌≢◌, ◌↔◌, ◌⊎◌,
  inl, inr, Bool, true, false, not, ◌&&◌, ◌||◌, Option, none, some, List, [], ◌∷◌, ◌++◌, append-nil,
  append_assoc, arith, dec_lt, ℕ_discrete, ltb, leb, ◌==◌, if◌then◌else◌, ltb→lt, lt→ltb, ==_iff,
  Bool-cases, Option-cases, length, get_elem?, get_or, set, take, drop, replicate, length-append,
  length-set, get_or-set_self, get_or-set_ne, ◌>>=◌, All, All-append,
}
use tbs_kernel.Tty.{
  backspace, World, newline, send_line, edit_size, put_all, echo_if, wake_waiter, worker_char,
}
use tbs_kernel.Tty.Write.{push_all, IsIdle, push, echo_if-push_all, contents-push}
use tbs_kernel.Tty.Buffer.{Ring, IsRing, contents, put, put-IsRing}
use tbs_kernel.Spinlock.{Spinlock, spinlock_acquire, spinlock_release}

-- What one byte does to the edited line, which bytes it sends to the reader, and which it echoes.
pub record Edit : Type 0 where
  pub edited : List ℕ
  pub sent : List ℕ
  pub echoed : List ℕ

unfoldable pub discipline : ℕ → List ℕ → Edit
discipline c edit =
    if c == backspace
    then (if ltb 0 (length edit)
        then record {
          edited = take (length edit - 1) edit;
          sent = [];
          echoed = backspace ∷ b' ' ∷ backspace ∷ [];
        }
        else record { edited = edit; sent = []; echoed = [] })
    else if c == newline || c == 13
    then record { edited = []; sent = edit ++ newline ∷ []; echoed = newline ∷ [] }
    else if ltb (length edit) edit_size
    then record { edited = edit ++ c ∷ []; sent = []; echoed = c ∷ [] }
    else record { edited = edit; sent = []; echoed = [] }

abbrev pub echo_list : ℕ → List ℕ → List ℕ → List ℕ
echo_list echo s out = if echo == 1 then push_all s out else out

-- A step of the worker did what the discipline says.
pub record Follows (w w' : World) (sent echoed : List ℕ) : Type 0 where
  pub idle : IsIdle w'
  pub raw_same : w'.tty.raw_input ≡ w.tty.raw_input
  pub echo_same : w'.tty.echo ≡ w.tty.echo
  pub input_gets : contents w'.tty.input ≡ push_all sent (contents w.tty.input)
  pub output_gets : contents w'.tty.output ≡ echo_list w.tty.echo echoed (contents w.tty.output)

put_all-IsRing : (s : List ℕ) (r : Ring) → IsRing r → IsRing (put_all s r)
put_all-IsRing [] r v = v
put_all-IsRing (c ∷ s) r v = put_all-IsRing s (put c r) (put-IsRing c v)

contents-put_all :
    (s : List ℕ) (r : Ring) → IsRing r → contents (put_all s r) ≡ push_all s (contents r)
contents-put_all [] r v = refl
contents-put_all (c ∷ s) r v =
    rw (contents-put_all s (put c r) (put-IsRing c v), contents-push c r v)

pub push_all-append : (s t out : List ℕ) → push_all (s ++ t) out ≡ push_all t (push_all s out)
push_all-append [] t out = refl
push_all-append (c ∷ s) t out = push_all-append s t (push c out)

echo_if-Follows :
    (s : List ℕ) {w : World} → IsIdle w → (w' : World) × (echo_if s w ≡ some w') × Follows w w' [] s
echo_if-Follows s {w} v =
    let (w', e, v', same, out) = echo_if-push_all s v in
    (
      w',
      e,
      record {
        idle = v';
        raw_same = same.raw_same;
        echo_same = same.echo_same;
        input_gets = rw same.input_same;
        output_gets = out;
      },
    )

-- A step that does nothing.
idle-Follows : {w : World} → IsIdle w → Follows w w [] []
idle-Follows {w} v = record {
  idle = v;
  raw_same = refl;
  echo_same = refl;
  input_gets = refl;
  output_gets = ground arith;
}

send_line-Follows :
    (edit : List ℕ) {w : World}
    → IsIdle w
    → (w' : World) × (send_line edit w ≡ some w')
      × Follows w w' (edit ++ newline ∷ []) (newline ∷ [])
unfolding send_line spinlock_acquire spinlock_release
send_line-Follows edit {w} v =
    let line_in : Ring = put newline (put_all edit w.tty.input) in
    let ring_ok : IsRing line_in =
      put-IsRing newline (put_all-IsRing edit w.tty.input v.input_ring) in
    let free : Spinlock = record { locked = 0; owner = some w.current_task } in
    let sent : World = record w { tty = record w.tty { input = line_in; input_lock = free } } in
    let v1 : IsIdle sent = record {
      raw_ring = v.raw_ring;
      input_ring = ring_ok;
      output_ring = v.output_ring;
      raw_free = v.raw_free;
      input_free = refl;
      output_free = v.output_free;
    } in
    let (w2, e2, f) = echo_if-Follows (newline ∷ []) v1 in
    (
      record w2 { states = wake_waiter w2.tty.task_read_wait w2.states },
      rw (v.input_free, e2) refl,
      record {
        idle = record {
          raw_ring = f.idle.raw_ring;
          input_ring = f.idle.input_ring;
          output_ring = f.idle.output_ring;
          raw_free = f.idle.raw_free;
          input_free = f.idle.input_free;
          output_free = f.idle.output_free;
        };
        raw_same = f.raw_same;
        echo_same = f.echo_same;
        input_gets =
            f.input_gets
            ∙ contents-push newline (put_all edit w.tty.input)
                (put_all-IsRing edit w.tty.input v.input_ring)
            ∙ ap (push newline) (contents-put_all edit w.tty.input v.input_ring)
            ∙ sym (push_all-append edit (newline ∷ []) (contents w.tty.input));
        output_gets = f.output_gets;
      },
    )

-- With no lock held and well-formed rings, the worker's step on one byte returns, leaves the edit
-- buffer of the discipline, appends what the discipline sends to the input and, if the terminal
-- echoes, what it echoes to the output, and leaves the raw input alone.
pub worker_char-Follows :
    (c : ℕ) (edit : List ℕ) {w : World}
    → IsIdle w
    → (w' : World) × (worker_char c edit w ≡ some ((discipline c edit).edited, w'))
      × Follows w w' (discipline c edit).sent (discipline c edit).echoed
unfolding worker_char discipline
worker_char-Follows c edit {w} v = elim (Bool-cases (c == backspace)) [
  | inl back ↦ rw back (elim (Bool-cases (ltb 0 (length edit))) [
    | inl more ↦
        let (w1, e1, f) = echo_if-Follows (backspace ∷ b' ' ∷ backspace ∷ []) v in
        rw more (w1, rw e1, f)
    | inr none_left ↦ rw none_left (w, refl, idle-Follows v)
  ])
  | inr not_back ↦ rw not_back (elim (Bool-cases (c == newline || c == 13)) [
    | inl end ↦ let (w1, e1, f) = send_line-Follows edit v in rw end (w1, rw e1, f)
    | inr inside ↦ rw inside (elim (Bool-cases (ltb (length edit) edit_size)) [
      | inl room ↦ let (w1, e1, f) = echo_if-Follows (c ∷ []) v in rw room (w1, rw e1, f)
      | inr full ↦ rw full (w, refl, idle-Follows v)
    ])
  ])
]
