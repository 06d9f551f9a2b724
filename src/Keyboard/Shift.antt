-- ===== src/Keyboard/Shift.antt =====
-- What a run of scan codes types: src/kernel/drivers/ps2_key.c and the worker of src/lib/tty.c.
use tbs_kernel.Keyboard.{translate_scancode, kb_ring_handle_input}
use tbs_kernel.Tty.{World, worker_round}
use tbs_kernel.Tty.Buffer.{contents, put, put-IsRing, next, put-full}
use tbs_kernel.Tty.Write.{push, push_all, IsIdle, contents-push}
use tbs_kernel.Base.{
  ℕ, ◌≡◌, refl, ap, ◌∙◌, inl, inr, Bool, true, false, Option, none, some, List, [], ◌∷◌, arith,
  ℕ_discrete, ◌==◌, if◌then◌else◌, Bool-cases, ◌>>=◌, ◌<◌, All,
}
use tbs_kernel.Task.State.{wake_task}
use tbs_kernel.Keyboard.Layout.{shift_after, translate_scancode_lem, key_char}
use tbs_kernel.Tty.Worker.Round.{edit_all, worker_round-edit_all}

-- The interrupts of a run of scan codes.
unfoldable pub type_all : List ℕ → Bool → World → Option (Bool × World)
type_all [] shift w = some (shift, w)
type_all (sc ∷ scs) shift w = do
  (shift', w') ← kb_ring_handle_input sc shift w
  type_all scs shift' w'

-- What the keys type by the layout, and the state of the shift keys after them.
unfoldable pub key_text : List ℕ → Bool → List ℕ
key_text [] shift = []
key_text (code ∷ scs) shift =
    let rest = key_text scs (shift_after code shift) in
    if key_char code shift == 0 then rest else key_char code shift ∷ rest

unfoldable pub last_shift : List ℕ → Bool → Bool
last_shift [] shift = shift
last_shift (code ∷ scs) shift = last_shift scs (shift_after code shift)

pub record Typed (w w' : World) (t : ℕ) (text : List ℕ) : Type 0 where
  pub idle : IsIdle w'
  pub raw_gets : contents w'.tty.raw_input ≡ push_all text (contents w.tty.raw_input)
  pub waiting : w'.tty.task_worker_wait ≡ some t
  pub input_same : w'.tty.input ≡ w.tty.input

kb_ring_handle_input-Typed :
    (sc : ℕ) (shift : Bool) {w : World} {t : ℕ}
    → IsIdle w
    → w.tty.task_worker_wait ≡ some t
    → (w' : World) × (kb_ring_handle_input sc shift w ≡ some ((translate_scancode sc shift).1, w'))
      × Typed w w' t (
          if (translate_scancode sc shift).0 == 0 then [] else (translate_scancode sc shift).0 ∷ [])
unfolding kb_ring_handle_input
kb_ring_handle_input-Typed sc shift {w} {t} v wait =
    let c : ℕ = (translate_scancode sc shift).0 in
    elim (Bool-cases (c == 0)) [
      | inl silent ↦
          rw silent
            (w, refl, record { idle = v; raw_gets = refl; waiting = wait; input_same = refl })
      | inr char ↦ rw char (elim (ℕ_discrete (next w.tty.raw_input.head) w.tty.raw_input.tail) [
        | yes full ↦
            let test : (next w.tty.raw_input.head == w.tty.raw_input.tail) ≡ true = ground arith in
            let kept : contents w.tty.raw_input ≡ push c (contents w.tty.raw_input) =
              rw (put-full c w.tty.raw_input full) at
                (contents-push c w.tty.raw_input v.raw_ring) in
            rw test
              (w, refl, record { idle = v; raw_gets = kept; waiting = wait; input_same = refl })
        | no room ↦
            let test : (next w.tty.raw_input.head == w.tty.raw_input.tail) ≡ false = ground arith in
            (
              record w {
                tty = record w.tty { raw_input = put c w.tty.raw_input };
                states = wake_task t w.states;
              },
              rw test (
                  ap
                    (λ o. elim o [
                      | none ↦ none
                      | some u ↦ some (
                        (translate_scancode sc shift).1,
                        record w {
                          tty = record w.tty { raw_input = put c w.tty.raw_input };
                          states = wake_task u w.states;
                        },
                      )
                    ])
                    wait),
              record {
                idle = record {
                  raw_ring = put-IsRing c v.raw_ring;
                  input_ring = v.input_ring;
                  output_ring = v.output_ring;
                  raw_free = v.raw_free;
                  input_free = v.input_free;
                  output_free = v.output_free;
                };
                raw_gets = contents-push c w.tty.raw_input v.raw_ring;
                waiting = wait;
                input_same = refl;
              },
            )
      ])
    ]

text_step :
    (c : ℕ) (rest before : List ℕ) {after : List ℕ}
    → after ≡ push_all (if c == 0 then [] else c ∷ []) before
    → push_all rest after ≡ push_all (if c == 0 then rest else c ∷ rest) before
text_step c rest before e = elim (Bool-cases (c == 0)) [
  | inl silent ↦ rw silent (ap (push_all rest) (rw silent at e))
  | inr char ↦ rw char (ap (push_all rest) (rw char at e))
]

type_all-Typed :
    (scs : List ℕ) (shift : Bool) {w : World} {t : ℕ}
    → All (λ code. code < 256) scs
    → IsIdle w
    → w.tty.task_worker_wait ≡ some t
    → (w' : World) × (type_all scs shift w ≡ some (last_shift scs shift, w'))
      × Typed w w' t (key_text scs shift)
unfolding type_all key_text last_shift
type_all-Typed [] shift {w} bytes v wait =
    (w, refl, record { idle = v; raw_gets = refl; waiting = wait; input_same = refl })
type_all-Typed (sc ∷ scs) shift {w} {t} bytes v wait =
    let (w1, e1, t1) =
      rw (translate_scancode_lem shift sc bytes.0) at
        (kb_ring_handle_input-Typed sc shift v wait) in
    let (w2, e2, t2) = type_all-Typed scs (shift_after sc shift) bytes.1 t1.idle t1.waiting in
    (
      w2,
      rw e1 e2,
      record {
        idle = t2.idle;
        raw_gets =
            t2.raw_gets
            ∙ text_step (key_char sc shift) (key_text scs (shift_after sc shift))
                (contents w.tty.raw_input) t1.raw_gets;
        waiting = t2.waiting;
        input_same = t2.input_same ∙ t1.input_same;
      },
    )

-- With no lock held, well-formed rings, an empty raw input and the worker waiting, a run of scan
-- codes, which are bytes, and a round of the worker both return. The shift state is that of the
-- keys that were pressed and let go, and the reader's input gets what the line discipline sends for
-- the characters that the US layout gives the keys, of which the raw input keeps the first 1023.
pub keys-worker_round :
    (scs edit : List ℕ) (shift : Bool) {w : World} {t : ℕ}
    → All (λ code. code < 256) scs
    → IsIdle w
    → w.tty.task_worker_wait ≡ some t
    → contents w.tty.raw_input ≡ []
    → (w1 w2 : World) × (type_all scs shift w ≡ some (last_shift scs shift, w1))
      × (worker_round edit w1
          ≡ some ((edit_all (push_all (key_text scs shift) []) edit).edited, w2))
      × IsIdle w2
      × (contents w2.tty.raw_input ≡ [])
      × (contents w2.tty.input
          ≡ push_all (edit_all (push_all (key_text scs shift) []) edit).sent (contents w.tty.input))
keys-worker_round scs edit shift {w} {t} bytes v wait empty =
    let (w1, e1, typed) = type_all-Typed scs shift bytes v wait in
    let raw : contents w1.tty.raw_input ≡ push_all (key_text scs shift) [] =
      rw empty at typed.raw_gets in
    let (w2, e2, d) = rw raw at (worker_round-edit_all edit typed.idle) in
    (w1, w2, e1, e2, d.idle, d.raw_empty, d.input_gets ∙ rw typed.input_same)
