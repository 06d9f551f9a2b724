-- ===== src/Tty/Reader.antt =====
-- The reads of src/lib/tty.c.
use tbs_kernel.Tty.{
  World, got, blocks, line, tty_read, tty_read_line, read_line_loop, newline, block_current,
}
use tbs_kernel.Tty.Buffer.{contents, get, contents-get, contents-empty, get-IsRing}
use tbs_kernel.Base.{
  ℕ, zero, suc, ◌<◌, ◌≡◌, refl, sym, ◌∙◌, ◌≢◌, true, false, some, List, [], ◌∷◌, ◌++◌, append_assoc,
  arith, ℕ_discrete, ◌==◌, length, All, ◌+◌, length-append,
}
use tbs_kernel.Spinlock.{spinlock_acquire, spinlock_release}
use tbs_kernel.Tty.Write.{IsIdle}

-- A read takes the oldest byte of the input.
pub tty_read-got :
    {w : World} {c : ℕ} {rest : List ℕ}
    → IsIdle w
    → contents w.tty.input ≡ c ∷ rest
    → (w' : World) × (tty_read w ≡ some (got c w')) × IsIdle w' × (contents w'.tty.input ≡ rest)
unfolding tty_read spinlock_acquire spinlock_release
tty_read-got {w} {c} {rest} v e = elim (ℕ_discrete w.tty.input.head w.tty.input.tail) [
  | yes empty ↦ absurd (cc (sym e ∙ contents-empty w.tty.input empty))
  | no more ↦
      let g : contents w.tty.input ≡ (get w.tty.input).0 ∷ contents (get w.tty.input).1 =
        contents-get v.input_ring more in
      let t : (w.tty.input.head == w.tty.input.tail) ≡ false = ground arith in
      let both : ((get w.tty.input).0 ≡ c) × (contents (get w.tty.input).1 ≡ rest) =
        ground (arith, g, e) in
      (
        record w {
          tty = record w.tty {
            input = (get w.tty.input).1;
            input_lock = record { locked = 0; owner = some w.current_task };
          };
        },
        rw (t, v.input_free, both.0),
        record {
          raw_ring = v.raw_ring;
          input_ring = get-IsRing v.input_ring;
          output_ring = v.output_ring;
          raw_free = v.raw_free;
          input_free = refl;
          output_free = v.output_free;
        },
        both.1,
      )
]

-- With no input a read blocks the running task and takes nothing.
pub tty_read-blocks :
    {w : World}
    → contents w.tty.input ≡ []
    → IsIdle w
    → tty_read w ≡ some (blocks (block_current w))
unfolding tty_read
tty_read-blocks {w} e v = elim (ℕ_discrete w.tty.input.head w.tty.input.tail) [
  | yes empty ↦ let t : (w.tty.input.head == w.tty.input.tail) ≡ true = ground arith in rw t
  | no more ↦ absurd (cc (sym e ∙ contents-get v.input_ring more))
]

module _ {rest : List ℕ} where
  read_line_loop-line :
      (left : ℕ) (text written used behind : List ℕ) {w : World}
      → IsIdle w
      → All (λ c. c ≢ newline) text
      → length text < left
      → length used ≡ length text + 2
      → contents w.tty.input ≡ text ++ newline ∷ rest
      → (w' : World) × (read_line_loop left written (used ++ behind) w
          ≡ some (
              line
                (length written + length text + 1)
                (written ++ (text ++ newline ∷ 0 ∷ behind))
                w'))
        × IsIdle w'
        × (contents w'.tty.input ≡ rest)
  unfolding read_line_loop
  read_line_loop-line zero text written used behind v a h size e = absurd (omega (arith, h))
  read_line_loop-line (suc left) text written [] behind v a h size e = absurd (omega (arith, size))
  read_line_loop-line (suc left) [] written (b ∷ []) behind v a h size e =
      absurd (omega (arith, size))
  read_line_loop-line (suc left) [] written (b ∷ b' ∷ []) behind {w} v a h size e =
      let (w1, e1, v1, r1) = tty_read-got v e in
      let count : length (written ++ newline ∷ []) ≡ length written + 0 + 1 =
        omega (arith, length-append written (newline ∷ [])) in
      (w1, rw (e1, count, append_assoc written (newline ∷ []) (0 ∷ behind)), v1, r1)
  read_line_loop-line (suc left) [] written (b ∷ b' ∷ b'' ∷ used) behind v a h size e =
      absurd (omega (arith, size))
  read_line_loop-line (suc left) (c ∷ text) written (b ∷ used) behind {w} v a h size e =
      let (w1, e1, v1, r1) = tty_read-got v e in
      let (w2, e2, v2, r2) =
        read_line_loop-line left text (written ++ c ∷ []) used behind v1 a.1 (omega (arith, h))
          (omega (arith, size)) r1 in
      let t : (c == newline) ≡ false = ground (arith, a.0) in
      let count : length (written ++ c ∷ []) + length text + 1
          ≡ length written + suc (length text) + 1 =
        omega (arith, length-append written (c ∷ [])) in
      (
        w2,
        rw (e1, t, ← count, ← append_assoc written (c ∷ []) (text ++ newline ∷ 0 ∷ behind)) e2,
        v2,
        r2,
      )

-- On a terminal with no lock held and well-formed rings, let a whole line wait in the input that
-- with its newline has at most `maxlen` bytes, and let the buffer have room for it and one byte
-- more. Then `tty_read_line` writes the line, its newline and a terminator to the buffer, keeps the
-- bytes behind, returns the number of bytes before the terminator, and leaves in the input what is
-- behind the line.
pub tty_read_line-line :
    (maxlen : ℕ) (text rest used behind : List ℕ) {w : World}
    → IsIdle w
    → All (λ c. c ≢ newline) text
    → length text < maxlen
    → length used ≡ length text + 2
    → contents w.tty.input ≡ text ++ newline ∷ rest
    → (w' : World) × (tty_read_line (used ++ behind) maxlen w
        ≡ some (line (length text + 1) (text ++ newline ∷ 0 ∷ behind) w'))
      × IsIdle w'
      × (contents w'.tty.input ≡ rest)
unfolding tty_read_line
tty_read_line-line maxlen text rest used behind v a h size e =
    let (w1, e1, v1, r1) = read_line_loop-line maxlen text [] used behind v a h size e in
    let count : 0 + length text + 1 ≡ length text + 1 = omega arith in (w1, rw count at e1, v1, r1)
