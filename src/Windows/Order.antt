-- ===== src/Windows/Order.antt =====
-- The windows of src/lib/WM.c are drawn in the order of their `z`.
use tbs_kernel.Base.{
  ℕ, zero, suc, ◌≤◌, ◌≡◌, refl, ap, inl, inr, [], ◌∷◌, ◌++◌, append-nil, arith, ltb, Bool-cases,
  length, All,
}
use tbs_kernel.Windows.{WindowList, order_pass, Window, order_windows}
use mathlib.Core.List.{Perm}
use mathlib.Core.List.Perm

-- Every window is at or below the bound, and every one at or above it.
abbrev AllUpTo : ℕ → WindowList → Type 0
AllUpTo top = All (λ (win : Window). win.z ≤ top)

abbrev AllFrom : ℕ → WindowList → Type 0
AllFrom low = All (λ (win : Window). low ≤ win.z)

-- From the back to the front.
abbrev pub IsOrdered : WindowList → Type 0
IsOrdered [] = Unit {0}
IsOrdered (win ∷ windows) = AllFrom win.z windows × IsOrdered windows

order_pass-Perm : (n : ℕ) (windows : WindowList) → Perm (order_pass n windows) windows
unfolding order_pass
order_pass-Perm zero windows = Perm.refl windows
order_pass-Perm (suc n) [] = Perm.refl []
order_pass-Perm (suc n) (a ∷ []) = Perm.refl (a ∷ [])
order_pass-Perm (suc n) (a ∷ b ∷ windows) = elim (Bool-cases (ltb b.z a.z)) [
  | inl h ↦
      rw h (Perm.trans (Perm.cons b (order_pass-Perm n (a ∷ windows))) (Perm.swap a b windows))
  | inr h ↦ rw h (Perm.cons a (order_pass-Perm n (b ∷ windows)))
]

-- What one round does with its part of the list: the highest comes last, and the rest keeps its
-- bounds.
order_pass-highest :
    (k : ℕ) (part rest : WindowList)
    → length part ≡ suc k
    → (others : WindowList) × (top : Window) × (order_pass k (part ++ rest) ≡ others ++ top ∷ rest)
      × (length others ≡ k)
      × AllUpTo top.z others
      × AllUpTo top.z part
      × ((low : ℕ) → AllUpTo low part → AllUpTo low (others ++ top ∷ []))
unfolding order_pass
order_pass-highest zero [] rest size = absurd (omega (arith, size))
order_pass-highest zero (a ∷ []) rest size = ([], a, refl, refl, _, (omega arith, _), λ low h. h)
order_pass-highest zero (a ∷ b ∷ part) rest size = absurd (omega (arith, size))
order_pass-highest (suc k) [] rest size = absurd (omega (arith, size))
order_pass-highest (suc k) (a ∷ []) rest size = absurd (omega (arith, size))
order_pass-highest (suc k) (a ∷ b ∷ part) rest size = elim (Bool-cases (ltb b.z a.z)) [
  | inl h ↦
      let (others, top, e, n, below, part_below, bound) =
        order_pass-highest k (a ∷ part) rest (omega (arith, size)) in
      (
        b ∷ others,
        top,
        rw (h, e) refl,
        ap suc n,
        (ground (arith, h, part_below.0), below),
        (part_below.0, (ground (arith, h, part_below.0), part_below.1)),
        λ low all. (all.1.0, bound low (all.0, all.1.1)),
      )
  | inr h ↦
      let (others, top, e, n, below, part_below, bound) =
        order_pass-highest k (b ∷ part) rest (omega (arith, size)) in
      (
        a ∷ others,
        top,
        rw (h, e) refl,
        ap suc n,
        (ground (arith, h, part_below.0), below),
        (ground (arith, h, part_below.0), part_below),
        λ low all. (all.0, bound low all.1),
      )
]

AllUpTo-last :
    (low : ℕ) (others : WindowList) (top : Window)
    → AllUpTo low (others ++ top ∷ [])
    → AllUpTo low others × (top.z ≤ low)
AllUpTo-last low [] top h = (_, h.0)
AllUpTo-last low (a ∷ others) top h =
    let (rest, last) = AllUpTo-last low others top h.1 in ((h.0, rest), last)

-- The part of the list that is still to be ordered lies below the part that is.
abbrev IsBelow : WindowList → WindowList → Type 0
IsBelow part = All (λ (t : Window). AllUpTo t.z part)

round-IsBelow :
    (part others rest : WindowList) (top : Window)
    → ((low : ℕ) → AllUpTo low part → AllUpTo low (others ++ top ∷ []))
    → IsBelow part rest
    → IsBelow others rest × AllFrom top.z rest
round-IsBelow part others [] top bound h = (_, _)
round-IsBelow part others (t ∷ rest) top bound h =
    let (here, low) = AllUpTo-last t.z others top (bound t.z h.0) in
    let (below, from) = round-IsBelow part others rest top bound h.1 in ((here, below), (low, from))

order_windows-IsOrdered_from :
    (k : ℕ) (part rest : WindowList)
    → length part ≡ k
    → IsBelow part rest
    → IsOrdered rest
    → IsOrdered (order_windows k (part ++ rest))
unfolding order_windows
order_windows-IsOrdered_from zero [] rest size below ordered = ordered
order_windows-IsOrdered_from zero (a ∷ part) rest size below ordered = absurd (omega (arith, size))
order_windows-IsOrdered_from (suc k) part rest size below ordered =
    let (others, top, e, n, top_above, part_below, bound) = order_pass-highest k part rest size in
    let (below', from) = round-IsBelow part others rest top bound below in
    rw e (order_windows-IsOrdered_from k others (top ∷ rest) n (top_above, below') (from, ordered))

order_windows-Perm : (k : ℕ) (windows : WindowList) → Perm (order_windows k windows) windows
unfolding order_windows
order_windows-Perm zero windows = Perm.refl windows
order_windows-Perm (suc k) windows =
    Perm.trans (order_windows-Perm k (order_pass k windows)) (order_pass-Perm k windows)

-- The loops of `draw_gui_framebuffer` put the windows in the order of their `z`, and neither lose
-- nor double one.
pub order_windows-IsOrdered :
    (windows : WindowList)
    → IsOrdered (order_windows (length windows) windows)
      × Perm (order_windows (length windows) windows) windows
order_windows-IsOrdered windows =
    let none_after : IsBelow windows [] = _ in
    let ordered : IsOrdered (order_windows (length windows) (windows ++ [])) =
      order_windows-IsOrdered_from (length windows) windows [] refl none_after _ in
    (rw (append-nil windows) at ordered, order_windows-Perm (length windows) windows)
