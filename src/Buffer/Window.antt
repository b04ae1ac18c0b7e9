-- ===== src/Buffer/Window.antt =====
-- Indices that go round at `blocks`: the `k` of them from `l` on. The arithmetic of `next` and `last`.
use native.Mathlib.Nat.{mod-add-mod, mod-eq_of_lt, mod-eq-sub-mod, add-mod_right}
use native.Mathlib.Decide.{dec_lt}
use rdma_comm_core.Prelude.{
  ℕ, zero, suc, ◌+◌, ◌-◌, ◌%◌, ◌≤◌, ◌<◌, ◌≡◌, ◌≢◌, refl, sym, ap, ◌∙◌, Bool, true, false, ◌||◌,
  List, [], ◌∷◌, ◌++◌, ◌==◌, arith, length,
}

unfoldable pub window : ℕ → ℕ → ℕ → List ℕ
window blocks l zero = []
window blocks l (suc k) = (l % blocks) ∷ window blocks (suc l) k

unfoldable pub contains : List ℕ → ℕ → Bool
contains [] i = false
contains (x ∷ xs) i = x == i || contains xs i

pub contains-snoc : (xs : List ℕ) (x i : ℕ) → contains (xs ++ x ∷ []) i ≡ (x == i || contains xs i)
unfolding contains
contains-snoc [] x i = ground arith
contains-snoc (y ∷ ys) x i = ground (arith, contains-snoc ys x i)

pub window-suc :
    (blocks l k : ℕ) → window blocks l (suc k) ≡ window blocks l k ++ ((l + k) % blocks) ∷ []
unfolding window
window-suc blocks l zero = ap (λ (n : ℕ). (n % blocks) ∷ []) (omega arith)
window-suc blocks l (suc k) =
    let e : suc l + k ≡ l + suc k = omega arith in
    ap (λ w. (l % blocks) ∷ w)
      (window-suc blocks (suc l) k ∙ ap (λ (n : ℕ). window blocks (suc l) k ++ (n % blocks) ∷ []) e)

pub length-window : (blocks l k : ℕ) → length (window blocks l k) ≡ k
unfolding window
length-window blocks l zero = refl
length-window blocks l (suc k) = ap suc (length-window blocks (suc l) k)

-- Fewer than `blocks` steps round do not come back.
step-ne : (blocks h k : ℕ) → h < blocks → suc k < blocks → (h + suc k) % blocks ≢ h
step-ne blocks h k hh hk = elim (dec_lt (h + suc k) blocks) [
  | yes p ↦ omega (arith, mod-eq_of_lt p)
  | no p ↦ omega (
    arith,
    mod-eq-sub-mod {n = h + suc k} {m = blocks} (omega arith),
    mod-eq_of_lt {n = h + suc k - blocks} {m = blocks} (omega arith),
  )
]

mod-ne : (blocks a d : ℕ) → suc d < blocks → (a + suc d) % blocks ≢ a % blocks
mod-ne blocks a d h e =
    step-ne blocks (a % blocks) d (omega arith) h (mod-add-mod a blocks (suc d) ∙ e)

-- An index at most `blocks` steps ahead of a window, and not in reach of it, is not inside.
pub window_fresh :
    (blocks l k j : ℕ)
    → l + k ≤ j
    → j < l + blocks
    → contains (window blocks l k) (j % blocks) ≡ false
unfolding window contains
window_fresh blocks l zero j h g = refl
window_fresh blocks l (suc k) j h g =
    ground (arith, apart, window_fresh blocks (suc l) k j (omega arith) (omega arith))
  where
    apart : l % blocks ≢ j % blocks
    apart e =
        let s : l + suc (j - l - 1) ≡ j = omega arith in
        mod-ne blocks l (j - l - 1) (omega arith) (ap (λ (n : ℕ). n % blocks) s ∙ sym e)

pub window_around :
    (blocks l k : ℕ) → suc k ≤ blocks → contains (window blocks (suc l) k) (l % blocks) ≡ false
window_around blocks l k h =
    ap (contains (window blocks (suc l) k)) (sym (add-mod_right l blocks))
    ∙ window_fresh blocks (suc l) k (l + blocks) (omega arith) (omega arith)

pub window_head : (blocks l k : ℕ) → 0 < k → contains (window blocks l k) (l % blocks) ≡ true
unfolding window contains
window_head blocks l zero h = absurd (omega arith)
window_head blocks l (suc k) h = ground arith
