-- ===== src/Ring/Window.antt =====
-- The entries from one position to another, going round the array, and writes outside of them.
use native.Mathlib.Nat.{mod-add-mod, mod-eq_of_lt, mod-eq-sub-mod, mod-lt, add-zero, add-mod_right}
use mathlib.Core.Path.{subst}
use solana_c_indexer.Base.{
  ℕ, zero, suc, ◌+◌, ◌-◌, ◌%◌, ◌≤◌, ◌<◌, ◌≡◌, refl, sym, ◌∙◌, ◌≢◌, ap, ap₂, inl, inr, List, [], ◌∷◌,
  ◌++◌, length, get_or, set, get_or-set_ne, get_or-set_self, arith, ltb, Bool-cases,
}
use solana_c_indexer.Ring.{Entry, blank}

abbrev pub window : List Entry → ℕ → ℕ → ℕ → List Entry
window q d t zero = []
window q d t (suc n) = get_or q (t % d) blank ∷ window q d (t + 1) n

pub length-window : (q : List Entry) (d t n : ℕ) → length (window q d t n) ≡ n
length-window q d t zero = refl
length-window q d t (suc n) = ap suc (length-window q d (t + 1) n)

-- Fewer than `d` steps round the array do not come back.
mod-ne : (t m d : ℕ) → 0 < m → m < d → t % d ≢ (t + m) % d
mod-ne t m d pos lt = elim (Bool-cases (ltb (t % d + m) d)) [
  | inl small ↦
      let below : t % d + m < d = ground arith in
      omega (arith, mod-add-mod t d m, mod-eq_of_lt below)
  | inr large ↦
      let above : d ≤ t % d + m = ground arith in
      let rest : t % d + m - d < d = omega arith in
      omega (arith, mod-add-mod t d m, mod-eq-sub-mod above, mod-eq_of_lt rest)
]

-- A write at a position at least `n` and less than `d` places on leaves the `n` entries alone.
pub window-set :
    (q : List Entry) (d t n m : ℕ) (v : Entry)
    → n ≤ m
    → m < d
    → window (set q ((t + m) % d) v) d t n ≡ window q d t n
window-set q d t zero m v h lt = refl
window-set q d t (suc n) m v h lt =
    let e : t + m ≡ t + 1 + (m - 1) = omega arith in
    ap₂ ◌∷◌ (get_or-set_ne q v blank (λ same. mod-ne t m d (omega arith) lt (sym same))) (
      subst (λ k. window (set q (k % d) v) d (t + 1) n ≡ window q d (t + 1) n) (sym e)
        (window-set q d (t + 1) n (m - 1) v (omega arith) (omega arith)))

pub window-snoc :
    (q : List Entry) (d t n : ℕ)
    → window q d t (suc n) ≡ window q d t n ++ get_or q ((t + n) % d) blank ∷ []
window-snoc q d t zero = ap (λ k. get_or q (k % d) blank ∷ []) (sym (add-zero t))
window-snoc q d t (suc n) =
    let e : t + 1 + n ≡ t + suc n = omega arith in
    ap (λ l. get_or q (t % d) blank ∷ l)
      (subst (λ k. window q d (t + 1) (suc n) ≡ window q d (t + 1) n ++ get_or q (k % d) blank ∷ [])
        e (window-snoc q d (t + 1) n))

-- A write just behind the entries adds it to them.
pub window-append :
    (q : List Entry) (d t n : ℕ) (v : Entry)
    → d ≤ length q
    → n < d
    → window (set q ((t + n) % d) v) d t (suc n) ≡ window q d t n ++ v ∷ []
window-append q d t n v room lt =
    window-snoc (set q ((t + n) % d) v) d t n
    ∙ ap₂ (λ l e. l ++ e ∷ []) (window-set q d t n n v (omega arith) lt)
        (get_or-set_self q ((t + n) % d) v blank (omega (arith, mod-lt (t + n) {m = d})))

-- A write at the position before the entries leaves up to `d - 1` of them alone.
pub window-set_before :
    (q : List Entry) (d t n : ℕ) (v : Entry)
    → n < d
    → window (set q (t % d) v) d (t + 1) n ≡ window q d (t + 1) n
window-set_before q d t n v lt =
    let e : t + 1 + (d - 1) ≡ t + d = omega arith in
    let same : (t + 1 + (d - 1)) % d ≡ t % d = ap (λ k. k % d) e ∙ add-mod_right t d in
    subst (λ i. window (set q i v) d (t + 1) n ≡ window q d (t + 1) n) same
      (window-set q d (t + 1) n (d - 1) v (omega arith) (omega arith))

pub window_first :
    (q : List Entry) (d t n : ℕ)
    → 0 < n
    → window q d t n ≡ get_or q (t % d) blank ∷ window q d (t + 1) (n - 1)
window_first q d t zero pos = absurd (omega arith)
window_first q d t (suc n) pos =
    let e : n ≡ suc n - 1 = omega arith in ap (λ k. get_or q (t % d) blank ∷ window q d (t + 1) k) e
