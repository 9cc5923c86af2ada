-- ===== src/BoardCds/Window.antt =====
-- The bytes at an address as a list: how a copy changes them.
use fs_nasa_cfs_psp.Base.{
  ℕ, zero, suc, ◌+◌, ◌-◌, ◌≤◌, ◌<◌, ◌≡◌, refl, ap, ◌∙◌, inl, inr, List, [], ◌∷◌, ◌++◌, arith,
  length, take, drop, drop-append, take-append,
}
use fs_nasa_cfs_psp.DirectMemory.{Memory, put}
use fs_nasa_cfs_psp.ReservedMemory.Cds.{Outside}
use fs_nasa_cfs_psp.BoardCds.{window, poke}

pub length-window : (m : Memory) (a n : ℕ) → length (window m a n) ≡ n
unfolding window
length-window m a zero = refl
length-window m a (suc n) = ap suc (length-window m (a + 1) n)

pub window_split :
    (m : Memory) (a n k : ℕ) → window m a (n + k) ≡ window m a n ++ window m (a + n) k
unfolding window
window_split m a zero k =
    let same : a ≡ a + 0 = omega arith in
    let none_before : 0 + k ≡ k = omega arith in rw none_before (ap (λ (b : ℕ). window m b k) same)
window_split m a (suc n) k =
    let next : suc n + k ≡ suc (n + k) = omega arith in
    let along : a + 1 + n ≡ a + suc n = omega arith in
    rw next (ap (λ (t : List ℕ). m a ∷ t) (window_split m (a + 1) n k ∙ rw along refl))

pub poke-Outside :
    (m : Memory) (a : ℕ) (bs : List ℕ) (x : ℕ) → Outside a (length bs) x → poke m a bs x ≡ m x
unfolding poke
poke-Outside m a [] x out = refl
poke-Outside m a (b ∷ bs) x out =
    let further : Outside (a + 1) (length bs) x = elim out [
      | inl before ↦ inl (omega arith)
      | inr past ↦ inr (omega arith)
    ] in
    ground (arith, poke-Outside m (a + 1) bs x further)

pub window-cong :
    (m t : Memory) (a n : ℕ)
    → ((x : ℕ) → a ≤ x → x < a + n → t x ≡ m x)
    → window t a n ≡ window m a n
unfolding window
window-cong m t a zero h = refl
window-cong m t a (suc n) h =
    let here : t a ≡ m a = h a (omega arith) (omega arith) in
    let rest = window-cong m t (a + 1) n (λ x le lt. h x (omega arith) (omega arith)) in
    rw (here, rest) refl

pub window-poke : (m : Memory) (a : ℕ) (bs : List ℕ) → window (poke m a bs) a (length bs) ≡ bs
unfolding window poke
window-poke m a [] = refl
window-poke m a (b ∷ bs) =
    let here : put (poke m (a + 1) bs) a b a ≡ b = ground arith in
    let rest =
      window-cong (poke m (a + 1) bs) (poke m a (b ∷ bs)) (a + 1) (length bs)
        (λ x le lt. ground arith) in
    rw (here, rest, window-poke m (a + 1) bs) refl

-- A window on a block, around the bytes of a copy into it.
window_around :
    (m : Memory) (a offset n k : ℕ)
    → window m a (offset + (n + k))
      ≡ window m a offset ++ (window m (a + offset) n ++ window m (a + offset + n) k)
window_around m a offset n k =
    window_split m a offset (n + k)
    ∙ ap (λ (t : List ℕ). window m a offset ++ t) (window_split m (a + offset) n k)

pub take-window :
    (m : Memory) (a offset size : ℕ)
    → offset ≤ size
    → take offset (window m a size) ≡ window m a offset
take-window m a offset size le =
    let same : size ≡ offset + (size - offset) = omega arith in
    rw (same, window_split m a offset (size - offset))
      (take-append offset (window m a offset) (window m (a + offset) (size - offset))
        (length-window m a offset))

pub drop-window :
    (m : Memory) (a offset size : ℕ)
    → offset ≤ size
    → drop offset (window m a size) ≡ window m (a + offset) (size - offset)
drop-window m a offset size le =
    let k = size - offset in
    let same : size ≡ offset + k = omega arith in
    ap (λ (n : ℕ). drop offset (window m a n)) same
    ∙ ap (drop offset) (window_split m a offset k)
    ∙ drop-append offset (window m a offset) (window m (a + offset) k) (length-window m a offset)

-- A copy into a block is a splice of its bytes.
pub window-poke_inside :
    (m : Memory) (a offset size : ℕ) (bs : List ℕ)
    → offset + length bs ≤ size
    → window (poke m (a + offset) bs) a size
      ≡ window m a offset ++ (bs ++ window m (a + offset + length bs) (size - (offset + length bs)))
window-poke_inside m a offset size bs le =
    let n = length bs in
    let k = size - (offset + n) in
    let t = poke m (a + offset) bs in
    let same : size ≡ offset + (n + k) = omega arith in
    let before : window t a offset ≡ window m a offset =
      window-cong m t a offset (λ x lo hi. poke-Outside m (a + offset) bs x (inl (omega arith))) in
    let after : window t (a + offset + n) k ≡ window m (a + offset + n) k =
      window-cong m t (a + offset + n) k
        (λ x lo hi. poke-Outside m (a + offset) bs x (inr (omega arith))) in
    ap (window t a) same
    ∙ window_around t a offset n k
    ∙ rw (before, after, window-poke m (a + offset) bs) refl
