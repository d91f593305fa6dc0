-- ===== src/Package/Checksum/Folding.antt =====
-- The folding loop of the checksum in closed form.
use io_trepublic_plus.Base.{
  ℕ, zero, suc, ◌+◌, ◌-◌, ◌/◌, ◌%◌, ◌^◌, ◌<◌, ◌≡◌, refl, sym, ◌∙◌, inl, inr, Bool-cases, arith, ltb,
  ◌==◌, if◌then◌else◌,
}
use io_trepublic_plus.Package.Checksum.{fold_loop, fold_sum}

-- The ones' complement sum of a number: its residue in 1 .. 65535, and 0 for 0 only.
abbrev pub residue : ℕ → ℕ
residue s = if s == 0 then 0 else (s - 1) % 65535 + 1

residue-small : (s : ℕ) → s < 2 ^ 16 → residue s ≡ s
residue-small s h = ground arith

residue-fold : (s : ℕ) → residue (s % 2 ^ 16 + s / 2 ^ 16) ≡ residue s
residue-fold s = ground arith

fold_loop-residue : (f s : ℕ) → residue (fold_loop f s) ≡ residue s
unfolding fold_loop
fold_loop-residue zero s = refl
fold_loop-residue (suc f) s = elim (Bool-cases (ltb 0 (s / 2 ^ 16))) [
  | inl h ↦ rw h (fold_loop-residue f (s % 2 ^ 16 + s / 2 ^ 16) ∙ residue-fold s)
  | inr h ↦ rw h
]

fold_loop-ends : (s : ℕ) → s < 2 ^ 32 → fold_loop 3 s < 2 ^ 16
unfolding fold_loop
fold_loop-ends s h = ground arith

-- On every 32-bit sum the folding loop ends within its fuel, below 2 ^ 16, in the ones' complement
-- sum: 0 for 0, and otherwise the number in 1 .. 65535 that is congruent to it modulo 65535.
pub fold_sum-residue : (s : ℕ) → s < 2 ^ 32 → (fold_sum s ≡ residue s) × (fold_sum s < 2 ^ 16)
unfolding fold_sum
fold_sum-residue s h =
    let small = fold_loop-ends s h in
    (sym (residue-small (fold_loop 3 s) small) ∙ fold_loop-residue 3 s, small)
